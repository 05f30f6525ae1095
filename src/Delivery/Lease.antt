-- ===== src/Delivery/Lease.antt =====
-- claim, current, renew_lease, release and HistoryPublisher.fail of history_delivery.py, with
-- history_failure_reports.record. Each is one transaction at the time `now`; `digest` is
-- history.digest of the sources, and `fingerprint` the digest that
-- history_configuration_fingerprint takes of a scope's configuration.
use workspace_zulip_bridge.Common.{
  ℕ, ◌+◌, ◌*◌, String, Bool, true, false, not, ◌&&◌, ◌||◌, Option, none, some, List, [], ◌∷◌, ◌==◌,
  str_eq, ltb, leb, if◌then◌else◌, same, update_where, length,
}
use workspace_zulip_bridge.Common.Select.{first_by}
use workspace_zulip_bridge.Queue.Types.{second}
use workspace_zulip_bridge.Queue.Lifecycle.{same_text}
use workspace_zulip_bridge.Delivery.{
  BatchKey, BatchRow, ImportStatus, Scope, Source, Item, FailureReport, DeliveryStore, ErrorValue,
  sources_for, sources_only, max_sources, safe_error_code,
}

abbrev pub is_pending : ImportStatus → Bool
is_pending ImportStatus.pending = true
is_pending _ = false

-- WHERE project_uuid = … AND provider_realm_uuid = … AND from_id = …
abbrev pub at_key : BatchKey → BatchRow → Bool
at_key key row =
    row.key.project_uuid == key.project_uuid
    && row.key.provider_realm_uuid == key.provider_realm_uuid
    && row.key.from_id == key.from_id

-- AND import_lease = …
abbrev pub holds : ℕ → BatchRow → Bool
holds lease row = same row.import_lease (some lease)

abbrev pub leased : BatchKey → ℕ → BatchRow → Bool
leased key lease row = at_key key row && holds lease row

-- import_lease_until > now()
abbrev pub lease_runs : ℕ → BatchRow → Bool
lease_runs now row = elim row.import_lease_until [ none ↦ false | some until ↦ ltb now until ]

-- import_lease_until IS NULL OR import_lease_until <= now()
abbrev pub lease_over : ℕ → BatchRow → Bool
lease_over now row = elim row.import_lease_until [ none ↦ true | some until ↦ leb until now ]

abbrev pub find_scope : ℕ → ℕ → List Scope → Option Scope
find_scope project realm [] = none
find_scope project realm (scope ∷ scopes) =
    if scope.project_uuid == project && scope.provider_realm_uuid == realm
    then some scope
    else find_scope project realm scopes

abbrev pub is_open_scope : Option Scope → Bool
is_open_scope none = false
is_open_scope (some scope) = not scope.directory_pending

abbrev pub is_registered : Option ℕ → Bool
is_registered none = false
is_registered (some uuid) = true

-- The WHERE clause of the candidate.
unfoldable pub publishable : DeliveryStore → Bool → ℕ → BatchRow → Bool
publishable s allow_admission now row =
    is_open_scope (find_scope row.key.project_uuid row.key.provider_realm_uuid s.scopes)
    && is_pending row.import_status
    && leb row.import_retry_at now
    && lease_over now row
    && (allow_admission || is_registered row.import_uuid)

-- Its ORDER BY clause.
unfoldable pub publish_key : Bool → BatchRow → List ℕ
publish_key prefer_admission row =
    (if is_registered row.import_uuid
      then (if prefer_admission then 1 else 0)
      else (if prefer_admission then 0 else 1))
    ∷ row.import_retry_at
    ∷ row.key.project_uuid
    ∷ row.key.provider_realm_uuid
    ∷ row.key.from_id
    ∷ []

abbrev pub set_batches : (BatchRow → Bool) → (BatchRow → BatchRow) → DeliveryStore → DeliveryStore
set_batches p f s = record s { batches = update_where p f s.batches }

-- any(source["state"] != "complete")
abbrev pub has_incomplete : List (Source × Option String) → Bool
has_incomplete [] = false
has_incomplete (source ∷ sources) = not (same_text source.1 "complete") || has_incomplete sources

abbrev pub is_none {ℓ} : {A : Type ℓ} → List A → Bool
is_none [] = true
is_none _ = false

abbrev pub longer_than {ℓ} : {A : Type ℓ} → ℕ → List A → Bool
longer_than n xs = ltb n (length xs)

module _ (digest : List Source → String) (fingerprint : DeliveryStore → ℕ → ℕ → String) where
  -- The SET clause of a claim.
  unfoldable pub lease_row : ℕ → String → ℕ → BatchRow → BatchRow
  lease_row lease hash now row =
      let kept = same_text row.import_sources_hash hash in
      record row {
        import_lease = some lease;
        import_lease_until = some (now + 120 * second);
        import_mapping_cursor = if kept then row.import_mapping_cursor else none;
        import_sources_hash = some hash;
        import_uuid = if kept then row.import_uuid else none;
      }

  unfoldable pub claim_sources :
      Bool
      → ℕ
      → ℕ
      → DeliveryStore
      → Scope
      → BatchRow
      → List (Source × Option String)
      → Option Item × DeliveryStore
  unfolding lease_row
  claim_sources allow_admission lease now s scope row sources =
      let oversized = longer_than max_sources sources in
      if not oversized && (is_none sources || has_incomplete sources)
      then (
        none,
        set_batches (at_key row.key) (λ b. record b { import_retry_at = now + 2 * second }) s,
      )
      else (let hash = digest (sources_only sources) in
          let claimed = set_batches (at_key row.key) (lease_row lease hash now) s in
          let kept = same_text row.import_sources_hash hash in
          let import_uuid = if kept then row.import_uuid else none in
          if not allow_admission && not (is_registered import_uuid)
          then (
            none,
            set_batches (leased row.key lease)
                (λ b. record b { import_lease = none; import_lease_until = none }) claimed,
          )
          else (
            some (record {
              validation_error = if oversized then some "history_source_limit_exceeded" else none;
              mapping_cursor = if kept then row.import_mapping_cursor else none;
              key = row.key;
              lease = lease;
              generation = scope.generation;
              import_uuid = import_uuid;
              sources = sources_only sources;
            }),
            claimed,
          ))

  unfoldable pub claim_scope :
      Bool → ℕ → ℕ → DeliveryStore → BatchRow → Option Scope → Option Item × DeliveryStore
  unfolding claim_sources sources_for
  claim_scope allow_admission lease now s row none = (none, s)
  claim_scope allow_admission lease now s row (some scope) =
      if scope.directory_pending
        || not (
            str_eq scope.fingerprint
              (fingerprint s row.key.project_uuid row.key.provider_realm_uuid))
      then (none, s)
      else claim_sources allow_admission lease now s scope row
          (sources_for s row.key.project_uuid row.key.provider_realm_uuid)

  -- The second SELECT finds the row of the first again, in the same transaction.
  unfoldable pub claim_row :
      Bool → ℕ → ℕ → DeliveryStore → Option BatchRow → Option Item × DeliveryStore
  unfolding claim_scope
  claim_row allow_admission lease now s none = (none, s)
  claim_row allow_admission lease now s (some row) =
      claim_scope allow_admission lease now s row
        (find_scope row.key.project_uuid row.key.provider_realm_uuid s.scopes)

  -- `lease` is the UUID that uuid4 draws.
  unfoldable pub claim_batch : Bool → Bool → ℕ → ℕ → DeliveryStore → Option Item × DeliveryStore
  unfolding claim_row publishable publish_key
  claim_batch allow_admission prefer_admission lease now s =
      if s.provider_enabled
      then claim_row allow_admission lease now s
          (first_by (publishable s allow_admission now) (publish_key prefer_admission) s.batches)
      else (none, s)

abbrev pub same_source : Source → Source → Bool
same_source a b =
    a.account_uuid == b.account_uuid
    && a.account_generation == b.account_generation
    && a.chat_uuid == b.chat_uuid
    && a.assignment_generation == b.assignment_generation

abbrev pub same_sources : List Source → List Source → Bool
same_sources [] [] = true
same_sources (a ∷ first) (b ∷ second) = same_source a b && same_sources first second
same_sources _ _ = false

unfoldable pub any_batch : (BatchRow → Bool) → List BatchRow → Bool
any_batch p [] = false
any_batch p (row ∷ rows) = p row || any_batch p rows

module _ (fingerprint : DeliveryStore → ℕ → ℕ → String) where
  -- The scope that the item was claimed in is still configured so.
  abbrev pub scope_current : DeliveryStore → Item → Option Scope → Bool
  scope_current s item none = false
  scope_current s item (some scope) =
      not scope.directory_pending
      && scope.generation == item.generation
      && str_eq scope.fingerprint (fingerprint s item.key.project_uuid item.key.provider_realm_uuid)

  unfoldable pub is_current : Item → ℕ → DeliveryStore → Bool
  unfolding any_batch sources_for
  is_current item now s =
      s.provider_enabled
      && any_batch (λ row. leased item.key item.lease row && lease_runs now row) s.batches
      && scope_current s item
          (find_scope item.key.project_uuid item.key.provider_realm_uuid s.scopes)
      && same_sources item.sources
          (sources_only (sources_for s item.key.project_uuid item.key.provider_realm_uuid))

  -- The UPDATE … RETURNING of a lease that still runs.
  unfoldable pub renew_lease : Item → ℕ → DeliveryStore → Bool × DeliveryStore
  unfolding is_current any_batch
  renew_lease item now s =
      let running : BatchRow → Bool = λ row. leased item.key item.lease row && lease_runs now row in
      if is_current item now s
      then (
        any_batch running s.batches,
        set_batches running (λ row. record row { import_lease_until = some (now + 120 * second) })
            s,
      )
      else (false, s)

-- The arguments of `release`.
pub record Release : Type 0 where
  pub status : ImportStatus
  pub job_uuid : Option ℕ
  pub error : ErrorValue
  pub delay : ℕ
  pub reset : Bool

abbrev pub plain_release : Release
plain_release = record {
  status = ImportStatus.pending;
  job_uuid = none;
  error = ErrorValue.null;
  delay = 1;
  reset = false;
}

-- COALESCE(job_uuid, import_uuid)
abbrev pub job_or {ℓ} : {A : Type ℓ} → Option A → Option A → Option A
job_or none held = held
job_or (some job) held = some job

unfoldable pub release_row : Release → ℕ → BatchRow → BatchRow
unfolding safe_error_code
release_row r now row = record row {
  import_status = r.status;
  import_uuid = if r.reset then none else job_or r.job_uuid row.import_uuid;
  import_mapping_cursor = if r.reset then none else row.import_mapping_cursor;
  import_error = safe_error_code r.error;
  import_retry_at = now + r.delay * second;
  import_lease = none;
  import_lease_until = none;
}

unfoldable pub release : Release → Item → ℕ → DeliveryStore → Bool × DeliveryStore
unfolding release_row any_batch
release r item now s = (
  any_batch (leased item.key item.lease) s.batches,
  set_batches (leased item.key item.lease) (release_row r now) s,
)

-- history_failure_reports.record, whose restart_completed is false here.
abbrev pub capture_timeout : String
capture_timeout = "history_capture_write_timeout"

unfoldable pub report_failure : Item → String → ℕ → List FailureReport → List FailureReport
report_failure item code now [] =
    record {
      project_uuid = item.key.project_uuid;
      provider_realm_uuid = item.key.provider_realm_uuid;
      generation = item.generation;
      safe_error_code = code;
      after_account = none;
      complete = false;
      retry_at = now;
    }
    ∷ []
report_failure item code now (report ∷ reports) =
    let rest = report_failure item code now reports in
    if report.project_uuid == item.key.project_uuid
      && report.provider_realm_uuid == item.key.provider_realm_uuid
    then (if (not (report.generation == item.generation)
            || not (str_eq report.safe_error_code code))
          && (not (str_eq code capture_timeout)
              || not (report.generation == item.generation)
              || str_eq report.safe_error_code code)
        then record report {
          generation = item.generation;
          safe_error_code = code;
          after_account = none;
          complete = false;
          retry_at = now;
        }
          ∷ reports
        else report ∷ reports)
    else report ∷ rest

-- mark_health(component of the scope, "degraded", code)
abbrev pub degrade : Item → String → (ℕ → ℕ → Option String) → ℕ → ℕ → Option String
degrade item code health project realm =
    if project == item.key.project_uuid && realm == item.key.provider_realm_uuid
    then some code
    else health project realm

abbrev pub code_or : Option String → String → String
code_or none default = default
code_or (some code) default = code

abbrev pub failure : Item → String → Release
failure item code = record plain_release {
  status = ImportStatus.failed;
  job_uuid = item.import_uuid;
  error = ErrorValue.text code;
}

unfoldable pub fail_released : Item → String → ℕ → Bool × DeliveryStore → Bool × DeliveryStore
unfolding report_failure
fail_released item code now (false, s) = (false, s)
fail_released item code now (true, s) = (
  true,
  record s {
    health = degrade item code s.health;
    reports = report_failure item code now s.reports;
  },
)

abbrev pub is_some_scope : Option Scope → Bool
is_some_scope none = false
is_some_scope (some scope) = true

module _ (fingerprint : DeliveryStore → ℕ → ℕ → String) where
  unfoldable pub fail : Item → ErrorValue → ℕ → DeliveryStore → Bool × DeliveryStore
  unfolding fail_released is_current release safe_error_code
  fail item value now s =
      let code = code_or (safe_error_code value) "history_import_failed" in
      if not
          (is_some_scope (find_scope item.key.project_uuid item.key.provider_realm_uuid s.scopes))
        || not (is_current fingerprint item now s)
      then (false, (release plain_release item now s).1)
      else fail_released item code now (release (failure item code) item now s)
