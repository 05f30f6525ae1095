-- ===== src/Delivery.antt =====
-- history_delivery.py: the tables that the delivery of captured history batches reads and writes
-- (migrations 0039 and 0042), the sources of a scope, and the codes of errors. Rows of a table stand
-- in the order of their UUIDs; times are microseconds, and a lease is a number.
pub mod Lease
pub mod References
pub mod Publish
pub mod Files
pub mod Import
pub mod Fenced
pub mod Answers
pub mod Released
pub mod Claims
pub mod Fences
pub mod Exclusive
pub mod Renewed
pub mod Quantum
mod Tests
use Prim.Native.Char.{code}
use workspace_zulip_bridge.Common.{
  ℕ, zero, suc, String, Bool, true, false, not, ◌&&◌, ◌||◌, Option, none, some, List, [], ◌∷◌, ◌==◌,
  str_eq, ltb, leb, if◌then◌else◌, min, max, same,
}
use workspace_zulip_bridge.Queue.Types.{Mapping}
use workspace_zulip_bridge.Queue.Lifecycle.{same_text}

-- desired_resources of type external_account
pub record AccountRow : Type 0 where
  pub resource_uuid : ℕ
  pub generation : ℕ
  pub deleted : Bool
  pub synchronization_enabled : Bool

-- desired_resources of type external_chat_assignment; COALESCE has been applied to `selected`.
pub record AssignmentRow : Type 0 where
  pub resource_uuid : ℕ
  pub generation : ℕ
  pub deleted : Bool
  pub selected : Bool
  pub external_account_uuid : ℕ
  pub project_id : ℕ
  pub provider_chat_key : String

pub record CursorRow : Type 0 where
  pub account_uuid : ℕ
  pub provider_account_generation : ℕ
  pub provider_realm_uuid : ℕ

pub record JobRow : Type 0 where
  pub account_uuid : ℕ
  pub provider_chat_key : String
  pub state : String

-- One of item["envelope"]["sources"].
pub record Source : Type 0 where
  pub account_uuid : ℕ
  pub account_generation : ℕ
  pub chat_uuid : ℕ
  pub assignment_generation : ℕ

-- project_uuid, provider_realm_uuid and from_id of a batch
pub record BatchKey : Type 0 where
  pub project_uuid : ℕ
  pub provider_realm_uuid : ℕ
  pub from_id : ℕ

-- A row of zulip_history_scopes.
pub record Scope : Type 0 where
  pub project_uuid : ℕ
  pub provider_realm_uuid : ℕ
  pub generation : ℕ
  pub fingerprint : String
  pub directory_pending : Bool

pub data ImportStatus : Type 0 where
  pending complete failed : ImportStatus

-- import_mapping_cursor: the place of an account, "users" or "messages", and the last identifier.
pub record MappingCursor : Type 0 where
  pub account : ℕ
  pub kind : String
  pub after : ℕ

-- A row of zulip_history_batches.
pub record BatchRow : Type 0 where
  pub key : BatchKey
  pub import_status : ImportStatus
  pub import_uuid : Option ℕ
  pub import_lease : Option ℕ
  pub import_lease_until : Option ℕ
  pub import_retry_at : ℕ
  pub import_error : Option String
  pub import_sources_hash : Option String
  pub import_mapping_cursor : Option MappingCursor

-- A row of zulip_history_failure_reports.
pub record FailureReport : Type 0 where
  pub project_uuid : ℕ
  pub provider_realm_uuid : ℕ
  pub generation : ℕ
  pub safe_error_code : String
  pub after_account : Option ℕ
  pub complete : Bool
  pub retry_at : ℕ

pub record DeliveryStore : Type 0 where
  pub provider_enabled : Bool
  pub accounts : List AccountRow
  pub assignments : List AssignmentRow
  pub cursors : List CursorRow
  pub jobs : List JobRow
  pub scopes : List Scope
  pub batches : List BatchRow
  pub mappings : List Mapping
  pub aliases : List Mapping
  pub reports : List FailureReport
  -- bridge_health of a scope: the code of its degraded state
  pub health : ℕ → ℕ → Option String

-- What `claim` hands out.
pub record Item : Type 0 where
  pub validation_error : Option String
  pub mapping_cursor : Option MappingCursor
  pub key : BatchKey
  pub lease : ℕ
  pub generation : ℕ
  pub import_uuid : Option ℕ
  pub sources : List Source

abbrev pub account_source : List AccountRow → ℕ → Option AccountRow
account_source [] uuid = none
account_source (account ∷ accounts) uuid =
    if account.resource_uuid == uuid && not account.deleted && account.synchronization_enabled
    then some account
    else account_source accounts uuid

abbrev pub has_cursor : List CursorRow → ℕ → AccountRow → Bool
has_cursor [] realm account = false
has_cursor (cursor ∷ cursors) realm account =
    (cursor.account_uuid == account.resource_uuid
      && cursor.provider_account_generation == account.generation
      && cursor.provider_realm_uuid == realm)
    || has_cursor cursors realm account

-- LEFT JOIN zulip_backfill_jobs
abbrev pub job_state : List JobRow → ℕ → String → Option String
job_state [] account key = none
job_state (job ∷ jobs) account key =
    if job.account_uuid == account && str_eq job.provider_chat_key key
    then some job.state
    else job_state jobs account key

abbrev pub source_of :
    DeliveryStore → ℕ → AssignmentRow → Option AccountRow → List (Source × Option String)
source_of s realm assignment none = []
source_of s realm assignment (some account) =
    if has_cursor s.cursors realm account
    then (
      record {
        account_uuid = account.resource_uuid;
        account_generation = account.generation;
        chat_uuid = assignment.resource_uuid;
        assignment_generation = assignment.generation;
      },
      job_state s.jobs account.resource_uuid assignment.provider_chat_key,
    )
      ∷ []
    else []

abbrev pub append {ℓ} : {A : Type ℓ} → List A → List A → List A
append [] ys = ys
append (x ∷ xs) ys = x ∷ append xs ys

abbrev pub sources_from : DeliveryStore → ℕ → ℕ → List AssignmentRow → List (Source × Option String)
sources_from s project realm [] = []
sources_from s project realm (assignment ∷ assignments) =
    let rest = sources_from s project realm assignments in
    if not assignment.deleted && assignment.selected && assignment.project_id == project
    then append
        (source_of s realm assignment (account_source s.accounts assignment.external_account_uuid))
        rest
    else rest

abbrev pub limited {ℓ} : {A : Type ℓ} → ℕ → List A → List A
limited zero xs = []
limited (suc n) [] = []
limited (suc n) (x ∷ xs) = x ∷ limited n xs

-- MAX_SOURCES
abbrev pub max_sources : ℕ
max_sources = 512

unfoldable pub sources_for : DeliveryStore → ℕ → ℕ → List (Source × Option String)
sources_for s project realm = limited (suc max_sources) (sources_from s project realm s.assignments)

-- The sources without their states.
abbrev pub sources_only : List (Source × Option String) → List Source
sources_only [] = []
sources_only (source ∷ sources) = source.0 ∷ sources_only sources

-- A JSON value where an error code is looked for: `object` has what its key "code" has.
pub data ErrorValue : Type 0 where
  null : ErrorValue
  text : String → ErrorValue
  object : ErrorValue → ErrorValue
  other : ErrorValue

abbrev pub is_lower : ℕ → Bool
is_lower c = leb 97 c && leb c 122

-- [a-z0-9_]{0,n}
unfoldable pub is_code_rest : ℕ → String → Bool
is_code_rest n String.[] = true
is_code_rest zero (String.◌∷◌ c s) = false
is_code_rest (suc n) (String.◌∷◌ c s) =
    let rest = is_code_rest n s in
    (is_lower (code c) || (leb 48 (code c) && leb (code c) 57) || code c == 95) && rest

-- re.fullmatch(r"[a-z][a-z0-9_]{0,127}", value)
unfoldable pub is_code : String → Bool
unfolding is_code_rest
is_code String.[] = false
is_code (String.◌∷◌ c s) = is_lower (code c) && is_code_rest 127 s

abbrev pub inner_value : ErrorValue → ErrorValue
inner_value (ErrorValue.object value) = value
inner_value value = value

unfoldable pub code_of_value : ErrorValue → Option String
unfolding is_code
code_of_value ErrorValue.null = none
code_of_value (ErrorValue.text value) =
    if is_code value then some value else some "history_import_failed"
code_of_value _ = some "history_import_failed"

unfoldable pub safe_error_code : ErrorValue → Option String
unfolding code_of_value
safe_error_code value = code_of_value (inner_value value)

-- int(Retry-After), or the cooldown where there is no number; a negative number is 0.
unfoldable pub admission_retry_after : Option ℕ → ℕ
admission_retry_after none = max 1 (min 5 60)
admission_retry_after (some delay) = max 1 (min delay 60)
