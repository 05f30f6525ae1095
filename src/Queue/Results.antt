-- ===== src/Queue/Results.antt =====
-- The results that go back to Workspace: pending_results, mark_result_sent and
-- finalize_provider_result_responses of storage.py.
use Prim.Native.String.{◌++◌ as append}
use workspace_zulip_bridge.Common.{
  ℕ, String, Bool, true, false, ◌&&◌, ◌||◌, Option, none, some, List, [], ◌∷◌, ◌++◌, ◌==◌, str_eq,
  if◌then◌else◌, is_some, is_none,
}
use workspace_zulip_bridge.Common.Select.{order_by, take}
use workspace_zulip_bridge.Queue.Types.{
  Row, Record, Transport, ResultRecord, Evidence, Store, Result, ok, ◌>>◌, require,
}
use workspace_zulip_bridge.Queue.Lifecycle.{update_operations}

abbrev pub awaits_delivery : Row → Bool
awaits_delivery row = is_some row.result_record && is_none row.result_sent_at

unfoldable pub result_records : List Row → List ResultRecord
result_records [] = []
result_records (row ∷ rows) = elim row.result_record [
  | none ↦ result_records rows
  | some r ↦ r ∷ result_records rows
]

unfoldable pub pending_results : Store → ℕ → List ResultRecord
unfolding result_records
pending_results s limit = result_records (
    take limit
      (order_by awaits_delivery (λ row. row.updated_at ∷ row.record_uuid ∷ []) s.operations))

abbrev pub has_result : ℕ → Row → Bool
has_result uuid row = elim row.result_record [ none ↦ false | some r ↦ r.record_uuid == uuid ]

unfoldable pub sent_row : ℕ → Row → Row
sent_row now row = record row { result_sent_at = some now; updated_at = now }

unfoldable pub mark_result_sent : Store → ℕ → ℕ → Store
unfolding sent_row
mark_result_sent s uuid now = update_operations (has_result uuid) (sent_row now) s

-- (record_uuid, status, lease_uuid)
pub record Response : Type 0 where
  pub result_uuid : ℕ
  pub status : String
  pub lease_uuid : Option ℕ

unfoldable pub is_accepted : String → Bool
is_accepted status = str_eq status "applied" || str_eq status "duplicate"

unfoldable pub is_refused : String → Bool
is_refused status =
    str_eq status "conflict" || str_eq status "not_found" || str_eq status "rejected"

unfoldable pub is_allowed : String → Bool
unfolding is_accepted is_refused
is_allowed status = is_accepted status || is_refused status || str_eq status "stale_lease"

all_allowed : List Response → Bool
unfolding is_allowed
all_allowed [] = true
all_allowed (r ∷ rs) = is_allowed r.status && all_allowed rs

abbrev lease_of : Option Transport → Option ℕ
lease_of none = none
lease_of (some t) = some t.lease_uuid

abbrev lease_matches : Option ℕ → Option ℕ → Bool
lease_matches none held = true
lease_matches (some l) none = false
lease_matches (some l) (some h) = l == h

-- The join of a response with a row, on the result's UUID and the lease.
unfoldable pub answers : Response → Row → Bool
answers response row = elim row.result_record [
  | none ↦ false
  | some r ↦
      r.record_uuid == response.result_uuid
      && lease_matches response.lease_uuid (lease_of r.transport)
]

-- The first response to a row; a page has one response to a result.
unfoldable pub response_to : List Response → Row → Option String
unfolding answers
response_to [] row = none
response_to (r ∷ rs) row = if answers r row then some r.status else response_to rs row

abbrev no_messages : Option (List ℕ) → Option (List ℕ)
no_messages none = none
no_messages (some xs) = some []

-- `digest` is the SHA-256 of _provider_read_semantic_sha256, taken over the record.
module _ (digest : Record → String) where
  abbrev semantic_sha256 : Record → String
  semantic_sha256 r = elim r.read_semantic_sha256 [ none ↦ digest r | some h ↦ h ]

  -- An acknowledged read keeps its digest and drops its message UUIDs.
  unfoldable pub compact_read : Record → Record
  compact_read r = record r {
    read_semantic_sha256 = some (semantic_sha256 r);
    operation = record (r.operation) { message_uuids = no_messages r.operation.message_uuids };
  }

  unfoldable pub respond_row : String → ℕ → Row → Row
  unfolding is_accepted is_refused compact_read
  respond_row status now row = record row {
    result_sent_at = some now;
    body =
        if is_accepted status && str_eq row.body.operation.kind "read_state.set"
        then compact_read row.body
        else row.body;
    manual_reconciliation_required = row.manual_reconciliation_required || is_refused status;
    last_error_code = if is_accepted status then none else some (append "provider_result_" status);
    reconciliation_evidence =
        if is_accepted status
        then row.reconciliation_evidence
        else row.reconciliation_evidence ++ Evidence.result_response status ∷ [];
    updated_at = now;
  }

  unfoldable pub respond_found : ℕ → Row → Option String → Row
  unfolding respond_row
  respond_found now row none = row
  respond_found now row (some status) = respond_row status now row

  unfoldable pub respond_rows : List Response → ℕ → List Row → List Row
  unfolding respond_found response_to
  respond_rows rs now [] = []
  respond_rows rs now (row ∷ rows) =
      respond_found now row (response_to rs row) ∷ respond_rows rs now rows

  unfoldable pub finalize_provider_result_responses : Store → List Response → ℕ → Result Store
  unfolding respond_rows all_allowed
  finalize_provider_result_responses s responses now = do
    require (all_allowed responses) "Unsupported Provider result response status"
    ok (record s { operations = respond_rows responses now s.operations })

  unfoldable pub finalize_provider_result_response :
      Store → ℕ → String → Option ℕ → ℕ → Result Store
  unfolding finalize_provider_result_responses
  finalize_provider_result_response s uuid status lease now =
      finalize_provider_result_responses s
        (record { result_uuid = uuid; status = status; lease_uuid = lease } ∷ []) now
