-- ===== src/Queue/Lifecycle.antt =====
-- The statements of storage.py that move one claimed operation on: reap_expired_running, retry,
-- record_provider_attempt, mark_uncertain, defer_uncertain, schedule_reconciliation_check,
-- schedule_single_resend, require_operation_manual_reconciliation, uncertain_by_local_id and
-- require_manual_reconciliation.
use Prim.Native.String.{◌++◌ as append}
use workspace_zulip_bridge.Common.{
  ℕ, zero, suc, ◌+◌, ◌*◌, String, Bool, true, false, ◌&&◌, ◌||◌, Option, none, some, List, [], ◌∷◌,
  ◌++◌, ◌==◌, str_eq, if◌then◌else◌, past, update_where, is_some, is_none, keep, length,
}
use workspace_zulip_bridge.Queue.Types.{
  second, Row, State, is_running, is_uncertain, ResultRecord, Outcome, Evidence, ManualContext,
  Idempotency, Store, QueuedOperation, queued_operation, row_is,
}

abbrev pub set_operations : Store → List Row → Store
set_operations s rows = record s { operations = rows }

-- UPDATE bridge_operations SET f WHERE p
abbrev pub update_operations : (Row → Bool) → (Row → Row) → Store → Store
update_operations p f s = set_operations s (update_where p f s.operations)

-- Some provider attempt may have reached Zulip.
abbrev pub attempted : Row → Bool
attempted row =
    is_some row.provider_attempted_at
    || is_some row.provider_queue_id
    || is_some row.provider_local_id

unfoldable pub reap_row : ℕ → Row → Row
reap_row now row =
    if attempted row
    then record row {
      state = State.uncertain;
      reconciliation_after = some now;
      reconciliation_check_count = 0;
      lease_owner = none;
      lease_until = none;
      updated_at = now;
    }
    else record row {
      state = State.pending;
      available_at = now;
      lease_owner = none;
      lease_until = none;
      updated_at = now;
    }

abbrev pub lease_expired : ℕ → Row → Bool
lease_expired now row = is_running row.state && past row.lease_until now

-- The number of the rows that were recovered, and the store after.
unfoldable pub reap_expired_running : Store → ℕ → ℕ × Store
unfolding reap_row
reap_expired_running s now = (
  length (keep (lease_expired now) s.operations),
  update_operations (lease_expired now) (reap_row now) s,
)

unfoldable pub retry_row : ℕ → String → ℕ → Row → Row
retry_row available_at code now row = record row {
  state = State.pending;
  available_at = available_at;
  last_error_code = some code;
  retry_count = suc row.retry_count;
  lease_owner = none;
  lease_until = none;
  updated_at = now;
}

unfoldable pub retry : Store → QueuedOperation → ℕ → String → ℕ → Store
unfolding retry_row
retry s item available_at code now =
    update_operations (row_is item.record_uuid) (retry_row available_at code now) s

abbrev or_now : Option ℕ → ℕ → Option ℕ
or_now none now = some now
or_now (some t) now = some t

abbrev with_rendered : Option ManualContext → String → ManualContext
with_rendered none content = record {
  provider_rendered_content = some content;
  duplicate_risk = none;
}
with_rendered (some c) content = record c { provider_rendered_content = some content }

unfoldable pub attempt_row : String → String → String → ℕ → Row → Row
attempt_row queue_id local_id content now row = record row {
  provider_queue_id = some queue_id;
  provider_local_id = some local_id;
  provider_attempted_at = or_now row.provider_attempted_at now;
  manual_context = some (with_rendered row.manual_context content);
  updated_at = now;
}

-- `last_event_id` is passed by the caller and not stored.
unfoldable pub record_provider_attempt :
    Store → QueuedOperation → String → String → ℕ → String → ℕ → Store
unfolding attempt_row
record_provider_attempt s item queue_id local_id last_event_id content now =
    update_operations (λ row. row_is item.record_uuid row && is_running row.state)
      (attempt_row queue_id local_id content now) s

unfoldable pub uncertain_row : String → ℕ → Row → Row
uncertain_row code now row = record row {
  state = State.uncertain;
  last_error_code = some code;
  reconciliation_check_count = 0;
  reconciliation_after = some (now + 5 * second);
  lease_owner = none;
  lease_until = none;
  updated_at = now;
}

unfoldable pub mark_uncertain : Store → QueuedOperation → String → ℕ → Store
unfolding uncertain_row
mark_uncertain s item code now =
    update_operations (row_is item.record_uuid) (uncertain_row code now) s

-- code[:n]
pub truncate : ℕ → String → String
truncate zero s = String.[]
truncate (suc n) String.[] = String.[]
truncate (suc n) (String.◌∷◌ c s) = String.◌∷◌ c (truncate n s)

unfoldable pub defer_row : ℕ → String → ℕ → Row → Row
unfolding truncate
defer_row available_at code now row = record row {
  reconciliation_after = some available_at;
  last_error_code = some (truncate 128 code);
  lease_owner = none;
  lease_until = none;
  updated_at = now;
}

-- WHERE record_uuid = … AND state = 'uncertain'
abbrev pub uncertain_item : QueuedOperation → Row → Bool
uncertain_item item row = row_is item.record_uuid row && is_uncertain row.state

unfoldable pub defer_uncertain : Store → QueuedOperation → ℕ → String → ℕ → Store
unfolding defer_row
defer_uncertain s item available_at code now =
    update_operations (uncertain_item item) (defer_row available_at code now) s

unfoldable pub check_row : ℕ → Evidence → ℕ → Row → Row
check_row after evidence now row = record row {
  reconciliation_check_count = suc row.reconciliation_check_count;
  reconciliation_after = some after;
  reconciliation_evidence = row.reconciliation_evidence ++ evidence ∷ [];
  lease_owner = none;
  lease_until = none;
  updated_at = now;
}

unfoldable pub schedule_reconciliation_check : Store → QueuedOperation → ℕ → Evidence → ℕ → Store
unfolding check_row
schedule_reconciliation_check s item after evidence now =
    update_operations (uncertain_item item) (check_row after evidence now) s

unfoldable pub resend_row : Evidence → ℕ → Row → Row
resend_row evidence now row = record row {
  state = State.pending;
  available_at = now;
  auto_resend_count = suc row.auto_resend_count;
  reconciliation_evidence = row.reconciliation_evidence ++ evidence ∷ [];
  lease_owner = none;
  lease_until = none;
  updated_at = now;
}

unfoldable pub schedule_single_resend : Store → QueuedOperation → Evidence → ℕ → Store
unfolding resend_row
schedule_single_resend s item evidence now =
    update_operations (λ row. uncertain_item item row && row.auto_resend_count == 0)
      (resend_row evidence now) s

-- The result record that goes back to Workspace; its UUID is uuid5 of the operation and the code.
unfoldable pub manual_result :
    (ℕ → String → ℕ) → QueuedOperation → String → Evidence → ℕ → ResultRecord
manual_result uuid5 item code evidence now = record {
  schema = body.schema;
  schema_version = body.schema_version;
  record_uuid = uuid5 item.record_uuid (append "manual:" code);
  operation_uuid = body.operation_uuid;
  attempt = body.attempt;
  operation_sha256 = body.operation_sha256;
  account_uuid = body.account_uuid;
  project_uuid = body.project_uuid;
  origin = body.origin;
  causal_lane = body.causal_lane;
  sequence = body.sequence;
  predecessor_operation_uuid = body.predecessor_operation_uuid;
  created_at = now;
  expires_at = body.expires_at;
  in_reply_to_record_uuid = body.record_uuid;
  body = record {
    outcome = Outcome.manual_reconciliation_required;
    committed_at = none;
    provider_entity_id = none;
    provider_revision = none;
    safe_error = some code;
    manual_retry_allowed = false;
    reconciliation = some (code, evidence);
  };
  transport = body.transport;
}
  where
    open item use {body}

abbrev warn : Row → Option ManualContext
warn row = some (record {
  provider_rendered_content = none;
  duplicate_risk = some (row.operation_uuid, row.account_uuid, row.causal_lane);
})

unfoldable pub manual_row : String → Evidence → ResultRecord → ℕ → Row → Row
manual_row code evidence result now row = record row {
  state = State.rejected;
  manual_reconciliation_required = true;
  last_error_code = some code;
  reconciliation_evidence = row.reconciliation_evidence ++ evidence ∷ [];
  result_record = some result;
  result_sent_at = none;
  manual_context = warn row;
  lease_owner = none;
  lease_until = none;
  updated_at = now;
}

-- WHERE operation_uuid = … AND terminal_outcome IS NULL
reject_idempotency : ℕ → Option Idempotency → Option Idempotency
reject_idempotency uuid none = none
reject_idempotency uuid (some i) =
    if is_none i.terminal_outcome
    then some (record i {
      terminal_outcome = some Outcome.rejected;
      result_record_uuid = some uuid;
      manual_retry_allowed = false;
    })
    else some i

unfoldable pub require_operation_manual_reconciliation :
    (ℕ → String → ℕ) → Store → QueuedOperation → String → Evidence → ℕ → Store
unfolding manual_result manual_row reject_idempotency
require_operation_manual_reconciliation uuid5 s item code evidence now =
    let result = manual_result uuid5 item code evidence now in
    record s {
      operations =
          update_where (uncertain_item item) (manual_row code evidence result now) s.operations;
      idempotency = λ uuid.
          if uuid == item.body.operation_uuid
          then reject_idempotency result.record_uuid (s.idempotency uuid)
          else s.idempotency uuid;
    }

abbrev pub same_text : Option String → String → Bool
same_text none t = false
same_text (some u) t = str_eq u t

unfoldable pub sent_as : ℕ → String → String → Row → Bool
sent_as account queue_id local_id row =
    row.account_uuid == account
    && same_text row.provider_queue_id queue_id
    && same_text row.provider_local_id local_id
    && is_uncertain row.state

unfoldable pub uncertain_by_local_id : List Row → ℕ → String → String → Option QueuedOperation
unfolding sent_as
uncertain_by_local_id [] account queue_id local_id = none
uncertain_by_local_id (row ∷ rows) account queue_id local_id =
    if sent_as account queue_id local_id row
    then some (queued_operation row)
    else uncertain_by_local_id rows account queue_id local_id

unfoldable pub warn_row : String → ℕ → Row → Row
warn_row code now row = record row {
  manual_reconciliation_required = true;
  last_error_code = some code;
  manual_context = warn row;
  updated_at = now;
}

unfoldable pub require_manual_reconciliation : Store → ℕ → String → ℕ → Store
unfolding warn_row
require_manual_reconciliation s account code now =
    update_operations (λ row. row.account_uuid == account && is_uncertain row.state)
      (warn_row code now) s
