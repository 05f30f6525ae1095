-- ===== src/Queue/Complete.antt =====
-- RestAlchemyStore.complete of storage.py, one transaction: an error leaves the store as it was.
use workspace_zulip_bridge.Common.{
  ℕ, suc, String, Bool, true, false, ◌&&◌, ◌||◌, Option, none, some, List, [], ◌∷◌, ◌==◌, str_eq,
  if◌then◌else◌, same, update_where,
}
use workspace_zulip_bridge.Queue.Types.{
  Row, State, is_running, is_uncertain, is_terminal, Record, ResultRecord, Outcome, Idempotency,
  Lane, Mappings, Store, QueuedOperation, Result, ok, value_error, ◌>>=◌, ◌>>◌, require, row_is,
}

abbrev pub is_committed_outcome : Outcome → Bool
is_committed_outcome Outcome.committed = true
is_committed_outcome _ = false

abbrev pub is_terminal_outcome : Outcome → Bool
is_terminal_outcome Outcome.manual_reconciliation_required = false
is_terminal_outcome _ = true

-- The state column takes the outcome's text.
abbrev pub outcome_state : Outcome → State
outcome_state Outcome.committed = State.committed
outcome_state Outcome.rejected = State.rejected
outcome_state Outcome.expired = State.expired
outcome_state Outcome.cancelled = State.cancelled
outcome_state Outcome.manual_reconciliation_required = State.rejected

unfoldable pub find_row : ℕ → List Row → Option Row
find_row uuid [] = none
find_row uuid (row ∷ rows) = if row_is uuid row then some row else find_row uuid rows

unfoldable pub complete_row : Outcome → ResultRecord → ℕ → Row → Row
complete_row outcome result now row = record row {
  state = outcome_state outcome;
  result_record = some result;
  lease_owner = none;
  lease_until = none;
  updated_at = now;
}

-- WHERE record_uuid = … AND state IN ('running', 'uncertain')
abbrev pub completable : QueuedOperation → Row → Bool
completable item row =
    row_is item.record_uuid row && (is_running row.state || is_uncertain row.state)

unfoldable pub close_idempotency : Outcome → ResultRecord → Option Idempotency → Option Idempotency
close_idempotency outcome result none = none
close_idempotency outcome result (some i) = some (record i {
  terminal_outcome = some outcome;
  result_record_uuid = some result.record_uuid;
  target_entity_id = result.body.provider_entity_id;
  target_revision = result.body.provider_revision;
  manual_retry_allowed = result.body.manual_retry_allowed;
})

-- INSERT INTO causal_lane_state … VALUES (…, 0, NULL) ON CONFLICT DO NOTHING
abbrev pub lane_or_new : Option Lane → Lane
lane_or_new none = record { last_sequence = 0; last_operation_uuid = none }
lane_or_new (some lane) = lane

abbrev pub set_lane :
    String → String → Lane → (String → String → Option Lane) → String → String → Option Lane
set_lane origin causal_lane lane lanes o c =
    if str_eq o origin && str_eq c causal_lane then some lane else lanes o c

-- The UPDATE of causal_lane_state names the sequence before and the predecessor.
unfoldable pub advance_lane :
    Record → (String → String → Option Lane) → Result (String → String → Option Lane)
advance_lane r lanes =
    let lane = lane_or_new (lanes r.origin r.causal_lane) in
    if suc lane.last_sequence == r.sequence
      && same lane.last_operation_uuid r.predecessor_operation_uuid
    then ok (
        set_lane r.origin r.causal_lane
          (record { last_sequence = r.sequence; last_operation_uuid = some r.operation_uuid })
          lanes)
    else value_error "Causal lane state changed before completion"

-- `persist` is _persist_committed_mapping: it installs the mapping of a committed operation, or
-- raises.
module _ (persist : Record → Option String → Option String → Mappings → Result Mappings) where
  unfoldable pub complete_current :
      Store → QueuedOperation → ResultRecord → Outcome → ℕ → Result Store
  unfolding complete_row close_idempotency advance_lane
  complete_current s item result outcome now = do
    lanes ← (if item.body.attempt == 1 then advance_lane item.body s.lanes else ok s.lanes)
    mappings ←
        (if is_committed_outcome outcome
          then persist item.body result.body.provider_entity_id result.body.provider_revision
              (s.mappings, s.aliases)
          else ok (s.mappings, s.aliases))
    ok (record s {
      operations = update_where (completable item) (complete_row outcome result now) s.operations;
      idempotency = λ uuid.
          if uuid == item.body.operation_uuid
          then close_idempotency outcome result (s.idempotency uuid)
          else s.idempotency uuid;
      lanes = lanes;
      mappings = mappings.0;
      aliases = mappings.1;
    })

  unfoldable pub complete_found :
      Store → QueuedOperation → ResultRecord → Outcome → ℕ → Option Row → Result Store
  unfolding complete_current
  complete_found s item result outcome now none = value_error "Unknown bridge operation"
  complete_found s item result outcome now (some row) =
      if is_terminal row.state then ok s else complete_current s item result outcome now

  unfoldable pub complete : Store → QueuedOperation → ResultRecord → Outcome → ℕ → Result Store
  unfolding complete_found find_row
  complete s item result outcome now = do
    require (is_terminal_outcome outcome) "Invalid terminal outcome"
    complete_found s item result outcome now (find_row item.record_uuid s.operations)
