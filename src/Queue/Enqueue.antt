-- ===== src/Queue/Enqueue.antt =====
-- RestAlchemyStore._allocate_producer_lane, producer_lane_position and enqueue of storage.py.
-- `enqueue` changes the caller's record in place, also where it raises afterwards, so the record
-- comes back beside the result; the store is that of the transaction.
use workspace_zulip_bridge.Common.{
  ℕ, suc, String, Bool, true, false, not, ◌&&◌, ◌||◌, Option, none, some, List, [], ◌∷◌, ◌++◌, ◌==◌,
  ltb, leb, max, str_eq, if◌then◌else◌, sql_eq, is_some,
}
use workspace_zulip_bridge.Queue.Types.{
  Row, State, Record, Outcome, Idempotency, LanePosition, Place, place, Assignment, Store, Result,
  ok, value_error, database_error, ◌>>◌, require, row_is,
}
use workspace_zulip_bridge.Queue.Complete.{lane_or_new, set_lane}

unfoldable pub producer_lane_position : Store → ℕ → ℕ × Option ℕ
producer_lane_position s operation_uuid = elim (s.producer_operations operation_uuid) [
  | none ↦ (0, none)
  | some p ↦ (p.lane_sequence, p.predecessor_operation_uuid)
]

-- `digest` is canonical.operation_digest.
module _ (digest : Record → String) where
  -- record["sequence"], record["predecessor_operation_uuid"] and the digest are set anew.
  unfoldable pub place_record : Record → LanePosition → Record
  place_record r p =
      let placed : Record = record r {
        sequence = p.lane_sequence;
        predecessor_operation_uuid = p.predecessor_operation_uuid;
      } in
      record placed { operation_sha256 = digest placed }

  allocate_next : Record → Store → Record × Store
  unfolding place_record
  allocate_next r s =
      let lane = lane_or_new (s.producer_lanes r.origin r.causal_lane) in
      let position : LanePosition = record {
        lane_sequence = suc lane.last_sequence;
        predecessor_operation_uuid = lane.last_operation_uuid;
      } in
      (
        place_record r position,
        record s {
          producer_lanes =
              set_lane r.origin r.causal_lane
                (record {
                  last_sequence = suc lane.last_sequence;
                  last_operation_uuid = some r.operation_uuid;
                })
                s.producer_lanes;
          producer_operations = λ uuid.
              if uuid == r.operation_uuid then some position else s.producer_operations uuid;
        },
      )

  -- The counter row is there after the INSERT … ON CONFLICT, also if the operation has a place.
  allocate_known : Record → Store → Option LanePosition → Record × Store
  unfolding allocate_next
  allocate_known r s none = allocate_next r s
  allocate_known r s (some position) = (
    place_record r position,
    record s {
      producer_lanes =
          set_lane r.origin r.causal_lane (lane_or_new (s.producer_lanes r.origin r.causal_lane))
            s.producer_lanes;
    },
  )

  unfoldable pub allocate_producer_lane : Record → Store → Record × Store
  unfolding allocate_known
  allocate_producer_lane r s =
      if r.sequence == 0
      then allocate_known r s (s.producer_operations r.operation_uuid)
      else (r, s)

abbrev pub prior_closed : Option Idempotency → Bool
prior_closed none = false
prior_closed (some i) = is_some i.terminal_outcome

abbrev pub prior_conflicts : Option Idempotency → String → Bool
prior_conflicts none sha = false
prior_conflicts (some i) sha = not (str_eq i.operation_sha256 sha)

abbrev pub retry_outcome : Option Outcome → Bool
retry_outcome (some Outcome.rejected) = true
retry_outcome (some Outcome.expired) = true
retry_outcome _ = false

abbrev pub retry_authorized : Option Idempotency → Bool
retry_authorized none = false
retry_authorized (some i) = retry_outcome i.terminal_outcome && i.manual_retry_allowed

abbrev pub same_key : Option String → String → Bool
same_key none key = false
same_key (some k) key = str_eq k key

unfoldable pub matches_assignment : Record → Assignment → Bool
matches_assignment r a =
    not a.deleted
    && sql_eq a.external_account_uuid (some r.account_uuid)
    && same_key a.provider_chat_key r.operation.chat_id
    && sql_eq a.project_id (some r.project_uuid)
    && a.selected

unfoldable pub active_assignment : Record → List Assignment → Option Assignment
unfolding matches_assignment
active_assignment r [] = none
active_assignment r (a ∷ rest) = if matches_assignment r a then some a else active_assignment r rest

-- SELECT max(attempt); zero stands for NULL, since attempts are positive.
unfoldable pub max_attempt : ℕ → List Row → ℕ
max_attempt uuid [] = 0
max_attempt uuid (row ∷ rows) =
    max (if row.operation_uuid == uuid then row.attempt else 0) (max_attempt uuid rows)

-- The row that INSERT INTO bridge_operations makes; what is not named takes its default.
unfoldable pub new_row : Record → ℕ → Assignment → ℕ → Row
new_row r priority a now = record {
  record_uuid = r.record_uuid;
  operation_uuid = r.operation_uuid;
  attempt = r.attempt;
  operation_sha256 = r.operation_sha256;
  account_uuid = r.account_uuid;
  project_uuid = r.project_uuid;
  origin = r.origin;
  causal_lane = r.causal_lane;
  lane_sequence = r.sequence;
  predecessor_operation_uuid = r.predecessor_operation_uuid;
  assignment_uuid = some a.resource_uuid;
  assignment_generation = some a.generation;
  priority = priority;
  state = State.pending;
  retry_count = 0;
  available_at = now;
  expires_at = r.expires_at;
  lease_owner = none;
  lease_until = none;
  body = r;
  result_record = none;
  result_sent_at = none;
  last_error_code = none;
  provider_queue_id = none;
  provider_local_id = none;
  provider_attempted_at = none;
  reconciliation_check_count = 0;
  reconciliation_after = none;
  auto_resend_count = 0;
  reconciliation_evidence = [];
  manual_reconciliation_required = false;
  manual_context = none;
  created_at = now;
  updated_at = now;
}

-- The CHECK constraints that a new row can break.
abbrev pub row_allowed : Row → Bool
row_allowed row =
    ltb 0 row.attempt
    && (str_eq row.origin "workspace" || str_eq row.origin "zulip")
    && ltb 0 row.lane_sequence
    && leb row.priority 2

-- UNIQUE (operation_uuid, attempt) and UNIQUE (origin, causal_lane, lane_sequence, attempt)
abbrev pub same_operation : Row → Row → Bool
same_operation a b = a.operation_uuid == b.operation_uuid && a.attempt == b.attempt

abbrev pub same_place : Place → Place → Bool
same_place a b =
    str_eq a.origin b.origin
    && str_eq a.causal_lane b.causal_lane
    && a.lane_sequence == b.lane_sequence
    && a.attempt == b.attempt

unfoldable pub clashes : Row → List Row → Bool
clashes row [] = false
clashes row (x ∷ xs) = same_operation row x || same_place (place row) (place x) || clashes row xs

unfoldable pub has_record : ℕ → List Row → Bool
has_record uuid [] = false
has_record uuid (x ∷ xs) = row_is uuid x || has_record uuid xs

-- ON CONFLICT (record_uuid) DO NOTHING
unfoldable pub insert_row : Row → Store → Result (Bool × Store)
unfolding has_record clashes
insert_row row s = do
  if row_allowed row then ok tt else database_error
  if has_record row.record_uuid s.operations then ok (false, s) else do
    if clashes row s.operations then database_error else ok tt
    ok (true, record s { operations = s.operations ++ row ∷ [] })

-- ON CONFLICT (operation_uuid) DO NOTHING
abbrev remember_digest : Option Idempotency → String → Option Idempotency
remember_digest (some i) sha = some i
remember_digest none sha = some (record {
  operation_sha256 = sha;
  terminal_outcome = none;
  target_entity_id = none;
  target_revision = none;
  result_record_uuid = none;
  manual_retry_allowed = false;
})

unfoldable pub remember_operation : Record → Store → Store
remember_operation r s = record s {
  idempotency = λ uuid.
      if uuid == r.operation_uuid
      then remember_digest (s.idempotency uuid) r.operation_sha256
      else s.idempotency uuid;
}

unfoldable pub enqueue_matched : Record → ℕ → ℕ → Store → Option Assignment → Result (Bool × Store)
unfolding max_attempt new_row insert_row remember_operation
enqueue_matched r priority now s none = value_error "Operation does not match an active assignment"
enqueue_matched r priority now s (some a) = do
  require
      (not (ltb 1 r.attempt)
        || (ltb 0 (max_attempt r.operation_uuid s.operations)
            && r.attempt == suc (max_attempt r.operation_uuid s.operations)))
      "Manual retry attempt is not consecutive"
  insert_row (new_row r priority a now) (remember_operation r s)

-- The statements behind the lane allocation.
unfoldable pub enqueue_placed : Record → ℕ → ℕ → Store → Result (Bool × Store)
unfolding enqueue_matched active_assignment
enqueue_placed r priority now s =
    let prior = s.idempotency r.operation_uuid in
    if r.attempt == 1 && prior_closed prior && str_eq r.operation.kind "read_state.set"
    then ok (false, s)
    else if prior_conflicts prior r.operation_sha256
    then value_error "Operation UUID reused with a different digest"
    else if r.attempt == 1 && prior_closed prior
    then ok (false, s)
    else if ltb 1 r.attempt && not (retry_authorized prior)
    then value_error "Higher attempt is not authorized by prior result"
    else enqueue_matched r priority now s (active_assignment r s.assignments)

unfoldable pub enqueue : (Record → String) → Store → Record → ℕ → ℕ → Record × Result (Bool × Store)
unfolding allocate_producer_lane enqueue_placed
enqueue digest s r priority now =
    if leb priority 2
    then (let (placed, allocated) = allocate_producer_lane digest r s in
        (placed, enqueue_placed placed priority now allocated))
    else (r, value_error "Invalid operation priority")
