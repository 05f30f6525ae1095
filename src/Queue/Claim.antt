-- ===== src/Queue/Claim.antt =====
-- RestAlchemyStore.claim, claim_terminal and claim_uncertain of storage.py. Each is one transaction;
-- `now` is its now(). SKIP LOCKED is not modelled, since transactions follow one another.
use workspace_zulip_bridge.Common.{
  ℕ, suc, ◌+◌, ◌*◌, String, Bool, true, false, not, ◌&&◌, ◌||◌, Option, none, some, List, [], ◌∷◌,
  ◌==◌, ltb, leb, str_eq, if◌then◌else◌, sql_eq, sql_ne, same, due, past, update_where, is_none,
}
use workspace_zulip_bridge.Common.Select.{first_by, nulls_first}
use workspace_zulip_bridge.Queue.Types.{
  second, Row, State, is_pending, is_uncertain, is_committed, Account, Assignment, SchedulerAccount,
  ProviderState, Lane, Place, place, Store, QueuedOperation, queued_operation, row_is,
}

-- JOIN desired_resources AS account … AND NOT account.deleted
unfoldable pub not_deleted_account : Option Account → Option Account
not_deleted_account none = none
not_deleted_account (some a) = if a.deleted then none else some a

unfoldable pub live_account : Store → ℕ → Option Account
unfolding not_deleted_account
live_account s uuid = not_deleted_account (s.accounts uuid)

-- JOIN desired_resources AS assignment … AND NOT assignment.deleted
unfoldable pub live_assignment_in : List Assignment → Option ℕ → Option Assignment
live_assignment_in [] uuid = none
live_assignment_in (a ∷ rest) uuid =
    if sql_eq (some a.resource_uuid) uuid && not a.deleted
    then some a
    else live_assignment_in rest uuid

unfoldable pub live_assignment : Store → Option ℕ → Option Assignment
unfolding live_assignment_in
live_assignment s uuid = live_assignment_in s.assignments uuid

abbrev pub last_sequence : Option Lane → ℕ
last_sequence none = 0
last_sequence (some lane) = lane.last_sequence

abbrev pub last_operation_uuid : Option Lane → Option ℕ
last_operation_uuid none = none
last_operation_uuid (some lane) = lane.last_operation_uuid

-- The operation is the next one of its causal lane.
unfoldable pub next_in_lane : (String → String → Option Lane) → Place → Bool
next_in_lane lanes p =
    let lane = lanes p.origin p.causal_lane in
    p.lane_sequence == suc (last_sequence lane) && same p.predecessor (last_operation_uuid lane)

unfoldable pub is_delete : String → Bool
is_delete kind =
    str_eq kind "message.delete" || str_eq kind "topic.delete" || str_eq kind "stream.delete"

-- A committed delete of the same entity, later in the lane.
unfoldable pub deletes_later : Row → Row → Bool
unfolding is_delete
deletes_later row later =
    str_eq later.origin row.origin
    && str_eq later.causal_lane row.causal_lane
    && ltb row.lane_sequence later.lane_sequence
    && is_committed later.state
    && is_delete later.body.operation.kind
    && later.body.operation.entity_uuid == row.body.operation.entity_uuid

unfoldable pub deleted_later : List Row → Row → Bool
unfolding deletes_later
deleted_later [] row = false
deleted_later (later ∷ rest) row = deletes_later row later || deleted_later rest row

-- provider_state = 'ready' OR (provider_state = 'backoff' AND provider_retry_after <= now())
unfoldable pub provider_open : SchedulerAccount → ℕ → Bool
provider_open a now = elim a.provider_state [
  | ProviderState.ready ↦ true
  | ProviderState.backoff ↦ due a.provider_retry_after now
  | ProviderState.auth_required ↦ false
]

unfoldable pub account_current : Option Account → Option SchedulerAccount → Bool
account_current none scheduler = false
account_current (some a) none = false
account_current (some a) (some scheduler) = sql_eq (some a.generation) scheduler.provider_generation

abbrev pub synchronized : Option Account → Bool
synchronized none = false
synchronized (some a) = a.synchronization_enabled

unfoldable pub dispatch_open : Option SchedulerAccount → ℕ → Bool
unfolding provider_open
dispatch_open none now = false
dispatch_open (some a) now = provider_open a now

unfoldable pub assignment_current : Option Assignment → Row → Bool
assignment_current none row = false
assignment_current (some a) row =
    sql_eq (some a.generation) row.assignment_generation
    && sql_eq a.project_id (some row.project_uuid)
    && a.selected

-- The WHERE clause of `claim`.
unfoldable pub claimable : Store → ℕ → Row → Bool
unfolding live_account account_current dispatch_open live_assignment assignment_current next_in_lane
    deleted_later
claimable s now row =
    let account = live_account s row.account_uuid in
    let scheduler = s.scheduler_accounts row.account_uuid in
    is_pending row.state
    && leb row.available_at now
    && not (due row.expires_at now)
    && account_current account scheduler
    && synchronized account
    && dispatch_open scheduler now
    && assignment_current (live_assignment s row.assignment_uuid) row
    && ((row.attempt == 1 && next_in_lane s.lanes (place row))
        || (ltb 1 row.attempt && not (deleted_later s.operations row)))

abbrev pub last_dispatched : Option SchedulerAccount → Option ℕ
last_dispatched none = none
last_dispatched (some a) = a.last_dispatched_at

-- The ORDER BY clause of `claim`.
unfoldable pub claim_key : Store → Row → List ℕ
claim_key s row =
    row.priority
    ∷ nulls_first (last_dispatched (s.scheduler_accounts row.account_uuid))
    ∷ row.available_at
    ∷ row.created_at
    ∷ []

-- SET state = 'running', lease_owner = …, lease_until = …, updated_at = now()
unfoldable pub run_row : String → ℕ → ℕ → Row → Row
run_row worker lease_seconds now row = record row {
  state = State.running;
  lease_owner = some worker;
  lease_until = some (now + lease_seconds * second);
  updated_at = now;
}

abbrev dispatched_at : ℕ → Option SchedulerAccount → SchedulerAccount
dispatched_at now none = record {
  last_dispatched_at = some now;
  provider_generation = none;
  provider_state = ProviderState.ready;
  provider_retry_count = 0;
  provider_retry_after = none;
  provider_error_code = none;
}
dispatched_at now (some a) = record a { last_dispatched_at = some now }

-- INSERT INTO scheduler_accounts … ON CONFLICT (account_uuid) DO UPDATE SET last_dispatched_at
unfoldable pub mark_dispatched : Store → ℕ → ℕ → Store
mark_dispatched s account now = record s {
  scheduler_accounts = λ uuid.
      if uuid == account
      then some (dispatched_at now (s.scheduler_accounts uuid))
      else s.scheduler_accounts uuid;
}

claim_found : Store → String → ℕ → ℕ → Option Row → Option QueuedOperation × Store
unfolding run_row mark_dispatched
claim_found s worker lease_seconds now none = (none, s)
claim_found s worker lease_seconds now (some row) = (
  some (queued_operation row),
  mark_dispatched
      (record s {
        operations =
            update_where (row_is row.record_uuid) (run_row worker lease_seconds now) s.operations;
      })
      row.body.account_uuid now,
)

unfoldable pub claim : Store → String → ℕ → ℕ → Option QueuedOperation × Store
unfolding claim_found
claim s worker lease_seconds now =
    claim_found s worker lease_seconds now (first_by (claimable s now) (claim_key s) s.operations)

-- terminal_reason
pub data Reason : Type 0 where
  expired unauthorized_account cancelled : Reason

abbrev quarantined : Option SchedulerAccount → Bool
quarantined none = false
quarantined (some a) = elim a.provider_state [ ProviderState.auth_required ↦ true | _ ↦ false ]

-- The account is in the generation that the scheduler knows, and waits for authorization.
unfoldable pub auth_required : Store → Row → Bool
unfolding live_account account_current
auth_required s row =
    let scheduler = s.scheduler_accounts row.account_uuid in
    account_current (live_account s row.account_uuid) scheduler && quarantined scheduler

abbrev assignment_lost : Option Assignment → Row → Bool
assignment_lost none row = true
assignment_lost (some a) row =
    sql_ne (some a.generation) row.assignment_generation
    || sql_ne a.project_id (some row.project_uuid)
    || not a.selected

-- The WHERE clause of `claim_terminal`.
unfoldable pub terminal_claimable : Store → ℕ → Row → Bool
unfolding live_account live_assignment auth_required next_in_lane
terminal_claimable s now row =
    is_pending row.state
    && leb row.available_at now
    && (ltb 1 row.attempt || next_in_lane s.lanes (place row))
    && (due row.expires_at now
        || assignment_lost (live_assignment s row.assignment_uuid) row
        || not (synchronized (live_account s row.account_uuid))
        || auth_required s row)

unfoldable pub terminal_reason : Store → ℕ → Row → Reason
unfolding auth_required
terminal_reason s now row =
    if due row.expires_at now
    then Reason.expired
    else if auth_required s row
    then Reason.unauthorized_account
    else Reason.cancelled

terminal_found : Store → String → ℕ → ℕ → Option Row → Option (QueuedOperation × Reason) × Store
unfolding run_row
terminal_found s worker lease_seconds now none = (none, s)
terminal_found s worker lease_seconds now (some row) = (
  some (queued_operation row, terminal_reason s now row),
  record s {
    operations =
        update_where (row_is row.record_uuid) (run_row worker lease_seconds now) s.operations;
  },
)

unfoldable pub claim_terminal : Store → String → ℕ → ℕ → Option (QueuedOperation × Reason) × Store
unfolding terminal_found
claim_terminal s worker lease_seconds now =
    terminal_found s worker lease_seconds now
      (first_by (terminal_claimable s now) (λ row. row.created_at ∷ []) s.operations)

-- The WHERE clause of `claim_uncertain`.
unfoldable pub reconcilable : Store → ℕ → Row → Bool
unfolding live_account account_current dispatch_open
reconcilable s now row =
    let scheduler = s.scheduler_accounts row.account_uuid in
    is_uncertain row.state
    && not row.manual_reconciliation_required
    && due row.reconciliation_after now
    && (is_none row.lease_until || past row.lease_until now)
    && account_current (live_account s row.account_uuid) scheduler
    && dispatch_open scheduler now

-- The state stays 'uncertain' under this lease.
unfoldable pub lease_row : String → ℕ → Row → Row
lease_row worker now row = record row {
  lease_owner = some worker;
  lease_until = some (now + 60 * second);
  updated_at = now;
}

uncertain_found : Store → String → ℕ → Option Row → Option QueuedOperation × Store
unfolding lease_row
uncertain_found s worker now none = (none, s)
uncertain_found s worker now (some row) = (
  some (queued_operation row),
  record s {
    operations = update_where (row_is row.record_uuid) (lease_row worker now) s.operations;
  },
)

abbrev pub reconciliation_key : Row → List ℕ
reconciliation_key row = nulls_first row.reconciliation_after ∷ row.created_at ∷ []

unfoldable pub claim_uncertain : Store → String → ℕ → Option QueuedOperation × Store
unfolding uncertain_found
claim_uncertain s worker now =
    uncertain_found s worker now (first_by (reconcilable s now) reconciliation_key s.operations)
