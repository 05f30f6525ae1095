-- ===== src/Scheduler/Run.antt =====
-- Scheduler.run_once and reconcile_local_echo of scheduler.py. An exception leaves the store as the
-- transactions before it left it, so the store comes back beside the result.
use workspace_zulip_bridge.Common.{
  ℕ, ◌+◌, ◌*◌, ◌^◌, min, String, Bool, true, false, not, ◌&&◌, Option, none, some, str_eq,
  if◌then◌else◌, due,
}
use workspace_zulip_bridge.Queue.Types.{
  second, Store, QueuedOperation, Outcome, Result, ok, value_error, database_error, raised,
}
use workspace_zulip_bridge.Queue.Claim.{Reason, claim, claim_terminal}
use workspace_zulip_bridge.Queue.Lifecycle.{
  reap_expired_running, record_provider_attempt, mark_uncertain, retry, uncertain_by_local_id,
}
use workspace_zulip_bridge.Queue.Complete.{complete}
use workspace_zulip_bridge.Scheduler.Report.{TargetCommit, result_record}
use workspace_zulip_bridge.Scheduler.Provider.{
  ZulipOperationError, Call, returns, ambiguous, fails, SendCorrelation, Adapter, Scheduler, Moment,
  or_generation,
}

abbrev pub after_complete : Store → Result Store → Result Bool × Store
after_complete s (ok t) = (ok true, t)
after_complete s (value_error m) = (value_error m, s)
after_complete s database_error = (database_error, s)
after_complete s (raised e) = (raised e, s)

-- self.store.complete(item, result, outcome) and `return True`
unfoldable pub close :
    Scheduler
    → Store
    → QueuedOperation
    → Outcome
    → Option TargetCommit
    → Option String
    → Moment
    → Result Bool × Store
close c s item outcome commit code m = after_complete s (
    complete c.persist s item
      (result_record item.body outcome commit code m.result_uuid m.finished_at) outcome
      m.finished_at)

abbrev pub reason_outcome : Reason → Outcome
reason_outcome Reason.expired = Outcome.expired
reason_outcome Reason.unauthorized_account = Outcome.rejected
reason_outcome Reason.cancelled = Outcome.cancelled

abbrev pub reason_code : Reason → String
reason_code Reason.expired = "expired"
reason_code Reason.unauthorized_account = "unauthorized_account"
reason_code Reason.cancelled = "cancelled"

-- _account_failed
unfoldable pub account_failed :
    Scheduler → ℕ → ZulipOperationError → Option ℕ → Store → Bool × Store
account_failed c account error generation s = elim c.account_failure_handler [
  | none ↦ (str_eq error.code "unauthorized_account", s)
  | some handler ↦ handler account error generation s
]

-- _account_succeeded
unfoldable pub account_succeeded : Scheduler → ℕ → Option ℕ → Store → Store
account_succeeded c account generation s = elim c.account_success_handler [
  | none ↦ s
  | some handler ↦ handler account generation s
]

-- min(30.0, 2 ** min(attempts, 5)) seconds
unfoldable pub backoff_limit : ℕ → ℕ
backoff_limit attempts = min 30 (2 ^ min attempts 5) * second

-- The `except ZulipOperationError` branch.
unfoldable pub operation_failed :
    Scheduler
    → Store
    → QueuedOperation
    → ZulipOperationError
    → Option ℕ
    → Moment
    → Result Bool × Store
unfolding backoff_limit account_failed close
operation_failed c s item error generation m =
    let (authentication, t) =
      account_failed c item.body.account_uuid error
        (or_generation error.account_generation generation) s in
    let code = if authentication then "unauthorized_account" else error.code in
    if error.retryable && not authentication
    then (
      ok true,
      retry t item (m.finished_at + c.uniform (backoff_limit item.attempts)) code m.finished_at,
    )
    else close c t item Outcome.rejected none (some code) m

unfoldable pub operation_applied :
    Scheduler
    → Store
    → QueuedOperation
    → Option ℕ
    → Moment
    → Call (Option String × Option String)
    → Result Bool × Store
unfolding operation_failed account_succeeded close
operation_applied c s item generation m (returns (entity_id, revision)) =
    close c (account_succeeded c item.body.account_uuid generation s) item Outcome.committed
      (some (record { entity_id = entity_id; revision = revision })) none m
operation_applied c s item generation m (ambiguous message) =
    (ok true, mark_uncertain s item message m.finished_at)
operation_applied c s item generation m (fails error) = operation_failed c s item error generation m

-- record_provider_attempt comes before the provider is called.
unfoldable pub operation_prepared :
    Scheduler
    → Store
    → QueuedOperation
    → Adapter
    → Moment
    → Call (Option SendCorrelation)
    → Result Bool × Store
unfolding operation_applied
operation_prepared c s item adapter m (returns none) =
    operation_applied c s item adapter.account_generation m
      (adapter.apply (c.provider_event_cursor item.body.account_uuid) item.body.operation none)
operation_prepared c s item adapter m (returns (some correlation)) =
    operation_applied c
      (record_provider_attempt s item correlation.queue_id correlation.local_id
        correlation.last_event_id correlation.provider_rendered_content m.attempted_at)
      item adapter.account_generation m
      (adapter.apply (c.provider_event_cursor item.body.account_uuid) item.body.operation
        (some correlation))
operation_prepared c s item adapter m (ambiguous message) =
    (ok true, mark_uncertain s item message m.finished_at)
operation_prepared c s item adapter m (fails error) =
    operation_failed c s item error adapter.account_generation m

unfoldable pub dispatch :
    Scheduler → Store → QueuedOperation → Moment → Call Adapter → Result Bool × Store
unfolding operation_prepared
dispatch c s item m (returns adapter) = operation_prepared c s item adapter m (
    adapter.prepare (c.provider_event_cursor item.body.account_uuid) item.body.operation
      item.body.operation_uuid item.provider_rendered_content)
dispatch c s item m (ambiguous message) = (ok true, mark_uncertain s item message m.finished_at)
dispatch c s item m (fails error) = operation_failed c s item error none m

-- The item that `claim` handed out.
unfoldable pub run_claimed :
    Scheduler → Moment → Option QueuedOperation × Store → Result Bool × Store
unfolding dispatch close
run_claimed c m (none, s) = (ok false, s)
run_claimed c m (some item, s) =
    if due item.body.expires_at m.checked_at
    then close c s item Outcome.expired none (some "expired") m
    else dispatch c s item m (c.adapters item.body.account_uuid)

unfoldable pub run_terminal :
    Scheduler → Moment → Option (QueuedOperation × Reason) × Store → Result Bool × Store
unfolding run_claimed close
run_terminal c m (some (item, reason), s) =
    close c s item (reason_outcome reason) none (some (reason_code reason)) m
run_terminal c m (none, s) = run_claimed c m (claim s c.worker_id 60 m.claimed_at)

unfoldable pub run_once : Scheduler → Moment → Store → Result Bool × Store
unfolding run_terminal
run_once c m s =
    run_terminal c m
      (claim_terminal (reap_expired_running s m.reaped_at).1 c.worker_id 60 m.claimed_terminal_at)

unfoldable pub reconcile_local_echo :
    Scheduler → Moment → Store → ℕ → String → String → String → Result Bool × Store
unfolding close
reconcile_local_echo c m s account queue_id local_id provider_message_id =
    elim (uncertain_by_local_id s.operations account queue_id local_id) [
      | none ↦ (ok false, s)
      | some item ↦
          close c s item Outcome.committed
            (some (record { entity_id = some provider_message_id; revision = none })) none m
    ]
