-- ===== src/Scheduler/Reconcile.antt =====
-- Scheduler.reconcile_once of scheduler.py: an uncertain send is looked up at the provider, checked
-- again after a while, sent once more, or handed to a person.
use workspace_zulip_bridge.Common.{
  ℕ, zero, suc, ◌+◌, ◌-◌, ◌*◌, String, Bool, true, false, ◌||◌, Option, none, some, List, [], ◌∷◌,
  ltb, leb, str_eq, if◌then◌else◌, length,
}
use workspace_zulip_bridge.Queue.Types.{
  second, Store, Evidence, QueuedOperation, Outcome, Mapping, Result, ok, raised,
}
use workspace_zulip_bridge.Queue.Claim.{claim_uncertain}
use workspace_zulip_bridge.Queue.Lifecycle.{
  reap_expired_running, defer_uncertain, schedule_reconciliation_check, schedule_single_resend,
  require_operation_manual_reconciliation,
}
use workspace_zulip_bridge.Scheduler.Report.{mentions}
use workspace_zulip_bridge.Scheduler.Provider.{
  ZulipOperationError, Call, returns, ambiguous, fails, ReconciliationEvidence, Adapter, Scheduler,
  Moment, or_generation,
}
use workspace_zulip_bridge.Scheduler.Mapping.{workspace_mapping}
use workspace_zulip_bridge.Scheduler.Run.{close, account_failed, account_succeeded}

abbrev pub reconciliation_delays : List ℕ
reconciliation_delays = 5 ∷ 15 ∷ 30 ∷ []

abbrev pub max_auto_resends : ℕ
max_auto_resends = 1

-- RECONCILIATION_DELAYS_SECONDS[i], where the caller has tested the index.
abbrev pub delay_at : List ℕ → ℕ → ℕ
delay_at [] i = 0
delay_at (d ∷ ds) zero = d
delay_at (d ∷ ds) (suc i) = delay_at ds i

abbrev pub stored_evidence : ReconciliationEvidence → Evidence
stored_evidence e =
    Evidence.checked e.checked_at e.candidate_ids e.exact_match_count e.selected_provider_id

-- No message of the provider matches.
unfoldable pub unmatched : Scheduler → Store → QueuedOperation → ReconciliationEvidence → ℕ → Store
unmatched c s item evidence now =
    let next_check = suc item.reconciliation_check_count in
    if ltb next_check (length reconciliation_delays)
    then schedule_reconciliation_check s item
        (now
          + (delay_at reconciliation_delays next_check
              - delay_at reconciliation_delays (next_check - 1))
            * second)
        (stored_evidence evidence) now
    else if ltb item.auto_resend_count max_auto_resends
    then schedule_single_resend s item (stored_evidence evidence) now
    else require_operation_manual_reconciliation c.uuid5 s item "no_match_after_auto_resend"
        (stored_evidence evidence) now

-- An association that a local echo confirmed is preferred among the candidates.
unfoldable pub preferred : List String → String → Option Mapping → String
preferred candidates selected none = selected
preferred candidates selected (some m) =
    if mentions candidates m.provider_id then m.provider_id else selected

unfoldable pub matched :
    Scheduler
    → Store
    → QueuedOperation
    → ReconciliationEvidence
    → Moment
    → Option String
    → Result Bool × Store
unfolding close preferred
matched c s item evidence m none = (raised "AssertionError", s)
matched c s item evidence m (some selected) =
    close c s item Outcome.committed
      (some (record {
        entity_id = some (
            preferred evidence.candidate_ids selected (
              workspace_mapping s item.body.account_uuid "message"
                item.body.operation.entity_uuid));
        revision = none;
      }))
      none m

unfoldable pub evidence_found :
    Scheduler → Store → QueuedOperation → ReconciliationEvidence → Moment → Result Bool × Store
unfolding matched unmatched
evidence_found c s item evidence m =
    if leb 1 evidence.exact_match_count
    then matched c s item evidence m evidence.selected_provider_id
    else (ok true, unmatched c s item evidence m.finished_at)

-- The `except ZulipOperationError` branch. The store has `defer_uncertain`.
unfoldable pub lookup_failed :
    Scheduler → Store → QueuedOperation → ZulipOperationError → Option ℕ → Moment → Store
lookup_failed c s item error generation m =
    let (authentication, t) =
      account_failed c item.body.account_uuid error
        (or_generation error.account_generation generation) s in
    if authentication || error.retryable
    then defer_uncertain t item (m.finished_at + 5 * second)
        (if authentication then "unauthorized_account" else error.code) m.finished_at
    else require_operation_manual_reconciliation c.uuid5 t item
        (if str_eq error.code "provider_unavailable"
          then "provider_history_unavailable"
          else "unsafe_provider_state")
        (Evidence.provider_error error.code) m.finished_at

unfoldable pub looked_up :
    Scheduler
    → Store
    → QueuedOperation
    → Option ℕ
    → Moment
    → Call ReconciliationEvidence
    → Result Bool × Store
unfolding evidence_found lookup_failed
looked_up c s item generation m (returns evidence) =
    evidence_found c (account_succeeded c item.body.account_uuid generation s) item evidence m
looked_up c s item generation m (ambiguous message) = (raised "ZulipAmbiguousOutcome", s)
looked_up c s item generation m (fails error) = (ok true, lookup_failed c s item error generation m)

unfoldable pub look_up :
    Scheduler → Store → QueuedOperation → ℕ → Moment → Call Adapter → Result Bool × Store
unfolding looked_up
look_up c s item attempted_at m (returns adapter) =
    looked_up c s item adapter.account_generation m
      (adapter.reconcile_message item.body.operation attempted_at item.provider_rendered_content)
look_up c s item attempted_at m (ambiguous message) = (raised "ZulipAmbiguousOutcome", s)
look_up c s item attempted_at m (fails error) = (ok true, lookup_failed c s item error none m)

unfoldable pub reconcile_attempted :
    Scheduler → Store → QueuedOperation → Moment → Option ℕ → Result Bool × Store
unfolding look_up
reconcile_attempted c s item m none = (
  ok true,
  require_operation_manual_reconciliation c.uuid5 s item "unsafe_provider_state" Evidence.no_attempt
      m.finished_at,
)
reconcile_attempted c s item m (some attempted_at) =
    look_up c s item attempted_at m (c.adapters item.body.account_uuid)

unfoldable pub reconcile_claimed :
    Scheduler → Moment → Option QueuedOperation × Store → Result Bool × Store
unfolding reconcile_attempted
reconcile_claimed c m (none, s) = (ok false, s)
reconcile_claimed c m (some item, s) = reconcile_attempted c s item m item.provider_attempted_at

unfoldable pub reconcile_once : Scheduler → Moment → Store → Result Bool × Store
unfolding reconcile_claimed
reconcile_once c m s =
    reconcile_claimed c m
      (claim_uncertain (reap_expired_running s m.reaped_at).1 c.worker_id m.claimed_at)
