-- ===== src/Scheduler/Reconciles.antt =====
-- Every branch of reconcile_once keeps the queue valid and serial.
use workspace_zulip_bridge.Common.{
  ℕ, suc, ◌+◌, ◌*◌, ltb, leb, ◌≡◌, refl, String, Bool, true, false, ◌||◌, Option, none, some,
  Bool-cases, inl, inr, length, if◌then◌else◌, str_eq,
}
use workspace_zulip_bridge.Queue.Types.{
  second, Store, Evidence, Outcome, QueuedOperation, Result, ok, value_error, database_error,
  raised,
}
use workspace_zulip_bridge.Queue.Claim.{claim_uncertain}
use workspace_zulip_bridge.Queue.Lifecycle.{
  reap_expired_running, defer_uncertain, require_operation_manual_reconciliation,
}
use workspace_zulip_bridge.Queue.Complete.{complete}
use workspace_zulip_bridge.Queue.Validity.Updates.{
  defer_uncertain-IsValid, schedule_reconciliation_check-IsValid, schedule_single_resend-IsValid,
  manual-IsValid,
}
use workspace_zulip_bridge.Queue.Validity.Claims.{reap-IsValid, claim_uncertain-IsValid}
use workspace_zulip_bridge.Queue.Validity.Closing.{complete-IsValid}
use workspace_zulip_bridge.Queue.Order.Advance.{complete-IsSerial}
use workspace_zulip_bridge.Queue.Order.Keeps.{
  defer_uncertain-IsSerial, schedule_reconciliation_check-IsSerial, schedule_single_resend-IsSerial,
  manual-IsSerial, reap-IsSerial, claim_uncertain-IsSerial,
}
use workspace_zulip_bridge.Scheduler.Report.{TargetCommit, result_record}
use workspace_zulip_bridge.Scheduler.Provider.{
  ZulipOperationError, Call, returns, ambiguous, fails, ReconciliationEvidence, Adapter, Scheduler,
  Moment, or_generation,
}
use workspace_zulip_bridge.Scheduler.Run.{close, after_complete, account_failed, account_succeeded}
use workspace_zulip_bridge.Scheduler.Reconcile.{
  unmatched, matched, evidence_found, lookup_failed, looked_up, look_up, reconcile_attempted,
  reconcile_claimed, reconcile_once, stored_evidence, reconciliation_delays, max_auto_resends,
}
use workspace_zulip_bridge.Scheduler.Runs.{IsWellBehaved}
use workspace_zulip_bridge.Scheduler.Claimed.{
  IsSound, IsClaimed, same-IsClaimed, claim_uncertain-IsClaimed,
}

module _ (c : Scheduler) (w : IsWellBehaved c) (m : Moment) where
  close-IsSound :
      (s : Store) (item : QueuedOperation) (outcome : Outcome) (commit : Option TargetCommit)
      (code : Option String)
      → IsClaimed item s
      → IsSound (close c s item outcome commit code m).1
  unfolding close
  close-IsSound s item outcome commit code (sound, own) =
      let result = result_record item.body outcome commit code m.result_uuid m.finished_at in
      go result (complete c.persist s item result outcome m.finished_at) refl
    where
      go :
          (result : _) (r : Result Store)
          → complete c.persist s item result outcome m.finished_at ≡ r
          → IsSound (after_complete s r).1
      go result (ok t) e = (
        complete-IsValid c.persist s t item result outcome m.finished_at e sound.0,
        complete-IsSerial c.persist s t item result outcome m.finished_at own e sound.1,
      )
      go result (value_error message) e = sound
      go result database_error e = sound
      go result (raised message) e = sound

  manual-IsSound :
      (s : Store) (item : QueuedOperation) (code : String) (evidence : Evidence) (now : ℕ)
      → IsSound s
      → IsSound (require_operation_manual_reconciliation c.uuid5 s item code evidence now)
  manual-IsSound s item code evidence now sound = (
    manual-IsValid c.uuid5 s item code evidence now sound.0,
    manual-IsSerial c.uuid5 s item code evidence now sound.1,
  )

  unmatched-IsSound :
      (s : Store) (item : QueuedOperation) (evidence : ReconciliationEvidence) (now : ℕ)
      → IsSound s
      → IsSound (unmatched c s item evidence now)
  unfolding unmatched
  unmatched-IsSound s item evidence now sound =
      elim (Bool-cases (ltb (suc item.reconciliation_check_count) (length reconciliation_delays))) [
        | inl again ↦
            rw (again, unmatched)
              (
                schedule_reconciliation_check-IsValid s item _ (stored_evidence evidence) now
                    sound.0,
                schedule_reconciliation_check-IsSerial s item _ (stored_evidence evidence) now
                    sound.1,
              )
        | inr enough ↦ elim (Bool-cases (ltb item.auto_resend_count max_auto_resends)) [
          | inl resend ↦
              rw (enough, resend, unmatched)
                (
                  schedule_single_resend-IsValid s item (stored_evidence evidence) now sound.0,
                  schedule_single_resend-IsSerial s item (stored_evidence evidence) now sound.1,
                )
          | inr spent ↦
              rw (enough, spent, unmatched)
                (manual-IsSound s item "no_match_after_auto_resend" (stored_evidence evidence) now
                  sound)
        ]
      ]

  matched-IsSound :
      (s : Store) (item : QueuedOperation) (evidence : ReconciliationEvidence) (o : Option String)
      → IsClaimed item s
      → IsSound (matched c s item evidence m o).1
  unfolding matched
  matched-IsSound s item evidence none k = k.0
  matched-IsSound s item evidence (some selected) k =
      close-IsSound s item Outcome.committed _ none k

  found-IsSound :
      (s : Store) (item : QueuedOperation) (evidence : ReconciliationEvidence)
      → IsClaimed item s
      → IsSound (evidence_found c s item evidence m).1
  unfolding evidence_found
  found-IsSound s item evidence k = elim (Bool-cases (leb 1 evidence.exact_match_count)) [
    | inl some_match ↦
        rw (some_match, evidence_found)
          (matched-IsSound s item evidence evidence.selected_provider_id k)
    | inr no_match ↦
        rw (no_match, evidence_found) (unmatched-IsSound s item evidence m.finished_at k.0)
  ]

  lookup_failed-IsSound :
      (s : Store) (item : QueuedOperation) (error : ZulipOperationError) (generation : Option ℕ)
      → IsClaimed item s
      → IsSound (lookup_failed c s item error generation m)
  unfolding lookup_failed
  lookup_failed-IsSound s item error generation k = branch (handled.0 || error.retryable)
    where
      attempted : Option ℕ
      attempted = or_generation error.account_generation generation

      handled : Bool × Store
      handled = account_failed c item.body.account_uuid error attempted s

      sound : IsSound handled.1
      sound =
          (same-IsClaimed item s handled.1
            (w.failure_operations item.body.account_uuid error attempted s)
            (w.failure_lanes item.body.account_uuid error attempted s) k).0

      reason : String
      reason =
          if str_eq error.code "provider_unavailable"
          then "provider_history_unavailable"
          else "unsafe_provider_state"

      code : String
      code = if handled.0 then "unauthorized_account" else error.code

      branch :
          (b : Bool)
          → IsSound (
              if b
              then defer_uncertain handled.1 item (m.finished_at + 5 * second) code m.finished_at
              else require_operation_manual_reconciliation c.uuid5 handled.1 item reason
                  (Evidence.provider_error error.code)
                  m.finished_at)
      branch true = (
        defer_uncertain-IsValid handled.1 item (m.finished_at + 5 * second) code m.finished_at
            sound.0,
        defer_uncertain-IsSerial handled.1 item (m.finished_at + 5 * second) code m.finished_at
            sound.1,
      )
      branch false =
          manual-IsSound handled.1 item reason (Evidence.provider_error error.code) m.finished_at
            sound

  looked_up-IsSound :
      (s : Store) (item : QueuedOperation) (generation : Option ℕ)
      (call : Call ReconciliationEvidence)
      → IsClaimed item s
      → IsSound (looked_up c s item generation m call).1
  unfolding looked_up
  looked_up-IsSound s item generation (returns evidence) k =
      found-IsSound (account_succeeded c item.body.account_uuid generation s) item evidence (
        same-IsClaimed item s (account_succeeded c item.body.account_uuid generation s)
          (w.success_operations item.body.account_uuid generation s)
          (w.success_lanes item.body.account_uuid generation s) k)
  looked_up-IsSound s item generation (ambiguous message) k = k.0
  looked_up-IsSound s item generation (fails error) k =
      lookup_failed-IsSound s item error generation k

  look_up-IsSound :
      (s : Store) (item : QueuedOperation) (attempted_at : ℕ) (call : Call Adapter)
      → IsClaimed item s
      → IsSound (look_up c s item attempted_at m call).1
  unfolding look_up
  look_up-IsSound s item attempted_at (returns adapter) k =
      looked_up-IsSound s item adapter.account_generation
        (adapter.reconcile_message item.body.operation attempted_at item.provider_rendered_content)
        k
  look_up-IsSound s item attempted_at (ambiguous message) k = k.0
  look_up-IsSound s item attempted_at (fails error) k = lookup_failed-IsSound s item error none k

  attempted-IsSound :
      (s : Store) (item : QueuedOperation) (o : Option ℕ)
      → IsClaimed item s
      → IsSound (reconcile_attempted c s item m o).1
  unfolding reconcile_attempted
  attempted-IsSound s item none k =
      manual-IsSound s item "unsafe_provider_state" Evidence.no_attempt m.finished_at k.0
  attempted-IsSound s item (some attempted_at) k =
      look_up-IsSound s item attempted_at (c.adapters item.body.account_uuid) k

  -- From a valid and serial queue, whatever the provider answers and whichever call raises, a
  -- reconciliation leaves a valid and serial queue, where the account handlers leave the operations
  -- and the lanes alone.
  pub reconcile_once-IsSound : (s : Store) → IsSound s → IsSound (reconcile_once c m s).1
  unfolding reconcile_once reconcile_claimed
  reconcile_once-IsSound s sound = go (claim_uncertain reaped c.worker_id m.claimed_at).0 refl
    where
      reaped : Store
      reaped = (reap_expired_running s m.reaped_at).1

      ready : IsSound reaped
      ready = (reap-IsValid s m.reaped_at sound.0, reap-IsSerial s m.reaped_at sound.1)

      t : Store
      t = (claim_uncertain reaped c.worker_id m.claimed_at).1

      go :
          (o : Option QueuedOperation)
          → (claim_uncertain reaped c.worker_id m.claimed_at).0 ≡ o
          → IsSound (reconcile_claimed c m (o, t)).1
      go none e = (
        claim_uncertain-IsValid reaped c.worker_id m.claimed_at ready.0,
        claim_uncertain-IsSerial reaped c.worker_id m.claimed_at ready.1,
      )
      go (some item) e =
          attempted-IsSound t item item.provider_attempted_at
            (claim_uncertain-IsClaimed reaped c.worker_id m.claimed_at item ready e)
