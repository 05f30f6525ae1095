-- ===== src/Scheduler/Runs.antt =====
-- Every branch of run_once, from a valid and serial queue.
use workspace_zulip_bridge.Common.{
  ℕ, ◌+◌, ◌≡◌, refl, String, Bool, true, false, not, ◌&&◌, Option, none, some, arith, ◌⊎◌, inl, inr,
  All-update_where, if◌then◌else◌, due,
}
use workspace_zulip_bridge.Queue.Types.{
  Outcome, ResultRecord, Store, QueuedOperation, row_is, is_running, Result, ok, value_error,
  database_error, raised,
}
use workspace_zulip_bridge.Queue.Claim.{Reason, claim, claim_terminal}
use workspace_zulip_bridge.Queue.Lifecycle.{
  reap_expired_running, retry, retry_row, mark_uncertain, uncertain_row, record_provider_attempt,
}
use workspace_zulip_bridge.Queue.Complete.{complete, is_terminal_outcome}
use workspace_zulip_bridge.Queue.Validity.{IsValid}
use workspace_zulip_bridge.Queue.Validity.Updates.{retry-IsValid, mark_uncertain-IsValid}
use workspace_zulip_bridge.Queue.Validity.Claims.{
  reap-IsValid, claim-IsValid, claim_terminal-IsValid,
}
use workspace_zulip_bridge.Queue.Order.{IsSerial}
use workspace_zulip_bridge.Queue.Order.Keeps.{
  retry-IsSerial, mark_uncertain-IsSerial, reap-IsSerial,
}
use workspace_zulip_bridge.Queue.Order.Claims.{claim-IsSerial, claim_terminal-IsSerial}
use workspace_zulip_bridge.Scheduler.Report.{TargetCommit, result_record}
use workspace_zulip_bridge.Scheduler.Provider.{
  ZulipOperationError, Call, returns, ambiguous, fails, SendCorrelation, Adapter, Scheduler, Moment,
  or_generation,
}
use workspace_zulip_bridge.Scheduler.Run.{
  close, after_complete, reason_outcome, reason_code, account_failed, account_succeeded,
  backoff_limit, operation_failed, operation_applied, operation_prepared, dispatch, run_claimed,
  run_terminal, run_once,
}
use workspace_zulip_bridge.Scheduler.Taken.{
  IsTaken, Holds, IsTaken-IsHeld, keep-IsTaken, record_provider_attempt-IsTaken, claim-IsTaken,
  claim_terminal-IsTaken,
}
use workspace_zulip_bridge.Scheduler.Returns.{
  IsFinished, IsEnded, Ends, IsReleased, complete_taken, complete-Ends,
}

-- What the scheduler relies on: the account handlers leave the operations and the lanes alone.
pub record IsWellBehaved (c : Scheduler) : Type 0 where
  pub failure_operations :
      (account : ℕ) (e : ZulipOperationError) (g : Option ℕ) (s : Store)
      → (account_failed c account e g s).1.operations ≡ s.operations
  pub failure_lanes :
      (account : ℕ) (e : ZulipOperationError) (g : Option ℕ) (s : Store)
      → (account_failed c account e g s).1.lanes ≡ s.lanes
  pub success_operations :
      (account : ℕ) (g : Option ℕ) (s : Store)
      → (account_succeeded c account g s).operations ≡ s.operations
  pub success_lanes :
      (account : ℕ) (g : Option ℕ) (s : Store) → (account_succeeded c account g s).lanes ≡ s.lanes

module _ (c : Scheduler) (w : IsWellBehaved c) (m : Moment) where
  after_complete-IsEnded :
      (s : Store) (item : QueuedOperation) (result : ResultRecord) (outcome : Outcome)
      (terminal : is_terminal_outcome outcome ≡ true) (k : IsTaken s item) (r : Result Store)
      → ((t : Store) → r ≡ ok t → IsValid t × IsSerial t × IsReleased item t)
      → Ends c.persist s item k result outcome m.finished_at terminal r
      → IsEnded c.persist item (after_complete s r)
  after_complete-IsEnded s item result outcome terminal k (ok t) closes e =
      let (valid, serial, released) = closes t refl in
      inl (record { returned = refl; valid = valid; serial = serial; released = released })
  after_complete-IsEnded s item result outcome terminal k (value_error message) closes (inl ended) =
      elim ended [ ]
  after_complete-IsEnded s item result outcome terminal k (value_error message) closes (inr e) =
      inr (record {
        raises = (result.body.provider_entity_id, result.body.provider_revision, e);
        taken = k;
      })
  after_complete-IsEnded s item result outcome terminal k database_error closes (inl ended) =
      elim ended [ ]
  after_complete-IsEnded s item result outcome terminal k database_error closes (inr e) =
      inr (record {
        raises = (result.body.provider_entity_id, result.body.provider_revision, e);
        taken = k;
      })
  after_complete-IsEnded s item result outcome terminal k (raised message) closes (inl ended) =
      elim ended [ ]
  after_complete-IsEnded s item result outcome terminal k (raised message) closes (inr e) =
      inr (record {
        raises = (result.body.provider_entity_id, result.body.provider_revision, e);
        taken = k;
      })

  close-IsEnded :
      (s : Store) (item : QueuedOperation) (outcome : Outcome) (commit : Option TargetCommit)
      (code : Option String)
      → is_terminal_outcome outcome ≡ true
      → IsTaken s item
      → IsEnded c.persist item (close c s item outcome commit code m)
  unfolding close
  close-IsEnded s item outcome commit code terminal k =
      let result = result_record item.body outcome commit code m.result_uuid m.finished_at in
      after_complete-IsEnded s item result outcome terminal k
        (complete c.persist s item result outcome m.finished_at)
        (complete_taken c.persist s item k result outcome m.finished_at terminal)
        (complete-Ends c.persist s item k result outcome m.finished_at terminal)

  retry-IsFinished :
      (s : Store) (item : QueuedOperation) (at : ℕ) (code : String) (now : ℕ)
      → IsTaken s item
      → IsFinished item (ok true, retry s item at code now)
  unfolding retry retry_row
  retry-IsFinished s item at code now k = record {
    returned = refl;
    valid = retry-IsValid s item at code now (IsTaken-IsHeld s item k) k.valid;
    serial = retry-IsSerial s item at code now k.serial;
    released =
        All-update_where (Holds item)
          (λ row. (row_is item.record_uuid row && is_running row.state) ≡ false)
          (row_is item.record_uuid) (retry_row at code now) (λ row _ _. ground arith)
          (λ row _ other. ground arith) s.operations k.holds;
  }

  uncertain-IsFinished :
      (s : Store) (item : QueuedOperation) (code : String) (now : ℕ)
      → IsTaken s item
      → IsFinished item (ok true, mark_uncertain s item code now)
  unfolding mark_uncertain uncertain_row
  uncertain-IsFinished s item code now k = record {
    returned = refl;
    valid = mark_uncertain-IsValid s item code now (IsTaken-IsHeld s item k) k.valid;
    serial = mark_uncertain-IsSerial s item code now (IsTaken-IsHeld s item k) k.serial;
    released =
        All-update_where (Holds item)
          (λ row. (row_is item.record_uuid row && is_running row.state) ≡ false)
          (row_is item.record_uuid) (uncertain_row code now) (λ row _ _. ground arith)
          (λ row _ other. ground arith) s.operations k.holds;
  }

  failed-IsEnded :
      (s : Store) (item : QueuedOperation) (error : ZulipOperationError) (generation : Option ℕ)
      → IsTaken s item
      → IsEnded c.persist item (operation_failed c s item error generation m)
  unfolding operation_failed
  failed-IsEnded s item error generation k = branch (error.retryable && not handled.0)
    where
      attempted : Option ℕ
      attempted = or_generation error.account_generation generation

      handled : Bool × Store
      handled = account_failed c item.body.account_uuid error attempted s

      code : String
      code = if handled.0 then "unauthorized_account" else error.code

      taken : IsTaken handled.1 item
      taken =
          keep-IsTaken s handled.1 item
            (w.failure_operations item.body.account_uuid error attempted s)
            (w.failure_lanes item.body.account_uuid error attempted s) k

      branch :
          (b : Bool)
          → IsEnded c.persist item (
              if b
              then (
                ok true,
                retry handled.1 item
                    (m.finished_at + c.uniform (backoff_limit item.attempts))
                    code
                    m.finished_at,
              )
              else close c handled.1 item Outcome.rejected none (some code) m)
      branch true = inl (
          retry-IsFinished handled.1 item (m.finished_at + c.uniform (backoff_limit item.attempts))
            code m.finished_at taken)
      branch false = close-IsEnded handled.1 item Outcome.rejected none (some code) refl taken

  applied-IsEnded :
      (s : Store) (item : QueuedOperation) (generation : Option ℕ)
      (call : Call (Option String × Option String))
      → IsTaken s item
      → IsEnded c.persist item (operation_applied c s item generation m call)
  unfolding operation_applied
  applied-IsEnded s item generation (returns (entity_id, revision)) k =
      close-IsEnded (account_succeeded c item.body.account_uuid generation s) item Outcome.committed
        (some (record { entity_id = entity_id; revision = revision })) none refl
        (keep-IsTaken s (account_succeeded c item.body.account_uuid generation s) item
          (w.success_operations item.body.account_uuid generation s)
          (w.success_lanes item.body.account_uuid generation s) k)
  applied-IsEnded s item generation (ambiguous message) k =
      inl (uncertain-IsFinished s item message m.finished_at k)
  applied-IsEnded s item generation (fails error) k = failed-IsEnded s item error generation k

  prepared-IsEnded :
      (s : Store) (item : QueuedOperation) (adapter : Adapter)
      (call : Call (Option SendCorrelation))
      → IsTaken s item
      → IsEnded c.persist item (operation_prepared c s item adapter m call)
  unfolding operation_prepared
  prepared-IsEnded s item adapter (returns none) k =
      applied-IsEnded s item adapter.account_generation
        (adapter.apply (c.provider_event_cursor item.body.account_uuid) item.body.operation none) k
  prepared-IsEnded s item adapter (returns (some correlation)) k =
      applied-IsEnded
        (record_provider_attempt s item correlation.queue_id correlation.local_id
          correlation.last_event_id correlation.provider_rendered_content m.attempted_at)
        item adapter.account_generation
        (adapter.apply (c.provider_event_cursor item.body.account_uuid) item.body.operation
          (some correlation))
        (record_provider_attempt-IsTaken s item correlation.queue_id correlation.local_id
          correlation.last_event_id correlation.provider_rendered_content m.attempted_at k)
  prepared-IsEnded s item adapter (ambiguous message) k =
      inl (uncertain-IsFinished s item message m.finished_at k)
  prepared-IsEnded s item adapter (fails error) k =
      failed-IsEnded s item error adapter.account_generation k

  dispatch-IsEnded :
      (s : Store) (item : QueuedOperation) (call : Call Adapter)
      → IsTaken s item
      → IsEnded c.persist item (dispatch c s item m call)
  unfolding dispatch
  dispatch-IsEnded s item (returns adapter) k =
      prepared-IsEnded s item adapter
        (adapter.prepare (c.provider_event_cursor item.body.account_uuid) item.body.operation
          item.body.operation_uuid item.provider_rendered_content)
        k
  dispatch-IsEnded s item (ambiguous message) k =
      inl (uncertain-IsFinished s item message m.finished_at k)
  dispatch-IsEnded s item (fails error) k = failed-IsEnded s item error none k

  -- Nothing was there to do, or one item was taken and finished.
  abbrev pub IsOrderly : Result Bool × Store → Type 0
  IsOrderly r =
      ((r.0 ≡ ok false) × IsValid r.1 × IsSerial r.1)
      ⊎ ((item : QueuedOperation) × IsEnded c.persist item r)

  claimed-IsOrderly :
      (s : Store)
      → IsValid s
      → IsSerial s
      → IsOrderly (run_claimed c m (claim s c.worker_id 60 m.claimed_at))
  unfolding run_claimed
  claimed-IsOrderly s valid serial = go (claim s c.worker_id 60 m.claimed_at).0 refl
    where
      t : Store
      t = (claim s c.worker_id 60 m.claimed_at).1

      go :
          (o : Option QueuedOperation)
          → (claim s c.worker_id 60 m.claimed_at).0 ≡ o
          → IsOrderly (run_claimed c m (o, t))
      go none e = inl (
        refl,
        claim-IsValid s c.worker_id 60 m.claimed_at valid,
        claim-IsSerial c.worker_id 60 m.claimed_at s valid serial,
      )
      go (some item) e = inr (item, branch (due item.body.expires_at m.checked_at))
        where
          taken : IsTaken t item
          taken = claim-IsTaken s c.worker_id 60 m.claimed_at item valid serial e

          branch :
              (b : Bool)
              → IsEnded c.persist item (
                  if b
                  then close c t item Outcome.expired none (some "expired") m
                  else dispatch c t item m (c.adapters item.body.account_uuid))
          branch true = close-IsEnded t item Outcome.expired none (some "expired") refl taken
          branch false = dispatch-IsEnded t item (c.adapters item.body.account_uuid) taken

  terminal-IsOrderly :
      (s : Store)
      → IsValid s
      → IsSerial s
      → IsOrderly (run_terminal c m (claim_terminal s c.worker_id 60 m.claimed_terminal_at))
  unfolding run_terminal
  terminal-IsOrderly s valid serial =
      go (claim_terminal s c.worker_id 60 m.claimed_terminal_at).0 refl
    where
      t : Store
      t = (claim_terminal s c.worker_id 60 m.claimed_terminal_at).1

      outcome_closes : (reason : Reason) → is_terminal_outcome (reason_outcome reason) ≡ true
      outcome_closes reason = ground arith

      go :
          (o : Option (QueuedOperation × Reason))
          → (claim_terminal s c.worker_id 60 m.claimed_terminal_at).0 ≡ o
          → IsOrderly (run_terminal c m (o, t))
      go none e =
          claimed-IsOrderly t (claim_terminal-IsValid s c.worker_id 60 m.claimed_terminal_at valid)
            (claim_terminal-IsSerial c.worker_id 60 m.claimed_terminal_at s valid serial)
      go (some (item, reason)) e = inr (
        item,
        close-IsEnded t item (reason_outcome reason) none (some (reason_code reason))
            (outcome_closes reason)
            (claim_terminal-IsTaken s c.worker_id 60 m.claimed_terminal_at item reason valid serial
              e),
      )

  -- From a valid and serial queue, with handlers that leave the operations and the lanes alone, a run
  -- of the scheduler leaves a valid and serial queue. It returns False, or returns True and no row of
  -- the operation that it took is running; it raises only what the installation of the mapping of
  -- that operation raises on the stored mappings, and then the operation is still running.
  pub run_once-IsOrderly : (s : Store) → IsValid s → IsSerial s → IsOrderly (run_once c m s)
  unfolding run_once
  run_once-IsOrderly s valid serial =
      terminal-IsOrderly (reap_expired_running s m.reaped_at).1 (reap-IsValid s m.reaped_at valid)
        (reap-IsSerial s m.reaped_at serial)
