-- ===== src/Queue/Steps.antt =====
-- The queue as a transition system: each step is one transaction of storage.py.
use workspace_zulip_bridge.Common.{ℕ, ◌≡◌, String, Bool, Option, List, In, true}
use workspace_zulip_bridge.Queue.Types.{
  Row, Record, ResultRecord, Outcome, Evidence, Mappings, Store, QueuedOperation, Result, ok,
}
use workspace_zulip_bridge.Queue.Claim.{claim, claim_terminal, claim_uncertain}
use workspace_zulip_bridge.Queue.Lifecycle.{
  reap_expired_running, retry, record_provider_attempt, mark_uncertain, defer_uncertain,
  schedule_reconciliation_check, schedule_single_resend, require_operation_manual_reconciliation,
  require_manual_reconciliation,
}
use workspace_zulip_bridge.Queue.Complete.{complete}
use workspace_zulip_bridge.Queue.Enqueue.{enqueue}
use workspace_zulip_bridge.Queue.Results.{Response, finalize_provider_result_responses}
use workspace_zulip_bridge.Queue.Order.{in_flight, same_lane, IsSerial, one_in_flight}
use workspace_zulip_bridge.Queue.Order.Advance.{IsOwn, complete-IsSerial}
use workspace_zulip_bridge.Queue.Order.Claims.{
  claim-IsSerial, claim_terminal-IsSerial, enqueue-IsSerial,
}
use workspace_zulip_bridge.Queue.Order.Keeps.{
  retry-IsSerial, mark_uncertain-IsSerial, defer_uncertain-IsSerial,
  schedule_reconciliation_check-IsSerial, schedule_single_resend-IsSerial,
  record_provider_attempt-IsSerial, reap-IsSerial, manual-IsSerial, account_manual-IsSerial,
  claim_uncertain-IsSerial, finalize-IsSerial,
}
use workspace_zulip_bridge.Queue.Validity.{IsValid}
use workspace_zulip_bridge.Queue.Validity.Claims.{
  claim-IsValid, claim_terminal-IsValid, claim_uncertain-IsValid, reap-IsValid,
}
use workspace_zulip_bridge.Queue.Validity.Updates.{
  IsHeld, retry-IsValid, mark_uncertain-IsValid, defer_uncertain-IsValid,
  schedule_reconciliation_check-IsValid, schedule_single_resend-IsValid,
  record_provider_attempt-IsValid, manual-IsValid, account_manual-IsValid,
}
use workspace_zulip_bridge.Queue.Validity.Closing.{
  complete-IsValid, enqueue-IsValid, finalize-IsValid,
}

-- The functions that the statements call: the committed mapping, uuid5, and the two digests.
pub record Environment : Type 0 where
  pub persist : Record → Option String → Option String → Mappings → Result Mappings
  pub uuid5 : ℕ → String → ℕ
  pub digest : Record → String
  pub read_digest : Record → String

pub data Step (env : Environment) (s : Store) : Store → Type 0 where
  enqueues :
      (t : Store) (r : Record) (priority now : ℕ) (added : Bool)
      → (enqueue env.digest s r priority now).1 ≡ ok (added, t)
      → Step env s t
  claims : (worker : String) (seconds now : ℕ) → Step env s (claim s worker seconds now).1
  claims_terminal :
      (worker : String) (seconds now : ℕ) → Step env s (claim_terminal s worker seconds now).1
  claims_uncertain : (worker : String) (now : ℕ) → Step env s (claim_uncertain s worker now).1
  reaps : (now : ℕ) → Step env s (reap_expired_running s now).1
  retries :
      (item : QueuedOperation) (at : ℕ) (code : String) (now : ℕ)
      → IsHeld s item
      → Step env s (retry s item at code now)
  marks_uncertain :
      (item : QueuedOperation) (code : String) (now : ℕ)
      → IsHeld s item
      → Step env s (mark_uncertain s item code now)
  attempts :
      (item : QueuedOperation) (queue_id local_id : String) (event : ℕ) (content : String) (now : ℕ)
      → Step env s (record_provider_attempt s item queue_id local_id event content now)
  defers :
      (item : QueuedOperation) (at : ℕ) (code : String) (now : ℕ)
      → Step env s (defer_uncertain s item at code now)
  schedules_check :
      (item : QueuedOperation) (after : ℕ) (evidence : Evidence) (now : ℕ)
      → Step env s (schedule_reconciliation_check s item after evidence now)
  resends :
      (item : QueuedOperation) (evidence : Evidence) (now : ℕ)
      → Step env s (schedule_single_resend s item evidence now)
  gives_up :
      (item : QueuedOperation) (code : String) (evidence : Evidence) (now : ℕ)
      → Step env s (require_operation_manual_reconciliation env.uuid5 s item code evidence now)
  warns :
      (account : ℕ) (code : String) (now : ℕ)
      → Step env s (require_manual_reconciliation s account code now)
  completes :
      (t : Store) (item : QueuedOperation) (result : ResultRecord) (outcome : Outcome) (now : ℕ)
      → IsOwn s item
      → complete env.persist s item result outcome now ≡ ok t
      → Step env s t
  acknowledges :
      (t : Store) (responses : List Response) (now : ℕ)
      → finalize_provider_result_responses env.read_digest s responses now ≡ ok t
      → Step env s t

Step-IsValid : (env : Environment) {s t : Store} → Step env s t → IsValid s → IsValid t
Step-IsValid env {s} (enqueues t r priority now added h) v =
    enqueue-IsValid env.digest s t r priority now added h v
Step-IsValid env {s} (claims worker seconds now) v = claim-IsValid s worker seconds now v
Step-IsValid env {s} (claims_terminal worker seconds now) v =
    claim_terminal-IsValid s worker seconds now v
Step-IsValid env {s} (claims_uncertain worker now) v = claim_uncertain-IsValid s worker now v
Step-IsValid env {s} (reaps now) v = reap-IsValid s now v
Step-IsValid env {s} (retries item at code now held) v = retry-IsValid s item at code now held v
Step-IsValid env {s} (marks_uncertain item code now held) v =
    mark_uncertain-IsValid s item code now held v
Step-IsValid env {s} (attempts item queue_id local_id event content now) v =
    record_provider_attempt-IsValid s item queue_id local_id event content now v
Step-IsValid env {s} (defers item at code now) v = defer_uncertain-IsValid s item at code now v
Step-IsValid env {s} (schedules_check item after evidence now) v =
    schedule_reconciliation_check-IsValid s item after evidence now v
Step-IsValid env {s} (resends item evidence now) v =
    schedule_single_resend-IsValid s item evidence now v
Step-IsValid env {s} (gives_up item code evidence now) v =
    manual-IsValid env.uuid5 s item code evidence now v
Step-IsValid env {s} (warns account code now) v = account_manual-IsValid s account code now v
Step-IsValid env {s} (completes t item result outcome now own h) v =
    complete-IsValid env.persist s t item result outcome now h v
Step-IsValid env {s} (acknowledges t responses now h) v =
    finalize-IsValid env.read_digest s t responses now h v

Step-IsSerial :
    (env : Environment) {s t : Store} → Step env s t → IsValid s → IsSerial s → IsSerial t
Step-IsSerial env {s} (enqueues t r priority now added h) w v =
    enqueue-IsSerial env.digest s t r priority now added h v
Step-IsSerial env {s} (claims worker seconds now) w v = claim-IsSerial worker seconds now s w v
Step-IsSerial env {s} (claims_terminal worker seconds now) w v =
    claim_terminal-IsSerial worker seconds now s w v
Step-IsSerial env {s} (claims_uncertain worker now) w v = claim_uncertain-IsSerial s worker now v
Step-IsSerial env {s} (reaps now) w v = reap-IsSerial s now v
Step-IsSerial env {s} (retries item at code now held) w v = retry-IsSerial s item at code now v
Step-IsSerial env {s} (marks_uncertain item code now held) w v =
    mark_uncertain-IsSerial s item code now held v
Step-IsSerial env {s} (attempts item queue_id local_id event content now) w v =
    record_provider_attempt-IsSerial s item queue_id local_id event content now v
Step-IsSerial env {s} (defers item at code now) w v = defer_uncertain-IsSerial s item at code now v
Step-IsSerial env {s} (schedules_check item after evidence now) w v =
    schedule_reconciliation_check-IsSerial s item after evidence now v
Step-IsSerial env {s} (resends item evidence now) w v =
    schedule_single_resend-IsSerial s item evidence now v
Step-IsSerial env {s} (gives_up item code evidence now) w v =
    manual-IsSerial env.uuid5 s item code evidence now v
Step-IsSerial env {s} (warns account code now) w v = account_manual-IsSerial s account code now v
Step-IsSerial env {s} (completes t item result outcome now own h) w v =
    complete-IsSerial env.persist s t item result outcome now own h v
Step-IsSerial env {s} (acknowledges t responses now h) w v =
    finalize-IsSerial env.read_digest responses now s t h v

pub data Reach (env : Environment) (s : Store) : Store → Type 0 where
  here : Reach env s s
  next : {t u : Store} → Reach env s t → Step env t u → Reach env s u

-- From a valid table, every sequence of transactions of the queue leads to a valid table: a row is
-- resent automatically at most once, a running row has a lease, pending and closed rows have none, a
-- result record is there exactly when the row is closed, the three columns of a provider attempt
-- are set together, and the record UUIDs stay distinct. `retry` and `mark_uncertain` are taken
-- where the row is still running.
pub Reach-IsValid : (env : Environment) {s t : Store} → Reach env s t → IsValid s → IsValid t
Reach-IsValid env here v = v
Reach-IsValid env (next r step) v = Step-IsValid env step (Reach-IsValid env r v)

Reach-IsSerial :
    (env : Environment) {s t : Store} → Reach env s t → IsValid s → IsSerial s → IsSerial t
Reach-IsSerial env here w v = v
Reach-IsSerial env (next r step) w v =
    Step-IsSerial env step (Reach-IsValid env r w) (Reach-IsSerial env r w v)

-- After every sequence of transactions from a valid and serial table, two first attempts of one causal
-- lane that are both running or uncertain are the same row: the operations of a lane go to the
-- provider one at a time. Each completion is of an item that stands in its lane where its row does,
-- and `retry` and `mark_uncertain` are of a running row.
pub Reach-one_in_flight :
    (env : Environment) {s t : Store} (a b : Row)
    → Reach env s t
    → IsValid s
    → IsSerial s
    → In a t.operations
    → In b t.operations
    → in_flight a ≡ true
    → in_flight b ≡ true
    → same_lane a b ≡ true
    → a ≡ b
Reach-one_in_flight env {s} {t} a b r w v = one_in_flight t a b (Reach-IsSerial env r w v)
