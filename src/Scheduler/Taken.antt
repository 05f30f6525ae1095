-- ===== src/Scheduler/Taken.antt =====
-- An operation in the hands of the scheduler: its row is running, and stands where the item says.
use workspace_zulip_bridge.Common.{
  ℕ, ==_refl, ◌≡◌, refl, sym, subst, ap, ◌∙◌, String, true, ◌&&◌, Option, none, some, [], ◌∷◌,
  arith, All, All-In, All-update_where, All-update_In, update_where, In, In-update_where,
  if◌then◌else◌,
}
use workspace_zulip_bridge.Common.Select.{first_by, first_by-In}
use workspace_zulip_bridge.Common.Unique.{UniqueBy-eq}
use workspace_zulip_bridge.Queue.Types.{
  Row, Store, QueuedOperation, queued_operation, row_is, is_running, place, record_place,
}
use workspace_zulip_bridge.Queue.Claim.{
  Reason, claim, claimable, claim_key, claim_terminal, terminal_claimable, terminal_reason, run_row,
}
use workspace_zulip_bridge.Queue.Lifecycle.{record_provider_attempt, attempt_row}
use workspace_zulip_bridge.Queue.Validity.{IsValid, uuid_of}
use workspace_zulip_bridge.Queue.Validity.Updates.{IsHeld, record_provider_attempt-IsValid}
use workspace_zulip_bridge.Queue.Validity.Claims.{claim-IsValid, claim_terminal-IsValid}
use workspace_zulip_bridge.Queue.Order.{IsSerial, IsRecorded}
use workspace_zulip_bridge.Queue.Order.Advance.{IsOwn}
use workspace_zulip_bridge.Queue.Order.Claims.{claim-IsSerial, claim_terminal-IsSerial}
use workspace_zulip_bridge.Queue.Order.Keeps.{record_provider_attempt-IsSerial}

-- What is known of a row with the item's UUID.
abbrev pub Holds : QueuedOperation → Row → Type 0
Holds item row =
    row_is item.record_uuid row ≡ true
    → (is_running row.state ≡ true) × (record_place item.body ≡ place row)

pub record IsTaken (s : Store) (item : QueuedOperation) : Type 0 where
  pub valid : IsValid s
  pub serial : IsSerial s
  pub holds : All (Holds item) s.operations
  pub present : (row : Row) × In row s.operations × (row_is item.record_uuid row ≡ true)

pub IsTaken-IsHeld : (s : Store) (item : QueuedOperation) → IsTaken s item → IsHeld s item
IsTaken-IsHeld s item t row i h = (All-In (Holds item) row s.operations t.holds i h).0

pub IsTaken-IsOwn : (s : Store) (item : QueuedOperation) → IsTaken s item → IsOwn s item
IsTaken-IsOwn s item t row i h = (All-In (Holds item) row s.operations t.holds i h).1

run_row_running :
    (worker : String) (seconds now : ℕ) (row : Row)
    → (is_running (run_row worker seconds now row).state ≡ true)
      × (place (run_row worker seconds now row) ≡ place row)
      × ((run_row worker seconds now row).record_uuid ≡ row.record_uuid)
unfolding run_row
run_row_running worker seconds now row = (refl, refl, refl)

queued_operation_lem :
    (row : Row)
    → ((queued_operation row).record_uuid ≡ row.record_uuid)
      × ((queued_operation row).body ≡ row.body)
unfolding queued_operation
queued_operation_lem row = (refl, refl)

-- The row that a claim took out of the table.
taken :
    (s t : Store) (worker : String) (seconds now : ℕ) (row : Row)
    → In row s.operations
    → t.operations ≡ update_where (row_is row.record_uuid) (run_row worker seconds now) s.operations
    → IsValid s
    → IsSerial s
    → IsValid t
    → IsSerial t
    → IsTaken t (queued_operation row)
unfolding queued_operation
taken s t worker seconds now row i e sv ss tv ts = record {
  valid = tv;
  serial = ts;
  holds = rw e (
      All-update_In IsRecorded (Holds (queued_operation row)) (row_is row.record_uuid)
        (run_row worker seconds now) s.operations
        (λ a j recorded named _. (
          (run_row_running worker seconds now a).0,
          ap (λ (r : Row). record_place r.body)
                (UniqueBy-eq uuid_of row a s.operations sv.unique i j (ground arith))
              ∙ recorded
              ∙ sym (run_row_running worker seconds now a).1,
        ))
        (λ a j _ other named. absurd (cc other)) ss.recorded);
  present = (
    run_row worker seconds now row,
    rw e (
        rw (==_refl row.record_uuid) at (
          In-update_where (row_is row.record_uuid) (run_row worker seconds now) row s.operations
            i)),
    rw (run_row_running worker seconds now row).2 (==_refl row.record_uuid),
  );
}

pub claim-IsTaken :
    (s : Store) (worker : String) (seconds now : ℕ) (item : QueuedOperation)
    → IsValid s
    → IsSerial s
    → (claim s worker seconds now).0 ≡ some item
    → IsTaken (claim s worker seconds now).1 item
unfolding claim
claim-IsTaken s worker seconds now item v w h = go _ refl
  where
    go :
        (o : Option Row)
        → first_by (claimable s now) (claim_key s) s.operations ≡ o
        → IsTaken (claim s worker seconds now).1 item
    go none e = absurd (cc (rw (e, claim) at h))
    go (some row) e =
        let same : queued_operation row ≡ item = cc (rw (e, claim) at h) in
        subst (λ z. IsTaken (claim s worker seconds now).1 z) same
          (taken s (claim s worker seconds now).1 worker seconds now row
            (first_by-In (claimable s now) (claim_key s) s.operations row e).0 (rw (e, claim)) v w
            (claim-IsValid s worker seconds now v) (claim-IsSerial worker seconds now s v w))

pub claim_terminal-IsTaken :
    (s : Store) (worker : String) (seconds now : ℕ) (item : QueuedOperation) (reason : Reason)
    → IsValid s
    → IsSerial s
    → (claim_terminal s worker seconds now).0 ≡ some (item, reason)
    → IsTaken (claim_terminal s worker seconds now).1 item
unfolding claim_terminal
claim_terminal-IsTaken s worker seconds now item reason v w h = go _ refl
  where
    go :
        (o : Option Row)
        → first_by (terminal_claimable s now) (λ row. row.created_at ∷ []) s.operations ≡ o
        → IsTaken (claim_terminal s worker seconds now).1 item
    go none e = absurd (cc (rw (e, claim_terminal) at h))
    go (some row) e =
        let pair : some (queued_operation row, terminal_reason s now row) ≡ some (item, reason) =
          rw (e, claim_terminal) at h in
        let same : queued_operation row ≡ item = ground arith in
        subst (λ z. IsTaken (claim_terminal s worker seconds now).1 z) same
          (taken s (claim_terminal s worker seconds now).1 worker seconds now row
            (first_by-In (terminal_claimable s now) (λ r. r.created_at ∷ []) s.operations row e).0
            (rw (e, claim_terminal)) v w (claim_terminal-IsValid s worker seconds now v)
            (claim_terminal-IsSerial worker seconds now s v w))

-- The account handlers leave the table and the lanes as they are.
pub keep-IsTaken :
    (s t : Store) (item : QueuedOperation)
    → t.operations ≡ s.operations
    → t.lanes ≡ s.lanes
    → IsTaken s item
    → IsTaken t item
keep-IsTaken s t item e l k = record {
  valid = record { rows = rw e k.valid.rows; unique = rw e k.valid.unique };
  serial = record {
    apart = rw e k.serial.apart;
    next = rw (e, l) k.serial.next;
    recorded = rw e k.serial.recorded;
  };
  holds = rw e k.holds;
  present = rw e k.present;
}

pub record_provider_attempt-IsTaken :
    (s : Store) (item : QueuedOperation) (queue_id local_id : String) (event : ℕ) (content : String)
    (now : ℕ)
    → IsTaken s item
    → IsTaken (record_provider_attempt s item queue_id local_id event content now) item
unfolding record_provider_attempt attempt_row
record_provider_attempt-IsTaken s item queue_id local_id event content now k = record {
  valid = record_provider_attempt-IsValid s item queue_id local_id event content now k.valid;
  serial = record_provider_attempt-IsSerial s item queue_id local_id event content now k.serial;
  holds =
      All-update_where (Holds item) (Holds item)
        (λ row. row_is item.record_uuid row && is_running row.state)
        (attempt_row queue_id local_id content now) (λ row h _. h) (λ row h _. h) s.operations
        k.holds;
  present =
      let (row, i, named) = k.present in
      (
        if row_is item.record_uuid row && is_running row.state
            then attempt_row queue_id local_id content now row
            else row,
        In-update_where (λ r. row_is item.record_uuid r && is_running r.state)
            (attempt_row queue_id local_id content now) row s.operations i,
        ground arith,
      );
}
