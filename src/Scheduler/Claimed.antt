-- ===== src/Scheduler/Claimed.antt =====
-- The item that claim_uncertain handed to reconcile_once.
use workspace_zulip_bridge.Common.{
  ℕ, ◌≡◌, refl, sym, ap, subst, ◌∙◌, String, Bool, true, false, Option, none, some, arith, In,
  All-In, In-update_where_inv, update_where, if◌then◌else◌,
}
use workspace_zulip_bridge.Common.Select.{first_by, first_by-In}
use workspace_zulip_bridge.Common.Unique.{UniqueBy-eq}
use workspace_zulip_bridge.Queue.Types.{
  Row, Store, QueuedOperation, queued_operation, row_is, place, record_place,
}
use workspace_zulip_bridge.Queue.Claim.{
  claim_uncertain, reconcilable, reconciliation_key, lease_row,
}
use workspace_zulip_bridge.Queue.Validity.{IsValid, uuid_of}
use workspace_zulip_bridge.Queue.Validity.Claims.{claim_uncertain-IsValid}
use workspace_zulip_bridge.Queue.Order.{IsSerial, IsRecorded}
use workspace_zulip_bridge.Queue.Order.Advance.{IsOwn}
use workspace_zulip_bridge.Queue.Order.Keeps.{claim_uncertain-IsSerial}

abbrev pub IsSound : Store → Type 0
IsSound s = IsValid s × IsSerial s

-- The queue is sound and the item stands where its row does.
abbrev pub IsClaimed : QueuedOperation → Store → Type 0
IsClaimed item s = IsSound s × IsOwn s item

pub same-IsClaimed :
    (item : QueuedOperation) (s t : Store)
    → t.operations ≡ s.operations
    → t.lanes ≡ s.lanes
    → IsClaimed item s
    → IsClaimed item t
same-IsClaimed item s t e l ((v, w), own) = (
  (
    record { rows = rw e v.rows; unique = rw e v.unique },
    record { apart = rw e w.apart; next = rw (e, l) w.next; recorded = rw e w.recorded },
  ),
  λ row i named. own row (subst (In row) e i) named,
)

lease_kept :
    (worker : String) (now : ℕ) (b : Bool) (a : Row)
    → ((if b then lease_row worker now a else a).record_uuid ≡ a.record_uuid)
      × (place (if b then lease_row worker now a else a) ≡ place a)
unfolding lease_row
lease_kept worker now true a = (refl, refl)
lease_kept worker now false a = (refl, refl)

leased-IsOwn :
    (s t : Store) (worker : String) (now : ℕ) (row : Row)
    → IsSound s
    → In row s.operations
    → t.operations ≡ update_where (row_is row.record_uuid) (lease_row worker now) s.operations
    → IsOwn t (queued_operation row)
unfolding queued_operation
leased-IsOwn s t worker now row (v, w) i e leased j named =
    let (a, k, is) =
      In-update_where_inv (row_is row.record_uuid) (lease_row worker now) leased s.operations
        (subst (In leased) e j) in
    let kept = lease_kept worker now (row_is row.record_uuid a) a in
    let uuid_same : leased.record_uuid ≡ a.record_uuid = ap (λ r. r.record_uuid) is ∙ kept.0 in
    let same : row ≡ a = UniqueBy-eq uuid_of row a s.operations v.unique i k (ground arith) in
    ap (λ (r : Row). record_place r.body) same
    ∙ All-In IsRecorded a s.operations w.recorded k
    ∙ sym (ap place is ∙ kept.1)

pub claim_uncertain-IsClaimed :
    (s : Store) (worker : String) (now : ℕ) (item : QueuedOperation)
    → IsSound s
    → (claim_uncertain s worker now).0 ≡ some item
    → IsClaimed item (claim_uncertain s worker now).1
unfolding claim_uncertain
claim_uncertain-IsClaimed s worker now item sound h = (
  (claim_uncertain-IsValid s worker now sound.0, claim_uncertain-IsSerial s worker now sound.1),
  go _ refl,
)
  where
    go :
        (o : Option Row)
        → first_by (reconcilable s now) reconciliation_key s.operations ≡ o
        → IsOwn (claim_uncertain s worker now).1 item
    go none e = absurd (cc (rw (e, claim_uncertain) at h))
    go (some row) e =
        let same : queued_operation row ≡ item = cc (rw (e, claim_uncertain) at h) in
        subst (λ z. IsOwn (claim_uncertain s worker now).1 z) same
          (leased-IsOwn s (claim_uncertain s worker now).1 worker now row sound
            (first_by-In (reconcilable s now) reconciliation_key s.operations row e).0
            (rw (e, claim_uncertain)))
