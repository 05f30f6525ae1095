-- ===== src/Queue/Order/Claims.antt =====
-- Claims take up the next operation of a lane only, and what is inserted waits.
use workspace_zulip_bridge.Common.{
  ℕ, ◌==◌, leb, ◌≡◌, refl, String, Bool, true, false, Option, none, some, List, [], ◌∷◌, ◌++◌,
  arith, inl, inr, Bool-cases, All, All-append, All-In, update_where, In, eq_iff,
}
use workspace_zulip_bridge.Common.Select.{first_by, first_by-In}
use workspace_zulip_bridge.Common.Unique.{UniqueBy, All-update_unique}
use workspace_zulip_bridge.Queue.Types.{
  Row, Record, Assignment, ok, row_is, Lane, Place, place, Store,
}
use workspace_zulip_bridge.Queue.Claim.{
  next_in_lane, claim, claimable, claim_key, claim_terminal, terminal_claimable, run_row,
}
use workspace_zulip_bridge.Queue.Enqueue.{
  enqueue, enqueue_placed, allocate_producer_lane, remember_operation, insert_row, new_row, clashes,
  same_place,
}
use workspace_zulip_bridge.Queue.Admission.{insert_row_cases, enqueue_placed_cases}
use workspace_zulip_bridge.Queue.Validity.{IsValid, uuid_of}
use workspace_zulip_bridge.Queue.Validity.Closing.{operations-allocate, operations-remember}
use workspace_zulip_bridge.Queue.Order.{in_flight, Apart, IsNext, IsRecorded, IsSerial}
use workspace_zulip_bridge.Queue.Order.Updates.{Apart-update_where}

claimable_next :
    (s : Store) (now : ℕ) (row : Row)
    → claimable s now row ≡ true
    → (row.attempt == 1) ≡ true
    → next_in_lane s.lanes (place row) ≡ true
unfolding claimable
claimable_next s now row h first = ground arith

terminal_claimable_next :
    (s : Store) (now : ℕ) (row : Row)
    → terminal_claimable s now row ≡ true
    → (row.attempt == 1) ≡ true
    → next_in_lane s.lanes (place row) ≡ true
unfolding terminal_claimable
terminal_claimable_next s now row h first = ground arith

module _ (worker : String) (seconds now : ℕ) where
  run_row-place : (row : Row) → place (run_row worker seconds now row) ≡ place row
  unfolding run_row
  run_row-place row = refl

  run_row-IsRecorded : (row : Row) → IsRecorded row → IsRecorded (run_row worker seconds now row)
  unfolding run_row
  run_row-IsRecorded row h = h

  run_row-IsNext :
      (lanes : String → String → Option Lane) (row : Row)
      → ((row.attempt == 1) ≡ true → next_in_lane lanes (place row) ≡ true)
      → IsNext lanes (run_row worker seconds now row)
  unfolding run_row
  run_row-IsNext lanes row h flying = h (ground arith)

  taken-IsSerial :
      (s t : Store) (row : Row)
      → In row s.operations
      → t.operations
        ≡ update_where (row_is row.record_uuid) (run_row worker seconds now) s.operations
      → t.lanes ≡ s.lanes
      → ((row.attempt == 1) ≡ true → next_in_lane s.lanes (place row) ≡ true)
      → UniqueBy uuid_of s.operations
      → IsSerial s
      → IsSerial t
  taken-IsSerial s t row i e lanes next unique v = record {
    apart = rw e (
        Apart-update_where (row_is row.record_uuid) (run_row worker seconds now) run_row-place
          s.operations v.apart);
    next =
        rw (e, lanes)
          (All-update_unique uuid_of (IsNext s.lanes) (run_row worker seconds now) row
            (run_row-IsNext s.lanes row next) s.operations unique i v.next);
    recorded = rw e (
        All-update_unique uuid_of IsRecorded (run_row worker seconds now) row
          (run_row-IsRecorded row (All-In IsRecorded row s.operations v.recorded i)) s.operations
          unique i v.recorded);
  }

  pub claim-IsSerial :
      (s : Store) → IsValid s → IsSerial s → IsSerial (claim s worker seconds now).1
  unfolding claim
  claim-IsSerial s valid v = go _ refl
    where
      go :
          (o : Option Row)
          → first_by (claimable s now) (claim_key s) s.operations ≡ o
          → IsSerial (claim s worker seconds now).1
      go none e = rw (e, claim) v
      go (some row) e =
          let found = first_by-In (claimable s now) (claim_key s) s.operations row e in
          taken-IsSerial s (claim s worker seconds now).1 row found.0 (rw (e, claim))
            (rw (e, claim)) (claimable_next s now row found.1) valid.unique v

  pub claim_terminal-IsSerial :
      (s : Store) → IsValid s → IsSerial s → IsSerial (claim_terminal s worker seconds now).1
  unfolding claim_terminal
  claim_terminal-IsSerial s valid v = go _ refl
    where
      go :
          (o : Option Row)
          → first_by (terminal_claimable s now) (λ row. row.created_at ∷ []) s.operations ≡ o
          → IsSerial (claim_terminal s worker seconds now).1
      go none e = rw (e, claim_terminal) v
      go (some row) e =
          let found =
            first_by-In (terminal_claimable s now) (λ r. r.created_at ∷ []) s.operations row e in
          taken-IsSerial s (claim_terminal s worker seconds now).1 row found.0
            (rw (e, claim_terminal)) (rw (e, claim_terminal))
            (terminal_claimable_next s now row found.1) valid.unique v

clashes-Apart :
    (row : Row) (xs : List Row)
    → clashes row xs ≡ false
    → All (λ y. same_place (place row) (place y) ≡ false) xs
unfolding clashes
clashes-Apart row [] h = tt
clashes-Apart row (x ∷ xs) h = (ground arith, clashes-Apart row xs (ground arith))

same_place-false : (a b : Place) → same_place a b ≡ false → same_place b a ≡ false
same_place-false a b h = ground (
  arith,
  eq_iff a.origin b.origin,
  eq_iff b.origin a.origin,
  eq_iff a.causal_lane b.causal_lane,
  eq_iff b.causal_lane a.causal_lane,
)

Apart-append :
    (row : Row) (xs : List Row)
    → Apart xs
    → All (λ y. same_place (place row) (place y) ≡ false) xs
    → Apart (xs ++ row ∷ [])
Apart-append row [] h d = (tt, tt)
Apart-append row (x ∷ xs) h d = (
  All-append (λ y. same_place (place x) (place y) ≡ false) xs (row ∷ []) h.0
      (same_place-false (place row) (place x) d.0, tt),
  Apart-append row xs h.1 d.1,
)

new_row-IsRecorded :
    (r : Record) (priority : ℕ) (a : Assignment) (now : ℕ) → IsRecorded (new_row r priority a now)
unfolding new_row
new_row-IsRecorded r priority a now = refl

new_row_idle :
    (r : Record) (priority : ℕ) (a : Assignment) (now : ℕ)
    → in_flight (new_row r priority a now) ≡ false
unfolding new_row
new_row_idle r priority a now = ground arith

insert_row-IsSerial :
    (row : Row) (s t : Store) (added : Bool)
    → insert_row row s ≡ ok (added, t)
    → IsRecorded row
    → in_flight row ≡ false
    → IsSerial s
    → IsSerial t
insert_row-IsSerial row s t added h recorded idle v = elim (insert_row_cases row s t added h).1 [
  | inl (old, _, same) ↦ rw same v
  | inr (new, clear, _, appended) ↦ record {
    apart =
        rw appended (Apart-append row s.operations v.apart (clashes-Apart row s.operations clear));
    next = rw appended (
        All-append (IsNext s.lanes) s.operations (row ∷ []) v.next
          (λ flying. absurd (cc idle), tt));
    recorded =
        rw appended (All-append IsRecorded s.operations (row ∷ []) v.recorded (recorded, tt));
  }
]

keep-IsSerial :
    (s t : Store) → t.operations ≡ s.operations → t.lanes ≡ s.lanes → IsSerial s → IsSerial t
keep-IsSerial s t e l v = record {
  apart = rw e v.apart;
  next = rw (e, l) v.next;
  recorded = rw e v.recorded;
}

lanes-allocate :
    (digest : Record → String) (r : Record) (s : Store)
    → (allocate_producer_lane digest r s).1.lanes ≡ s.lanes
unfolding allocate_producer_lane
lanes-allocate digest r s = ground arith

lanes-remember : (r : Record) (s : Store) → (remember_operation r s).lanes ≡ s.lanes
unfolding remember_operation
lanes-remember r s = refl

pub enqueue-IsSerial :
    (digest : Record → String) (s t : Store) (r : Record) (priority now : ℕ) (added : Bool)
    → (enqueue digest s r priority now).1 ≡ ok (added, t)
    → IsSerial s
    → IsSerial t
unfolding enqueue
enqueue-IsSerial digest s t r priority now added h v = elim (Bool-cases (leb priority 2)) [
  | inl valid ↦
      let (placed, allocated) = allocate_producer_lane digest r s in
      placed-IsSerial allocated placed (rw (valid, enqueue) at h)
        (keep-IsSerial s allocated (operations-allocate digest r s) (lanes-allocate digest r s) v)
  | inr invalid ↦ absurd (cc (rw (invalid, enqueue) at h))
]
  where
    placed-IsSerial :
        (m : Store) (p : Record)
        → enqueue_placed p priority now m ≡ ok (added, t)
        → IsSerial m
        → IsSerial t
    placed-IsSerial m p e w = elim (enqueue_placed_cases p priority now m t added e) [
      | inl (_, _, same) ↦ rw same w
      | inr (_, (a, _, inserted)) ↦
          insert_row-IsSerial (new_row p priority a now) (remember_operation p m) t added inserted
            (new_row-IsRecorded p priority a now) (new_row_idle p priority a now)
            (keep-IsSerial m (remember_operation p m) (operations-remember p m) (lanes-remember p m)
              w)
    ]
