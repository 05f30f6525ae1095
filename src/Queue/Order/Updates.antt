-- ===== src/Queue/Order/Updates.antt =====
-- Updates that keep a row's place, and take up no work, keep the order of the lanes.
use workspace_zulip_bridge.Common.{
  ◌≡◌, Bool, true, false, List, [], ◌∷◌, sym, subst, ◌∙◌, All, All-update_where, All-update_In,
  update_where, if◌then◌else◌, In,
}
use workspace_zulip_bridge.Queue.Types.{Row, place, record_place, Store}
use workspace_zulip_bridge.Queue.Claim.{next_in_lane}
use workspace_zulip_bridge.Queue.Enqueue.{same_place}
use workspace_zulip_bridge.Queue.Order.{in_flight, Apart, IsNext, IsRecorded, IsSerial}

abbrev pub KeepsPlace : (Row → Row) → Type 0
KeepsPlace f = (row : Row) → place (f row) ≡ place row

abbrev pub KeepsRecord : (Row → Row) → Type 0
KeepsRecord f = (row : Row) → record_place (f row).body ≡ record_place row.body

module _ (p : Row → Bool) (f : Row → Row) (keeps : KeepsPlace f) where
  apart_from :
      (row : Row) (xs : List Row)
      → All (λ y. same_place (place row) (place y) ≡ false) xs
      → All (λ y. same_place (place row) (place y) ≡ false) (update_where p f xs)
  unfolding update_where
  apart_from row [] h = tt
  apart_from row (x ∷ xs) h = (choose (p x), apart_from row xs h.1)
    where
      choose : (b : Bool) → same_place (place row) (place (if b then f x else x)) ≡ false
      choose true = subst (λ z. same_place (place row) z ≡ false) (sym (keeps x)) h.0
      choose false = h.0

  pub Apart-update_where : (xs : List Row) → Apart xs → Apart (update_where p f xs)
  unfolding update_where
  Apart-update_where [] h = tt
  Apart-update_where (x ∷ xs) h = (choose (p x), Apart-update_where xs h.1)
    where
      choose :
          (b : Bool)
          → All
              (λ y. same_place (place (if b then f x else x)) (place y) ≡ false)
              (update_where p f xs)
      choose true =
          subst (λ z. All (λ y. same_place z (place y) ≡ false) (update_where p f xs))
            (sym (keeps x)) (apart_from x xs h.0)
      choose false = apart_from x xs h.0

  -- The lanes stay as they are, and what the update takes up is the next of its lane.
  pub update-IsSerial :
      (s t : Store)
      → t.operations ≡ update_where p f s.operations
      → t.lanes ≡ s.lanes
      → KeepsRecord f
      → ((row : Row)
          → In row s.operations
          → IsNext s.lanes row
          → p row ≡ true
          → IsNext s.lanes (f row))
      → IsSerial s
      → IsSerial t
  update-IsSerial s t e lanes recorded next v = record {
    apart = rw e (Apart-update_where s.operations v.apart);
    next =
        rw (e, lanes)
          (All-update_In (IsNext s.lanes) (IsNext s.lanes) p f s.operations next (λ row _ h _. h)
            v.next);
    recorded = rw e (
        All-update_where IsRecorded IsRecorded p f (λ row h _. recorded row ∙ h ∙ sym (keeps row))
          (λ row h _. h) s.operations v.recorded);
  }

  -- The usual case: what is in flight afterwards was so before.
  pub idle_update-IsSerial :
      (s t : Store)
      → t.operations ≡ update_where p f s.operations
      → t.lanes ≡ s.lanes
      → KeepsRecord f
      → ((row : Row)
          → In row s.operations
          → p row ≡ true
          → in_flight (f row) ≡ true
          → in_flight row ≡ true)
      → IsSerial s
      → IsSerial t
  idle_update-IsSerial s t e lanes recorded idle v =
      update-IsSerial s t e lanes recorded
        (λ row i h q flying.
          subst (λ z. next_in_lane s.lanes z ≡ true) (sym (keeps row)) (h (idle row i q flying)))
        v
