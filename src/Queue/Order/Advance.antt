-- ===== src/Queue/Order/Advance.antt =====
-- Completion moves a lane on by one, and leaves nothing of that lane in flight.
use workspace_zulip_bridge.Common.{
  ℕ, ◌==◌, ◌≡◌, refl, subst, ap, ◌∙◌, String, Bool, true, false, ◌&&◌, Option, some, List, [], ◌∷◌,
  arith, inl, inr, Bool-cases, All-update_In, update_where, In, str_eq, eq_iff,
}
use workspace_zulip_bridge.Queue.Types.{
  Row, Record, ResultRecord, Outcome, Mappings, Result, ok, QueuedOperation, row_is, Lane, Place,
  place, record_place, Store,
}
use workspace_zulip_bridge.Queue.Claim.{next_in_lane}
use workspace_zulip_bridge.Queue.Complete.{
  complete, complete_current, complete_row, completable, find_row, advance_lane,
}
use workspace_zulip_bridge.Queue.Completion.{complete_cases, current_operations, current_lanes}
use workspace_zulip_bridge.Queue.Order.{
  in_flight, Apart-eq, IsNext, IsRecorded, IsSerial, next_places,
}
use workspace_zulip_bridge.Queue.Order.Updates.{Apart-update_where}

-- The item's record stands where the row of its UUID does.
abbrev pub IsOwn : Store → QueuedOperation → Type 0
IsOwn s item =
    (row : Row)
    → In row s.operations
    → row_is item.record_uuid row ≡ true
    → record_place item.body ≡ place row

abbrev Lanes : Type 0
Lanes = String → String → Option Lane

-- A completion that is accepted was of the next operation of the lane.
advance_lane_next :
    (r : Record) (lanes after : Lanes)
    → advance_lane r lanes ≡ ok after
    → next_in_lane lanes (record_place r) ≡ true
unfolding advance_lane next_in_lane
advance_lane_next r lanes after h = ground arith

abbrev in_lane : Place → Record → Bool
in_lane p r = str_eq p.origin r.origin && str_eq p.causal_lane r.causal_lane

advance_lane_other :
    (r : Record) (lanes after : Lanes) (p : Place)
    → advance_lane r lanes ≡ ok after
    → in_lane p r ≡ false
    → next_in_lane after p ≡ next_in_lane lanes p
unfolding advance_lane next_in_lane
advance_lane_other r lanes after p h e = ground arith

-- Afterwards the lane stands at the completed operation.
pub advance_lane_lem :
    (r : Record) (lanes after : Lanes)
    → advance_lane r lanes ≡ ok after
    → after r.origin r.causal_lane
      ≡ some (record { last_sequence = r.sequence; last_operation_uuid = some r.operation_uuid })
unfolding advance_lane
advance_lane_lem r lanes after h =
    ground (arith, eq_iff r.origin r.origin, eq_iff r.causal_lane r.causal_lane)

pub find_row-In :
    (uuid : ℕ) (row : Row) (rows : List Row)
    → find_row uuid rows ≡ some row
    → In row rows × (row_is uuid row ≡ true)
unfolding find_row
find_row-In uuid row [] h = cc
find_row-In uuid row (x ∷ xs) h = ground (arith, find_row-In uuid row xs)

complete_row_idle :
    (outcome : Outcome) (result : ResultRecord) (now : ℕ) (row : Row)
    → in_flight (complete_row outcome result now row) ≡ false
unfolding complete_row
complete_row_idle outcome result now row = ground arith

complete_row-place :
    (outcome : Outcome) (result : ResultRecord) (now : ℕ) (row : Row)
    → place (complete_row outcome result now row) ≡ place row
unfolding complete_row
complete_row-place outcome result now row = refl

complete_row-IsRecorded :
    (outcome : Outcome) (result : ResultRecord) (now : ℕ) (row : Row)
    → IsRecorded row
    → IsRecorded (complete_row outcome result now row)
unfolding complete_row
complete_row-IsRecorded outcome result now row h = h

module _ (persist : Record → Option String → Option String → Mappings → Result Mappings)
    (s t : Store) (item : QueuedOperation) (result : ResultRecord) (outcome : Outcome) (now : ℕ)
    (v : IsSerial s) (own : IsOwn s item) (row : Row) (i : In row s.operations)
    (named : row_is item.record_uuid row ≡ true) where
  same_row :
      (q : Row)
      → In q s.operations
      → next_in_lane s.lanes (place q) ≡ true
      → next_in_lane s.lanes (record_place item.body) ≡ true
      → q.attempt ≡ item.body.attempt
      → in_lane (place q) item.body ≡ true
      → q ≡ row
  same_row q j next advanced attempts lane = Apart-eq q row s.operations v.apart j i (
      next_places s.lanes q row next (subst (λ z. next_in_lane s.lanes z ≡ true) here advanced)
        (attempts ∙ ap (λ z. z.attempt) here)
        (subst (λ z. (str_eq q.origin z.origin && str_eq q.causal_lane z.causal_lane) ≡ true) here
          lane))
    where
      here : record_place item.body ≡ place row
      here = own row i named

  -- Another row in flight is next in its lane after the completion too.
  still-IsNext :
      complete_current persist s item result outcome now ≡ ok t
      → (q : Row) → In q s.operations
      → IsNext s.lanes q
      → completable item q ≡ false
      → IsNext t.lanes q
  still-IsNext h q j next other flying = elim (Bool-cases (item.body.attempt == 1)) [
    | inl first ↦
        let advanced : advance_lane item.body s.lanes ≡ ok t.lanes =
          rw first at (current_lanes persist s t item result outcome now h) in
        elim (Bool-cases (in_lane (place q) item.body)) [
          | inl shared ↦
              let e : q ≡ row =
                same_row q j (next flying) (advance_lane_next item.body s.lanes t.lanes advanced)
                  (ground arith) shared in
              absurd (ground (arith, ap (λ (r : Row). r.record_uuid) e))
          | inr apart ↦
              rw (advance_lane_other item.body s.lanes t.lanes (place q) advanced apart)
                (next flying)
        ]
    | inr later ↦
        let kept : ok s.lanes ≡ ok t.lanes =
          rw later at (current_lanes persist s t item result outcome now h) in
        let same_lanes : t.lanes ≡ s.lanes = ground arith in rw same_lanes (next flying)
  ]

  pub current-IsSerial : complete_current persist s item result outcome now ≡ ok t → IsSerial t
  current-IsSerial h = record {
    apart = rw e (
        Apart-update_where (completable item) f (complete_row-place outcome result now) s.operations
          v.apart);
    next = rw e (
        All-update_In (IsNext s.lanes) (IsNext t.lanes) (completable item) f s.operations
          (λ r _ _ _ flying. absurd (cc (complete_row_idle outcome result now r))) (still-IsNext h)
          v.next);
    recorded = rw e (
        All-update_In IsRecorded IsRecorded (completable item) f s.operations
          (λ r _ g _. complete_row-IsRecorded outcome result now r g) (λ r _ g _. g) v.recorded);
  }
    where
      f : Row → Row
      f = complete_row outcome result now

      e : t.operations ≡ update_where (completable item) f s.operations
      e = current_operations persist s t item result outcome now h

pub complete-IsSerial :
    (persist : Record → Option String → Option String → Mappings → Result Mappings) (s t : Store)
    (item : QueuedOperation) (result : ResultRecord) (outcome : Outcome) (now : ℕ)
    → IsOwn s item
    → complete persist s item result outcome now ≡ ok t
    → IsSerial s
    → IsSerial t
complete-IsSerial persist s t item result outcome now own h v =
    elim (complete_cases persist s t item result outcome now h).1 [
      | inl (row, found, closed, same) ↦ rw same v
      | inr (row, found, running, current) ↦
          let (i, named) = find_row-In item.record_uuid row s.operations found in
          current-IsSerial persist s t item result outcome now v own row i named current
    ]
