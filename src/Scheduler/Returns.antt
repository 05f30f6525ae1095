-- ===== src/Scheduler/Returns.antt =====
-- A run of the scheduler returns, keeps the queue in order, and leaves nothing that it took running.
use workspace_zulip_bridge.Common.{
  Bool-cases, ℕ, ◌==◌, ◌≡◌, refl, sym, subst, ap, String, Bool, true, false, ◌&&◌, Option, some,
  List, [], ◌∷◌, arith, ◌⊎◌, inl, inr, All, All-In, All-update_where, In, if◌then◌else◌,
}
use workspace_zulip_bridge.Queue.Types.{
  Row, Record, ResultRecord, Outcome, Lane, Mappings, Store, QueuedOperation, row_is, is_running,
  is_terminal, place, record_place, Result, ok, value_error, database_error, raised, ◌>>=◌,
}
use workspace_zulip_bridge.Queue.Claim.{next_in_lane}
use workspace_zulip_bridge.Queue.Complete.{
  complete, complete_current, complete_found, find_row, advance_lane, completable, complete_row,
  is_terminal_outcome, is_committed_outcome,
}
use workspace_zulip_bridge.Queue.Completion.{
  complete_cases, current_operations, WasClosed, IsClosedNow,
}
use workspace_zulip_bridge.Queue.Validity.{IsValid}
use workspace_zulip_bridge.Queue.Validity.Closing.{complete-IsValid}
use workspace_zulip_bridge.Queue.Order.{IsSerial, IsNext}
use workspace_zulip_bridge.Queue.Order.Advance.{complete-IsSerial, find_row-In}
use workspace_zulip_bridge.Scheduler.Taken.{IsTaken, Holds, IsTaken-IsOwn}

abbrev pub IsOk {ℓ} : {A : Type ℓ} → Result A → Type 0
IsOk (ok a) = Unit
IsOk _ = ⊥

pub IsOk-eq {ℓ} : {A : Type ℓ} (r : Result A) → IsOk r → (a : A) × (r ≡ ok a)
IsOk-eq (ok a) h = (a, refl)
IsOk-eq (value_error m) h = absurd h
IsOk-eq database_error h = absurd h
IsOk-eq (raised m) h = absurd h

-- Both raise, and the same.
abbrev pub SameError : {A B : Type 0} → Result A → Result B → Type 0
SameError r (ok b) = ⊥
SameError r (value_error m) = r ≡ value_error m
SameError r database_error = r ≡ database_error
SameError r (raised m) = r ≡ raised m

-- A call that is followed by what returns returns, or raises what it raises.
bind_ends :
    {A B : Type 0} (r : Result A) (f : A → Result B)
    → ((a : A) → IsOk (f a))
    → IsOk (r >>= f) ⊎ SameError r (r >>= f)
bind_ends (ok a) f k = inl (k a)
bind_ends (value_error m) f k = inr refl
bind_ends database_error f k = inr refl
bind_ends (raised m) f k = inr refl

IsOk-if {ℓ} :
    {A : Type ℓ} (b : Bool) (x y : Result A)
    → (b ≡ true → IsOk x)
    → (b ≡ false → IsOk y)
    → IsOk (if b then x else y)
IsOk-if true x y h k = h refl
IsOk-if false x y h k = k refl

advance_lane-IsOk :
    (r : Record) (lanes : String → String → Option Lane)
    → next_in_lane lanes (record_place r) ≡ true
    → IsOk (advance_lane r lanes)
unfolding advance_lane next_in_lane
advance_lane-IsOk r lanes h = ground arith

find_row-present :
    (uuid : ℕ) (row : Row) (rows : List Row)
    → In row rows
    → row_is uuid row ≡ true
    → (r : Row) × (find_row uuid rows ≡ some r)
unfolding find_row
find_row-present uuid row [] i h = elim i [ ]
find_row-present uuid row (x ∷ xs) (inl e) h = (x, rw (← e) (rw h))
find_row-present uuid row (x ∷ xs) (inr i) h =
    let (r, e) = find_row-present uuid row xs i h in (if row_is uuid x then x else r, ground arith)

-- Nothing that has the item's UUID is running.
abbrev pub IsReleased : QueuedOperation → Store → Type 0
IsReleased item s =
    All (λ row. (row_is item.record_uuid row && is_running row.state) ≡ false) s.operations

-- The run returned True, in order, and let go of the item.
pub record IsFinished (item : QueuedOperation) (r : Result Bool × Store) : Type 0 where
  pub returned : r.0 ≡ ok true
  pub valid : IsValid r.1
  pub serial : IsSerial r.1
  pub released : IsReleased item r.1

-- The run raised what the mapping of the commit raised, and left the operation taken.
pub record IsAborted (persist : Record → Option String → Option String → Mappings → Result Mappings)
    (item : QueuedOperation) (r : Result Bool × Store) : Type 0 where
  pub raises :
      (entity : Option String) × (revision : Option String) × SameError
        (persist item.body entity revision (r.1.mappings, r.1.aliases))
        r.0
  pub taken : IsTaken r.1 item

abbrev pub IsEnded :
    (Record → Option String → Option String → Mappings → Result Mappings)
    → QueuedOperation
    → Result Bool × Store
    → Type 0
IsEnded persist item r = IsFinished item r ⊎ IsAborted persist item r

complete_row_released :
    (item : QueuedOperation) (outcome : Outcome) (result : ResultRecord) (now : ℕ) (row : Row)
    → is_running (complete_row outcome result now row).state ≡ false
unfolding complete_row
complete_row_released item outcome result now row = ground arith

module _ (persist : Record → Option String → Option String → Mappings → Result Mappings) (s : Store)
    (item : QueuedOperation) (k : IsTaken s item) (result : ResultRecord) (outcome : Outcome)
    (now : ℕ) (valid : is_terminal_outcome outcome ≡ true) where
  -- The completion ends as it should: it returns, or raises what the mapping of a commit raises.
  abbrev pub Ends : Result Store → Type 0
  Ends r =
      IsOk r
      ⊎ SameError
          (persist item.body result.body.provider_entity_id result.body.provider_revision
            (s.mappings, s.aliases))
          r

  current-Ends :
      (row : Row)
      → In row s.operations
      → row_is item.record_uuid row ≡ true
      → Ends (complete_current persist s item result outcome now)
  unfolding complete_current
  current-Ends row i named =
      let (lanes, e) =
        IsOk-eq (if item.body.attempt == 1 then advance_lane item.body s.lanes else ok s.lanes) (
          IsOk-if (item.body.attempt == 1) (advance_lane item.body s.lanes) (ok s.lanes)
            (λ first. advance_lane-IsOk item.body s.lanes (next first)) (λ _. tt)) in
      elim (Bool-cases (is_committed_outcome outcome)) [
        | inl committed ↦
            rw (e, committed)
              (bind_ends
                (persist item.body result.body.provider_entity_id result.body.provider_revision
                  (s.mappings, s.aliases))
                _ (λ mappings. tt))
        | inr other ↦ rw (e, other) (inl tt)
      ]
    where
      held : (is_running row.state ≡ true) × (record_place item.body ≡ place row)
      held = All-In (Holds item) row s.operations k.holds i named

      next : (item.body.attempt == 1) ≡ true → next_in_lane s.lanes (record_place item.body) ≡ true
      next first =
          subst (λ z. next_in_lane s.lanes z ≡ true) (sym held.1)
            (All-In (IsNext s.lanes) row s.operations k.serial.next i
              (ground (arith, held.0, ap (λ z. z.attempt) held.1)))

  pub complete-Ends : Ends (complete persist s item result outcome now)
  unfolding complete
  complete-Ends =
      let (row, i, named) = k.present in
      let (r, found) = find_row-present item.record_uuid row s.operations i named in
      let (j, r_named) = find_row-In item.record_uuid r s.operations found in
      let running = (All-In (Holds item) r s.operations k.holds j r_named).0 in
      let open_row : is_terminal r.state ≡ false = ground arith in
      rw (valid, found, complete_found, open_row) (current-Ends r j r_named)

  -- A completion of a taken operation that returns closes it.
  pub complete_taken :
      (t : Store)
      → complete persist s item result outcome now ≡ ok t
      → IsValid t × IsSerial t × IsReleased item t
  complete_taken t e = (
    complete-IsValid persist s t item result outcome now e k.valid,
    complete-IsSerial persist s t item result outcome now (IsTaken-IsOwn s item k) e k.serial,
    released t (complete_cases persist s t item result outcome now e).1,
  )
    where
      released :
          (t : Store)
          → WasClosed persist s t item result outcome now
            ⊎ IsClosedNow persist s t item result outcome now
          → IsReleased item t
      released t (inl (r, found, closed, _)) =
          let (j, named) = find_row-In item.record_uuid r s.operations found in
          absurd (ground (arith, (All-In (Holds item) r s.operations k.holds j named).0))
      released t (inr (r, found, _, current)) =
          rw (current_operations persist s t item result outcome now current) (
            All-update_where (Holds item)
              (λ row. (row_is item.record_uuid row && is_running row.state) ≡ false)
              (completable item) (complete_row outcome result now)
              (λ row _ _. ground (arith, complete_row_released item outcome result now row))
              (λ row h other. apart row (Bool-cases (row_is item.record_uuid row)) h other)
              s.operations k.holds)
        where
          apart :
              (row : Row)
              → ((row_is item.record_uuid row ≡ true) ⊎ (row_is item.record_uuid row ≡ false))
              → Holds item row
              → completable item row ≡ false
              → (row_is item.record_uuid row && is_running row.state) ≡ false
          apart row (inl named) h other = absurd (ground (arith, (h named).0))
          apart row (inr unnamed) h other = ground arith
