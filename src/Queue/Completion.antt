-- ===== src/Queue/Completion.antt =====
-- What `complete` of Queue/Complete.antt does on each of its branches.
use workspace_zulip_bridge.Common.{
  ℕ, ==_refl, ap, ◌==◌, ◌≡◌, refl, String, true, false, Option, none, some, arith, Bool-cases,
  if◌then◌else◌, ◌⊎◌, inl, inr, update_where,
}
use workspace_zulip_bridge.Queue.Types.{
  Row, Record, ResultRecord, Outcome, is_terminal, Store, QueuedOperation, Mappings, Idempotency,
  Result, ok,
}
use workspace_zulip_bridge.Queue.Complete.{
  complete, complete_current, complete_found, complete_row, completable, find_row, advance_lane,
  is_terminal_outcome, close_idempotency,
}

abbrev idempotency_of : ℕ → Result Store → Option Idempotency
idempotency_of uuid (ok t) = t.idempotency uuid
idempotency_of uuid _ = none

module _ (persist : Record → Option String → Option String → Mappings → Result Mappings)
    (s t : Store) (item : QueuedOperation) (result : ResultRecord) (outcome : Outcome)
    (now : ℕ) where
  -- The row was closed before, and nothing is done.
  abbrev pub WasClosed : Type 0
  WasClosed =
      (row : Row) × (find_row item.record_uuid s.operations ≡ some row)
      × (is_terminal row.state ≡ true)
      × (t ≡ s)

  -- The row was open, and the statements ran.
  abbrev pub IsClosedNow : Type 0
  IsClosedNow =
      (row : Row) × (find_row item.record_uuid s.operations ≡ some row)
      × (is_terminal row.state ≡ false)
      × (complete_current persist s item result outcome now ≡ ok t)

  found_cases :
      (o : Option Row)
      → find_row item.record_uuid s.operations ≡ o
      → complete_found persist s item result outcome now o ≡ ok t
      → WasClosed ⊎ IsClosedNow
  unfolding complete_found
  found_cases none e h = cc
  found_cases (some row) e h = elim (Bool-cases (is_terminal row.state)) [
    | inl closed ↦ inl (row, e, closed, ground arith)
    | inr running ↦ inr (row, e, running, ground arith)
  ]

  pub complete_cases :
      complete persist s item result outcome now ≡ ok t
      → (is_terminal_outcome outcome ≡ true) × (WasClosed ⊎ IsClosedNow)
  unfolding complete
  complete_cases h = elim (Bool-cases (is_terminal_outcome outcome)) [
    | inl valid ↦ (
      valid,
      found_cases (find_row item.record_uuid s.operations) refl (rw (valid, complete) at h),
    )
    | inr invalid ↦ absurd (cc (rw (invalid, complete) at h))
  ]

  pub current_operations :
      complete_current persist s item result outcome now ≡ ok t
      → t.operations
        ≡ update_where (completable item) (complete_row outcome result now) s.operations
  unfolding complete_current
  current_operations h = ground arith

  -- A first attempt moves the lane on; a later attempt leaves it.
  pub current_lanes :
      complete_current persist s item result outcome now ≡ ok t
      → (if item.body.attempt == 1 then advance_lane item.body s.lanes else ok s.lanes) ≡ ok t.lanes
  unfolding complete_current
  current_lanes h = ground arith

  -- The idempotency row of the operation takes the outcome.
  pub current_idempotency :
      complete_current persist s item result outcome now ≡ ok t
      → t.idempotency item.body.operation_uuid
        ≡ close_idempotency outcome result (s.idempotency item.body.operation_uuid)
  unfolding complete_current
  current_idempotency h = ground (
    arith,
    ==_refl item.body.operation_uuid,
    ap (λ (r : Result Store). idempotency_of item.body.operation_uuid r) h,
  )
