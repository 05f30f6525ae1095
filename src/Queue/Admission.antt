-- ===== src/Queue/Admission.antt =====
-- What `enqueue` of Queue/Enqueue.antt admits, branch by branch.
use workspace_zulip_bridge.Common.{
  ℕ, ◌==◌, ◌≡◌, refl, Bool, true, false, not, ◌&&◌, Option, none, some, [], ◌∷◌, ◌++◌, arith,
  Bool-cases, ◌⊎◌, inl, inr, ltb,
}
use workspace_zulip_bridge.Queue.Types.{Row, Record, Assignment, Idempotency, Store, ok}
use workspace_zulip_bridge.Queue.Enqueue.{
  insert_row, new_row, has_record, clashes, row_allowed, enqueue_placed, enqueue_matched,
  remember_operation, active_assignment, prior_closed, prior_conflicts, retry_authorized,
}

module _ (row : Row) (s t : Store) (added : Bool) where
  abbrev pub IsPresent : Type 0
  IsPresent = (has_record row.record_uuid s.operations ≡ true) × (added ≡ false) × (t ≡ s)

  abbrev pub IsAdded : Type 0
  IsAdded =
      (has_record row.record_uuid s.operations ≡ false)
      × (clashes row s.operations ≡ false)
      × (added ≡ true)
      × (t ≡ record s { operations = s.operations ++ row ∷ [] })

  pub insert_row_cases :
      insert_row row s ≡ ok (added, t) → (row_allowed row ≡ true) × (IsPresent ⊎ IsAdded)
  unfolding insert_row
  insert_row_cases h = elim (Bool-cases (has_record row.record_uuid s.operations)) [
    | inl old ↦ (ground arith, inl (old, ground arith, ground arith))
    | inr new ↦ (ground arith, inr (new, ground arith, ground arith, ground arith))
  ]

module _ (r : Record) (priority now : ℕ) (s t : Store) (added : Bool) where
  -- The operation was closed before: nothing is stored.
  -- Otherwise a row is made for an active assignment, behind the idempotency row.
  abbrev pub IsInserted : Type 0
  IsInserted =
      (a : Assignment) × (active_assignment r s.assignments ≡ some a)
      × (insert_row (new_row r priority a now) (remember_operation r s) ≡ ok (added, t))

  matched_cases :
      (o : Option Assignment)
      → active_assignment r s.assignments ≡ o
      → enqueue_matched r priority now s o ≡ ok (added, t)
      → IsInserted
  unfolding enqueue_matched
  matched_cases none e h = cc
  matched_cases (some a) e h = (a, e, ground arith)

  abbrev prior : Option Idempotency
  prior = s.idempotency r.operation_uuid

  -- A first attempt of an operation that was closed before.
  abbrev pub is_replay : Bool
  is_replay = r.attempt == 1 && prior_closed prior

  abbrev pub IsAuthorized : Type 0
  IsAuthorized =
      (is_replay ≡ false)
      × (prior_conflicts prior r.operation_sha256 ≡ false)
      × ((ltb 1 r.attempt && not (retry_authorized prior)) ≡ false)

  pub enqueue_placed_cases :
      enqueue_placed r priority now s ≡ ok (added, t)
      → ((is_replay ≡ true) × (added ≡ false) × (t ≡ s)) ⊎ (IsAuthorized × IsInserted)
  unfolding enqueue_placed
  enqueue_placed_cases h = elim (Bool-cases is_replay) [
    | inl replay ↦ inl (replay, ground arith, ground arith)
    | inr fresh ↦ elim (Bool-cases (prior_conflicts prior r.operation_sha256)) [
      | inl conflict ↦ absurd (ground arith)
      | inr agrees ↦ elim (Bool-cases (ltb 1 r.attempt && not (retry_authorized prior))) [
        | inl refused ↦ absurd (ground arith)
        | inr allowed ↦ inr (
          (fresh, agrees, allowed),
          matched_cases (active_assignment r s.assignments) refl
              (rw (fresh, agrees, allowed, enqueue_placed) at h),
        )
      ]
    ]
  ]
