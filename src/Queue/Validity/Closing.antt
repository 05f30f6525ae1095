-- ===== src/Queue/Validity/Closing.antt =====
-- `complete`, `enqueue` and the acknowledgement of results keep the invariant.
use workspace_zulip_bridge.Common.{
  ℕ, leb, ◌==◌, ◌≡◌, refl, String, Bool, true, false, inl, inr, Option, none, some, List, [], ◌∷◌,
  arith, Bool-cases, All, All-append,
}
use workspace_zulip_bridge.Common.Unique.{UniqueBy, UniqueBy-append, Differs}
use workspace_zulip_bridge.Queue.Types.{
  Row, Record, ResultRecord, Outcome, Store, QueuedOperation, Mappings, Result, ok, Assignment,
}
use workspace_zulip_bridge.Queue.Complete.{complete, complete_row, completable}
use workspace_zulip_bridge.Queue.Admission.{insert_row_cases, enqueue_placed_cases}
use workspace_zulip_bridge.Queue.Completion.{complete_cases, current_operations}
use workspace_zulip_bridge.Queue.Enqueue.{
  enqueue, enqueue_placed, allocate_producer_lane, insert_row, new_row, has_record,
  remember_operation,
}
use workspace_zulip_bridge.Queue.Results.{
  Response, response_to, respond_found, respond_rows, finalize_provider_result_responses,
}
use workspace_zulip_bridge.Queue.Validity.{RowIsValid, IsValid, uuid_of, update-IsValid}

complete_row-RowIsValid :
    (item : QueuedOperation) (outcome : Outcome) (result : ResultRecord) (now : ℕ) (row : Row)
    → RowIsValid row
    → completable item row ≡ true
    → RowIsValid (complete_row outcome result now row)
unfolding complete_row
complete_row-RowIsValid item outcome result now row v h = ground arith

complete_row-uuid :
    (outcome : Outcome) (result : ResultRecord) (now : ℕ) (row : Row)
    → (complete_row outcome result now row).record_uuid ≡ row.record_uuid
unfolding complete_row
complete_row-uuid outcome result now row = refl

module _ (persist : Record → Option String → Option String → Mappings → Result Mappings) where
  pub complete-IsValid :
      (s t : Store) (item : QueuedOperation) (result : ResultRecord) (outcome : Outcome) (now : ℕ)
      → complete persist s item result outcome now ≡ ok t
      → IsValid s
      → IsValid t
  unfolding complete
  complete-IsValid s t item result outcome now h v =
      elim (complete_cases persist s t item result outcome now h).1 [
        | inl (row, e, closed, same) ↦ rw same v
        | inr (row, e, running, current) ↦
            update-IsValid (completable item) (complete_row outcome result now) s t
              (current_operations persist s t item result outcome now current)
              (complete_row-uuid outcome result now)
              (λ r _. complete_row-RowIsValid item outcome result now r) v
      ]

new_row-RowIsValid :
    (r : Record) (priority : ℕ) (a : Assignment) (now : ℕ) → RowIsValid (new_row r priority a now)
unfolding new_row
new_row-RowIsValid r priority a now = ground arith

has_record-Differs :
    (row : Row) (rows : List Row)
    → has_record row.record_uuid rows ≡ false
    → All (λ x. (row.record_uuid == x.record_uuid) ≡ false) rows
unfolding has_record
has_record-Differs row [] h = tt
has_record-Differs row (x ∷ xs) h = (ground arith, has_record-Differs row xs (ground arith))

pub insert_row-IsValid :
    (row : Row) (s t : Store) (added : Bool)
    → insert_row row s ≡ ok (added, t)
    → RowIsValid row
    → IsValid s
    → IsValid t
unfolding insert_row
insert_row-IsValid row s t added h ok_row v = elim (insert_row_cases row s t added h).1 [
  | inl (old, _, same) ↦ rw same v
  | inr (new, _, _, appended) ↦ record {
    rows = rw appended (All-append RowIsValid s.operations (row ∷ []) v.rows (ok_row, tt));
    unique = rw appended (
        UniqueBy-append uuid_of row s.operations v.unique
          (has_record-Differs row s.operations new));
  }
]

keep-IsValid : (s t : Store) → t.operations ≡ s.operations → IsValid s → IsValid t
keep-IsValid s t e v = record { rows = rw e v.rows; unique = rw e v.unique }

pub operations-allocate :
    (digest : Record → String) (r : Record) (s : Store)
    → (allocate_producer_lane digest r s).1.operations ≡ s.operations
unfolding allocate_producer_lane
operations-allocate digest r s = ground arith

pub operations-remember :
    (r : Record) (s : Store) → (remember_operation r s).operations ≡ s.operations
unfolding remember_operation
operations-remember r s = refl

enqueue_placed-IsValid :
    (s t : Store) (r : Record) (priority now : ℕ) (added : Bool)
    → enqueue_placed r priority now s ≡ ok (added, t)
    → IsValid s
    → IsValid t
enqueue_placed-IsValid s t r priority now added h v =
    elim (enqueue_placed_cases r priority now s t added h) [
      | inl (_, _, same) ↦ rw same v
      | inr (_, (a, _, inserted)) ↦
          insert_row-IsValid (new_row r priority a now) (remember_operation r s) t added inserted
            (new_row-RowIsValid r priority a now)
            (keep-IsValid s (remember_operation r s) (operations-remember r s) v)
    ]

pub enqueue-IsValid :
    (digest : Record → String) (s t : Store) (r : Record) (priority now : ℕ) (added : Bool)
    → (enqueue digest s r priority now).1 ≡ ok (added, t)
    → IsValid s
    → IsValid t
unfolding enqueue
enqueue-IsValid digest s t r priority now added h v = elim (Bool-cases (leb priority 2)) [
  | inl valid ↦
      let (placed, allocated) = allocate_producer_lane digest r s in
      enqueue_placed-IsValid allocated t placed priority now added (rw (valid, enqueue) at h)
        (keep-IsValid s allocated (operations-allocate digest r s) v)
  | inr invalid ↦ absurd (cc (rw (invalid, enqueue) at h))
]

respond_row-RowIsValid :
    (digest : Record → String) (now : ℕ) (row : Row) (o : Option String)
    → RowIsValid row
    → RowIsValid (respond_found digest now row o)
unfolding respond_found
respond_row-RowIsValid digest now row none v = v
respond_row-RowIsValid digest now row (some status) v = ground arith

respond_row-uuid :
    (digest : Record → String) (now : ℕ) (row : Row) (o : Option String)
    → (respond_found digest now row o).record_uuid ≡ row.record_uuid
unfolding respond_found
respond_row-uuid digest now row none = refl
respond_row-uuid digest now row (some status) = refl

respond_rows-valid :
    (digest : Record → String) (rs : List Response) (now : ℕ) (rows : List Row)
    → All RowIsValid rows
    → All RowIsValid (respond_rows digest rs now rows)
unfolding respond_rows
respond_rows-valid digest rs now [] v = tt
respond_rows-valid digest rs now (row ∷ rows) v = (
  respond_row-RowIsValid digest now row (response_to rs row) v.0,
  respond_rows-valid digest rs now rows v.1,
)

respond_rows_unique :
    (digest : Record → String) (rs : List Response) (now : ℕ) (rows : List Row)
    → UniqueBy uuid_of rows
    → UniqueBy uuid_of (respond_rows digest rs now rows)
unfolding respond_rows
respond_rows_unique digest rs now [] u = tt
respond_rows_unique digest rs now (row ∷ rows) u = (
  differs (respond_found digest now row (response_to rs row))
      (respond_row-uuid digest now row (response_to rs row)) rows u.0,
  respond_rows_unique digest rs now rows u.1,
)
  where
    differs :
        (a : Row)
        → a.record_uuid ≡ row.record_uuid
        → (xs : List Row) → All (Differs uuid_of row) xs
        → All (Differs uuid_of a) (respond_rows digest rs now xs)
    differs a e [] d = tt
    differs a e (x ∷ xs) d =
        (ground (arith, respond_row-uuid digest now x (response_to rs x)), differs a e xs d.1)

pub finalize-IsValid :
    (digest : Record → String) (s t : Store) (rs : List Response) (now : ℕ)
    → finalize_provider_result_responses digest s rs now ≡ ok t
    → IsValid s
    → IsValid t
unfolding finalize_provider_result_responses
finalize-IsValid digest s t rs now h v = record {
  rows = rw e (respond_rows-valid digest rs now s.operations v.rows);
  unique = rw e (respond_rows_unique digest rs now s.operations v.unique);
}
  where
    e : t.operations ≡ respond_rows digest rs now s.operations
    e = ground arith
