-- ===== src/Queue/Replay.antt =====
-- A closed operation stays closed: a second completion changes nothing, and a later lease of the same
-- operation is not queued again.
use workspace_zulip_bridge.Common.{
  ℕ, false, ap, eq_iff, ◌≡◌, refl, sym, ◌∙◌, String, Bool, true, ◌||◌, Option, none, some, List, [],
  ◌∷◌, arith, inl, inr, update_where, if◌then◌else◌,
}
use workspace_zulip_bridge.Queue.Types.{
  Row, Record, ResultRecord, Outcome, Mappings, Idempotency, Store, QueuedOperation, row_is,
  is_running, is_uncertain, is_terminal, Result, ok,
}
use workspace_zulip_bridge.Queue.Complete.{
  complete, complete_found, complete_row, completable, find_row, is_terminal_outcome,
  close_idempotency,
}
use workspace_zulip_bridge.Queue.Enqueue.{enqueue_placed}
use workspace_zulip_bridge.Queue.Completion.{
  complete_cases, current_operations, current_idempotency,
}

abbrev updated : (Row → Bool) → (Row → Row) → Option Row → Option Row
updated p f none = none
updated p f (some row) = some (if p row then f row else row)

find_row-update_where :
    (uuid : ℕ) (p : Row → Bool) (f : Row → Row)
    → ((row : Row) → (f row).record_uuid ≡ row.record_uuid)
    → (rows : List Row) → find_row uuid (update_where p f rows) ≡ updated p f (find_row uuid rows)
unfolding find_row update_where
find_row-update_where uuid p f keeps [] = refl
find_row-update_where uuid p f keeps (row ∷ rows) =
    ground (arith, keeps row, find_row-update_where uuid p f keeps rows)

complete_row-uuid :
    (outcome : Outcome) (result : ResultRecord) (now : ℕ) (row : Row)
    → (complete_row outcome result now row).record_uuid ≡ row.record_uuid
unfolding complete_row
complete_row-uuid outcome result now row = refl

complete_row_terminal :
    (outcome : Outcome) (result : ResultRecord) (now : ℕ) (row : Row)
    → is_terminal (complete_row outcome result now row).state ≡ true
unfolding complete_row
complete_row_terminal outcome result now row = ground arith

module _ (persist : Record → Option String → Option String → Mappings → Result Mappings)
    (s t : Store) (item : QueuedOperation) (row : Row)
    (found : find_row item.record_uuid s.operations ≡ some row) where
  find_row-named :
      (rows : List Row) (r : Row)
      → find_row item.record_uuid rows ≡ some r
      → row_is item.record_uuid r ≡ true
  unfolding find_row
  find_row-named [] r h = cc
  find_row-named (x ∷ xs) r h = ground (arith, find_row-named xs r)

  -- Where a running or uncertain row was completed, each later completion of the operation, with
  -- whatever result and terminal outcome, succeeds and changes nothing.
  pub complete_twice :
      (result again : ResultRecord) (outcome later : Outcome) (now after : ℕ)
      → (is_running row.state || is_uncertain row.state) ≡ true
      → is_terminal_outcome later ≡ true
      → complete persist s item result outcome now ≡ ok t
      → complete persist t item again later after ≡ ok t
  unfolding complete
  complete_twice result again outcome later now after held valid h =
      elim (complete_cases persist s t item result outcome now h).1 [
        | inl (r, e, closed, _) ↦
            let same : some row ≡ some r = sym found ∙ e in absurd (ground arith)
        | inr (r, e, _, current) ↦
            let same : find_row item.record_uuid t.operations
                ≡ some (complete_row outcome result now row) =
              rw (
                current_operations persist s t item result outcome now current,
                find_row-update_where item.record_uuid (completable item)
                    (complete_row outcome result now) (complete_row-uuid outcome result now)
                    s.operations,
                found,
                find_row-named s.operations row found,
                held,
              ) in
            rw (valid, same, complete_found, complete_row_terminal outcome result now row)
      ]

  -- Where a running or uncertain row was completed, a later lease of the operation as a first attempt,
  -- under the digest that is remembered for it, is answered False and stores nothing: the provider
  -- is not called for it again.
  pub enqueue_completed :
      (result : ResultRecord) (outcome : Outcome) (now : ℕ) (i : Idempotency) (r : Record)
      (priority after : ℕ)
      → (is_running row.state || is_uncertain row.state) ≡ true
      → complete persist s item result outcome now ≡ ok t
      → s.idempotency item.body.operation_uuid ≡ some i
      → r.operation_uuid ≡ item.body.operation_uuid
      → r.attempt ≡ 1
      → r.operation_sha256 ≡ i.operation_sha256
      → enqueue_placed r priority after t ≡ ok (false, t)
  unfolding enqueue_placed close_idempotency
  enqueue_completed result outcome now i r priority after held h known same first sha =
      elim (complete_cases persist s t item result outcome now h).1 [
        | inl (q, e, closed, _) ↦
            let equal : some row ≡ some q = sym found ∙ e in absurd (ground arith)
        | inr (q, e, _, current) ↦
            let remembered : t.idempotency r.operation_uuid
                ≡ close_idempotency outcome result (some i) =
              ap t.idempotency same
              ∙ current_idempotency persist s t item result outcome now current
              ∙ ap (close_idempotency outcome result) known in
            ground (arith, remembered, eq_iff i.operation_sha256 r.operation_sha256)
      ]
