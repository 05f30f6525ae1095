-- ===== src/Scheduler/Chances.antt =====
-- An uncertain send that no provider message matches comes to an end.
use workspace_zulip_bridge.Common.{
  ℕ, suc, ◌+◌, ◌-◌, ◌*◌, ◌≤◌, ◌==◌, ==_refl, ltb, ◌≡◌, refl, Bool, true, ◌&&◌, arith, Bool-cases,
  inl, inr, ◌⊎◌, In, In-update_where, update_where, length,
}
use workspace_zulip_bridge.Queue.Types.{Row, State, Store, queued_operation, is_uncertain}
use workspace_zulip_bridge.Queue.Lifecycle.{
  schedule_reconciliation_check, schedule_single_resend, require_operation_manual_reconciliation,
  uncertain_item, check_row, resend_row, manual_row, manual_result,
}
use workspace_zulip_bridge.Scheduler.Provider.{ReconciliationEvidence, Scheduler}
use workspace_zulip_bridge.Scheduler.Reconcile.{
  unmatched, stored_evidence, reconciliation_delays, max_auto_resends,
}

-- The checks that are left for the row, over all its sends.
abbrev pub checks_left : Row → ℕ
checks_left row = 3 * (1 - row.auto_resend_count) + (3 - row.reconciliation_check_count)

-- What a lookup without a match makes of a row.
abbrev pub MovedOn : Row → Row → Type 0
MovedOn before after =
    ((after.state ≡ State.uncertain)
      × (after.auto_resend_count ≡ before.auto_resend_count)
      × (suc (checks_left after) ≡ checks_left before))
    ⊎ ((after.state ≡ State.pending)
        × (before.auto_resend_count ≡ 0)
        × (after.auto_resend_count ≡ 1))
    ⊎ ((after.state ≡ State.rejected)
        × (after.manual_reconciliation_required ≡ true)
        × (before.auto_resend_count ≡ 1))

module _ (c : Scheduler) (s : Store) (row : Row) (evidence : ReconciliationEvidence) (now : ℕ)
    (i : In row s.operations) (uncertain : is_uncertain row.state ≡ true)
    (once : row.auto_resend_count ≤ 1) where
  abbrev pub Found : Store → Type 0
  Found t =
      (after : Row) × In after t.operations
      × (after.record_uuid ≡ row.record_uuid)
      × MovedOn row after

  updated-Found :
      (t : Store) (p : Row → Bool) (f : Row → Row)
      → t.operations ≡ update_where p f s.operations
      → p row ≡ true
      → (f row).record_uuid ≡ row.record_uuid
      → MovedOn row (f row)
      → Found t
  updated-Found t p f e hit same moved =
      (f row, rw e (rw hit at (In-update_where p f row s.operations i)), same, moved)

  check-Found :
      (after : ℕ)
      → suc row.reconciliation_check_count ≤ 2
      → Found (
          schedule_reconciliation_check s
            (queued_operation row)
            after
            (stored_evidence evidence)
            now)
  unfolding schedule_reconciliation_check check_row queued_operation
  check-Found after few =
      updated-Found
        (schedule_reconciliation_check s (queued_operation row) after (stored_evidence evidence)
          now)
        (uncertain_item (queued_operation row)) (check_row after (stored_evidence evidence) now)
        refl (ground (arith, ==_refl row.record_uuid)) refl
        (inl (ground arith, refl, omega (arith, few)))

  resend-Found :
      row.auto_resend_count ≡ 0
      → Found (schedule_single_resend s (queued_operation row) (stored_evidence evidence) now)
  unfolding schedule_single_resend resend_row queued_operation
  resend-Found unsent =
      updated-Found (schedule_single_resend s (queued_operation row) (stored_evidence evidence) now)
        (λ r. uncertain_item (queued_operation row) r && r.auto_resend_count == 0)
        (resend_row (stored_evidence evidence) now) refl (ground (arith, ==_refl row.record_uuid))
        refl (inr (inl (refl, unsent, ground arith)))

  manual-Found :
      row.auto_resend_count ≡ 1
      → Found (
          require_operation_manual_reconciliation c.uuid5 s
            (queued_operation row)
            "no_match_after_auto_resend"
            (stored_evidence evidence)
            now)
  unfolding require_operation_manual_reconciliation manual_row queued_operation
  manual-Found sent =
      updated-Found
        (require_operation_manual_reconciliation c.uuid5 s (queued_operation row)
          "no_match_after_auto_resend" (stored_evidence evidence) now)
        (uncertain_item (queued_operation row))
        (manual_row "no_match_after_auto_resend" (stored_evidence evidence)
          (manual_result c.uuid5 (queued_operation row) "no_match_after_auto_resend"
            (stored_evidence evidence) now)
          now)
        refl (ground (arith, ==_refl row.record_uuid)) refl (inr (inr (refl, refl, sent)))

  -- An uncertain row that was sent at most twice and has no match at the provider is checked again
  -- with one check less to come, or goes back to be sent for the second time, or is rejected for a
  -- person to decide after that: a send without a match is looked up a bounded number of times and
  -- resent at most once.
  pub unmatched-MovedOn : Found (unmatched c s (queued_operation row) evidence now)
  unfolding unmatched queued_operation
  unmatched-MovedOn =
      elim (Bool-cases (ltb (suc row.reconciliation_check_count) (length reconciliation_delays))) [
        | inl again ↦ rw (again, unmatched) (check-Found _ (ground arith))
        | inr enough ↦ elim (Bool-cases (ltb row.auto_resend_count max_auto_resends)) [
          | inl resend ↦ rw (enough, resend, unmatched) (resend-Found (ground arith))
          | inr spent ↦ rw (enough, spent, unmatched) (manual-Found (ground arith))
        ]
      ]
