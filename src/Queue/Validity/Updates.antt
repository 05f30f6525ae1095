-- ===== src/Queue/Validity/Updates.antt =====
-- Each statement that moves one operation on keeps the invariant. `retry` and `mark_uncertain` do not
-- test the state, so they are taken where the operation is still held.
use workspace_zulip_bridge.Common.{ℕ, ◌==◌, ◌≡◌, refl, String, true, ◌&&◌, arith, In}
use workspace_zulip_bridge.Queue.Types.{
  Row, ResultRecord, is_running, is_uncertain, Store, QueuedOperation, row_is, Evidence,
}
use workspace_zulip_bridge.Queue.Lifecycle.{
  retry, retry_row, record_provider_attempt, attempt_row, mark_uncertain, uncertain_row,
  defer_uncertain, defer_row, uncertain_item, schedule_reconciliation_check, check_row,
  schedule_single_resend, resend_row, require_operation_manual_reconciliation, manual_result,
  manual_row, require_manual_reconciliation, warn_row,
}
use workspace_zulip_bridge.Queue.Validity.{RowIsValid, IsValid, update-IsValid}

-- The worker still holds the operation: nobody has taken its row out of 'running'.
abbrev pub IsHeld : Store → QueuedOperation → Type 0
IsHeld s item =
    (row : Row)
    → In row s.operations
    → row_is item.record_uuid row ≡ true
    → is_running row.state ≡ true

retry_row-RowIsValid :
    (item : QueuedOperation) (available_at : ℕ) (code : String) (now : ℕ) (row : Row)
    → is_running row.state ≡ true
    → RowIsValid row
    → row_is item.record_uuid row ≡ true
    → RowIsValid (retry_row available_at code now row)
unfolding retry_row
retry_row-RowIsValid item available_at code now row held v h = ground arith

retry_row-uuid :
    (available_at : ℕ) (code : String) (now : ℕ) (row : Row)
    → (retry_row available_at code now row).record_uuid ≡ row.record_uuid
unfolding retry_row
retry_row-uuid available_at code now row = refl

pub retry-IsValid :
    (s : Store) (item : QueuedOperation) (available_at : ℕ) (code : String) (now : ℕ)
    → IsHeld s item
    → IsValid s
    → IsValid (retry s item available_at code now)
unfolding retry
retry-IsValid s item available_at code now held v =
    update-IsValid (row_is item.record_uuid) (retry_row available_at code now) s
      (retry s item available_at code now) refl (retry_row-uuid available_at code now)
      (λ row i u h. retry_row-RowIsValid item available_at code now row (held row i h) u h) v

uncertain_row-RowIsValid :
    (item : QueuedOperation) (code : String) (now : ℕ) (row : Row)
    → is_running row.state ≡ true
    → RowIsValid row
    → row_is item.record_uuid row ≡ true
    → RowIsValid (uncertain_row code now row)
unfolding uncertain_row
uncertain_row-RowIsValid item code now row held v h = ground arith

uncertain_row-uuid :
    (code : String) (now : ℕ) (row : Row)
    → (uncertain_row code now row).record_uuid ≡ row.record_uuid
unfolding uncertain_row
uncertain_row-uuid code now row = refl

pub mark_uncertain-IsValid :
    (s : Store) (item : QueuedOperation) (code : String) (now : ℕ)
    → IsHeld s item
    → IsValid s
    → IsValid (mark_uncertain s item code now)
unfolding mark_uncertain
mark_uncertain-IsValid s item code now held v =
    update-IsValid (row_is item.record_uuid) (uncertain_row code now) s
      (mark_uncertain s item code now) refl (uncertain_row-uuid code now)
      (λ row i u h. uncertain_row-RowIsValid item code now row (held row i h) u h) v

defer_row-RowIsValid :
    (item : QueuedOperation) (available_at : ℕ) (code : String) (now : ℕ) (row : Row)
    → RowIsValid row
    → uncertain_item item row ≡ true
    → RowIsValid (defer_row available_at code now row)
unfolding defer_row
defer_row-RowIsValid item available_at code now row v h = ground arith

defer_row-uuid :
    (available_at : ℕ) (code : String) (now : ℕ) (row : Row)
    → (defer_row available_at code now row).record_uuid ≡ row.record_uuid
unfolding defer_row
defer_row-uuid available_at code now row = refl

pub defer_uncertain-IsValid :
    (s : Store) (item : QueuedOperation) (available_at : ℕ) (code : String) (now : ℕ)
    → IsValid s
    → IsValid (defer_uncertain s item available_at code now)
unfolding defer_uncertain
defer_uncertain-IsValid s item available_at code now v =
    update-IsValid (uncertain_item item) (defer_row available_at code now) s
      (defer_uncertain s item available_at code now) refl (defer_row-uuid available_at code now)
      (λ row _. defer_row-RowIsValid item available_at code now row) v

check_row-RowIsValid :
    (item : QueuedOperation) (after : ℕ) (evidence : Evidence) (now : ℕ) (row : Row)
    → RowIsValid row
    → uncertain_item item row ≡ true
    → RowIsValid (check_row after evidence now row)
unfolding check_row
check_row-RowIsValid item after evidence now row v h = ground arith

check_row-uuid :
    (after : ℕ) (evidence : Evidence) (now : ℕ) (row : Row)
    → (check_row after evidence now row).record_uuid ≡ row.record_uuid
unfolding check_row
check_row-uuid after evidence now row = refl

pub schedule_reconciliation_check-IsValid :
    (s : Store) (item : QueuedOperation) (after : ℕ) (evidence : Evidence) (now : ℕ)
    → IsValid s
    → IsValid (schedule_reconciliation_check s item after evidence now)
unfolding schedule_reconciliation_check
schedule_reconciliation_check-IsValid s item after evidence now v =
    update-IsValid (uncertain_item item) (check_row after evidence now) s
      (schedule_reconciliation_check s item after evidence now) refl
      (check_row-uuid after evidence now)
      (λ row _. check_row-RowIsValid item after evidence now row) v

resend_row-RowIsValid :
    (item : QueuedOperation) (evidence : Evidence) (now : ℕ) (row : Row)
    → RowIsValid row
    → (uncertain_item item row && row.auto_resend_count == 0) ≡ true
    → RowIsValid (resend_row evidence now row)
unfolding resend_row
resend_row-RowIsValid item evidence now row v h = ground arith

resend_row-uuid :
    (evidence : Evidence) (now : ℕ) (row : Row)
    → (resend_row evidence now row).record_uuid ≡ row.record_uuid
unfolding resend_row
resend_row-uuid evidence now row = refl

pub schedule_single_resend-IsValid :
    (s : Store) (item : QueuedOperation) (evidence : Evidence) (now : ℕ)
    → IsValid s
    → IsValid (schedule_single_resend s item evidence now)
unfolding schedule_single_resend
schedule_single_resend-IsValid s item evidence now v =
    update-IsValid (λ row. uncertain_item item row && row.auto_resend_count == 0)
      (resend_row evidence now) s (schedule_single_resend s item evidence now) refl
      (resend_row-uuid evidence now) (λ row _. resend_row-RowIsValid item evidence now row) v

attempt_row-RowIsValid :
    (queue_id local_id content : String) (now : ℕ) (row : Row)
    → RowIsValid row
    → RowIsValid (attempt_row queue_id local_id content now row)
unfolding attempt_row
attempt_row-RowIsValid queue_id local_id content now row v = ground arith

attempt_row-uuid :
    (queue_id local_id content : String) (now : ℕ) (row : Row)
    → (attempt_row queue_id local_id content now row).record_uuid ≡ row.record_uuid
unfolding attempt_row
attempt_row-uuid queue_id local_id content now row = refl

pub record_provider_attempt-IsValid :
    (s : Store) (item : QueuedOperation) (queue_id local_id : String) (event : ℕ) (content : String)
    (now : ℕ)
    → IsValid s
    → IsValid (record_provider_attempt s item queue_id local_id event content now)
unfolding record_provider_attempt
record_provider_attempt-IsValid s item queue_id local_id event content now v =
    update-IsValid (λ row. row_is item.record_uuid row && is_running row.state)
      (attempt_row queue_id local_id content now) s
      (record_provider_attempt s item queue_id local_id event content now) refl
      (attempt_row-uuid queue_id local_id content now)
      (λ row _ h _. attempt_row-RowIsValid queue_id local_id content now row h) v

manual_row-RowIsValid :
    (item : QueuedOperation) (code : String) (evidence : Evidence) (result : ResultRecord) (now : ℕ)
    (row : Row)
    → RowIsValid row
    → uncertain_item item row ≡ true
    → RowIsValid (manual_row code evidence result now row)
unfolding manual_row
manual_row-RowIsValid item code evidence result now row v h = ground arith

manual_row-uuid :
    (code : String) (evidence : Evidence) (result : ResultRecord) (now : ℕ) (row : Row)
    → (manual_row code evidence result now row).record_uuid ≡ row.record_uuid
unfolding manual_row
manual_row-uuid code evidence result now row = refl

pub manual-IsValid :
    (uuid5 : ℕ → String → ℕ) (s : Store) (item : QueuedOperation) (code : String)
    (evidence : Evidence) (now : ℕ)
    → IsValid s
    → IsValid (require_operation_manual_reconciliation uuid5 s item code evidence now)
unfolding require_operation_manual_reconciliation
manual-IsValid uuid5 s item code evidence now v =
    let result = manual_result uuid5 item code evidence now in
    update-IsValid (uncertain_item item) (manual_row code evidence result now) s
      (require_operation_manual_reconciliation uuid5 s item code evidence now) refl
      (manual_row-uuid code evidence result now)
      (λ row _. manual_row-RowIsValid item code evidence result now row) v

warn_row-RowIsValid :
    (code : String) (now : ℕ) (row : Row) → RowIsValid row → RowIsValid (warn_row code now row)
unfolding warn_row
warn_row-RowIsValid code now row v = ground arith

warn_row-uuid :
    (code : String) (now : ℕ) (row : Row) → (warn_row code now row).record_uuid ≡ row.record_uuid
unfolding warn_row
warn_row-uuid code now row = refl

pub account_manual-IsValid :
    (s : Store) (account : ℕ) (code : String) (now : ℕ)
    → IsValid s
    → IsValid (require_manual_reconciliation s account code now)
unfolding require_manual_reconciliation
account_manual-IsValid s account code now v =
    update-IsValid (λ row. row.account_uuid == account && is_uncertain row.state)
      (warn_row code now) s (require_manual_reconciliation s account code now) refl
      (warn_row-uuid code now) (λ row _ h _. warn_row-RowIsValid code now row h) v
