-- ===== src/Queue/Validity.antt =====
-- The invariant of bridge_operations; that the statements of the queue keep it is in the children.
pub mod Claims
pub mod Updates
pub mod Closing
use workspace_zulip_bridge.Common.{
  ℕ, suc, ◌≤◌, ◌≡◌, refl, String, Bool, true, false, not, ◌&&◌, ◌||◌, Option, none, some, List, [],
  ◌∷◌, inl, inr, ◌⊎◌, arith, Bool-cases, Option-cases, update_where, In, All, All-In, All-update_In,
  All-append, and-left, is_some, if◌then◌else◌,
}
use workspace_zulip_bridge.Common.Select.{first_by, first_by-In}
use workspace_zulip_bridge.Common.Unique.{
  UniqueBy, UniqueBy-update_where, UniqueBy-append, All-update_unique,
}
use workspace_zulip_bridge.Queue.Types.{
  Row, Record, ResultRecord, Outcome, State, is_pending, is_running, is_uncertain, is_terminal,
  Store, QueuedOperation, row_is, Evidence, Mapping, Result, ok, Assignment,
}
use workspace_zulip_bridge.Queue.Claim.{
  claim, run_row, claim_terminal, claim_uncertain, lease_row, claim_key, claimable,
  terminal_claimable, reconcilable,
}
use workspace_zulip_bridge.Queue.Lifecycle.{
  reap_expired_running, reap_row, attempted, lease_expired, retry, retry_row,
  record_provider_attempt, attempt_row, mark_uncertain, uncertain_row, defer_uncertain, defer_row,
  uncertain_item, schedule_reconciliation_check, check_row, schedule_single_resend, resend_row,
  require_operation_manual_reconciliation, manual_row, require_manual_reconciliation, warn_row,
  update_operations,
}

pub record RowIsValid (row : Row) : Type 0 where
  -- At most one automatic resend.
  pub resent_once : row.auto_resend_count ≤ 1
  -- A running row can be reaped.
  pub leased : is_running row.state ≡ true → is_some row.lease_until ≡ true
  -- No lease on work that nobody holds.
  pub unleased :
      (is_pending row.state || is_terminal row.state) ≡ true
      → (row.lease_owner ≡ none) × (row.lease_until ≡ none)
  -- A result is there exactly when the operation is closed.
  pub closed : is_some row.result_record ≡ is_terminal row.state
  -- The three columns of a provider attempt are written together.
  pub queue_known : is_some row.provider_queue_id ≡ is_some row.provider_attempted_at
  pub local_known : is_some row.provider_local_id ≡ is_some row.provider_attempted_at

abbrev pub uuid_of : Row → ℕ
uuid_of row = row.record_uuid

pub record IsValid (s : Store) : Type 0 where
  pub rows : All RowIsValid s.operations
  -- The primary key.
  pub unique : UniqueBy uuid_of s.operations

-- An update that keeps the rows valid and the primary key as it is.
pub update-IsValid :
    (p : Row → Bool) (f : Row → Row) (s t : Store)
    → t.operations ≡ update_where p f s.operations
    → ((row : Row) → (f row).record_uuid ≡ row.record_uuid)
    → ((row : Row) → In row s.operations → RowIsValid row → p row ≡ true → RowIsValid (f row))
    → IsValid s
    → IsValid t
update-IsValid p f s t e same step v = record {
  rows = rw e (All-update_In RowIsValid RowIsValid p f s.operations step (λ row _ h _. h) v.rows);
  unique = rw e (UniqueBy-update_where uuid_of p f same s.operations v.unique);
}

-- An update of the row that a claim picked.
pub claimed-IsValid :
    (f : Row → Row) (s t : Store) (row : Row)
    → In row s.operations
    → t.operations ≡ update_where (row_is row.record_uuid) f s.operations
    → ((r : Row) → (f r).record_uuid ≡ r.record_uuid)
    → (RowIsValid row → RowIsValid (f row))
    → IsValid s
    → IsValid t
claimed-IsValid f s t row i e same step v = record {
  rows = rw e (
      All-update_unique uuid_of RowIsValid f row
        (step (All-In RowIsValid row s.operations v.rows i)) s.operations v.unique i v.rows);
  unique =
      rw e (UniqueBy-update_where uuid_of (row_is row.record_uuid) f same s.operations v.unique);
}
