-- ===== src/Queue/Order/Keeps.antt =====
-- Each statement that moves one operation on keeps the order of the lanes.
use workspace_zulip_bridge.Common.{
  ℕ, ◌==◌, ◌≡◌, refl, String, false, ◌&&◌, Option, none, some, List, [], ◌∷◌, arith, All, sym,
  subst,
}
use workspace_zulip_bridge.Common.Select.{first_by}
use workspace_zulip_bridge.Queue.Types.{
  Row, Record, Evidence, ok, row_is, is_running, is_uncertain, QueuedOperation, Place, place,
  record_place, Store, Lane,
}
use workspace_zulip_bridge.Queue.Claim.{
  claim_uncertain, reconcilable, reconciliation_key, lease_row,
}
use workspace_zulip_bridge.Queue.Lifecycle.{
  reap_expired_running, reap_row, lease_expired, retry, retry_row, record_provider_attempt,
  attempt_row, mark_uncertain, uncertain_row, defer_uncertain, defer_row, uncertain_item,
  schedule_reconciliation_check, check_row, schedule_single_resend, resend_row,
  require_operation_manual_reconciliation, manual_result, manual_row, require_manual_reconciliation,
  warn_row,
}
use workspace_zulip_bridge.Queue.Results.{
  Response, response_to, respond_found, respond_rows, finalize_provider_result_responses,
}
use workspace_zulip_bridge.Queue.Enqueue.{same_place}
use workspace_zulip_bridge.Queue.Validity.Updates.{IsHeld}
use workspace_zulip_bridge.Queue.Order.{Apart, IsNext, IsRecorded, IsSerial}
use workspace_zulip_bridge.Queue.Order.Updates.{idle_update-IsSerial}

pub retry-IsSerial :
    (s : Store) (item : QueuedOperation) (available_at : ℕ) (code : String) (now : ℕ)
    → IsSerial s
    → IsSerial (retry s item available_at code now)
unfolding retry retry_row
retry-IsSerial s item available_at code now =
    idle_update-IsSerial (row_is item.record_uuid) (retry_row available_at code now) (λ _. refl) s
      (retry s item available_at code now) refl refl (λ _. refl) (λ row _ h flying. ground arith)

pub mark_uncertain-IsSerial :
    (s : Store) (item : QueuedOperation) (code : String) (now : ℕ)
    → IsHeld s item
    → IsSerial s
    → IsSerial (mark_uncertain s item code now)
unfolding mark_uncertain uncertain_row
mark_uncertain-IsSerial s item code now held =
    idle_update-IsSerial (row_is item.record_uuid) (uncertain_row code now) (λ _. refl) s
      (mark_uncertain s item code now) refl refl (λ _. refl)
      (λ row i h flying. ground (arith, held row i h))

pub defer_uncertain-IsSerial :
    (s : Store) (item : QueuedOperation) (available_at : ℕ) (code : String) (now : ℕ)
    → IsSerial s
    → IsSerial (defer_uncertain s item available_at code now)
unfolding defer_uncertain defer_row
defer_uncertain-IsSerial s item available_at code now =
    idle_update-IsSerial (uncertain_item item) (defer_row available_at code now) (λ _. refl) s
      (defer_uncertain s item available_at code now) refl refl (λ _. refl)
      (λ row _ h flying. ground arith)

pub schedule_reconciliation_check-IsSerial :
    (s : Store) (item : QueuedOperation) (after : ℕ) (evidence : Evidence) (now : ℕ)
    → IsSerial s
    → IsSerial (schedule_reconciliation_check s item after evidence now)
unfolding schedule_reconciliation_check check_row
schedule_reconciliation_check-IsSerial s item after evidence now =
    idle_update-IsSerial (uncertain_item item) (check_row after evidence now) (λ _. refl) s
      (schedule_reconciliation_check s item after evidence now) refl refl (λ _. refl)
      (λ row _ h flying. ground arith)

pub schedule_single_resend-IsSerial :
    (s : Store) (item : QueuedOperation) (evidence : Evidence) (now : ℕ)
    → IsSerial s
    → IsSerial (schedule_single_resend s item evidence now)
unfolding schedule_single_resend resend_row
schedule_single_resend-IsSerial s item evidence now =
    idle_update-IsSerial (λ row. uncertain_item item row && row.auto_resend_count == 0)
      (resend_row evidence now) (λ _. refl) s (schedule_single_resend s item evidence now) refl refl
      (λ _. refl) (λ row _ h flying. ground arith)

pub record_provider_attempt-IsSerial :
    (s : Store) (item : QueuedOperation) (queue_id local_id : String) (event : ℕ) (content : String)
    (now : ℕ)
    → IsSerial s
    → IsSerial (record_provider_attempt s item queue_id local_id event content now)
unfolding record_provider_attempt attempt_row
record_provider_attempt-IsSerial s item queue_id local_id event content now =
    idle_update-IsSerial (λ row. row_is item.record_uuid row && is_running row.state)
      (attempt_row queue_id local_id content now) (λ _. refl) s
      (record_provider_attempt s item queue_id local_id event content now) refl refl (λ _. refl)
      (λ row _ h flying. ground arith)

reap_row-place : (now : ℕ) (row : Row) → place (reap_row now row) ≡ place row
unfolding reap_row
reap_row-place now row = ground arith

reap_row-record :
    (now : ℕ) (row : Row) → record_place (reap_row now row).body ≡ record_place row.body
unfolding reap_row
reap_row-record now row = ground arith

pub reap-IsSerial : (s : Store) (now : ℕ) → IsSerial s → IsSerial (reap_expired_running s now).1
unfolding reap_expired_running reap_row
reap-IsSerial s now =
    idle_update-IsSerial (lease_expired now) (reap_row now) (λ row. reap_row-place now row) s
      (reap_expired_running s now).1 refl refl (λ row. reap_row-record now row)
      (λ row _ h flying. ground arith)

pub manual-IsSerial :
    (uuid5 : ℕ → String → ℕ) (s : Store) (item : QueuedOperation) (code : String)
    (evidence : Evidence) (now : ℕ)
    → IsSerial s
    → IsSerial (require_operation_manual_reconciliation uuid5 s item code evidence now)
unfolding require_operation_manual_reconciliation manual_row
manual-IsSerial uuid5 s item code evidence now =
    idle_update-IsSerial (uncertain_item item)
      (manual_row code evidence (manual_result uuid5 item code evidence now) now) (λ _. refl) s
      (require_operation_manual_reconciliation uuid5 s item code evidence now) refl refl (λ _. refl)
      (λ row _ h flying. ground arith)

pub account_manual-IsSerial :
    (s : Store) (account : ℕ) (code : String) (now : ℕ)
    → IsSerial s
    → IsSerial (require_manual_reconciliation s account code now)
unfolding require_manual_reconciliation warn_row
account_manual-IsSerial s account code now =
    idle_update-IsSerial (λ row. row.account_uuid == account && is_uncertain row.state)
      (warn_row code now) (λ _. refl) s (require_manual_reconciliation s account code now) refl refl
      (λ _. refl) (λ row _ h flying. flying)

pub claim_uncertain-IsSerial :
    (s : Store) (worker : String) (now : ℕ) → IsSerial s → IsSerial (claim_uncertain s worker now).1
unfolding claim_uncertain lease_row
claim_uncertain-IsSerial s worker now v = go _ refl
  where
    go :
        (o : Option Row)
        → first_by (reconcilable s now) reconciliation_key s.operations ≡ o
        → IsSerial (claim_uncertain s worker now).1
    go none e = rw (e, claim_uncertain) v
    go (some row) e =
        idle_update-IsSerial (row_is row.record_uuid) (lease_row worker now) (λ _. refl) s
          (claim_uncertain s worker now).1 (rw (e, claim_uncertain)) (rw (e, claim_uncertain))
          (λ _. refl) (λ r _ h flying. flying) v

respond_found-place :
    (digest : Record → String) (now : ℕ) (row : Row) (o : Option String)
    → place (respond_found digest now row o) ≡ place row
unfolding respond_found
respond_found-place digest now row none = refl
respond_found-place digest now row (some status) = refl

respond_found-IsRecorded :
    (digest : Record → String) (now : ℕ) (row : Row) (o : Option String)
    → IsRecorded row
    → IsRecorded (respond_found digest now row o)
unfolding respond_found
respond_found-IsRecorded digest now row none h = h
respond_found-IsRecorded digest now row (some status) h = ground arith

respond_found-IsNext :
    (digest : Record → String) (now : ℕ) (lanes : String → String → Option Lane) (row : Row)
    (o : Option String)
    → IsNext lanes row
    → IsNext lanes (respond_found digest now row o)
unfolding respond_found
respond_found-IsNext digest now lanes row none h = h
respond_found-IsNext digest now lanes row (some status) h = h

module _ (digest : Record → String) (rs : List Response) (now : ℕ) where
  respond_rows-IsNext :
      (lanes : String → String → Option Lane) (rows : List Row)
      → All (IsNext lanes) rows
      → All (IsNext lanes) (respond_rows digest rs now rows)
  unfolding respond_rows
  respond_rows-IsNext lanes [] h = tt
  respond_rows-IsNext lanes (row ∷ rows) h = (
    respond_found-IsNext digest now lanes row (response_to rs row) h.0,
    respond_rows-IsNext lanes rows h.1,
  )

  respond_rows-IsRecorded :
      (rows : List Row) → All IsRecorded rows → All IsRecorded (respond_rows digest rs now rows)
  unfolding respond_rows
  respond_rows-IsRecorded [] h = tt
  respond_rows-IsRecorded (row ∷ rows) h = (
    respond_found-IsRecorded digest now row (response_to rs row) h.0,
    respond_rows-IsRecorded rows h.1,
  )

  respond_rows-apart_from :
      (p : Place) (rows : List Row)
      → All (λ y. same_place p (place y) ≡ false) rows
      → All (λ y. same_place p (place y) ≡ false) (respond_rows digest rs now rows)
  unfolding respond_rows
  respond_rows-apart_from p [] h = tt
  respond_rows-apart_from p (row ∷ rows) h = (
    subst (λ z. same_place p z ≡ false)
        (sym (respond_found-place digest now row (response_to rs row))) h.0,
    respond_rows-apart_from p rows h.1,
  )

  respond_rows-Apart : (rows : List Row) → Apart rows → Apart (respond_rows digest rs now rows)
  unfolding respond_rows
  respond_rows-Apart [] h = tt
  respond_rows-Apart (row ∷ rows) h = (
    subst (λ z. All (λ y. same_place z (place y) ≡ false) (respond_rows digest rs now rows))
        (sym (respond_found-place digest now row (response_to rs row)))
        (respond_rows-apart_from (place row) rows h.0),
    respond_rows-Apart rows h.1,
  )

  pub finalize-IsSerial :
      (s t : Store)
      → finalize_provider_result_responses digest s rs now ≡ ok t
      → IsSerial s
      → IsSerial t
  unfolding finalize_provider_result_responses
  finalize-IsSerial s t h v = record {
    apart = rw e (respond_rows-Apart s.operations v.apart);
    next = rw (e, l) (respond_rows-IsNext s.lanes s.operations v.next);
    recorded = rw e (respond_rows-IsRecorded s.operations v.recorded);
  }
    where
      e : t.operations ≡ respond_rows digest rs now s.operations
      e = ground arith

      l : t.lanes ≡ s.lanes
      l = ground arith
