-- ===== src/Delivery/Fenced.antt =====
-- What the store calls of the delivery do to leases.
use workspace_zulip_bridge.Common.{
  ℕ, String, Bool, true, false, not, ◌&&◌, ◌||◌, List, ◌≡◌, refl, arith, Bool-cases, inl, inr, All,
  All-update_where,
}
use workspace_zulip_bridge.Delivery.{
  BatchKey, BatchRow, Item, MappingCursor, DeliveryStore, ErrorValue, safe_error_code,
}
use workspace_zulip_bridge.Delivery.Lease.{
  at_key, holds, leased, Release, plain_release, release_row, release, is_current, is_some_scope,
  find_scope, fail_released, fail, failure, code_or,
}
use workspace_zulip_bridge.Delivery.References.{
  Reference, checkpoint_row, may_install, save_references,
}

-- No batch holds the lease.
abbrev pub IsFree : ℕ → List BatchRow → Type 0
IsFree lease = All (λ row. holds lease row ≡ false)

-- No batch but that of the key holds the lease.
abbrev pub IsFenced : BatchKey → ℕ → List BatchRow → Type 0
IsFenced key lease = All (λ row. (holds lease row && not (at_key key row)) ≡ false)

pub release-IsFree :
    (r : Release) (item : Item) (now : ℕ) (s : DeliveryStore)
    → IsFenced item.key item.lease s.batches
    → IsFree item.lease (release r item now s).1.batches
unfolding release release_row
release-IsFree r item now s h =
    All-update_where (λ row. (holds item.lease row && not (at_key item.key row)) ≡ false)
      (λ row. holds item.lease row ≡ false) (leased item.key item.lease) (release_row r now)
      (λ row k e. refl) (λ row k e. ground (arith, k, e)) s.batches h

fail_released-IsFree :
    (item : Item) (code : String) (now : ℕ) (p : Bool × DeliveryStore)
    → IsFree item.lease p.1.batches
    → IsFree item.lease (fail_released item code now p).1.batches
unfolding fail_released
fail_released-IsFree item code now (false, s) h = h
fail_released-IsFree item code now (true, s) h = h

pub fail-IsFree :
    (fingerprint : DeliveryStore → ℕ → ℕ → String) (item : Item) (value : ErrorValue) (now : ℕ)
    (s : DeliveryStore)
    → IsFenced item.key item.lease s.batches
    → IsFree item.lease (fail fingerprint item value now s).1.batches
unfolding fail
fail-IsFree fingerprint item value now s h =
    elim (Bool-cases (
      not (is_some_scope (find_scope item.key.project_uuid item.key.provider_realm_uuid s.scopes))
      || not (is_current fingerprint item now s))) [
        | inl e ↦ rw e (release-IsFree plain_release item now s h)
        | inr e ↦
            let code = code_or (safe_error_code value) "history_import_failed" in
            rw e (
              fail_released-IsFree item code now (release (failure item code) item now s)
                (release-IsFree (failure item code) item now s h))
      ]

pub save_references-IsFenced :
    (fingerprint : DeliveryStore → ℕ → ℕ → String) (item : Item) (account : ℕ)
    (references : List Reference) (cursor : MappingCursor) (complete : Bool) (now : ℕ)
    (s : DeliveryStore)
    → IsFenced item.key item.lease s.batches
    → IsFenced item.key item.lease
        (save_references fingerprint item account references cursor complete now s).batches
unfolding save_references checkpoint_row
save_references-IsFenced fingerprint item account references cursor complete now s h =
    elim (Bool-cases (may_install fingerprint item now s)) [
      | inl e ↦ rw e (
          All-update_where (λ row. (holds item.lease row && not (at_key item.key row)) ≡ false)
            (λ row. (holds item.lease row && not (at_key item.key row)) ≡ false)
            (leased item.key item.lease) (checkpoint_row item cursor complete now) (λ row k e. refl)
            (λ row k e. k) s.batches h)
      | inr e ↦ rw e h
    ]
