-- ===== src/Delivery/Fences.antt =====
-- What a claim of the delivery leaves where no batch had its lease before.
use workspace_zulip_bridge.Common.{
  ℕ, String, Bool, true, false, not, ◌&&◌, ◌||◌, Option, none, some, List, str_eq, if◌then◌else◌,
  ◌≡◌, refl, subst, arith, Bool-cases, inl, inr, All-update_where,
}
use workspace_zulip_bridge.Common.Select.{first_by}
use workspace_zulip_bridge.Queue.Lifecycle.{same_text}
use workspace_zulip_bridge.Delivery.{
  BatchRow, Scope, Source, Item, DeliveryStore, sources_for, sources_only, max_sources,
}
use workspace_zulip_bridge.Delivery.Lease.{
  at_key, holds, leased, find_scope, has_incomplete, is_none, longer_than, is_registered, lease_row,
  claim_sources, claim_scope, claim_row, claim_batch, publishable, publish_key,
}
use workspace_zulip_bridge.Delivery.Fenced.{IsFree, IsFenced}
use workspace_zulip_bridge.Delivery.Claims.{claim_batch-IsFenced, claim_batch-lease}

module _ (digest : List Source → String) (fingerprint : DeliveryStore → ℕ → ℕ → String)
    (allow_admission : Bool) (lease now : ℕ) (s : DeliveryStore) where
  abbrev ClaimsFree : Option Item × DeliveryStore → Type 0
  ClaimsFree (none, t) = IsFree lease t.batches
  ClaimsFree (some item, t) = Unit

  claim_sources-ClaimsFree :
      (scope : Scope) (row : BatchRow) (sources : List (Source × Option String))
      → IsFree lease s.batches
      → ClaimsFree (claim_sources digest fingerprint allow_admission lease now s scope row sources)
  unfolding claim_sources lease_row
  claim_sources-ClaimsFree scope row sources free =
      elim (Bool-cases
        (not (longer_than max_sources sources) && (is_none sources || has_incomplete sources))) [
          | inl e ↦ rw e (
              All-update_where (λ b. holds lease b ≡ false) (λ b. holds lease b ≡ false)
                (at_key row.key) _ (λ b k f. k) (λ b k f. k) s.batches free)
          | inr e ↦
              elim (Bool-cases (
                not allow_admission
                && not (
                    is_registered (
                      if same_text row.import_sources_hash (digest (sources_only sources))
                      then row.import_uuid
                      else none)))) [
                        | inl f ↦
                            rw (e, f)
                              (All-update_where
                                (λ b. (holds lease b && not (at_key row.key b)) ≡ false)
                                (λ b. holds lease b ≡ false) (leased row.key lease) _
                                (λ b k g. refl) (λ b k g. ground (arith, k, g)) _
                                (All-update_where (λ b. holds lease b ≡ false)
                                  (λ b. (holds lease b && not (at_key row.key b)) ≡ false)
                                  (at_key row.key)
                                  (lease_row digest fingerprint lease
                                    (digest (sources_only sources)) now)
                                  (λ b k g. ground (arith, g)) (λ b k g. ground (arith, k))
                                  s.batches free))
                        | inr f ↦ rw (e, f) tt
                      ]
        ]

  claim_scope-ClaimsFree :
      (row : BatchRow) (o : Option Scope)
      → IsFree lease s.batches
      → ClaimsFree (claim_scope digest fingerprint allow_admission lease now s row o)
  unfolding claim_scope
  claim_scope-ClaimsFree row none free = free
  claim_scope-ClaimsFree row (some scope) free =
      elim (Bool-cases (
        scope.directory_pending
        || not (
            str_eq scope.fingerprint
              (fingerprint s row.key.project_uuid row.key.provider_realm_uuid)))) [
                | inl e ↦ rw e free
                | inr e ↦ rw e (
                    claim_sources-ClaimsFree scope row
                      (sources_for s row.key.project_uuid row.key.provider_realm_uuid) free)
              ]

  claim_row-ClaimsFree :
      (o : Option BatchRow)
      → IsFree lease s.batches
      → ClaimsFree (claim_row digest fingerprint allow_admission lease now s o)
  unfolding claim_row
  claim_row-ClaimsFree none free = free
  claim_row-ClaimsFree (some row) free =
      claim_scope-ClaimsFree row
        (find_scope row.key.project_uuid row.key.provider_realm_uuid s.scopes) free

  claim_batch-ClaimsFree :
      (prefer_admission : Bool)
      → IsFree lease s.batches
      → ClaimsFree (claim_batch digest fingerprint allow_admission prefer_admission lease now s)
  unfolding claim_batch
  claim_batch-ClaimsFree prefer_admission free = chosen s.provider_enabled
    where
      candidate : Option BatchRow
      candidate =
          first_by (publishable s allow_admission now) (publish_key prefer_admission) s.batches

      chosen :
          (b : Bool)
          → ClaimsFree (
              if b
              then claim_row digest fingerprint allow_admission lease now s candidate
              else (none, s))
      chosen true = claim_row-ClaimsFree candidate free
      chosen false = free

  -- What a claim hands out is fenced by the lease, and if it hands out nothing the lease is free.
  abbrev pub Fences : Option Item × DeliveryStore → Type 0
  Fences (none, t) = IsFree lease t.batches
  Fences (some item, t) = (item.lease ≡ lease) × IsFenced item.key lease t.batches

  pub claim_batch-Fences :
      (prefer_admission : Bool)
      → IsFree lease s.batches
      → Fences (claim_batch digest fingerprint allow_admission prefer_admission lease now s)
  claim_batch-Fences prefer_admission free =
      known (claim_batch digest fingerprint allow_admission prefer_admission lease now s) refl
    where
      known :
          (p : Option Item × DeliveryStore)
          → claim_batch digest fingerprint allow_admission prefer_admission lease now s ≡ p
          → Fences p
      known (none, t) e = subst ClaimsFree e (claim_batch-ClaimsFree prefer_admission free)
      known (some item, t) e =
          let same =
            claim_batch-lease digest fingerprint allow_admission lease now s t item prefer_admission
              e in
          (
            same,
            subst (λ held. IsFenced item.key held t.batches) same
                (claim_batch-IsFenced digest fingerprint allow_admission lease now s t item
                  prefer_admission free e),
          )
