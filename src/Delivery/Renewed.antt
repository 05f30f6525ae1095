-- ===== src/Delivery/Renewed.antt =====
-- What a renewal of a lease of the delivery gives its holder.
use workspace_zulip_bridge.Common.{
  ℕ, ◌+◌, ◌*◌, String, Bool, true, not, ◌&&◌, ◌==◌, Option, none, some, List, [], ◌∷◌, str_eq, ltb,
  ◌≡◌, refl, ap, ◌∙◌, arith, update_where,
}
use workspace_zulip_bridge.Queue.Types.{second}
use workspace_zulip_bridge.Delivery.{
  BatchKey, BatchRow, Scope, Item, DeliveryStore, sources_for, sources_only,
}
use workspace_zulip_bridge.Delivery.Lease.{
  leased, lease_runs, find_scope, set_batches, scope_current, same_sources, any_batch, is_current,
  renew_lease,
}

any_batch-renewed :
    (key : BatchKey) (lease now later : ℕ) (rows : List BatchRow)
    → ltb later (now + 120 * second) ≡ true
    → any_batch (λ b. leased key lease b && lease_runs now b) rows ≡ true
    → any_batch
        (λ b. leased key lease b && lease_runs later b)
        (update_where
          (λ b. leased key lease b && lease_runs now b)
          (λ b. record b { import_lease_until = some (now + 120 * second) })
          rows)
      ≡ true
unfolding any_batch update_where
any_batch-renewed key lease now later [] soon h = h
any_batch-renewed key lease now later (b ∷ rows) soon h =
    ground (arith, soon, h, any_batch-renewed key lease now later rows soon)

parts :
    (a b c d : Bool) → (a && b && c && d) ≡ true → (a ≡ true) × (b ≡ true) × (c ≡ true) × (d ≡ true)
parts a b c d h = (ground arith, ground arith, ground arith, ground arith)

whole : (a b c d : Bool) → a ≡ true → b ≡ true → c ≡ true → d ≡ true → (a && b && c && d) ≡ true
whole a b c d h i j k = rw (h, i, j, k) refl

module _ (fingerprint : DeliveryStore → ℕ → ℕ → String)
    (blind : (u : DeliveryStore) (batches : List BatchRow) (project realm : ℕ)
      → fingerprint (record u { batches = batches }) project realm
        ≡ fingerprint u project realm) where
  scope_current-batches :
      (s : DeliveryStore) (item : Item) (batches : List BatchRow) (o : Option Scope)
      → scope_current fingerprint (record s { batches = batches }) item o
        ≡ scope_current fingerprint s item o
  scope_current-batches s item batches none = refl
  scope_current-batches s item batches (some scope) =
      ap
        (λ print.
          not scope.directory_pending
          && scope.generation == item.generation
          && str_eq scope.fingerprint print)
        (blind s batches item.key.project_uuid item.key.provider_realm_uuid)

  renewed_is_current :
      (item : Item) (now later : ℕ) (s : DeliveryStore)
      → is_current fingerprint item now s ≡ true
      → ltb later (now + 120 * second) ≡ true
      → (any_batch (λ b. leased item.key item.lease b && lease_runs now b) s.batches ≡ true)
        × (is_current fingerprint item later (
              set_batches
                (λ b. leased item.key item.lease b && lease_runs now b)
                (λ b. record b { import_lease_until = some (now + 120 * second) })
                s)
            ≡ true)
  unfolding is_current sources_for
  renewed_is_current item now later s current soon =
      let running : BatchRow → Bool = λ b. leased item.key item.lease b && lease_runs now b in
      let batches =
        update_where running (λ b. record b { import_lease_until = some (now + 120 * second) })
          s.batches in
      let scope = find_scope item.key.project_uuid item.key.provider_realm_uuid s.scopes in
      let fresh =
        same_sources item.sources
          (sources_only (sources_for s item.key.project_uuid item.key.provider_realm_uuid)) in
      let (enabled, own, arrived, same) =
        parts s.provider_enabled (any_batch running s.batches)
          (scope_current fingerprint s item scope) fresh current in
      (
        own,
        whole s.provider_enabled
            (any_batch (λ b. leased item.key item.lease b && lease_runs later b) batches)
            (scope_current fingerprint (record s { batches = batches }) item scope) fresh enabled
            (any_batch-renewed item.key item.lease now later s.batches soon own)
            (scope_current-batches s item batches scope ∙ arrived) same,
      )

  -- Where the fingerprint of a scope does not depend on its batches: the renewal of a current item
  -- succeeds, and the item is current from then on for less than 120 seconds, as long as nothing
  -- else happens.
  pub renew_lease-is_current :
      (item : Item) (now later : ℕ) (s : DeliveryStore)
      → is_current fingerprint item now s ≡ true
      → ltb later (now + 120 * second) ≡ true
      → ((renew_lease fingerprint item now s).0 ≡ true)
        × (is_current fingerprint item later (renew_lease fingerprint item now s).1 ≡ true)
  unfolding renew_lease
  renew_lease-is_current item now later s current soon =
      rw current (renewed_is_current item now later s current soon)
