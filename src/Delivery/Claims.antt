-- ===== src/Delivery/Claims.antt =====
-- What a claim of the delivery hands out.
use workspace_zulip_bridge.Common.{
  ℕ, ◌+◌, ◌*◌, String, Bool, true, false, not, ◌&&◌, ◌||◌, Option, none, some, List, [], ◌∷◌,
  str_eq, ltb, leb, if◌then◌else◌, ◌≡◌, refl, sym, ap, ◌∙◌, arith, ==_refl, Bool-cases, inl, inr,
  All-update_where, In, update_where,
}
use workspace_zulip_bridge.Common.Select.{first_by, first_by-In}
use workspace_zulip_bridge.Queue.Types.{second}
use workspace_zulip_bridge.Queue.Lifecycle.{same_text}
use workspace_zulip_bridge.Delivery.{
  BatchKey, BatchRow, Scope, Source, Item, DeliveryStore, sources_for, sources_only, max_sources,
}
use workspace_zulip_bridge.Delivery.Lease.{
  at_key, holds, leased, lease_runs, lease_over, find_scope, set_batches, has_incomplete, is_none,
  longer_than, is_registered, is_open_scope, is_pending, lease_row, claim_sources, claim_scope,
  claim_row, claim_batch, publishable, publish_key, same_sources, scope_current, any_batch,
  is_current,
}
use workspace_zulip_bridge.Delivery.Fenced.{IsFree, IsFenced}

fourth : (a b c d e : Bool) → (a && b && c && d && e) ≡ true → d ≡ true
fourth a b c d e h = ground arith

publishable-lease_over :
    (s : DeliveryStore) (allow_admission : Bool) (now : ℕ) (row : BatchRow)
    → publishable s allow_admission now row ≡ true
    → lease_over now row ≡ true
unfolding publishable
publishable-lease_over s allow_admission now row h =
    fourth (is_open_scope (find_scope row.key.project_uuid row.key.provider_realm_uuid s.scopes))
      (is_pending row.import_status) (leb row.import_retry_at now) (lease_over now row)
      (allow_admission || is_registered row.import_uuid) h

module _ (digest : List Source → String) (fingerprint : DeliveryStore → ℕ → ℕ → String)
    (allow_admission : Bool) (lease now : ℕ) (s t : DeliveryStore) (item : Item) where
  -- How an item and the store behind it come from a row and its scope.
  abbrev IsClaimOf : BatchRow → Scope → List (Source × Option String) → Type 0
  IsClaimOf row scope sources =
      (t
        ≡ set_batches (at_key row.key)
            (lease_row digest fingerprint lease (digest (sources_only sources)) now) s)
      × (item.key ≡ row.key)
      × (item.lease ≡ lease)
      × (item.generation ≡ scope.generation)
      × (item.sources ≡ sources_only sources)

  claim_sources-IsClaimOf :
      (row : BatchRow) (scope : Scope) (sources : List (Source × Option String))
      → claim_sources digest fingerprint allow_admission lease now s scope row sources
        ≡ (some item, t)
      → IsClaimOf row scope sources
  unfolding claim_sources
  claim_sources-IsClaimOf row scope sources h =
      elim (Bool-cases
        (not (longer_than max_sources sources) && (is_none sources || has_incomplete sources))) [
          | inl e ↦ absurd (cc (rw e at h))
          | inr e ↦
              elim (Bool-cases (
                not allow_admission
                && not (
                    is_registered (
                      if same_text row.import_sources_hash (digest (sources_only sources))
                      then row.import_uuid
                      else none)))) [
                        | inl f ↦ absurd (cc (rw (e, f) at h))
                        | inr f ↦ let k = rw (e, f) at h in (cc k, cc k, cc k, cc k, cc k)
                      ]
        ]

  abbrev IsClaim : Type 0
  IsClaim =
      (row : BatchRow) × (scope : Scope) × ((In row s.batches) × (lease_over now row ≡ true))
      × (find_scope row.key.project_uuid row.key.provider_realm_uuid s.scopes ≡ some scope)
      × (scope.directory_pending ≡ false)
      × (str_eq scope.fingerprint (fingerprint s row.key.project_uuid row.key.provider_realm_uuid)
          ≡ true)
      × IsClaimOf row scope (sources_for s row.key.project_uuid row.key.provider_realm_uuid)

  claim_scope-IsClaim :
      (row : BatchRow) (o : Option Scope)
      → (In row s.batches) × (lease_over now row ≡ true)
      → find_scope row.key.project_uuid row.key.provider_realm_uuid s.scopes ≡ o
      → claim_scope digest fingerprint allow_admission lease now s row o ≡ (some item, t)
      → IsClaim
  unfolding claim_scope
  claim_scope-IsClaim row none place e h = absurd (cc h)
  claim_scope-IsClaim row (some scope) place e h =
      elim (Bool-cases (
        scope.directory_pending
        || not (
            str_eq scope.fingerprint
              (fingerprint s row.key.project_uuid row.key.provider_realm_uuid)))) [
                | inl f ↦ absurd (cc (rw f at h))
                | inr f ↦ (
                  row,
                  scope,
                  place,
                  e,
                  ground (arith, f),
                  ground (arith, f),
                  claim_sources-IsClaimOf row scope
                      (sources_for s row.key.project_uuid row.key.provider_realm_uuid) (rw f at h),
                )
              ]

  claim_row-IsClaim :
      (o : Option BatchRow)
      → ((row : BatchRow) → o ≡ some row → (In row s.batches) × (lease_over now row ≡ true))
      → claim_row digest fingerprint allow_admission lease now s o ≡ (some item, t)
      → IsClaim
  unfolding claim_row
  claim_row-IsClaim none place h = absurd (cc h)
  claim_row-IsClaim (some row) place h =
      claim_scope-IsClaim row (find_scope row.key.project_uuid row.key.provider_realm_uuid s.scopes)
        (place row refl) refl h

  pub claim_batch-IsClaim :
      (prefer_admission : Bool)
      → claim_batch digest fingerprint allow_admission prefer_admission lease now s ≡ (some item, t)
      → (s.provider_enabled ≡ true) × IsClaim
  unfolding claim_batch
  claim_batch-IsClaim prefer_admission h = go s.provider_enabled refl h
    where
      candidate : Option BatchRow
      candidate =
          first_by (publishable s allow_admission now) (publish_key prefer_admission) s.batches

      go :
          (b : Bool)
          → s.provider_enabled ≡ b
          → (if b
              then claim_row digest fingerprint allow_admission lease now s candidate
              else (none, s))
            ≡ (some item, t)
          → (s.provider_enabled ≡ true) × IsClaim
      go true e k = (
        e,
        claim_row-IsClaim candidate
            (λ row f.
              let (place, passes) =
                first_by-In (publishable s allow_admission now) (publish_key prefer_admission)
                  s.batches row f in
              (place, publishable-lease_over s allow_admission now row passes))
            k,
      )
      go false e k = absurd (cc k)

  -- A claim with a lease that no batch held fences the batch of its item.
  pub claim_batch-IsFenced :
      (prefer_admission : Bool)
      → IsFree lease s.batches
      → claim_batch digest fingerprint allow_admission prefer_admission lease now s ≡ (some item, t)
      → IsFenced item.key item.lease t.batches
  unfolding lease_row
  claim_batch-IsFenced prefer_admission free h =
      let (_, (row, scope, _, _, _, _, (e, key, held, _, _))) =
        claim_batch-IsClaim prefer_admission h in
      rw (e, key, held)
        (All-update_where (λ b. holds lease b ≡ false)
          (λ b. (holds lease b && not (at_key row.key b)) ≡ false) (at_key row.key)
          (lease_row digest fingerprint lease
            (digest (sources_only (sources_for s row.key.project_uuid row.key.provider_realm_uuid)))
            now)
          (λ b k f. ground (arith, f)) (λ b k f. ground (arith, k)) s.batches free)

  pub claim_batch-lease :
      (prefer_admission : Bool)
      → claim_batch digest fingerprint allow_admission prefer_admission lease now s ≡ (some item, t)
      → item.lease ≡ lease
  claim_batch-lease prefer_admission h =
      let (_, (row, scope, _, _, _, _, (e, key, held, _, _))) =
        claim_batch-IsClaim prefer_admission h in
      held

same_sources_refl : (sources : List Source) → same_sources sources sources ≡ true
same_sources_refl [] = refl
same_sources_refl (a ∷ sources) = ground (arith, same_sources_refl sources)

leased_row :
    (digest : List Source → String) (fingerprint : DeliveryStore → ℕ → ℕ → String) (lease now : ℕ)
    (hash : String) (row : BatchRow) (later : ℕ) (rows : List BatchRow)
    → ltb later (now + 120 * second) ≡ true
    → In row rows
    → any_batch
        (λ b. leased row.key lease b && lease_runs later b)
        (update_where (at_key row.key) (lease_row digest fingerprint lease hash now) rows)
      ≡ true
unfolding any_batch update_where lease_row
leased_row digest fingerprint lease now hash row later [] h i = elim i [ ]
leased_row digest fingerprint lease now hash row later (b ∷ rows) h (inl e) =
    rw⁻¹ e (ground (arith, h))
leased_row digest fingerprint lease now hash row later (b ∷ rows) h (inr i) =
    ground (arith, leased_row digest fingerprint lease now hash row later rows h i)

four : (a b c d : Bool) → a ≡ true → b ≡ true → c ≡ true → d ≡ true → (a && b && c && d) ≡ true
four a b c d h i j k = rw (h, i, j, k) refl

scope_current_again :
    (fingerprint : DeliveryStore → ℕ → ℕ → String) (u : DeliveryStore) (item : Item) (scope : Scope)
    → scope.directory_pending ≡ false
    → item.generation ≡ scope.generation
    → str_eq scope.fingerprint (fingerprint u item.key.project_uuid item.key.provider_realm_uuid)
      ≡ true
    → scope_current fingerprint u item (some scope) ≡ true
scope_current_again fingerprint u item scope h i j = rw (h, i, j, ==_refl scope.generation) refl

-- The row, its scope and its sources as `is_current` reads them.
current_parts :
    (fingerprint : DeliveryStore → ℕ → ℕ → String) (u : DeliveryStore) (item : Item)
    (row : BatchRow) (scope : Scope) (later : ℕ)
    → item.key ≡ row.key
    → u.provider_enabled ≡ true
    → any_batch (λ b. leased row.key item.lease b && lease_runs later b) u.batches ≡ true
    → find_scope row.key.project_uuid row.key.provider_realm_uuid u.scopes ≡ some scope
    → scope.directory_pending ≡ false
    → item.generation ≡ scope.generation
    → str_eq scope.fingerprint (fingerprint u row.key.project_uuid row.key.provider_realm_uuid)
      ≡ true
    → item.sources ≡ sources_only (sources_for u row.key.project_uuid row.key.provider_realm_uuid)
    → is_current fingerprint item later u ≡ true
unfolding is_current
current_parts fingerprint u item row scope later key enabled running found arrived generation
      printed sources =
    let here : find_scope item.key.project_uuid item.key.provider_realm_uuid u.scopes ≡ some scope =
      ap (λ (k : BatchKey). find_scope k.project_uuid k.provider_realm_uuid u.scopes) key ∙ found in
    let same_print : str_eq scope.fingerprint
          (fingerprint u item.key.project_uuid item.key.provider_realm_uuid)
        ≡ true =
      ap
        (λ (k : BatchKey).
          str_eq scope.fingerprint (fingerprint u k.project_uuid k.provider_realm_uuid))
        key
      ∙ printed in
    let own : any_batch (λ b. leased item.key item.lease b && lease_runs later b) u.batches ≡ true =
      ap (λ (k : BatchKey). any_batch (λ b. leased k item.lease b && lease_runs later b) u.batches)
        key
      ∙ running in
    let fresh : same_sources item.sources
          (sources_only (sources_for u item.key.project_uuid item.key.provider_realm_uuid))
        ≡ true =
      ap
        (λ (k : BatchKey).
          same_sources item.sources
            (sources_only (sources_for u k.project_uuid k.provider_realm_uuid)))
        key
      ∙ ap (λ (other : List Source). same_sources item.sources other) (sym sources)
      ∙ same_sources_refl item.sources in
    four u.provider_enabled
      (any_batch (λ b. leased item.key item.lease b && lease_runs later b) u.batches)
      (scope_current fingerprint u item
        (find_scope item.key.project_uuid item.key.provider_realm_uuid u.scopes))
      (same_sources item.sources
        (sources_only (sources_for u item.key.project_uuid item.key.provider_realm_uuid)))
      enabled own
      (ap (scope_current fingerprint u item) here
        ∙ scope_current_again fingerprint u item scope arrived generation same_print)
      fresh

-- Where the fingerprint of a scope does not depend on its batches: an item that is claimed is
-- current from then on for less than 120 seconds, as long as nothing else happens.
pub claim_batch-is_current :
    (digest : List Source → String) (fingerprint : DeliveryStore → ℕ → ℕ → String)
    → ((u : DeliveryStore) (batches : List BatchRow) (project realm : ℕ)
        → fingerprint (record u { batches = batches }) project realm ≡ fingerprint u project realm)
    → (allow_admission prefer_admission : Bool) (lease now later : ℕ) (s t : DeliveryStore)
      (item : Item)
    → claim_batch digest fingerprint allow_admission prefer_admission lease now s ≡ (some item, t)
    → ltb later (now + 120 * second) ≡ true
    → is_current fingerprint item later t ≡ true
unfolding is_current sources_for
claim_batch-is_current digest fingerprint blind allow_admission prefer_admission lease now later s t
      item h soon =
    let (
      enabled,
      (row, scope, place, found, arrived, printed, (e, key, held, generation, sources)),
    ) =
      claim_batch-IsClaim digest fingerprint allow_admission lease now s t item prefer_admission
        h in
    let hash =
      digest (sources_only (sources_for s row.key.project_uuid row.key.provider_realm_uuid)) in
    let claimed = set_batches (at_key row.key) (lease_row digest fingerprint lease hash now) s in
    let running =
      ap (λ held. any_batch (λ b. leased row.key held b && lease_runs later b) claimed.batches) held
      ∙ leased_row digest fingerprint lease now hash row later s.batches soon place.0 in
    let printed_again =
      ap (str_eq scope.fingerprint)
        (blind s claimed.batches row.key.project_uuid row.key.provider_realm_uuid)
      ∙ printed in
    ap (is_current fingerprint item later) e
    ∙ current_parts fingerprint claimed item row scope later key enabled running found arrived
        generation printed_again sources
