-- ===== src/Delivery/Exclusive.antt =====
-- Claims of the delivery and the leases that run.
use workspace_zulip_bridge.Common.{
  ℕ, String, Bool, true, false, ◌&&◌, Option, none, some, List, [], ◌∷◌, ltb, leb, ◌≡◌, refl, sym,
  subst, ◌∙◌, arith, inl, inr, In, Bool-cases,
}
use workspace_zulip_bridge.Delivery.{BatchRow, Source, Item, DeliveryStore}
use workspace_zulip_bridge.Delivery.Lease.{
  at_key, leased, lease_runs, lease_over, any_batch, claim_batch, is_current,
}
use workspace_zulip_bridge.Delivery.Claims.{claim_batch-IsClaim}

-- PRIMARY KEY (project_uuid, provider_realm_uuid, from_id)
abbrev pub IsKeyed : List BatchRow → Type 0
IsKeyed rows = (a b : BatchRow) → In a rows → In b rows → at_key a.key b ≡ true → a ≡ b

any_batch-In :
    (p : BatchRow → Bool) (rows : List BatchRow)
    → any_batch p rows ≡ true
    → (row : BatchRow) × (In row rows) × (p row ≡ true)
unfolding any_batch
any_batch-In p [] h = absurd (cc h)
any_batch-In p (row ∷ rows) h = elim (Bool-cases (p row)) [
  | inl e ↦ (row, inl refl, e)
  | inr e ↦
      let (found, place, passes) = any_batch-In p rows (rw e at h) in (found, inr place, passes)
]

over-runs : (now until : ℕ) → leb until now ≡ true → ltb now until ≡ true → ⊥
over-runs now until h k = ground (arith, h, k)

-- A lease does not both run and be over.
lease_over-lease_runs :
    (now : ℕ) (o : Option ℕ)
    → (elim o [ none ↦ true | some until ↦ leb until now ]) ≡ true
    → (elim o [ none ↦ false | some until ↦ ltb now until ]) ≡ true
    → ⊥
lease_over-lease_runs now none h k = absurd (cc k)
lease_over-lease_runs now (some until) h k = over-runs now until h k

first_two : (a b c d : Bool) → (a && b && c && d) ≡ true → b ≡ true
first_two a b c d h = ground arith

at_key_of : (a b c : Bool) → ((a && b) && c) ≡ true → (a ≡ true) × (c ≡ true)
at_key_of a b c h = (ground arith, ground arith)

-- Where a key has one batch: while an item is current, no claim hands out its batch to another
-- worker.
pub claim_batch_exclusive :
    (digest : List Source → String) (fingerprint : DeliveryStore → ℕ → ℕ → String)
    (allow_admission prefer_admission : Bool) (lease now : ℕ) (s t : DeliveryStore)
    (item other : Item)
    → IsKeyed s.batches
    → is_current fingerprint item now s ≡ true
    → claim_batch digest fingerprint allow_admission prefer_admission lease now s ≡ (some other, t)
    → ¬ (other.key ≡ item.key)
unfolding is_current
claim_batch_exclusive digest fingerprint allow_admission prefer_admission lease now s t item other
      keyed current h same =
    let (_, (row, scope, place, _, _, _, (_, key, _, _, _))) =
      claim_batch-IsClaim digest fingerprint allow_admission lease now s t other prefer_admission
        h in
    let running =
      first_two s.provider_enabled
        (any_batch (λ b. leased item.key item.lease b && lease_runs now b) s.batches) _ _ current in
    let (held, there, passes) =
      any_batch-In (λ b. leased item.key item.lease b && lease_runs now b) s.batches running in
    let (own, runs) = at_key_of (at_key item.key held) _ (lease_runs now held) passes in
    let one : row ≡ held =
      keyed row held place.0 there (subst (λ k. at_key k held ≡ true) (sym same ∙ key) own) in
    lease_over-lease_runs now held.import_lease_until
      (subst (λ (r : BatchRow). lease_over now r ≡ true) one place.1) runs
