-- ===== src/Accounts/Backoff.antt =====
-- When an account is tried again after a failure.
use workspace_zulip_bridge.Common.{
  ℕ, ◌+◌, ◌*◌, ◌≤◌, ◌≡◌, refl, sym, ap, subst, ◌∙◌, String, Bool, true, ◌&&◌, ◌||◌, Option, none,
  some, arith, Bool-cases, inl, inr, sql_eq, due, ltb,
}
use workspace_zulip_bridge.Queue.Types.{
  second, Result, ok, value_error, database_error, raised, ◌>>=◌,
}
use workspace_zulip_bridge.Accounts.Breaker.{
  Desired, Breaker, AccountState, reconcile_generation, generation_changed, failure_row,
  failure_limit, failure_desired, fail_breaker, record_failure, current_desired, is_eligible,
  is_ready, is_backoff, current_reset,
}

-- For the draws: random() is at most one.
abbrev pub IsBounded : (ℕ → ℕ) → Type 0
IsBounded random = (limit : ℕ) → random limit ≤ limit

failure_limit_bound : (count : ℕ) → failure_limit count ≤ 300 * second
unfolding failure_limit
failure_limit_bound count = ground arith

row_due :
    (random : ℕ → ℕ) (code : String) (retryable : Bool) (now later : ℕ) (b : Breaker)
    → IsBounded random
    → now + 300 * second ≤ later
    → (let f = failure_row random code retryable now b in
        is_ready f.provider_state
        || (is_backoff f.provider_state && due f.provider_retry_after later))
      ≡ is_backoff (failure_row random code retryable now b).provider_state
unfolding failure_row
row_due random code retryable now later b bounded late = ground (
  arith,
  bounded (failure_limit b.provider_retry_count),
  failure_limit_bound b.provider_retry_count,
)

row_generation :
    (random : ℕ → ℕ) (code : String) (retryable : Bool) (now : ℕ) (b : Breaker)
    → (failure_row random code retryable now b).provider_generation ≡ b.provider_generation
unfolding failure_row
row_generation random code retryable now b = ground arith

generation_changed-desired :
    (generation reset now : ℕ) (s : AccountState)
    → (generation_changed generation reset now s).desired ≡ s.desired
unfolding generation_changed
generation_changed-desired generation reset now s =
    elim (Bool-cases (ltb (current_reset s.breaker) reset)) [
      | inl more ↦ ground arith
      | inr equal ↦ ground arith
    ]

reconcile-desired :
    (generation reset now : ℕ) (s t : AccountState)
    → reconcile_generation generation reset now s ≡ ok t
    → t.desired ≡ s.desired
unfolding reconcile_generation
reconcile-desired generation reset now s t h =
    ground (arith, generation_changed-desired generation reset now s)

current_desired_same :
    (attempted : ℕ) (o : Option Desired) (d : Desired)
    → current_desired attempted o ≡ some d
    → (o ≡ some d) × (current_desired attempted (some d) ≡ some d)
unfolding current_desired
current_desired_same attempted none d h = absurd (cc h)
current_desired_same attempted (some e) d h =
    let same_one : e ≡ d = ground arith in
    (ap some same_one, subst (λ z. current_desired attempted (some z) ≡ some d) same_one h)

-- The breaker of the wanted generation alone decides.
eligible_after :
    (t : AccountState) (later attempted : ℕ) (d : Desired) (b : Breaker)
    → t.desired ≡ some d
    → current_desired attempted (some d) ≡ some d
    → t.breaker ≡ some b
    → sql_eq b.provider_generation (some attempted) ≡ true
    → is_eligible t later ≡ (
        is_ready b.provider_state
        || (is_backoff b.provider_state && due b.provider_retry_after later))
unfolding is_eligible current_desired
eligible_after t later attempted d b wanted current stored generation =
    ground (arith, wanted, current, stored, generation)

-- What the breaker of a recorded failure is.
pub record Recorded (random : ℕ → ℕ) (attempted : ℕ) (code : String) (retryable : Bool) (now : ℕ)
    (s t : AccountState) (b : Breaker) : Type 0 where
  pub desired : Desired
  pub wanted : s.desired ≡ some desired
  pub same_desired : t.desired ≡ s.desired
  pub current : current_desired attempted (some desired) ≡ some desired
  pub before : Breaker
  pub generation : sql_eq before.provider_generation (some attempted) ≡ true
  pub after : b ≡ failure_row random code retryable now before
  pub stored : t.breaker ≡ some b

fail_breaker-stored :
    (random : ℕ → ℕ) (attempted : ℕ) (code : String) (retryable : Bool) (now : ℕ)
    (u t : AccountState) (b : Breaker) (o : Option Breaker)
    → fail_breaker random attempted code retryable now u o ≡ (some b, t)
    → (before : Breaker) × (sql_eq before.provider_generation (some attempted) ≡ true)
      × (b ≡ failure_row random code retryable now before)
      × (t ≡ record u { breaker = some b })
unfolding fail_breaker
fail_breaker-stored random attempted code retryable now u t b none h = absurd (cc (ap (λ z. z.0) h))
fail_breaker-stored random attempted code retryable now u t b (some before) h =
    elim (Bool-cases (sql_eq before.provider_generation (some attempted))) [
      | inl hit ↦
          let k = rw (hit, fail_breaker) at h in
          let e : b ≡ failure_row random code retryable now before =
            ground (arith, ap (λ z. z.0) k) in
          (before, hit, e, rw e (sym (ap (λ z. z.1) k)))
      | inr miss ↦ absurd (cc (ap (λ z. z.0) (rw (miss, fail_breaker) at h)))
    ]

module _ (random : ℕ → ℕ) (attempted : ℕ) (code : String) (retryable : Bool) (now : ℕ)
    (s t : AccountState) (b : Breaker) where
  desired-Recorded :
      (o : Option Desired)
      → current_desired attempted s.desired ≡ o
      → failure_desired random attempted code retryable now s o ≡ ok (some b, t)
      → Recorded random attempted code retryable now s t b
  unfolding failure_desired
  desired-Recorded none e h = absurd (ground (arith, h))
  desired-Recorded (some d) e h =
      bound (reconcile_generation attempted d.projection_reset_generation now s) refl h
    where
      wants : (s.desired ≡ some d) × (current_desired attempted (some d) ≡ some d)
      wants = current_desired_same attempted s.desired d e

      bound :
          (r : Result AccountState)
          → reconcile_generation attempted d.projection_reset_generation now s ≡ r
          → (r >>= λ u. ok (fail_breaker random attempted code retryable now u u.breaker))
            ≡ ok (some b, t)
          → Recorded random attempted code retryable now s t b
      bound (value_error m) e k = absurd (ground (arith, k))
      bound database_error e k = absurd (ground (arith, k))
      bound (raised m) e k = absurd (ground (arith, k))
      bound (ok u) e k =
          let (before, hit, after, t_is) =
            fail_breaker-stored random attempted code retryable now u t b u.breaker
              (ground (arith, k)) in
          record {
            desired = d;
            wanted = wants.0;
            same_desired =
                rw t_is (reconcile-desired attempted d.projection_reset_generation now s u e);
            current = wants.1;
            before = before;
            generation = hit;
            after = after;
            stored = rw t_is refl;
          }

  -- After a failure was recorded, the account is eligible again within 300 seconds where the
  -- breaker is in backoff, and stays ineligible where it waits for authorization: at each time
  -- from then on, for draws of random() that are at most their limit, it is eligible exactly if the
  -- breaker is in backoff.
  pub record_failure_retried :
      (later : ℕ)
      → IsBounded random
      → now + 300 * second ≤ later
      → record_failure random attempted code retryable now s ≡ ok (some b, t)
      → is_eligible t later ≡ is_backoff b.provider_state
  unfolding record_failure
  record_failure_retried later bounded late h =
      let r = desired-Recorded (current_desired attempted s.desired) refl h in
      let named : sql_eq b.provider_generation (some attempted) ≡ true =
        rw (r.after, row_generation random code retryable now r.before) (r.generation) in
      eligible_after t later attempted r.desired b (r.same_desired ∙ r.wanted) r.current r.stored
        named
      ∙ rw (r.after) (row_due random code retryable now later r.before bounded late)
