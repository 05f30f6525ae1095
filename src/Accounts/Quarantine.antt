-- ===== src/Accounts/Quarantine.antt =====
-- An account that Zulip refused: no request of the same generation opens it again.
use workspace_zulip_bridge.Common.{
  ℕ, ==_refl, ◌≡◌, refl, sym, subst, ap, String, Bool, false, ◌&&◌, Option, none, some, arith,
  Bool-cases, inl, inr, sql_eq,
}
use workspace_zulip_bridge.Queue.Types.{ProviderState, ok}
use workspace_zulip_bridge.Accounts.Breaker.{
  Desired, Breaker, AccountState, reconcile_generation, failure_row, failure_desired, fail_breaker,
  record_failure, success_desired, succeed_breaker, record_success, current_desired, is_eligible,
  is_backoff, account_at,
}

-- The outcome of one request of the account, as the service records it.
pub data Step (random : ℕ → ℕ) (s : AccountState) : AccountState → Type 0 where
  fails :
      (t : AccountState) (attempted : ℕ) (code : String) (retryable : Bool) (now : ℕ)
      (recorded : Option Breaker)
      → record_failure random attempted code retryable now s ≡ ok (recorded, t)
      → Step random s t
  succeeds :
      (t : AccountState) (attempted now : ℕ) (closed : Option Bool)
      → record_success attempted now s ≡ ok (closed, t)
      → Step random s t

pub data Reach (random : ℕ → ℕ) (s : AccountState) : AccountState → Type 0 where
  here : Reach random s s
  next : {t u : AccountState} → Reach random s t → Step random t u → Reach random s u

-- The row waits for authorization in the generation and the reset generation that Workspace wants.
pub record IsQuarantined (d : Desired) (code : Option String) (s : AccountState) : Type 0 where
  pub breaker : Breaker
  pub wanted : s.desired ≡ some d
  pub present : s.breaker ≡ some breaker
  pub generation : breaker.provider_generation ≡ some d.generation
  pub reset : breaker.projection_reset_generation ≡ d.projection_reset_generation
  pub waits : breaker.provider_state ≡ ProviderState.auth_required
  pub coded : breaker.provider_error_code ≡ code

reconcile_quarantined :
    (d : Desired) (code : Option String) (s : AccountState) (now : ℕ)
    → IsQuarantined d code s
    → reconcile_generation d.generation d.projection_reset_generation now s ≡ ok s
unfolding reconcile_generation
reconcile_quarantined d code s now q =
    ground (arith, q.present, q.generation, q.reset, ==_refl d.generation)

desired_is :
    (attempted : ℕ) (d e : Desired)
    → current_desired attempted (some d) ≡ some e
    → (e ≡ d) × (d.generation ≡ attempted)
unfolding current_desired
desired_is attempted d e h = (ground arith, ground arith)

fail-IsQuarantined :
    (random : ℕ → ℕ) (d : Desired) (kept : Option String) (attempted : ℕ) (code : String)
    (retryable : Bool) (now : ℕ) (s t : AccountState) (recorded : Option Breaker)
    → IsQuarantined d kept s
    → fail_breaker random attempted code retryable now s s.breaker ≡ (recorded, t)
    → IsQuarantined d kept t
unfolding fail_breaker failure_row
fail-IsQuarantined random d kept attempted code retryable now s t recorded q h =
    elim (Bool-cases (sql_eq (q.breaker.provider_generation) (some attempted))) [
      | inl hit ↦
          let e : t ≡ record s { breaker = some failed } =
            sym (ap (λ z. z.1) (rw (q.present, hit, fail_breaker) at h)) in
          rw e (record {
            breaker = failed;
            wanted = q.wanted;
            present = refl;
            generation = ground (arith, q.generation);
            reset = ground (arith, q.reset);
            waits = ground (arith, q.waits);
            coded = ground (arith, q.waits, q.coded);
          })
      | inr miss ↦
          let e : t ≡ s = sym (ap (λ z. z.1) (rw (q.present, miss, fail_breaker) at h)) in rw e q
    ]
  where
    failed : Breaker
    failed = failure_row random code retryable now q.breaker

succeed-IsQuarantined :
    (d : Desired) (kept : Option String) (attempted : ℕ) (s t : AccountState) (closed : Option Bool)
    → IsQuarantined d kept s
    → succeed_breaker attempted s s.breaker ≡ (closed, t)
    → IsQuarantined d kept t
unfolding succeed_breaker
succeed-IsQuarantined d kept attempted s t closed q h =
    let shut : (account_at attempted s.desired
          && sql_eq (q.breaker.provider_generation) (some attempted)
          && is_backoff (q.breaker.provider_state))
        ≡ false =
      ground (arith, q.waits) in
    let e : t ≡ s = sym (ap (λ z. z.1) (rw (q.present, shut, succeed_breaker) at h)) in rw e q

-- What a recorder does, where the account is quarantined: the generation is not reconciled.
record_failure-IsQuarantined :
    (random : ℕ → ℕ) (d : Desired) (kept : Option String) (attempted : ℕ) (code : String)
    (retryable : Bool) (now : ℕ) (s t : AccountState) (recorded : Option Breaker)
    → IsQuarantined d kept s
    → record_failure random attempted code retryable now s ≡ ok (recorded, t)
    → IsQuarantined d kept t
unfolding record_failure failure_desired
record_failure-IsQuarantined random d kept attempted code retryable now s t recorded q h =
    go (current_desired attempted s.desired) refl h
  where
    go :
        (o : Option Desired)
        → current_desired attempted s.desired ≡ o
        → failure_desired random attempted code retryable now s o ≡ ok (recorded, t)
        → IsQuarantined d kept t
    go none e k = subst (IsQuarantined d kept) (ground (arith, k)) q
    go (some f) e k =
        let (f_is, attempted_is) = desired_is attempted d f (rw (q.wanted) at e) in
        let same_now : reconcile_generation attempted f.projection_reset_generation now s ≡ ok s =
          rw (← attempted_is, f_is) (reconcile_quarantined d kept s now q) in
        fail-IsQuarantined random d kept attempted code retryable now s t recorded q
          (ground (arith, rw (same_now, failure_desired) at k))

record_success-IsQuarantined :
    (d : Desired) (kept : Option String) (attempted now : ℕ) (s t : AccountState)
    (closed : Option Bool)
    → IsQuarantined d kept s
    → record_success attempted now s ≡ ok (closed, t)
    → IsQuarantined d kept t
unfolding record_success success_desired
record_success-IsQuarantined d kept attempted now s t closed q h =
    go (current_desired attempted s.desired) refl h
  where
    go :
        (o : Option Desired)
        → current_desired attempted s.desired ≡ o
        → success_desired attempted now s o ≡ ok (closed, t)
        → IsQuarantined d kept t
    go none e k = subst (IsQuarantined d kept) (ground (arith, k)) q
    go (some f) e k =
        let (f_is, attempted_is) = desired_is attempted d f (rw (q.wanted) at e) in
        let same_now : reconcile_generation attempted f.projection_reset_generation now s ≡ ok s =
          rw (← attempted_is, f_is) (reconcile_quarantined d kept s now q) in
        succeed-IsQuarantined d kept attempted s t closed q
          (ground (arith, rw (same_now, success_desired) at k))

Reach-IsQuarantined :
    (random : ℕ → ℕ) (d : Desired) (code : Option String) {s t : AccountState}
    → Reach random s t
    → IsQuarantined d code s
    → IsQuarantined d code t
Reach-IsQuarantined random d code here q = q
Reach-IsQuarantined random d code (next r (fails t attempted c retryable now recorded h)) q =
    record_failure-IsQuarantined random d code attempted c retryable now _ t recorded
      (Reach-IsQuarantined random d code r q) h
Reach-IsQuarantined random d code (next r (succeeds t attempted now closed h)) q =
    record_success-IsQuarantined d code attempted now _ t closed
      (Reach-IsQuarantined random d code r q) h

quarantined_idle :
    (d : Desired) (code : Option String) (s : AccountState) (now : ℕ)
    → IsQuarantined d code s
    → is_eligible s now ≡ false
unfolding is_eligible
quarantined_idle d code s now q =
    ground (arith, q.wanted, q.present, q.generation, q.waits, ==_refl d.generation)

-- Once an account waits for authorization in the generation that Workspace wants, no sequence of
-- recorded failures and successes, of whatever generations and at whatever times, makes it eligible
-- again or replaces the error code that put it there.
pub Reach-quarantine :
    (random : ℕ → ℕ) (d : Desired) (code : Option String) (now : ℕ) {s t : AccountState}
    → Reach random s t
    → IsQuarantined d code s
    → IsQuarantined d code t × (is_eligible t now ≡ false)
Reach-quarantine random d code now {s} {t} r q =
    let held = Reach-IsQuarantined random d code r q in (held, quarantined_idle d code t now held)
