-- ===== src/Accounts/Invariant.antt =====
-- The CHECK constraints of scheduler_accounts (migrations/0017) and what the code adds to them.
use workspace_zulip_bridge.Common.{
  ℕ, ◌==◌, ◌≡◌, refl, String, Bool, not, ◌&&◌, Option, none, some, arith, inl, inr, Bool-cases,
  is_some, ltb, sql_eq,
}
use workspace_zulip_bridge.Queue.Types.{Result, ok, value_error, database_error, raised, ◌>>=◌}
use workspace_zulip_bridge.Accounts.Breaker.{
  Desired, Breaker, AccountState, is_ready, is_backoff, reconcile_generation, generation_changed,
  failure_row, failure_desired, fail_breaker, record_failure, close_breaker, success_desired,
  succeed_breaker, record_success, current_desired, current_reset, is_unchanged, new_breaker,
  account_at,
}

pub record BreakerIsValid (b : Breaker) : Type 0 where
  -- A time of retry is there exactly in the backoff state.
  pub timed : is_some b.provider_retry_after ≡ is_backoff b.provider_state
  -- A closed breaker has no failures.
  pub closed : is_ready b.provider_state ≡ (b.provider_retry_count == 0)
  -- A code is there exactly after a failure.
  pub coded : is_some b.provider_error_code ≡ not (is_ready b.provider_state)

abbrev pub IsSound : Option Breaker → Type 0
IsSound none = Unit
IsSound (some b) = BreakerIsValid b

abbrev pub IsValid : AccountState → Type 0
IsValid s = IsSound s.breaker

new_breaker-IsValid : (generation reset : ℕ) → BreakerIsValid (new_breaker generation reset)
new_breaker-IsValid generation reset = record { timed = refl; closed = refl; coded = refl }

close_breaker-IsValid : (b : Breaker) → BreakerIsValid (close_breaker b)
close_breaker-IsValid b = record { timed = refl; closed = refl; coded = refl }

failure_row-IsValid :
    (random : ℕ → ℕ) (code : String) (retryable : Bool) (now : ℕ) (b : Breaker)
    → BreakerIsValid b
    → BreakerIsValid (failure_row random code retryable now b)
unfolding failure_row
failure_row-IsValid random code retryable now b v = record {
  timed = ground (arith, v.timed);
  closed = ground (arith, v.closed);
  coded = ground (arith, v.coded);
}

reconcile-IsValid :
    (generation reset now : ℕ) (s t : AccountState)
    → reconcile_generation generation reset now s ≡ ok t
    → IsValid s
    → IsValid t
unfolding reconcile_generation generation_changed
reconcile-IsValid generation reset now s t h v =
    elim (Bool-cases (ltb reset (current_reset s.breaker))) [
      | inl back ↦ absurd (ground arith)
      | inr ahead ↦ elim (Bool-cases (is_unchanged generation reset s.breaker)) [
        | inl kept ↦ let e : s ≡ t = ground arith in rw (← e) v
        | inr changed ↦
            let e : t.breaker ≡ some (new_breaker generation reset) =
              elim (Bool-cases (ltb (current_reset s.breaker) reset)) [
                | inl more ↦ ground arith
                | inr equal ↦ ground arith
              ] in
            rw e (new_breaker-IsValid generation reset)
      ]
    ]

fail_breaker-IsValid :
    (random : ℕ → ℕ) (attempted : ℕ) (code : String) (retryable : Bool) (now : ℕ) (s : AccountState)
    → IsValid s
    → IsValid (fail_breaker random attempted code retryable now s s.breaker).1
unfolding fail_breaker
fail_breaker-IsValid random attempted code retryable now s v = go s.breaker refl v
  where
    go :
        (o : Option Breaker)
        → s.breaker ≡ o
        → IsSound o
        → IsValid (fail_breaker random attempted code retryable now s o).1
    go none e w = rw e w
    go (some b) e w = elim (Bool-cases (sql_eq b.provider_generation (some attempted))) [
      | inl hit ↦ rw (hit, fail_breaker) (failure_row-IsValid random code retryable now b w)
      | inr miss ↦ rw (miss, fail_breaker, e) w
    ]

succeed_breaker-IsValid :
    (attempted : ℕ) (s : AccountState)
    → IsValid s
    → IsValid (succeed_breaker attempted s s.breaker).1
unfolding succeed_breaker
succeed_breaker-IsValid attempted s v = go s.breaker refl v
  where
    go :
        (o : Option Breaker) → s.breaker ≡ o → IsSound o → IsValid (succeed_breaker attempted s o).1
    go none e w = rw e w
    go (some b) e w =
        elim (Bool-cases (
          account_at attempted s.desired
          && sql_eq b.provider_generation (some attempted)
          && is_backoff b.provider_state)) [
            | inl hit ↦ rw (hit, succeed_breaker) (close_breaker-IsValid b)
            | inr miss ↦ rw (miss, succeed_breaker, e) w
          ]

abbrev pub StateIsValid {ℓ} : {A : Type ℓ} → Result (A × AccountState) → Type 0
StateIsValid (ok (a, t)) = IsValid t
StateIsValid _ = Unit

-- Reconciling and then answering: what the two recorders share.
bind-IsValid {ℓ} :
    {A : Type ℓ} (generation reset now : ℕ) (s : AccountState) (f : AccountState → A × AccountState)
    → ((t : AccountState) → IsValid t → IsValid (f t).1)
    → IsValid s
    → (r : Result AccountState) → reconcile_generation generation reset now s ≡ r
    → StateIsValid (r >>= λ t. ok (f t))
bind-IsValid generation reset now s f keeps v (ok t) e =
    keeps t (reconcile-IsValid generation reset now s t e v)
bind-IsValid generation reset now s f keeps v (value_error m) e = tt
bind-IsValid generation reset now s f keeps v database_error e = tt
bind-IsValid generation reset now s f keeps v (raised m) e = tt

-- Whatever failure is recorded, for whatever generation, the row stays valid: it has a time of retry
-- exactly in the backoff state, no failures exactly in the ready state, and an error code exactly in
-- the two others.
pub record_failure-IsValid :
    (random : ℕ → ℕ) (attempted : ℕ) (code : String) (retryable : Bool) (now : ℕ) (s : AccountState)
    → IsValid s
    → StateIsValid (record_failure random attempted code retryable now s)
unfolding record_failure failure_desired
record_failure-IsValid random attempted code retryable now s v =
    go (current_desired attempted s.desired)
  where
    go :
        (o : Option Desired)
        → StateIsValid (failure_desired random attempted code retryable now s o)
    go none = v
    go (some d) =
        bind-IsValid attempted d.projection_reset_generation now s
          (λ t. fail_breaker random attempted code retryable now t t.breaker)
          (fail_breaker-IsValid random attempted code retryable now) v
          (reconcile_generation attempted d.projection_reset_generation now s) refl

-- Recording a success keeps the row valid.
pub record_success-IsValid :
    (attempted now : ℕ) (s : AccountState)
    → IsValid s
    → StateIsValid (record_success attempted now s)
unfolding record_success success_desired
record_success-IsValid attempted now s v = go (current_desired attempted s.desired)
  where
    go : (o : Option Desired) → StateIsValid (success_desired attempted now s o)
    go none = v
    go (some d) =
        bind-IsValid attempted d.projection_reset_generation now s
          (λ t. succeed_breaker attempted t t.breaker) (succeed_breaker-IsValid attempted) v
          (reconcile_generation attempted d.projection_reset_generation now s) refl
