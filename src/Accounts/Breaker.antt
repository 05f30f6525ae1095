-- ===== src/Accounts/Breaker.antt =====
-- RestAlchemyStore._reconcile_provider_account_generation, record_provider_account_failure,
-- record_provider_account_success, provider_account_is_eligible and eligible_account_uuids of
-- storage.py. Every statement names the account, so the state is that of one account: its row of
-- desired_resources, its row of scheduler_accounts (columns of migrations 0017 and 0027), its
-- zulip_backfill_jobs and its row of bridge_health.
use workspace_zulip_bridge.Common.{
  ℕ, suc, ◌+◌, ◌*◌, ◌^◌, min, ◌==◌, ltb, String, Bool, true, false, not, ◌&&◌, ◌||◌, Option, none,
  some, List, [], ◌∷◌, if◌then◌else◌, str_eq, same, due, sql_eq,
}
use workspace_zulip_bridge.Queue.Types.{second, ProviderState, Result, ok, value_error, ◌>>=◌}
use workspace_zulip_bridge.Queue.Lifecycle.{truncate, same_text}

pub record Desired : Type 0 where
  pub generation : ℕ
  pub deleted : Bool
  pub synchronization_enabled : Bool
  pub projection_reset_generation : ℕ

pub record Breaker : Type 0 where
  pub provider_generation : Option ℕ
  pub provider_state : ProviderState
  pub provider_retry_count : ℕ
  pub provider_retry_after : Option ℕ
  pub provider_error_code : Option String
  pub projection_reset_generation : ℕ

pub record BackfillJob : Type 0 where
  pub state : String
  pub next_anchor : Option ℕ
  pub cutoff_at : Option ℕ
  pub lease_until : Option ℕ
  pub available_at : ℕ
  pub retry_count : ℕ
  pub last_error_code : Option String

pub record AccountState : Type 0 where
  pub desired : Option Desired
  pub breaker : Option Breaker
  pub backfill_jobs : List BackfillJob
  -- The component of the account in bridge_health: its status and code.
  pub health : Option (String × Option String)

abbrev pub is_ready : ProviderState → Bool
is_ready ProviderState.ready = true
is_ready _ = false

abbrev pub is_backoff : ProviderState → Bool
is_backoff ProviderState.backoff = true
is_backoff _ = false

abbrev pub is_auth_required : ProviderState → Bool
is_auth_required ProviderState.auth_required = true
is_auth_required _ = false

unfoldable pub map_jobs : (BackfillJob → BackfillJob) → List BackfillJob → List BackfillJob
map_jobs f [] = []
map_jobs f (job ∷ jobs) = f job ∷ map_jobs f jobs

cancel_job : ℕ → BackfillJob → BackfillJob
cancel_job now job = record {
  state = "cancelled";
  next_anchor = none;
  cutoff_at = none;
  lease_until = none;
  available_at = now;
  retry_count = 0;
  last_error_code = none;
}

-- _reset_provider_projection, on the tables of the state.
reset_projection : ℕ → AccountState → AccountState
unfolding map_jobs cancel_job
reset_projection now s = record s {
  backfill_jobs = map_jobs (cancel_job now) s.backfill_jobs;
  health = none;
}

-- Jobs that failed for want of authorization are taken up again.
reauthorize_job : ℕ → BackfillJob → BackfillJob
reauthorize_job now job =
    if str_eq job.state "failed"
      && (same_text job.last_error_code "unauthorized"
          || same_text job.last_error_code "unauthorized_account")
    then record job {
      state = "pending";
      lease_until = none;
      available_at = now;
      retry_count = 0;
      last_error_code = none;
    }
    else job

abbrev pub current_reset : Option Breaker → ℕ
current_reset none = 0
current_reset (some b) = b.projection_reset_generation

abbrev pub is_unchanged : ℕ → ℕ → Option Breaker → Bool
is_unchanged generation reset none = false
is_unchanged generation reset (some b) =
    same b.provider_generation (some generation) && b.projection_reset_generation == reset

abbrev pub new_breaker : ℕ → ℕ → Breaker
new_breaker generation reset = record {
  provider_generation = some generation;
  provider_state = ProviderState.ready;
  provider_retry_count = 0;
  provider_retry_after = none;
  provider_error_code = none;
  projection_reset_generation = reset;
}

-- The statements behind a row that the INSERT … ON CONFLICT changed.
unfoldable pub generation_changed : ℕ → ℕ → ℕ → AccountState → AccountState
unfolding reset_projection reauthorize_job map_jobs
generation_changed generation reset now s =
    let changed : AccountState = record s { breaker = some (new_breaker generation reset) } in
    let t = if ltb (current_reset s.breaker) reset then reset_projection now changed else changed in
    record t { backfill_jobs = map_jobs (reauthorize_job now) t.backfill_jobs; health = none }

unfoldable pub reconcile_generation : ℕ → ℕ → ℕ → AccountState → Result AccountState
unfolding generation_changed
reconcile_generation generation reset now s =
    if ltb reset (current_reset s.breaker)
    then value_error "Projection reset generation moved backwards"
    else if is_unchanged generation reset s.breaker
    then ok s
    else ok (generation_changed generation reset now s)

-- SELECT … FROM desired_resources WHERE generation = the attempted one … FOR UPDATE
unfoldable pub current_desired : ℕ → Option Desired → Option Desired
current_desired attempted none = none
current_desired attempted (some d) =
    if d.generation == attempted && not d.deleted && d.synchronization_enabled then some d else none

-- LEAST(300, 2 ^ LEAST(provider_retry_count, 8)) seconds
unfoldable pub failure_limit : ℕ → ℕ
failure_limit count = min 300 (2 ^ min count 8) * second

-- The SET clause of a failure; `random` draws random() times its argument.
unfoldable pub failure_row : (ℕ → ℕ) → String → Bool → ℕ → Breaker → Breaker
unfolding failure_limit
failure_row random code retryable now b =
    if is_auth_required b.provider_state
    then record b { provider_retry_count = suc b.provider_retry_count; provider_retry_after = none }
    else record b {
      provider_state = if retryable then ProviderState.backoff else ProviderState.auth_required;
      provider_retry_count = suc b.provider_retry_count;
      provider_retry_after =
          if retryable then some (now + random (failure_limit b.provider_retry_count)) else none;
      provider_error_code = some (truncate 128 code);
    }

unfoldable pub fail_breaker :
    (ℕ → ℕ) → ℕ → String → Bool → ℕ → AccountState → Option Breaker → Option Breaker × AccountState
unfolding failure_row
fail_breaker random attempted code retryable now s none = (none, s)
fail_breaker random attempted code retryable now s (some b) =
    if sql_eq b.provider_generation (some attempted)
    then (let failed = failure_row random code retryable now b in
        (some failed, record s { breaker = some failed }))
    else (none, s)

unfoldable pub failure_desired :
    (ℕ → ℕ)
    → ℕ
    → String
    → Bool
    → ℕ
    → AccountState
    → Option Desired
    → Result (Option Breaker × AccountState)
unfolding reconcile_generation fail_breaker
failure_desired random attempted code retryable now s none = ok (none, s)
failure_desired random attempted code retryable now s (some d) = do
  t ← reconcile_generation attempted d.projection_reset_generation now s
  ok (fail_breaker random attempted code retryable now t t.breaker)

unfoldable pub record_failure :
    (ℕ → ℕ) → ℕ → String → Bool → ℕ → AccountState → Result (Option Breaker × AccountState)
unfolding failure_desired current_desired
record_failure random attempted code retryable now s =
    failure_desired random attempted code retryable now s (current_desired attempted s.desired)

abbrev pub close_breaker : Breaker → Breaker
close_breaker b = record b {
  provider_state = ProviderState.ready;
  provider_retry_count = 0;
  provider_retry_after = none;
  provider_error_code = none;
}

-- FROM desired_resources AS account: the account is not deleted and has the attempted generation.
abbrev pub account_at : ℕ → Option Desired → Bool
account_at attempted none = false
account_at attempted (some d) = not d.deleted && d.generation == attempted

unfoldable pub succeed_breaker : ℕ → AccountState → Option Breaker → Option Bool × AccountState
succeed_breaker attempted s none = (some false, s)
succeed_breaker attempted s (some b) =
    if account_at attempted s.desired
      && sql_eq b.provider_generation (some attempted)
      && is_backoff b.provider_state
    then (some true, record s { breaker = some (close_breaker b); health = none })
    else (some false, s)

unfoldable pub success_desired :
    ℕ → ℕ → AccountState → Option Desired → Result (Option Bool × AccountState)
unfolding reconcile_generation succeed_breaker
success_desired attempted now s none = ok (none, s)
success_desired attempted now s (some d) = do
  t ← reconcile_generation attempted d.projection_reset_generation now s
  ok (succeed_breaker attempted t t.breaker)

unfoldable pub record_success : ℕ → ℕ → AccountState → Result (Option Bool × AccountState)
unfolding success_desired current_desired
record_success attempted now s =
    success_desired attempted now s (current_desired attempted s.desired)

-- The breaker permits work of the generation.
abbrev pub permits : ℕ → ℕ → Option Breaker → Bool
permits generation now none = true
permits generation now (some b) =
    not (same b.provider_generation (some generation))
    || is_ready b.provider_state
    || (is_backoff b.provider_state && due b.provider_retry_after now)

unfoldable pub is_eligible : AccountState → ℕ → Bool
is_eligible s now = elim s.desired [
  | none ↦ false
  | some d ↦ not d.deleted && d.synchronization_enabled && permits d.generation now s.breaker
]

-- The UUIDs of the eligible accounts, in order; nothing while the provider is disabled.
unfoldable pub eligible_account_uuids : Bool → List (ℕ × AccountState) → ℕ → List ℕ
unfolding is_eligible
eligible_account_uuids enabled [] now = []
eligible_account_uuids enabled ((uuid, s) ∷ rest) now =
    let others = eligible_account_uuids enabled rest now in
    if enabled && is_eligible s now then uuid ∷ others else others
