-- ===== src/Accounts/Tests.antt =====
-- The theorems of the breaker at one account.
use workspace_zulip_bridge.Common.{◌≡◌, refl, true, false, none, some, [], arith}
use workspace_zulip_bridge.Queue.Types.{ProviderState}
use workspace_zulip_bridge.Accounts.Breaker.{
  Desired, Breaker, AccountState, record_failure, record_success, is_eligible, is_backoff,
  failure_row,
}
use workspace_zulip_bridge.Accounts.Invariant.{
  StateIsValid, record_failure-IsValid, record_success-IsValid,
}
use workspace_zulip_bridge.Accounts.Quarantine.{
  here, next, succeeds, IsQuarantined, Reach-quarantine,
}
use workspace_zulip_bridge.Accounts.Backoff.{record_failure_retried}

abbrev wanted : Desired
wanted = record {
  generation = 4;
  deleted = false;
  synchronization_enabled = true;
  projection_reset_generation = 0;
}

abbrev refused : Breaker
refused = record {
  provider_generation = some 4;
  provider_state = ProviderState.auth_required;
  provider_retry_count = 1;
  provider_retry_after = none;
  provider_error_code = some "unauthorized_account";
  projection_reset_generation = 0;
}

abbrev opened : Breaker
opened = record {
  provider_generation = some 4;
  provider_state = ProviderState.ready;
  provider_retry_count = 0;
  provider_retry_after = none;
  provider_error_code = none;
  projection_reset_generation = 0;
}

abbrev account_with : Breaker → AccountState
account_with b = record {
  desired = some wanted;
  breaker = some b;
  backfill_jobs = [];
  health = none;
}

-- The row after the breaker opened at time 100, with the whole second drawn.
abbrev failed_once : Breaker
failed_once = failure_row (λ limit. limit) "rate_limited" true 100 opened

Reach-quarantine_example :
    IsQuarantined wanted (some "unauthorized_account") (account_with refused)
    × (is_eligible (account_with refused) 900 ≡ false)
unfolding record_success
Reach-quarantine_example =
    Reach-quarantine (λ limit. limit) wanted (some "unauthorized_account") 900
      (next here (succeeds (account_with refused) 4 500 (some false) refl))
      (record {
        breaker = refused;
        wanted = refl;
        present = refl;
        generation = refl;
        reset = refl;
        waits = refl;
        coded = refl;
      })

record_failure_retried_example :
    is_eligible (account_with failed_once) 400000100 ≡ is_backoff (failed_once.provider_state)
unfolding record_failure
record_failure_retried_example =
    record_failure_retried (λ limit. limit) 4 "rate_limited" true 100 (account_with opened)
      (account_with failed_once) failed_once 400000100 (λ limit. ground arith) (ground arith) refl

record_failure-IsValid_example :
    StateIsValid (record_failure (λ limit. limit) 4 "rate_limited" true 100 (account_with opened))
record_failure-IsValid_example =
    record_failure-IsValid (λ limit. limit) 4 "rate_limited" true 100 (account_with opened)
      (record { timed = refl; closed = refl; coded = refl })

record_success-IsValid_example : StateIsValid (record_success 4 100 (account_with refused))
record_success-IsValid_example =
    record_success-IsValid 4 100 (account_with refused)
      (record { timed = refl; closed = refl; coded = refl })
