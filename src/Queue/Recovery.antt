-- ===== src/Queue/Recovery.antt =====
-- What reap_expired_running of Queue/Lifecycle.antt guarantees after a worker died.
use workspace_zulip_bridge.Common.{◌⊎◌, ℕ, ◌≡◌, true, false, some}
use workspace_zulip_bridge.Queue.Types.{Row, State}
use workspace_zulip_bridge.Queue.Lifecycle.{attempted, lease_expired}

-- What becomes of one row.
abbrev pub Reaped : ℕ → Row → Row → Type 0
Reaped now before after =
    (((lease_expired now before ≡ false) × (after ≡ before))
      ⊎ ((lease_expired now before ≡ true)
          × (attempted before ≡ true)
          × (after.state ≡ State.uncertain)
          × (after.reconciliation_after ≡ some now))
      ⊎ ((lease_expired now before ≡ true)
          × (attempted before ≡ false)
          × (after.state ≡ State.pending)
          × (after.available_at ≡ now)))
    × (after.auto_resend_count ≡ before.auto_resend_count)
    × (attempted after ≡ attempted before)
    × (lease_expired now after ≡ false)
