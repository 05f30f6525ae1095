-- ===== src/History/Budget.antt =====
-- The time limit of a history write.
use workspace_zulip_bridge.Common.{ℕ, ◌+◌, ◌*◌, ◌≤◌, ◌<◌, ◌↔◌, arith}
use workspace_zulip_bridge.History.Batch.{capture_write_budget_ms}

-- The budget of a write is between half a second and five seconds. For each n below 4500, it is at
-- most n milliseconds longer than half a second exactly when the write has at most n times 16 KiB:
-- below its limit it has a millisecond for each 16 KiB that the write begins.
pub capture_write_budget_bounds :
    (bytes n : ℕ)
    → n < 4500
    → (500 ≤ capture_write_budget_ms bytes)
      × (capture_write_budget_ms bytes ≤ 5000)
      × ((capture_write_budget_ms bytes ≤ 500 + n) ↔ (bytes ≤ 16384 * n))
unfolding capture_write_budget_ms
capture_write_budget_bounds bytes n small =
    (omega arith, omega arith, (λ h. omega arith, λ h. omega arith))
