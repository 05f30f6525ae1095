-- ===== src/History.antt =====
-- The history batches of workspace_zulip_bridge/history.py.
pub mod Table
pub mod Snapshot
pub mod Batch
pub mod Ordered
pub mod Merged
mod Tests
pub mod Budget
