-- ===== src/Scheduler.antt =====
-- workspace_zulip_bridge/scheduler.py: one operation at a time is taken from the queue, sent through
-- the Zulip adapter, and finished, retried or handed to reconciliation.
pub mod Report
pub mod Provider
pub mod Mapping
pub mod Run
pub mod Reconcile
pub mod Taken
pub mod Returns
pub mod Runs
pub mod Claimed
pub mod Reconciles
pub mod Chances
mod Tests
