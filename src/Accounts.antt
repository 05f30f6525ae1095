-- ===== src/Accounts.antt =====
-- The circuit breaker of a Zulip account: the scheduler_accounts row of storage.py beside the account
-- that Workspace wants.
pub mod Breaker
pub mod Invariant
pub mod Quarantine
pub mod Backoff
mod Tests
