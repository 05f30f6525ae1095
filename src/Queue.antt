-- ===== src/Queue.antt =====
-- The durable queue of provider operations: the bridge_operations table of
-- workspace_zulip_bridge/storage.py, with the tables that its statements read.
pub mod Types
pub mod Raises
pub mod Claim
pub mod Lifecycle
pub mod Complete
pub mod Enqueue
pub mod Results
pub mod Ready
pub mod Selection
pub mod Recovery
pub mod Admission
pub mod Admitted
pub mod Completion
pub mod Validity
pub mod Order
pub mod Replay
pub mod Steps
pub mod Samples
mod Tests
