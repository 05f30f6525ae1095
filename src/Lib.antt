-- ===== src/Lib.antt =====
-- workspace_zulip_bridge connects Workspace with Zulip. Workspace leases operations to the
-- bridge (send, edit, delete, reactions, reads), which keeps them in a PostgreSQL queue,
-- delivers them through the Zulip client, and returns results. Events of Zulip go the other
-- way, through a journal and an outbox.
--
-- The development is about the queue of operations (workspace_zulip_bridge/storage.py), the
-- scheduler that empties it (workspace_zulip_bridge/scheduler.py), the circuit breaker of an
-- account, the mappings that a commit writes, the desired state that Workspace sends, the
-- history batches (workspace_zulip_bridge/history.py), their delivery
-- (workspace_zulip_bridge/history_delivery.py) and the codes of emoji
-- (workspace_zulip_bridge/emoji.py).
--
-- - Common: shared names, Boolean tests and lists. Common/Select has SELECT with ORDER BY,
--   Common/Unique keys.
-- - Queue/Types: rows of the tables as records, QueuedOperation, and the result of a call that
--   may raise.
-- - Queue/Claim: claim, claim_terminal and claim_uncertain of RestAlchemyStore.
-- - Queue/Lifecycle: reap_expired_running, retry, record_provider_attempt, mark_uncertain,
--   defer_uncertain, schedule_reconciliation_check, schedule_single_resend,
--   require_operation_manual_reconciliation, uncertain_by_local_id,
--   require_manual_reconciliation.
-- - Queue/Complete: complete. Queue/Enqueue: _allocate_producer_lane and enqueue.
--   Queue/Results: pending_results, mark_result_sent, finalize_provider_result_responses.
-- - Queue/Validity, Queue/Order: the invariants of the table and of the causal lanes.
--   Queue/Steps: the queue as a transition system whose steps are the transactions.
-- - Queue/Ready, Queue/Selection, Queue/Recovery, Queue/Admission, Queue/Admitted,
--   Queue/Completion, Queue/Replay: what single operations guarantee.
-- - Scheduler/Report: result_record. Scheduler/Provider: the interface of the adapter.
--   Scheduler/Mapping: workspace_mapping. Scheduler/Run: run_once and reconcile_local_echo.
--   Scheduler/Reconcile: reconcile_once. Scheduler/Taken, Scheduler/Returns, Scheduler/Runs,
--   Scheduler/Claimed, Scheduler/Reconciles, Scheduler/Chances: their theorems.
-- - Mappings, Mappings/Persist: the tables of mappings and _persist_committed_mapping.
--   Mappings/Lookup, Mappings/Isolation, Mappings/Reactions: their theorems.
-- - Accounts/Breaker: record_provider_account_failure, record_provider_account_success,
--   provider_account_is_eligible and the generation fence of storage.py. Accounts/Invariant,
--   Accounts/Quarantine, Accounts/Backoff: their theorems.
-- - Desired: the resources of the desired state and the tables that they change.
--   Desired/Validate: the checks of a batch. Desired/Project: _replace_projection_mapping and
--   _materialize_workspace_projection. Desired/Retire: _assignment_projection_is_additive and
--   _tombstone_workspace_projection. Desired/Apply: apply_desired_changes. Desired/Snapshot:
--   install_snapshot. Desired/Fence, Desired/Replay, Desired/Routes: their theorems.
-- - Emoji: the codes of Unicode emoji (workspace_zulip_bridge/emoji.py). Emoji/Hex: its numbers
--   in base 16. Emoji/RoundTrip: its theorems.
-- - History/Table: a dict read in the order of its keys. History/Snapshot: validated_id,
--   user_catalog, message_snapshot. History/Batch: make_batch, merge_batch,
--   capture_write_budget_ms. History/Ordered, History/Merged, History/Budget: their theorems.
-- - Delivery: the tables and the sources of the delivery of history, safe_error_code and
--   admission_retry_after. Delivery/Lease: claim, current, renew_lease, release,
--   HistoryPublisher.fail and the record of a failure report. Delivery/References:
--   save_references. Delivery/Publish: the answers of the server and of the adapters, and the
--   environment of a quantum. Delivery/Files: _send_file. Delivery/Import: sync_references and
--   _publish. Delivery/Quantum: the end of _run_once with its theorem. Delivery/Fenced,
--   Delivery/Answers, Delivery/Released, Delivery/Claims, Delivery/Fences, Delivery/Exclusive,
--   Delivery/Renewed: their theorems.
--
-- A statement of SQL is a function on the store: an UPDATE is update_where with the row
-- function of its SET clause, a SELECT with ORDER BY and LIMIT 1 is first_by with its WHERE
-- test and its key. A transaction is one function, and now() is its argument. UUIDs and times
-- are numbers, a time in microseconds since a fixed origin. JSON values keep the fields that
-- the code reads. There is no fuel: each loop goes through a list, or down a number that
-- becomes smaller.
--
-- Not modelled: the journal of Zulip events, the outbox, the requests of the control channel,
-- row locks (transactions follow one another), the network, and the library code of hashes and
-- UUIDs, which are arguments. _persist_committed_mapping is an argument of complete
-- (Mappings/Persist has the one of the program), and the Zulip adapter is an interface of the
-- scheduler. Of the delivery of history the first request that asks whether the server supports
-- it, the sending of failure reports and errors of the database are not modelled. Exceptions
-- other than the two of the adapter leave a run at the transaction before them and are not
-- modelled inside the adapter.
pub mod Accounts
pub mod Common
pub mod Delivery
pub mod Desired
pub mod Emoji
pub mod History
pub mod Mappings
pub mod Queue
pub mod Scheduler
