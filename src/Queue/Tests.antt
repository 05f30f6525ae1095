-- ===== src/Queue/Tests.antt =====
-- The theorems of the queue at concrete tables.
use workspace_zulip_bridge.Common.{
  false, true, ◌⊎◌, some, ◌≡◌, refl, false, none, inl, update_where,
}
use workspace_zulip_bridge.Common.Select.{first_by}
use workspace_zulip_bridge.Queue.Types.{Store, Outcome, ok, queued_operation}
use workspace_zulip_bridge.Queue.Claim.{claim, claimable, run_row}
use workspace_zulip_bridge.Queue.Admitted.{IsAdmitted, enqueue_placed-IsAdmitted}
use workspace_zulip_bridge.Queue.Complete.{complete}
use workspace_zulip_bridge.Queue.Enqueue.{enqueue_placed, new_row}
use workspace_zulip_bridge.Queue.Samples.{
  running_row, sample_item, sample_send, two_sends, one_running, sample_persist, sample_environment,
  two_sends-IsValid, two_sends-IsSerial, store_of, added_to, empty_store,
}
use workspace_zulip_bridge.Queue.Replay.{complete_twice, enqueue_completed}
use workspace_zulip_bridge.Queue.Selection.{Claimed, claim-Claimed}
use workspace_zulip_bridge.Queue.Steps.{here, next, claims, Reach-IsValid, Reach-one_in_flight}
use workspace_zulip_bridge.Queue.Validity.{IsValid}
use workspace_zulip_bridge.Scheduler.Report.{result_record}

Reach-one_in_flight_example : running_row ≡ running_row
unfolding claim new_row first_by claimable update_where
Reach-one_in_flight_example =
    Reach-one_in_flight sample_environment running_row running_row
      (next here (claims "worker" 60 200)) two_sends-IsValid two_sends-IsSerial (inl refl)
      (inl refl) refl refl refl

Reach-IsValid_example : IsValid (claim two_sends "worker" 60 200).1
Reach-IsValid_example =
    Reach-IsValid sample_environment (next here (claims "worker" 60 200)) two_sends-IsValid

complete_twice_example :
    complete sample_persist
      (store_of one_running (
        complete sample_persist one_running sample_item
          (result_record sample_item.body Outcome.committed none none 50 300)
          Outcome.committed
          300))
      sample_item
      (result_record sample_item.body Outcome.rejected none none 51 400)
      Outcome.rejected
      400
    ≡ ok (
        store_of one_running (
          complete sample_persist one_running sample_item
            (result_record sample_item.body Outcome.committed none none 50 300)
            Outcome.committed
            300))
unfolding complete new_row run_row queued_operation
complete_twice_example =
    complete_twice sample_persist one_running
      (store_of one_running (
        complete sample_persist one_running sample_item
          (result_record sample_item.body Outcome.committed none none 50 300) Outcome.committed
          300))
      sample_item running_row refl
      (result_record sample_item.body Outcome.committed none none 50 300)
      (result_record sample_item.body Outcome.rejected none none 51 400) Outcome.committed
      Outcome.rejected 300 400 refl refl refl

claim-Claimed_example : Claimed two_sends "worker" 60 200 sample_item
unfolding claim new_row first_by claimable
claim-Claimed_example = claim-Claimed two_sends "worker" 60 200 sample_item refl

abbrev one_sent : Store
one_sent = added_to empty_store (enqueue_placed (sample_send 1 none) 1 100 empty_store)

enqueue_placed-IsAdmitted_example :
    ((true ≡ false) × (one_sent.operations ≡ empty_store.operations))
    ⊎ ((true ≡ true) × IsAdmitted (sample_send 1 none) 1 100 empty_store one_sent)
unfolding enqueue_placed
enqueue_placed-IsAdmitted_example =
    enqueue_placed-IsAdmitted (sample_send 1 none) 1 100 empty_store one_sent true refl

-- The first send is running, and its digest is remembered.
abbrev remembered : Store
remembered = record one_running {
  idempotency = λ uuid. some (record {
    operation_sha256 = "digest";
    terminal_outcome = none;
    target_entity_id = none;
    target_revision = none;
    result_record_uuid = none;
    manual_retry_allowed = false;
  });
}

abbrev finished : Store
finished = store_of remembered (
    complete sample_persist remembered sample_item
      (result_record sample_item.body Outcome.committed none none 50 300) Outcome.committed 300)

enqueue_completed_example :
    enqueue_placed (sample_send 1 none) 1 400 finished ≡ ok (false, finished)
unfolding complete new_row run_row queued_operation
enqueue_completed_example =
    enqueue_completed sample_persist remembered finished sample_item running_row refl
      (result_record sample_item.body Outcome.committed none none 50 300) Outcome.committed 300 _
      (sample_send 1 none) 1 400 refl refl refl refl refl refl
