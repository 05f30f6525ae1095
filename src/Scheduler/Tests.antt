-- ===== src/Scheduler/Tests.antt =====
-- The theorems of the scheduler with one adapter that delivers every operation.
use workspace_zulip_bridge.Common.{true, [], refl, some, none}
use workspace_zulip_bridge.Common.{◌≤◌, ◌∷◌, inl, arith}
use workspace_zulip_bridge.Mappings.Persist.{persist_committed_mapping}
use workspace_zulip_bridge.Queue.Types.{Row, State, Store, queued_operation}
use workspace_zulip_bridge.Scheduler.Chances.{Found, unmatched-MovedOn}
use workspace_zulip_bridge.Queue.Samples.{
  first_row, second_row, two_sends, two_sends-IsValid, two_sends-IsSerial,
}
use workspace_zulip_bridge.Scheduler.Provider.{
  ReconciliationEvidence, Adapter, Scheduler, Moment, returns,
}
use workspace_zulip_bridge.Scheduler.Run.{account_failed, account_succeeded, run_once}
use workspace_zulip_bridge.Scheduler.Reconcile.{reconcile_once, unmatched}
use workspace_zulip_bridge.Scheduler.Claimed.{IsSound}
use workspace_zulip_bridge.Scheduler.Reconciles.{reconcile_once-IsSound}
use workspace_zulip_bridge.Scheduler.Runs.{IsWellBehaved, IsOrderly, run_once-IsOrderly}

abbrev sample_adapter : Adapter
sample_adapter = record {
  account_generation = some 1;
  prepare = λ cursor operation uuid content. returns (
      some (record {
        queue_id = "queue";
        local_id = "local";
        last_event_id = 4;
        provider_rendered_content = "hello";
      }));
  apply = λ cursor operation correlation. returns (some "900", none);
  reconcile_message = λ operation attempted_at content. returns (record {
    checked_at = 0;
    candidate_ids = [];
    exact_match_count = 0;
    selected_provider_id = none;
  });
}

abbrev sample_scheduler : Scheduler
sample_scheduler = record {
  worker_id = "worker";
  adapters = λ account. returns sample_adapter;
  provider_event_cursor = λ account. none;
  uniform = λ maximum. maximum;
  account_failure_handler = none;
  account_success_handler = none;
  persist = persist_committed_mapping true;
  uuid5 = λ uuid name. uuid;
}

abbrev sample_moment : Moment
sample_moment = record {
  reaped_at = 200;
  claimed_terminal_at = 201;
  claimed_at = 202;
  checked_at = 203;
  attempted_at = 204;
  finished_at = 205;
  result_uuid = 50;
}

sample_scheduler-IsWellBehaved : IsWellBehaved sample_scheduler
unfolding account_failed account_succeeded
sample_scheduler-IsWellBehaved = record {
  failure_operations = λ account e g s. refl;
  failure_lanes = λ account e g s. refl;
  success_operations = λ account g s. refl;
  success_lanes = λ account g s. refl;
}

run_once-IsOrderly_example :
    IsOrderly sample_scheduler sample_scheduler-IsWellBehaved sample_moment
      (run_once sample_scheduler sample_moment two_sends)
run_once-IsOrderly_example =
    run_once-IsOrderly sample_scheduler sample_scheduler-IsWellBehaved sample_moment two_sends
      two_sends-IsValid two_sends-IsSerial

reconcile_once-IsSound_example : IsSound (reconcile_once sample_scheduler sample_moment two_sends).1
reconcile_once-IsSound_example =
    reconcile_once-IsSound sample_scheduler sample_scheduler-IsWellBehaved sample_moment two_sends
      (two_sends-IsValid, two_sends-IsSerial)

abbrev unsure_row : Row
unsure_row = record first_row {
  state = State.uncertain;
  auto_resend_count = 0;
  reconciliation_check_count = 2;
}

abbrev unsure : Store
unsure = record two_sends { operations = unsure_row ∷ second_row ∷ [] }

abbrev no_match : ReconciliationEvidence
no_match = record {
  checked_at = 300;
  candidate_ids = [];
  exact_match_count = 0;
  selected_provider_id = none;
}

unsent : unsure_row.auto_resend_count ≤ 1
unsent = ground arith

unmatched-MovedOn_example :
    Found sample_scheduler unsure unsure_row no_match 300
      (inl refl)
      refl
      unsent
      (unmatched sample_scheduler unsure (queued_operation unsure_row) no_match 300)
unmatched-MovedOn_example =
    unmatched-MovedOn sample_scheduler unsure unsure_row no_match 300 (inl refl) refl unsent
