-- ===== src/Queue/Samples.antt =====
-- Test data: an account with one selected chat, and two sends of one causal lane.
use workspace_zulip_bridge.Common.{
  refl, ◌+◌, ℕ, String, Bool, true, false, Option, none, some, [], ◌∷◌, ◌==◌, if◌then◌else◌, arith,
}
use workspace_zulip_bridge.Queue.Types.{
  Record, Row, Account, Assignment, SchedulerAccount, ProviderState, Store, QueuedOperation,
  queued_operation, Result, ok, Mappings,
}
use workspace_zulip_bridge.Queue.Enqueue.{new_row}
use workspace_zulip_bridge.Queue.Claim.{run_row}
use workspace_zulip_bridge.Queue.Validity.{IsValid, RowIsValid}
use workspace_zulip_bridge.Queue.Order.{IsSerial}
use workspace_zulip_bridge.Queue.Steps.{Environment}

abbrev pub sample_send : ℕ → Option ℕ → Record
sample_send sequence predecessor = record {
  schema = "workspace.provider";
  schema_version = 1;
  record_uuid = 20 + sequence;
  operation_uuid = 10 + sequence;
  attempt = 1;
  operation_sha256 = "digest";
  account_uuid = 7;
  project_uuid = 2;
  origin = "workspace";
  causal_lane = "chat";
  sequence = sequence;
  predecessor_operation_uuid = predecessor;
  expires_at = none;
  operation = record {
    kind = "message.send";
    entity_uuid = 30;
    chat_id = "stream:4";
    entity_id = none;
    message_uuids = none;
    payload = record {
      stream_uuid = some 41;
      topic_uuid = some 42;
      author_uuid = some 43;
      message_uuid = none;
      user_uuid = none;
      name = none;
      emoji_name = none;
    };
    extensions = record { content_sha256 = none; provider_content_sha256 = none; subject = none };
  };
  transport = none;
  read_semantic_sha256 = none;
}

abbrev pub sample_chat : Assignment
sample_chat = record {
  resource_uuid = 5;
  generation = 3;
  deleted = false;
  external_account_uuid = some 7;
  provider_chat_key = some "stream:4";
  project_id = some 2;
  selected = true;
}

abbrev pub first_row : Row
first_row = new_row (sample_send 1 none) 1 sample_chat 100

abbrev pub second_row : Row
second_row = new_row (sample_send 2 (some 11)) 1 sample_chat 100

abbrev sample_account : ℕ → Option Account
sample_account uuid =
    if uuid == 7
    then some (record { generation = 1; deleted = false; synchronization_enabled = true })
    else none

abbrev sample_scheduler_account : ℕ → Option SchedulerAccount
sample_scheduler_account uuid =
    if uuid == 7
    then some (record {
      last_dispatched_at = none;
      provider_generation = some 1;
      provider_state = ProviderState.ready;
      provider_retry_count = 0;
      provider_retry_after = none;
      provider_error_code = none;
    })
    else none

abbrev pub empty_store : Store
empty_store = record {
  operations = [];
  idempotency = λ _. none;
  lanes = λ _ _. none;
  producer_lanes = λ _ _. none;
  producer_operations = λ _. none;
  scheduler_accounts = sample_scheduler_account;
  accounts = sample_account;
  assignments = sample_chat ∷ [];
  mappings = [];
  aliases = [];
}

abbrev pub two_sends : Store
two_sends = record empty_store { operations = first_row ∷ second_row ∷ [] }

abbrev pub sample_persist : Record → Option String → Option String → Mappings → Result Mappings
sample_persist r entity revision mappings = ok mappings

abbrev pub sample_environment : Environment
sample_environment = record {
  persist = sample_persist;
  uuid5 = λ uuid _. uuid;
  digest = λ _. "digest";
  read_digest = λ _. "digest";
}

pub first_row-RowIsValid : RowIsValid first_row
unfolding new_row
first_row-RowIsValid = record {
  resent_once = ground arith;
  leased = λ h. absurd (cc h);
  unleased = λ h. (refl, refl);
  closed = refl;
  queue_known = refl;
  local_known = refl;
}

second_row-RowIsValid : RowIsValid second_row
unfolding new_row
second_row-RowIsValid = record {
  resent_once = ground arith;
  leased = λ h. absurd (cc h);
  unleased = λ h. (refl, refl);
  closed = refl;
  queue_known = refl;
  local_known = refl;
}

pub two_sends-IsValid : IsValid two_sends
unfolding new_row
two_sends-IsValid = record {
  rows = (first_row-RowIsValid, (second_row-RowIsValid, tt));
  unique = ((refl, tt), (tt, tt));
}

pub two_sends-IsSerial : IsSerial two_sends
unfolding new_row
two_sends-IsSerial = record {
  apart = ((refl, tt), (tt, tt));
  next = (λ h. absurd (cc h), (λ h. absurd (cc h), tt));
  recorded = (refl, (refl, tt));
}

-- The first send in the hands of a worker.
abbrev pub running_row : Row
running_row = run_row "worker" 60 200 first_row

abbrev pub sample_item : QueuedOperation
sample_item = queued_operation first_row

abbrev pub one_running : Store
one_running = record empty_store { operations = running_row ∷ second_row ∷ [] }

abbrev pub store_of : Store → Result Store → Store
store_of s (ok t) = t
store_of s _ = s

abbrev pub added_to : Store → Result (Bool × Store) → Store
added_to s (ok (added, t)) = t
added_to s _ = s
