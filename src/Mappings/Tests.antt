-- ===== src/Mappings/Tests.antt =====
-- The theorems on mappings at concrete tables.
use workspace_zulip_bridge.Common.{String, true, false, none, some, List, [], ◌∷◌, ◌≡◌, refl}
use workspace_zulip_bridge.Queue.Types.{
  Mapping, Metadata, Mappings, Record, ResultRecord, Outcome, Store, QueuedOperation, Result, ok,
  database_error, queued_operation, Row,
}
use workspace_zulip_bridge.Queue.Complete.{complete, find_row}
use workspace_zulip_bridge.Queue.Enqueue.{new_row}
use workspace_zulip_bridge.Queue.Claim.{run_row}
use workspace_zulip_bridge.Queue.Samples.{sample_send, sample_chat, empty_store, store_of}
use workspace_zulip_bridge.Scheduler.Mapping.{workspace_mapping}
use workspace_zulip_bridge.Scheduler.Report.{TargetCommit, result_record}
use workspace_zulip_bridge.Mappings.{no_metadata, any}
use workspace_zulip_bridge.Mappings.Persist.{
  persist_committed_mapping, reaction_metadata, save_reaction, message_metadata, new_mapping,
}
use workspace_zulip_bridge.Mappings.Lookup.{created_message_found, deleted_message_lost}
use workspace_zulip_bridge.Mappings.Isolation.{Spares, persist_committed_mapping-Spares}
use workspace_zulip_bridge.Mappings.Reactions.{stale_reaction}

abbrev sample_of : String → Record
sample_of kind =
    let send = sample_send 1 none in
    record send { operation = record (send.operation) { kind = kind } }

abbrev reaction : Record
reaction =
    let send = sample_of "reaction.create" in
    record send {
      operation = record (send.operation) {
        payload = record (send.operation.payload) {
          message_uuid = some 30;
          user_uuid = some 43;
          emoji_name = some "smile";
        };
      };
    }

abbrev running_of : String → Row
running_of kind = run_row "worker" 60 200 (new_row (sample_of kind) 1 sample_chat 100)

abbrev message_mapping : Mapping
message_mapping = new_mapping (sample_of "message.create") "message" "900" none no_metadata

abbrev other_mapping : Mapping
other_mapping = record message_mapping { account_uuid = 8 }

abbrev stale_mapping : Mapping
stale_mapping = new_mapping reaction "reaction" "30:old" none no_metadata

abbrev running_store : String → List Mapping → Store
running_store kind mappings = record empty_store {
  operations = running_of kind ∷ [];
  mappings = mappings;
  aliases = mappings;
}

abbrev item_of : String → QueuedOperation
item_of kind = queued_operation (running_of kind)

abbrev target : TargetCommit
target = record { entity_id = some "901"; revision = none }

abbrev result_of : String → ResultRecord
result_of kind = result_record (sample_of kind) Outcome.committed (some target) none 50 300

abbrev completed : String → List Mapping → Store
completed kind mappings = store_of empty_store (
    complete (persist_committed_mapping true) (running_store kind mappings) (item_of kind)
      (result_of kind) Outcome.committed 400)

created_message_found_example :
    (id : String) × (m : Mapping) × (metadata : Metadata) × ((result_of
        "message.create").body.provider_entity_id
      ≡ some id)
    × (workspace_mapping (completed "message.create" (other_mapping ∷ [])) 7 "message" 30 ≡ some m)
    × (m.provider_id ≡ id)
    × (message_metadata (sample_of "message.create") ≡ ok metadata)
    × (m.metadata ≡ metadata)
unfolding queued_operation run_row new_row find_row complete persist_committed_mapping result_record
created_message_found_example =
    created_message_found true (running_store "message.create" (other_mapping ∷ []))
      (completed "message.create" (other_mapping ∷ [])) (item_of "message.create")
      (result_of "message.create") 400 (running_of "message.create") refl refl refl refl

deleted_message_lost_example :
    workspace_mapping (completed "message.delete" (message_mapping ∷ [])) 7 "message" 30 ≡ none
unfolding queued_operation run_row new_row find_row complete persist_committed_mapping result_record
deleted_message_lost_example =
    deleted_message_lost true (running_store "message.delete" (message_mapping ∷ []))
      (completed "message.delete" (message_mapping ∷ [])) (item_of "message.delete")
      (result_of "message.delete") 400 (running_of "message.delete") refl refl refl refl

abbrev mappings_of : Mappings → Result Mappings → Mappings
mappings_of before (ok after) = after
mappings_of before _ = before

abbrev two_accounts : Mappings
two_accounts = (message_mapping ∷ other_mapping ∷ [], other_mapping ∷ [])

abbrev after_update : Mappings
after_update =
    mappings_of ([], [])
      (persist_committed_mapping true (sample_of "message.update") none (some "4") two_accounts)

persist_committed_mapping-Spares_example : Spares 7 two_accounts after_update
unfolding persist_committed_mapping
persist_committed_mapping-Spares_example =
    persist_committed_mapping-Spares true (sample_of "message.update") none (some "4") two_accounts
      after_update refl

abbrev reaction_keys : Metadata
reaction_keys = record no_metadata {
  project_uuid = some 2;
  message_uuid = some 30;
  user_uuid = some 43;
  emoji_name = some "smile";
  chat_key = some "stream:4";
  mapping_origin = some "workspace";
  workspace_delivery_state = some "committed";
}

stale_reaction_example :
    ((after : Mappings) × (save_reaction true reaction (some "30:new") none (stale_mapping ∷ [], [])
        ≡ ok after))
    × (save_reaction false reaction (some "30:new") none (stale_mapping ∷ [], []) ≡ database_error)
unfolding reaction_metadata any
stale_reaction_example =
    stale_reaction reaction "30:new" none reaction_keys (stale_mapping ∷ [], []) refl refl
