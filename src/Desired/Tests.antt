-- ===== src/Desired/Tests.antt =====
-- The theorems on the desired state at concrete batches.
use workspace_zulip_bridge.Common.{ℕ, String, true, false, none, some, List, [], ◌∷◌, ◌≡◌, refl}
use workspace_zulip_bridge.Queue.Types.{Mapping, Mappings, Store, Result, ok}
use workspace_zulip_bridge.Queue.Samples.{empty_store}
use workspace_zulip_bridge.Scheduler.Mapping.{workspace_mapping, find_mapping}
use workspace_zulip_bridge.Mappings.{no_metadata}
use workspace_zulip_bridge.Mappings.Lookup.{wanted}
use workspace_zulip_bridge.Accounts.Breaker.{AccountState}
use workspace_zulip_bridge.Desired.{
  Projection, Body, Change, DesiredRow, ControlStore, find_resource,
}
use workspace_zulip_bridge.Desired.Project.{projected, replace_projection_mapping}
use workspace_zulip_bridge.Desired.Retire.{uses_identity, tombstone_workspace_projection}
use workspace_zulip_bridge.Desired.Apply.{apply_desired_changes}
use workspace_zulip_bridge.Desired.Fence.{newest, apply_desired_changes-newest}
use workspace_zulip_bridge.Desired.Replay.{apply_desired_changes_again}
use workspace_zulip_bridge.Desired.Routes.{
  with_mappings, replace_projection_mapping-workspace_mapping, tombstone_workspace_projection-used,
}

abbrev sample_projection : Projection
sample_projection = record {
  stream = some (record {
    uuid = 41;
    name = "general";
    description = "";
    private = false;
    default_topic_uuid = none;
  });
  participants = some (
      some (record {
        identity_uuid = 43;
        provider_user_id = "9";
        display_name = "Ann";
        email = none;
        avatar_urn = none;
        role = "member";
      })
      ∷ []);
  topics = some (
      some (record {
        topic_uuid = 42;
        provider_topic_id = "4:plans";
        name = "plans";
        is_default = true;
      })
      ∷ []);
}

abbrev sample_body : Body
sample_body = record {
  synchronization_enabled = true;
  projection_reset_generation = 0;
  external_account_uuid = 7;
  project_id = 2;
  provider_chat = some (record { provider_chat_key = "channel:4"; chat_type = "channel" });
  workspace_projection = some sample_projection;
}

abbrev upsert : String → ℕ → ℕ → Change
upsert kind uuid generation = record {
  operation = "upsert";
  resource_type = kind;
  resource_uuid = some uuid;
  generation = some generation;
  required_capabilities = some [];
  resource = some (record {
    resource_type = kind;
    uuid = some uuid;
    generation = some generation;
    required_capabilities = some [];
    body = sample_body;
  });
}

abbrev delete : String → ℕ → ℕ → Change
delete kind uuid generation = record {
  operation = "delete";
  resource_type = kind;
  resource_uuid = some uuid;
  generation = some generation;
  required_capabilities = none;
  resource = none;
}

-- An account, an assignment, an older version of it that comes late, and its deletion.
abbrev sample_changes : List Change
sample_changes =
    upsert "external_account" 7 1
    ∷ upsert "external_chat_assignment" 5 3
    ∷ upsert "external_chat_assignment" 5 2
    ∷ delete "external_chat_assignment" 5 4
    ∷ []

abbrev fresh_account : ℕ → AccountState
fresh_account uuid = record { desired = none; breaker = none; backfill_jobs = []; health = none }

abbrev fresh_store : ControlStore
fresh_store = record {
  resources = [];
  mappings = [];
  aliases = [];
  catalogs = [];
  cursors = [];
  events = [];
  accounts = fresh_account;
  control_cursor = "0";
}

abbrev store_after : Result ControlStore → ControlStore
store_after (ok s) = s
store_after _ = fresh_store

abbrev applied : ControlStore
applied = store_after (apply_desired_changes sample_changes "9" 100 fresh_store)

sample_applied : apply_desired_changes sample_changes "9" 100 fresh_store ≡ ok applied
unfolding apply_desired_changes
sample_applied = refl

apply_desired_changes-newest_example :
    find_resource "external_chat_assignment" 5 applied.resources
    ≡ newest "external_chat_assignment" 5 sample_changes none
unfolding find_resource
apply_desired_changes-newest_example =
    apply_desired_changes-newest "external_chat_assignment" 5 sample_changes "9" 100 fresh_store
      applied sample_applied

apply_desired_changes_again_example :
    apply_desired_changes sample_changes "9" 200 applied ≡ ok applied
apply_desired_changes_again_example =
    apply_desired_changes_again sample_changes "9" 100 200 fresh_store applied sample_applied

-- The topic had another identifier, and another UUID had the new one.
abbrev topic_mappings : List Mapping
topic_mappings =
    projected 7 "topic" 42 "4:old" no_metadata ∷ projected 7 "topic" 50 "4:plans" no_metadata ∷ []

abbrev topic_store : Store
topic_store = record empty_store {
  mappings = topic_mappings;
  aliases = projected 7 "topic" 42 "4:older" no_metadata ∷ [];
}

replace_projection_mapping-workspace_mapping_example :
    (after : Mappings) × (replace_projection_mapping 7 "topic" 42 "4:plans" no_metadata
        (42 ∷ [])
        (topic_store.mappings, topic_store.aliases)
      ≡ ok after)
    × ((m : Mapping) × (workspace_mapping (with_mappings topic_store after) 7 "topic" 42 ≡ some m)
        × (m.provider_id ≡ "4:plans"))
replace_projection_mapping-workspace_mapping_example =
    replace_projection_mapping-workspace_mapping 7 42 "4:plans" no_metadata (42 ∷ []) topic_store

abbrev other_assignment : DesiredRow
other_assignment = record {
  resource_type = "external_chat_assignment";
  resource_uuid = 6;
  generation = 1;
  body = some sample_body;
  deleted = false;
}

abbrev identity_mappings : Mappings
identity_mappings = (projected 7 "identity" 43 "9" no_metadata ∷ [], [])

tombstone_workspace_projection-used_example :
    find_mapping
      (wanted 7 "identity" 43)
      (tombstone_workspace_projection (other_assignment ∷ []) sample_body identity_mappings).0
    ≡ find_mapping (wanted 7 "identity" 43) identity_mappings.0
unfolding uses_identity
tombstone_workspace_projection-used_example =
    tombstone_workspace_projection-used (other_assignment ∷ []) sample_body 7 43 identity_mappings
      refl
