-- ===== src/Desired.antt =====
-- The desired state that Workspace sends to the bridge: resources by type and UUID, each with a
-- generation (control.py and storage.py). Of a JSON object the model has the keys that the code
-- reads; `none` is a value of another JSON type, and an entry that is an object has its keys.
pub mod Validate
pub mod Project
pub mod Retire
pub mod Apply
pub mod Snapshot
pub mod Fence
pub mod Replay
pub mod Routes
mod Tests
use workspace_zulip_bridge.Common.{
  ℕ, String, Bool, true, false, ◌&&◌, Option, none, some, List, [], ◌∷◌, ◌==◌, str_eq,
  if◌then◌else◌,
}
use workspace_zulip_bridge.Queue.Types.{Mapping}
use workspace_zulip_bridge.Accounts.Breaker.{AccountState}

pub record Requirement : Type 0 where
  -- A number below 1 is 0.
  pub min_revision : Option ℕ
  pub limits : Option (List (String × ℕ))

pub record Participant : Type 0 where
  pub identity_uuid : ℕ
  pub provider_user_id : String
  pub display_name : String
  pub email : Option String
  pub avatar_urn : Option String
  pub role : String

pub record Topic : Type 0 where
  pub topic_uuid : ℕ
  pub provider_topic_id : String
  pub name : String
  pub is_default : Bool

pub record Stream : Type 0 where
  pub uuid : ℕ
  pub name : String
  pub description : String
  pub private : Bool
  pub default_topic_uuid : Option ℕ

pub record Projection : Type 0 where
  pub stream : Option Stream
  pub participants : Option (List (Option Participant))
  pub topics : Option (List (Option Topic))

pub record ProviderChat : Type 0 where
  pub provider_chat_key : String
  pub chat_type : String

-- The keys of a resource that are read, whatever its type.
pub record Body : Type 0 where
  pub synchronization_enabled : Bool
  pub projection_reset_generation : ℕ
  pub external_account_uuid : ℕ
  pub project_id : ℕ
  pub provider_chat : Option ProviderChat
  pub workspace_projection : Option Projection

pub record Resource : Type 0 where
  pub resource_type : String
  pub uuid : Option ℕ
  pub generation : Option ℕ
  pub required_capabilities : Option (List (String × Option Requirement))
  pub body : Body

-- One entry of a batch.
pub record Change : Type 0 where
  pub operation : String
  pub resource_type : String
  pub resource_uuid : Option ℕ
  pub generation : Option ℕ
  pub required_capabilities : Option (List (String × Option Requirement))
  pub resource : Option Resource

-- A row of desired_resources.
pub record DesiredRow : Type 0 where
  pub resource_type : String
  pub resource_uuid : ℕ
  pub generation : ℕ
  pub body : Option Body
  pub deleted : Bool

-- A row of zulip_event_cursors.
pub record EventCursor : Type 0 where
  pub account_uuid : ℕ
  pub provider_account_generation : Option ℕ

-- A row of zulip_provider_events.
pub record JournalEvent : Type 0 where
  pub account_uuid : ℕ
  pub causal_lane : Option String
  pub processing_state : String
  pub processing_reason : Option String
  pub available_at : ℕ

pub record CatalogParticipant : Type 0 where
  pub provider_user_id : Option String
  pub provider_active : Option Bool

-- A row of external_chat_catalog_state.
pub record Catalog : Type 0 where
  pub account_uuid : ℕ
  pub provider_chat_key : String
  pub participants : List CatalogParticipant

pub record ControlStore : Type 0 where
  pub resources : List DesiredRow
  pub mappings : List Mapping
  pub aliases : List Mapping
  pub catalogs : List Catalog
  pub cursors : List EventCursor
  pub events : List JournalEvent
  -- scheduler_accounts, zulip_backfill_jobs and bridge_health of an account
  pub accounts : ℕ → AccountState
  pub control_cursor : String

-- WHERE resource_type = … AND resource_uuid = …
abbrev pub at_resource : String → ℕ → DesiredRow → Bool
at_resource kind uuid row = str_eq row.resource_type kind && row.resource_uuid == uuid

unfoldable pub find_resource : String → ℕ → List DesiredRow → Option DesiredRow
find_resource kind uuid [] = none
find_resource kind uuid (row ∷ rows) =
    if at_resource kind uuid row then some row else find_resource kind uuid rows
