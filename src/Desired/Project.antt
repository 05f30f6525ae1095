-- ===== src/Desired/Project.antt =====
-- The projection of a chat assignment onto the tables of mappings: _replace_projection_mapping
-- and _materialize_workspace_projection of storage.py.
use workspace_zulip_bridge.Common.{
  ℕ, String, Bool, true, false, not, ◌&&◌, ◌||◌, Option, none, some, List, [], ◌∷◌, ◌==◌, str_eq,
  if◌then◌else◌, keep, update_where,
}
use workspace_zulip_bridge.Queue.Types.{Mapping, Metadata, Mappings, Result, ok, value_error, ◌>>=◌}
use workspace_zulip_bridge.Mappings.{
  overlay, no_metadata, at_workspace, at_provider, insert_moved, insert_alias, mark_deleted,
  delete_where,
}
use workspace_zulip_bridge.Desired.{
  Participant, Topic, Stream, Projection, ProviderChat, Body, CatalogParticipant, Catalog,
}

-- workspace_uuid = ANY(…)
abbrev pub is_any : ℕ → List ℕ → Bool
is_any uuid [] = false
is_any uuid (other ∷ uuids) = uuid == other || is_any uuid uuids

abbrev pub projected : ℕ → String → ℕ → String → Metadata → Mapping
projected account kind uuid id metadata = record {
  account_uuid = account;
  entity_kind = kind;
  workspace_uuid = uuid;
  provider_id = id;
  provider_revision = none;
  metadata = metadata;
  deleted = false;
}

abbrev pub redirect : Metadata → Mapping → Mapping
redirect metadata m = record m { metadata = metadata; deleted = false }

-- The test on rows that another UUID holds and the projection does not name.
abbrev pub is_displaced : ℕ → String → List ℕ → Mapping → Bool
is_displaced uuid id authoritative m =
    not (m.workspace_uuid == uuid) && not (is_any m.workspace_uuid authoritative)

-- INSERT INTO provider_mapping_aliases … SELECT … FROM provider_mappings
unfoldable pub alias_displaced : String → Metadata → List Mapping → List Mapping → List Mapping
unfolding insert_alias
alias_displaced id metadata [] aliases = aliases
alias_displaced id metadata (m ∷ displaced) aliases = alias_displaced id metadata displaced (
    insert_alias (projected m.account_uuid m.entity_kind m.workspace_uuid id metadata)
      (λ a. record a { provider_id = id; metadata = metadata; deleted = false }) aliases)

-- The three statements on aliases that a topic has.
unfoldable pub redirect_topics :
    ℕ → ℕ → String → Metadata → List ℕ → List Mapping → List Mapping → List Mapping
unfolding alias_displaced
redirect_topics account uuid id metadata authoritative table aliases =
    let own =
      update_where
        (λ m. at_workspace account "topic" uuid m && not (str_eq m.provider_id id) && not m.deleted)
        mark_deleted aliases in
    let moved =
      update_where (λ m. at_provider account "topic" id m && is_displaced uuid id authoritative m)
        (redirect metadata) own in
    alias_displaced id metadata
      (keep (λ m. at_provider account "topic" id m && is_displaced uuid id authoritative m) table)
      moved

-- The rows that the DELETE takes out.
abbrev pub is_superseded : ℕ → String → ℕ → String → Mapping → Bool
is_superseded account kind uuid id m =
    at_workspace account kind uuid m && not (str_eq m.provider_id id)

unfoldable pub replace_projection_mapping :
    ℕ → String → ℕ → String → Metadata → List ℕ → Mappings → Result Mappings
unfolding redirect_topics insert_moved overlay
replace_projection_mapping account kind uuid id metadata authoritative (table, aliases) =
    let rest = delete_where (is_superseded account kind uuid id) table in
    let redirected =
      if str_eq kind "topic"
      then redirect_topics account uuid id metadata authoritative rest aliases
      else aliases in
    do
      installed ←
          insert_moved (projected account kind uuid id metadata)
            (λ m. record m {
              workspace_uuid = uuid;
              metadata = overlay m.metadata metadata;
              deleted = false;
            })
            rest
      ok (installed, redirected)

-- SELECT participants FROM external_chat_catalog_state
abbrev pub catalog_participants : ℕ → String → List Catalog → List CatalogParticipant
catalog_participants account key [] = []
catalog_participants account key (c ∷ catalogs) =
    if c.account_uuid == account && str_eq c.provider_chat_key key
    then c.participants
    else catalog_participants account key catalogs

abbrev pub participant_is : String → Option String → Bool
participant_is id none = false
participant_is id (some other) = str_eq other id

abbrev pub known_activity : String → Bool → CatalogParticipant → Option Bool → Bool
known_activity id default p none = default
known_activity id default p (some active) =
    if participant_is id p.provider_user_id then active else default

-- provider_activity.get(id, default): the last entry with a Boolean counts.
abbrev pub activity : String → Bool → List CatalogParticipant → Bool
activity id default [] = default
activity id default (p ∷ participants) =
    activity id (known_activity id default p p.provider_active) participants

unfoldable pub project_participants :
    ℕ → List CatalogParticipant → List (Option Participant) → Mappings → Result Mappings
unfolding replace_projection_mapping
project_participants account known [] mappings = ok mappings
project_participants account known (none ∷ participants) mappings =
    value_error "Invalid workspace projection participant"
project_participants account known (some p ∷ participants) mappings = do
  next ←
      replace_projection_mapping account "identity" p.identity_uuid p.provider_user_id
        (record no_metadata {
          display_name = some p.display_name;
          email = some p.email;
          avatar_urn = some p.avatar_urn;
          active = some (activity p.provider_user_id true known);
          role = some p.role;
        })
        [] mappings
  project_participants account known participants next

abbrev pub identity_uuids : List (Option Participant) → List ℕ
identity_uuids [] = []
identity_uuids (none ∷ participants) = identity_uuids participants
identity_uuids (some p ∷ participants) = p.identity_uuid ∷ identity_uuids participants

abbrev pub topic_uuids : List (Option Topic) → List ℕ
topic_uuids [] = []
topic_uuids (none ∷ topics) = topic_uuids topics
topic_uuids (some t ∷ topics) = t.topic_uuid ∷ topic_uuids topics

abbrev pub topic_keys : ℕ → String → Topic → Metadata
topic_keys stream key t = record no_metadata {
  stream_uuid = some stream;
  chat_key = some key;
  name = some t.name;
  is_default = some t.is_default;
}

unfoldable pub project_topics :
    ℕ → ℕ → String → List ℕ → List (Option Topic) → Mappings → Result Mappings
unfolding replace_projection_mapping
project_topics account stream key authoritative [] mappings = ok mappings
project_topics account stream key authoritative (none ∷ topics) mappings =
    value_error "Invalid workspace projection topic"
project_topics account stream key authoritative (some t ∷ topics) mappings = do
  next ←
      replace_projection_mapping account "topic" t.topic_uuid t.provider_topic_id
        (topic_keys stream key t) authoritative mappings
  project_topics account stream key authoritative topics next

abbrev pub stream_keys : ℕ → ProviderChat → Stream → List ℕ → Metadata
stream_keys project chat stream participants = record no_metadata {
  chat_type = some chat.chat_type;
  project_uuid = some project;
  participants = some participants;
  name = some stream.name;
  description = some stream.description;
  private = some stream.private;
  default_topic_uuid = some stream.default_topic_uuid;
}

unfoldable pub project_parts :
    List Catalog
    → Body
    → ProviderChat
    → Option Stream
    → Option (List (Option Participant))
    → Option (List (Option Topic))
    → Mappings
    → Result Mappings
unfolding project_participants project_topics replace_projection_mapping
project_parts catalogs body chat (some stream) (some participants) (some topics) mappings = do
  identities ←
      project_participants body.external_account_uuid
        (catalog_participants body.external_account_uuid chat.provider_chat_key catalogs)
        participants mappings
  streams ←
      replace_projection_mapping body.external_account_uuid "stream" stream.uuid
        chat.provider_chat_key
        (stream_keys body.project_id chat stream (identity_uuids participants)) [] identities
  project_topics body.external_account_uuid stream.uuid chat.provider_chat_key (topic_uuids topics)
      topics streams
project_parts catalogs body chat _ _ _ mappings = value_error "Invalid workspace projection mapping"

unfoldable pub materialize_parts :
    List Catalog → Body → Option ProviderChat → Option Projection → Mappings → Result Mappings
unfolding project_parts
materialize_parts catalogs body (some chat) (some p) mappings =
    project_parts catalogs body chat p.stream p.participants p.topics mappings
materialize_parts catalogs body _ _ mappings = ok mappings

unfoldable pub materialize_workspace_projection : List Catalog → Body → Mappings → Result Mappings
unfolding materialize_parts
materialize_workspace_projection catalogs body mappings =
    materialize_parts catalogs body body.provider_chat body.workspace_projection mappings
