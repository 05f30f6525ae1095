-- ===== src/Mappings/Persist.antt =====
-- RestAlchemyStore._persist_committed_mapping of storage.py: what the commit of an operation writes
-- to the tables of mappings. It runs inside the transaction of `complete`. A key of the payload that
-- is present holds a value; an advisory lock changes no table and is left out.
use workspace_zulip_bridge.Common.{
  String, Bool, false, not, ◌&&◌, ◌||◌, Option, none, some, List, [], ◌∷◌, ◌++◌, str_eq,
  if◌then◌else◌, update_where,
}
use workspace_zulip_bridge.Queue.Types.{
  Mapping, Metadata, Mappings, Record, Result, ok, value_error, ◌>>=◌,
}
use workspace_zulip_bridge.Mappings.{
  item, overlay, coalesce_column, no_metadata, at_workspace, at_provider, unless_taken, any,
  insert_moved, insert_kept, insert_alias, mark_deleted, delete_where,
}

-- `if provider_entity_id is None: raise ValueError(message)`
abbrev pub identified : Option String → String → Result String
identified none message = value_error message
identified (some id) message = ok id

abbrev pub new_mapping : Record → String → String → Option String → Metadata → Mapping
new_mapping r kind id revision metadata = record {
  account_uuid = r.account_uuid;
  entity_kind = kind;
  workspace_uuid = r.operation.entity_uuid;
  provider_id = id;
  provider_revision = revision;
  metadata = metadata;
  deleted = false;
}

unfoldable pub topic_metadata : Record → Result Metadata
topic_metadata r = do
  stream_uuid ← item r.operation.payload.stream_uuid
  name ← item r.operation.payload.name
  ok (record no_metadata {
    stream_uuid = some stream_uuid;
    chat_key = some r.operation.chat_id;
    name = some name;
    project_uuid = some r.project_uuid;
    mapping_origin = some r.origin;
    workspace_delivery_state = some "committed";
  })

abbrev pub replace_topic : Record → Option String → Metadata → Mapping → Mapping
replace_topic r revision metadata m = record m {
  workspace_uuid = r.operation.entity_uuid;
  provider_revision = revision;
  metadata = metadata;
  deleted = false;
}

unfoldable pub create_topic : Record → Option String → Option String → Mappings → Result Mappings
unfolding topic_metadata insert_moved
create_topic r entity revision (table, aliases) = do
  id ← identified entity "Committed topic create has no provider identifier"
  metadata ← topic_metadata r
  table ←
      insert_moved (new_mapping r "topic" id revision metadata) (replace_topic r revision metadata)
        table
  ok (table, aliases)

unfoldable pub message_metadata : Record → Result Metadata
message_metadata r = do
  stream_uuid ← item r.operation.payload.stream_uuid
  topic_uuid ← item r.operation.payload.topic_uuid
  author_uuid ← item r.operation.payload.author_uuid
  ok (record no_metadata {
    stream_uuid = some stream_uuid;
    topic_uuid = some topic_uuid;
    author_uuid = some author_uuid;
    chat_key = some r.operation.chat_id;
    project_uuid = some r.project_uuid;
    causal_lane = some r.causal_lane;
    mapping_origin = some r.origin;
    workspace_delivery_state = some "committed";
  })

unfoldable pub refresh_message : Option String → Metadata → Mapping → Mapping
unfolding overlay
refresh_message revision metadata m = record m {
  provider_revision = revision;
  metadata = overlay m.metadata metadata;
  deleted = false;
}

abbrev pub replace_alias : String → Metadata → Mapping → Mapping
replace_alias id metadata m = record m { provider_id = id; metadata = metadata; deleted = false }

unfoldable pub create_message : Record → Option String → Option String → Mappings → Result Mappings
unfolding message_metadata insert_kept insert_alias refresh_message
create_message r entity revision (table, aliases) = do
  id ← identified entity "Committed message create has no provider identifier"
  metadata ← message_metadata r
  table ←
      insert_kept (new_mapping r "message" id revision metadata) (refresh_message revision metadata)
        table
  ok (
    table,
    insert_alias (new_mapping r "message" id none metadata) (replace_alias id metadata) aliases,
  )

unfoldable pub reaction_metadata : Record → Result Metadata
reaction_metadata r = do
  message_uuid ← item r.operation.payload.message_uuid
  user_uuid ← item r.operation.payload.user_uuid
  emoji_name ← item r.operation.payload.emoji_name
  ok (record no_metadata {
    project_uuid = some r.project_uuid;
    message_uuid = some message_uuid;
    user_uuid = some user_uuid;
    emoji_name = some emoji_name;
    chat_key = some r.operation.chat_id;
    mapping_origin = some r.origin;
    workspace_delivery_state = some "committed";
  })

-- The rows that the DELETE of removed_stale_workspace_mapping takes out.
abbrev pub is_stale : Record → String → Mapping → Bool
is_stale r id m =
    at_workspace r.account_uuid "reaction" r.operation.entity_uuid m
    && not (str_eq m.provider_id id)

unfoldable pub set_reaction : Record → Option String → Metadata → Mapping → Mapping
unfolding overlay
set_reaction r revision metadata m = record m {
  workspace_uuid = r.operation.entity_uuid;
  provider_revision = revision;
  metadata = overlay m.metadata metadata;
  deleted = false;
}

-- PostgreSQL leaves open which of the two parts of a statement with a DELETE in its WITH runs first:
-- `removed_first` says that the DELETE does. If it does not, the INSERT meets the stale row.
unfoldable pub save_reaction :
    Bool → Record → Option String → Option String → Mappings → Result Mappings
unfolding reaction_metadata insert_moved set_reaction
save_reaction removed_first r entity revision (table, aliases) = do
  id ← identified entity "Committed reaction mutation has no provider identifier"
  metadata ← reaction_metadata r
  table ←
      insert_moved (new_mapping r "reaction" id revision metadata)
        (set_reaction r revision metadata)
        (if removed_first then delete_where (is_stale r id) table else table)
  ok (delete_where (is_stale r id) table, aliases)

-- jsonb_strip_nulls(jsonb_build_object(…)) || jsonb_build_object('workspace_delivery_state', …)
abbrev pub message_changes : Record → Metadata
message_changes r = record no_metadata {
  content_sha256 = r.operation.extensions.content_sha256;
  provider_content_sha256 = r.operation.extensions.provider_content_sha256;
  subject = r.operation.extensions.subject;
  stream_uuid = r.operation.payload.stream_uuid;
  topic_uuid = r.operation.payload.topic_uuid;
  chat_key = some r.operation.chat_id;
  project_uuid = some r.project_uuid;
  workspace_delivery_state = some "committed";
}

unfoldable pub update_message : Record → Option String → Mappings → Mappings
unfolding overlay
update_message r revision (table, aliases) = (
  update_where (at_workspace r.account_uuid "message" r.operation.entity_uuid)
      (λ m. record m {
        provider_revision = coalesce_column revision m.provider_revision;
        metadata = overlay m.metadata (message_changes r);
        deleted = false;
      })
      table,
  update_where (at_workspace r.account_uuid "message" r.operation.entity_uuid)
      (λ m. record m { metadata = overlay m.metadata (message_changes r); deleted = false })
      aliases,
)

abbrev aliases_or_none : Option (List String) → List String
aliases_or_none none = []
aliases_or_none (some ids) = ids

-- CASE WHEN previous IS NOT NULL AND previous <> provider_id THEN … END
abbrev pub added_alias : Option String → String → Metadata → Option (List String)
added_alias none id old = none
added_alias (some previous) id old =
    if str_eq previous id
    then none
    else some (aliases_or_none old.provider_aliases ++ previous ∷ [])

unfoldable pub move_topic : Record → String → Option String → Metadata → Mapping → Mapping
unfolding overlay
move_topic r id revision metadata m = record m {
  provider_id = id;
  provider_revision = coalesce_column revision m.provider_revision;
  metadata =
      overlay (overlay m.metadata metadata)
        (record no_metadata { provider_aliases = added_alias r.operation.entity_id id m.metadata });
  deleted = false;
}

unfoldable pub move_aliases :
    Record → Option String → String → Metadata → List Mapping → List Mapping
unfolding overlay
move_aliases r none id metadata aliases = aliases
move_aliases r (some previous) id metadata aliases =
    update_where (at_provider r.account_uuid "topic" previous)
      (λ m. record m { provider_id = id; metadata = overlay m.metadata metadata; deleted = false })
      aliases

-- Another row of the same provider_id refuses the UPDATE, if it changes a row.
unfoldable pub topic_taken : Record → String → List Mapping → Bool
unfolding any
topic_taken r id table =
    any (at_workspace r.account_uuid "topic" r.operation.entity_uuid) table
    && any
        (λ m.
          at_provider r.account_uuid "topic" id m
          && not (at_workspace r.account_uuid "topic" r.operation.entity_uuid m))
        table

unfoldable pub update_topic : Record → Option String → Option String → Mappings → Result Mappings
unfolding topic_metadata move_aliases topic_taken move_topic
update_topic r entity revision (table, aliases) = do
  id ← identified entity "Committed topic update has no provider identifier"
  metadata ← topic_metadata r
  moved ← unless_taken (topic_taken r id table) (
      update_where (at_workspace r.account_uuid "topic" r.operation.entity_uuid)
        (move_topic r id revision metadata) table)
  ok (moved, move_aliases r r.operation.entity_id id metadata aliases)

-- The UPDATEs of topic.delete and message.delete.
unfoldable pub delete_entity : Record → String → Mappings → Mappings
delete_entity r kind (table, aliases) = (
  update_where (at_workspace r.account_uuid kind r.operation.entity_uuid) mark_deleted table,
  update_where (at_workspace r.account_uuid kind r.operation.entity_uuid) mark_deleted aliases,
)

unfoldable pub update_stream : Record → Option String → Mappings → Mappings
update_stream r revision (table, aliases) = (
  update_where (at_workspace r.account_uuid "stream" r.operation.entity_uuid)
      (λ m. record m {
        provider_revision = coalesce_column revision m.provider_revision;
        deleted = false;
      })
      table,
  aliases,
)

unfoldable pub delete_reaction : Record → Mappings → Mappings
delete_reaction r (table, aliases) = (
  update_where (at_workspace r.account_uuid "reaction" r.operation.entity_uuid) mark_deleted table,
  aliases,
)

unfoldable pub persist_committed_mapping :
    Bool → Record → Option String → Option String → Mappings → Result Mappings
unfolding create_topic create_message save_reaction update_message update_topic delete_entity
    update_stream delete_reaction
persist_committed_mapping removed_first r entity revision mappings =
    let kind = r.operation.kind in
    if str_eq kind "topic.create"
    then create_topic r entity revision mappings
    else if str_eq kind "message.create"
    then create_message r entity revision mappings
    else if str_eq kind "reaction.create" || str_eq kind "reaction.update"
    then save_reaction removed_first r entity revision mappings
    else if str_eq kind "message.update"
    then ok (update_message r revision mappings)
    else if str_eq kind "topic.upsert"
    then update_topic r entity revision mappings
    else if str_eq kind "topic.delete"
    then ok (delete_entity r "topic" mappings)
    else if str_eq kind "stream.upsert"
    then ok (update_stream r revision mappings)
    else if str_eq kind "message.delete"
    then ok (delete_entity r "message" mappings)
    else if str_eq kind "reaction.delete"
    then ok (delete_reaction r mappings)
    else ok mappings
