-- ===== src/Mappings.antt =====
-- The tables provider_mappings and provider_mapping_aliases (migration 0000), and the statements
-- that _persist_committed_mapping of storage.py makes of them. The children hold that method and
-- what is proved of it.
pub mod Persist
pub mod Lookup
pub mod Isolation
pub mod Reactions
mod Tests
use workspace_zulip_bridge.Common.{
  ℕ, String, Bool, true, false, not, ◌&&◌, Option, none, some, List, [], ◌∷◌, ◌++◌, ◌==◌, str_eq,
  if◌then◌else◌, keep, update_where,
}
use workspace_zulip_bridge.Queue.Types.{
  Mapping, Metadata, Mappings, Result, ok, database_error, raised,
}

-- payload["key"]
abbrev pub item {ℓ} : {A : Type ℓ} → Option A → Result A
item none = raised "KeyError"
item (some a) = ok a

-- old || new, a key at a time: the key of the right object goes before that of the left.
abbrev pub overlay_key {ℓ} : {A : Type ℓ} → Option A → Option A → Option A
overlay_key old none = old
overlay_key old (some a) = some a

-- COALESCE(value, column)
abbrev pub coalesce_column {ℓ} : {A : Type ℓ} → Option A → Option A → Option A
coalesce_column value column = overlay_key column value

unfoldable pub overlay : Metadata → Metadata → Metadata
overlay old new = record {
  stream_uuid = overlay_key old.stream_uuid new.stream_uuid;
  topic_uuid = overlay_key old.topic_uuid new.topic_uuid;
  author_uuid = overlay_key old.author_uuid new.author_uuid;
  message_uuid = overlay_key old.message_uuid new.message_uuid;
  user_uuid = overlay_key old.user_uuid new.user_uuid;
  name = overlay_key old.name new.name;
  emoji_name = overlay_key old.emoji_name new.emoji_name;
  chat_key = overlay_key old.chat_key new.chat_key;
  project_uuid = overlay_key old.project_uuid new.project_uuid;
  causal_lane = overlay_key old.causal_lane new.causal_lane;
  mapping_origin = overlay_key old.mapping_origin new.mapping_origin;
  workspace_delivery_state = overlay_key old.workspace_delivery_state new.workspace_delivery_state;
  content_sha256 = overlay_key old.content_sha256 new.content_sha256;
  provider_content_sha256 = overlay_key old.provider_content_sha256 new.provider_content_sha256;
  subject = overlay_key old.subject new.subject;
  provider_aliases = overlay_key old.provider_aliases new.provider_aliases;
  display_name = overlay_key old.display_name new.display_name;
  email = overlay_key old.email new.email;
  avatar_urn = overlay_key old.avatar_urn new.avatar_urn;
  active = overlay_key old.active new.active;
  role = overlay_key old.role new.role;
  chat_type = overlay_key old.chat_type new.chat_type;
  participants = overlay_key old.participants new.participants;
  description = overlay_key old.description new.description;
  private = overlay_key old.private new.private;
  default_topic_uuid = overlay_key old.default_topic_uuid new.default_topic_uuid;
  is_default = overlay_key old.is_default new.is_default;
}

abbrev pub no_metadata : Metadata
no_metadata = record {
  stream_uuid = none;
  topic_uuid = none;
  author_uuid = none;
  message_uuid = none;
  user_uuid = none;
  name = none;
  emoji_name = none;
  chat_key = none;
  project_uuid = none;
  causal_lane = none;
  mapping_origin = none;
  workspace_delivery_state = none;
  content_sha256 = none;
  provider_content_sha256 = none;
  subject = none;
  provider_aliases = none;
  display_name = none;
  email = none;
  avatar_urn = none;
  active = none;
  role = none;
  chat_type = none;
  participants = none;
  description = none;
  private = none;
  default_topic_uuid = none;
  is_default = none;
}

-- WHERE account_uuid = … AND entity_kind = … AND workspace_uuid = …, the primary key of both tables
abbrev pub at_workspace : ℕ → String → ℕ → Mapping → Bool
at_workspace account kind uuid m =
    m.account_uuid == account && (str_eq m.entity_kind kind && m.workspace_uuid == uuid)

-- WHERE account_uuid = … AND entity_kind = … AND provider_id = …
abbrev pub at_provider : ℕ → String → String → Mapping → Bool
at_provider account kind id m =
    m.account_uuid == account && (str_eq m.entity_kind kind && str_eq m.provider_id id)

unfoldable pub any {ℓ} : {A : Type ℓ} → (A → Bool) → List A → Bool
any p [] = false
any p (x ∷ xs) = if p x then true else any p xs

-- An UPDATE whose SET gives one row another value of a unique key is refused if a row holds it.
abbrev pub unless_taken {ℓ} : {A : Type ℓ} → Bool → A → Result A
unless_taken true a = database_error
unless_taken false a = ok a

-- INSERT INTO provider_mappings … ON CONFLICT (account_uuid, entity_kind, provider_id) DO UPDATE
-- SET workspace_uuid = EXCLUDED.workspace_uuid, …: a row that holds the primary key and another
-- provider_id refuses it, whichever of the two the statement does.
abbrev pub is_rival : Mapping → Mapping → Bool
is_rival new m =
    at_workspace new.account_uuid new.entity_kind new.workspace_uuid m
    && not (at_provider new.account_uuid new.entity_kind new.provider_id m)

unfoldable pub insert_moved : Mapping → (Mapping → Mapping) → List Mapping → Result (List Mapping)
unfolding any
insert_moved new set table =
    let taken = any (is_rival new) table in
    if any (at_provider new.account_uuid new.entity_kind new.provider_id) table
    then unless_taken taken
        (update_where (at_provider new.account_uuid new.entity_kind new.provider_id) set table)
    else unless_taken taken (new ∷ table)

-- The same where SET leaves workspace_uuid: only a new row can be refused.
unfoldable pub insert_kept : Mapping → (Mapping → Mapping) → List Mapping → Result (List Mapping)
unfolding any
insert_kept new set table =
    if any (at_provider new.account_uuid new.entity_kind new.provider_id) table
    then ok (update_where (at_provider new.account_uuid new.entity_kind new.provider_id) set table)
    else unless_taken (any (is_rival new) table) (new ∷ table)

-- INSERT INTO provider_mapping_aliases … ON CONFLICT (account_uuid, entity_kind, workspace_uuid)
-- DO UPDATE
unfoldable pub insert_alias : Mapping → (Mapping → Mapping) → List Mapping → List Mapping
unfolding any
insert_alias new set table =
    if any (at_workspace new.account_uuid new.entity_kind new.workspace_uuid) table
    then update_where (at_workspace new.account_uuid new.entity_kind new.workspace_uuid) set table
    else new ∷ table

-- SET deleted = true
abbrev pub mark_deleted : Mapping → Mapping
mark_deleted m = record m { deleted = true }

-- DELETE FROM … WHERE
abbrev pub delete_where : (Mapping → Bool) → List Mapping → List Mapping
delete_where p table = keep (λ m. not (p m)) table
