-- ===== src/Desired/Snapshot.antt =====
-- install_snapshot of storage.py: the desired state is replaced as a whole.
use workspace_zulip_bridge.Common.{
  ℕ, String, Bool, false, not, ◌&&◌, ◌||◌, Option, none, some, List, [], ◌∷◌, ◌==◌, str_eq,
  if◌then◌else◌, keep, update_where,
}
use workspace_zulip_bridge.Queue.Types.{Mapping, Result, ok, database_error, ◌>>=◌}
use workspace_zulip_bridge.Mappings.{mark_deleted, any}
use workspace_zulip_bridge.Desired.{Resource, DesiredRow, EventCursor, ControlStore, at_resource}
use workspace_zulip_bridge.Desired.Validate.{validate_snapshot}
use workspace_zulip_bridge.Desired.Apply.{
  reconcile_account, install_assignment, uuid_column, int_of, view_row,
}

abbrev pub is_projected_kind : Mapping → Bool
is_projected_kind m =
    str_eq m.entity_kind "identity" || str_eq m.entity_kind "stream" || str_eq m.entity_kind "topic"

-- The three statements before the loop.
unfoldable pub clear_desired : ControlStore → ControlStore
clear_desired s = record s {
  mappings = update_where (λ m. is_projected_kind m && not m.deleted) mark_deleted s.mappings;
  aliases =
      update_where (λ m. str_eq m.entity_kind "topic" && not m.deleted) mark_deleted s.aliases;
  resources = [];
  accounts = λ uuid. record (s.accounts uuid) { desired = none };
}

abbrev pub snapshot_row : Resource → ℕ → ℕ → DesiredRow
snapshot_row resource uuid generation = record {
  resource_type = resource.resource_type;
  resource_uuid = uuid;
  generation = generation;
  body = some resource.body;
  deleted = false;
}

unfoldable pub snapshot_effects : Resource → ℕ → ℕ → ℕ → ControlStore → Result ControlStore
unfolding install_assignment reconcile_account
snapshot_effects resource uuid generation now s =
    if str_eq resource.resource_type "external_chat_assignment"
    then install_assignment resource.body now s
    else if str_eq resource.resource_type "external_account"
    then reconcile_account uuid generation resource.body.projection_reset_generation now s
    else ok s

-- A row of the same type and UUID refuses the INSERT.
unfoldable pub insert_resource : Resource → ℕ → ControlStore → Result ControlStore
unfolding any snapshot_effects view_row
insert_resource resource now s = do
  uuid ← uuid_column resource.uuid
  generation ← int_of resource.generation
  if any (at_resource resource.resource_type uuid) s.resources
      then database_error
      else snapshot_effects resource uuid generation now (record s {
        resources = snapshot_row resource uuid generation ∷ s.resources;
        accounts = view_row (snapshot_row resource uuid generation) s.accounts;
      })

unfoldable pub insert_resources : List Resource → ℕ → ControlStore → Result ControlStore
unfolding insert_resource
insert_resources [] now s = ok s
insert_resources (resource ∷ resources) now s = do
  t ← insert_resource resource now s
  insert_resources resources now t

-- EXISTS (SELECT 1 FROM desired_resources AS account …)
abbrev pub has_generation : EventCursor → Option ℕ → DesiredRow → Bool
has_generation cursor none row = false
has_generation cursor (some generation) row =
    at_resource "external_account" cursor.account_uuid row
    && not row.deleted
    && row.generation == generation

abbrev pub is_current_cursor : List DesiredRow → EventCursor → Bool
unfolding any
is_current_cursor resources cursor =
    any (has_generation cursor cursor.provider_account_generation) resources

unfoldable pub install_snapshot :
    List (Option Resource) → String → ℕ → ControlStore → Result ControlStore
unfolding validate_snapshot clear_desired insert_resources is_current_cursor
install_snapshot resources anchor_cursor now s = do
  validated ← validate_snapshot resources
  t ← insert_resources validated now (clear_desired s)
  ok (record t {
    cursors = keep (is_current_cursor t.resources) t.cursors;
    control_cursor = anchor_cursor;
  })
