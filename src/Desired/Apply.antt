-- ===== src/Desired/Apply.antt =====
-- apply_desired_changes and install_snapshot of storage.py: each is one transaction, and an error
-- leaves the tables as they were.
use workspace_zulip_bridge.Common.{
  ℕ, String, Bool, true, false, not, ◌&&◌, ◌||◌, Option, none, some, List, [], ◌∷◌, ◌==◌, str_eq,
  ltb, if◌then◌else◌, keep,
}
use workspace_zulip_bridge.Queue.Types.{
  Mapping, Mappings, Result, ok, raised, database_error, ◌>>=◌, ◌>>◌, require,
}
use workspace_zulip_bridge.Mappings.{delete_where}
use workspace_zulip_bridge.Accounts.Breaker.{
  AccountState, Desired, current_reset, reconcile_generation,
}
use workspace_zulip_bridge.Desired.{
  Body, Resource, Change, DesiredRow, ControlStore, at_resource, find_resource,
}
use workspace_zulip_bridge.Desired.Validate.{is_resource_type, validate_changes}
use workspace_zulip_bridge.Desired.Project.{materialize_workspace_projection}
use workspace_zulip_bridge.Desired.Retire.{
  assignment_projection_is_additive, tombstone_workspace_projection, wake_assignment_pending_events,
}

abbrev pub set_mappings : ControlStore → Mappings → ControlStore
set_mappings s mappings = record s { mappings = mappings.0; aliases = mappings.1 }

abbrev pub set_account : ℕ → AccountState → (ℕ → AccountState) → ℕ → AccountState
set_account account state accounts uuid = if uuid == account then state else accounts uuid

-- What _reset_provider_projection deletes of the tables of this store.
abbrev pub is_rebuildable : ℕ → Mapping → Bool
is_rebuildable account m = m.account_uuid == account && not (str_eq m.entity_kind "identity")

unfoldable pub reset_tables : ℕ → ControlStore → ControlStore
reset_tables account s = record s {
  mappings = delete_where (is_rebuildable account) s.mappings;
  aliases = delete_where (is_rebuildable account) s.aliases;
  events = keep (λ e. not (e.account_uuid == account)) s.events;
  cursors = keep (λ c. not (c.account_uuid == account)) s.cursors;
}

-- _reconcile_provider_account_generation
unfoldable pub reconcile_account : ℕ → ℕ → ℕ → ℕ → ControlStore → Result ControlStore
unfolding reconcile_generation reset_tables
reconcile_account account generation reset now s = do
  state ← reconcile_generation generation reset now (s.accounts account)
  let t =
      if ltb (current_reset (s.accounts account).breaker) reset then reset_tables account s else s
  ok (record t { accounts = set_account account state t.accounts })

-- DELETE FROM zulip_event_cursors WHERE account_uuid = …
abbrev pub drop_cursors : ℕ → ControlStore → ControlStore
drop_cursors account s = record s {
  cursors = keep (λ c. not (c.account_uuid == account)) s.cursors;
}

-- INSERT INTO desired_resources … ON CONFLICT … WHERE desired_resources.generation < EXCLUDED.…
unfoldable pub put_resource : DesiredRow → List DesiredRow → Bool × List DesiredRow
put_resource new [] = (true, new ∷ [])
put_resource new (row ∷ rows) =
    let rest = put_resource new rows in
    if at_resource new.resource_type new.resource_uuid row
    then (if ltb row.generation new.generation then (true, new ∷ rows) else (false, row ∷ rows))
    else (rest.0, row ∷ rest.1)

abbrev pub body_before : Option DesiredRow → Option Body
body_before none = none
body_before (some row) = row.body

unfoldable pub tombstone_before : Option Body → ControlStore → ControlStore
unfolding tombstone_workspace_projection
tombstone_before none s = s
tombstone_before (some previous) s =
    set_mappings s (tombstone_workspace_projection s.resources previous (s.mappings, s.aliases))

unfoldable pub is_replaced : Option Body → Body → Bool
unfolding assignment_projection_is_additive
is_replaced none body = false
is_replaced (some previous) body = not (assignment_projection_is_additive previous body)

unfoldable pub install_assignment : Body → ℕ → ControlStore → Result ControlStore
unfolding materialize_workspace_projection wake_assignment_pending_events
install_assignment body now s = do
  mappings ← materialize_workspace_projection s.catalogs body (s.mappings, s.aliases)
  let t = set_mappings s mappings
  ok (record t { events = wake_assignment_pending_events body.external_account_uuid now t.events })

abbrev pub is_upsert : Change → Bool
is_upsert change = str_eq change.operation "upsert"

abbrev pub upserted_body : Option Resource → Option Body
upserted_body none = none
upserted_body (some resource) = some resource.body

-- VALUES of the INSERT
abbrev pub changed_row : Change → ℕ → ℕ → DesiredRow
changed_row change uuid generation = record {
  resource_type = change.resource_type;
  resource_uuid = uuid;
  generation = generation;
  body = if is_upsert change then upserted_body change.resource else none;
  deleted = str_eq change.operation "delete";
}

-- The columns of an account's row that its other statements read.
abbrev pub desired_view : DesiredRow → Option Body → Desired
desired_view row none = record {
  generation = row.generation;
  deleted = row.deleted;
  synchronization_enabled = false;
  projection_reset_generation = 0;
}
desired_view row (some body) = record {
  generation = row.generation;
  deleted = row.deleted;
  synchronization_enabled = body.synchronization_enabled;
  projection_reset_generation = body.projection_reset_generation;
}

unfoldable pub view_row : DesiredRow → (ℕ → AccountState) → ℕ → AccountState
view_row row accounts =
    if str_eq row.resource_type "external_account"
    then set_account row.resource_uuid
        (record (accounts row.resource_uuid) { desired = some (desired_view row row.body) })
        accounts
    else accounts

-- What follows the INSERT for an account.
unfoldable pub account_upserted : ℕ → ℕ → Option Body → ℕ → ControlStore → Result ControlStore
unfolding reconcile_account
account_upserted uuid generation none now s = raised "AttributeError"
account_upserted uuid generation (some body) now s =
    reconcile_account uuid generation body.projection_reset_generation now s

unfoldable pub account_effects : Change → ℕ → ℕ → ℕ → ControlStore → Result ControlStore
unfolding account_upserted
account_effects change uuid generation now s =
    let t = drop_cursors uuid s in
    if is_upsert change
    then account_upserted uuid generation (upserted_body change.resource) now t
    else ok t

-- What follows the INSERT for a chat assignment; `previous` is the body before it.
unfoldable pub assignment_upserted :
    Option Body → Option Body → ℕ → ControlStore → Result ControlStore
unfolding install_assignment is_replaced tombstone_before
assignment_upserted previous none now s = raised "AttributeError"
assignment_upserted previous (some body) now s =
    install_assignment body now
      (if is_replaced previous body then tombstone_before previous s else s)

unfoldable pub assignment_effects : Change → Option Body → ℕ → ControlStore → Result ControlStore
unfolding assignment_upserted tombstone_before
assignment_effects change previous now s =
    if is_upsert change
    then assignment_upserted previous (upserted_body change.resource) now s
    else ok (tombstone_before previous s)

unfoldable pub change_effects :
    Change → ℕ → ℕ → Option Body → ℕ → ControlStore → Result ControlStore
unfolding account_effects assignment_effects
change_effects change uuid generation previous now s =
    if str_eq change.resource_type "external_account"
    then account_effects change uuid generation now s
    else if str_eq change.resource_type "external_chat_assignment"
    then assignment_effects change previous now s
    else ok s

abbrev pub uuid_column : Option ℕ → Result ℕ
uuid_column none = database_error
uuid_column (some uuid) = ok uuid

-- int(…)
abbrev pub int_of : Option ℕ → Result ℕ
int_of none = raised "TypeError"
int_of (some n) = ok n

unfoldable pub apply_row :
    Change → ℕ → ℕ → ℕ → ControlStore → Bool × List DesiredRow → Result ControlStore
unfolding change_effects view_row find_resource
apply_row change uuid generation now s (false, rows) = ok s
apply_row change uuid generation now s (true, rows) =
    change_effects change uuid generation
      (body_before (find_resource change.resource_type uuid s.resources)) now
      (record s {
        resources = rows;
        accounts = view_row (changed_row change uuid generation) s.accounts;
      })

-- A round of the loop of apply_desired_changes.
unfoldable pub apply_change : Change → ℕ → ControlStore → Result ControlStore
unfolding apply_row put_resource
apply_change change now s = do
  uuid ← uuid_column change.resource_uuid
  generation ← int_of change.generation
  require (is_resource_type change.resource_type) "Unsupported desired-state resource type"
  require (is_upsert change || str_eq change.operation "delete")
      "Unsupported desired-state operation"
  apply_row change uuid generation now s
      (put_resource (changed_row change uuid generation) s.resources)

unfoldable pub apply_all : List Change → ℕ → ControlStore → Result ControlStore
unfolding apply_change
apply_all [] now s = ok s
apply_all (change ∷ changes) now s = do t ← apply_change change now s; apply_all changes now t

unfoldable pub apply_desired_changes : List Change → String → ℕ → ControlStore → Result ControlStore
unfolding validate_changes apply_all
apply_desired_changes changes next_cursor now s = do
  validate_changes changes
  t ← apply_all changes now s
  ok (record t { control_cursor = next_cursor })
