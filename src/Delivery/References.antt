-- ===== src/Delivery/References.antt =====
-- save_references of history_delivery.py, and the checkpoint that sync_references computes.
use workspace_zulip_bridge.Common.{
  ℕ, ◌+◌, ◌-◌, String, Bool, false, not, ◌&&◌, ◌||◌, Option, none, some, List, [], ◌∷◌, ◌==◌,
  str_eq, if◌then◌else◌, ltb,
}
use workspace_zulip_bridge.Queue.Types.{Mapping, Metadata}
use workspace_zulip_bridge.Mappings.{any, at_workspace, at_provider}
use workspace_zulip_bridge.Delivery.{
  BatchRow, ImportStatus, Source, Item, MappingCursor, DeliveryStore, sources_for, sources_only,
}
use workspace_zulip_bridge.Delivery.Lease.{
  leased, lease_runs, any_batch, find_scope, set_batches, scope_current, same_sources,
}

-- One of page["mappings"].
pub record Reference : Type 0 where
  pub kind : String
  pub provider_id : String
  pub workspace_uuid : ℕ
  pub metadata : Metadata

abbrev pub reference_row : ℕ → Reference → Mapping
reference_row account r = record {
  account_uuid = account;
  entity_kind = r.kind;
  workspace_uuid = r.workspace_uuid;
  provider_id = r.provider_id;
  provider_revision = none;
  metadata = r.metadata;
  deleted = false;
}

-- INSERT INTO provider_mappings … ON CONFLICT DO NOTHING: either key may conflict.
abbrev pub has_row : ℕ → Reference → Mapping → Bool
has_row account r m =
    at_workspace account r.kind r.workspace_uuid m || at_provider account r.kind r.provider_id m

unfoldable pub install_references : ℕ → List Reference → List Mapping → List Mapping
unfolding any
install_references account [] table = table
install_references account (r ∷ references) table =
    install_references account references
      (if any (has_row account r) table then table else reference_row account r ∷ table)

-- JOIN provider_mappings AS existing
abbrev pub is_canonical : ℕ → Reference → Mapping → Bool
is_canonical account r m =
    at_provider account r.kind r.provider_id m
    && not (m.workspace_uuid == r.workspace_uuid)
    && not m.deleted

-- INSERT INTO provider_mapping_aliases … ON CONFLICT DO NOTHING
unfoldable pub install_aliases : ℕ → List Mapping → List Reference → List Mapping → List Mapping
unfolding any
install_aliases account table [] aliases = aliases
install_aliases account table (r ∷ references) aliases = install_aliases account table references (
    if any (is_canonical account r) table
      && not (any (at_workspace account r.kind r.workspace_uuid) aliases)
    then reference_row account r ∷ aliases
    else aliases)

unfoldable pub checkpoint_row : Item → MappingCursor → Bool → ℕ → BatchRow → BatchRow
checkpoint_row item cursor complete now row = record row {
  import_mapping_cursor = some cursor;
  import_status = if complete then ImportStatus.complete else ImportStatus.pending;
  import_uuid = item.import_uuid;
  import_error = none;
  import_lease = none;
  import_lease_until = none;
  import_retry_at = now + 100000;
}

module _ (fingerprint : DeliveryStore → ℕ → ℕ → String) where
  -- The checks behind the locks.
  unfoldable pub may_install : Item → ℕ → DeliveryStore → Bool
  unfolding sources_for any_batch
  may_install item now s =
      s.provider_enabled
      && scope_current fingerprint s item
          (find_scope item.key.project_uuid item.key.provider_realm_uuid s.scopes)
      && same_sources item.sources
          (sources_only (sources_for s item.key.project_uuid item.key.provider_realm_uuid))
      && any_batch (λ row. leased item.key item.lease row && lease_runs now row) s.batches

  unfoldable pub save_references :
      Item → ℕ → List Reference → MappingCursor → Bool → ℕ → DeliveryStore → DeliveryStore
  unfolding may_install install_references install_aliases checkpoint_row
  save_references item account references cursor complete now s =
      if may_install item now s
      then (let table = install_references account references s.mappings in
          set_batches (leased item.key item.lease) (checkpoint_row item cursor complete now)
            (record s {
              mappings = table;
              aliases = install_aliases account table references s.aliases;
            }))
      else s

-- The accounts of the sources, each once, in order; the sources stand in the order of their chats.
abbrev pub insert_account : ℕ → List ℕ → List ℕ
insert_account uuid [] = uuid ∷ []
insert_account uuid (other ∷ uuids) =
    let rest = insert_account uuid uuids in
    if uuid == other
    then other ∷ uuids
    else if ltb uuid other
    then uuid ∷ other ∷ uuids
    else other ∷ rest

abbrev pub account_list : List Source → List ℕ
account_list [] = []
account_list (source ∷ sources) = insert_account source.account_uuid (account_list sources)

abbrev pub cursor_or_start : Option MappingCursor → MappingCursor
cursor_or_start none = record { account = 0; kind = "users"; after = 0 }
cursor_or_start (some cursor) = cursor

-- The cursor behind a page, and whether it was the last page of the last account.
unfoldable pub next_cursor : Item → ℕ → MappingCursor → Option ℕ → MappingCursor × Bool
next_cursor item accounts cursor (some after) = (record cursor { after = after }, false)
next_cursor item accounts cursor none =
    if str_eq cursor.kind "users"
    then (record cursor { kind = "messages"; after = item.key.from_id - 1 }, false)
    else (
      record { account = cursor.account + 1; kind = "users"; after = 0 },
      (cursor.account + 1) == accounts,
    )
