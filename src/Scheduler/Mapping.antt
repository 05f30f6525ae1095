-- ===== src/Scheduler/Mapping.antt =====
-- RestAlchemyStore.workspace_mapping of storage.py: an alias that is not deleted goes before the row
-- of provider_mappings.
use workspace_zulip_bridge.Common.{
  ℕ, String, Bool, not, ◌&&◌, Option, none, some, List, [], ◌∷◌, ◌==◌, str_eq, if◌then◌else◌,
}
use workspace_zulip_bridge.Queue.Types.{Mapping, Store}

abbrev pub of_entity : ℕ → String → Mapping → Bool
of_entity account kind m = m.account_uuid == account && str_eq m.entity_kind kind && not m.deleted

unfoldable pub find_mapping : (Mapping → Bool) → List Mapping → Option Mapping
find_mapping p [] = none
find_mapping p (m ∷ ms) = if p m then some m else find_mapping p ms

-- The revision that the LEFT JOIN takes from the mapping with the alias's provider_id.
abbrev pub joined_revision : Option Mapping → Option String
joined_revision none = none
joined_revision (some m) = m.provider_revision

unfoldable pub alias_or_mapping : Store → ℕ → String → ℕ → Option Mapping → Option Mapping
unfolding find_mapping
alias_or_mapping s account kind uuid (some alias) = some (record alias {
  provider_revision = joined_revision (
      find_mapping (λ m. of_entity account kind m && str_eq m.provider_id alias.provider_id)
        s.mappings);
})
alias_or_mapping s account kind uuid none =
    find_mapping (λ m. of_entity account kind m && m.workspace_uuid == uuid) s.mappings

unfoldable pub workspace_mapping : Store → ℕ → String → ℕ → Option Mapping
unfolding alias_or_mapping
workspace_mapping s account kind uuid =
    alias_or_mapping s account kind uuid
      (find_mapping (λ m. of_entity account kind m && m.workspace_uuid == uuid) s.aliases)
