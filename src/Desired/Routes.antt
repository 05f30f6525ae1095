-- ===== src/Desired/Routes.antt =====
-- Where the mappings of a projected topic lead, and which mappings a tombstone leaves.
use workspace_zulip_bridge.Common.{
  ℕ, String, true, false, not, ◌&&◌, Option, none, some, List, [], ◌∷◌, str_eq, eq_iff, keep,
  update_where, ◌≡◌, refl, ◌∙◌, arith, ==_refl, Bool-cases, inl, inr, All, All-update_where,
  is_some,
}
use workspace_zulip_bridge.Queue.Types.{Mapping, Metadata, Mappings, Store, ok}
use workspace_zulip_bridge.Scheduler.Mapping.{find_mapping, alias_or_mapping, workspace_mapping}
use workspace_zulip_bridge.Mappings.{
  any, overlay, at_workspace, at_provider, is_rival, insert_moved, insert_alias, mark_deleted,
  delete_where,
}
use workspace_zulip_bridge.Mappings.Lookup.{wanted}
use workspace_zulip_bridge.Mappings.Reactions.{rival_free, insert_free}
use workspace_zulip_bridge.Desired.{Body, DesiredRow, Projection, Stream}
use workspace_zulip_bridge.Desired.Project.{
  projected, redirect, is_displaced, is_superseded, alias_displaced, redirect_topics,
  replace_projection_mapping,
}
use workspace_zulip_bridge.Desired.Retire.{
  uses_identity, is_retired, tombstone_stream, tombstone_projection, tombstone_workspace_projection,
}

module _ (account uuid : ℕ) (id : String) where
  -- A row that answers for the topic leads to its provider identifier.
  abbrev Leads : Mapping → Type 0
  Leads m = (wanted account "topic" uuid m && not (str_eq m.provider_id id)) ≡ false

  abbrev LeadsTo : Option Mapping → Type 0
  LeadsTo none = Unit
  LeadsTo (some m) = m.provider_id ≡ id

  find_mapping-LeadsTo :
      (table : List Mapping)
      → All Leads table
      → LeadsTo (find_mapping (wanted account "topic" uuid) table)
  unfolding find_mapping
  find_mapping-LeadsTo [] h = tt
  find_mapping-LeadsTo (m ∷ table) h = elim (Bool-cases (wanted account "topic" uuid m)) [
    | inl e ↦ rw e (ground (arith, e, h.0, eq_iff m.provider_id id))
    | inr e ↦ rw e (find_mapping-LeadsTo table h.1)
  ]

  own-Leads :
      (aliases : List Mapping)
      → All Leads (
          update_where
            (λ m.
              at_workspace account "topic" uuid m && not (str_eq m.provider_id id) && not m.deleted)
            mark_deleted
            aliases)
  unfolding update_where
  own-Leads [] = tt
  own-Leads (m ∷ aliases) = (ground arith, own-Leads aliases)

  moved-Leads :
      (authoritative : List ℕ) (metadata : Metadata) (aliases : List Mapping)
      → All Leads aliases
      → All Leads (
          update_where
            (λ m. at_provider account "topic" id m && is_displaced uuid id authoritative m)
            (redirect metadata)
            aliases)
  moved-Leads authoritative metadata aliases h =
      All-update_where Leads Leads _ (redirect metadata) (λ m k e. ground arith) (λ m k e. k)
        aliases h

  alias_displaced-Leads :
      (metadata : Metadata) (displaced aliases : List Mapping)
      → All Leads aliases
      → All Leads (alias_displaced id metadata displaced aliases)
  unfolding alias_displaced insert_alias
  alias_displaced-Leads metadata [] aliases h = h
  alias_displaced-Leads metadata (m ∷ displaced) aliases h =
      alias_displaced-Leads metadata displaced
        (insert_alias (projected m.account_uuid m.entity_kind m.workspace_uuid id metadata)
          (λ a. record a { provider_id = id; metadata = metadata; deleted = false }) aliases)
        (elim (Bool-cases
          (any (at_workspace m.account_uuid m.entity_kind m.workspace_uuid) aliases)) [
            | inl e ↦ rw e (
                All-update_where Leads Leads _ _ (λ a k f. ground (arith, eq_iff id id))
                  (λ a k f. k) aliases h)
            | inr e ↦ rw e (ground (arith, eq_iff id id), h)
          ])

  redirect_topics-Leads :
      (authoritative : List ℕ) (metadata : Metadata) (table aliases : List Mapping)
      → All Leads (redirect_topics account uuid id metadata authoritative table aliases)
  unfolding redirect_topics
  redirect_topics-Leads authoritative metadata table aliases =
      alias_displaced-Leads metadata
        (keep (λ m. at_provider account "topic" id m && is_displaced uuid id authoritative m) table)
        _ (moved-Leads authoritative metadata _ (own-Leads aliases))

  rest-Leads :
      (table : List Mapping)
      → All Leads (delete_where (is_superseded account "topic" uuid id) table)
  rest-Leads [] = tt
  rest-Leads (m ∷ table) = elim (Bool-cases (is_superseded account "topic" uuid id m)) [
    | inl e ↦ rw e (rest-Leads table)
    | inr e ↦ rw e (ground arith, rest-Leads table)
  ]

  unfoldable installed : Metadata → Mapping → Mapping
  unfolding overlay
  installed metadata m = record m {
    workspace_uuid = uuid;
    metadata = overlay m.metadata metadata;
    deleted = false;
  }

  update-wanted :
      (metadata : Metadata) (table : List Mapping)
      → any (at_provider account "topic" id) table ≡ true
      → is_some (
          find_mapping
            (wanted account "topic" uuid)
            (update_where (at_provider account "topic" id) (installed metadata) table))
        ≡ true
  unfolding any find_mapping update_where installed
  update-wanted metadata [] h = absurd (cc h)
  update-wanted metadata (m ∷ table) h = elim (Bool-cases (at_provider account "topic" id m)) [
    | inl e ↦ rw e (ground (arith, e))
    | inr e ↦ rw e (ground (arith, e, h, update-wanted metadata table))
  ]

  -- What the INSERT leaves: all rows lead to the identifier, and there is one.
  insert-Leads :
      (metadata : Metadata) (table after : List Mapping)
      → All Leads table
      → insert_moved (projected account "topic" uuid id metadata) (installed metadata) table
        ≡ ok after
      → All Leads after × (is_some (find_mapping (wanted account "topic" uuid) after) ≡ true)
  unfolding insert_moved find_mapping installed
  insert-Leads metadata table after h e =
      elim (Bool-cases (any (is_rival (projected account "topic" uuid id metadata)) table)) [
        | inl taken ↦ elim (Bool-cases (any (at_provider account "topic" id) table)) [
          | inl f ↦ absurd (cc (rw (taken, f) at e))
          | inr f ↦ absurd (cc (rw (taken, f) at e))
        ]
        | inr free ↦ elim (Bool-cases (any (at_provider account "topic" id) table)) [
          | inl f ↦
              let same : update_where (at_provider account "topic" id) (installed metadata) table
                  ≡ after =
                cc (rw (free, f) at e) in
              rw⁻¹ same (
                All-update_where Leads Leads _ (installed metadata)
                    (λ m k g. ground (arith, eq_iff m.provider_id id)) (λ m k g. k) table h,
                update-wanted metadata table f,
              )
          | inr f ↦
              let same : (projected account "topic" uuid id metadata) ∷ table ≡ after =
                cc (rw (free, f) at e) in
              rw⁻¹ same
                ((ground (arith, eq_iff id id), h), ground (arith, ==_refl account, ==_refl uuid))
        ]
      ]

-- The rows that the store has when the projection of a mapping was replaced.
abbrev pub with_mappings : Store → Mappings → Store
with_mappings s mappings = record s { mappings = mappings.0; aliases = mappings.1 }

module _ (account uuid : ℕ) (id : String) (s : Store) where
  alias_lookup-LeadsTo :
      (o : Option Mapping)
      → LeadsTo account uuid id o
      → is_some (find_mapping (wanted account "topic" uuid) s.mappings) ≡ true
      → LeadsTo account uuid id (find_mapping (wanted account "topic" uuid) s.mappings)
      → (m : Mapping) × (alias_or_mapping s account "topic" uuid o ≡ some m) × (m.provider_id ≡ id)
  unfolding alias_or_mapping
  alias_lookup-LeadsTo (some alias) h there k = (_, refl, h)
  alias_lookup-LeadsTo none h there k =
      found (find_mapping (wanted account "topic" uuid) s.mappings) there k
    where
      found :
          (o : Option Mapping)
          → is_some o ≡ true
          → LeadsTo account uuid id o
          → (m : Mapping) × (o ≡ some m) × (m.provider_id ≡ id)
      found none there k = absurd (cc there)
      found (some m) there k = (m, refl, k)

-- Replacing the mapping of a topic always returns, and then workspace_mapping answers the given
-- provider identifier for the topic's UUID, whatever mappings and aliases there were before.
pub replace_projection_mapping-workspace_mapping :
    (account uuid : ℕ) (id : String) (metadata : Metadata) (authoritative : List ℕ) (s : Store)
    → (after : Mappings) × (replace_projection_mapping account "topic" uuid id metadata
          authoritative
          (s.mappings, s.aliases)
        ≡ ok after)
      × ((m : Mapping) × (workspace_mapping (with_mappings s after) account "topic" uuid ≡ some m)
          × (m.provider_id ≡ id))
unfolding replace_projection_mapping workspace_mapping installed
replace_projection_mapping-workspace_mapping account uuid id metadata authoritative s =
    let new = projected account "topic" uuid id metadata in
    let rest = delete_where (is_superseded account "topic" uuid id) s.mappings in
    let (table, e) =
      insert_free new (installed account uuid id metadata) rest (rival_free new s.mappings) in
    let (leads, there) =
      insert-Leads account uuid id metadata rest table (rest-Leads account uuid id s.mappings) e in
    let aliases = redirect_topics account uuid id metadata authoritative rest s.aliases in
    (
      (table, aliases),
      rw e refl,
      alias_lookup-LeadsTo account uuid id (with_mappings s (table, aliases))
          (find_mapping (wanted account "topic" uuid) aliases)
          (find_mapping-LeadsTo account uuid id aliases
            (redirect_topics-Leads account uuid id authoritative metadata rest s.aliases))
          there (find_mapping-LeadsTo account uuid id table leads),
    )

module _ (resources : List DesiredRow) (account uuid : ℕ)
    (used : uses_identity account uuid resources ≡ true) where
  idle :
      (owner stream : ℕ) (topics participants : List ℕ) (m : Mapping)
      → m.entity_kind ≡ "identity"
      → uses_identity m.account_uuid m.workspace_uuid resources ≡ true
      → false ≡ is_retired resources owner stream topics participants m
  unfolding is_retired
  idle owner stream topics participants m h k = rw (h, k) (ground arith)

  retired_differs :
      (owner stream : ℕ) (topics participants : List ℕ) (m : Mapping)
      → is_retired resources owner stream topics participants m ≡ true
      → wanted account "identity" uuid m ≡ false
  unfolding is_retired
  retired_differs owner stream topics participants m h =
      elim (Bool-cases (wanted account "identity" uuid m)) [
        | inl e ↦
            let who : m.account_uuid ≡ account = ground (arith, e) in
            let which : m.workspace_uuid ≡ uuid = ground (arith, e) in
            let what : m.entity_kind ≡ "identity" =
              ground (arith, e, eq_iff m.entity_kind "identity") in
            let kept : uses_identity m.account_uuid m.workspace_uuid resources ≡ true =
              rw (who, which) used in
            absurd (cc (idle owner stream topics participants m what kept ∙ h))
        | inr e ↦ e
      ]

  find-retired :
      (owner stream : ℕ) (topics participants : List ℕ) (table : List Mapping)
      → find_mapping
          (wanted account "identity" uuid)
          (update_where (is_retired resources owner stream topics participants) mark_deleted table)
        ≡ find_mapping (wanted account "identity" uuid) table
  unfolding find_mapping update_where
  find-retired owner stream topics participants [] = refl
  find-retired owner stream topics participants (m ∷ table) =
      elim (Bool-cases (is_retired resources owner stream topics participants m)) [
        | inl e ↦ ground (
          arith,
          e,
          retired_differs owner stream topics participants m e,
          find-retired owner stream topics participants table,
        )
        | inr e ↦ rw (e, find-retired owner stream topics participants table) refl
      ]

-- A tombstone leaves the mapping of an identity that another assignment of its account shows.
pub tombstone_workspace_projection-used :
    (resources : List DesiredRow) (body : Body) (account uuid : ℕ) (mappings : Mappings)
    → uses_identity account uuid resources ≡ true
    → find_mapping
        (wanted account "identity" uuid)
        (tombstone_workspace_projection resources body mappings).0
      ≡ find_mapping (wanted account "identity" uuid) mappings.0
unfolding tombstone_workspace_projection tombstone_projection tombstone_stream
tombstone_workspace_projection-used resources body account uuid mappings h =
    projection body.workspace_projection
  where
    stream :
        (p : Projection) (o : Option Stream)
        → find_mapping
            (wanted account "identity" uuid)
            (tombstone_stream resources body p o mappings).0
          ≡ find_mapping (wanted account "identity" uuid) mappings.0
    stream p none = refl
    stream p (some found) = find-retired resources account uuid h _ _ _ _ mappings.0

    projection :
        (o : Option Projection)
        → find_mapping
            (wanted account "identity" uuid)
            (tombstone_projection resources body o mappings).0
          ≡ find_mapping (wanted account "identity" uuid) mappings.0
    projection none = refl
    projection (some p) = stream p p.stream
