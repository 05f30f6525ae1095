-- ===== src/Mappings/Reactions.antt =====
-- What the order of the DELETE and the INSERT decides when a reaction takes a new provider
-- identifier.
use workspace_zulip_bridge.Common.{
  String, Bool, true, false, not, ◌&&◌, str_eq, Option, some, List, [], ◌∷◌, ◌≡◌, refl, arith,
  Bool-cases, inl, inr,
}
use workspace_zulip_bridge.Queue.Types.{Mapping, Metadata, Mappings, Record, ok, database_error}
use workspace_zulip_bridge.Mappings.{
  any, at_workspace, at_provider, is_rival, insert_moved, delete_where,
}
use workspace_zulip_bridge.Mappings.Persist.{
  new_mapping, reaction_metadata, is_stale, set_reaction, save_reaction,
}

module _ (new : Mapping) where
  -- Another row of its UUID.
  abbrev pub rivals : Mapping → Bool
  rivals m =
      at_workspace new.account_uuid new.entity_kind new.workspace_uuid m
      && not (str_eq m.provider_id new.provider_id)

  pub rival_free : (table : List Mapping) → any (is_rival new) (delete_where rivals table) ≡ false
  unfolding any
  rival_free [] = refl
  rival_free (m ∷ table) = ground (arith, rival_free table)

  stale_rival : (table : List Mapping) → any rivals table ≡ true → any (is_rival new) table ≡ true
  unfolding any
  stale_rival [] h = absurd (cc h)
  stale_rival (m ∷ table) h = ground (arith, stale_rival table)

  pub insert_free :
      (set : Mapping → Mapping) (table : List Mapping)
      → any (is_rival new) table ≡ false
      → (after : List Mapping) × (insert_moved new set table ≡ ok after)
  unfolding insert_moved
  insert_free set table h =
      elim (Bool-cases (any (at_provider new.account_uuid new.entity_kind new.provider_id) table)) [
        | inl e ↦ rw (h, e) (_, refl)
        | inr e ↦ rw (h, e) (_, refl)
      ]

  insert_refused :
      (set : Mapping → Mapping) (table : List Mapping)
      → any (is_rival new) table ≡ true
      → insert_moved new set table ≡ database_error
  unfolding insert_moved
  insert_refused set table h =
      elim (Bool-cases (any (at_provider new.account_uuid new.entity_kind new.provider_id) table)) [
        | inl e ↦ rw (h, e) refl
        | inr e ↦ rw (h, e) refl
      ]

-- For a reaction whose payload is complete, and which got a provider identifier other than the one
-- of its mapping: the commit returns if PostgreSQL runs the DELETE of the stale mapping before the
-- INSERT, and is refused by the primary key if it runs the INSERT first.
pub stale_reaction :
    (r : Record) (id : String) (revision : Option String) (metadata : Metadata) (before : Mappings)
    → reaction_metadata r ≡ ok metadata
    → any (is_stale r id) before.0 ≡ true
    → ((after : Mappings) × (save_reaction true r (some id) revision before ≡ ok after))
      × (save_reaction false r (some id) revision before ≡ database_error)
unfolding save_reaction
stale_reaction r id revision metadata before complete stale =
    let new = new_mapping r "reaction" id revision metadata in
    let (after, e) =
      insert_free new (set_reaction r revision metadata) (delete_where (is_stale r id) before.0)
        (rival_free new before.0) in
    (
      ((delete_where (is_stale r id) after, before.1), rw (complete, e) refl),
      rw
          (
            complete,
            insert_refused new (set_reaction r revision metadata) before.0
                (stale_rival new before.0 stale),
          )
          refl,
    )
