-- ===== src/Mappings/Isolation.antt =====
-- The commit of an operation writes only the mappings of its own account.
use workspace_zulip_bridge.Common.{
  ℕ, String, Bool, true, false, not, Option, none, some, List, [], ◌∷◌, ◌==◌, str_eq, if◌then◌else◌,
  keep, update_where, ◌≡◌, refl, ◌∙◌, arith, ==_refl, Bool-cases, inl, inr, ◌||◌,
}
use workspace_zulip_bridge.Queue.Types.{Mapping, Metadata, Mappings, Record, ok}
use workspace_zulip_bridge.Queue.Raises.{
  Holds, Holds-bind, Holds-any, Holds-if, Holds-ok, Holds-first_case,
}
use workspace_zulip_bridge.Mappings.{
  at_workspace, at_provider, unless_taken, any, is_rival, insert_moved, insert_kept, insert_alias,
  mark_deleted, delete_where,
}
use workspace_zulip_bridge.Mappings.Persist.{
  identified, new_mapping, topic_metadata, replace_topic, create_topic, message_metadata,
  refresh_message, replace_alias, create_message, reaction_metadata, is_stale, set_reaction,
  save_reaction, update_message, move_topic, move_aliases, topic_taken, update_topic, delete_entity,
  update_stream, delete_reaction, persist_committed_mapping,
}

-- A row of another account.
abbrev pub is_foreign : ℕ → Mapping → Bool
is_foreign account m = not (m.account_uuid == account)

abbrev pub foreign : ℕ → List Mapping → List Mapping
foreign account = keep (is_foreign account)

-- A test that only rows of the account pass.
abbrev Owned : ℕ → (Mapping → Bool) → Type 0
Owned account p = (m : Mapping) → p m ≡ true → is_foreign account m ≡ false

at_workspace-Owned :
    (account : ℕ) (kind : String) (uuid : ℕ) → Owned account (at_workspace account kind uuid)
at_workspace-Owned account kind uuid m h = ground arith

at_provider-Owned : (account : ℕ) (kind id : String) → Owned account (at_provider account kind id)
at_provider-Owned account kind id m h = ground arith

foreign-update_where :
    (account : ℕ) (p : Mapping → Bool) (f : Mapping → Mapping)
    → Owned account p
    → ((m : Mapping) → (f m).account_uuid ≡ m.account_uuid)
    → (table : List Mapping) → foreign account (update_where p f table) ≡ foreign account table
unfolding update_where
foreign-update_where account p f o k [] = refl
foreign-update_where account p f o k (m ∷ table) = elim (Bool-cases (p m)) [
  | inl e ↦ rw (e, k m, o m e, foreign-update_where account p f o k table) refl
  | inr e ↦ rw (e, foreign-update_where account p f o k table) refl
]

foreign-delete_where :
    (account : ℕ) (p : Mapping → Bool)
    → Owned account p
    → (table : List Mapping) → foreign account (delete_where p table) ≡ foreign account table
foreign-delete_where account p o [] = refl
foreign-delete_where account p o (m ∷ table) = elim (Bool-cases (p m)) [
  | inl e ↦ rw (e, o m e, foreign-delete_where account p o table) refl
  | inr e ↦ rw (e, foreign-delete_where account p o table) refl
]

foreign-new :
    (account : ℕ) (new : Mapping) (table : List Mapping)
    → new.account_uuid ≡ account
    → foreign account (new ∷ table) ≡ foreign account table
foreign-new account new table e = rw (e, ==_refl account) refl

unless_taken-foreign :
    (account : ℕ) (before : List Mapping) (taken : Bool) (after : List Mapping)
    → foreign account after ≡ foreign account before
    → Holds (λ table. foreign account table ≡ foreign account before) (unless_taken taken after)
unless_taken-foreign account before true after h = tt
unless_taken-foreign account before false after h = h

module _ (account : ℕ) (new : Mapping) (set : Mapping → Mapping) (own : new.account_uuid ≡ account)
    (keeps : (m : Mapping) → (set m).account_uuid ≡ m.account_uuid) (table : List Mapping) where
  workspace-Owned : Owned account (at_workspace new.account_uuid new.entity_kind new.workspace_uuid)
  workspace-Owned m h = ground arith

  provider-Owned : Owned account (at_provider new.account_uuid new.entity_kind new.provider_id)
  provider-Owned m h = ground arith

  insert_moved-foreign :
      Holds (λ after. foreign account after ≡ foreign account table) (insert_moved new set table)
  unfolding insert_moved
  insert_moved-foreign =
      Holds-if (λ after. foreign account after ≡ foreign account table)
        (any (at_provider new.account_uuid new.entity_kind new.provider_id) table) _ _
        (unless_taken-foreign account table (any (is_rival new) table) _
          (foreign-update_where account _ set provider-Owned keeps table))
        (unless_taken-foreign account table (any (is_rival new) table) _
          (foreign-new account new table own))

  insert_kept-foreign :
      Holds (λ after. foreign account after ≡ foreign account table) (insert_kept new set table)
  unfolding insert_kept
  insert_kept-foreign =
      Holds-if (λ after. foreign account after ≡ foreign account table)
        (any (at_provider new.account_uuid new.entity_kind new.provider_id) table) _ _
        (foreign-update_where account _ set provider-Owned keeps table)
        (unless_taken-foreign account table (any (is_rival new) table) _
          (foreign-new account new table own))

  foreign-insert_alias : foreign account (insert_alias new set table) ≡ foreign account table
  unfolding insert_alias
  foreign-insert_alias =
      elim (Bool-cases
        (any (at_workspace new.account_uuid new.entity_kind new.workspace_uuid) table)) [
          | inl e ↦ rw e (foreign-update_where account _ set workspace-Owned keeps table)
          | inr e ↦ rw e (foreign-new account new table own)
        ]

-- The rows of the other accounts are in both tables as they were.
abbrev pub Spares : ℕ → Mappings → Mappings → Type 0
Spares account before after =
    (foreign account after.0 ≡ foreign account before.0)
    × (foreign account after.1 ≡ foreign account before.1)

module _ (r : Record) (entity revision : Option String) (before : Mappings) where
  create_topic-Spares : Holds (Spares r.account_uuid before) (create_topic r entity revision before)
  unfolding create_topic
  create_topic-Spares = Holds-any _ (identified entity _) _ λ id.
      Holds-any _ (topic_metadata r) _ λ metadata.
        Holds-bind (λ table. foreign r.account_uuid table ≡ foreign r.account_uuid before.0)
          (Spares r.account_uuid before) _ (λ table. ok (table, before.1))
          (insert_moved-foreign r.account_uuid (new_mapping r "topic" id revision metadata)
            (replace_topic r revision metadata) refl (λ m. refl) before.0)
          λ table h. (h, refl)

  create_message-Spares :
      Holds (Spares r.account_uuid before) (create_message r entity revision before)
  unfolding create_message refresh_message
  create_message-Spares = Holds-any _ (identified entity _) _ λ id.
      Holds-any _ (message_metadata r) _ λ metadata.
        Holds-bind (λ table. foreign r.account_uuid table ≡ foreign r.account_uuid before.0)
          (Spares r.account_uuid before) _ _
          (insert_kept-foreign r.account_uuid (new_mapping r "message" id revision metadata)
            (refresh_message revision metadata) refl (λ m. refl) before.0)
          λ table h. (
            h,
            foreign-insert_alias r.account_uuid (new_mapping r "message" id none metadata)
                (replace_alias id metadata) refl (λ m. refl) before.1,
          )

  is_stale-Owned : (id : String) → Owned r.account_uuid (is_stale r id)
  is_stale-Owned id m h = ground arith

  save_reaction-Spares :
      (removed_first : Bool)
      → Holds (Spares r.account_uuid before) (save_reaction removed_first r entity revision before)
  unfolding save_reaction set_reaction
  save_reaction-Spares removed_first = Holds-any _ (identified entity _) _ λ id.
      Holds-any _ (reaction_metadata r) _ λ metadata.
        let start = if removed_first then delete_where (is_stale r id) before.0 else before.0 in
        Holds-bind (λ table. foreign r.account_uuid table ≡ foreign r.account_uuid start)
          (Spares r.account_uuid before) _ _
          (insert_moved-foreign r.account_uuid (new_mapping r "reaction" id revision metadata)
            (set_reaction r revision metadata) refl (λ m. refl) start)
          λ table h. (
            foreign-delete_where r.account_uuid (is_stale r id) (is_stale-Owned id) table
                ∙ h
                ∙ started id removed_first,
            refl,
          )
    where
      started :
          (id : String) (first : Bool)
          → foreign r.account_uuid
              (if first then delete_where (is_stale r id) before.0 else before.0)
            ≡ foreign r.account_uuid before.0
      started id true =
          foreign-delete_where r.account_uuid (is_stale r id) (is_stale-Owned id) before.0
      started id false = refl

  foreign-at_workspace :
      (kind : String) (f : Mapping → Mapping)
      → ((m : Mapping) → (f m).account_uuid ≡ m.account_uuid)
      → (table : List Mapping)
      → foreign r.account_uuid
          (update_where (at_workspace r.account_uuid kind r.operation.entity_uuid) f table)
        ≡ foreign r.account_uuid table
  foreign-at_workspace kind f k table =
      foreign-update_where r.account_uuid _ f
        (at_workspace-Owned r.account_uuid kind r.operation.entity_uuid) k table

  update_message-Spares : Spares r.account_uuid before (update_message r revision before)
  unfolding update_message
  update_message-Spares = (
    foreign-at_workspace "message" _ (λ m. refl) before.0,
    foreign-at_workspace "message" _ (λ m. refl) before.1,
  )

  foreign-move_aliases :
      (previous : Option String) (id : String) (metadata : Metadata)
      → foreign r.account_uuid (move_aliases r previous id metadata before.1)
        ≡ foreign r.account_uuid before.1
  unfolding move_aliases
  foreign-move_aliases none id metadata = refl
  foreign-move_aliases (some previous) id metadata =
      foreign-update_where r.account_uuid _ _ (at_provider-Owned r.account_uuid "topic" previous)
        (λ m. refl) before.1

  update_topic-Spares : Holds (Spares r.account_uuid before) (update_topic r entity revision before)
  unfolding update_topic move_topic
  update_topic-Spares = Holds-any _ (identified entity _) _ λ id.
      Holds-any _ (topic_metadata r) _ λ metadata.
        Holds-bind (λ table. foreign r.account_uuid table ≡ foreign r.account_uuid before.0)
          (Spares r.account_uuid before) _ _
          (unless_taken-foreign r.account_uuid before.0 (topic_taken r id before.0) _
            (foreign-at_workspace "topic" (move_topic r id revision metadata) (λ m. refl) before.0))
          λ table h. (h, foreign-move_aliases r.operation.entity_id id metadata)

  delete_entity-Spares :
      (kind : String) → Spares r.account_uuid before (delete_entity r kind before)
  unfolding delete_entity
  delete_entity-Spares kind = (
    foreign-at_workspace kind mark_deleted (λ m. refl) before.0,
    foreign-at_workspace kind mark_deleted (λ m. refl) before.1,
  )

  update_stream-Spares : Spares r.account_uuid before (update_stream r revision before)
  unfolding update_stream
  update_stream-Spares = (foreign-at_workspace "stream" _ (λ m. refl) before.0, refl)

  delete_reaction-Spares : Spares r.account_uuid before (delete_reaction r before)
  unfolding delete_reaction
  delete_reaction-Spares = (foreign-at_workspace "reaction" _ (λ m. refl) before.0, refl)

  persist-Spares :
      (removed_first : Bool)
      → Holds
          (Spares r.account_uuid before)
          (persist_committed_mapping removed_first r entity revision before)
  unfolding persist_committed_mapping
  persist-Spares first =
      let is : String → Bool = str_eq r.operation.kind in
      Holds-first_case (Spares r.account_uuid before)
        ((is "topic.create", create_topic r entity revision before)
          ∷ (is "message.create", create_message r entity revision before)
          ∷ (
            is "reaction.create" || is "reaction.update",
            save_reaction first r entity revision before,
          )
          ∷ (is "message.update", ok (update_message r revision before))
          ∷ (is "topic.upsert", update_topic r entity revision before)
          ∷ (is "topic.delete", ok (delete_entity r "topic" before))
          ∷ (is "stream.upsert", ok (update_stream r revision before))
          ∷ (is "message.delete", ok (delete_entity r "message" before))
          ∷ (is "reaction.delete", ok (delete_reaction r before))
          ∷ [])
        (ok before)
        (
          create_topic-Spares,
          (
            create_message-Spares,
            (
              save_reaction-Spares first,
              (
                update_message-Spares,
                (
                  update_topic-Spares,
                  (
                    delete_entity-Spares "topic",
                    (
                      update_stream-Spares,
                      (delete_entity-Spares "message", (delete_reaction-Spares, tt)),
                    ),
                  ),
                ),
              ),
            ),
          ),
        )
        (refl, refl)

-- Whatever the kind of the operation, a commit that returns leaves the rows of every other account
-- in both tables as they were, in their order; this holds for both orders of the reaction's DELETE
-- and INSERT.
pub persist_committed_mapping-Spares :
    (removed_first : Bool) (r : Record) (entity revision : Option String) (before after : Mappings)
    → persist_committed_mapping removed_first r entity revision before ≡ ok after
    → Spares r.account_uuid before after
persist_committed_mapping-Spares first r entity revision before after h =
    Holds-ok (Spares r.account_uuid before) _ after (persist-Spares r entity revision before first)
      h
