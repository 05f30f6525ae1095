-- ===== src/Mappings/Lookup.antt =====
-- What workspace_mapping of storage.py answers after the commit of a message.create or a
-- message.delete.
use workspace_zulip_bridge.Common.{
  ℕ, String, Bool, true, false, ◌&&◌, Option, none, some, List, [], ◌∷◌, ◌==◌, str_eq,
  if◌then◌else◌, update_where, ◌≡◌, refl, sym, ap, ◌∙◌, arith, ==_refl, Bool-cases, inl, inr,
}
use workspace_zulip_bridge.Queue.Types.{
  Mapping, Metadata, Mappings, Record, ResultRecord, Outcome, Row, is_terminal, Store,
  QueuedOperation, Result, ok,
}
use workspace_zulip_bridge.Queue.Raises.{bind_ok}
use workspace_zulip_bridge.Queue.Complete.{
  complete, complete_found, complete_current, find_row, advance_lane,
}
use workspace_zulip_bridge.Scheduler.Mapping.{
  of_entity, joined_revision, find_mapping, alias_or_mapping, workspace_mapping,
}
use workspace_zulip_bridge.Mappings.{at_workspace, any, insert_alias, insert_kept, mark_deleted}
use workspace_zulip_bridge.Mappings.Persist.{
  new_mapping, message_metadata, refresh_message, replace_alias, create_message, delete_entity,
  persist_committed_mapping,
}

-- What workspace_mapping asks of a row.
abbrev pub wanted : ℕ → String → ℕ → Mapping → Bool
wanted account kind uuid m = of_entity account kind m && m.workspace_uuid == uuid

module _ (r : Record) (id : String) (metadata : Metadata) where
  abbrev IsNamed : Option Mapping → Type 0
  IsNamed o = (m : Mapping) × (o ≡ some m) × (m.provider_id ≡ id) × (m.metadata ≡ metadata)

  update_alias-IsNamed :
      (table : List Mapping)
      → any (at_workspace r.account_uuid "message" r.operation.entity_uuid) table ≡ true
      → IsNamed (
          find_mapping (wanted r.account_uuid "message" r.operation.entity_uuid) (
            update_where
              (at_workspace r.account_uuid "message" r.operation.entity_uuid)
              (replace_alias id metadata)
              table))
  unfolding any find_mapping update_where
  update_alias-IsNamed [] h = absurd (cc h)
  update_alias-IsNamed (m ∷ table) h =
      elim (Bool-cases (at_workspace r.account_uuid "message" r.operation.entity_uuid m)) [
        | inl e ↦ (replace_alias id metadata m, ground (arith, e), refl, refl)
        | inr e ↦
            let (found, eqn, named, held) = update_alias-IsNamed table (ground (arith, e, h)) in
            (found, ground (arith, e, eqn), named, held)
      ]

  insert_alias-IsNamed :
      (table : List Mapping)
      → IsNamed (
          find_mapping (wanted r.account_uuid "message" r.operation.entity_uuid) (
            insert_alias
              (new_mapping r "message" id none metadata)
              (replace_alias id metadata)
              table))
  unfolding insert_alias find_mapping
  insert_alias-IsNamed table =
      elim (Bool-cases
        (any (at_workspace r.account_uuid "message" r.operation.entity_uuid) table)) [
          | inl e ↦ rw e (update_alias-IsNamed table e)
          | inr e ↦ (
            new_mapping r "message" id none metadata,
            rw (e, ==_refl r.account_uuid, ==_refl r.operation.entity_uuid) refl,
            refl,
            refl,
          )
        ]

delete-none :
    (account : ℕ) (kind : String) (uuid : ℕ) (table : List Mapping)
    → find_mapping
        (wanted account kind uuid)
        (update_where (at_workspace account kind uuid) mark_deleted table)
      ≡ none
unfolding find_mapping update_where
delete-none account kind uuid [] = refl
delete-none account kind uuid (m ∷ table) = ground (arith, delete-none account kind uuid table)

persist-create :
    (first : Bool) (r : Record) (entity revision : Option String) (mappings : Mappings)
    → r.operation.kind ≡ "message.create"
    → persist_committed_mapping first r entity revision mappings
      ≡ create_message r entity revision mappings
unfolding persist_committed_mapping
persist-create first r entity revision mappings h = rw h refl

persist-delete :
    (first : Bool) (r : Record) (entity revision : Option String) (mappings : Mappings)
    → r.operation.kind ≡ "message.delete"
    → persist_committed_mapping first r entity revision mappings
      ≡ ok (delete_entity r "message" mappings)
unfolding persist_committed_mapping
persist-delete first r entity revision mappings h = rw h refl

module _ (persist : Record → Option String → Option String → Mappings → Result Mappings)
    (s t : Store) (item : QueuedOperation) (result : ResultRecord) (now : ℕ) where
  current_mappings :
      complete_current persist s item result Outcome.committed now ≡ ok t
      → persist item.body result.body.provider_entity_id result.body.provider_revision
          (s.mappings, s.aliases)
        ≡ ok (t.mappings, t.aliases)
  unfolding complete_current
  current_mappings h =
      let (lanes, _, rest) =
        bind_ok (if item.body.attempt == 1 then advance_lane item.body s.lanes else ok s.lanes) _ t
          h in
      let (mappings, e, done) =
        bind_ok
          (persist item.body result.body.provider_entity_id result.body.provider_revision
            (s.mappings, s.aliases))
          _ t rest in
      e ∙ ap ok (cc done)

  committed_mappings :
      (row : Row)
      → find_row item.record_uuid s.operations ≡ some row
      → is_terminal row.state ≡ false
      → complete persist s item result Outcome.committed now ≡ ok t
      → persist item.body result.body.provider_entity_id result.body.provider_revision
          (s.mappings, s.aliases)
        ≡ ok (t.mappings, t.aliases)
  unfolding complete complete_found
  committed_mappings row found running h = current_mappings (rw (found, running) at h)

created_alias :
    (r : Record) (entity revision : Option String) (before after : Mappings)
    → create_message r entity revision before ≡ ok after
    → (id : String) × (metadata : Metadata) × (entity ≡ some id)
      × (message_metadata r ≡ ok metadata)
      × (after.1
          ≡ insert_alias
              (new_mapping r "message" id none metadata)
              (replace_alias id metadata)
              before.1)
unfolding create_message
created_alias r none revision before after h = absurd (cc h)
created_alias r (some id) revision before after h =
    let (metadata, e, rest) = bind_ok (message_metadata r) _ after h in
    let (table, _, done) =
      bind_ok
        (insert_kept (new_mapping r "message" id revision metadata)
          (refresh_message revision metadata) before.0)
        _ after rest in
    (id, metadata, refl, e, cc done)

-- The answer from an alias.
abbrev with_revision : Store → ℕ → String → Mapping → Mapping
with_revision s account kind alias = record alias {
  provider_revision = joined_revision (
      find_mapping (λ m. of_entity account kind m && str_eq m.provider_id alias.provider_id)
        s.mappings);
}

alias_answers :
    (s : Store) (account : ℕ) (kind : String) (uuid : ℕ) (alias : Mapping)
    → find_mapping (wanted account kind uuid) s.aliases ≡ some alias
    → workspace_mapping s account kind uuid ≡ some (with_revision s account kind alias)
unfolding workspace_mapping alias_or_mapping
alias_answers s account kind uuid alias h = rw h refl

-- Where an open row of a message.create is completed as committed, the message has a provider
-- identifier, and workspace_mapping answers that identifier for the message, with the metadata of
-- this commit.
pub created_message_found :
    (removed_first : Bool) (s t : Store) (item : QueuedOperation) (result : ResultRecord) (now : ℕ)
    (row : Row)
    → item.body.operation.kind ≡ "message.create"
    → find_row item.record_uuid s.operations ≡ some row
    → is_terminal row.state ≡ false
    → complete (persist_committed_mapping removed_first) s item result Outcome.committed now ≡ ok t
    → (id : String) × (m : Mapping) × (metadata : Metadata) × (result.body.provider_entity_id
        ≡ some id)
      × (workspace_mapping t item.body.account_uuid "message" item.body.operation.entity_uuid
          ≡ some m)
      × (m.provider_id ≡ id)
      × (message_metadata item.body ≡ ok metadata)
      × (m.metadata ≡ metadata)
created_message_found first s t item result now row kind found running h =
    let stored =
      committed_mappings (persist_committed_mapping first) s t item result now row found running
        h in
    let created =
      sym (
        persist-create first item.body result.body.provider_entity_id result.body.provider_revision
          (s.mappings, s.aliases) kind)
      ∙ stored in
    let (id, metadata, e, made, aliases) =
      created_alias item.body result.body.provider_entity_id result.body.provider_revision
        (s.mappings, s.aliases) (t.mappings, t.aliases) created in
    let (alias, seen, named, held) = insert_alias-IsNamed item.body id metadata s.aliases in
    (
      id,
      with_revision t item.body.account_uuid "message" alias,
      metadata,
      e,
      alias_answers t item.body.account_uuid "message" item.body.operation.entity_uuid alias (
          ap
            (find_mapping (wanted item.body.account_uuid "message" item.body.operation.entity_uuid))
            aliases
          ∙ seen),
      named,
      made,
      held,
    )

-- Where an open row of a message.delete is completed as committed, workspace_mapping answers nothing
-- for the message.
pub deleted_message_lost :
    (removed_first : Bool) (s t : Store) (item : QueuedOperation) (result : ResultRecord) (now : ℕ)
    (row : Row)
    → item.body.operation.kind ≡ "message.delete"
    → find_row item.record_uuid s.operations ≡ some row
    → is_terminal row.state ≡ false
    → complete (persist_committed_mapping removed_first) s item result Outcome.committed now ≡ ok t
    → workspace_mapping t item.body.account_uuid "message" item.body.operation.entity_uuid ≡ none
unfolding workspace_mapping alias_or_mapping delete_entity
deleted_message_lost first s t item result now row kind found running h =
    let account = item.body.account_uuid in
    let uuid = item.body.operation.entity_uuid in
    let deleted : Result.ok (delete_entity item.body "message" (s.mappings, s.aliases))
        ≡ ok (t.mappings, t.aliases) =
      sym (
        persist-delete first item.body result.body.provider_entity_id result.body.provider_revision
          (s.mappings, s.aliases) kind)
      ∙ committed_mappings (persist_committed_mapping first) s t item result now row found running
          h in
    let mappings : update_where (at_workspace account "message" uuid) mark_deleted s.mappings
        ≡ t.mappings =
      cc deleted in
    let aliases : update_where (at_workspace account "message" uuid) mark_deleted s.aliases
        ≡ t.aliases =
      cc deleted in
    rw
      (
        sym aliases,
        sym mappings,
        delete-none account "message" uuid s.aliases,
        delete-none account "message" uuid s.mappings,
      )
      refl
