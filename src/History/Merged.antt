-- ===== src/History/Merged.antt =====
-- What merge_batch of History/Batch.antt keeps of the two batches.
use workspace_zulip_bridge.Common.{
  ℕ, ◌==◌, ltb, ◌≡◌, refl, ap, ◌∙◌, subst, String, true, ◌&&◌, Option, none, some, List, [], ◌∷◌,
  arith, All, Bool-cases, inl, inr,
}
use workspace_zulip_bridge.Queue.Types.{ok, require}
use workspace_zulip_bridge.Queue.Raises.{bind_ok, require_ok}
use workspace_zulip_bridge.History.Table.{
  put, find, Ascending, All-put, put-Ascending, put_all-Ascending, find-put, find-Below,
  find-put_all_overlay, put_all_again, or_else,
}
use workspace_zulip_bridge.History.Snapshot.{Content, Message, user_key, access_key, message_key}
use workspace_zulip_bridge.History.Batch.{
  Contents, Batch, sealed, merge_batch, merge_existing, merge_messages, merge_message,
  merged_access, prior_access,
}
use workspace_zulip_bridge.History.Ordered.{BatchIsValid, Inside}

module _ (digest : Content → String) (batch_digest : Contents → String) where
  -- A message of the incoming batch over the one that was stored.
  abbrev pub overlaid : Option Message → Option Message → Option Message
  overlaid none stored = stored
  overlaid (some m) stored = some (merge_message digest batch_digest m stored)

  merge_message-id :
      (m : Message) (prior : Option Message)
      → (merge_message digest batch_digest m prior).body.id ≡ m.body.id
  unfolding merge_message
  merge_message-id m prior = refl

  find-merge_messages :
      (id : ℕ) (incoming table : List Message)
      → Ascending message_key incoming
      → find message_key id (merge_messages digest batch_digest incoming table)
        ≡ overlaid (find message_key id incoming) (find message_key id table)
  unfolding merge_messages find
  find-merge_messages id [] table h = refl
  find-merge_messages id (m ∷ incoming) table h =
      let merged = merge_message digest batch_digest m (find message_key m.body.id table) in
      elim (Bool-cases (m.body.id == id)) [
        | inl e ↦
            let named : m.body.id ≡ id = ground arith in
            let absent : find message_key id incoming ≡ none =
              find-Below message_key id incoming
                (subst (λ j. All (λ x. ltb j (message_key x) ≡ true) incoming) named h.0) in
            rw
              (
                find-merge_messages id incoming (put message_key merged table) h.1,
                absent,
                find-put message_key id merged table,
                merge_message-id m (find message_key m.body.id table),
                e,
              )
              (ap (λ k. some (merge_message digest batch_digest m (find message_key k table)))
                named)
        | inr n ↦
            rw
              (
                find-merge_messages id incoming (put message_key merged table) h.1,
                find-put message_key id merged table,
                merge_message-id m (find message_key m.body.id table),
                n,
              )
              refl
      ]

  merge_messages-Ascending :
      (incoming table : List Message)
      → Ascending message_key table
      → Ascending message_key (merge_messages digest batch_digest incoming table)
  unfolding merge_messages
  merge_messages-Ascending [] table h = h
  merge_messages-Ascending (m ∷ incoming) table h = merge_messages-Ascending incoming _ (
      put-Ascending message_key
        (merge_message digest batch_digest m (find message_key m.body.id table)) table h)

  merge_messages-Inside :
      (from_id to_id : ℕ) (incoming table : List Message)
      → All (Inside digest batch_digest from_id to_id) incoming
      → All (Inside digest batch_digest from_id to_id) table
      → All
          (Inside digest batch_digest from_id to_id)
          (merge_messages digest batch_digest incoming table)
  unfolding merge_messages merge_message
  merge_messages-Inside from_id to_id [] table h k = k
  merge_messages-Inside from_id to_id (m ∷ incoming) table h k =
      merge_messages-Inside from_id to_id incoming _ h.1 (
        All-put message_key (Inside digest batch_digest from_id to_id)
          (merge_message digest batch_digest m (find message_key m.body.id table)) table h.0 k)

  module _ (existing incoming b : Batch) where
    merged_is :
        merge_batch digest batch_digest (some existing) incoming ≡ ok b
        → (existing.contents.from_id ≡ incoming.contents.from_id)
          × (existing.contents.to_id ≡ incoming.contents.to_id)
          × (sealed digest batch_digest
                (merge_existing digest batch_digest existing.contents incoming.contents)
              ≡ b)
    unfolding merge_batch
    merged_is h =
        let (u, passed, made) =
          bind_ok
            (require
              (existing.contents.from_id == incoming.contents.from_id
                && existing.contents.to_id == incoming.contents.to_id)
              "history_range_mismatch")
            _ b h in
        let ranges =
          require_ok
            (existing.contents.from_id == incoming.contents.from_id
              && existing.contents.to_id == incoming.contents.to_id)
            _ u passed in
        (ground arith, ground arith, ground (arith, made))

    -- Of two valid batches that merge, the result is valid, and for each ID it has the user of the
    -- incoming batch, or else the stored one, and the stored message, or the incoming one merged
    -- over what was stored under its ID.
    pub merge_batch_overlay :
        (id : ℕ)
        → BatchIsValid digest batch_digest existing
        → BatchIsValid digest batch_digest incoming
        → merge_batch digest batch_digest (some existing) incoming ≡ ok b
        → BatchIsValid digest batch_digest b
          × (find user_key id b.contents.users
              ≡ or_else user_key
                  (find user_key id incoming.contents.users)
                  (find user_key id existing.contents.users))
          × (find message_key id b.contents.messages
              ≡ overlaid
                  (find message_key id incoming.contents.messages)
                  (find message_key id existing.contents.messages))
    unfolding merge_existing sealed
    merge_batch_overlay id v w h =
        let (from_same, to_same, made) = merged_is h in
        let users = put_all_again user_key existing.contents.users v.users in
        let messages = put_all_again message_key existing.contents.messages v.messages in
        rw (← made) (
          record {
            messages =
                merge_messages-Ascending incoming.contents.messages _ (rw messages (v.messages));
            users = put_all-Ascending user_key incoming.contents.users _ (rw users (v.users));
            inside =
                merge_messages-Inside incoming.contents.from_id incoming.contents.to_id
                  incoming.contents.messages _ (w.inside)
                  (rw messages (rw (← from_same, ← to_same) (v.inside)));
            positive = w.positive;
            aligned = w.aligned;
            width = w.width;
            hashed = refl;
          },
          find-put_all_overlay user_key id incoming.contents.users _ (w.users) ∙ rw users refl,
          find-merge_messages id incoming.contents.messages _ (w.messages) ∙ rw messages refl,
        )

  -- In a merged message each observer of the new observation has the flags that it was seen with, and
  -- each other observer keeps those that were stored: no access row is lost.
  pub merge_message-access :
      (m : Message) (prior : Option Message) (observer : ℕ)
      → Ascending access_key m.body.access
      → Ascending access_key (prior_access digest batch_digest prior)
      → find access_key observer (merge_message digest batch_digest m prior).body.access
        ≡ or_else access_key
            (find access_key observer m.body.access)
            (find access_key observer (prior_access digest batch_digest prior))
  unfolding merge_message merged_access
  merge_message-access m prior observer h k =
      find-put_all_overlay access_key observer m.body.access _ h
      ∙ rw (put_all_again access_key (prior_access digest batch_digest prior) k) refl
