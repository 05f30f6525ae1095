-- ===== src/History/Ordered.antt =====
-- What make_batch and merge_batch of History/Batch.antt build.
use workspace_zulip_bridge.Common.{
  ℕ, ◌+◌, ◌-◌, ◌%◌, ◌≤◌, ◌==◌, leb, ◌≡◌, refl, subst, String, ◌&&◌, List, [], ◌∷◌, arith, All,
}
use workspace_zulip_bridge.Queue.Types.{ok, require}
use workspace_zulip_bridge.Queue.Raises.{bind_ok, require_ok}
use workspace_zulip_bridge.History.Table.{put, find, Ascending, All-put, put-Ascending}
use workspace_zulip_bridge.History.Snapshot.{
  RawMessage, RawUser, User, Content, Message, user_key, message_key, message_snapshot,
  user_catalog, catalog_from, validated_id, text_value,
}
use workspace_zulip_bridge.History.Batch.{
  HistoryRange, Contents, Batch, batch_size, collect, agrees, make_batch, sealed,
}

catalog_from-Ascending :
    (raws : List RawUser) (users catalog : List User)
    → Ascending user_key users
    → catalog_from raws users ≡ ok catalog
    → Ascending user_key catalog
unfolding catalog_from
catalog_from-Ascending [] users catalog v h = subst (Ascending user_key) (ground (arith, h)) v
catalog_from-Ascending (raw ∷ raws) users catalog v h =
    let (id, _, k) = bind_ok (validated_id raw.user_id) _ catalog h in
    let (name, _, l) = bind_ok (text_value raw.full_name) _ catalog k in
    catalog_from-Ascending raws (put user_key (record { id = id; name = name }) users) catalog
      (put-Ascending user_key (record { id = id; name = name }) users v) l

module _ (digest : Content → String) (batch_digest : Contents → String) where
  -- The page's bounds hold the message.
  abbrev pub Inside : ℕ → ℕ → Message → Type 0
  Inside from_id to_id m = (from_id ≤ m.body.id) × (m.body.id ≤ to_id)

  pub record BatchIsValid (b : Batch) : Type 0 where
    pub messages : Ascending message_key b.contents.messages
    pub users : Ascending user_key b.contents.users
    pub inside : All (Inside b.contents.from_id b.contents.to_id) b.contents.messages
    pub positive : 1 ≤ b.contents.from_id
    pub aligned : (b.contents.from_id - 1) % batch_size ≡ 0
    pub width : b.contents.to_id ≡ b.contents.from_id + 4999
    pub hashed : b.hash ≡ batch_digest b.contents

  abbrev Collected : ℕ → ℕ → List Message → Type 0
  Collected from_id to_id messages =
      Ascending message_key messages × All (Inside from_id to_id) messages

  collect-Collected :
      (from_id to_id observer : ℕ) (raws : List RawMessage) (messages collected : List Message)
      → Collected from_id to_id messages
      → collect digest batch_digest from_id to_id observer raws messages ≡ ok collected
      → Collected from_id to_id collected
  unfolding collect
  collect-Collected from_id to_id observer [] messages collected v h =
      subst (Collected from_id to_id) (ground (arith, h)) v
  collect-Collected from_id to_id observer (raw ∷ raws) messages collected v h =
      let (m, _, k) = bind_ok (message_snapshot digest raw observer) _ collected h in
      let (u, in_range, l) =
        bind_ok
          (require (leb from_id m.body.id && leb m.body.id to_id) "history_message_outside_range") _
          collected k in
      let (_, _, rest) =
        bind_ok
          (require (agrees m (find message_key m.body.id messages)) "conflicting_history_message") _
          collected l in
      let bounds = require_ok (leb from_id m.body.id && leb m.body.id to_id) _ u in_range in
      collect-Collected from_id to_id observer raws (put message_key m messages) collected
        (
          put-Ascending message_key m messages v.0,
          All-put message_key (Inside from_id to_id) m messages (ground arith, ground arith) v.1,
        )
        rest

  -- A batch that make_batch returns starts at a multiple of 5000 plus one and spans 5000 IDs, its
  -- messages are in strictly ascending order of ID and inside the range, its users are in strictly
  -- ascending order of ID, and its hash is the digest of the rest.
  pub make_batch-BatchIsValid :
      (page : HistoryRange) (users : List RawUser) (observer : ℕ) (b : Batch)
      → make_batch digest batch_digest page users observer ≡ ok b
      → BatchIsValid b
  unfolding make_batch sealed user_catalog
  make_batch-BatchIsValid page users observer b h =
      let (u, first, k) =
        bind_ok
          (require (leb 1 page.from_id && (page.from_id - 1) % batch_size == 0)
            "invalid_history_range")
          _ b h in
      let (w, second, l) =
        bind_ok (require (page.to_id == page.from_id + batch_size - 1) "invalid_history_range") _ b
          k in
      let (messages, got, n) =
        bind_ok (collect digest batch_digest page.from_id page.to_id observer page.messages []) _ b
          l in
      let (catalog, listed, made) = bind_ok (user_catalog users) _ b n in
      let start =
        require_ok (leb 1 page.from_id && (page.from_id - 1) % batch_size == 0) _ u first in
      let span = require_ok (page.to_id == page.from_id + batch_size - 1) _ w second in
      let inside =
        collect-Collected page.from_id page.to_id observer page.messages [] messages (tt, tt) got in
      let e : sealed digest batch_digest (record {
        from_id = page.from_id;
        to_id = page.to_id;
        users = catalog;
        messages = messages;
      })
          ≡ b =
        ground (arith, made) in
      subst BatchIsValid e (record {
        messages = inside.0;
        users = catalog_from-Ascending users [] catalog tt listed;
        inside = inside.1;
        positive = ground arith;
        aligned = ground arith;
        width = ground arith;
        hashed = refl;
      })
