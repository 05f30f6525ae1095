-- ===== src/History/Batch.antt =====
-- HistoryRange, make_batch, merge_batch and capture_write_budget_ms of history.py.
use workspace_zulip_bridge.Common.{
  ℕ, ◌+◌, ◌-◌, ◌%◌, ◌/◌, min, ◌==◌, leb, String, Bool, true, false, not, ◌&&◌, Option, none, some,
  List, [], ◌∷◌, str_eq,
}
use workspace_zulip_bridge.Queue.Types.{Result, ok, ◌>>=◌, ◌>>◌, require}
use workspace_zulip_bridge.History.Table.{put, put_all, find}
use workspace_zulip_bridge.History.Snapshot.{
  RawMessage, RawUser, User, Access, Content, Message, Location, Reaction, user_key, access_key,
  message_key, message_snapshot, user_catalog,
}

abbrev pub batch_size : ℕ
batch_size = 5000

unfoldable pub capture_write_budget_ms : ℕ → ℕ
capture_write_budget_ms encoded_bytes = min 5000 (500 + (encoded_bytes + 16383) / 16384)

-- `from_id` and `to_id` are not negative; `next_anchor` is not read here.
pub record HistoryRange : Type 0 where
  pub from_id : ℕ
  pub to_id : ℕ
  pub messages : List RawMessage

-- A batch without its hash.
pub record Contents : Type 0 where
  pub from_id : ℕ
  pub to_id : ℕ
  pub users : List User
  pub messages : List Message

pub record Batch : Type 0 where
  pub contents : Contents
  pub hash : String

-- The comparison of two dicts, field by field.
same_list : {A : Type 0} → (A → A → Bool) → List A → List A → Bool
same_list eq [] [] = true
same_list eq (x ∷ xs) (y ∷ ys) = eq x y && same_list eq xs ys
same_list eq _ _ = false

same_flag : Bool → Bool → Bool
same_flag true b = b
same_flag false b = not b

same_access : Access → Access → Bool
unfolding same_flag
same_access a b = a.user_id == b.user_id && same_flag a.read b.read && same_flag a.starred b.starred

same_reaction : Reaction → Reaction → Bool
same_reaction a b =
    a.user_id == b.user_id
    && str_eq a.reaction_type b.reaction_type
    && str_eq a.emoji_code b.emoji_code
    && str_eq a.emoji_name b.emoji_name

same_location : Location → Location → Bool
unfolding same_list
same_location (Location.channel i n t) (Location.channel j m u) = i == j && str_eq n m && str_eq t u
same_location (Location.direct is) (Location.direct js) = same_list (λ i j. i == j) is js
same_location _ _ = false

same_message : Message → Message → Bool
unfolding same_list same_access same_reaction same_location
same_message m n =
    m.body.id == n.body.id
    && m.body.sender_id == n.body.sender_id
    && same_location m.body.location n.body.location
    && m.body.sent_at == n.body.sent_at
    && str_eq m.body.content n.body.content
    && same_list same_reaction m.body.reactions n.body.reactions
    && same_list same_access m.body.access n.body.access
    && str_eq m.hash n.hash

unfoldable pub agrees : Message → Option Message → Bool
unfolding same_message
agrees m none = true
agrees m (some prior) = same_message prior m

-- `digest` and `batch_digest` are history.digest over a message and over a batch.
module _ (digest : Content → String) (batch_digest : Contents → String) where
  unfoldable pub sealed : Contents → Batch
  sealed c = record { contents = c; hash = batch_digest c }

  unfoldable pub collect : ℕ → ℕ → ℕ → List RawMessage → List Message → Result (List Message)
  unfolding put find
  collect from_id to_id observer [] messages = ok messages
  collect from_id to_id observer (raw ∷ raws) messages = do
    message ← message_snapshot digest raw observer
    require (leb from_id message.body.id && leb message.body.id to_id)
        "history_message_outside_range"
    require (agrees message (find message_key message.body.id messages))
        "conflicting_history_message"
    collect from_id to_id observer raws (put message_key message messages)

  unfoldable pub make_batch : HistoryRange → List RawUser → ℕ → Result Batch
  unfolding collect sealed
  make_batch page users observer = do
    require (leb 1 page.from_id && (page.from_id - 1) % batch_size == 0) "invalid_history_range"
    require (page.to_id == page.from_id + batch_size - 1) "invalid_history_range"
    messages ← collect page.from_id page.to_id observer page.messages []
    catalog ← user_catalog users
    ok (
        sealed (record {
          from_id = page.from_id;
          to_id = page.to_id;
          users = catalog;
          messages = messages;
        }))

  abbrev pub prior_access : Option Message → List Access
  prior_access none = []
  prior_access (some m) = m.body.access

  -- The access rows of the observers, the later ones in place of the earlier.
  unfoldable pub merged_access : Option Message → List Access → List Access
  unfolding put_all
  merged_access prior access =
      put_all access_key access (put_all access_key (prior_access prior) [])

  unfoldable pub merge_message : Message → Option Message → Message
  unfolding merged_access
  merge_message message prior =
      let body = record (message.body) { access = merged_access prior message.body.access } in
      record { body = body; hash = digest body }

  unfoldable pub merge_messages : List Message → List Message → List Message
  unfolding put find merge_message
  merge_messages [] messages = messages
  merge_messages (m ∷ incoming) messages =
      merge_messages incoming
        (put message_key (merge_message m (find message_key m.body.id messages)) messages)

  unfoldable pub merge_existing : Contents → Contents → Contents
  unfolding put_all merge_messages
  merge_existing existing incoming = record {
    from_id = incoming.from_id;
    to_id = incoming.to_id;
    users = put_all user_key incoming.users (put_all user_key existing.users []);
    messages = merge_messages incoming.messages (put_all message_key existing.messages []);
  }

  unfoldable pub merge_batch : Option Batch → Batch → Result Batch
  unfolding merge_existing sealed
  merge_batch none incoming = ok incoming
  merge_batch (some existing) incoming = do
    require
        (existing.contents.from_id == incoming.contents.from_id
          && existing.contents.to_id == incoming.contents.to_id)
        "history_range_mismatch"
    ok (sealed (merge_existing existing.contents incoming.contents))
