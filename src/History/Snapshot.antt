-- ===== src/History/Snapshot.antt =====
-- validated_id, _text, user_catalog and message_snapshot of history.py. A value of a Zulip response is
-- a Value. A text has no surrogates, so that it always encodes.
use Prim.Native.Char.{code}
use Prim.Native.Nat.{Ordering}
use Prim.Native.String.{compare}
use workspace_zulip_bridge.Common.{
  ℕ, ◌==◌, ltb, leb, String, Bool, true, false, not, ◌&&◌, ◌||◌, Option, none, some, List, [], ◌∷◌,
  if◌then◌else◌, str_eq, is_some,
}
use workspace_zulip_bridge.Queue.Types.{Result, ok, value_error, ◌>>=◌, ◌>>◌, require}
use workspace_zulip_bridge.History.Table.{put}

-- `other` stands for null, Booleans, floats, objects and lists.
pub data Value : Type 0 where
  integer : ℕ → Value
  negative_integer : ℕ → Value
  text : String → Value
  other : Value

unfoldable pub valid_id : ℕ → Bool
valid_id n = ltb 0 n && leb n 9007199254740991

unfoldable pub validated_id : Value → Result ℕ
unfolding valid_id
validated_id (integer n) = if valid_id n then ok n else value_error "invalid_history_id"
validated_id _ = value_error "invalid_history_id"

has_nul : String → Bool
has_nul String.[] = false
has_nul (String.◌∷◌ c s) = code c == 0 || has_nul s

unfoldable pub text_value : Value → Result String
unfolding has_nul
text_value (text s) = if has_nul s then value_error "invalid_history_text" else ok s
text_value _ = value_error "invalid_history_text"

pub record RawUser : Type 0 where
  pub user_id : Value
  pub full_name : Value

pub record User : Type 0 where
  pub id : ℕ
  pub name : String

abbrev pub user_key : User → ℕ
user_key u = u.id

unfoldable pub catalog_from : List RawUser → List User → Result (List User)
unfolding validated_id text_value put
catalog_from [] catalog = ok catalog
catalog_from (raw ∷ users) catalog = do
  user_id ← validated_id raw.user_id
  name ← text_value raw.full_name
  catalog_from users (put user_key (record { id = user_id; name = name }) catalog)

unfoldable pub user_catalog : List RawUser → Result (List User)
unfolding catalog_from
user_catalog users = catalog_from users []

pub record RawReaction : Type 0 where
  pub user_id : Value
  pub reaction_type : Value
  pub emoji_code : Value
  pub emoji_name : Value

pub record Reaction : Type 0 where
  pub user_id : ℕ
  pub reaction_type : String
  pub emoji_code : String
  pub emoji_name : String

-- display_recipient: the name of a channel, or people, where a person is its id or no dict.
pub data Recipient : Type 0 where
  titled : Value → Recipient
  persons : List (Option Value) → Recipient

-- A message of a response; `none` stands for flags or reactions that are no list and for a reaction
-- that is no dict.
pub record RawMessage : Type 0 where
  pub id : Value
  pub sender_id : Value
  pub type : Value
  pub stream_id : Value
  pub display_recipient : Recipient
  pub subject : Value
  pub timestamp : Value
  pub content : Value
  pub flags : Option (List Value)
  pub reactions : Option (List (Option RawReaction))

pub data Location : Type 0 where
  channel : ℕ → String → String → Location
  direct : List ℕ → Location

pub record Access : Type 0 where
  pub user_id : ℕ
  pub read : Bool
  pub starred : Bool

abbrev pub access_key : Access → ℕ
access_key a = a.user_id

-- A message without its hash.
pub record Content : Type 0 where
  pub id : ℕ
  pub sender_id : ℕ
  pub location : Location
  pub sent_at : ℕ
  pub content : String
  pub reactions : List Reaction
  pub access : List Access

pub record Message : Type 0 where
  pub body : Content
  pub hash : String

abbrev pub message_key : Message → ℕ
message_key m = m.body.id

all_text : List Value → Bool
all_text [] = true
all_text (text s ∷ values) = all_text values
all_text (_ ∷ values) = false

has_flag : String → List Value → Bool
has_flag flag [] = false
has_flag flag (text s ∷ values) = str_eq s flag || has_flag flag values
has_flag flag (_ ∷ values) = has_flag flag values

all_dicts : List (Option Value) → Bool
all_dicts [] = true
all_dicts (p ∷ people) = is_some p && all_dicts people

abbrev person_id : Option Value → Value
person_id none = other
person_id (some v) = v

recipient_ids : List (Option Value) → List ℕ → Result (List ℕ)
unfolding validated_id put
recipient_ids [] ids = ok ids
recipient_ids (p ∷ people) ids = do
  id ← validated_id (person_id p)
  recipient_ids people (put (λ n. n) id ids)

abbrev is_empty : List (Option Value) → Bool
is_empty [] = true
is_empty _ = false

abbrev recipient_name : Recipient → Value
recipient_name (titled v) = v
recipient_name (persons _) = other

channel_location : RawMessage → Result Location
unfolding validated_id text_value
channel_location raw = do
  channel_id ← validated_id raw.stream_id
  channel_name ← text_value (recipient_name raw.display_recipient)
  topic ← text_value raw.subject
  ok (channel channel_id channel_name topic)

direct_location : Recipient → Result Location
unfolding recipient_ids all_dicts
direct_location (titled v) = value_error "invalid_history_recipients"
direct_location (persons ps) = do
  require (not (is_empty ps) && all_dicts ps) "invalid_history_recipients"
  ids ← recipient_ids ps []
  ok (direct ids)

location_of : RawMessage → Value → Result Location
unfolding channel_location direct_location
location_of raw (text type) =
    if str_eq type "stream"
    then channel_location raw
    else if str_eq type "private"
    then direct_location raw.display_recipient
    else value_error "invalid_history_message_type"
location_of raw _ = value_error "invalid_history_message_type"

abbrev then_compare : Ordering → Ordering → Ordering
then_compare Ordering.eq o = o
then_compare o _ = o

abbrev order_ids : ℕ → ℕ → Ordering
order_ids a b = if ltb a b then Ordering.lt else if a == b then Ordering.eq else Ordering.gt

-- The order of the tuples (user_id, reaction_type, emoji_code), which goes by code points.
order_reactions : Reaction → Reaction → Ordering
order_reactions a b =
    then_compare (order_ids a.user_id b.user_id)
      (then_compare (compare a.reaction_type b.reaction_type) (compare a.emoji_code b.emoji_code))

abbrev put_ordered :
    Ordering → Reaction → Reaction → List Reaction → Result (List Reaction) → Result (List Reaction)
put_ordered Ordering.lt item x xs rest = ok (item ∷ x ∷ xs)
put_ordered Ordering.eq item x xs rest =
    if str_eq item.emoji_name x.emoji_name
    then ok (x ∷ xs)
    else value_error "conflicting_history_reaction"
put_ordered Ordering.gt item x xs rest = rest >>= λ ys. ok (x ∷ ys)

-- reaction_items[key] = item, in the order of the keys.
put_reaction : Reaction → List Reaction → Result (List Reaction)
unfolding order_reactions
put_reaction item [] = ok (item ∷ [])
put_reaction item (x ∷ xs) =
    let rest = put_reaction item xs in put_ordered (order_reactions item x) item x xs rest

reaction_items : List (Option RawReaction) → List Reaction → Result (List Reaction)
unfolding validated_id text_value put_reaction
reaction_items [] items = ok items
reaction_items (none ∷ reactions) items = value_error "invalid_history_reaction"
reaction_items (some raw ∷ reactions) items = do
  user_id ← validated_id raw.user_id
  reaction_type ← text_value raw.reaction_type
  emoji_code ← text_value raw.emoji_code
  emoji_name ← text_value raw.emoji_name
  next ←
      put_reaction
        (record {
          user_id = user_id;
          reaction_type = reaction_type;
          emoji_code = emoji_code;
          emoji_name = emoji_name;
        })
        items
  reaction_items reactions next

-- `digest` is that of history.py, over the message without its hash.
module _ (digest : Content → String) where
  abbrev hashed : Content → Message
  hashed body = record { body = body; hash = digest body }

  listed_snapshot : RawMessage → ℕ → List Value → List (Option RawReaction) → Result Message
  unfolding location_of reaction_items validated_id text_value has_flag
  listed_snapshot raw observer flags reactions = do
    location ← location_of raw raw.type
    items ← reaction_items reactions []
    id ← validated_id raw.id
    sender_id ← validated_id raw.sender_id
    sent_at ← validated_id raw.timestamp
    content ← text_value raw.content
    observer_id ← validated_id (integer observer)
    ok (
        hashed (record {
          id = id;
          sender_id = sender_id;
          location = location;
          sent_at = sent_at;
          content = content;
          reactions = items;
          access =
              record {
                user_id = observer_id;
                read = has_flag "read" flags;
                starred = has_flag "starred" flags;
              }
              ∷ [];
        }))

  snapshot_flags :
      RawMessage → ℕ → Option (List Value) → Option (List (Option RawReaction)) → Result Message
  unfolding listed_snapshot all_text
  snapshot_flags raw observer none reactions = value_error "missing_history_user_flags"
  snapshot_flags raw observer (some flags) none =
      if all_text flags
      then value_error "missing_history_reactions"
      else value_error "missing_history_user_flags"
  snapshot_flags raw observer (some flags) (some reactions) =
      if all_text flags
      then listed_snapshot raw observer flags reactions
      else value_error "missing_history_user_flags"

  unfoldable pub message_snapshot : RawMessage → ℕ → Result Message
  unfolding snapshot_flags
  message_snapshot raw observer = snapshot_flags raw observer raw.flags raw.reactions
