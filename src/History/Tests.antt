-- ===== src/History/Tests.antt =====
-- The theorems of the history batches at one page with two messages.
use workspace_zulip_bridge.Common.{
  ◌<◌, ◌↔◌, arith, ℕ, ◌*◌, ◌≤◌, ◌≡◌, refl, String, true, false, some, List, [], ◌∷◌,
}
use workspace_zulip_bridge.Queue.Types.{Result, ok}
use workspace_zulip_bridge.History.Table.{find, or_else}
use workspace_zulip_bridge.History.Snapshot.{
  Recipient, RawMessage, RawUser, Content, Message, Location, access_key, user_key, message_key,
  message_snapshot, user_catalog, integer, text,
}
use workspace_zulip_bridge.History.Batch.{
  HistoryRange, Contents, Batch, make_batch, merge_batch, merge_message, prior_access,
  capture_write_budget_ms, agrees,
}
use workspace_zulip_bridge.History.Budget.{capture_write_budget_bounds}
use workspace_zulip_bridge.History.Merged.{overlaid, merge_batch_overlay, merge_message-access}
use workspace_zulip_bridge.History.Ordered.{BatchIsValid, make_batch-BatchIsValid}

abbrev raw_message : ℕ → RawMessage
raw_message id = record {
  id = integer id;
  sender_id = integer 9;
  type = text "stream";
  stream_id = integer 4;
  display_recipient = Recipient.titled (text "general");
  subject = text "topic";
  timestamp = integer 1700000000;
  content = text "hello";
  flags = some (text "read" ∷ []);
  reactions = some [];
}

abbrev page : HistoryRange
page = record { from_id = 5001; to_id = 10000; messages = raw_message 5007 ∷ raw_message 5003 ∷ [] }

abbrev raw_users : List RawUser
raw_users = record { user_id = integer 9; full_name = text "Ann" } ∷ []

abbrev sample_digest : Content → String
sample_digest c = "digest"

abbrev sample_batch_digest : Contents → String
sample_batch_digest c = "batch"

abbrev snapshot_at : ℕ → ℕ → Message
snapshot_at id observer = record {
  body = record {
    id = id;
    sender_id = 9;
    location = Location.channel 4 "general" "topic";
    sent_at = 1700000000;
    content = "hello";
    reactions = [];
    access = record { user_id = observer; read = true; starred = false } ∷ [];
  };
  hash = "digest";
}

abbrev batch_at : ℕ → Batch
batch_at observer = record {
  contents = record {
    from_id = 5001;
    to_id = 10000;
    users = record { id = 9; name = "Ann" } ∷ [];
    messages = snapshot_at 5003 observer ∷ snapshot_at 5007 observer ∷ [];
  };
  hash = "batch";
}

make_batch-BatchIsValid_example : BatchIsValid sample_digest sample_batch_digest (batch_at 2)
unfolding make_batch message_snapshot user_catalog agrees
make_batch-BatchIsValid_example =
    make_batch-BatchIsValid sample_digest sample_batch_digest page raw_users 2 (batch_at 2) refl

first_valid : BatchIsValid sample_digest sample_batch_digest (batch_at 2)
unfolding make_batch message_snapshot user_catalog agrees
first_valid =
    make_batch-BatchIsValid sample_digest sample_batch_digest page raw_users 2 (batch_at 2) refl

other_valid : BatchIsValid sample_digest sample_batch_digest (batch_at 3)
unfolding make_batch message_snapshot user_catalog agrees
other_valid =
    make_batch-BatchIsValid sample_digest sample_batch_digest page raw_users 3 (batch_at 3) refl

abbrev batch_of : Batch → Result Batch → Batch
batch_of b (ok c) = c
batch_of b _ = b

abbrev merged : Batch
merged =
    batch_of (batch_at 2)
      (merge_batch sample_digest sample_batch_digest (some (batch_at 2)) (batch_at 3))

merge_batch_overlay_example :
    BatchIsValid sample_digest sample_batch_digest merged
    × (find user_key 5003 merged.contents.users
        ≡ or_else user_key
            (find user_key 5003 (batch_at 3).contents.users)
            (find user_key 5003 (batch_at 2).contents.users))
    × (find message_key 5003 merged.contents.messages
        ≡ overlaid sample_digest sample_batch_digest
            (find message_key 5003 (batch_at 3).contents.messages)
            (find message_key 5003 (batch_at 2).contents.messages))
unfolding merge_batch
merge_batch_overlay_example =
    merge_batch_overlay sample_digest sample_batch_digest (batch_at 2) (batch_at 3) merged 5003
      first_valid other_valid refl

merge_message-access_example :
    find access_key 2
      (merge_message sample_digest sample_batch_digest
        (snapshot_at 5003 3)
        (some (snapshot_at 5003 2))).body.access
    ≡ or_else access_key (find access_key 2 (snapshot_at 5003 3).body.access) (
        find access_key 2
          (prior_access sample_digest sample_batch_digest (some (snapshot_at 5003 2))))
merge_message-access_example =
    merge_message-access sample_digest sample_batch_digest (snapshot_at 5003 3)
      (some (snapshot_at 5003 2)) 2 (tt, tt) (tt, tt)

three_below : 3 < 4500
three_below = omega arith

capture_write_budget_bounds_example :
    (500 ≤ capture_write_budget_ms 40000)
    × (capture_write_budget_ms 40000 ≤ 5000)
    × ((capture_write_budget_ms 40000 ≤ 503) ↔ (40000 ≤ 16384 * 3))
capture_write_budget_bounds_example = capture_write_budget_bounds 40000 3 three_below
