-- ===== src/Desired/Retire.antt =====
-- What happens to the mappings of an assignment that was replaced or deleted:
-- _assignment_projection_keys, _assignment_projection_is_additive, _tombstone_workspace_projection
-- and _wake_assignment_pending_events of storage.py.
use workspace_zulip_bridge.Common.{
  ℕ, String, Bool, true, false, not, ◌&&◌, ◌||◌, Option, none, some, List, [], ◌∷◌, ◌==◌, str_eq,
  update_where, same,
}
use workspace_zulip_bridge.Queue.Types.{Mapping, Mappings}
use workspace_zulip_bridge.Queue.Lifecycle.{same_text}
use workspace_zulip_bridge.Mappings.{mark_deleted}
use workspace_zulip_bridge.Desired.{
  Participant, Topic, Stream, Projection, ProviderChat, Body, DesiredRow, JournalEvent,
}
use workspace_zulip_bridge.Desired.Project.{is_any, identity_uuids, topic_uuids}

-- A pair of a Workspace UUID and a provider identifier.
abbrev pub Key : Type 0
Key = ℕ × String

abbrev pub has_key : Key → List Key → Bool
has_key key [] = false
has_key key (other ∷ keys) = (key.0 == other.0 && str_eq key.1 other.1) || has_key key keys

-- previous <= current on sets
abbrev pub is_subset : List Key → List Key → Bool
is_subset [] current = true
is_subset (key ∷ previous) current = has_key key current && is_subset previous current

abbrev pub participant_keys : List (Option Participant) → List Key
participant_keys [] = []
participant_keys (none ∷ participants) = participant_keys participants
participant_keys (some p ∷ participants) =
    (p.identity_uuid, p.provider_user_id) ∷ participant_keys participants

abbrev pub topic_keys_of : List (Option Topic) → List Key
topic_keys_of [] = []
topic_keys_of (none ∷ topics) = topic_keys_of topics
topic_keys_of (some t ∷ topics) = (t.topic_uuid, t.provider_topic_id) ∷ topic_keys_of topics

-- projection.get(key, [])
abbrev pub list_or_empty {ℓ} : {A : Type ℓ} → Option (List A) → List A
list_or_empty none = []
list_or_empty (some entries) = entries

abbrev pub stream_key : Option Stream → ProviderChat → Option Key
stream_key none chat = none
stream_key (some stream) chat = some (stream.uuid, chat.provider_chat_key)

unfoldable pub keys_of :
    Option ProviderChat → Option Projection → Option Key × (List Key × List Key)
keys_of (some chat) (some p) = (
  stream_key p.stream chat,
  (participant_keys (list_or_empty p.participants), topic_keys_of (list_or_empty p.topics)),
)
keys_of _ _ = (none, ([], []))

unfoldable pub assignment_projection_keys : Body → Option Key × (List Key × List Key)
unfolding keys_of
assignment_projection_keys body = keys_of body.provider_chat body.workspace_projection

-- previous is not None and previous == current
abbrev pub same_stream : Option Key → Option Key → Bool
same_stream (some a) (some b) = a.0 == b.0 && str_eq a.1 b.1
same_stream _ _ = false

unfoldable pub assignment_projection_is_additive : Body → Body → Bool
unfolding assignment_projection_keys
assignment_projection_is_additive previous current =
    let old = assignment_projection_keys previous in
    let new = assignment_projection_keys current in
    same_stream old.0 new.0 && is_subset old.1.0 new.1.0 && is_subset old.1.1 new.1.1

abbrev pub projected_identities : Option Projection → List ℕ
projected_identities none = []
projected_identities (some p) = identity_uuids (list_or_empty p.participants)

-- NOT EXISTS (SELECT 1 FROM desired_resources AS other_assignment …), turned round
abbrev pub identity_is_used : ℕ → ℕ → DesiredRow → Option Body → Bool
identity_is_used account uuid row none = false
identity_is_used account uuid row (some body) =
    str_eq row.resource_type "external_chat_assignment"
    && not row.deleted
    && body.external_account_uuid == account
    && is_any uuid (projected_identities body.workspace_projection)

unfoldable pub uses_identity : ℕ → ℕ → List DesiredRow → Bool
uses_identity account uuid [] = false
uses_identity account uuid (row ∷ rows) =
    identity_is_used account uuid row row.body || uses_identity account uuid rows

-- The rows of provider_mappings that the UPDATE of a tombstone names.
unfoldable pub is_retired : List DesiredRow → ℕ → ℕ → List ℕ → List ℕ → Mapping → Bool
unfolding uses_identity
is_retired resources account stream topics participants m =
    m.account_uuid == account
    && ((str_eq m.entity_kind "stream" && m.workspace_uuid == stream)
        || (str_eq m.entity_kind "topic" && is_any m.workspace_uuid topics)
        || (str_eq m.entity_kind "identity"
            && is_any m.workspace_uuid participants
            && not (uses_identity m.account_uuid m.workspace_uuid resources)))

abbrev pub is_retired_alias : ℕ → ℕ → List ℕ → Mapping → Bool
is_retired_alias account stream topics m =
    m.account_uuid == account
    && str_eq m.entity_kind "topic"
    && (is_any m.workspace_uuid topics || same m.metadata.stream_uuid (some stream))

unfoldable pub tombstone_stream :
    List DesiredRow → Body → Projection → Option Stream → Mappings → Mappings
unfolding is_retired
tombstone_stream resources body p none mappings = mappings
tombstone_stream resources body p (some stream) (table, aliases) =
    let topics = topic_uuids (list_or_empty p.topics) in
    (
      update_where
          (is_retired resources body.external_account_uuid stream.uuid topics
            (identity_uuids (list_or_empty p.participants)))
          mark_deleted table,
      update_where (is_retired_alias body.external_account_uuid stream.uuid topics) mark_deleted
          aliases,
    )

unfoldable pub tombstone_projection :
    List DesiredRow → Body → Option Projection → Mappings → Mappings
unfolding tombstone_stream
tombstone_projection resources body none mappings = mappings
tombstone_projection resources body (some p) mappings =
    tombstone_stream resources body p p.stream mappings

unfoldable pub tombstone_workspace_projection : List DesiredRow → Body → Mappings → Mappings
unfolding tombstone_projection
tombstone_workspace_projection resources body mappings =
    tombstone_projection resources body body.workspace_projection mappings

unfoldable pub wake_assignment_pending_events : ℕ → ℕ → List JournalEvent → List JournalEvent
wake_assignment_pending_events account now =
    update_where
      (λ e.
        e.account_uuid == account
        && str_eq e.processing_state "pending"
        && same_text e.processing_reason "provider_chat_assignment_pending")
      (λ e. record e { available_at = now })
