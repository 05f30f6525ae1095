-- ===== src/Queue/Types.antt =====
-- The rows that the queue statements of storage.py read and write (columns as in
-- migrations/0000-initialize-bridge-operational-state-18f707.py, 0001 and 0017), the records that
-- they hold, and QueuedOperation. UUIDs and times are numbers, a time in microseconds.
use workspace_zulip_bridge.Common.{ℕ, String, Bool, true, false, Option, none, some, List, ◌==◌}

abbrev pub second : ℕ
second = 1000000

-- The keys of operation["payload"] and operation["extensions"] that the mappings are made of.
pub record Payload : Type 0 where
  pub stream_uuid : Option ℕ
  pub topic_uuid : Option ℕ
  pub author_uuid : Option ℕ
  pub message_uuid : Option ℕ
  pub user_uuid : Option ℕ
  pub name : Option String
  pub emoji_name : Option String

pub record Extensions : Type 0 where
  pub content_sha256 : Option String
  pub provider_content_sha256 : Option String
  pub subject : Option String

-- record["operation"]; of the payload, only what the queue and the mappings read.
pub record Operation : Type 0 where
  pub kind : String
  pub entity_uuid : ℕ
  pub chat_id : String
  pub entity_id : Option String
  pub message_uuids : Option (List ℕ)
  pub payload : Payload
  pub extensions : Extensions

pub record Transport : Type 0 where
  pub provider_operation_uuid : ℕ
  pub lease_uuid : ℕ
  pub required_capability : Option String
  pub provider_attempt : ℕ

-- The operation record that the Provider lease is adapted to.
pub record Record : Type 0 where
  pub schema : String
  pub schema_version : ℕ
  pub record_uuid : ℕ
  pub operation_uuid : ℕ
  pub attempt : ℕ
  pub operation_sha256 : String
  pub account_uuid : ℕ
  pub project_uuid : ℕ
  pub origin : String
  pub causal_lane : String
  pub sequence : ℕ
  pub predecessor_operation_uuid : Option ℕ
  pub expires_at : Option ℕ
  pub operation : Operation
  pub transport : Option Transport
  pub read_semantic_sha256 : Option String

pub data Outcome : Type 0 where
  committed rejected expired cancelled manual_reconciliation_required : Outcome

-- One entry of the JSON list reconciliation_evidence.
pub data Evidence : Type 0 where
  no_attempt : Evidence
  provider_error : String → Evidence
  checked : ℕ → List String → ℕ → Option String → Evidence
  result_response : String → Evidence

pub record ResultBody : Type 0 where
  pub outcome : Outcome
  pub committed_at : Option ℕ
  pub provider_entity_id : Option String
  pub provider_revision : Option String
  pub safe_error : Option String
  pub manual_retry_allowed : Bool
  pub reconciliation : Option (String × Evidence)

pub record ResultRecord : Type 0 where
  pub schema : String
  pub schema_version : ℕ
  pub record_uuid : ℕ
  pub operation_uuid : ℕ
  pub attempt : ℕ
  pub operation_sha256 : String
  pub account_uuid : ℕ
  pub project_uuid : ℕ
  pub origin : String
  pub causal_lane : String
  pub sequence : ℕ
  pub predecessor_operation_uuid : Option ℕ
  pub created_at : ℕ
  pub expires_at : Option ℕ
  pub in_reply_to_record_uuid : ℕ
  pub body : ResultBody
  pub transport : Option Transport

-- bridge_operations.state
pub data State : Type 0 where
  pending running uncertain committed rejected expired cancelled : State

abbrev pub is_pending : State → Bool
is_pending State.pending = true
is_pending _ = false

abbrev pub is_running : State → Bool
is_running State.running = true
is_running _ = false

abbrev pub is_uncertain : State → Bool
is_uncertain State.uncertain = true
is_uncertain _ = false

abbrev pub is_committed : State → Bool
is_committed State.committed = true
is_committed _ = false

-- state IN ('committed', 'rejected', 'expired', 'cancelled')
abbrev pub is_terminal : State → Bool
is_terminal State.pending = false
is_terminal State.running = false
is_terminal State.uncertain = false
is_terminal _ = true

-- manual_context: the warning holds the operation, the account and the causal lane.
pub record ManualContext : Type 0 where
  pub provider_rendered_content : Option String
  pub duplicate_risk : Option (ℕ × ℕ × String)

-- A row of bridge_operations.
pub record Row : Type 0 where
  pub record_uuid : ℕ
  pub operation_uuid : ℕ
  pub attempt : ℕ
  pub operation_sha256 : String
  pub account_uuid : ℕ
  pub project_uuid : ℕ
  pub origin : String
  pub causal_lane : String
  pub lane_sequence : ℕ
  pub predecessor_operation_uuid : Option ℕ
  pub assignment_uuid : Option ℕ
  pub assignment_generation : Option ℕ
  pub priority : ℕ
  pub state : State
  pub retry_count : ℕ
  pub available_at : ℕ
  pub expires_at : Option ℕ
  pub lease_owner : Option String
  pub lease_until : Option ℕ
  pub body : Record
  pub result_record : Option ResultRecord
  pub result_sent_at : Option ℕ
  pub last_error_code : Option String
  pub provider_queue_id : Option String
  pub provider_local_id : Option String
  pub provider_attempted_at : Option ℕ
  pub reconciliation_check_count : ℕ
  pub reconciliation_after : Option ℕ
  pub auto_resend_count : ℕ
  pub reconciliation_evidence : List Evidence
  pub manual_reconciliation_required : Bool
  pub manual_context : Option ManualContext
  pub created_at : ℕ
  pub updated_at : ℕ

-- Where an operation stands in its causal lane.
pub record Place : Type 0 where
  pub origin : String
  pub causal_lane : String
  pub lane_sequence : ℕ
  pub attempt : ℕ
  pub predecessor : Option ℕ

abbrev pub place : Row → Place
place row = record {
  origin = row.origin;
  causal_lane = row.causal_lane;
  lane_sequence = row.lane_sequence;
  attempt = row.attempt;
  predecessor = row.predecessor_operation_uuid;
}

abbrev pub record_place : Record → Place
record_place r = record {
  origin = r.origin;
  causal_lane = r.causal_lane;
  lane_sequence = r.sequence;
  attempt = r.attempt;
  predecessor = r.predecessor_operation_uuid;
}

-- A row of operation_idempotency, under its operation_uuid.
pub record Idempotency : Type 0 where
  pub operation_sha256 : String
  pub terminal_outcome : Option Outcome
  pub target_entity_id : Option String
  pub target_revision : Option String
  pub result_record_uuid : Option ℕ
  pub manual_retry_allowed : Bool

-- A row of causal_lane_state and of producer_lane_counters, under its origin and lane.
pub record Lane : Type 0 where
  pub last_sequence : ℕ
  pub last_operation_uuid : Option ℕ

-- A row of producer_operations, under its operation_uuid.
pub record LanePosition : Type 0 where
  pub lane_sequence : ℕ
  pub predecessor_operation_uuid : Option ℕ

pub data ProviderState : Type 0 where
  ready backoff auth_required : ProviderState

-- A row of scheduler_accounts, under its account_uuid.
pub record SchedulerAccount : Type 0 where
  pub last_dispatched_at : Option ℕ
  pub provider_generation : Option ℕ
  pub provider_state : ProviderState
  pub provider_retry_count : ℕ
  pub provider_retry_after : Option ℕ
  pub provider_error_code : Option String

-- desired_resources of type external_account, under the resource_uuid. COALESCE has been applied
-- to the flags of the body.
pub record Account : Type 0 where
  pub generation : ℕ
  pub deleted : Bool
  pub synchronization_enabled : Bool

-- desired_resources of type external_chat_assignment.
pub record Assignment : Type 0 where
  pub resource_uuid : ℕ
  pub generation : ℕ
  pub deleted : Bool
  pub external_account_uuid : Option ℕ
  pub provider_chat_key : Option String
  pub project_id : Option ℕ
  pub selected : Bool

-- The keys of the JSON object `metadata` of a mapping; an inner `none` is a null.
pub record Metadata : Type 0 where
  pub stream_uuid : Option ℕ
  pub topic_uuid : Option ℕ
  pub author_uuid : Option ℕ
  pub message_uuid : Option ℕ
  pub user_uuid : Option ℕ
  pub name : Option String
  pub emoji_name : Option String
  pub chat_key : Option String
  pub project_uuid : Option ℕ
  pub causal_lane : Option String
  pub mapping_origin : Option String
  pub workspace_delivery_state : Option String
  pub content_sha256 : Option String
  pub provider_content_sha256 : Option String
  pub subject : Option String
  pub provider_aliases : Option (List String)
  pub display_name : Option String
  pub email : Option (Option String)
  pub avatar_urn : Option (Option String)
  pub active : Option Bool
  pub role : Option String
  pub chat_type : Option String
  pub participants : Option (List ℕ)
  pub description : Option String
  pub private : Option Bool
  pub default_topic_uuid : Option (Option ℕ)
  pub is_default : Option Bool

-- A row of provider_mappings or of provider_mapping_aliases.
pub record Mapping : Type 0 where
  pub account_uuid : ℕ
  pub entity_kind : String
  pub workspace_uuid : ℕ
  pub provider_id : String
  pub provider_revision : Option String
  pub metadata : Metadata
  pub deleted : Bool

-- The two tables of mappings.
abbrev pub Mappings : Type 0
Mappings = List Mapping × List Mapping

pub record Store : Type 0 where
  pub operations : List Row
  pub idempotency : ℕ → Option Idempotency
  pub lanes : String → String → Option Lane
  pub producer_lanes : String → String → Option Lane
  pub producer_operations : ℕ → Option LanePosition
  pub scheduler_accounts : ℕ → Option SchedulerAccount
  pub accounts : ℕ → Option Account
  pub assignments : List Assignment
  pub mappings : List Mapping
  pub aliases : List Mapping

-- What a claim hands to the scheduler.
pub record QueuedOperation : Type 0 where
  pub record_uuid : ℕ
  pub body : Record
  pub priority : ℕ
  pub attempts : ℕ
  pub provider_attempted_at : Option ℕ
  pub auto_resend_count : ℕ
  pub reconciliation_check_count : ℕ
  pub provider_rendered_content : Option String

-- manual_context->>'provider_rendered_content'
abbrev pub rendered : Option ManualContext → Option String
rendered none = none
rendered (some c) = c.provider_rendered_content

unfoldable pub queued_operation : Row → QueuedOperation
queued_operation row = record {
  record_uuid = row.record_uuid;
  body = row.body;
  priority = row.priority;
  attempts = row.retry_count;
  provider_attempted_at = row.provider_attempted_at;
  auto_resend_count = row.auto_resend_count;
  reconciliation_check_count = row.reconciliation_check_count;
  provider_rendered_content = rendered row.manual_context;
}

-- A call that may raise: a ValueError with its message, or another exception.
pub data Result {ℓ} (A : Type ℓ) : Type ℓ where
  ok : A → Result A
  -- A constraint of the table refused the row.
  database_error : Result A
  -- Any other exception, by its class.
  raised : String → Result A
  value_error : String → Result A

infixl 5 ◌>>=◌ ◌>>◌
abbrev pub ◌>>=◌ {ℓ κ} : {A : Type ℓ} {B : Type κ} → Result A → (A → Result B) → Result B
ok a >>= f = f a
value_error m >>= f = value_error m
database_error >>= f = database_error
raised m >>= f = raised m

abbrev pub ◌>>◌ {ℓ} : {B : Type ℓ} → Result (Unit {0}) → Result B → Result B
m >> k = m >>= λ _. k

-- `if not test: raise ValueError(message)`
abbrev pub require : Bool → String → Result (Unit {0})
require true m = ok tt
require false m = value_error m

abbrev pub row_is : ℕ → Row → Bool
row_is uuid row = row.record_uuid == uuid
