-- ===== src/Scheduler/Report.antt =====
-- result_record of scheduler.py: the result that goes back to Workspace.
use workspace_zulip_bridge.Common.{
  ℕ, String, Bool, true, false, ◌||◌, Option, none, some, List, [], ◌∷◌, str_eq, if◌then◌else◌,
}
use workspace_zulip_bridge.Queue.Types.{Record, ResultRecord, Outcome}
use workspace_zulip_bridge.Queue.Complete.{is_committed_outcome}

abbrev pub safe_error_codes : List String
safe_error_codes =
    "invalid_record" ∷ "unauthorized_account" ∷ "project_mismatch" ∷ "chat_not_selected"
    ∷ "capability_missing" ∷ "unsupported_operation" ∷ "not_found" ∷ "permission_denied"
    ∷ "conflict" ∷ "rate_limited" ∷ "provider_unavailable" ∷ "workspace_unavailable" ∷ "expired"
    ∷ "cancelled" ∷ "internal_error" ∷ []

pub mentions : List String → String → Bool
mentions [] code = false
mentions (c ∷ cs) code = str_eq c code || mentions cs code

unfoldable pub safe_code : String → String
unfolding mentions
safe_code code = if mentions safe_error_codes code then code else "internal_error"

pub record TargetCommit : Type 0 where
  pub entity_id : Option String
  pub revision : Option String

abbrev committed_entity : Option TargetCommit → Option String
committed_entity none = none
committed_entity (some c) = c.entity_id

abbrev committed_revision : Option TargetCommit → Option String
committed_revision none = none
committed_revision (some c) = c.revision

abbrev safe_error : Option String → Option String
safe_error none = none
safe_error (some code) = some (safe_code code)

-- outcome in {"rejected", "expired"}
abbrev pub retry_allowed : Outcome → Bool
retry_allowed Outcome.rejected = true
retry_allowed Outcome.expired = true
retry_allowed _ = false

-- `uuid` is the new uuid4, `now` the time.
unfoldable pub result_record :
    Record → Outcome → Option TargetCommit → Option String → ℕ → ℕ → ResultRecord
unfolding safe_code
result_record operation outcome commit code uuid now = record {
  schema = operation.schema;
  schema_version = operation.schema_version;
  record_uuid = uuid;
  operation_uuid = operation.operation_uuid;
  attempt = operation.attempt;
  operation_sha256 = operation.operation_sha256;
  account_uuid = operation.account_uuid;
  project_uuid = operation.project_uuid;
  origin = operation.origin;
  causal_lane = operation.causal_lane;
  sequence = operation.sequence;
  predecessor_operation_uuid = operation.predecessor_operation_uuid;
  created_at = now;
  expires_at = operation.expires_at;
  in_reply_to_record_uuid = operation.record_uuid;
  body = record {
    outcome = outcome;
    committed_at = if is_committed_outcome outcome then some now else none;
    provider_entity_id = committed_entity commit;
    provider_revision = committed_revision commit;
    safe_error = safe_error code;
    manual_retry_allowed = retry_allowed outcome;
    reconciliation = none;
  };
  transport = operation.transport;
}
