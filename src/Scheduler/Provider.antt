-- ===== src/Scheduler/Provider.antt =====
-- What the scheduler calls: the Zulip adapter of an account (zulip_adapter.OfficialZulipAdapter),
-- the account handlers that the service installs, and the clock. A call of the adapter returns,
-- raises ZulipAmbiguousOutcome or raises ZulipOperationError.
use workspace_zulip_bridge.Common.{ℕ, zero, suc, String, Bool, Option, none, some, List}
use workspace_zulip_bridge.Queue.Types.{Record, Operation, Mappings, Store, Result}

pub record ZulipOperationError : Type 0 where
  pub code : String
  pub retryable : Bool
  pub account_generation : Option ℕ

pub data Call {ℓ} (A : Type ℓ) : Type ℓ where
  returns : A → Call A
  ambiguous : String → Call A
  fails : ZulipOperationError → Call A

pub record SendCorrelation : Type 0 where
  pub queue_id : String
  pub local_id : String
  pub last_event_id : ℕ
  pub provider_rendered_content : String

pub record ReconciliationEvidence : Type 0 where
  pub checked_at : ℕ
  pub candidate_ids : List String
  pub exact_match_count : ℕ
  pub selected_provider_id : Option String

pub record Cursor : Type 0 where
  pub queue_id : String
  pub last_event_id : ℕ

-- `prepare` and `apply` are those of the adapter with the queue restored at the cursor.
pub record Adapter : Type 0 where
  pub account_generation : Option ℕ
  pub prepare : Option Cursor → Operation → ℕ → Option String → Call (Option SendCorrelation)
  pub apply :
      Option Cursor → Operation → Option SendCorrelation → Call (Option String × Option String)
  pub reconcile_message : Operation → ℕ → Option String → Call ReconciliationEvidence

pub record Scheduler : Type 0 where
  pub worker_id : String
  pub adapters : ℕ → Call Adapter
  pub provider_event_cursor : ℕ → Option Cursor
  -- random.uniform(0.0, maximum), in microseconds.
  pub uniform : ℕ → ℕ
  pub account_failure_handler : Option (ℕ → ZulipOperationError → Option ℕ → Store → Bool × Store)
  pub account_success_handler : Option (ℕ → Option ℕ → Store → Store)
  pub persist : Record → Option String → Option String → Mappings → Result Mappings
  pub uuid5 : ℕ → String → ℕ

-- The times of the calls of one run, and the UUID of its result.
pub record Moment : Type 0 where
  pub reaped_at : ℕ
  pub claimed_terminal_at : ℕ
  pub claimed_at : ℕ
  pub checked_at : ℕ
  pub attempted_at : ℕ
  pub finished_at : ℕ
  pub result_uuid : ℕ

-- `a or b` on generations: zero is no generation.
abbrev pub or_generation : Option ℕ → Option ℕ → Option ℕ
or_generation none other = other
or_generation (some zero) other = other
or_generation (some (suc n)) other = some (suc n)
