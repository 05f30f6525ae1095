-- ===== src/Delivery/Publish.antt =====
-- What HistoryPublisher of history_delivery.py works with and answers. The environment
-- has the answers of the server and of the adapters, the times of the calls of the store, and what
-- other transactions do before each of them: the renewal of the lease, other workers, and changes
-- of the configuration.
use workspace_zulip_bridge.Common.{
  ℕ, zero, suc, String, Bool, true, false, ◌||◌, Option, none, some, List, [], ◌∷◌, ◌==◌, str_eq,
  if◌then◌else◌,
}
use workspace_zulip_bridge.Delivery.{
  Source, Item, MappingCursor, DeliveryStore, ErrorValue, safe_error_code,
}
use workspace_zulip_bridge.Delivery.Lease.{Release, plain_release}
use workspace_zulip_bridge.Delivery.References.{Reference}

-- An entry of state["files"]; `none` where the code finds no UUID, no list or an empty one.
pub record FileRequest : Type 0 where
  pub uuid : Option ℕ
  pub account_uuids : Option (List (Option ℕ))
  pub source_path : String

-- state["uuid"]: uuid.UUID raises a ValueError on a text that is no UUID, and a TypeError or an
-- AttributeError on a value that is no text.
pub data UuidValue : Type 0 where
  missing unreadable not_text : UuidValue
  readable : ℕ → UuidValue

-- The JSON object of an answer; `none` is a missing key. A status that is no text is one that the
-- code does not know.
pub record Answer : Type 0 where
  pub uuid : UuidValue
  pub status : Option String
  pub safe_error : Option ErrorValue
  pub files : Option (List FileRequest)
  -- body["error"]
  pub error : ErrorValue

-- The body of an answer: response.json() raises a ValueError where it is not JSON.
pub data JsonBody : Type 0 where
  not_json not_object : JsonBody
  object : Answer → JsonBody

pub data Reply : Type 0 where
  -- Status, Retry-After and body.
  response : ℕ → Option ℕ → JsonBody → Reply
  http_error : Reply

pub record Page : Type 0 where
  pub next_cursor : Option ℕ
  pub mappings : List Reference

-- The answer with the mappings: an error of the request or a body that is not JSON; JSON that is
-- not an object; an object without one of the two keys.
pub data PageReply : Type 0 where
  page_error page_not_object page_incomplete : PageReply
  page : Page → PageReply

pub data Download : Type 0 where
  downloaded : ℕ → Download
  -- A ZulipOperationError: its code, and whether it is retryable.
  refused : String → Bool → Download

pub record Environment : Type 0 where
  pub others : ℕ → DeliveryStore → DeliveryStore
  pub now : ℕ → ℕ
  pub clock : ℕ → ℕ
  pub fingerprint : DeliveryStore → ℕ → ℕ → String
  pub post_import : Item → Reply
  pub get_import : ℕ → Reply
  pub get_mappings : ℕ → ℕ → MappingCursor → PageReply
  pub upload_path : String → Option String
  pub download : ℕ → String → Download
  -- The answer to a file, or to its being unavailable, is a success.
  pub put_file : ℕ → ℕ → ℕ → Bool
  pub post_unavailable : ℕ → ℕ → Bool
  pub file_limit : ℕ

-- HistoryPublisher, the store, and the number of calls of the store so far.
pub record Publisher : Type 0 where
  pub store : DeliveryStore
  pub calls : ℕ
  pub admission_probe_after : ℕ
  pub admission_probe_due : Bool
  pub stats : List String

-- What is left of the body of the try statement.
pub data Attempt : Type 0 where
  returned : Bool → Publisher → Attempt
  -- A ZulipOperationError: its code, and whether it is retryable.
  operation_error : String → Bool → Item → Publisher → Attempt
  -- An HTTPError, ValueError or KeyError.
  unavailable : Item → Publisher → Attempt
  -- Any other exception: IndexError where the cursor is behind the accounts, TypeError or
  -- AttributeError where JSON has another form than the code expects.
  crashed : Publisher → Attempt

-- item["import_uuid"] = …
abbrev pub with_import : ℕ → Item → Item
with_import uuid item = record item { import_uuid = some uuid }

abbrev pub record_stat : String → Publisher → Publisher
record_stat name w = record w { stats = name ∷ w.stats }

abbrev pub is_status : ℕ → ℕ → ℕ → ℕ → Bool
is_status code a b c = code == a || (code == b || code == c)

unfoldable pub answer_error : JsonBody → Option String
unfolding safe_error_code
answer_error JsonBody.not_json = none
answer_error JsonBody.not_object = none
answer_error (JsonBody.object answer) = safe_error_code answer.error

abbrev pub is_busy : Option String → Bool
is_busy none = false
is_busy (some code) = str_eq code "history_import_busy"

-- PERMANENT_FILE_ERRORS
abbrev pub is_permanent_file_error : String → Bool
is_permanent_file_error code =
    str_eq code "invalid_provider_file_url"
    || str_eq code "invalid_provider_file_length"
    || str_eq code "history_file_account_not_assigned"
    || str_eq code "invalid_history_file_request"

-- The accounts that are asked for, each once; `none` where one is not a UUID or is not a source.
abbrev pub is_source : ℕ → List Source → Bool
is_source uuid [] = false
is_source uuid (source ∷ sources) = source.account_uuid == uuid || is_source uuid sources

abbrev pub is_listed : ℕ → List ℕ → Bool
is_listed uuid [] = false
is_listed uuid (other ∷ uuids) = uuid == other || is_listed uuid uuids

unfoldable pub requested_accounts : List Source → List ℕ → List (Option ℕ) → Option (List ℕ)
requested_accounts sources seen [] = some []
requested_accounts sources seen (none ∷ requested) = none
requested_accounts sources seen (some uuid ∷ requested) =
    let rest = requested_accounts sources (uuid ∷ seen) requested in
    if is_source uuid sources
    then elim rest [
      | none ↦ none
      | some uuids ↦ some (if is_listed uuid seen then uuids else uuid ∷ uuids)
    ]
    else none

-- downloaded, retry_error and permanent_error
pub record Found : Type 0 where
  pub downloaded : Option ℕ
  pub retry_error : Option (String × Bool)
  pub permanent_error : Option String

abbrev pub nothing_found : Found
nothing_found = record { downloaded = none; retry_error = none; permanent_error = none }

abbrev pub nth : ℕ → List ℕ → Option ℕ
nth n [] = none
nth zero (x ∷ xs) = some x
nth (suc n) (x ∷ xs) = nth n xs

-- The arguments of the calls of `release`.
abbrev pub polled_release : Item → ErrorValue → Release
polled_release item error = record plain_release { job_uuid = item.import_uuid; error = error }

abbrev pub complete_release : Item → Release
complete_release item = record plain_release { job_uuid = item.import_uuid }

abbrev pub reset_release : String → Release
reset_release code = record plain_release { error = ErrorValue.text code; reset = true }

abbrev pub busy_release : ℕ → Release
busy_release delay = record plain_release {
  error = ErrorValue.text "history_import_busy";
  delay = delay;
}

abbrev pub unavailable_release : Item → Release
unavailable_release item = record plain_release {
  job_uuid = item.import_uuid;
  error = ErrorValue.text "history_delivery_unavailable";
  delay = 5;
}
