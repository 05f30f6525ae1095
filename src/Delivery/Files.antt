-- ===== src/Delivery/Files.antt =====
-- The store calls of HistoryPublisher, and _send_file of history_delivery.py.
use workspace_zulip_bridge.Common.{
  ℕ, suc, String, Bool, true, false, not, ◌&&◌, ◌||◌, Option, none, some, List, [], ◌∷◌, str_eq,
  ltb, leb, if◌then◌else◌,
}
use workspace_zulip_bridge.Delivery.{Item, ErrorValue}
use workspace_zulip_bridge.Delivery.Lease.{Release, is_current, release, fail}
use workspace_zulip_bridge.Delivery.Publish.{
  FileRequest, Answer, Download, Environment, Publisher, Attempt, record_stat,
  is_permanent_file_error, requested_accounts, Found, nothing_found, polled_release,
}

module _ (env : Environment) where
  -- The store as the next call finds it.
  unfoldable pub meanwhile : Publisher → Publisher
  meanwhile w = record w { store = env.others w.calls w.store; calls = suc w.calls }

  -- The time of the call that `meanwhile` counted.
  abbrev pub time : Publisher → ℕ
  time w = env.now w.calls

  unfoldable pub released : Release → Item → Publisher → Publisher
  unfolding meanwhile release
  released r item w =
      let v = meanwhile w in record v { store = (release r item (time v) v.store).1 }

  unfoldable pub failed : Item → ErrorValue → Publisher → Publisher
  unfolding meanwhile fail
  failed item value w =
      let v = meanwhile w in
      record v { store = (fail env.fingerprint item value (time v) v.store).1 }

  abbrev pub item_is_current : Item → Publisher → Bool
  item_is_current item w = is_current env.fingerprint item (time w) w.store

  -- What a download leads to; `retry` goes on with the next account.
  unfoldable pub on_download :
      Found → Download → Publisher → (Found → Option Found × Publisher) → Option Found × Publisher
  on_download found (Download.downloaded size) w retry =
      (some (record found { downloaded = some size }), w)
  on_download found (Download.refused code retryable) w retry =
      if not retryable
        && (str_eq code "provider_file_transfer_disabled" || str_eq code "provider_file_too_large")
      then (some (record found { retry_error = none; permanent_error = none }), w)
      else if not retryable && is_permanent_file_error code
      then retry (record found { permanent_error = some code })
      else if retryable || not (str_eq code "provider_file_unavailable")
      then retry (record found { retry_error = some (code, retryable) })
      else retry found

  -- The loop over the accounts; `none` where the item is no longer current.
  unfoldable pub download_from :
      Item → String → List ℕ → Found → Publisher → Option Found × Publisher
  unfolding meanwhile is_current on_download
  download_from item path [] found w = (some found, w)
  download_from item path (account ∷ accounts) found w =
      let v = meanwhile w in
      if item_is_current item v
      then on_download found (env.download account path) v
          (λ f. download_from item path accounts f v)
      else (none, v)

  -- The end of _publish behind a file or without one.
  unfoldable pub polled : Item → Option ErrorValue → Publisher → Attempt
  unfolding released
  polled item none w = Attempt.unavailable item w
  polled item (some error) w = Attempt.returned true (released (polled_release item error) item w)

  unfoldable pub store_file : Item → Answer → ℕ → ℕ → Option ℕ → Publisher → Attempt
  unfolding polled
  store_file item answer import file none w =
      if env.post_unavailable import file
      then polled item answer.safe_error (record_stat "history_files_unavailable" w)
      else Attempt.unavailable item w
  store_file item answer import file (some size) w =
      if env.put_file import file size
      then polled item answer.safe_error (record_stat "history_files_uploaded" w)
      else Attempt.unavailable item w

  -- A file that is too long for the limit counts as unavailable.
  abbrev pub within_limit : Option ℕ → Option ℕ
  within_limit none = none
  within_limit (some size) =
      if leb env.file_limit 0 || ltb env.file_limit size then none else some size

  -- What follows the loop, if no error is raised.
  unfoldable pub send_found : Item → Answer → ℕ → ℕ → Found → Publisher → Attempt
  unfolding store_file polled meanwhile is_current
  send_found item answer import file found w =
      let v = meanwhile w in
      if item_is_current item v
      then store_file item answer import file (within_limit found.downloaded) v
      else polled item answer.safe_error v

  unfoldable pub raised_permanent :
      Item → Answer → ℕ → ℕ → Found → Option String → Publisher → Attempt
  unfolding send_found
  raised_permanent item answer import file found none w = send_found item answer import file found w
  raised_permanent item answer import file found (some code) w =
      Attempt.operation_error code false item w

  unfoldable pub raised_retry :
      Item → Answer → ℕ → ℕ → Found → Option (String × Bool) → Publisher → Attempt
  unfolding raised_permanent
  raised_retry item answer import file found none w =
      raised_permanent item answer import file found found.permanent_error w
  raised_retry item answer import file found (some error) w =
      Attempt.operation_error error.0 error.1 item w

  unfoldable pub sent_or_raised : Item → Answer → ℕ → ℕ → Found → Option ℕ → Publisher → Attempt
  unfolding send_found raised_retry
  sent_or_raised item answer import file found none w =
      raised_retry item answer import file found found.retry_error w
  sent_or_raised item answer import file found (some size) w =
      send_found item answer import file found w

  unfoldable pub send_downloaded : Item → Answer → ℕ → ℕ → Option Found × Publisher → Attempt
  unfolding polled sent_or_raised
  send_downloaded item answer import file (none, w) = polled item answer.safe_error w
  send_downloaded item answer import file (some found, w) =
      sent_or_raised item answer import file found found.downloaded w

  unfoldable pub send_path : Item → Answer → ℕ → ℕ → List ℕ → Option String → Publisher → Attempt
  unfolding send_downloaded download_from
  send_path item answer import file accounts none w =
      Attempt.operation_error "invalid_provider_file_url" false item w
  send_path item answer import file accounts (some path) w =
      send_downloaded item answer import file (download_from item path accounts nothing_found w)

  unfoldable pub send_accounts :
      Item → Answer → ℕ → ℕ → FileRequest → Option (List ℕ) → Publisher → Attempt
  unfolding send_path
  send_accounts item answer import file request (some (account ∷ accounts)) w =
      send_path item answer import file (account ∷ accounts) (env.upload_path request.source_path) w
  send_accounts item answer import file request _ w =
      Attempt.operation_error "history_file_account_not_assigned" false item w

  unfoldable pub accounts_of : Item → Option (List (Option ℕ)) → Option (List ℕ)
  unfolding requested_accounts
  accounts_of item none = none
  accounts_of item (some requested) = requested_accounts item.sources [] requested

  -- _send_file and what follows it.
  unfoldable pub send_file : Item → Answer → ℕ → FileRequest → Option ℕ → Publisher → Attempt
  unfolding send_accounts accounts_of
  send_file item answer import request none w =
      Attempt.operation_error "invalid_history_file_request" false item w
  send_file item answer import request (some file) w =
      send_accounts item answer import file request (accounts_of item request.account_uuids) w

  unfoldable pub send_files : Item → Answer → ℕ → Option (List FileRequest) → Publisher → Attempt
  unfolding send_file polled
  send_files item answer import none w =
      Attempt.operation_error "invalid_history_file_request" false item w
  send_files item answer import (some []) w = polled item answer.safe_error w
  send_files item answer import (some (request ∷ requests)) w =
      send_file item answer import request request.uuid w
