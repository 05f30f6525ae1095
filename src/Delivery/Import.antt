-- ===== src/Delivery/Import.antt =====
-- sync_references and _publish of history_delivery.py.
use workspace_zulip_bridge.Common.{
  ℕ, ◌+◌, String, Bool, true, false, not, ◌&&◌, ◌||◌, Option, none, some, List, ◌==◌, str_eq, ltb,
  leb, if◌then◌else◌, length,
}
use workspace_zulip_bridge.Delivery.{Item, MappingCursor, ErrorValue, admission_retry_after}
use workspace_zulip_bridge.Delivery.Lease.{plain_release, is_current}
use workspace_zulip_bridge.Delivery.References.{
  save_references, account_list, cursor_or_start, next_cursor,
}
use workspace_zulip_bridge.Delivery.Publish.{
  UuidValue, JsonBody, PageReply, Answer, Reply, Page, Environment, Publisher, Attempt, with_import,
  record_stat, is_status, answer_error, is_busy, is_permanent_file_error, nth, complete_release,
  reset_release, busy_release, unavailable_release,
}
use workspace_zulip_bridge.Delivery.Files.{
  meanwhile, time, released, failed, item_is_current, send_files,
}

module _ (env : Environment) where
  -- sync_references behind the answer with a page.
  unfoldable pub synced : Item → ℕ → List ℕ → MappingCursor → Page → Publisher → Publisher
  unfolding meanwhile is_current next_cursor save_references
  synced item account accounts cursor page w =
      let v = meanwhile env w in
      if item_is_current env item v
      then (let (after, complete) = next_cursor item (length accounts) cursor page.next_cursor in
          let u = meanwhile env v in
          record u {
            store =
                save_references env.fingerprint item account page.mappings after complete
                  (time env u) u.store;
          })
      else v

  -- The release behind a complete import.
  unfoldable pub completed : Item → Publisher → Attempt
  unfolding released
  completed item w = Attempt.returned true (released env (complete_release item) item w)

  -- page["next_cursor"] and page["mappings"] are read behind the second look at the item.
  unfoldable pub unread_page : Item → Attempt → Publisher → Attempt
  unfolding is_current completed
  unread_page item error w = if item_is_current env item w then error else completed item w

  unfoldable pub sync_page : Item → ℕ → List ℕ → MappingCursor → PageReply → Publisher → Attempt
  unfolding synced completed unread_page meanwhile
  sync_page item account accounts cursor PageReply.page_error w = Attempt.unavailable item w
  sync_page item account accounts cursor PageReply.page_not_object w =
      let v = meanwhile env w in unread_page item (Attempt.crashed v) v
  sync_page item account accounts cursor PageReply.page_incomplete w =
      let v = meanwhile env w in unread_page item (Attempt.unavailable item v) v
  sync_page item account accounts cursor (PageReply.page page) w =
      completed item (synced item account accounts cursor page w)

  unfoldable pub sync_account : Item → ℕ → List ℕ → MappingCursor → Option ℕ → Publisher → Attempt
  unfolding sync_page
  sync_account item import accounts cursor none w = Attempt.crashed w
  sync_account item import accounts cursor (some account) w =
      sync_page item account accounts cursor (env.get_mappings import account cursor) w

  unfoldable pub sync_references : Item → ℕ → Publisher → Attempt
  unfolding sync_account meanwhile is_current completed
  sync_references item import w =
      let v = meanwhile env w in
      let accounts = account_list item.sources in
      let cursor = cursor_or_start item.mapping_cursor in
      if item_is_current env item v
      then sync_account item import accounts cursor (nth cursor.account accounts) v
      else completed item v

  -- self.admission_probe_after = 0.0 for a receipt that was registered
  abbrev pub cleared : Bool → Publisher → Publisher
  cleared registered w = if registered then record w { admission_probe_after = 0 } else w

  unfoldable pub error_or_unavailable : Item → Option ErrorValue → Publisher → Attempt
  unfolding failed
  error_or_unavailable item none w = Attempt.unavailable item w
  error_or_unavailable item (some error) w = Attempt.returned false (failed env item error w)

  -- By state["status"].
  unfoldable pub on_status : Bool → Item → Answer → ℕ → String → Publisher → Attempt
  unfolding send_files sync_references released error_or_unavailable
  on_status registered item answer import status w =
      if str_eq status "failed"
      then error_or_unavailable item answer.safe_error (cleared registered w)
      else if str_eq status "superseded"
      then Attempt.returned false
          (released env (reset_release "history_receipt_superseded") item (cleared registered w))
      else if str_eq status "complete"
      then sync_references item import (cleared registered w)
      else send_files env item answer import answer.files w

  unfoldable pub on_receipt : Bool → Item → Answer → UuidValue → Option String → Publisher → Attempt
  unfolding on_status
  on_receipt registered item answer UuidValue.missing status w = Attempt.unavailable item w
  on_receipt registered item answer UuidValue.unreadable status w = Attempt.unavailable item w
  on_receipt registered item answer UuidValue.not_text status w = Attempt.crashed w
  on_receipt registered item answer (UuidValue.readable import) none w =
      Attempt.unavailable (with_import import item) w
  on_receipt registered item answer (UuidValue.readable import) (some status) w =
      on_status registered (with_import import item) answer import status w

  -- The next turn of an import that was registered may admit.
  abbrev pub polled_once : Bool → Publisher → Publisher
  polled_once registered w = if registered then record w { admission_probe_due = true } else w

  unfoldable pub on_answer : Bool → Item → JsonBody → Publisher → Attempt
  unfolding on_receipt
  on_answer registered item JsonBody.not_json w = Attempt.unavailable item w
  on_answer registered item JsonBody.not_object w = Attempt.crashed (polled_once registered w)
  on_answer registered item (JsonBody.object answer) w =
      on_receipt registered item answer answer.uuid answer.status (polled_once registered w)

  abbrev pub changed : Publisher → Publisher
  changed w = record w { admission_probe_after = 0; admission_probe_due = true }

  abbrev pub postponed : ℕ → Publisher → Publisher
  postponed delay w =
      record_stat "history_admission_busy"
        (record w { admission_probe_after = env.clock w.calls + delay })

  unfoldable pub on_reply : Bool → Item → Reply → Publisher → Attempt
  unfolding on_answer released failed answer_error admission_retry_after
  on_reply registered item Reply.http_error w = Attempt.unavailable item w
  on_reply registered item (Reply.response status retry_after body) w =
      if registered && (status == 404 || status == 409)
      then Attempt.returned false
          (released env (reset_release "history_receipt_changed") item (changed w))
      else if not registered && status == 429 && is_busy (answer_error body)
      then Attempt.returned false (
          released env (busy_release (admission_retry_after retry_after)) item
            (postponed (admission_retry_after retry_after) w))
      else if not registered && is_status status 400 413 422
      then Attempt.returned false (failed env item (ErrorValue.text "history_batch_rejected") w)
      else if ltb status 200 || leb 300 status
      then Attempt.unavailable item w
      else on_answer registered item body w

  unfoldable pub request_import : Item → Option ℕ → Publisher → Attempt
  unfolding on_reply
  request_import item none w =
      on_reply false item (env.post_import item) (record_stat "history_admission_attempts" w)
  request_import item (some import) w =
      on_reply true item (env.get_import import) (record_stat "history_active_polls" w)

  -- The body of the try statement.
  unfoldable pub attempt : Item → Publisher → Attempt
  unfolding request_import meanwhile is_current released
  attempt item w =
      let v = meanwhile env w in
      if item_is_current env item v
      then request_import item item.import_uuid v
      else Attempt.returned false (released env plain_release item v)

  -- The except clauses; `none` is an exception that leaves _publish.
  unfoldable pub settle : Attempt → Option Bool × Publisher
  unfolding failed released
  settle (Attempt.returned sent w) = (some sent, w)
  settle (Attempt.crashed w) = (none, w)
  settle (Attempt.unavailable item w) = (some false, released env (unavailable_release item) item w)
  settle (Attempt.operation_error code retryable item w) = (
    some false,
    if not retryable && is_permanent_file_error code
        then failed env item (ErrorValue.text code) w
        else released env (unavailable_release item) item w,
  )

  unfoldable pub publish : Item → Publisher → Option Bool × Publisher
  unfolding settle attempt
  publish item w = settle (attempt item w)
