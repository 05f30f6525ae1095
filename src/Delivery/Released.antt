-- ===== src/Delivery/Released.antt =====
-- What the calls of _publish in history_delivery.py leave of the lease of their item.
use workspace_zulip_bridge.Common.{
  ℕ, String, Bool, true, false, not, ◌&&◌, ◌||◌, Option, none, some, List, [], ◌∷◌, ◌==◌, str_eq,
  ltb, leb, if◌then◌else◌, ◌≡◌, refl, subst, Bool-cases, inl, inr, length, sym, ◌∙◌,
}
use workspace_zulip_bridge.Delivery.{
  BatchRow, Item, MappingCursor, ErrorValue, admission_retry_after,
}
use workspace_zulip_bridge.Delivery.Lease.{Release, plain_release}
use workspace_zulip_bridge.Delivery.References.{
  next_cursor, save_references, account_list, cursor_or_start,
}
use workspace_zulip_bridge.Delivery.Publish.{
  FileRequest, UuidValue, Answer, JsonBody, Reply, Page, PageReply, Download, Environment,
  Publisher, Attempt, with_import, record_stat, is_status, answer_error, is_busy,
  is_permanent_file_error, Found, nothing_found, nth, polled_release, complete_release,
  reset_release, busy_release, unavailable_release,
}
use workspace_zulip_bridge.Delivery.Files.{
  meanwhile, time, released, failed, item_is_current, on_download, download_from, polled,
  store_file, within_limit, send_found, raised_permanent, raised_retry, sent_or_raised,
  send_downloaded, send_path, send_accounts, accounts_of, send_file, send_files,
}
use workspace_zulip_bridge.Delivery.Import.{
  synced, completed, unread_page, polled_once, sync_page, sync_account, sync_references, cleared,
  error_or_unavailable, on_status, on_receipt, on_answer, on_reply, changed, postponed,
  request_import, attempt, settle, publish,
}
use workspace_zulip_bridge.Delivery.Fenced.{
  IsFree, IsFenced, release-IsFree, fail-IsFree, save_references-IsFenced,
}
use workspace_zulip_bridge.Delivery.Answers.{
  RespectsLease, account_of, is_malformed_body, is_malformed, is_malformed_page, reply_of,
  IsUnexpected,
}

none_not_some : {n : ℕ} → ¬ (none ≡ some n)
none_not_some h = absurd (cc h)

true_not_false : ¬ (true ≡ false)
true_not_false h = absurd (cc h)

module _ (env : Environment) (item : Item) (respects : RespectsLease env item) where
  abbrev Fenced : Publisher → Type 0
  Fenced w = IsFenced item.key item.lease w.store.batches

  abbrev Free : Publisher → Type 0
  Free w = IsFree item.lease w.store.batches

  abbrev SameClaim : Item → Type 0
  SameClaim other =
      (other.key ≡ item.key) × (other.lease ≡ item.lease) × (account_of other ≡ account_of item)

  -- A result has given the lease back; an exception leaves that to its handler.
  abbrev Settled : Attempt → Type 0
  Settled (Attempt.returned sent w) = Free w
  Settled (Attempt.operation_error code retryable other w) = SameClaim other × Fenced w
  Settled (Attempt.unavailable other w) = SameClaim other × Fenced w
  Settled (Attempt.crashed w) = IsUnexpected env item

  Settled-if :
      (test : Bool) (x y : Attempt) → Settled x → Settled y → Settled (if test then x else y)
  Settled-if true x y h k = h
  Settled-if false x y h k = k

  meanwhile-Fenced : (w : Publisher) → Fenced w → Fenced (meanwhile env w)
  unfolding meanwhile
  meanwhile-Fenced w h = respects w.calls w.store h

  released-Free :
      (r : Release) (other : Item) (w : Publisher)
      → SameClaim other
      → Fenced w
      → Free (released env r other w)
  unfolding released
  released-Free r other w (k, l, _) h = rw⁻¹ l (
      release-IsFree r other (time env (meanwhile env w)) (meanwhile env w).store
        (rw (k, l) (meanwhile-Fenced w h)))

  failed-Free :
      (value : ErrorValue) (other : Item) (w : Publisher)
      → SameClaim other
      → Fenced w
      → Free (failed env other value w)
  unfolding failed
  failed-Free value other w (k, l, _) h = rw⁻¹ l (
      fail-IsFree env.fingerprint other value (time env (meanwhile env w)) (meanwhile env w).store
        (rw (k, l) (meanwhile-Fenced w h)))

  on_download-Fenced :
      (found : Found) (d : Download) (w : Publisher) (retry : Found → Option Found × Publisher)
      → Fenced w
      → ((f : Found) → Fenced (retry f).1)
      → Fenced (on_download env found d w retry).1
  unfolding on_download
  on_download-Fenced found (Download.downloaded size) w retry h k = h
  on_download-Fenced found (Download.refused code retryable) w retry h k =
      elim (Bool-cases (
        not retryable
        && (str_eq code "provider_file_transfer_disabled"
            || str_eq code "provider_file_too_large"))) [
              | inl e ↦ rw e h
              | inr e ↦ elim (Bool-cases (not retryable && is_permanent_file_error code)) [
                | inl f ↦ rw (e, f) (k _)
                | inr f ↦
                    elim (Bool-cases (retryable || not (str_eq code "provider_file_unavailable"))) [
                      | inl g ↦ rw (e, f, g) (k _)
                      | inr g ↦ rw (e, f, g) (k _)
                    ]
              ]
            ]

  download_from-Fenced :
      (path : String) (accounts : List ℕ) (found : Found) (other : Item) (w : Publisher)
      → Fenced w
      → Fenced (download_from env other path accounts found w).1
  unfolding download_from
  download_from-Fenced path [] found other w h = h
  download_from-Fenced path (account ∷ accounts) found other w h =
      elim (Bool-cases (item_is_current env other (meanwhile env w))) [
        | inl e ↦ rw e (
            on_download-Fenced found (env.download account path) (meanwhile env w)
              (λ f. download_from env other path accounts f (meanwhile env w))
              (meanwhile-Fenced w h)
              (λ f.
                download_from-Fenced path accounts f other (meanwhile env w)
                  (meanwhile-Fenced w h)))
        | inr e ↦ rw e (meanwhile-Fenced w h)
      ]

  module _ (other : Item) (claimed : SameClaim other) where
    polled-Settled :
        (error : Option ErrorValue) (w : Publisher) → Fenced w → Settled (polled env other error w)
    unfolding polled
    polled-Settled none w h = (claimed, h)
    polled-Settled (some error) w h = released-Free (polled_release other error) other w claimed h

    store_file-Settled :
        (answer : Answer) (import file : ℕ) (size : Option ℕ) (w : Publisher)
        → Fenced w
        → Settled (store_file env other answer import file size w)
    unfolding store_file
    store_file-Settled answer import file none w h =
        Settled-if (env.post_unavailable import file) _ (Attempt.unavailable other w)
          (polled-Settled answer.safe_error (record_stat "history_files_unavailable" w) h)
          (claimed, h)
    store_file-Settled answer import file (some size) w h =
        Settled-if (env.put_file import file size) _ (Attempt.unavailable other w)
          (polled-Settled answer.safe_error (record_stat "history_files_uploaded" w) h) (claimed, h)

    send_found-Settled :
        (answer : Answer) (import file : ℕ) (found : Found) (w : Publisher)
        → Fenced w
        → Settled (send_found env other answer import file found w)
    unfolding send_found
    send_found-Settled answer import file found w h =
        Settled-if (item_is_current env other (meanwhile env w)) _ _
          (store_file-Settled answer import file (within_limit env found.downloaded)
            (meanwhile env w) (meanwhile-Fenced w h))
          (polled-Settled answer.safe_error (meanwhile env w) (meanwhile-Fenced w h))

    raised_permanent-Settled :
        (answer : Answer) (import file : ℕ) (found : Found) (o : Option String) (w : Publisher)
        → Fenced w
        → Settled (raised_permanent env other answer import file found o w)
    unfolding raised_permanent
    raised_permanent-Settled answer import file found none w h =
        send_found-Settled answer import file found w h
    raised_permanent-Settled answer import file found (some code) w h = (claimed, h)

    raised_retry-Settled :
        (answer : Answer) (import file : ℕ) (found : Found) (o : Option (String × Bool))
        (w : Publisher)
        → Fenced w
        → Settled (raised_retry env other answer import file found o w)
    unfolding raised_retry
    raised_retry-Settled answer import file found none w h =
        raised_permanent-Settled answer import file found found.permanent_error w h
    raised_retry-Settled answer import file found (some error) w h = (claimed, h)

    sent_or_raised-Settled :
        (answer : Answer) (import file : ℕ) (found : Found) (o : Option ℕ) (w : Publisher)
        → Fenced w
        → Settled (sent_or_raised env other answer import file found o w)
    unfolding sent_or_raised
    sent_or_raised-Settled answer import file found none w h =
        raised_retry-Settled answer import file found found.retry_error w h
    sent_or_raised-Settled answer import file found (some size) w h =
        send_found-Settled answer import file found w h

    send_downloaded-Settled :
        (answer : Answer) (import file : ℕ) (p : Option Found × Publisher)
        → Fenced p.1
        → Settled (send_downloaded env other answer import file p)
    unfolding send_downloaded
    send_downloaded-Settled answer import file (none, w) h = polled-Settled answer.safe_error w h
    send_downloaded-Settled answer import file (some found, w) h =
        sent_or_raised-Settled answer import file found found.downloaded w h

    send_path-Settled :
        (answer : Answer) (import file : ℕ) (accounts : List ℕ) (o : Option String) (w : Publisher)
        → Fenced w
        → Settled (send_path env other answer import file accounts o w)
    unfolding send_path
    send_path-Settled answer import file accounts none w h = (claimed, h)
    send_path-Settled answer import file accounts (some path) w h =
        send_downloaded-Settled answer import file
          (download_from env other path accounts nothing_found w)
          (download_from-Fenced path accounts nothing_found other w h)

    send_accounts-Settled :
        (answer : Answer) (import file : ℕ) (request : FileRequest) (o : Option (List ℕ))
        (w : Publisher)
        → Fenced w
        → Settled (send_accounts env other answer import file request o w)
    unfolding send_accounts
    send_accounts-Settled answer import file request none w h = (claimed, h)
    send_accounts-Settled answer import file request (some []) w h = (claimed, h)
    send_accounts-Settled answer import file request (some (account ∷ accounts)) w h =
        send_path-Settled answer import file (account ∷ accounts)
          (env.upload_path request.source_path) w h

    send_files-Settled :
        (answer : Answer) (import : ℕ) (o : Option (List FileRequest)) (w : Publisher)
        → Fenced w
        → Settled (send_files env other answer import o w)
    unfolding send_files send_file
    send_files-Settled answer import none w h = (claimed, h)
    send_files-Settled answer import (some []) w h = polled-Settled answer.safe_error w h
    send_files-Settled answer import (some (request ∷ requests)) w h = sent request.uuid
      where
        sent : (o : Option ℕ) → Settled (send_file env other answer import request o w)
        sent none = (claimed, h)
        sent (some file) =
            send_accounts-Settled answer import file request
              (accounts_of env other request.account_uuids) w h

    from_other :
        (rows : List BatchRow)
        → IsFenced other.key other.lease rows
        → IsFenced item.key item.lease rows
    from_other rows h =
        subst (λ key. IsFenced key item.lease rows) claimed.0
          (subst (λ lease. IsFenced other.key lease rows) claimed.1 h)

    synced-Fenced :
        (account : ℕ) (accounts : List ℕ) (cursor : MappingCursor) (page : Page) (w : Publisher)
        → Fenced w
        → Fenced (synced env other account accounts cursor page w)
    unfolding synced
    synced-Fenced account accounts cursor page w h =
        elim (Bool-cases (item_is_current env other (meanwhile env w))) [
          | inl e ↦
              let v = meanwhile env (meanwhile env w) in
              let next = next_cursor other (length accounts) cursor page.next_cursor in
              rw e (
                from_other
                  (save_references env.fingerprint other account page.mappings next.0 next.1
                    (time env v) v.store).batches
                  (save_references-IsFenced env.fingerprint other account page.mappings next.0
                    next.1 (time env v) v.store
                    (rw (claimed.0, claimed.1)
                      (meanwhile-Fenced (meanwhile env w) (meanwhile-Fenced w h)))))
          | inr e ↦ rw e (meanwhile-Fenced w h)
        ]

    completed-Settled : (w : Publisher) → Fenced w → Settled (completed env other w)
    unfolding completed
    completed-Settled w h = released-Free (complete_release other) other w claimed h

    sync_references-Settled :
        (import : ℕ) (w : Publisher) → Fenced w → Settled (sync_references env other import w)
    unfolding sync_references sync_account sync_page unread_page
    sync_references-Settled import w h =
        Settled-if (item_is_current env other v) _ _ (chosen (nth cursor.account accounts) refl)
          (completed-Settled v (meanwhile-Fenced w h))
      where
        v : Publisher
        v = meanwhile env w

        accounts : List ℕ
        accounts = account_list other.sources

        cursor : MappingCursor
        cursor = cursor_or_start other.mapping_cursor

        u : Publisher
        u = meanwhile env v

        unread-Settled : (error : Attempt) → Settled error → Settled (unread_page env other error u)
        unread-Settled error k =
            Settled-if (item_is_current env other u) error (completed env other u) k
              (completed-Settled u (meanwhile-Fenced v (meanwhile-Fenced w h)))

        paged :
            (account : ℕ) (o : PageReply)
            → env.get_mappings import account cursor ≡ o
            → Settled (sync_page env other account accounts cursor o v)
        paged account PageReply.page_error e = (claimed, meanwhile-Fenced w h)
        paged account PageReply.page_not_object e =
            unread-Settled (Attempt.crashed u) (inr (inr (import, account, cursor, rw e refl)))
        paged account PageReply.page_incomplete e =
            unread-Settled (Attempt.unavailable other u)
              (claimed, meanwhile-Fenced v (meanwhile-Fenced w h))
        paged account (PageReply.page page) e =
            completed-Settled (synced env other account accounts cursor page v)
              (synced-Fenced account accounts cursor page v (meanwhile-Fenced w h))

        chosen :
            (o : Option ℕ)
            → nth cursor.account accounts ≡ o
            → Settled (sync_account env other import accounts cursor o v)
        chosen none e = inl (sym claimed.2 ∙ e)
        chosen (some account) e = paged account (env.get_mappings import account cursor) refl

    error_or_unavailable-Settled :
        (o : Option ErrorValue) (w : Publisher)
        → Fenced w
        → Settled (error_or_unavailable env other o w)
    unfolding error_or_unavailable
    error_or_unavailable-Settled none w h = (claimed, h)
    error_or_unavailable-Settled (some error) w h = failed-Free error other w claimed h

    cleared-Fenced :
        (registered : Bool) (w : Publisher) → Fenced w → Fenced (cleared env registered w)
    cleared-Fenced true w h = h
    cleared-Fenced false w h = h

    on_status-Settled :
        (registered : Bool) (answer : Answer) (import : ℕ) (status : String) (w : Publisher)
        → Fenced w
        → Settled (on_status env registered other answer import status w)
    unfolding on_status
    on_status-Settled registered answer import status w h =
        Settled-if (str_eq status "failed") _ _
          (error_or_unavailable-Settled answer.safe_error (cleared env registered w)
            (cleared-Fenced registered w h))
          (Settled-if (str_eq status "superseded") _ _
            (released-Free (reset_release "history_receipt_superseded") other
              (cleared env registered w) claimed (cleared-Fenced registered w h))
            (Settled-if (str_eq status "complete") _ _
              (sync_references-Settled import (cleared env registered w)
                (cleared-Fenced registered w h))
              (send_files-Settled answer import answer.files w h)))

  asked :
      (o : Option ℕ)
      → item.import_uuid ≡ o
      → is_malformed (elim o [ none ↦ env.post_import item | some import ↦ env.get_import import ])
        ≡ true
      → is_malformed (reply_of env item) ≡ true
  asked o e odd =
      subst
        (λ (p : Option ℕ).
          is_malformed
            (elim p [ none ↦ env.post_import item | some import ↦ env.get_import import ])
          ≡ true)
        (sym e) odd

  on_receipt-Settled :
      (registered : Bool) (other : Item) (answer : Answer) (o : UuidValue) (p : Option String)
      (w : Publisher)
      → SameClaim other
      → Fenced w
      → (elim o [ UuidValue.not_text ↦ true | _ ↦ false ] ≡ true → IsUnexpected env item)
      → Settled (on_receipt env registered other answer o p w)
  unfolding on_receipt
  on_receipt-Settled registered other answer UuidValue.missing p w claimed h odd = (claimed, h)
  on_receipt-Settled registered other answer UuidValue.unreadable p w claimed h odd = (claimed, h)
  on_receipt-Settled registered other answer UuidValue.not_text p w claimed h odd = odd refl
  on_receipt-Settled registered other answer (UuidValue.readable import) none w claimed h odd =
      (claimed, h)
  on_receipt-Settled registered other answer (UuidValue.readable import) (some status) w claimed h
        odd =
      on_status-Settled (with_import import other) claimed registered answer import status w h

  polled_once-Fenced :
      (registered : Bool) (w : Publisher) → Fenced w → Fenced (polled_once env registered w)
  polled_once-Fenced true w h = h
  polled_once-Fenced false w h = h

  on_answer-Settled :
      (registered : Bool) (body : JsonBody) (w : Publisher)
      → Fenced w
      → (is_malformed_body body ≡ true → IsUnexpected env item)
      → Settled (on_answer env registered item body w)
  unfolding on_answer
  on_answer-Settled registered JsonBody.not_json w h odd = ((refl, refl, refl), h)
  on_answer-Settled registered JsonBody.not_object w h odd = odd refl
  on_answer-Settled registered (JsonBody.object answer) w h odd =
      on_receipt-Settled registered item answer answer.uuid answer.status
        (polled_once env registered w) (refl, refl, refl) (polled_once-Fenced registered w h) odd

  -- An answer that is no error.
  on_success-Settled :
      (registered test : Bool) (body : JsonBody) (w : Publisher)
      → Fenced w
      → ((not test && is_malformed_body body) ≡ true → IsUnexpected env item)
      → Settled (if test then Attempt.unavailable item w else on_answer env registered item body w)
  on_success-Settled registered true body w h odd = ((refl, refl, refl), h)
  on_success-Settled registered false body w h odd = on_answer-Settled registered body w h odd

  on_reply-Settled :
      (registered : Bool) (reply : Reply) (w : Publisher)
      → Fenced w
      → (is_malformed reply ≡ true → IsUnexpected env item)
      → Settled (on_reply env registered item reply w)
  unfolding on_reply
  on_reply-Settled registered Reply.http_error w h odd = ((refl, refl, refl), h)
  on_reply-Settled registered (Reply.response status retry_after body) w h odd =
      Settled-if (registered && (status == 404 || status == 409)) _ _
        (released-Free (reset_release "history_receipt_changed") item (changed env w)
          (refl, refl, refl) h)
        (Settled-if (not registered && status == 429 && is_busy (answer_error body)) _ _
          (released-Free (busy_release (admission_retry_after retry_after)) item
            (postponed env (admission_retry_after retry_after) w) (refl, refl, refl) h)
          (Settled-if (not registered && is_status status 400 413 422) _ _
            (failed-Free (ErrorValue.text "history_batch_rejected") item w (refl, refl, refl) h)
            (on_success-Settled registered (ltb status 200 || leb 300 status) body w h odd)))

  request_import-Settled :
      (o : Option ℕ) (w : Publisher)
      → item.import_uuid ≡ o
      → Fenced w
      → Settled (request_import env item o w)
  unfolding request_import
  request_import-Settled none w e h =
      on_reply-Settled false (env.post_import item) (record_stat "history_admission_attempts" w) h
        (λ odd. inr (inl (asked none e odd)))
  request_import-Settled (some import) w e h =
      on_reply-Settled true (env.get_import import) (record_stat "history_active_polls" w) h
        (λ odd. inr (inl (asked (some import) e odd)))

  attempt-Settled : (w : Publisher) → Fenced w → Settled (attempt env item w)
  unfolding attempt
  attempt-Settled w h =
      Settled-if (item_is_current env item (meanwhile env w)) _ _
        (request_import-Settled item.import_uuid (meanwhile env w) refl (meanwhile-Fenced w h))
        (released-Free plain_release item (meanwhile env w) (refl, refl, refl)
          (meanwhile-Fenced w h))

  -- No exception, or the lease given back.
  abbrev pub HasReleased : Option Bool × Publisher → Type 0
  HasReleased (none, w) = IsUnexpected env item
  HasReleased (some sent, w) = Free w

  settle-HasReleased : (a : Attempt) → Settled a → HasReleased (settle env a)
  unfolding settle
  settle-HasReleased (Attempt.returned sent w) h = h
  settle-HasReleased (Attempt.crashed w) h = h
  settle-HasReleased (Attempt.unavailable other w) (claimed, h) =
      released-Free (unavailable_release other) other w claimed h
  settle-HasReleased (Attempt.operation_error code retryable other w) (claimed, h) =
      elim (Bool-cases (not retryable && is_permanent_file_error code)) [
        | inl e ↦ rw e (failed-Free (ErrorValue.text code) other w claimed h)
        | inr e ↦ rw e (released-Free (unavailable_release other) other w claimed h)
      ]

  publish-HasReleased :
      (w : Publisher)
      → IsFenced item.key item.lease w.store.batches
      → HasReleased (publish env item w)
  unfolding publish
  publish-HasReleased w h = settle-HasReleased (attempt env item w) (attempt-Settled w h)

  pub publish_freed :
      (sent : Bool) (w v : Publisher)
      → IsFenced item.key item.lease w.store.batches
      → publish env item w ≡ (some sent, v)
      → IsFree item.lease v.store.batches
  publish_freed sent w v h e = subst HasReleased e (publish-HasReleased w h)

  -- Where only the batch of the item may hold its lease, no other transaction gives that lease to
  -- another batch, the cursor of the item has an account, the JSON of an answer of success is an
  -- object whose UUID is not a value other than a text, and that of a page of mappings is an object:
  -- _publish returns, whatever else the server and the adapters answer and whatever the other
  -- transactions do between its calls, and no batch holds the lease behind it.
  pub publish_released :
      (account : ℕ) (w : Publisher)
      → account_of item ≡ some account
      → is_malformed (reply_of env item) ≡ false
      → ((import account : ℕ) (cursor : MappingCursor)
          → is_malformed_page (env.get_mappings import account cursor) ≡ false)
      → IsFenced item.key item.lease w.store.batches
      → (sent : Bool) × ((publish env item w).0 ≡ some sent)
        × IsFree item.lease (publish env item w).1.store.batches
  publish_released account w place answered paged h =
      returned (publish env item w) (publish-HasReleased w h)
    where
      expected : IsUnexpected env item → ⊥
      expected (inl lost) = none_not_some (sym lost ∙ place)
      expected (inr (inl odd)) = true_not_false (sym odd ∙ answered)
      expected (inr (inr (import, account, cursor, odd))) =
          true_not_false (sym odd ∙ paged import account cursor)

      returned :
          (p : Option Bool × Publisher)
          → HasReleased p
          → (sent : Bool) × (p.0 ≡ some sent) × IsFree item.lease p.1.store.batches
      returned (none, v) lost = absurd (expected lost)
      returned (some sent, v) free = (sent, refl, free)
