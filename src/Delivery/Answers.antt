-- ===== src/Delivery/Answers.antt =====
-- What publish_released of Delivery/Released.antt asks of the answers of the server and of the other
-- transactions.
use workspace_zulip_bridge.Common.{
  ◌⊎◌, ℕ, Bool, true, false, not, ◌&&◌, ◌||◌, Option, none, some, ltb, leb, ◌≡◌,
}
use workspace_zulip_bridge.Delivery.{Item, MappingCursor, DeliveryStore}
use workspace_zulip_bridge.Delivery.References.{account_list, cursor_or_start}
use workspace_zulip_bridge.Delivery.Publish.{
  UuidValue, JsonBody, Reply, PageReply, Environment, nth,
}
use workspace_zulip_bridge.Delivery.Fenced.{IsFenced}

-- The other transactions give no batch the lease of the item, whose UUID is its own.
abbrev pub RespectsLease : Environment → Item → Type 0
RespectsLease env item =
    (n : ℕ) (s : DeliveryStore)
    → IsFenced item.key item.lease s.batches
    → IsFenced item.key item.lease (env.others n s).batches

-- The account whose references are read next, if the cursor has one.
abbrev pub account_of : Item → Option ℕ
account_of item = nth (cursor_or_start item.mapping_cursor).account (account_list item.sources)

-- An answer of success whose JSON is not an object, or has a UUID that is no text.
abbrev pub is_malformed_body : JsonBody → Bool
is_malformed_body JsonBody.not_json = false
is_malformed_body JsonBody.not_object = true
is_malformed_body (JsonBody.object answer) = elim answer.uuid [
  | UuidValue.not_text ↦ true
  | _ ↦ false
]

abbrev pub is_malformed : Reply → Bool
is_malformed Reply.http_error = false
is_malformed (Reply.response status retry_after body) =
    not (ltb status 200 || leb 300 status) && is_malformed_body body

abbrev pub is_malformed_page : PageReply → Bool
is_malformed_page answer = elim answer [ PageReply.page_not_object ↦ true | _ ↦ false ]

-- The answer to the first request of a delivery.
abbrev pub reply_of : Environment → Item → Reply
reply_of env item = elim item.import_uuid [
  | none ↦ env.post_import item
  | some import ↦ env.get_import import
]

-- Why an exception leaves the delivery: the cursor is behind the accounts, or the server answers
-- with JSON of another form.
abbrev pub IsUnexpected : Environment → Item → Type 0
IsUnexpected env item =
    (account_of item ≡ none)
    ⊎ ((is_malformed (reply_of env item) ≡ true)
        ⊎ ((import account : ℕ) × (cursor : MappingCursor) × (is_malformed_page
                (env.get_mappings import account cursor)
              ≡ true)))
