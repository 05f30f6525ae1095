-- ===== src/Delivery/Tests.antt =====
-- The theorems on the delivery of history at one batch of one chat.
use workspace_zulip_bridge.Common.{
  ℕ, String, Bool, true, false, Option, none, some, List, [], ◌∷◌, ◌≡◌, refl, update_where, inl,
  inr, sym, ◌∙◌,
}
use workspace_zulip_bridge.Common.Select.{first_by}
use workspace_zulip_bridge.Delivery.{
  BatchRow, BatchKey, ImportStatus, Source, Item, DeliveryStore, ErrorValue,
}
use workspace_zulip_bridge.Delivery.Lease.{claim_batch, is_current, renew_lease}
use workspace_zulip_bridge.Delivery.Publish.{
  UuidValue, JsonBody, PageReply, Answer, Reply, Environment, Publisher, Download,
}
use workspace_zulip_bridge.Delivery.Import.{publish}
use workspace_zulip_bridge.Delivery.Fenced.{IsFree}
use workspace_zulip_bridge.Delivery.Released.{publish_released}
use workspace_zulip_bridge.Delivery.Claims.{claim_batch-is_current}
use workspace_zulip_bridge.Delivery.Exclusive.{IsKeyed, claim_batch_exclusive}
use workspace_zulip_bridge.Delivery.Renewed.{renew_lease-is_current}
use workspace_zulip_bridge.Delivery.Quantum.{quantum, quantum_released}

abbrev sample_key : BatchKey
sample_key = record { project_uuid = 2; provider_realm_uuid = 3; from_id = 1 }

abbrev sample_row : BatchRow
sample_row = record {
  key = sample_key;
  import_status = ImportStatus.pending;
  import_uuid = none;
  import_lease = none;
  import_lease_until = none;
  import_retry_at = 0;
  import_error = none;
  import_sources_hash = none;
  import_mapping_cursor = none;
}

abbrev sample_store : DeliveryStore
sample_store = record {
  provider_enabled = true;
  accounts =
      record { resource_uuid = 7; generation = 1; deleted = false; synchronization_enabled = true }
      ∷ [];
  assignments =
      record {
        resource_uuid = 5;
        generation = 3;
        deleted = false;
        selected = true;
        external_account_uuid = 7;
        project_id = 2;
        provider_chat_key = "channel:4";
      }
      ∷ [];
  cursors =
      record { account_uuid = 7; provider_account_generation = 1; provider_realm_uuid = 3 } ∷ [];
  jobs = record { account_uuid = 7; provider_chat_key = "channel:4"; state = "complete" } ∷ [];
  scopes =
      record {
        project_uuid = 2;
        provider_realm_uuid = 3;
        generation = 9;
        fingerprint = "print";
        directory_pending = false;
      }
      ∷ [];
  batches = sample_row ∷ [];
  mappings = [];
  aliases = [];
  reports = [];
  health = λ project realm. none;
}

abbrev sample_digest : List Source → String
sample_digest sources = "digest"

abbrev sample_fingerprint : DeliveryStore → ℕ → ℕ → String
sample_fingerprint s project realm = "print"

-- The import is registered and under way, and asks for no file.
abbrev sample_answer : Answer
sample_answer = record {
  uuid = UuidValue.readable 70;
  status = some "running";
  safe_error = some ErrorValue.null;
  files = some [];
  error = ErrorValue.null;
}

abbrev sample_environment : Environment
sample_environment = record {
  others = λ n s. s;
  now = λ n. 1000;
  clock = λ n. 1;
  fingerprint = sample_fingerprint;
  post_import = λ item. Reply.response 202 none (JsonBody.object sample_answer);
  get_import = λ uuid. Reply.http_error;
  get_mappings = λ import account cursor. PageReply.page_error;
  upload_path = λ path. some path;
  download = λ account path. Download.refused "provider_file_unavailable" false;
  put_file = λ import file size. true;
  post_unavailable = λ import file. true;
  file_limit = 100;
}

abbrev publisher_of : DeliveryStore → Publisher
publisher_of s = record {
  store = s;
  calls = 0;
  admission_probe_after = 0;
  admission_probe_due = false;
  stats = [];
}

abbrev sample_claim : Option Item × DeliveryStore
sample_claim = claim_batch sample_digest sample_fingerprint true false 60 1000 sample_store

abbrev item_or : Item → Option Item → Item
item_or default none = default
item_or default (some item) = item

abbrev blank_item : Item
blank_item = record {
  validation_error = none;
  mapping_cursor = none;
  key = sample_key;
  lease = 0;
  generation = 0;
  import_uuid = none;
  sources = [];
}

abbrev sample_item : Item
sample_item = item_or blank_item sample_claim.0

claim_batch-is_current_example :
    is_current sample_fingerprint sample_item 2000 sample_claim.1 ≡ true
unfolding claim_batch first_by
claim_batch-is_current_example =
    claim_batch-is_current sample_digest sample_fingerprint (λ u batches project realm. refl) true
      false 60 1000 2000 sample_store sample_claim.1 sample_item refl refl

abbrev sample_published : Option Bool × Publisher
sample_published = publish sample_environment sample_item (publisher_of sample_claim.1)

publish_released_example :
    (sent : Bool) × (sample_published.0 ≡ some sent) × IsFree 60 sample_published.1.store.batches
unfolding claim_batch first_by publish update_where
publish_released_example =
    publish_released sample_environment sample_item (λ n s h. h) 7 (publisher_of sample_claim.1)
      refl refl (λ import account cursor. refl) (refl, tt)

abbrev sample_quantum : Option Bool × Publisher
sample_quantum = quantum sample_environment sample_digest false 60 (publisher_of sample_store)

quantum_released_example : IsFree 60 sample_quantum.1.store.batches
unfolding quantum first_by publish update_where
quantum_released_example =
    quantum_released sample_environment sample_digest 60 ((λ n s h. h), (λ key n s h. h)) false true
      (publisher_of sample_store) sample_quantum.1 (refl, tt) refl

-- The batch of the sample under the lease 60, and the next batch of its chat.
abbrev held_row : BatchRow
held_row = record sample_row {
  import_lease = some 60;
  import_lease_until = some 120001000;
  import_sources_hash = some "digest";
}

abbrev next_row : BatchRow
next_row = record sample_row {
  key = record { project_uuid = 2; provider_realm_uuid = 3; from_id = 5001 };
}

abbrev two_batches : DeliveryStore
two_batches = record sample_store { batches = held_row ∷ next_row ∷ [] }

two_batches-IsKeyed : IsKeyed two_batches.batches
two_batches-IsKeyed a b (inl e) (inl f) k = e ∙ sym f
two_batches-IsKeyed a b (inl e) (inr (inl f)) k = absurd (cc (rw (e, f) at k))
two_batches-IsKeyed a b (inl e) (inr (inr i)) k = elim i [ ]
two_batches-IsKeyed a b (inr (inl e)) (inl f) k = absurd (cc (rw (e, f) at k))
two_batches-IsKeyed a b (inr (inl e)) (inr (inl f)) k = e ∙ sym f
two_batches-IsKeyed a b (inr (inl e)) (inr (inr i)) k = elim i [ ]
two_batches-IsKeyed a b (inr (inr i)) j k = elim i [ ]

abbrev second_claim : Option Item × DeliveryStore
second_claim = claim_batch sample_digest sample_fingerprint true false 61 2000 two_batches

claim_batch_exclusive_example : ¬ ((item_or blank_item second_claim.0).key ≡ sample_key)
unfolding claim_batch first_by is_current
claim_batch_exclusive_example =
    claim_batch_exclusive sample_digest sample_fingerprint true false 61 2000 two_batches
      second_claim.1 sample_item (item_or blank_item second_claim.0) two_batches-IsKeyed refl refl

renew_lease-is_current_example :
    ((renew_lease sample_fingerprint sample_item 2000 two_batches).0 ≡ true)
    × (is_current sample_fingerprint sample_item 90000000
          (renew_lease sample_fingerprint sample_item 2000 two_batches).1
        ≡ true)
unfolding claim_batch first_by is_current
renew_lease-is_current_example =
    renew_lease-is_current sample_fingerprint (λ u batches project realm. refl) sample_item 2000
      90000000 two_batches refl refl
