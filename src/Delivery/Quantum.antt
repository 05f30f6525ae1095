-- ===== src/Delivery/Quantum.antt =====
-- The end of HistoryPublisher._run_once of history_delivery.py: the choice of a batch and its
-- delivery, behind the probe of the server and the failure reports. `reported` says that a failure
-- report was sent before.
use workspace_zulip_bridge.Common.{
  ℕ, String, Bool, true, false, ◌||◌, Option, none, some, List, ltb, if◌then◌else◌, ◌≡◌, refl, sym,
  subst, Bool-cases, inl, inr,
}
use workspace_zulip_bridge.Delivery.{BatchKey, Source, Item, DeliveryStore, ErrorValue}
use workspace_zulip_bridge.Delivery.Lease.{claim_batch, fail}
use workspace_zulip_bridge.Delivery.Publish.{Environment, Publisher}
use workspace_zulip_bridge.Delivery.Files.{meanwhile, time, failed}
use workspace_zulip_bridge.Delivery.Import.{publish}
use workspace_zulip_bridge.Delivery.Fenced.{IsFree, IsFenced, fail-IsFree}
use workspace_zulip_bridge.Delivery.Released.{publish_freed}
use workspace_zulip_bridge.Delivery.Fences.{Fences, claim_batch-Fences}

module _ (env : Environment) (digest : List Source → String) where
  unfoldable pub claim_with : Bool → Bool → ℕ → Publisher → Option Item × Publisher
  unfolding claim_batch meanwhile
  claim_with allow_admission prefer_admission lease w =
      let v = meanwhile env w in
      let (item, store) =
        claim_batch digest env.fingerprint allow_admission prefer_admission lease (time env v)
          v.store in
      (item, record v { store = store })

  -- While admissions wait only registered imports are taken; the poll after one may admit.
  unfoldable pub choose_item : ℕ → Publisher → Option Item × Publisher
  unfolding claim_with
  choose_item lease w =
      if ltb (env.clock w.calls) w.admission_probe_after
      then claim_with false false lease w
      else if w.admission_probe_due
      then claim_with true true lease (record w { admission_probe_due = false })
      else claim_with true false lease w

  unfoldable pub published : Bool → Option Bool × Publisher → Option Bool × Publisher
  published reported (none, w) = (none, w)
  published reported (some sent, w) = (some (sent || reported), w)

  unfoldable pub deliver_valid : Bool → Item → Option String → Publisher → Option Bool × Publisher
  unfolding failed publish published
  deliver_valid reported item (some code) w =
      (some reported, failed env item (ErrorValue.text code) w)
  deliver_valid reported item none w = published reported (publish env item w)

  unfoldable pub deliver : Bool → Option Item × Publisher → Option Bool × Publisher
  unfolding deliver_valid
  deliver reported (none, w) = (some reported, w)
  deliver reported (some item, w) = deliver_valid reported item item.validation_error w

  unfoldable pub quantum : Bool → ℕ → Publisher → Option Bool × Publisher
  unfolding deliver choose_item
  quantum reported lease w = deliver reported (choose_item lease w)

  -- No other transaction gives a batch the lease.
  abbrev pub NeverGives : ℕ → Type 0
  NeverGives lease =
      ((n : ℕ) (s : DeliveryStore) → IsFree lease s.batches → IsFree lease (env.others n s).batches)
      × ((key : BatchKey) (n : ℕ) (s : DeliveryStore)
          → IsFenced key lease s.batches
          → IsFenced key lease (env.others n s).batches)

  module _ (lease : ℕ) (never : NeverGives lease) where
    abbrev ItemFences : Option Item × Publisher → Type 0
    ItemFences (none, w) = IsFree lease w.store.batches
    ItemFences (some item, w) = (item.lease ≡ lease) × IsFenced item.key lease w.store.batches

    claim_with-ItemFences :
        (allow_admission prefer_admission : Bool) (w : Publisher)
        → IsFree lease w.store.batches
        → ItemFences (claim_with allow_admission prefer_admission lease w)
    unfolding claim_with meanwhile
    claim_with-ItemFences allow_admission prefer_admission w free =
        carried
          (claim_batch digest env.fingerprint allow_admission prefer_admission lease
            (time env (meanwhile env w)) (meanwhile env w).store)
          (claim_batch-Fences digest env.fingerprint allow_admission lease
            (time env (meanwhile env w)) (meanwhile env w).store prefer_admission
            (never.0 w.calls w.store free))
      where
        carried :
            (p : Option Item × DeliveryStore)
            → Fences digest env.fingerprint allow_admission lease
                (time env (meanwhile env w))
                (meanwhile env w).store
                p
            → ItemFences (p.0, record (meanwhile env w) { store = p.1 })
        carried (none, t) h = h
        carried (some item, t) h = h

    choose_item-ItemFences :
        (w : Publisher) → IsFree lease w.store.batches → ItemFences (choose_item lease w)
    unfolding choose_item
    choose_item-ItemFences w free =
        elim (Bool-cases (ltb (env.clock w.calls) w.admission_probe_after)) [
          | inl e ↦ rw e (claim_with-ItemFences false false w free)
          | inr e ↦ rw e (due w.admission_probe_due)
        ]
      where
        due :
            (b : Bool)
            → ItemFences (
                if b
                then claim_with true true lease (record w { admission_probe_due = false })
                else claim_with true false lease w)
        due true = claim_with-ItemFences true true (record w { admission_probe_due = false }) free
        due false = claim_with-ItemFences true false w free

    -- An exception, or no batch holds the lease.
    abbrev Frees : Option Bool × Publisher → Type 0
    Frees (none, w) = Unit
    Frees (some sent, w) = IsFree lease w.store.batches

    deliver_valid-Frees :
        (reported : Bool) (item : Item) (o : Option String) (w : Publisher)
        → item.lease ≡ lease
        → IsFenced item.key lease w.store.batches
        → Frees (deliver_valid reported item o w)
    unfolding deliver_valid failed meanwhile published
    deliver_valid-Frees reported item (some code) w same h =
        subst
          (λ held.
            IsFree held
              (fail env.fingerprint item (ErrorValue.text code) (time env (meanwhile env w))
                (meanwhile env w).store).1.batches)
          same
          (fail-IsFree env.fingerprint item (ErrorValue.text code) (time env (meanwhile env w))
            (meanwhile env w).store
            (subst (λ held. IsFenced item.key held (meanwhile env w).store.batches) (sym same)
              (never.1 item.key w.calls w.store h)))
    deliver_valid-Frees reported item none w same h = ended (publish env item w) refl
      where
        respects :
            (n : ℕ) (u : DeliveryStore)
            → IsFenced item.key item.lease u.batches
            → IsFenced item.key item.lease (env.others n u).batches
        respects n u k =
            subst (λ held. IsFenced item.key held (env.others n u).batches) (sym same)
              (never.1 item.key n u (subst (λ held. IsFenced item.key held u.batches) same k))

        ended :
            (p : Option Bool × Publisher) → publish env item w ≡ p → Frees (published reported p)
        ended (none, v) e = tt
        ended (some sent, v) e =
            subst (λ held. IsFree held v.store.batches) same
              (publish_freed env item respects sent w v
                (subst (λ held. IsFenced item.key held w.store.batches) (sym same) h) e)

    deliver-Frees :
        (reported : Bool) (p : Option Item × Publisher) → ItemFences p → Frees (deliver reported p)
    unfolding deliver
    deliver-Frees reported (none, w) h = h
    deliver-Frees reported (some item, w) (same, h) =
        deliver_valid-Frees reported item item.validation_error w same h

    -- Where no batch holds a lease, and no other transaction gives it to one: a quantum of the
    -- delivery that draws this lease and returns leaves it with no batch, whichever batch it claimed
    -- or none, and whatever the server, the adapters and the other transactions did.
    pub quantum_released :
        (reported sent : Bool) (w v : Publisher)
        → IsFree lease w.store.batches
        → quantum reported lease w ≡ (some sent, v)
        → IsFree lease v.store.batches
    unfolding quantum
    quantum_released reported sent w v free e =
        subst Frees e (deliver-Frees reported (choose_item lease w) (choose_item-ItemFences w free))
