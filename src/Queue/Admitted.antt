-- ===== src/Queue/Admitted.antt =====
-- What `enqueue` of Queue/Enqueue.antt stores behind the allocation of a lane, without its tests.
use workspace_zulip_bridge.Common.{
  zero, ap, All-mono, ℕ, suc, ◌≤◌, ◌<◌, ◌==◌, ◌≡◌, refl, sym, ◌∙◌, String, Bool, true, false, not,
  ◌&&◌, ◌||◌, Option, none, some, List, [], ◌∷◌, ◌++◌, arith, Bool-cases, ◌⊎◌, inl, inr, ltb, In,
  All, sql_eq, eq_iff,
}
use workspace_zulip_bridge.Queue.Types.{Row, Record, Outcome, Assignment, Idempotency, Store, ok}
use workspace_zulip_bridge.Queue.Enqueue.{
  new_row, has_record, row_allowed, enqueue_placed, enqueue_matched, remember_operation,
  active_assignment, matches_assignment, same_key, prior_closed, prior_conflicts, retry_authorized,
  retry_outcome, max_attempt,
}
use workspace_zulip_bridge.Queue.Admission.{
  insert_row_cases, enqueue_placed_cases, IsInserted, IsAuthorized, IsPresent, IsAdded, is_replay,
}
use workspace_zulip_bridge.Queue.Ready.{sql_eq_right}

-- The chat of the operation is selected for its account and project.
abbrev pub IsAssigned : Record → Assignment → Type 0
IsAssigned r a =
    (a.deleted ≡ false)
    × (a.selected ≡ true)
    × (a.external_account_uuid ≡ some r.account_uuid)
    × (a.provider_chat_key ≡ some r.operation.chat_id)
    × (a.project_id ≡ some r.project_uuid)

-- The result of the attempt before allows one more.
abbrev pub AllowsRetry : Option Idempotency → Type 0
AllowsRetry o =
    (i : Idempotency) × (o ≡ some i)
    × (i.manual_retry_allowed ≡ true)
    × ((i.terminal_outcome ≡ some Outcome.rejected) ⊎ (i.terminal_outcome ≡ some Outcome.expired))

-- The attempt before it is stored, and none after that.
abbrev pub IsConsecutive : Record → List Row → Type 0
IsConsecutive r rows =
    ((row : Row) × In row rows
      × (row.operation_uuid ≡ r.operation_uuid)
      × (r.attempt ≡ suc row.attempt))
    × All (λ row. (row.operation_uuid ≡ r.operation_uuid) → row.attempt < r.attempt) rows

-- The stored digest of the operation is that of the record.
abbrev pub KeepsDigest : Option Idempotency → String → Type 0
KeepsDigest o sha = (o ≡ none) ⊎ ((i : Idempotency) × (o ≡ some i) × (i.operation_sha256 ≡ sha))

pub record IsAdmitted (r : Record) (priority now : ℕ) (s t : Store) : Type 0 where
  pub assigned :
      (a : Assignment) × In a s.assignments
      × IsAssigned r a
      × (t.operations ≡ s.operations ++ new_row r priority a now ∷ [])
  pub attempts :
      ((r.attempt ≡ 1) × (prior_closed (s.idempotency r.operation_uuid) ≡ false))
      ⊎ ((1 < r.attempt)
          × AllowsRetry (s.idempotency r.operation_uuid)
          × IsConsecutive r s.operations)
  pub digest : KeepsDigest (s.idempotency r.operation_uuid) r.operation_sha256
  pub unique : All (λ row. ¬ (row.record_uuid ≡ r.record_uuid)) s.operations

five :
    (a b c d e : Bool)
    → (a && b && c && d && e) ≡ true
    → (a ≡ true) × (b ≡ true) × (c ≡ true) × (d ≡ true) × (e ≡ true)
five a b c d e h = (ground arith, ground arith, ground arith, ground arith, ground arith)

negated : (b : Bool) → not b ≡ true → b ≡ false
negated b h = ground arith

same_key_lem : (o : Option String) (key : String) → same_key o key ≡ true → o ≡ some key
same_key_lem none key h = absurd (cc h)
same_key_lem (some k) key h = let e = (eq_iff k key).0 h in cc e

matches_lem : (r : Record) (a : Assignment) → matches_assignment r a ≡ true → IsAssigned r a
unfolding matches_assignment
matches_lem r a h =
    let (live, account, chat, project, selected) =
      five (not a.deleted) (sql_eq a.external_account_uuid (some r.account_uuid))
        (same_key a.provider_chat_key r.operation.chat_id)
        (sql_eq a.project_id (some r.project_uuid)) a.selected h in
    (
      negated a.deleted live,
      selected,
      sql_eq_right a.external_account_uuid r.account_uuid account,
      same_key_lem a.provider_chat_key r.operation.chat_id chat,
      sql_eq_right a.project_id r.project_uuid project,
    )

active_lem :
    (r : Record) (assignments : List Assignment) (a : Assignment)
    → active_assignment r assignments ≡ some a
    → In a assignments × IsAssigned r a
unfolding active_assignment
active_lem r [] a h = absurd (cc h)
active_lem r (b ∷ rest) a h = elim (Bool-cases (matches_assignment r b)) [
  | inl found ↦ let e : a ≡ b = cc (rw found at h) in (inl e, matches_lem r a (rw e found))
  | inr other ↦ let (place, facts) = active_lem r rest a (rw other at h) in (inr place, facts)
]

below : (a n b : ℕ) → a ≤ n → b ≡ suc n → a < b
below a n b h k = ground (arith, h, k)

max_attempt_bound :
    (uuid : ℕ) (rows : List Row) (n : ℕ)
    → max_attempt uuid rows ≤ n
    → All (λ row. (row.operation_uuid ≡ uuid) → row.attempt ≤ n) rows
unfolding max_attempt
max_attempt_bound uuid [] n h = tt
max_attempt_bound uuid (row ∷ rows) n h =
    (λ same. ground (arith, h, same), max_attempt_bound uuid rows n (ground (arith, h)))

max_attempt-In :
    (uuid : ℕ) (rows : List Row) (n : ℕ)
    → max_attempt uuid rows ≡ suc n
    → (row : Row) × In row rows × (row.operation_uuid ≡ uuid) × (row.attempt ≡ suc n)
unfolding max_attempt
max_attempt-In uuid [] n h = absurd (cc h)
max_attempt-In uuid (row ∷ rows) n h =
    elim (Bool-cases (row.operation_uuid == uuid && row.attempt == suc n)) [
      | inl found ↦ (row, inl refl, ground (arith, found), ground (arith, found))
      | inr other ↦
          let (b, place, same, attempt) = max_attempt-In uuid rows n (ground (arith, other, h)) in
          (b, inr place, same, attempt)
    ]

no_record :
    (uuid : ℕ) (rows : List Row)
    → has_record uuid rows ≡ false
    → All (λ row. ¬ (row.record_uuid ≡ uuid)) rows
unfolding has_record
no_record uuid [] h = tt
no_record uuid (row ∷ rows) h =
    (λ e. absurd (ground (arith, h, e)), no_record uuid rows (ground (arith, h)))

retry_lem : (o : Option Idempotency) → retry_authorized o ≡ true → AllowsRetry o
retry_lem none h = absurd (cc h)
retry_lem (some i) h = (i, refl, ground (arith, h), outcome i.terminal_outcome (ground (arith, h)))
  where
    outcome :
        (o : Option Outcome)
        → retry_outcome o ≡ true
        → (o ≡ some Outcome.rejected) ⊎ (o ≡ some Outcome.expired)
    outcome none h = absurd (cc h)
    outcome (some Outcome.rejected) h = inl refl
    outcome (some Outcome.expired) h = inr refl
    outcome (some Outcome.committed) h = absurd (cc h)
    outcome (some Outcome.cancelled) h = absurd (cc h)
    outcome (some Outcome.manual_reconciliation_required) h = absurd (cc h)

digest_lem :
    (o : Option Idempotency) (sha : String) → prior_conflicts o sha ≡ false → KeepsDigest o sha
digest_lem none sha h = inl refl
digest_lem (some i) sha h = inr (i, refl, (eq_iff i.operation_sha256 sha).0 (ground (arith, h)))

matched_consecutive :
    (r : Record) (priority now : ℕ) (s t : Store) (added : Bool) (a : Assignment)
    → enqueue_matched r priority now s (some a) ≡ ok (added, t)
    → (not (ltb 1 r.attempt)
        || (ltb 0 (max_attempt r.operation_uuid s.operations)
            && r.attempt == suc (max_attempt r.operation_uuid s.operations)))
      ≡ true
unfolding enqueue_matched
matched_consecutive r priority now s t added a h =
    elim (Bool-cases (
      not (ltb 1 r.attempt)
      || (ltb 0 (max_attempt r.operation_uuid s.operations)
          && r.attempt == suc (max_attempt r.operation_uuid s.operations)))) [
            | inl holds ↦ holds
            | inr fails ↦ absurd (cc (rw fails at h))
          ]

consecutive_lem :
    (r : Record) (rows : List Row)
    → ltb 1 r.attempt ≡ true
    → (not (ltb 1 r.attempt)
        || (ltb 0 (max_attempt r.operation_uuid rows)
            && r.attempt == suc (max_attempt r.operation_uuid rows)))
      ≡ true
    → IsConsecutive r rows
consecutive_lem r rows higher h = by_greatest (max_attempt r.operation_uuid rows) refl
  where
    by_greatest : (n : ℕ) → max_attempt r.operation_uuid rows ≡ n → IsConsecutive r rows
    by_greatest zero e = absurd (ground (arith, e, h, higher))
    by_greatest (suc n) e =
        let (row, place, same, attempt) = max_attempt-In r.operation_uuid rows n e in
        let next : r.attempt ≡ suc (suc n) = ground (arith, e, h, higher) in
        (
          (row, place, same, next ∙ ap suc (sym attempt)),
          All-mono (λ (b : Row). (b.operation_uuid ≡ r.operation_uuid) → b.attempt ≤ suc n)
              (λ b. (b.operation_uuid ≡ r.operation_uuid) → b.attempt < r.attempt)
              (λ b bound named. below b.attempt (suc n) r.attempt (bound named) next) rows
              (max_attempt_bound r.operation_uuid rows (suc n) (ground (arith, e))),
        )

first_attempt : (b c d : Bool) (n : ℕ) → (ltb 0 n && b && c && d) ≡ true → ltb 1 n ≡ false → n ≡ 1
first_attempt b c d n h k = ground (arith, h, k)

retry_allowed : (a b : Bool) → (a && not b) ≡ false → a ≡ true → b ≡ true
retry_allowed a b h k = ground arith

still_open : (n : ℕ) (b : Bool) → (n == 1 && b) ≡ false → n ≡ 1 → b ≡ false
still_open n b h e = ground (arith, h, e)

module _ (r : Record) (priority now : ℕ) (s t : Store) where
  matched_eq :
      (added : Bool) (a : Assignment)
      → enqueue_placed r priority now s ≡ ok (added, t)
      → IsAuthorized r priority now s t added
      → active_assignment r s.assignments ≡ some a
      → enqueue_matched r priority now s (some a) ≡ ok (added, t)
  unfolding enqueue_placed
  matched_eq added a h (fresh, agrees, allowed) active =
      rw (fresh, agrees, allowed, enqueue_placed, active) at h

  added_lem :
      (added : Bool) (a : Assignment)
      → enqueue_placed r priority now s ≡ ok (added, t)
      → active_assignment r s.assignments ≡ some a
      → IsAuthorized r priority now s t added
      → row_allowed (new_row r priority a now) ≡ true
      → has_record r.record_uuid s.operations ≡ false
      → t.operations ≡ s.operations ++ new_row r priority a now ∷ []
      → IsAdmitted r priority now s t
  unfolding new_row
  added_lem added a h active (fresh, agrees, allowed) checked new stored =
      let prior = s.idempotency r.operation_uuid in
      let (place, facts) = active_lem r s.assignments a active in
      record {
        assigned = (a, place, facts, stored);
        attempts = elim (Bool-cases (ltb 1 r.attempt)) [
          | inl higher ↦ inr (
            ground (arith, higher),
            retry_lem prior
                (retry_allowed (ltb 1 r.attempt) (retry_authorized prior) allowed higher),
            consecutive_lem r s.operations higher (
                matched_consecutive r priority now s t added a
                  (matched_eq added a h (fresh, agrees, allowed) active)),
          )
          | inr lowest ↦
              let one : r.attempt ≡ 1 = first_attempt _ _ _ r.attempt checked lowest in
              inl (one, still_open r.attempt (prior_closed prior) fresh one)
        ];
        digest = digest_lem prior r.operation_sha256 agrees;
        unique = no_record r.record_uuid s.operations new;
      }

  -- An enqueue that answers True adds one row at the end of the table. It is made for an assignment
  -- that selects its chat for its account and project. It is a first attempt of an operation that
  -- was not closed, or the attempt behind the greatest that is stored, where the result of that one
  -- was rejected or expired and allows a retry. Its digest is the one that is stored for the
  -- operation, if one is, and no row had its UUID. An enqueue that answers False leaves the rows as
  -- they were.
  pub enqueue_placed-IsAdmitted :
      (added : Bool)
      → enqueue_placed r priority now s ≡ ok (added, t)
      → ((added ≡ false) × (t.operations ≡ s.operations))
        ⊎ ((added ≡ true) × IsAdmitted r priority now s t)
  unfolding remember_operation new_row
  enqueue_placed-IsAdmitted added h = by_case (enqueue_placed_cases r priority now s t added h)
    where
      by_case :
          ((is_replay r priority now s t added ≡ true) × (added ≡ false) × (t ≡ s))
            ⊎ (IsAuthorized r priority now s t added × IsInserted r priority now s t added)
          → ((added ≡ false) × (t.operations ≡ s.operations))
            ⊎ ((added ≡ true) × IsAdmitted r priority now s t)
      by_case (inl (_, nothing, same)) = inl (nothing, ap (λ (u : Store). u.operations) same)
      by_case (inr (authorized, (a, active, inserted))) =
          by_row
            (insert_row_cases (new_row r priority a now) (remember_operation r s) t added inserted)
        where
          by_row :
              (row_allowed (new_row r priority a now) ≡ true)
                × (IsPresent (new_row r priority a now) (remember_operation r s) t added
                    ⊎ IsAdded (new_row r priority a now) (remember_operation r s) t added)
              → ((added ≡ false) × (t.operations ≡ s.operations))
                ⊎ ((added ≡ true) × IsAdmitted r priority now s t)
          by_row (checked, inl (_, nothing, same)) =
              inl (nothing, ap (λ (u : Store). u.operations) same)
          by_row (checked, inr (new, _, one, stored)) = inr (
            one,
            added_lem added a h active authorized checked new
                (ap (λ (u : Store). u.operations) stored),
          )
