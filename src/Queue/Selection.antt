-- ===== src/Queue/Selection.antt =====
-- What the claim of Queue/Claim.antt hands out, and in which order.
use workspace_zulip_bridge.Common.{
  ℕ, ◌+◌, ◌*◌, ◌≤◌, ◌<◌, ◌≡◌, String, Bool, true, false, some, ◌==◌, ltb, arith, ◌⊎◌, inl, inr,
  if◌then◌else◌, Option-cases, Bool-cases, update_where, In, All, All-mono,
}
use workspace_zulip_bridge.Common.Select.{
  first_by, NotBefore, sorts_before, nulls_first, first_by-In, first_by-least,
}
use workspace_zulip_bridge.Queue.Types.{
  second, Row, State, Store, QueuedOperation, queued_operation, row_is,
}
use workspace_zulip_bridge.Queue.Claim.{claim, claimable, claim_key, run_row, last_dispatched}
use workspace_zulip_bridge.Queue.Ready.{IsReady, claimable-IsReady}

-- The lexicographic order, NULLS FIRST, of priority, last dispatch of the account, availability
-- and creation.
abbrev pub dispatched : Store → Row → ℕ
dispatched s row = nulls_first (last_dispatched (s.scheduler_accounts row.account_uuid))

abbrev pub IsFirst : Store → Row → Row → Type 0
IsFirst s row other =
    (row.priority < other.priority)
    ⊎ ((row.priority ≡ other.priority)
        × ((dispatched s row < dispatched s other)
            ⊎ ((dispatched s row ≡ dispatched s other)
                × ((row.available_at < other.available_at)
                    ⊎ ((row.available_at ≡ other.available_at)
                        × (row.created_at ≤ other.created_at))))))

level :
    (a b : ℕ) (rest : Bool)
    → (if ltb a b then true else if a == b then rest else false) ≡ false
    → (b < a) ⊎ ((b ≡ a) × (rest ≡ false))
level a b rest h = elim (Bool-cases (ltb b a)) [
  | inl less ↦ inl (ground (arith, less))
  | inr more ↦ inr (ground (arith, more, h), ground (arith, more, h))
]

order_lem :
    (s : Store) (row other : Row)
    → sorts_before (claim_key s other) (claim_key s row) ≡ false
    → IsFirst s row other
unfolding sorts_before claim_key
order_lem s row other h = elim (level other.priority row.priority _ h) [
  | inl less ↦ inl less
  | inr (priority, h) ↦ elim (level (dispatched s other) (dispatched s row) _ h) [
    | inl less ↦ inr (priority, inl less)
    | inr (dispatch, h) ↦ elim (level other.available_at row.available_at _ h) [
      | inl less ↦ inr (priority, inr (dispatch, inl less))
      | inr (available, h) ↦ inr (priority, inr (dispatch, inr (available, ground (arith, h))))
    ]
  ]
]

module _ (s : Store) (worker : String) (lease_seconds now : ℕ) where
  -- The row that was claimed, with what is known of it.
  abbrev pub Claimed : QueuedOperation → Type 0
  Claimed item =
      (row : Row) × In row s.operations
      × IsReady s now row
      × (item ≡ queued_operation row)
      × All (λ other. (claimable s now other ≡ false) ⊎ IsFirst s row other) s.operations
      × ((claim s worker lease_seconds now).1.operations
          ≡ update_where (row_is row.record_uuid)
              (λ r. record r {
                state = State.running;
                lease_owner = some worker;
                lease_until = some (now + lease_seconds * second);
                updated_at = now;
              })
              s.operations)

  first_lem :
      (row other : Row)
      → NotBefore (claimable s now) (claim_key s) row other
      → (claimable s now other ≡ false) ⊎ IsFirst s row other
  first_lem row other least = elim (Bool-cases (claimable s now other)) [
    | inl may ↦ inr (order_lem s row other (least may))
    | inr not_now ↦ inl not_now
  ]

  -- A claim hands out a row that is pending, available and not expired, whose account is live,
  -- synchronized, in the generation that the scheduler knows and open or past its backoff, whose
  -- assignment still stands, and whose turn it is in its lane. Every row that the claim admits comes
  -- later in priority, last dispatch of the account, availability and creation, or stands equal.
  -- The rows of its UUID, and no other, become running under a lease of the worker that ends after
  -- the given seconds.
  pub claim-Claimed :
      (item : QueuedOperation) → (claim s worker lease_seconds now).0 ≡ some item → Claimed item
  unfolding claim run_row
  claim-Claimed item h =
      elim (Option-cases (first_by (claimable s now) (claim_key s) s.operations)) [
        | inl e ↦ absurd (cc (rw (e, claim) at h))
        | inr (row, e) ↦
            let found = first_by-In (claimable s now) (claim_key s) s.operations row e in
            (
              row,
              found.0,
              claimable-IsReady s now row found.1,
              cc (rw (e, claim) at h),
              All-mono (NotBefore (claimable s now) (claim_key s) row)
                  (λ other. (claimable s now other ≡ false) ⊎ IsFirst s row other) (first_lem row)
                  s.operations (first_by-least (claimable s now) (claim_key s) s.operations row e),
              rw (e, claim),
            )
      ]
