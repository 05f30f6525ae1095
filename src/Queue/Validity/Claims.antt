-- ===== src/Queue/Validity/Claims.antt =====
-- The three claims and the reaping of dead workers' rows keep the invariant.
use workspace_zulip_bridge.Common.{ℕ, ◌≡◌, refl, String, true, Option, none, some, [], ◌∷◌, arith}
use workspace_zulip_bridge.Common.Select.{first_by, first_by-In}
use workspace_zulip_bridge.Queue.Types.{Row, is_pending, is_uncertain, Store}
use workspace_zulip_bridge.Queue.Claim.{
  claim, run_row, claim_terminal, claim_uncertain, lease_row, claim_key, claimable,
  terminal_claimable, reconcilable, reconciliation_key,
}
use workspace_zulip_bridge.Queue.Lifecycle.{reap_expired_running, reap_row, lease_expired}
use workspace_zulip_bridge.Queue.Validity.{RowIsValid, IsValid, update-IsValid, claimed-IsValid}

run_row-RowIsValid :
    (worker : String) (seconds now : ℕ) (row : Row)
    → is_pending row.state ≡ true
    → RowIsValid row
    → RowIsValid (run_row worker seconds now row)
unfolding run_row
run_row-RowIsValid worker seconds now row h v = ground arith

run_row-uuid :
    (worker : String) (seconds now : ℕ) (row : Row)
    → (run_row worker seconds now row).record_uuid ≡ row.record_uuid
unfolding run_row
run_row-uuid worker seconds now row = refl

claimable_pending :
    (s : Store) (now : ℕ) (row : Row) → claimable s now row ≡ true → is_pending row.state ≡ true
unfolding claimable
claimable_pending s now row h = ground arith

terminal_claimable_pending :
    (s : Store) (now : ℕ) (row : Row)
    → terminal_claimable s now row ≡ true
    → is_pending row.state ≡ true
unfolding terminal_claimable
terminal_claimable_pending s now row h = ground arith

pub claim-IsValid :
    (s : Store) (worker : String) (seconds now : ℕ)
    → IsValid s
    → IsValid (claim s worker seconds now).1
unfolding claim
claim-IsValid s worker seconds now v = go _ refl
  where
    go :
        (o : Option Row)
        → first_by (claimable s now) (claim_key s) s.operations ≡ o
        → IsValid (claim s worker seconds now).1
    go none e = rw (e, claim) v
    go (some row) e =
        let found = first_by-In (claimable s now) (claim_key s) s.operations row e in
        claimed-IsValid (run_row worker seconds now) s (claim s worker seconds now).1 row found.0
          (rw (e, claim)) (run_row-uuid worker seconds now)
          (run_row-RowIsValid worker seconds now row (claimable_pending s now row found.1)) v

pub claim_terminal-IsValid :
    (s : Store) (worker : String) (seconds now : ℕ)
    → IsValid s
    → IsValid (claim_terminal s worker seconds now).1
unfolding claim_terminal
claim_terminal-IsValid s worker seconds now v = go _ refl
  where
    go :
        (o : Option Row)
        → first_by (terminal_claimable s now) (λ row. row.created_at ∷ []) s.operations ≡ o
        → IsValid (claim_terminal s worker seconds now).1
    go none e = rw (e, claim_terminal) v
    go (some row) e =
        let found =
          first_by-In (terminal_claimable s now) (λ r. r.created_at ∷ []) s.operations row e in
        claimed-IsValid (run_row worker seconds now) s (claim_terminal s worker seconds now).1 row
          found.0 (rw (e, claim_terminal)) (run_row-uuid worker seconds now)
          (run_row-RowIsValid worker seconds now row (terminal_claimable_pending s now row found.1))
          v

reconcilable_uncertain :
    (s : Store) (now : ℕ) (row : Row)
    → reconcilable s now row ≡ true
    → is_uncertain row.state ≡ true
unfolding reconcilable
reconcilable_uncertain s now row h = ground arith

lease_row-RowIsValid :
    (worker : String) (now : ℕ) (row : Row)
    → is_uncertain row.state ≡ true
    → RowIsValid row
    → RowIsValid (lease_row worker now row)
unfolding lease_row
lease_row-RowIsValid worker now row h v = ground arith

lease_row-uuid :
    (worker : String) (now : ℕ) (row : Row)
    → (lease_row worker now row).record_uuid ≡ row.record_uuid
unfolding lease_row
lease_row-uuid worker now row = refl

pub claim_uncertain-IsValid :
    (s : Store) (worker : String) (now : ℕ) → IsValid s → IsValid (claim_uncertain s worker now).1
unfolding claim_uncertain
claim_uncertain-IsValid s worker now v = go _ refl
  where
    go :
        (o : Option Row)
        → first_by (reconcilable s now) reconciliation_key s.operations ≡ o
        → IsValid (claim_uncertain s worker now).1
    go none e = rw (e, claim_uncertain) v
    go (some row) e =
        let found = first_by-In (reconcilable s now) reconciliation_key s.operations row e in
        claimed-IsValid (lease_row worker now) s (claim_uncertain s worker now).1 row found.0
          (rw (e, claim_uncertain)) (lease_row-uuid worker now)
          (lease_row-RowIsValid worker now row (reconcilable_uncertain s now row found.1)) v

reap_row-RowIsValid :
    (now : ℕ) (row : Row)
    → RowIsValid row
    → lease_expired now row ≡ true
    → RowIsValid (reap_row now row)
unfolding reap_row
reap_row-RowIsValid now row v h = ground arith

reap_row-uuid : (now : ℕ) (row : Row) → (reap_row now row).record_uuid ≡ row.record_uuid
unfolding reap_row
reap_row-uuid now row = ground arith

pub reap-IsValid : (s : Store) (now : ℕ) → IsValid s → IsValid (reap_expired_running s now).1
unfolding reap_expired_running
reap-IsValid s now v =
    update-IsValid (lease_expired now) (reap_row now) s (reap_expired_running s now).1 refl
      (reap_row-uuid now) (λ row _. reap_row-RowIsValid now row) v
