-- ===== src/Queue/Ready.antt =====
-- The WHERE clause of claim in storage.py without its tests: what makes a row ready.
use workspace_zulip_bridge.Common.{
  ℕ, suc, eq_iff, str_eq, String, ◌≤◌, ◌<◌, ◌≡◌, refl, Bool, true, false, not, ◌&&◌, ◌||◌, Option,
  none, some, List, [], ◌∷◌, ◌==◌, ltb, leb, due, sql_eq, same_iff, arith, ◌⊎◌, inl, inr,
  Bool-cases, In, All,
}
use workspace_zulip_bridge.Queue.Types.{
  Row, State, is_pending, is_committed, place, Account, SchedulerAccount, ProviderState, Assignment,
  Store,
}
use workspace_zulip_bridge.Queue.Claim.{
  claimable, live_account, not_deleted_account, live_assignment, live_assignment_in, last_sequence,
  is_delete, last_operation_uuid, next_in_lane, deletes_later, deleted_later, provider_open,
  account_current, synchronized, dispatch_open, assignment_current,
}

-- The provider takes calls of the account.
abbrev pub IsOpen : SchedulerAccount → ℕ → Type 0
IsOpen k now =
    (k.provider_state ≡ ProviderState.ready)
    ⊎ ((k.provider_state ≡ ProviderState.backoff)
        × (t : ℕ) × (k.provider_retry_after ≡ some t)
        × (t ≤ now))

-- The account is there, synchronized, in the generation that the scheduler knows, and open.
abbrev pub HasAccount : Option Account → Option SchedulerAccount → ℕ → Type 0
HasAccount o p now =
    (a : Account) × (k : SchedulerAccount) × (o ≡ some a)
    × (p ≡ some k)
    × (a.deleted ≡ false)
    × (a.synchronization_enabled ≡ true)
    × (k.provider_generation ≡ some a.generation)
    × IsOpen k now

-- The assignment that the row was made for still stands, in its generation and project.
abbrev pub HasAssignment : List Assignment → Row → Type 0
HasAssignment assignments row =
    (a : Assignment) × In a assignments
    × (a.deleted ≡ false)
    × (a.selected ≡ true)
    × (row.assignment_uuid ≡ some a.resource_uuid)
    × (row.assignment_generation ≡ some a.generation)
    × (a.project_id ≡ some row.project_uuid)

-- The other row is a committed delete of the entity, later in the lane.
abbrev pub DeletesLater : Row → Row → Type 0
DeletesLater row later =
    (later.origin ≡ row.origin)
    × (later.causal_lane ≡ row.causal_lane)
    × (row.lane_sequence < later.lane_sequence)
    × (later.state ≡ State.committed)
    × ((later.body.operation.kind ≡ "message.delete")
        ⊎ ((later.body.operation.kind ≡ "topic.delete")
            ⊎ (later.body.operation.kind ≡ "stream.delete")))
    × (later.body.operation.entity_uuid ≡ row.body.operation.entity_uuid)

-- A first attempt stands next in its lane; a later one has no committed delete behind it.
abbrev pub HasTurn : Store → Row → Type 0
HasTurn s row =
    ((row.attempt ≡ 1)
      × (row.lane_sequence ≡ suc (last_sequence (s.lanes row.origin row.causal_lane)))
      × (row.predecessor_operation_uuid ≡ last_operation_uuid (s.lanes row.origin row.causal_lane)))
    ⊎ ((1 < row.attempt) × All (λ later. ¬ DeletesLater row later) s.operations)

pub record IsReady (s : Store) (now : ℕ) (row : Row) : Type 0 where
  pub pending : row.state ≡ State.pending
  pub available : row.available_at ≤ now
  pub unexpired : (row.expires_at ≡ none) ⊎ ((t : ℕ) × (row.expires_at ≡ some t) × (now < t))
  pub account : HasAccount (s.accounts row.account_uuid) (s.scheduler_accounts row.account_uuid) now
  pub assignment : HasAssignment s.assignments row
  pub turn : HasTurn s row

state_pending : (state : State) → is_pending state ≡ true → state ≡ State.pending
state_pending State.pending h = refl
state_pending State.running h = absurd (cc h)
state_pending State.uncertain h = absurd (cc h)
state_pending State.committed h = absurd (cc h)
state_pending State.rejected h = absurd (cc h)
state_pending State.expired h = absurd (cc h)
state_pending State.cancelled h = absurd (cc h)

unexpired_cases :
    (o : Option ℕ) (now : ℕ)
    → not (due o now) ≡ true
    → (o ≡ none) ⊎ ((t : ℕ) × (o ≡ some t) × (now < t))
unexpired_cases none now h = inl refl
unexpired_cases (some t) now h = inr (t, refl, ground (arith, h))

sql_eq_lem : (n : ℕ) (o : Option ℕ) → sql_eq (some n) o ≡ true → o ≡ some n
sql_eq_lem n none h = absurd (cc h)
sql_eq_lem n (some m) h = ground (arith, h)

pub sql_eq_right : (o : Option ℕ) (n : ℕ) → sql_eq o (some n) ≡ true → o ≡ some n
sql_eq_right none n h = absurd (cc h)
sql_eq_right (some m) n h = ground (arith, h)

due_lem : (o : Option ℕ) (now : ℕ) → due o now ≡ true → (t : ℕ) × (o ≡ some t) × (t ≤ now)
due_lem none now h = absurd (cc h)
due_lem (some t) now h = (t, refl, ground (arith, h))

open_lem : (k : SchedulerAccount) (now : ℕ) → provider_open k now ≡ true → IsOpen k now
unfolding provider_open
open_lem k now h = by_state k.provider_state refl
  where
    by_state : (state : ProviderState) → k.provider_state ≡ state → IsOpen k now
    by_state ProviderState.ready e = inl e
    by_state ProviderState.backoff e =
        let (t, after, passed) = due_lem k.provider_retry_after now (rw e at h) in
        inr (e, t, after, passed)
    by_state ProviderState.auth_required e = absurd (cc (rw e at h))

account_lem :
    (o : Option Account) (p : Option SchedulerAccount) (now : ℕ)
    → account_current (not_deleted_account o) p ≡ true
    → synchronized (not_deleted_account o) ≡ true
    → dispatch_open p now ≡ true
    → HasAccount o p now
unfolding not_deleted_account account_current dispatch_open
account_lem none p now h i j = absurd (cc h)
account_lem (some a) none now h i j = absurd (cc j)
account_lem (some a) (some k) now h i j = elim (Bool-cases a.deleted) [
  | inl gone ↦ absurd (cc (rw gone at i))
  | inr live ↦ (
    a,
    k,
    refl,
    refl,
    live,
    rw live at i,
    sql_eq_lem a.generation k.provider_generation (rw live at h),
    open_lem k now j,
  )
]

assignment_lem :
    (assignments : List Assignment) (row : Row)
    → assignment_current (live_assignment_in assignments row.assignment_uuid) row ≡ true
    → HasAssignment assignments row
unfolding live_assignment_in assignment_current
assignment_lem [] row h = absurd (cc h)
assignment_lem (a ∷ rest) row h =
    elim (Bool-cases (sql_eq (some a.resource_uuid) row.assignment_uuid && not a.deleted)) [
      | inl found ↦
          let k = rw found at h in
          (
            a,
            inl refl,
            ground (arith, found),
            ground (arith, k),
            sql_eq_lem a.resource_uuid row.assignment_uuid (ground (arith, found)),
            sql_eq_lem a.generation row.assignment_generation (ground (arith, k)),
            sql_eq_right a.project_id row.project_uuid (ground (arith, k)),
          )
      | inr other ↦
          let (b, place, live, selected, named, generation, project) =
            assignment_lem rest row (rw other at h) in
          (b, inr place, live, selected, named, generation, project)
    ]

is_delete_lem :
    (kind : String)
    → (kind ≡ "message.delete") ⊎ ((kind ≡ "topic.delete") ⊎ (kind ≡ "stream.delete"))
    → is_delete kind ≡ true
unfolding is_delete
is_delete_lem kind (inl e) = rw e refl
is_delete_lem kind (inr (inl e)) = rw e refl
is_delete_lem kind (inr (inr e)) = rw e refl

six :
    (a b c d e f : Bool)
    → (a && b && c && d && e && f) ≡ false
    → a ≡ true
    → b ≡ true
    → c ≡ true
    → d ≡ true
    → e ≡ true
    → f ≡ true
    → ⊥
six a b c d e f h i j k l m n = absurd (cc (rw (i, j, k, l, m, n) at h))

not_deleted : (row later : Row) → deletes_later row later ≡ false → ¬ DeletesLater row later
unfolding deletes_later
not_deleted row later h (origin, lane, after, committed, kind, entity) =
    six (str_eq later.origin row.origin) (str_eq later.causal_lane row.causal_lane)
      (ltb row.lane_sequence later.lane_sequence) (is_committed later.state)
      (is_delete later.body.operation.kind)
      (later.body.operation.entity_uuid == row.body.operation.entity_uuid) h
      ((eq_iff later.origin row.origin).1 origin)
      ((eq_iff later.causal_lane row.causal_lane).1 lane) (ground (arith, after))
      (rw committed refl) (is_delete_lem later.body.operation.kind kind) (ground (arith, entity))

no_delete :
    (rows : List Row) (row : Row)
    → deleted_later rows row ≡ false
    → All (λ later. ¬ DeletesLater row later) rows
unfolding deleted_later
no_delete [] row h = tt
no_delete (later ∷ rest) row h =
    (not_deleted row later (ground arith), no_delete rest row (ground arith))

eight :
    (a b c d e f g h : Bool)
    → (a && b && c && d && e && f && g && h) ≡ true
    → (a ≡ true)
      × (b ≡ true)
      × (c ≡ true)
      × (d ≡ true)
      × (e ≡ true)
      × (f ≡ true)
      × (g ≡ true)
      × (h ≡ true)
eight a b c d e f g h k = (
  ground arith,
  ground arith,
  ground arith,
  ground arith,
  ground arith,
  ground arith,
  ground arith,
  ground arith,
)

turn_lem :
    (s : Store) (row : Row)
    → ((row.attempt == 1 && next_in_lane s.lanes (place row))
        || (ltb 1 row.attempt && not (deleted_later s.operations row)))
      ≡ true
    → HasTurn s row
unfolding next_in_lane
turn_lem s row h = elim (Bool-cases (row.attempt == 1 && next_in_lane s.lanes (place row))) [
  | inl next ↦ inl (
    ground (arith, next),
    ground (arith, next),
    (same_iff row.predecessor_operation_uuid
          (last_operation_uuid (s.lanes row.origin row.causal_lane))).0
        (ground (arith, next)),
  )
  | inr other ↦
      let k = rw other at h in
      inr (ground (arith, k), no_delete s.operations row (ground (arith, k)))
]

pub claimable-IsReady :
    (s : Store) (now : ℕ) (row : Row) → claimable s now row ≡ true → IsReady s now row
unfolding claimable live_account live_assignment
claimable-IsReady s now row h =
    let account = live_account s row.account_uuid in
    let scheduler = s.scheduler_accounts row.account_uuid in
    let (pending, available, unexpired, current, synchronizes, opened, assigned, turn) =
      eight (is_pending row.state) (leb row.available_at now) (not (due row.expires_at now))
        (account_current account scheduler) (synchronized account) (dispatch_open scheduler now)
        (assignment_current (live_assignment s row.assignment_uuid) row) _ h in
    record {
      pending = state_pending row.state pending;
      available = ground (arith, available);
      unexpired = unexpired_cases row.expires_at now unexpired;
      account = account_lem (s.accounts row.account_uuid) scheduler now current synchronizes opened;
      assignment = assignment_lem s.assignments row assigned;
      turn = turn_lem s row turn;
    }
