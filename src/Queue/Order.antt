-- ===== src/Queue/Order.antt =====
-- Causal lanes: first attempts of one lane run one at a time and in sequence. The children show that
-- the statements of the queue keep the invariant.
pub mod Updates
pub mod Advance
pub mod Keeps
pub mod Claims
use workspace_zulip_bridge.Common.{
  ℕ, suc, ◌==◌, ◌≡◌, refl, sym, String, Bool, true, false, ◌&&◌, ◌||◌, Option, none, some, List, [],
  ◌∷◌, ◌++◌, arith, inl, inr, In, All, All-In, str_eq, eq_iff, if◌then◌else◌,
}
use workspace_zulip_bridge.Queue.Types.{
  Row, Record, is_running, is_uncertain, Lane, Place, place, record_place, Store,
}
use workspace_zulip_bridge.Queue.Claim.{next_in_lane}
use workspace_zulip_bridge.Queue.Enqueue.{same_place}

-- A first attempt that a worker or the reconciliation has taken up.
abbrev pub in_flight : Row → Bool
in_flight row = row.attempt == 1 && (is_running row.state || is_uncertain row.state)

abbrev pub Apart : List Row → Type 0
Apart [] = Unit
Apart (x ∷ xs) = All (λ y. same_place (place x) (place y) ≡ false) xs × Apart xs

-- What is in flight is the next operation of its lane.
abbrev pub IsNext : (String → String → Option Lane) → Row → Type 0
IsNext lanes row = in_flight row ≡ true → next_in_lane lanes (place row) ≡ true

-- The row's columns are those of its record.
abbrev pub IsRecorded : Row → Type 0
IsRecorded row = record_place row.body ≡ place row

pub record IsSerial (s : Store) : Type 0 where
  -- UNIQUE (origin, causal_lane, lane_sequence, attempt)
  pub apart : Apart s.operations
  pub next : All (IsNext s.lanes) s.operations
  pub recorded : All IsRecorded s.operations

same_place_sym : (a b : Place) → same_place a b ≡ true → same_place b a ≡ true
same_place_sym a b h = ground (
  arith,
  eq_iff a.origin b.origin,
  eq_iff b.origin a.origin,
  eq_iff a.causal_lane b.causal_lane,
  eq_iff b.causal_lane a.causal_lane,
)

pub Apart-eq :
    (a b : Row) (xs : List Row)
    → Apart xs
    → In a xs
    → In b xs
    → same_place (place a) (place b) ≡ true
    → a ≡ b
Apart-eq a b [] h i j e = elim i [ ]
Apart-eq a b (x ∷ xs) h (inl p) (inl q) e = cc
Apart-eq a b (x ∷ xs) h (inl p) (inr j) e =
    absurd (cc (All-In (λ y. same_place (place x) (place y) ≡ false) b xs h.0 j))
Apart-eq a b (x ∷ xs) h (inr i) (inl q) e = absurd (
    cc (
      All-In (λ y. same_place (place x) (place y) ≡ false) a xs h.0 i,
      rw q at (same_place_sym (place a) (place b) e),
    ))
Apart-eq a b (x ∷ xs) h (inr i) (inr j) e = Apart-eq a b xs h.1 i j e

abbrev pub same_lane : Row → Row → Bool
same_lane a b = str_eq a.origin b.origin && str_eq a.causal_lane b.causal_lane

pub next_places :
    (lanes : String → String → Option Lane) (a b : Row)
    → next_in_lane lanes (place a) ≡ true
    → next_in_lane lanes (place b) ≡ true
    → a.attempt ≡ b.attempt
    → same_lane a b ≡ true
    → same_place (place a) (place b) ≡ true
unfolding next_in_lane
next_places lanes a b h k e l =
    ground (arith, eq_iff a.origin b.origin, eq_iff a.causal_lane b.causal_lane)

-- In a serial table two first attempts of one causal lane that are in flight are the same row.
pub one_in_flight :
    (s : Store) (a b : Row)
    → IsSerial s
    → In a s.operations
    → In b s.operations
    → in_flight a ≡ true
    → in_flight b ≡ true
    → same_lane a b ≡ true
    → a ≡ b
one_in_flight s a b v i j fa fb l = Apart-eq a b s.operations v.apart i j (
    next_places s.lanes a b (All-In (IsNext s.lanes) a s.operations v.next i fa)
      (All-In (IsNext s.lanes) b s.operations v.next j fb) (ground arith) l)
