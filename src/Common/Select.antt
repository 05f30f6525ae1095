-- ===== src/Common/Select.antt =====
-- SQL's `SELECT … WHERE p ORDER BY key LIMIT 1`. A key is the list of its columns as numbers; of
-- rows with one key the first in the table is taken.
use Prim.Native.Nat.{ℕ, zero, suc}
use mathlib.Core.Path.{◌≡◌, refl}
use mathlib.Core.Logic.{inl, inr}
use mathlib.Core.Bool.{Bool, true, false}
use mathlib.Core.Option.{Option, none, some}
use mathlib.Core.List.{List, [], ◌∷◌}
use native.Mathlib.Omega.{arith}
use workspace_zulip_bridge.Common.Tests.{ltb, ◌==◌, if◌then◌else◌, Bool-cases, Option-cases}
use workspace_zulip_bridge.Common.Lists.{In, All, All-mono}

-- The NULLS FIRST order of a nullable column.
abbrev pub nulls_first : Option ℕ → ℕ
nulls_first none = 0
nulls_first (some t) = suc t

-- The strict lexicographic order.
unfoldable pub sorts_before : List ℕ → List ℕ → Bool
sorts_before [] [] = false
sorts_before [] (y ∷ ys) = true
sorts_before (x ∷ xs) [] = false
sorts_before (x ∷ xs) (y ∷ ys) =
    if ltb x y then true else if x == y then sorts_before xs ys else false

pub sorts_before_irrefl : (xs : List ℕ) → sorts_before xs xs ≡ false
unfolding sorts_before
sorts_before_irrefl [] = refl
sorts_before_irrefl (x ∷ xs) = ground (arith, sorts_before_irrefl xs)

pub sorts_before_asymm : (xs ys : List ℕ) → sorts_before xs ys ≡ true → sorts_before ys xs ≡ false
unfolding sorts_before
sorts_before_asymm [] [] h = refl
sorts_before_asymm [] (y ∷ ys) h = refl
sorts_before_asymm (x ∷ xs) [] h = cc
sorts_before_asymm (x ∷ xs) (y ∷ ys) h = ground (arith, sorts_before_asymm xs ys)

-- Not before is transitive.
pub sorts_before_trans :
    (xs ys zs : List ℕ)
    → sorts_before xs ys ≡ false
    → sorts_before ys zs ≡ false
    → sorts_before xs zs ≡ false
unfolding sorts_before
sorts_before_trans [] [] zs h k = k
sorts_before_trans [] (y ∷ ys) zs h k = cc
sorts_before_trans (x ∷ xs) [] [] h k = refl
sorts_before_trans (x ∷ xs) [] (z ∷ zs) h k = cc
sorts_before_trans (x ∷ xs) (y ∷ ys) [] h k = refl
sorts_before_trans (x ∷ xs) (y ∷ ys) (z ∷ zs) h k = ground (arith, sorts_before_trans xs ys zs)

module _ {ℓ} {A : Type ℓ} (p : A → Bool) (key : A → List ℕ) where
  earlier : A → Option A → A
  earlier a none = a
  earlier a (some b) = if sorts_before (key b) (key a) then b else a

  unfoldable pub first_by : List A → Option A
  unfolding earlier
  first_by [] = none
  first_by (x ∷ xs) = let rest = first_by xs in if p x then some (earlier x rest) else rest

module _ {A : Type 0} (p : A → Bool) (key : A → List ℕ) where
  abbrev pub NotBefore : A → A → Type 0
  NotBefore a x = p x ≡ true → sorts_before (key x) (key a) ≡ false

  -- The row that is picked is in the table and passes the test.
  pub first_by-In : (xs : List A) (a : A) → first_by p key xs ≡ some a → In a xs × (p a ≡ true)
  unfolding first_by
  first_by-In [] a h = cc
  first_by-In (x ∷ xs) a h = ground (arith, first_by-In xs a)

  -- No row is picked exactly when none passes.
  pub first_by-none : (xs : List A) → first_by p key xs ≡ none → All (λ x. p x ≡ false) xs
  unfolding first_by
  first_by-none [] h = tt
  first_by-none (x ∷ xs) h = (ground arith, first_by-none xs (ground arith))

  -- No row that passes sorts before it.
  pub first_by-least : (xs : List A) (a : A) → first_by p key xs ≡ some a → All (NotBefore a) xs
  unfolding first_by
  first_by-least [] a h = tt
  first_by-least (x ∷ xs) a h = elim (Bool-cases (p x)) [
    | inl passes ↦ elim (Option-cases (first_by p key xs)) [
      | inl nothing ↦ (
        λ _. ground (arith, sorts_before_irrefl (key x)),
        All-mono (λ y. p y ≡ false) (NotBefore a) (λ y e q. cc) xs (first_by-none xs nothing),
      )
      | inr (b, found) ↦ (
        λ _. ground (arith, sorts_before_irrefl (key x), sorts_before_asymm (key b) (key x)),
        All-mono (NotBefore b) (NotBefore a)
            (λ y k q. ground (arith, k q, sorts_before_trans (key y) (key b) (key x))) xs
            (first_by-least xs b found),
      )
    ]
    | inr fails ↦ (λ q. cc, first_by-least xs a (ground arith))
  ]

-- `SELECT … WHERE p ORDER BY key`, and LIMIT.
module _ {ℓ} {A : Type ℓ} (p : A → Bool) (key : A → List ℕ) where
  insert_ordered : A → List A → List A
  insert_ordered a [] = a ∷ []
  insert_ordered a (x ∷ xs) =
      if sorts_before (key x) (key a) then x ∷ insert_ordered a xs else a ∷ x ∷ xs

  unfoldable pub order_by : List A → List A
  unfolding insert_ordered
  order_by [] = []
  order_by (x ∷ xs) = let rest = order_by xs in if p x then insert_ordered x rest else rest

abbrev pub take {ℓ} : {A : Type ℓ} → ℕ → List A → List A
take zero xs = []
take (suc n) [] = []
take (suc n) (x ∷ xs) = x ∷ take n xs
