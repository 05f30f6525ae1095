-- ===== src/Common/Lists.antt =====
-- Lists measured by native numbers, and predicates on them by recursion.
use Prim.Native.Nat.{ℕ, suc, ◌+◌}
use mathlib.Core.Path.{◌≡◌, refl, ap}
use mathlib.Core.Logic.{◌⊎◌, inl, inr}
use mathlib.Core.Bool.{Bool, true, false}
use mathlib.Core.List.{List, [], ◌∷◌, ◌++◌, map}
use native.Mathlib.Omega.{arith}
use workspace_zulip_bridge.Common.Tests.{if◌then◌else◌}

module _ {ℓ} {A : Type ℓ} where
  abbrev pub length : List A → ℕ
  length [] = 0
  length (x ∷ xs) = suc (length xs)

  pub length-append : (xs ys : List A) → length (xs ++ ys) ≡ length xs + length ys
  length-append [] ys = omega arith
  length-append (x ∷ xs) ys = omega (arith, length-append xs ys)

  -- The entries that pass the test.
  abbrev pub keep : (A → Bool) → List A → List A
  keep p [] = []
  keep p (x ∷ xs) = if p x then x ∷ keep p xs else keep p xs

  abbrev pub All {κ} : (A → Type κ) → List A → Type κ
  All P [] = Unit
  All P (x ∷ xs) = P x × All P xs

  pub All-mono {κ μ} :
      (P : A → Type κ) (Q : A → Type μ)
      → ((a : A) → P a → Q a)
      → (xs : List A) → All P xs
      → All Q xs
  All-mono P Q f [] h = tt
  All-mono P Q f (x ∷ xs) h = (f x h.0, All-mono P Q f xs h.1)

  pub All-append {κ} : (P : A → Type κ) (xs ys : List A) → All P xs → All P ys → All P (xs ++ ys)
  All-append P [] ys h k = k
  All-append P (x ∷ xs) ys h k = (h.0, All-append P xs ys h.1 k)

module _ {A : Type 0} where
  -- Membership with its place.
  abbrev pub In : A → List A → Type 0
  In a [] = ⊥
  In a (x ∷ xs) = (a ≡ x) ⊎ In a xs

  pub All-In {κ} : (P : A → Type κ) (a : A) (xs : List A) → All P xs → In a xs → P a
  All-In P a [] h i = elim i [ ]
  All-In P a (x ∷ xs) h (inl e) = rw e h.0
  All-In P a (x ∷ xs) h (inr i) = All-In P a xs h.1 i

  pub In-append_right : (a : A) (xs : List A) → In a (xs ++ a ∷ [])
  In-append_right a [] = inl refl
  In-append_right a (x ∷ xs) = inr (In-append_right a xs)

  pub In-append_left : (a : A) (xs ys : List A) → In a xs → In a (xs ++ ys)
  In-append_left a [] ys i = elim i [ ]
  In-append_left a (x ∷ xs) ys (inl e) = inl e
  In-append_left a (x ∷ xs) ys (inr i) = inr (In-append_left a xs ys i)

  -- The entries of two lists of one length, one by one.
  abbrev pub Rows : (A → A → Type 0) → List A → List A → Type 0
  Rows R [] [] = Unit
  Rows R (x ∷ xs) (y ∷ ys) = R x y × Rows R xs ys
  Rows R _ _ = ⊥

-- SQL's `UPDATE … SET f WHERE p`.
module _ {ℓ} {A : Type ℓ} where
  unfoldable pub update_where : (A → Bool) → (A → A) → List A → List A
  update_where p f [] = []
  update_where p f (x ∷ xs) = (if p x then f x else x) ∷ update_where p f xs

  pub All-update_where {κ μ} :
      (P : A → Type κ) (Q : A → Type μ) (p : A → Bool) (f : A → A)
      → ((a : A) → P a → p a ≡ true → Q (f a))
      → ((a : A) → P a → p a ≡ false → Q a)
      → (xs : List A) → All P xs
      → All Q (update_where p f xs)
  unfolding update_where
  All-update_where P Q p f hit miss [] h = tt
  All-update_where P Q p f hit miss (x ∷ xs) h =
      (choose (p x) refl, All-update_where P Q p f hit miss xs h.1)
    where
      choose : (b : Bool) → p x ≡ b → Q (if b then f x else x)
      choose true e = hit x h.0 e
      choose false e = miss x h.0 e

  pub length-update_where :
      (p : A → Bool) (f : A → A) (xs : List A) → length (update_where p f xs) ≡ length xs
  unfolding update_where
  length-update_where p f [] = refl
  length-update_where p f (x ∷ xs) = omega (arith, length-update_where p f xs)

  -- An update that keeps a column keeps the column of every row, in order.
  pub map-update_where {κ} :
      {B : Type κ} (g : A → B) (p : A → Bool) (f : A → A)
      → ((a : A) → g (f a) ≡ g a)
      → (xs : List A) → map g (update_where p f xs) ≡ map g xs
  unfolding update_where
  map-update_where g p f h [] = refl
  map-update_where g p f h (x ∷ xs) = choose (p x) (map-update_where g p f h xs)
    where
      choose :
          (b : Bool)
          → map g (update_where p f xs) ≡ map g xs
          → g (if b then f x else x) ∷ map g (update_where p f xs) ≡ g x ∷ map g xs
      choose true e = rw (h x, e)
      choose false e = rw e

module _ {A : Type 0} where
  pub update_where-Rows :
      (R : A → A → Type 0) (p : A → Bool) (f : A → A)
      → ((a : A) → R a (if p a then f a else a))
      → (xs : List A) → Rows R xs (update_where p f xs)
  unfolding update_where
  update_where-Rows R p f h [] = tt
  update_where-Rows R p f h (x ∷ xs) = (h x, update_where-Rows R p f h xs)

  -- As All-update_where, where the update is known to be of an entry of the list.
  pub All-update_In :
      (P Q : A → Type 0) (p : A → Bool) (f : A → A) (xs : List A)
      → ((a : A) → In a xs → P a → p a ≡ true → Q (f a))
      → ((a : A) → In a xs → P a → p a ≡ false → Q a)
      → All P xs
      → All Q (update_where p f xs)
  unfolding update_where
  All-update_In P Q p f [] hit miss h = tt
  All-update_In P Q p f (x ∷ xs) hit miss h = (
    choose (p x) refl,
    All-update_In P Q p f xs (λ a i. hit a (inr i)) (λ a i. miss a (inr i)) h.1,
  )
    where
      choose : (b : Bool) → p x ≡ b → Q (if b then f x else x)
      choose true e = hit x (inl refl) h.0 e
      choose false e = miss x (inl refl) h.0 e

  pub In-update_where :
      (p : A → Bool) (f : A → A) (a : A) (xs : List A)
      → In a xs
      → In (if p a then f a else a) (update_where p f xs)
  unfolding update_where
  In-update_where p f a [] i = elim i [ ]
  In-update_where p f a (x ∷ xs) (inl q) = inl (ap (λ z. if p z then f z else z) q)
  In-update_where p f a (x ∷ xs) (inr i) = inr (In-update_where p f a xs i)

  -- Nothing enters a list by an update but updated entries.
  pub In-update_where_inv :
      (p : A → Bool) (f : A → A) (b : A) (xs : List A)
      → In b (update_where p f xs)
      → (a : A) × In a xs × (b ≡ (if p a then f a else a))
  unfolding update_where
  In-update_where_inv p f b [] i = elim i [ ]
  In-update_where_inv p f b (x ∷ xs) (inl q) = (x, inl refl, q)
  In-update_where_inv p f b (x ∷ xs) (inr i) =
      let (a, j, e) = In-update_where_inv p f b xs i in (a, inr j, e)
