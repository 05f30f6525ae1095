-- ===== src/Common/Unique.antt =====
-- Lists whose entries differ in a numeric key, as the rows of a table in their primary key.
use Prim.Native.Nat.{ℕ}
use mathlib.Core.Path.{◌≡◌, sym, subst, ap}
use mathlib.Core.Logic.{inl, inr}
use mathlib.Core.Bool.{Bool, true, false}
use mathlib.Core.List.{List, [], ◌∷◌, ◌++◌}
use native.Mathlib.Omega.{arith}
use workspace_zulip_bridge.Common.Tests.{◌==◌, ==_refl, if◌then◌else◌}
use workspace_zulip_bridge.Common.Lists.{All-append, In, All, All-In, All-mono, update_where}

differs_sym : (a b : ℕ) → (a == b) ≡ false → false ≡ (b == a)
differs_sym a b h = ground arith

module _ {A : Type 0} (key : A → ℕ) where
  abbrev pub Differs : A → A → Type 0
  Differs a b = (key b == key a) ≡ false

  abbrev pub UniqueBy : List A → Type 0
  UniqueBy [] = Unit
  UniqueBy (x ∷ xs) = All (Differs x) xs × UniqueBy xs

  Differs-update_where :
      (p : A → Bool) (f : A → A) (a : A)
      → ((b : A) → key (f b) ≡ key b)
      → (xs : List A) → All (Differs a) xs
      → All (Differs a) (update_where p f xs)
  unfolding update_where
  Differs-update_where p f a h [] u = tt
  Differs-update_where p f a h (x ∷ xs) u =
      (ground (arith, h x), Differs-update_where p f a h xs u.1)

  pub UniqueBy-update_where :
      (p : A → Bool) (f : A → A)
      → ((b : A) → key (f b) ≡ key b)
      → (xs : List A) → UniqueBy xs
      → UniqueBy (update_where p f xs)
  unfolding update_where
  UniqueBy-update_where p f h [] u = tt
  UniqueBy-update_where p f h (x ∷ xs) u = (
    Differs-update_where p f (if p x then f x else x) h xs (
        All-mono (Differs x) (Differs (if p x then f x else x)) (λ y d. ground (arith, h x)) xs
          u.0),
    UniqueBy-update_where p f h xs u.1,
  )

  pub UniqueBy-append :
      (a : A) (xs : List A)
      → UniqueBy xs
      → All (λ x. (key a == key x) ≡ false) xs
      → UniqueBy (xs ++ a ∷ [])
  UniqueBy-append a [] u d = (tt, tt)
  UniqueBy-append a (x ∷ xs) u d =
      (All-append (Differs x) xs (a ∷ []) u.0 (d.0, tt), UniqueBy-append a xs u.1 d.1)

  untouched :
      (P : A → Type 0) (f : A → A) (a : A) (xs : List A)
      → All (Differs a) xs
      → All P xs
      → All P (update_where (λ x. key x == key a) f xs)
  unfolding update_where
  untouched P f a [] d v = tt
  untouched P f a (x ∷ xs) d v = (rw d.0 v.0, untouched P f a xs d.1 v.1)

  -- An update by key touches the one row with that key.
  pub All-update_unique :
      (P : A → Type 0) (f : A → A) (a : A)
      → P (f a)
      → (xs : List A) → UniqueBy xs
      → In a xs
      → All P xs
      → All P (update_where (λ x. key x == key a) f xs)
  unfolding update_where
  All-update_unique P f a h [] u i v = tt
  All-update_unique P f a h (x ∷ xs) u (inl e) v = (
    rw (e, ==_refl (key x)) (rw e at h),
    subst (λ z. All P (update_where (λ y. key y == key z) f xs)) (sym e)
        (untouched P f x xs u.0 v.1),
  )
  All-update_unique P f a h (x ∷ xs) u (inr i) v = (
    rw (sym (differs_sym (key a) (key x) (All-In (Differs x) a xs u.0 i))) v.0,
    All-update_unique P f a h xs u.1 i v.1,
  )

  -- Two entries with one key are one entry.
  pub UniqueBy-eq :
      (a b : A) (xs : List A) → UniqueBy xs → In a xs → In b xs → (key a == key b) ≡ true → a ≡ b
  UniqueBy-eq a b [] u i j e = elim i [ ]
  UniqueBy-eq a b (x ∷ xs) u (inl p) (inl q) e = cc
  UniqueBy-eq a b (x ∷ xs) u (inl p) (inr j) e =
      absurd (ground (arith, ap key p, All-In (Differs x) b xs u.0 j))
  UniqueBy-eq a b (x ∷ xs) u (inr i) (inl q) e =
      absurd (ground (arith, ap key q, All-In (Differs x) a xs u.0 i))
  UniqueBy-eq a b (x ∷ xs) u (inr i) (inr j) e = UniqueBy-eq a b xs u.1 i j e
