-- ===== src/History/Table.antt =====
-- A Python dict with integer keys that is read by key and in the order of its keys, as the list of
-- its values in that order.
use workspace_zulip_bridge.Common.{
  ℕ, ◌==◌, ltb, ◌≡◌, refl, sym, ap, ◌∙◌, ◌++◌, subst, true, Option, none, some, List, [], ◌∷◌,
  arith, All, Bool-cases, inl, inr, if◌then◌else◌, is_some,
}

module _ {A : Type 0} (key : A → ℕ) where
  -- table[key] = value
  unfoldable pub put : A → List A → List A
  put a [] = a ∷ []
  put a (x ∷ xs) =
      let rest = put a xs in
      if key a == key x then a ∷ xs else if ltb (key a) (key x) then a ∷ x ∷ xs else x ∷ rest

  -- table.get(key)
  unfoldable pub find : ℕ → List A → Option A
  find k [] = none
  find k (x ∷ xs) = if key x == k then some x else find k xs

  -- table.update(...), a value at a time
  unfoldable pub put_all : List A → List A → List A
  unfolding put
  put_all [] table = table
  put_all (a ∷ items) table = put_all items (put a table)

  abbrev pub Below : ℕ → List A → Type 0
  Below k = All (λ x. ltb k (key x) ≡ true)

  abbrev pub Ascending : List A → Type 0
  Ascending [] = Unit
  Ascending (x ∷ xs) = Below (key x) xs × Ascending xs

  pub All-put : (P : A → Type 0) (a : A) (xs : List A) → P a → All P xs → All P (put a xs)
  unfolding put
  All-put P a [] p h = (p, tt)
  All-put P a (x ∷ xs) p h = elim (Bool-cases (key a == key x)) [
    | inl e ↦ rw (e, put) (p, h.1)
    | inr n ↦ elim (Bool-cases (ltb (key a) (key x))) [
      | inl less ↦ rw (n, less, put) (p, h)
      | inr more ↦ rw (n, more, put) (h.0, All-put P a xs p h.1)
    ]
  ]

  pub All-put_all :
      (P : A → Type 0) (items xs : List A) → All P items → All P xs → All P (put_all items xs)
  unfolding put_all
  All-put_all P [] xs p h = h
  All-put_all P (a ∷ items) xs p h = All-put_all P items (put a xs) p.1 (All-put P a xs p.0 h)

  Below-mono : (j k : ℕ) (xs : List A) → ltb j k ≡ true → Below k xs → Below j xs
  Below-mono j k [] l h = tt
  Below-mono j k (x ∷ xs) l h = (ground (arith, h.0), Below-mono j k xs l h.1)

  pub put-Ascending : (a : A) (xs : List A) → Ascending xs → Ascending (put a xs)
  unfolding put
  put-Ascending a [] h = (tt, tt)
  put-Ascending a (x ∷ xs) h = elim (Bool-cases (key a == key x)) [
    | inl e ↦ rw (e, put) (subst (λ k. Below k xs) (ground arith) h.0, h.1)
    | inr n ↦ elim (Bool-cases (ltb (key a) (key x))) [
      | inl less ↦ rw (n, less, put) ((less, Below-mono (key a) (key x) xs less h.0), h)
      | inr more ↦
          rw (n, more, put)
            (
              All-put (λ y. ltb (key x) (key y) ≡ true) a xs (ground arith) h.0,
              put-Ascending a xs h.1,
            )
    ]
  ]

  pub put_all-Ascending : (items xs : List A) → Ascending xs → Ascending (put_all items xs)
  unfolding put_all
  put_all-Ascending [] xs h = h
  put_all-Ascending (a ∷ items) xs h = put_all-Ascending items (put a xs) (put-Ascending a xs h)

  pub find-put :
      (k : ℕ) (a : A) (xs : List A) → find k (put a xs) ≡ (if key a == k then some a else find k xs)
  unfolding find put
  find-put k a [] = refl
  find-put k a (x ∷ xs) = ground (arith, find-put k a xs)

  -- What is in the table stays in it.
  pub find-put_all :
      (k : ℕ) (items xs : List A)
      → is_some (find k xs) ≡ true
      → is_some (find k (put_all items xs)) ≡ true
  unfolding put_all
  find-put_all k [] xs h = h
  find-put_all k (a ∷ items) xs h =
      find-put_all k items (put a xs) (ground (arith, find-put k a xs))

  Below-append : (k : ℕ) (a : A) (xs ys : List A) → Below k (xs ++ a ∷ ys) → ltb k (key a) ≡ true
  Below-append k a [] ys h = h.0
  Below-append k a (x ∷ xs) ys h = Below-append k a xs ys h.1

  put_last : (a : A) (xs ys : List A) → Ascending (xs ++ a ∷ ys) → put a xs ≡ xs ++ a ∷ []
  unfolding put
  put_last a [] ys h = refl
  put_last a (x ∷ xs) ys h = ground (arith, Below-append (key x) a xs ys h.0, put_last a xs ys h.1)

  append_assoc : (a : A) (xs ys : List A) → (xs ++ a ∷ []) ++ ys ≡ xs ++ a ∷ ys
  append_assoc a [] ys = refl
  append_assoc a (x ∷ xs) ys = ap (λ zs. x ∷ zs) (append_assoc a xs ys)

  append_nil : (xs : List A) → xs ≡ xs ++ []
  append_nil [] = refl
  append_nil (x ∷ xs) = ap (λ zs. x ∷ zs) (append_nil xs)

  put_all_append : (ys xs : List A) → Ascending (xs ++ ys) → put_all ys xs ≡ xs ++ ys
  unfolding put_all
  put_all_append [] xs h = append_nil xs
  put_all_append (y ∷ ys) xs h = rw (put_last y xs ys h) (
      put_all_append ys (xs ++ y ∷ []) (subst Ascending (sym (append_assoc y xs ys)) h)
      ∙ append_assoc y xs ys)

  -- A table that was read in the order of its keys is built again as it was.
  pub put_all_again : (xs : List A) → Ascending xs → put_all xs [] ≡ xs
  put_all_again xs h = put_all_append xs [] h

  -- The first of two answers that is there.
  abbrev pub or_else : Option A → Option A → Option A
  or_else none other = other
  or_else (some a) other = some a

  pub find-Below : (k : ℕ) (xs : List A) → Below k xs → find k xs ≡ none
  unfolding find
  find-Below k [] h = refl
  find-Below k (x ∷ xs) h = ground (arith, h.0, find-Below k xs h.1)

  -- The entries of an update go before those of the table.
  pub find-put_all_overlay :
      (k : ℕ) (items xs : List A)
      → Ascending items
      → find k (put_all items xs) ≡ or_else (find k items) (find k xs)
  unfolding find put_all
  find-put_all_overlay k [] xs h = refl
  find-put_all_overlay k (a ∷ items) xs h = elim (Bool-cases (key a == k)) [
    | inl e ↦
        let absent : find k items ≡ none =
          find-Below k items (subst (λ j. Below j items) (ground arith) h.0) in
        rw (find-put_all_overlay k items (put a xs) h.1, absent, find-put k a xs, e) refl
    | inr n ↦ rw (find-put_all_overlay k items (put a xs) h.1, find-put k a xs, n) refl
  ]
