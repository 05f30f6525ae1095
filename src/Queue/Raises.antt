-- ===== src/Queue/Raises.antt =====
-- Calls in a row that return although each may raise.
use workspace_zulip_bridge.Common.{
  ◌≡◌, refl, subst, String, Bool, true, false, if◌then◌else◌, List, [], ◌∷◌, All,
}
use workspace_zulip_bridge.Queue.Types.{
  Result, ok, value_error, database_error, raised, ◌>>=◌, require,
}

-- A chain that returns is one whose first call returned.
pub bind_ok {ℓ κ} :
    {A : Type ℓ} {B : Type κ} (r : Result A) (f : A → Result B) (b : B)
    → (r >>= f) ≡ ok b
    → (a : A) × (r ≡ ok a) × (f a ≡ ok b)
bind_ok (ok a) f b h = (a, refl, h)
bind_ok (value_error m) f b h = absurd (cc h)
bind_ok database_error f b h = absurd (cc h)
bind_ok (raised m) f b h = absurd (cc h)

pub require_ok :
    (test : Bool) (message : String) (u : Unit {0}) → require test message ≡ ok u → test ≡ true
require_ok true message u h = refl
require_ok false message u h = absurd (cc h)

-- What a call returns, if it returns, is as `P` says.
abbrev pub Holds {ℓ κ} : {A : Type ℓ} → (A → Type κ) → Result A → Type κ
Holds P (ok a) = P a
Holds P _ = Unit

pub Holds-bind {ℓ κ μ ν} :
    {A : Type ℓ} {B : Type κ} (P : A → Type μ) (Q : B → Type ν) (r : Result A) (f : A → Result B)
    → Holds P r
    → ((a : A) → P a → Holds Q (f a))
    → Holds Q (r >>= f)
Holds-bind P Q (ok a) f h k = k a h
Holds-bind P Q (value_error m) f h k = tt
Holds-bind P Q database_error f h k = tt
Holds-bind P Q (raised m) f h k = tt

-- The same where nothing is asked of the first call.
pub Holds-any {ℓ κ ν} :
    {A : Type ℓ} {B : Type κ} (Q : B → Type ν) (r : Result A) (f : A → Result B)
    → ((a : A) → Holds Q (f a))
    → Holds Q (r >>= f)
Holds-any Q (ok a) f k = k a
Holds-any Q (value_error m) f k = tt
Holds-any Q database_error f k = tt
Holds-any Q (raised m) f k = tt

pub Holds-if {ℓ κ} :
    {A : Type ℓ} (P : A → Type κ) (test : Bool) (x y : Result A)
    → Holds P x
    → Holds P y
    → Holds P (if test then x else y)
Holds-if P true x y h k = h
Holds-if P false x y h k = k

pub Holds-ok {ℓ κ} :
    {A : Type ℓ} (P : A → Type κ) (r : Result A) (a : A) → Holds P r → r ≡ ok a → P a
Holds-ok P (ok b) a h e = subst P (cc e) h
Holds-ok P (value_error m) a h e = absurd (cc e)
Holds-ok P database_error a h e = absurd (cc e)
Holds-ok P (raised m) a h e = absurd (cc e)

-- if … then … else if … then … else last
abbrev pub first_case {ℓ} : {A : Type ℓ} → List (Bool × Result A) → Result A → Result A
first_case [] last = last
first_case (c ∷ cases) last = if c.0 then c.1 else first_case cases last

pub Holds-first_case {ℓ κ} :
    {A : Type ℓ} (P : A → Type κ) (cases : List (Bool × Result A)) (last : Result A)
    → All (λ c. Holds P c.1) cases
    → Holds P last
    → Holds P (first_case cases last)
Holds-first_case P [] last h k = k
Holds-first_case P (c ∷ cases) last h k =
    Holds-if P c.0 c.1 (first_case cases last) h.0 (Holds-first_case P cases last h.1 k)
