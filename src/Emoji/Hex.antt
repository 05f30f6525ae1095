-- ===== src/Emoji/Hex.antt =====
-- f"{n:x}" and int(text, 16) on texts of code points.
use Prim.Native.Nat.{zero, suc, ◌/◌, ◌%◌, ◌<◌, ◌≤◌}
use mathlib.Core.Logic.{ite, dite}
use mathlib.Core.WellFounded
use mathlib.Core.WellFounded.{Acc, Acc-prop, WellFounded}
use native.Mathlib.Decide.{dec_lt}
use workspace_zulip_bridge.Common.{
  ℕ, ◌+◌, ◌-◌, ◌*◌, Bool, true, false, ◌&&◌, ◌||◌, List, [], ◌∷◌, ◌==◌, ltb, leb, if◌then◌else◌,
  ◌≡◌, arith, length,
}

abbrev pub Text : Type 0
Text = List ℕ

abbrev pub text_eq : Text → Text → Bool
text_eq [] [] = true
text_eq (a ∷ s) (b ∷ t) = a == b && text_eq s t
text_eq _ _ = false

abbrev pub all : (ℕ → Bool) → Text → Bool
all p [] = true
all p (c ∷ s) = p c && all p s

-- [0-9a-fA-F]
abbrev pub is_hex : ℕ → Bool
is_hex c = (leb 48 c && leb c 57) || (leb 97 c && leb c 102) || (leb 65 c && leb c 70)

abbrev pub hex_value : ℕ → ℕ
hex_value c = if leb c 57 then c - 48 else if leb 97 c then c - 87 else c - 55

-- The number that the digits spell behind `n`.
unfoldable pub value : ℕ → Text → ℕ
value n [] = n
value n (c ∷ s) = value (n * 16 + hex_value c) s

abbrev pub hex_digit : ℕ → ℕ
hex_digit d = if ltb d 10 then 48 + d else 87 + d

unfoldable pub acc_below : (k n : ℕ) → n < k → Acc ◌<◌ n
acc_below zero n h = absurd (omega arith)
acc_below (suc k) n h = Acc.intro n λ m lt. acc_below k m (omega arith)

unfoldable pub lt_wf : WellFounded ◌<◌
unfolding acc_below
lt_wf = record { apply = λ n. acc_below (suc n) n (omega arith) }

pub smaller : {n : ℕ} → 0 < n → n / 16 < n
smaller h = omega arith

unfoldable pub emit : (n : ℕ) → Acc ◌<◌ n → Text → Text
emit n (Acc.intro _ below) out =
    dite (dec_lt 0 n) (λ h. emit (n / 16) (below (n / 16) (smaller h)) (hex_digit (n % 16) ∷ out))
      (λ _. out)

unfoldable pub digits : ℕ → Text → Text
unfolding emit lt_wf
digits n = emit n (lt_wf.apply n)

unfoldable pub hex : ℕ → Text
unfolding digits
hex n = if n == 0 then 48 ∷ [] else digits n []

-- Any two proofs of `Acc` are equal.
emit_step :
    (n : ℕ) (w : Acc ◌<◌ n) (v : Acc ◌<◌ (n / 16)) (out : Text)
    → emit n w out ≡ ite (dec_lt 0 n) (emit (n / 16) v (hex_digit (n % 16) ∷ out)) out
unfolding emit
emit_step n (Acc.intro _ below) v out = λ i.
    dite (dec_lt 0 n)
      (λ h. emit (n / 16) (Acc-prop (below (n / 16) (smaller h)) v i) (hex_digit (n % 16) ∷ out))
      (λ _. out)

digits_step :
    (n : ℕ) (out : Text)
    → digits n out ≡ ite (dec_lt 0 n) (digits (n / 16) (hex_digit (n % 16) ∷ out)) out
unfolding digits
digits_step n = emit_step n (lt_wf.apply n) (lt_wf.apply (n / 16))

value_last : (n : ℕ) (out : Text) → value (n / 16) (hex_digit (n % 16) ∷ out) ≡ value n out
unfolding value
value_last n out = ground arith

value-digits : (n : ℕ) (out : Text) → value 0 (digits n out) ≡ value n out
value-digits n =
    WellFounded.induction lt_wf {C = λ m. (out : Text) → value 0 (digits m out) ≡ value m out} n
      λ m ih out. grind (arith, digits_step m out, value_last m out, ih (m / 16))

hex_digit-is_hex : (n : ℕ) → is_hex (hex_digit (n % 16)) ≡ true
hex_digit-is_hex n = ground arith

all-digits : (n : ℕ) (out : Text) → all is_hex out ≡ true → all is_hex (digits n out) ≡ true
all-digits n =
    WellFounded.induction lt_wf
      {C = λ m. (out : Text) → all is_hex out ≡ true → all is_hex (digits m out) ≡ true} n
      λ m ih out h. grind (arith, digits_step m out, hex_digit-is_hex m, ih (m / 16))

-- 16 ^ k
abbrev power : ℕ → ℕ
power zero = 1
power (suc k) = 16 * power k

length-digits : (k n : ℕ) (out : Text) → n < power k → length (digits n out) ≤ k + length out
length-digits zero n out h = grind (arith, digits_step n out)
length-digits (suc k) n out h =
    grind (arith, digits_step n out, length-digits k (n / 16) (hex_digit (n % 16) ∷ out))

digits-length : (n : ℕ) (out : Text) → length out ≤ length (digits n out)
digits-length n =
    WellFounded.induction lt_wf {C = λ m. (out : Text) → length out ≤ length (digits m out)} n
      λ m ih out. grind (arith, digits_step m out, ih (m / 16))

-- A Unicode code point is written with one to six digits.
pub hex-length : (n : ℕ) → leb n 0x10FFFF ≡ true → (1 ≤ length (hex n)) × (length (hex n) ≤ 6)
unfolding hex
hex-length n h = grind (
  arith,
  digits_step n [],
  length-digits 6 n [],
  digits-length (n / 16) (hex_digit (n % 16) ∷ []),
)

pub all-hex : (n : ℕ) → all is_hex (hex n) ≡ true
unfolding hex
all-hex n = grind (arith, all-digits n [])

pub value-hex : (n : ℕ) → value 0 (hex n) ≡ n
unfolding hex value
value-hex n = grind (arith, value-digits n [])
