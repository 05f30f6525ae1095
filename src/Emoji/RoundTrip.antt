-- ===== src/Emoji/RoundTrip.antt =====
-- The code of an emoji is read back, and is in a normal form. NFC is idempotent and makes no
-- presentation selector where there was none: both are named where they are used.
use workspace_zulip_bridge.Common.{
  ℕ, true, false, not, [], ◌∷◌, ◌++◌, map, ◌==◌, ◌≡◌, ◌↔◌, refl, sym, ap, ◌∙◌, arith, Bool-cases,
  inl, inr,
}
use workspace_zulip_bridge.Queue.Types.{ok}
use workspace_zulip_bridge.Queue.Raises.{bind_ok}
use workspace_zulip_bridge.Emoji.{
  Text, all, is_hex, hex, is_selector, without_selectors, is_invalid_scalar, is_codepoint,
  unicode_scalar, any_of, join, split, scalars, is_empty, code_of, unicode_emoji_code,
  unicode_emoji_from_code, canonical_unicode_emoji_code,
}
use workspace_zulip_bridge.Emoji.Hex.{hex-length, all-hex, value-hex}

unicode_scalar-hex : (n : ℕ) → is_invalid_scalar n ≡ false → unicode_scalar (hex n) ≡ ok n
unfolding unicode_scalar
unicode_scalar-hex n h =
    let bounds = hex-length n (ground arith) in
    let matched : is_codepoint (hex n) ≡ true = ground (arith, bounds, all-hex n) in
    rw (matched, value-hex n, h) refl

-- No separator is in the text.
abbrev IsWord : Text → Type 0
IsWord w = all (λ c. not (c == 45)) w ≡ true

all_hex-IsWord : (w : Text) → all is_hex w ≡ true → IsWord w
all_hex-IsWord [] h = refl
all_hex-IsWord (c ∷ w) h = ground (arith, all_hex-IsWord w)

split-word : (w : Text) → IsWord w → split w ≡ w ∷ []
unfolding split
split-word [] h = refl
split-word (c ∷ w) h = ground (arith, split-word w)

split-separated : (w s : Text) → IsWord w → split (w ++ 45 ∷ s) ≡ w ∷ split s
unfolding split
split-separated [] s h = refl
split-separated (c ∷ w) s h = ground (arith, split-separated w s)

split-join :
    (c : ℕ) (codepoints : Text) → split (join (map hex (c ∷ codepoints))) ≡ map hex (c ∷ codepoints)
unfolding join
split-join c [] = split-word (hex c) (all_hex-IsWord (hex c) (all-hex c))
split-join c (d ∷ codepoints) =
    split-separated (hex c) (join (map hex (d ∷ codepoints))) (all_hex-IsWord (hex c) (all-hex c))
    ∙ ap (λ words. hex c ∷ words) (split-join d codepoints)

scalars-hex :
    (codepoints : Text)
    → any_of is_invalid_scalar codepoints ≡ false
    → scalars (map hex codepoints) ≡ ok codepoints
unfolding scalars
scalars-hex [] h = refl
scalars-hex (c ∷ codepoints) h =
    rw (unicode_scalar-hex c (ground arith), scalars-hex codepoints (ground arith)) refl

filled-append : (s t : Text) (c : ℕ) → is_empty (s ++ c ∷ t) ≡ false
filled-append [] t c = refl
filled-append (d ∷ s) t c = refl

join-hex :
    (c : ℕ) (codepoints : Text)
    → any_of is_invalid_scalar (c ∷ codepoints) ≡ false
    → is_empty (join (map hex (c ∷ codepoints))) ≡ false
unfolding join
join-hex c [] h = ground (arith, hex-length c)
join-hex c (d ∷ codepoints) h = filled-append (hex c) (join (map hex (d ∷ codepoints))) 45

-- What a code is made of is read back.
code_again :
    (codepoints code : Text)
    → code_of codepoints ≡ ok code
    → (is_empty code ≡ false) × (scalars (split code) ≡ ok codepoints)
unfolding code_of
code_again [] code h = absurd (cc h)
code_again (c ∷ codepoints) code h = elim (Bool-cases (any_of is_invalid_scalar (c ∷ codepoints))) [
  | inl e ↦ absurd (cc (rw e at h))
  | inr e ↦
      let same : join (map hex (c ∷ codepoints)) ≡ code = cc (rw e at h) in
      rw⁻¹ same (
        join-hex c codepoints e,
        ap scalars (split-join c codepoints) ∙ scalars-hex (c ∷ codepoints) e,
      )
]

code_filled : (s code : Text) → code_of s ≡ ok code → is_empty s ≡ false
unfolding code_of
code_filled [] code h = absurd (cc h)
code_filled (c ∷ s) code h = refl

without-without : (s : Text) → without_selectors (without_selectors s) ≡ without_selectors s
without-without [] = refl
without-without (c ∷ s) = ground (arith, without-without s)

without_none : (s : Text) → any_of is_selector s ≡ false → without_selectors s ≡ s
without_none [] h = refl
without_none (c ∷ s) h = ground (arith, without_none s)

any-without : (s : Text) → any_of is_selector (without_selectors s) ≡ false
any-without [] = refl
any-without (c ∷ s) = ground (arith, any-without s)

-- Where NFC leaves no text empty that is not: the code of an emoji, read back, gives the emoji in
-- NFC without its presentation selectors.
pub unicode_emoji_from_code-unicode_emoji_code :
    (nfc : Text → Text)
    → ((s : Text) → is_empty s ≡ false → is_empty (nfc s) ≡ false)
    → (text code : Text) → unicode_emoji_code nfc text ≡ ok code
    → unicode_emoji_from_code nfc code ≡ ok (nfc (without_selectors (nfc text)))
unfolding unicode_emoji_code unicode_emoji_from_code
unicode_emoji_from_code-unicode_emoji_code nfc nonempty text code h =
    let (filled, read) = code_again (without_selectors (nfc text)) code h in
    rw
      (
        filled,
        read,
        without-without (nfc text),
        nonempty (without_selectors (nfc text)) (code_filled (without_selectors (nfc text)) code h),
      )
      refl

module _ (nfc : Text → Text) (again : (s : Text) → nfc (nfc s) ≡ nfc s)
    (plain : (s : Text) → any_of is_selector s ≡ false → any_of is_selector (nfc s) ≡ false) where
  -- A glyph that is read from a code is in NFC, not empty, and has no selector.
  IsGlyph : Text → Type 0
  IsGlyph g = (nfc g ≡ g) × (any_of is_selector g ≡ false) × (is_empty g ≡ false)

  from_code-IsGlyph :
      (code glyph : Text) → unicode_emoji_from_code nfc code ≡ ok glyph → IsGlyph glyph
  unfolding unicode_emoji_from_code IsGlyph
  from_code-IsGlyph code glyph h = elim (Bool-cases (is_empty code)) [
    | inl e ↦ absurd (cc (rw e at h))
    | inr e ↦
        let (characters, _, rest) = bind_ok (scalars (split code)) _ glyph (rw e at h) in
        elim (Bool-cases (is_empty (nfc (without_selectors characters)))) [
          | inl f ↦ absurd (cc (rw f at rest))
          | inr f ↦
              let made : nfc (without_selectors characters) ≡ glyph = cc (rw f at rest) in
              rw⁻¹ made (
                again (without_selectors characters),
                plain (without_selectors characters) (any-without characters),
                f,
              )
        ]
  ]

  glyph_again :
      (glyph code : Text)
      → IsGlyph glyph
      → unicode_emoji_code nfc glyph ≡ ok code
      → unicode_emoji_from_code nfc code ≡ ok glyph
  unfolding unicode_emoji_from_code unicode_emoji_code IsGlyph
  glyph_again glyph code (normal, bare, filled) h =
      let same = ap without_selectors normal ∙ without_none glyph bare in
      let (full, read) = code_again glyph code (rw same at h) in
      rw (full, read, without_none glyph bare, normal, filled) refl

  -- Where NFC is idempotent and makes no presentation selector where there was none, a canonical
  -- code is its own canonical code.
  pub canonical_again :
      (code canonical : Text)
      → canonical_unicode_emoji_code nfc code ≡ ok canonical
      → canonical_unicode_emoji_code nfc canonical ≡ ok canonical
  unfolding canonical_unicode_emoji_code
  canonical_again code canonical h =
      let (glyph, e, coded) = bind_ok (unicode_emoji_from_code nfc code) _ canonical h in
      rw (glyph_again glyph canonical (from_code-IsGlyph code glyph e) coded) coded

  -- Where NFC is idempotent and makes no presentation selector where there was none, two codes that
  -- have canonical codes have the same one exactly when they name the same glyph.
  pub canonical_same :
      (v w a b : Text)
      → canonical_unicode_emoji_code nfc v ≡ ok a
      → canonical_unicode_emoji_code nfc w ≡ ok b
      → (a ≡ b) ↔ (unicode_emoji_from_code nfc v ≡ unicode_emoji_from_code nfc w)
  unfolding canonical_unicode_emoji_code
  canonical_same v w a b h k =
      let (g, e, coded) = bind_ok (unicode_emoji_from_code nfc v) _ a h in
      let (g', e', coded') = bind_ok (unicode_emoji_from_code nfc w) _ b k in
      let read = glyph_again g a (from_code-IsGlyph v g e) coded in
      let read' = glyph_again g' b (from_code-IsGlyph w g' e') coded' in
      (
        λ same. e ∙ sym read ∙ ap (unicode_emoji_from_code nfc) same ∙ read' ∙ sym e',
        λ same. let glyphs : g ≡ g' = cc (sym e ∙ same ∙ e') in cc (glyphs, coded, coded'),
      )
