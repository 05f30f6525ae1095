-- ===== src/Emoji.antt =====
-- emoji.py: the code of a Unicode emoji and its glyph. A str is the list of its code points, so
-- `ord` and `chr` change nothing; unicodedata.normalize("NFC", …) is the argument `nfc`.
mod Hex
pub mod RoundTrip
mod Tests
unfoldable pub use Hex.*
use workspace_zulip_bridge.Common.{
  ℕ, ◌+◌, ◌-◌, ◌*◌, String, Bool, true, false, not, ◌&&◌, ◌||◌, List, [], ◌∷◌, ◌++◌, map, ◌==◌, ltb,
  leb, if◌then◌else◌, keep, length,
}
use workspace_zulip_bridge.Queue.Types.{Result, ok, value_error, ◌>>=◌}

-- _PRESENTATION_SELECTORS
abbrev pub is_selector : ℕ → Bool
is_selector c = c == 0xFE0E || c == 0xFE0F

abbrev pub without_selectors : Text → Text
without_selectors = keep (λ c. not (is_selector c))

abbrev pub is_invalid_scalar : ℕ → Bool
is_invalid_scalar c = ltb 0x10FFFF c || (leb 0xD800 c && leb c 0xDFFF)

-- _CODEPOINT_RE.fullmatch: one to six hexadecimal digits
abbrev pub is_codepoint : Text → Bool
is_codepoint raw = leb 1 (length raw) && leb (length raw) 6 && all is_hex raw

unfoldable pub unicode_scalar : Text → Result ℕ
unicode_scalar raw =
    if not (is_codepoint raw)
    then value_error "Zulip emoji code contains an invalid code point"
    else if is_invalid_scalar (value 0 raw)
    then value_error "Zulip emoji code contains an invalid Unicode scalar"
    else ok (value 0 raw)

abbrev pub any_of : (ℕ → Bool) → Text → Bool
any_of p [] = false
any_of p (c ∷ s) = p c || any_of p s

-- "-".join
unfoldable pub join : List Text → Text
join [] = []
join (w ∷ []) = w
join (w ∷ v ∷ words) = w ++ 45 ∷ join (v ∷ words)

abbrev pub push : ℕ → List Text → List Text
push c [] = (c ∷ []) ∷ []
push c (w ∷ words) = (c ∷ w) ∷ words

-- value.split("-")
unfoldable pub split : Text → List Text
split [] = [] ∷ []
split (c ∷ s) = let rest = split s in if c == 45 then [] ∷ rest else push c rest

-- [chr(_unicode_scalar(raw)) for raw in …]
unfoldable pub scalars : List Text → Result Text
unfolding unicode_scalar
scalars [] = ok []
scalars (raw ∷ words) = do c ← unicode_scalar raw; rest ← scalars words; ok (c ∷ rest)

abbrev pub is_empty : Text → Bool
is_empty [] = true
is_empty _ = false

-- The code of the code points that are left.
unfoldable pub code_of : Text → Result Text
unfolding join hex
code_of codepoints =
    if is_empty codepoints
    then value_error "Unicode emoji is empty after normalization"
    else if any_of is_invalid_scalar codepoints
    then value_error "Unicode emoji contains an invalid Unicode scalar"
    else ok (join (map hex codepoints))

-- "unicode_emoji"
abbrev pub unicode_emoji : Text
unicode_emoji = 117 ∷ 110 ∷ 105 ∷ 99 ∷ 111 ∷ 100 ∷ 101 ∷ 95 ∷ 101 ∷ 109 ∷ 111 ∷ 106 ∷ 105 ∷ []

module _ (nfc : Text → Text) where
  unfoldable pub unicode_emoji_code : Text → Result Text
  unfolding code_of
  unicode_emoji_code text = code_of (without_selectors (nfc text))

  unfoldable pub unicode_emoji_from_code : Text → Result Text
  unfolding scalars split
  unicode_emoji_from_code code =
      if is_empty code then value_error "Zulip emoji code is empty" else do
        characters ← scalars (split code)
        let glyph = nfc (without_selectors characters)
        if is_empty glyph
            then value_error "Zulip emoji code is empty after normalization"
            else ok glyph

  unfoldable pub canonical_unicode_emoji_code : Text → Result Text
  unfolding unicode_emoji_from_code unicode_emoji_code
  canonical_unicode_emoji_code code = do
    glyph ← unicode_emoji_from_code code
    unicode_emoji_code glyph

  unfoldable pub normalized_reaction_code : Text → Text → Result Text
  unfolding canonical_unicode_emoji_code
  normalized_reaction_code reaction_type emoji_code = do
    code ←
        (if text_eq (nfc reaction_type) unicode_emoji
          then canonical_unicode_emoji_code (nfc emoji_code)
          else ok (nfc emoji_code))
    ok (nfc reaction_type ++ 58 ∷ code)
