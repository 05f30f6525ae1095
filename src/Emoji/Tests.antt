-- ===== src/Emoji/Tests.antt =====
-- The codes of a red heart: U+2764 and the selector U+FE0F. NFC changes neither.
use native.Mathlib.Decide.{dec_lt}
use workspace_zulip_bridge.Common.{[], ◌∷◌, ◌≡◌, ◌↔◌, refl}
use workspace_zulip_bridge.Queue.Types.{ok}
use workspace_zulip_bridge.Emoji.{
  Text, unicode_emoji_code, unicode_emoji_from_code, canonical_unicode_emoji_code,
  without_selectors, hex, digits, emit, lt_wf, acc_below, value,
}
use workspace_zulip_bridge.Emoji.RoundTrip.{
  unicode_emoji_from_code-unicode_emoji_code, canonical_again, canonical_same,
}

abbrev sample_nfc : Text → Text
sample_nfc s = s

abbrev heart : Text
heart = 0x2764 ∷ 0xFE0F ∷ []

-- "2764", "2764-FE0F" and "02764"
abbrev heart_code : Text
heart_code = 50 ∷ 55 ∷ 54 ∷ 52 ∷ []

abbrev long_code : Text
long_code = 50 ∷ 55 ∷ 54 ∷ 52 ∷ 45 ∷ 70 ∷ 69 ∷ 48 ∷ 70 ∷ []

abbrev padded_code : Text
padded_code = 48 ∷ 50 ∷ 55 ∷ 54 ∷ 52 ∷ []

heart_coded : unicode_emoji_code sample_nfc heart ≡ ok heart_code
unfolding unicode_emoji_code hex digits emit lt_wf acc_below dec_lt
heart_coded = refl

unicode_emoji_from_code-unicode_emoji_code_example :
    unicode_emoji_from_code sample_nfc heart_code
    ≡ ok (sample_nfc (without_selectors (sample_nfc heart)))
unicode_emoji_from_code-unicode_emoji_code_example =
    unicode_emoji_from_code-unicode_emoji_code sample_nfc (λ s h. h) heart heart_code heart_coded

canonical_long : canonical_unicode_emoji_code sample_nfc long_code ≡ ok heart_code
unfolding canonical_unicode_emoji_code hex digits emit lt_wf acc_below value dec_lt
canonical_long = refl

canonical_padded : canonical_unicode_emoji_code sample_nfc padded_code ≡ ok heart_code
unfolding canonical_unicode_emoji_code hex digits emit lt_wf acc_below value dec_lt
canonical_padded = refl

canonical_again_example : canonical_unicode_emoji_code sample_nfc heart_code ≡ ok heart_code
canonical_again_example =
    canonical_again sample_nfc (λ s. refl) (λ s h. h) long_code heart_code canonical_long

canonical_same_example : (heart_code ≡ heart_code) ↔ (
    unicode_emoji_from_code sample_nfc long_code ≡ unicode_emoji_from_code sample_nfc padded_code)
canonical_same_example =
    canonical_same sample_nfc (λ s. refl) (λ s h. h) long_code padded_code heart_code heart_code
      canonical_long canonical_padded
