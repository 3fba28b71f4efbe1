-- ===== src/Http/Url.antt =====
-- url_decode of src/zerobus/http_utils.h. url_encode is not modelled: its test for characters returns
-- nothing, so it cannot be instantiated; the encoding here is that of RFC 3986. A character is a
-- byte.
use zerobus.Prelude.{
  ℕ, ◌+◌, ◌-◌, ◌*◌, ◌/◌, ◌%◌, ◌<◌, ◌≡◌, refl, ap, ◌∙◌, Bool, true, false, ◌&&◌, ◌||◌, [], ◌∷◌, ◌++◌,
  arith, All, ◌==◌, if◌then◌else◌, ltb, leb, Bool-cases, inl, inr,
}
use mathlib.Core.Path.{ap₂}
use zerobus.Wire.Uint.{Bytes}

abbrev pub from_hex : ℕ → ℕ
from_hex c =
    if leb 48 c && leb c 57
    then c - 48
    else if leb 65 c && leb c 70
    then c - 65 + 10
    else if leb 97 c && leb c 102
    then c - 97 + 10
    else 2

-- Where url_decode is: outside, behind a percent sign, or behind its first digit.
pub data DecodeState : Type 0 where
  plain percent : DecodeState
  digit : ℕ → DecodeState

abbrev pub next_state : DecodeState → ℕ → DecodeState
next_state plain c = if c == 37 then percent else plain
next_state percent c = digit c
next_state (digit hex1) c = plain

abbrev pub decoded : DecodeState → ℕ → Bytes
decoded plain c = if c == 37 then [] else c ∷ []
decoded percent c = []
decoded (digit hex1) c = (from_hex hex1 * 16 + from_hex c) % 256 ∷ []

-- The loop; a percent sign without its digits at the end is dropped.
unfoldable pub decode_from : DecodeState → Bytes → Bytes
decode_from s [] = []
decode_from s (c ∷ text) = decoded s c ++ decode_from (next_state s c) text

unfoldable pub url_decode : Bytes → Bytes
url_decode text = decode_from plain text

-- The percent-encoding of RFC 3986: letters, digits and the four marks - . _ ~ stay, and every
-- other byte is a percent sign with two digits in upper case.
abbrev hex_digit : ℕ → ℕ
hex_digit n = if ltb n 10 then n + 48 else n + 55

abbrev is_between : ℕ → ℕ → ℕ → Bool
is_between lo hi c = leb lo c && leb c hi

abbrev is_unreserved : ℕ → Bool
is_unreserved c =
    is_between 48 57 c
    || is_between 65 90 c
    || is_between 97 122 c
    || c == 45
    || c == 46
    || c == 95
    || c == 126

abbrev percent_char : ℕ → Bytes
percent_char c =
    if is_unreserved c then c ∷ [] else 37 ∷ hex_digit (c / 16) ∷ hex_digit (c % 16) ∷ []

unfoldable pub percent_encode : Bytes → Bytes
percent_encode [] = []
percent_encode (c ∷ text) = percent_char c ++ percent_encode text

from_hex-hex_digit : (n : ℕ) → n < 16 → from_hex (hex_digit n) ≡ n
from_hex-hex_digit n h = ground (arith, h)

join_digits :
    (c : ℕ)
    → c < 256
    → (from_hex (hex_digit (c / 16)) * 16 + from_hex (hex_digit (c % 16))) % 256 ≡ c
join_digits c h =
    ap₂ (λ x y. (x * 16 + y) % 256) (from_hex-hex_digit (c / 16) (omega (arith, h)))
      (from_hex-hex_digit (c % 16) (omega arith))
    ∙ omega (arith, h)

-- The percent sign does not stay.
unreserved_other : (c : ℕ) → is_unreserved c ≡ true → (c == 37) ≡ false
unreserved_other c h = ground (arith, h)

decode_char :
    (c : ℕ) (rest : Bytes)
    → c < 256
    → decode_from plain (percent_char c ++ rest) ≡ c ∷ decode_from plain rest
unfolding decode_from
decode_char c rest h = elim (Bool-cases (is_unreserved c)) [
  | inl e ↦ let other = unreserved_other c e in rw (e, other) refl
  | inr e ↦ rw e (ap (λ x. x ∷ decode_from plain rest) (join_digits c h))
]

-- url_decode gives back any bytes from their percent-encoding by RFC 3986, in which letters,
-- digits and the marks - . _ ~ stay and every other byte is a percent sign with two digits in
-- upper case.
pub url_decode-percent_encode :
    (text : Bytes) → All (λ c. c < 256) text → url_decode (percent_encode text) ≡ text
unfolding url_decode percent_encode decode_from
url_decode-percent_encode [] a = refl
url_decode-percent_encode (c ∷ text) a =
    decode_char c (percent_encode text) a.0 ∙ ap (◌∷◌ c) (url_decode-percent_encode text a.1)
