-- ===== src/Http.antt =====
-- Headers of HTTP: split, trim, icmp, iless, parse_http_header and parse_http_request_line of
-- src/zerobus/http_utils.h. A character is a number; isspace is that of the C locale.
pub mod Header
pub mod Order
pub mod Url
pub mod EmptyLine
mod Tests
use zerobus.Prelude.{
  ℕ, zero, suc, ◌+◌, ◌-◌, Bool, true, false, not, ◌&&◌, ◌||◌, List, [], ◌∷◌, ◌==◌, if◌then◌else◌,
  ltb, leb, length, drop,
}
use zerobus.Bus.Routing.{bytes_empty}
use zerobus.Wire.Uint.{Bytes}

abbrev pub starts_with : Bytes → Bytes → Bool
starts_with [] text = true
starts_with (s ∷ sep) [] = false
starts_with (s ∷ sep) (c ∷ text) = (s == c) && starts_with sep text

-- What is returned, and what is left in the argument.
unfoldable pub split : Bytes → Bytes → Bytes × Bytes
split [] sep = ([], [])
split (c ∷ text) sep =
    let (first, rest) = split text sep in
    if starts_with sep (c ∷ text) then ([], drop (length sep) (c ∷ text)) else (c ∷ first, rest)

abbrev pub isspace : ℕ → Bool
isspace c = (c == 32) || (leb 9 c && leb c 13)

abbrev pub trim_front : Bytes → Bytes
trim_front [] = []
trim_front (c ∷ text) = let rest = trim_front text in if isspace c then rest else c ∷ text

abbrev pub trim_back : Bytes → Bytes
trim_back [] = []
trim_back (c ∷ text) =
    let rest = trim_back text in if isspace c && bytes_empty rest then [] else c ∷ rest

unfoldable pub trim : Bytes → Bytes
trim text = trim_back (trim_front text)

abbrev pub fast_tolower : ℕ → ℕ
fast_tolower c = if leb 65 c && leb c 90 then c - 65 + 97 else c

unfoldable pub icmp : Bytes → Bytes → Bool
icmp [] [] = true
icmp [] (y ∷ b) = false
icmp (x ∷ a) [] = false
icmp (x ∷ a) (y ∷ b) = (fast_tolower x == fast_tolower y) && icmp a b

unfoldable pub iless : Bytes → Bytes → Bool
iless [] [] = false
iless [] (y ∷ b) = true
iless (x ∷ a) [] = false
iless (x ∷ a) (y ∷ b) =
    let rest = iless a b in
    if fast_tolower x == fast_tolower y then rest else ltb (fast_tolower x) (fast_tolower y)

abbrev pub crlf : Bytes
crlf = 13 ∷ 10 ∷ []

abbrev pub colon : Bytes
colon = 58 ∷ []

abbrev pub space : Bytes
space = 32 ∷ []

module _ {A : Type 0} (cb : Bytes → Bytes → A → A) where
  -- The lines after the first; a line for each character is enough.
  unfoldable pub parse_lines : ℕ → Bytes → A → A
  parse_lines zero hdr a = a
  parse_lines (suc rounds) [] a = a
  parse_lines (suc rounds) (c ∷ hdr) a =
      let (line, rest) = split (c ∷ hdr) crlf in
      let (key, value) = split line colon in parse_lines rounds rest (cb (trim key) (trim value) a)

  -- The first line, and what the callback makes of the others.
  unfoldable pub parse_http_header : Bytes → A → Bytes × A
  parse_http_header hdr a =
      let (first_line, rest) = split hdr crlf in (first_line, parse_lines (length rest) rest a)

pub record HttpRequestLine : Type 0 where
  pub method : Bytes
  pub path : Bytes
  pub version : Bytes

unfoldable pub parse_http_request_line : Bytes → HttpRequestLine
parse_http_request_line first_line =
    let (m, rest) = split first_line space in
    let (p, v) = split rest space in record { method = m; path = p; version = v }
