-- ===== src/Http/Tests.antt =====
-- The theorems on headers at concrete inputs.
use zerobus.Http.Url.{url_decode, percent_encode, url_decode-percent_encode}
use zerobus.Prelude.{◌≡◌, refl, List, [], ◌∷◌, ◌++◌, arith}
use zerobus.Wire.Uint.{Bytes}
use zerobus.Http.{crlf, trim, parse_http_header}
use zerobus.Http.Header.{Field, write_lines, parse_http_header-write_lines}

abbrev collect : Bytes → Bytes → List (Bytes × Bytes) → List (Bytes × Bytes)
collect key value fields = fields ++ ((key, value) ∷ [])

abbrev two_fields : List (Bytes × Bytes)
two_fields = (72 ∷ [], 97 ∷ 58 ∷ []) ∷ (75 ∷ [], []) ∷ []

first-Field : Field (72 ∷ []) (97 ∷ 58 ∷ [])
unfolding trim
first-Field = record {
  key_line = (omega arith, tt);
  key_colon = (omega arith, tt);
  value_line = (omega arith, (omega arith, tt));
  key_trimmed = refl;
  value_trimmed = refl;
}

second-Field : Field (75 ∷ []) []
unfolding trim
second-Field = record {
  key_line = (omega arith, tt);
  key_colon = (omega arith, tt);
  value_line = tt;
  key_trimmed = refl;
  value_trimmed = refl;
}

parse_http_header-write_lines_example :
    parse_http_header collect ((71 ∷ []) ++ (crlf ++ write_lines two_fields)) []
    ≡ (71 ∷ [], two_fields)
parse_http_header-write_lines_example =
    parse_http_header-write_lines collect (71 ∷ []) two_fields [] (omega arith, tt)
      (first-Field, (second-Field, tt))

url_decode-percent_encode_example :
    url_decode (percent_encode (97 ∷ 37 ∷ 32 ∷ [])) ≡ 97 ∷ 37 ∷ 32 ∷ []
url_decode-percent_encode_example =
    url_decode-percent_encode (97 ∷ 37 ∷ 32 ∷ []) (omega arith, (omega arith, (omega arith, tt)))
