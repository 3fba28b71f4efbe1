-- ===== src/Http/Header.antt =====
-- What parse_http_header and parse_http_request_line of src/zerobus/http_utils.h read from a header
-- that was written line by line.
use zerobus.Prelude.{
  ℕ, zero, suc, ◌≤◌, ◌<◌, ◌≡◌, ◌≢◌, refl, ap, ◌∙◌, true, false, List, [], ◌∷◌, ◌++◌, arith, length,
  length-append, All, drop-append_length, ◌==◌,
}
use mathlib.Core.Path.{ap₂}
use zerobus.Wire.Uint.{Bytes}
use zerobus.Http.{
  starts_with, split, trim, crlf, colon, space, parse_lines, parse_http_header, HttpRequestLine,
  parse_http_request_line,
}

-- The character is not in the text.
abbrev pub Without : ℕ → Bytes → Type 0
Without s text = All (λ c. c ≢ s) text

pub starts_with-append : (sep text : Bytes) → starts_with sep (sep ++ text) ≡ true
starts_with-append [] text = refl
starts_with-append (s ∷ sep) text =
    let same : (s == s) ≡ true = ground arith in rw same (starts_with-append sep text)

pub other_start : (s c : ℕ) → c ≢ s → (s == c) ≡ false
other_start s c h = ground (arith, h)

-- Up to the first separator.
pub split-append :
    (s : ℕ) (sep xs rest : Bytes)
    → Without s xs
    → split (xs ++ ((s ∷ sep) ++ rest)) (s ∷ sep) ≡ (xs, rest)
unfolding split
split-append s sep [] rest h =
    rw (starts_with-append (s ∷ sep) rest) (ap (λ x. ([], x)) (drop-append_length (s ∷ sep) rest))
split-append s sep (c ∷ xs) rest h =
    rw (other_start s c h.0) (ap (λ x. (c ∷ x.0, x.1)) (split-append s sep xs rest h.1))

-- Without a separator.
pub split-Without : (s : ℕ) (sep xs : Bytes) → Without s xs → split xs (s ∷ sep) ≡ (xs, [])
unfolding split
split-Without s sep [] h = refl
split-Without s sep (c ∷ xs) h =
    rw (other_start s c h.0) (ap (λ x. (c ∷ x.0, x.1)) (split-Without s sep xs h.1))

-- A field that a line can hold.
pub record Field (key value : Bytes) : Type 0 where
  pub key_line : Without 13 key
  pub key_colon : Without 58 key
  pub value_line : Without 13 value
  pub key_trimmed : trim key ≡ key
  pub value_trimmed : trim value ≡ value

abbrev pub write_line : Bytes × Bytes → Bytes
write_line (key, value) = key ++ (58 ∷ 32 ∷ value)

-- The fields, each on a line of its own; nothing is behind the last.
abbrev pub write_lines : List (Bytes × Bytes) → Bytes
write_lines [] = []
write_lines (f ∷ []) = write_line f
write_lines (f ∷ g ∷ fs) = write_line f ++ (crlf ++ write_lines (g ∷ fs))

abbrev pub visit_fields : {A : Type 0} → (Bytes → Bytes → A → A) → List (Bytes × Bytes) → A → A
visit_fields cb [] a = a
visit_fields cb (f ∷ fs) a = visit_fields cb fs (cb f.0 f.1 a)

pub Without-append : (s : ℕ) (xs ys : Bytes) → Without s xs → Without s ys → Without s (xs ++ ys)
Without-append s [] ys h k = k
Without-append s (x ∷ xs) ys h k = (h.0, Without-append s xs ys h.1 k)

pub one_line : (key value : Bytes) → Field key value → Without 13 (write_line (key, value))
one_line key value f =
    Without-append 13 key (58 ∷ 32 ∷ value) f.key_line (omega arith, (omega arith, f.value_line))

module _ {A : Type 0} (cb : Bytes → Bytes → A → A) where
  parse_line :
      (rounds : ℕ) (key value text rest : Bytes) (a : A)
      → Field key value
      → split text crlf ≡ (write_line (key, value), rest)
      → 0 < length text
      → parse_lines cb (suc rounds) text a ≡ parse_lines cb rounds rest (cb key value a)
  unfolding parse_lines trim
  parse_line rounds key value [] rest a f e n = absurd (omega (arith, n))
  parse_line rounds key value (c ∷ text) rest a f e n =
      ap (λ x. let (k, v) = split x.0 colon in parse_lines cb rounds x.1 (cb (trim k) (trim v) a)) e
      ∙ ap (λ x. parse_lines cb rounds rest (cb (trim x.0) (trim x.1) a))
          (split-append 58 [] key (32 ∷ value) f.key_colon)
      ∙ ap₂ (λ k v. parse_lines cb rounds rest (cb k v a)) f.key_trimmed f.value_trimmed

  line_pos : (key value more : Bytes) → 2 ≤ length (write_line (key, value) ++ more)
  line_pos key value more =
      omega
        (arith, length-append (write_line (key, value)) more, length-append key (58 ∷ 32 ∷ value))

  read_lines :
      (rounds : ℕ) (fs : List (Bytes × Bytes)) (a : A)
      → All (λ f. Field f.0 f.1) fs
      → length (write_lines fs) ≤ rounds
      → parse_lines cb rounds (write_lines fs) a ≡ visit_fields cb fs a
  unfolding parse_lines
  read_lines zero [] a h n = refl
  read_lines (suc rounds) [] a h n = refl
  read_lines zero ((key, value) ∷ []) a h n =
      absurd (omega (arith, n, length-append key (58 ∷ 32 ∷ value)))
  read_lines (suc rounds) ((key, value) ∷ []) a h n =
      parse_line rounds key value _ [] a h.0 (split-Without 13 (10 ∷ []) _ (one_line key value h.0))
        (omega (arith, length-append key (58 ∷ 32 ∷ value)))
      ∙ read_lines rounds [] (cb key value a) tt (omega arith)
  read_lines zero ((key, value) ∷ g ∷ fs) a h n =
      absurd (omega (arith, n, line_pos key value (crlf ++ write_lines (g ∷ fs))))
  read_lines (suc rounds) ((key, value) ∷ g ∷ fs) a h n =
      let more = crlf ++ write_lines (g ∷ fs) in
      parse_line rounds key value _ (write_lines (g ∷ fs)) a h.0
        (split-append 13 (10 ∷ []) _ (write_lines (g ∷ fs)) (one_line key value h.0))
        (omega (arith, line_pos key value more))
      ∙ read_lines rounds (g ∷ fs) (cb key value a) h.1
          (omega (arith, n, length-append (write_line (key, value)) more))

  -- parse_http_header of a first line and fields, each written on a line of its own as key,
  -- colon, space and value, returns the first line and calls the callback once for each field,
  -- in order, with its key and value, if the texts have no carriage return, the keys no colon,
  -- and neither has white space at its ends.
  pub parse_http_header-write_lines :
      (first_line : Bytes) (fs : List (Bytes × Bytes)) (a : A)
      → Without 13 first_line
      → All (λ f. Field f.0 f.1) fs
      → parse_http_header cb (first_line ++ (crlf ++ write_lines fs)) a
        ≡ (first_line, visit_fields cb fs a)
  unfolding parse_http_header
  parse_http_header-write_lines first_line fs a w h =
      ap (λ x. (x.0, parse_lines cb (length x.1) x.1 a))
        (split-append 13 (10 ∷ []) first_line (write_lines fs) w)
      ∙ ap (λ x. (first_line, x)) (read_lines (length (write_lines fs)) fs a h (omega arith))

-- parse_http_request_line of a method, a path and a version with spaces between them returns
-- the three, if the method and the path have no space.
pub parse_http_request_line-append :
    (m p v : Bytes)
    → Without 32 m
    → Without 32 p
    → parse_http_request_line (m ++ (space ++ (p ++ (space ++ v))))
      ≡ record { method = m; path = p; version = v }
unfolding parse_http_request_line
parse_http_request_line-append m p v h k =
    ap
      (λ x.
        let (q, w) = split x.1 space in
        let line : HttpRequestLine = record { method = x.0; path = q; version = w } in line)
      (split-append 32 [] m (p ++ (space ++ v)) h)
    ∙ ap
        (λ x. let line : HttpRequestLine = record { method = m; path = x.0; version = x.1 } in line)
        (split-append 32 [] p v k)
