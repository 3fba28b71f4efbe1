-- ===== src/Http/EmptyLine.antt =====
-- Where a header that was written line by line ends: `find("\r\n\r\n")` in
-- src/zerobus/bridge_tcp_client.cpp and src/zerobus/bridge_tcp_server.cpp.
use zerobus.Prelude.{
  Bool, true, false, ◌||◌, ℕ, ◌≡◌, ◌≢◌, refl, sym, ap, ◌∙◌, List, [], ◌∷◌, ◌++◌, append_assoc,
  arith, All,
}
use zerobus.Wire.Uint.{Bytes}
use zerobus.Http.{starts_with, split, crlf}
use zerobus.Http.Header.{
  starts_with-append, Without, split-append, Field, write_line, write_lines, one_line, other_start,
}

abbrev pub empty_line : Bytes
empty_line = crlf ++ crlf

-- Whether find of the separator succeeds.
unfoldable pub has_text : Bytes → Bytes → Bool
has_text sep [] = starts_with sep []
has_text sep (c ∷ text) = starts_with sep (c ∷ text) || has_text sep text

-- A line break that is not followed by another is passed over.
split_more :
    (xs : Bytes) (c : ℕ) (rest : Bytes)
    → Without 13 xs
    → c ≢ 13
    → split (xs ++ (crlf ++ (c ∷ rest))) empty_line
      ≡ (xs ++ (crlf ++ (split (c ∷ rest) empty_line).0), (split (c ∷ rest) empty_line).1)
unfolding split
split_more [] c rest h k = rw (other_start 13 c k) refl
split_more (x ∷ xs) c rest h k =
    rw (other_start 13 x h.0) (ap (λ s. (x ∷ s.0, s.1)) (split_more xs c rest h.1 k))

-- The first character of a line.
record First (text : Bytes) : Type 0 where
  head : ℕ
  tail : Bytes
  same : text ≡ head ∷ tail
  no_break : head ≢ 13

first_line :
    (f : Bytes × Bytes) (fs : List (Bytes × Bytes)) (more : Bytes)
    → Field f.0 f.1
    → First (write_lines (f ∷ fs) ++ more)
first_line ([], value) [] more f = record {
  head = 58;
  tail = 32 ∷ value ++ more;
  same = refl;
  no_break = omega arith;
}
first_line (k ∷ key, value) [] more f = record {
  head = k;
  tail = (key ++ (58 ∷ 32 ∷ value)) ++ more;
  same = refl;
  no_break = f.key_line.0;
}
first_line ([], value) (g ∷ fs) more f = record {
  head = 58;
  tail = (32 ∷ value ++ (crlf ++ write_lines (g ∷ fs))) ++ more;
  same = refl;
  no_break = omega arith;
}
first_line (k ∷ key, value) (g ∷ fs) more f = record {
  head = k;
  tail = ((key ++ (58 ∷ 32 ∷ value)) ++ (crlf ++ write_lines (g ∷ fs))) ++ more;
  same = refl;
  no_break = f.key_line.0;
}

split_line :
    (line text : Bytes)
    → Without 13 line
    → First text
    → split (line ++ (crlf ++ text)) empty_line
      ≡ (line ++ (crlf ++ (split text empty_line).0), (split text empty_line).1)
split_line line text h f =
    ap (λ x. split (line ++ (crlf ++ x)) empty_line) f.same
    ∙ split_more line f.head f.tail h f.no_break
    ∙ sym (ap (λ x. (line ++ (crlf ++ (split x empty_line).0), (split x empty_line).1)) f.same)

split_lines :
    (f : Bytes × Bytes) (fs : List (Bytes × Bytes)) (rest : Bytes)
    → All (λ g. Field g.0 g.1) (f ∷ fs)
    → split (write_lines (f ∷ fs) ++ (empty_line ++ rest)) empty_line ≡ (write_lines (f ∷ fs), rest)
split_lines (key, value) [] rest h =
    split-append 13 (10 ∷ 13 ∷ 10 ∷ []) (write_line (key, value)) rest (one_line key value h.0)
split_lines (key, value) (g ∷ fs) rest h =
    let line = write_line (key, value) in
    let text = write_lines (g ∷ fs) ++ (empty_line ++ rest) in
    ap (λ x. split x empty_line)
      (append_assoc line (crlf ++ write_lines (g ∷ fs)) (empty_line ++ rest))
    ∙ split_line line text (one_line key value h.0) (first_line g fs (empty_line ++ rest) h.1.0)
    ∙ ap (λ x. (line ++ (crlf ++ x.0), x.1)) (split_lines g fs rest h.1)

-- A first line and fields, each on a line of its own, end at the empty line behind them.
pub split_header :
    (line : Bytes) (f : Bytes × Bytes) (fs : List (Bytes × Bytes)) (rest : Bytes)
    → Without 13 line
    → All (λ g. Field g.0 g.1) (f ∷ fs)
    → split (line ++ (crlf ++ (write_lines (f ∷ fs) ++ (empty_line ++ rest)))) empty_line
      ≡ (line ++ (crlf ++ write_lines (f ∷ fs)), rest)
split_header line f fs rest w h =
    split_line line (write_lines (f ∷ fs) ++ (empty_line ++ rest)) w
      (first_line f fs (empty_line ++ rest) h.0)
    ∙ ap (λ x. (line ++ (crlf ++ x.0), x.1)) (split_lines f fs rest h)

or_true : (b : Bool) → (b || true) ≡ true
or_true true = refl
or_true false = refl

-- The text is found where it was put.
pub has_text-append :
    (s : ℕ) (sep text rest : Bytes) → has_text (s ∷ sep) (text ++ ((s ∷ sep) ++ rest)) ≡ true
unfolding has_text
has_text-append s sep [] rest =
    ap (λ b. b || has_text (s ∷ sep) (sep ++ rest)) (starts_with-append (s ∷ sep) rest)
has_text-append s sep (c ∷ text) rest =
    let at_start = starts_with (s ∷ sep) (c ∷ (text ++ ((s ∷ sep) ++ rest))) in
    ap (λ b. at_start || b) (has_text-append s sep text rest) ∙ or_true at_start
