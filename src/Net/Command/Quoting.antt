-- ===== src/Net/Command/Quoting.antt =====
-- Arguments that were quoted are read back (src/zerobus/network_linux.cpp).
use zerobus.Prelude.{
  ℕ, suc, ◌+◌, ◌≡◌, refl, sym, ap, ◌∙◌, true, false, ◌||◌, List, [], ◌∷◌, ◌++◌, append_assoc,
  append-nil, arith, ◌==◌, if◌then◌else◌, length, length-append, drop, drop-append_length, map, All,
  Bool-cases, inl, inr,
}
use mathlib.Core.Path.{ap₂}
use zerobus.Wire.Uint.{Bytes}
use zerobus.Http.Header.{Without}
use zerobus.Net.Command.{
  CommandState, take_char, take_chars, parse_command_line, until_zero, read_arg, read_args,
}

-- A quote and a backslash get a backslash before them.
abbrev pub escape_char : ℕ → Bytes → Bytes
escape_char c rest = if c == 34 || c == 92 then 92 ∷ c ∷ rest else c ∷ rest

-- The word escaped, and then the rest.
unfoldable pub escape : Bytes → Bytes → Bytes
escape [] rest = rest
escape (c ∷ word) rest = escape_char c (escape word rest)

-- Each word in quotes, and a space behind it.
unfoldable pub quote_words : List Bytes → Bytes
quote_words [] = []
quote_words (w ∷ words) = 34 ∷ escape w (34 ∷ 32 ∷ quote_words words)

abbrev between : Bytes → List ℕ → CommandState
between written pointers = record {
  written = written;
  pointers = pointers;
  add_arg = true;
  spec = false;
  dbl = false;
  esc = false;
}

abbrev quoted : Bytes → List ℕ → CommandState
quoted written pointers = record {
  written = written;
  pointers = pointers;
  add_arg = false;
  spec = true;
  dbl = false;
  esc = false;
}

take_plain :
    (c : ℕ) (written : Bytes) (pointers : List ℕ)
    → (c == 34) ≡ false
    → (c == 92) ≡ false
    → take_char c (quoted written pointers) ≡ quoted (written ++ (c ∷ [])) pointers
unfolding take_char
take_plain c written pointers h k = rw (h, k) refl

take_escaped :
    (c : ℕ) (rest written : Bytes) (pointers : List ℕ)
    → take_chars (escape_char c rest) (quoted written pointers)
      ≡ take_chars rest (quoted (written ++ (c ∷ [])) pointers)
unfolding take_chars take_char
take_escaped c rest written pointers = elim (Bool-cases (c == 34 || c == 92)) [
  | inl e ↦ rw e refl
  | inr e ↦
      ap (λ b. take_chars (if b then 92 ∷ c ∷ rest else c ∷ rest) (quoted written pointers)) e
      ∙ ap (take_chars rest) (take_plain c written pointers (ground (arith, e)) (ground (arith, e)))
]

take_word :
    (word rest written : Bytes) (pointers : List ℕ)
    → take_chars (escape word rest) (quoted written pointers)
      ≡ take_chars rest (quoted (written ++ word) pointers)
unfolding escape
take_word [] rest written pointers =
    ap (λ w. take_chars rest (quoted w pointers)) (sym (append-nil written))
take_word (c ∷ word) rest written pointers =
    take_escaped c (escape word rest) written pointers
    ∙ take_word word rest (written ++ (c ∷ [])) pointers
    ∙ ap (λ w. take_chars rest (quoted w pointers)) (append_assoc written (c ∷ []) word)

-- What is written for the words, and where they begin.
abbrev blocks : List Bytes → Bytes
blocks [] = []
blocks (w ∷ words) = 0 ∷ (w ++ blocks words)

abbrev starts : ℕ → List Bytes → List ℕ
starts n [] = []
starts n (w ∷ words) = suc n ∷ starts (suc n + length w) words

take_words :
    (words : List Bytes) (written : Bytes) (n : ℕ) (pointers : List ℕ)
    → length written ≡ n
    → take_chars (quote_words words) (between written pointers)
      ≡ between (written ++ blocks words) (pointers ++ starts n words)
unfolding quote_words take_chars take_char
take_words [] written n pointers h =
    ap₂ between (sym (append-nil written)) (sym (append-nil pointers))
take_words (w ∷ words) written n pointers h =
    let more = (written ++ (0 ∷ [])) ++ w in
    let next = suc n + length w in
    let longer : length more ≡ next =
      length-append (written ++ (0 ∷ [])) w
      ∙ ap (λ m. m + length w) (length-append written (0 ∷ []))
      ∙ omega (arith, h) in
    take_word w (34 ∷ 32 ∷ quote_words words) (written ++ (0 ∷ []))
      (pointers ++ (suc (length written) ∷ []))
    ∙ take_words words more next (pointers ++ (suc (length written) ∷ [])) longer
    ∙ ap₂ between
        (append_assoc (written ++ (0 ∷ [])) w (blocks words)
          ∙ append_assoc written (0 ∷ []) (w ++ blocks words))
        (append_assoc pointers (suc (length written) ∷ []) (starts next words)
          ∙ ap (λ m. pointers ++ (suc m ∷ starts next words)) h)

until_zero-append : (w rest : Bytes) → Without 0 w → until_zero (w ++ (0 ∷ rest)) ≡ w
unfolding until_zero
until_zero-append [] rest h = refl
until_zero-append (c ∷ w) rest h =
    let other : (c == 0) ≡ false = ground (arith, h.0) in
    rw other (ap (◌∷◌ c) (until_zero-append w rest h.1))

until_zero-blocks :
    (w : Bytes) (words : List Bytes)
    → Without 0 w
    → until_zero (w ++ (blocks words ++ (0 ∷ []))) ≡ w
until_zero-blocks w [] h = until_zero-append w [] h
until_zero-blocks w (v ∷ words) h = until_zero-append w ((v ++ blocks words) ++ (0 ∷ [])) h

-- Each word is read where it begins.
read_blocks :
    (words : List Bytes) (before : Bytes) (n : ℕ)
    → All (Without 0) words
    → length before ≡ n
    → map (read_arg (before ++ (blocks words ++ (0 ∷ [])))) (starts n words) ≡ words
read_blocks [] before n a h = refl
read_blocks (w ∷ words) before n a h =
    let rest = blocks words ++ (0 ∷ []) in
    let first = before ++ (0 ∷ []) in
    let next = suc n + length w in
    let length_first : length first ≡ suc n = length-append before (0 ∷ []) ∙ omega (arith, h) in
    let longer : length (first ++ w) ≡ next =
      length-append first w ∙ ap (λ m. m + length w) length_first in
    let buffer : before ++ (blocks (w ∷ words) ++ (0 ∷ [])) ≡ first ++ (w ++ rest) =
      ap (λ x. before ++ (0 ∷ x)) (append_assoc w (blocks words) (0 ∷ []))
      ∙ sym (append_assoc before (0 ∷ []) (w ++ rest)) in
    ap (λ b. map (read_arg b) (starts n (w ∷ words))) buffer
    ∙ ap₂ (λ x y. x ∷ y)
        (ap (λ m. until_zero (drop m (first ++ (w ++ rest)))) (sym length_first)
          ∙ ap until_zero (drop-append_length first (w ++ rest))
          ∙ until_zero-blocks w words a.0)
        (ap (λ b. map (read_arg b) (starts next words)) (sym (append_assoc first w rest))
          ∙ read_blocks words (first ++ w) next a.1 longer)

-- The strings at the pointers that parse_command_line returns for words, each in quotes with a
-- backslash before every quote and backslash and with a space behind it, are the words, in
-- order, if none has a zero.
pub read_args-quote_words :
    (words : List Bytes)
    → All (Without 0) words
    → read_args (parse_command_line (quote_words words)) ≡ words
unfolding parse_command_line read_args
read_args-quote_words words a =
    ap (λ s. map (read_arg (s.written ++ (0 ∷ []))) s.pointers) (take_words words [] 0 [] refl)
    ∙ read_blocks words [] 0 a refl
