-- ===== src/Net/Command/Room.antt =====
-- The buffer of parse_command_line is large enough (src/zerobus/network_linux.cpp).
use zerobus.Prelude.{
  ℕ, suc, ◌+◌, ◌≤◌, ◌<◌, ◌≡◌, refl, sym, ap, ◌∙◌, Bool, true, false, List, [], ◌∷◌, ◌++◌, arith,
  ◌==◌, if◌then◌else◌, length, length-append, All, All-append,
}
use mathlib.Core.Path.{subst}
use zerobus.Wire.Uint.{Bytes}
use zerobus.Http.{isspace}
use zerobus.Net.Command.{
  CommandState, new_state, begin_arg, open_quote, take_char, take_chars, parse_command_line,
}

-- The byte that the begin of an argument takes.
abbrev waiting : Bool → ℕ
waiting true = 1
waiting false = 0

-- So many bytes have been read; the pointers are into what is written.
record Fits (n : ℕ) (s : CommandState) : Type 0 where
  room : length s.written + waiting s.add_arg ≤ suc n
  inside : All (λ p. p ≤ length s.written) s.pointers

All-weaken : (ps : List ℕ) (n m : ℕ) → n ≤ m → All (λ p. p ≤ n) ps → All (λ p. p ≤ m) ps
All-weaken [] n m l a = tt
All-weaken (p ∷ ps) n m l a = (let h : p ≤ n = a.0 in omega (arith, h, l), All-weaken ps n m l a.1)

either-Fits :
    (b : Bool) (n : ℕ) (s t : CommandState) → Fits n s → Fits n t → Fits n (if b then s else t)
either-Fits true n s t f g = f
either-Fits false n s t f g = g

-- A character is written.
put-Fits :
    (n c : ℕ) (s t : CommandState)
    → Fits n s
    → t.written ≡ s.written ++ (c ∷ [])
    → t.pointers ≡ s.pointers
    → t.add_arg ≡ s.add_arg
    → Fits (suc n) t
put-Fits n c s t f w p a =
    let longer : length t.written ≡ length s.written + 1 =
      ap length w ∙ length-append s.written (c ∷ []) in
    record {
      room = omega (arith, f.room, longer, ap waiting a);
      inside = subst (All (λ q. q ≤ length t.written)) (sym p) (
          All-weaken s.pointers (length s.written) (length t.written) (omega (arith, longer))
            f.inside);
    }

waiting_le : (b : Bool) → waiting b ≤ 1
waiting_le true = omega arith
waiting_le false = omega arith

-- Nothing is written.
skip-Fits :
    (n : ℕ) (s t : CommandState)
    → Fits n s
    → t.written ≡ s.written
    → t.pointers ≡ s.pointers
    → Fits (suc n) t
skip-Fits n s t f w p = record {
  room = omega (arith, f.room, ap length w, waiting_le t.add_arg);
  inside = subst (All (λ q. q ≤ length t.written)) (sym p) (
      All-weaken s.pointers (length s.written) (length t.written) (omega (arith, ap length w))
        f.inside);
}

abbrev begun : CommandState → CommandState
begun s = record s {
  written = s.written ++ (0 ∷ []);
  pointers = s.pointers ++ (suc (length s.written) ∷ []);
  add_arg = false;
  dbl = false;
}

begun-Fits : (n : ℕ) (b : Bool) (s : CommandState) → s.add_arg ≡ b → Fits n s → Fits n (begin_arg s)
begun-Fits n true s h f =
    let longer : length (s.written ++ (0 ∷ [])) ≡ length s.written + 1 =
      length-append s.written (0 ∷ []) in
    subst (Fits n) (sym (ap (λ b. if b then begun s else s) h)) (record {
      room = omega (arith, f.room, longer, ap waiting h);
      inside =
          All-append (λ q. q ≤ length (s.written ++ (0 ∷ []))) s.pointers _
            (All-weaken s.pointers (length s.written) _ (omega (arith, longer)) f.inside)
            (omega (arith, longer), tt);
    })
begun-Fits n false s h f = subst (Fits n) (sym (ap (λ b. if b then begun s else s) h)) f

quote-Fits :
    (n : ℕ) (b : Bool) (s : CommandState) → s.dbl ≡ b → Fits n s → Fits (suc n) (open_quote s)
quote-Fits n true s h f = rw h (put-Fits n 34 s _ f refl refl refl)
quote-Fits n false s h f = rw h (skip-Fits n s _ f refl refl)

take_char-Fits : (n c : ℕ) (s : CommandState) → Fits n s → Fits (suc n) (take_char c s)
unfolding take_char
take_char-Fits n c s f =
    let t = begin_arg s in
    let g = begun-Fits n s.add_arg s refl f in
    either-Fits s.esc (suc n) _ _ (put-Fits n c s _ f refl refl refl) (
      either-Fits (c == 92) (suc n) _ _ (skip-Fits n s _ f refl refl) (
        either-Fits s.spec (suc n) _ _
          (either-Fits (c == 34) (suc n) _ _ (skip-Fits n s _ f refl refl)
            (put-Fits n c s _ f refl refl refl))
          (either-Fits (isspace c) (suc n) _ _ (skip-Fits n s _ f refl refl) (
            either-Fits (c == 34) (suc n) _ _ (quote-Fits n t.dbl t refl g)
              (put-Fits n c t _ g refl refl refl)))))

take_chars-Fits :
    (text : Bytes) (n : ℕ) (s : CommandState)
    → Fits n s
    → Fits (length text + n) (take_chars text s)
unfolding take_chars
take_chars-Fits [] n s f = let same : n ≡ 0 + n = omega arith in subst (λ m. Fits m s) same f
take_chars-Fits (c ∷ text) n s f =
    let same : length text + suc n ≡ suc (length text) + n = omega arith in
    subst (λ m. Fits m (take_chars text (take_char c s))) same
      (take_chars-Fits text (suc n) (take_char c s) (take_char-Fits n c s f))

below :
    (ps : List ℕ) (n : ℕ) (buffer : Bytes)
    → suc n ≤ length buffer
    → All (λ p. p ≤ n) ps
    → All (λ p. p < length buffer) ps
below [] n buffer l a = tt
below (p ∷ ps) n buffer l a = (let h : p ≤ n = a.0 in omega (arith, h, l), below ps n buffer l a.1)

-- For every command line, parse_command_line writes no more than the two bytes more than the
-- line has that its buffer is given, and all pointers that it returns are to bytes that it has
-- written.
pub parse_command_line-inside :
    (cmdline : Bytes)
    → let (pointers, buffer) = parse_command_line cmdline in
      (length buffer ≤ length cmdline + 2) × All (λ p. p < length buffer) pointers
unfolding parse_command_line
parse_command_line-inside cmdline =
    let s = take_chars cmdline new_state in
    let f : Fits (length cmdline + 0) s =
      take_chars-Fits cmdline 0 new_state (record { room = omega arith; inside = tt }) in
    let longer : length (s.written ++ (0 ∷ [])) ≡ length s.written + 1 =
      length-append s.written (0 ∷ []) in
    (
      omega (arith, longer, f.room),
      below s.pointers (length s.written) (s.written ++ (0 ∷ [])) (omega (arith, longer)) f.inside,
    )
