-- ===== src/Pipe/Header.antt =====
-- The size in front of a message on a pipe, and that a part of a message is not taken for one.
use zerobus.Prelude.{
  ℕ, ◌+◌, ◌/◌, ◌^◌, ◌≤◌, ◌<◌, ◌≡◌, refl, ap, ◌∙◌, true, false, List, [], ◌∷◌, ◌++◌, arith, length,
  length-append, leb, append_assoc,
}
use zerobus.Prelude.Masks.{bit_and-ones}
use native.Mathlib.Decide.{dec_lt}
use zerobus.Wire.Uint.{Bytes, write_uint, can_read_uint}
use zerobus.Wire.Uint.RoundTrip.{write_uint_head}

can_read_uint_lem :
    (first : ℕ) (rest text : Bytes)
    → first / 32 ≡ length rest
    → length rest < 8
    → can_read_uint (first ∷ text) ≡ leb (length rest + 1) (length (first ∷ text))
unfolding can_read_uint
can_read_uint_lem first rest text e h =
    ap (λ (n : ℕ). leb (n + 1) (length (first ∷ text)))
      (bit_and-ones 3 (first / 32) ∙ omega (arith, e, h))

-- A list that begins another one at least as long as some prefix begins with that prefix.
pub split_prefix :
    {A : Type 0} (xs s t ys : List A)
    → s ++ t ≡ xs ++ ys
    → length xs ≤ length s
    → (r : List A) × (s ≡ xs ++ r) × (r ++ t ≡ ys)
split_prefix [] s t ys e h = (s, refl, e)
split_prefix (x ∷ xs) [] t ys e h = absurd (omega (arith, h))
split_prefix (x ∷ xs) (y ∷ s) t ys e h =
    let tails : s ++ t ≡ xs ++ ys = cc in
    let shorter : length xs ≤ length s = omega (arith, h) in
    let (r, p, q) = split_prefix xs s t ys tails shorter in
    let same : y ≡ x = cc in (r, rw (same, p) refl, q)

-- A size that is there with all its bytes is read.
pub can_read_uint-write_uint :
    (n : ℕ) (text : Bytes) → n < 2 ^ 61 → can_read_uint (write_uint n ++ text) ≡ true
can_read_uint-write_uint n text h =
    let (first, rest, e, c, l) = write_uint_head n h in
    rw e (can_read_uint_lem first rest (rest ++ text) c l ∙ ground (arith, length-append rest text))

-- What stands of a size and its text, while the text is not there as a whole.
pub data Partly (n : ℕ) (s : Bytes) : Type 0 where
  in_size : can_read_uint s ≡ false → Partly n s
  in_text : (text : Bytes) → s ≡ write_uint n ++ text → length text < n → Partly n s

pub partly :
    (str s t more : Bytes)
    → length str < 2 ^ 61
    → s ++ t ≡ (write_uint (length str) ++ str) ++ more
    → length s < length (write_uint (length str) ++ str)
    → Partly (length str) s
partly str [] t more h e l = Partly.in_size (unfold can_read_uint in refl)
partly str (c ∷ s) t more h e l =
    let n = length str in
    let (first, rest, w, k, b) = write_uint_head n h in
    elim (dec_lt (length s) (length rest)) [
      | yes p ↦ Partly.in_size (
          let begins : (c ∷ s) ++ t ≡ ((first ∷ rest) ++ str) ++ more =
            e ∙ ap (λ x. (x ++ str) ++ more) w in
          let same : c ≡ first = cc in
          rw same (can_read_uint_lem first rest s k b ∙ ground (arith, p)))
      | no p ↦
          let (r, d, q) =
            split_prefix (write_uint n) (c ∷ s) t (str ++ more)
              (e ∙ append_assoc (write_uint n) str more) (omega (arith, ap length w, p)) in
          Partly.in_text r d (
            omega (
              arith,
              ap length d,
              length-append (write_uint n) r,
              length-append (write_uint n) str,
              l,
            ))
    ]
