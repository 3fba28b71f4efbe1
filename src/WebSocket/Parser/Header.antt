-- ===== src/WebSocket/Parser/Header.antt =====
-- The parser over the first bytes of a frame: the flags, the opcode and the length.
use zerobus.Prelude.{
  ℕ, zero, suc, ◌+◌, ◌*◌, ◌/◌, ◌%◌, ◌^◌, ◌<◌, ◌≡◌, refl, sym, ap, ◌∙◌, bit_and, bit_or, Bool, true,
  false, not, ◌&&◌, List, ◌∷◌, ◌++◌, arith, ◌==◌, ==_iff, if◌then◌else◌, ltb, inl, inr, Bool-cases,
}
use mathlib.Core.Logic.{◌⊎◌}
use mathlib.Core.Path.{ap₂}
use zerobus.Prelude.Bits.{all_below, all_below_sound}
use zerobus.Wire.Uint.{write_tail}
use zerobus.Wire.Uint.RoundTrip.{shift_step}
use zerobus.WebSocket.Parser.{Parser, State, push_data, step, enter_payload, second}
use zerobus.WebSocket.Parser.Payload.{push_step, go_on, headed}
use zerobus.WebSocket.Builder.{first_byte_of, mask_bit, length_bytes}

same_bit : Bool → Bool → Bool
same_bit true b = b
same_bit false b = not b

same_bit_sound : (a b : Bool) → same_bit a b ≡ true → b ≡ a
unfolding same_bit
same_bit_sound true true e = refl
same_bit_sound true false e = e
same_bit_sound false true e = sym e
same_bit_sound false false e = refl

opcode_test : Bool → ℕ → Bool
opcode_test fin op =
    let c = first_byte_of fin op in
    same_bit fin (not (bit_and c 0x80 == 0)) && (bit_and c 0xF == op)

opcode_table : (fin : Bool) → all_below 16 (opcode_test fin) ≡ true
unfolding all_below opcode_test first_byte_of same_bit
opcode_table true = refl
opcode_table false = refl

both : (a b : Bool) → (a && b) ≡ true → (a ≡ true) × (b ≡ true)
both a b e = ground arith

-- The flag and the opcode are in the first byte.
pub opcode_lem :
    (fin : Bool) (op : ℕ)
    → op < 16
    → let c = first_byte_of fin op in (not (bit_and c 0x80 == 0) ≡ fin) × (bit_and c 0xF ≡ op)
unfolding opcode_test
opcode_lem fin op h =
    let r = both _ _ (all_below_sound 16 (opcode_test fin) op (opcode_table fin) h) in
    (same_bit_sound fin _ r.0, (==_iff _ op).0 r.1)

length_test : Bool → ℕ → Bool
length_test masked len =
    let c = bit_or (mask_bit masked) len in
    same_bit masked (not (bit_and c 0x80 == 0)) && (bit_and c 0x7F == len)

length_table : (masked : Bool) → all_below 128 (length_test masked) ≡ true
unfolding all_below length_test same_bit
length_table true = refl
length_table false = refl

length_lem :
    (masked : Bool) (len : ℕ)
    → len < 128
    → let c = bit_or (mask_bit masked) len in
      (not (bit_and c 0x80 == 0) ≡ masked) × (bit_and c 0x7F ≡ len)
unfolding length_test
length_lem masked len h =
    let r = both _ _ (all_below_sound 128 (length_test masked) len (length_table masked) h) in
    (same_bit_sound masked _ r.0, (==_iff _ len).0 r.1)

shift_below : (val k : ℕ) → val < 2 ^ 64 → k < 8 → val / 2 ^ (k * 8) < 2 ^ 64
shift_below val zero h hk = omega arith
shift_below val (suc zero) h hk = omega arith
shift_below val (suc (suc zero)) h hk = omega arith
shift_below val (suc (suc (suc zero))) h hk = omega arith
shift_below val (suc (suc (suc (suc zero)))) h hk = omega arith
shift_below val (suc (suc (suc (suc (suc zero))))) h hk = omega arith
shift_below val (suc (suc (suc (suc (suc (suc zero)))))) h hk = omega arith
shift_below val (suc (suc (suc (suc (suc (suc (suc zero))))))) h hk = omega arith
shift_below val (suc (suc (suc (suc (suc (suc (suc (suc k)))))))) h hk = absurd (omega (arith, hk))

-- A byte more of the length.
append_byte : (a : ℕ) → a < 2 ^ 64 → (a / 256 * 256 % 2 ^ 64 + a % 256) % 2 ^ 64 ≡ a
append_byte a h = omega arith

next_length :
    (len k : ℕ)
    → len < 2 ^ 64
    → k < 8
    → (len / 2 ^ (suc k * 8) * 256 % 2 ^ 64 + len / 2 ^ (k * 8) % 256) % 2 ^ 64 ≡ len / 2 ^ (k * 8)
next_length len k h hk =
    rw (shift_step len k hk) (append_byte (len / 2 ^ (k * 8)) (shift_below len k h hk))

module _ (p : Parser) (fin : Bool) (type : ℕ) where
  -- The parser behind a length that has bytes of its own.
  abbrev pub lengthed : Bool → ℕ → Bool × Parser
  lengthed masked len =
      if masked
      then (false, headed p len 4 fin type State.masking masked)
      else enter_payload len (headed p len 0 fin type State.payload_len masked)

  length_run :
      (masked : Bool) (len k : ℕ) (rest : List ℕ)
      → len < 2 ^ 64
      → k < 8
      → push_data
          (headed p (len / 2 ^ (suc k * 8)) (suc k) fin type State.payload_len masked)
          (write_tail len (suc k) ++ rest)
        ≡ go_on rest (lengthed masked len)
  unfolding write_tail
  length_run masked len zero rest h hk =
      push_step (headed p (len / 2 ^ (1 * 8)) 1 fin type State.payload_len masked)
        (len / 2 ^ (0 * 8) % 256) rest refl
      ∙ ap (λ v. go_on rest (lengthed masked v)) (next_length len 0 h hk ∙ omega arith)
  length_run masked len (suc k) rest h hk =
      push_step
        (headed p (len / 2 ^ (suc (suc k) * 8)) (suc (suc k)) fin type State.payload_len masked)
        (len / 2 ^ (suc k * 8) % 256) (write_tail len (suc k) ++ rest) refl
      ∙ ap
          (λ v.
            push_data (headed p v (suc k) fin type State.payload_len masked)
              (write_tail len (suc k) ++ rest))
          (next_length len (suc k) h hk)
      ∙ length_run masked len k rest h (omega arith)

  abbrev at_length : Parser
  at_length = headed p 0 0 fin type State.second_byte false

  -- The parser behind a length that fits the second byte.
  abbrev pub short_lengthed : Bool → ℕ → Bool × Parser
  short_lengthed masked len =
      if masked
      then (false, headed p len 4 fin type State.masking masked)
      else enter_payload len (headed p 0 0 fin type State.second_byte masked)

  second_short :
      (masked : Bool) (len : ℕ)
      → len < 126
      → second len (headed p 0 0 fin type State.second_byte masked) ≡ short_lengthed masked len
  second_short masked len h = ground arith

  short_length :
      (masked : Bool) (len : ℕ) (rest : List ℕ)
      → len < 126
      → push_data at_length (bit_or (mask_bit masked) len ∷ rest)
        ≡ go_on rest (short_lengthed masked len)
  short_length masked len rest h =
      let r = length_lem masked len (omega arith) in
      push_step at_length (bit_or (mask_bit masked) len) rest refl
      ∙ ap₂ (λ m v. go_on rest (second v (headed p 0 0 fin type State.second_byte m))) r.0 r.1
      ∙ ap (go_on rest) (second_short masked len h)

  second_126 :
      (masked : Bool)
      → step (bit_or (mask_bit masked) 126) at_length
        ≡ (false, headed p 0 2 fin type State.payload_len masked)
  second_126 true = refl
  second_126 false = refl

  second_127 :
      (masked : Bool)
      → step (bit_or (mask_bit masked) 127) at_length
        ≡ (false, headed p 0 8 fin type State.payload_len masked)
  second_127 true = refl
  second_127 false = refl

  two_bytes :
      (masked : Bool) (len : ℕ) (rest : List ℕ)
      → len < 65536
      → push_data at_length (bit_or (mask_bit masked) 126 ∷ write_tail len 2 ++ rest)
        ≡ go_on rest (lengthed masked len)
  two_bytes masked len rest h =
      push_step at_length (bit_or (mask_bit masked) 126) (write_tail len 2 ++ rest) refl
      ∙ ap (go_on (write_tail len 2 ++ rest)) (second_126 masked)
      ∙ ap
          (λ v.
            push_data (headed p v 2 fin type State.payload_len masked) (write_tail len 2 ++ rest))
          (let e : 0 ≡ len / 2 ^ (2 * 8) = omega arith in e)
      ∙ length_run masked len 1 rest (omega arith) (omega arith)

  eight_bytes :
      (masked : Bool) (len : ℕ) (rest : List ℕ)
      → len < 2 ^ 64
      → push_data at_length (bit_or (mask_bit masked) 127 ∷ write_tail len 8 ++ rest)
        ≡ go_on rest (lengthed masked len)
  eight_bytes masked len rest h =
      push_step at_length (bit_or (mask_bit masked) 127) (write_tail len 8 ++ rest) refl
      ∙ ap (go_on (write_tail len 8 ++ rest)) (second_127 masked)
      ∙ ap
          (λ v.
            push_data (headed p v 8 fin type State.payload_len masked) (write_tail len 8 ++ rest))
          (let e : 0 ≡ len / 2 ^ (8 * 8) = omega arith in e)
      ∙ length_run masked len 7 rest h (omega arith)

  -- The length that Builder writes: the parser comes to it in one of two ways.
  pub any_length :
      (masked : Bool) (len : ℕ) (rest : List ℕ)
      → len < 2 ^ 64
      → (push_data at_length (length_bytes (mask_bit masked) len ++ rest)
          ≡ go_on rest (short_lengthed masked len))
        ⊎ (push_data at_length (length_bytes (mask_bit masked) len ++ rest)
            ≡ go_on rest (lengthed masked len))
  unfolding length_bytes write_tail
  any_length masked len rest h = elim (Bool-cases (ltb len 126)) [
    | inl e ↦ inl (rw e (short_length masked len rest (ground arith)))
    | inr e ↦ elim (Bool-cases (ltb len 65536)) [
      | inl e2 ↦ inr (
          rw (e, e2)
            (ap
                (λ v.
                  push_data at_length
                    (bit_or (mask_bit masked) 126 ∷ (len / 2 ^ 8 % 256) ∷ v ∷ rest))
                (let z : len % 256 ≡ len / 2 ^ (0 * 8) % 256 = omega arith in z)
              ∙ two_bytes masked len rest (ground arith)))
      | inr e2 ↦ inr (
          rw (e, e2)
            (ap
                (λ v. push_data at_length (
                  bit_or (mask_bit masked) 127
                  ∷ (len / 2 ^ 56 % 256)
                  ∷ (len / 2 ^ 48 % 256)
                  ∷ (len / 2 ^ 40 % 256)
                  ∷ (len / 2 ^ 32 % 256)
                  ∷ (len / 2 ^ 24 % 256)
                  ∷ (len / 2 ^ 16 % 256)
                  ∷ (len / 2 ^ 8 % 256)
                  ∷ v
                  ∷ rest))
                (let z : len % 256 ≡ len / 2 ^ (0 * 8) % 256 = omega arith in z)
              ∙ eight_bytes masked len rest h))
    ]
  ]
