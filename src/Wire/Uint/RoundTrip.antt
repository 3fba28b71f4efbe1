-- ===== src/Wire/Uint/RoundTrip.antt =====
-- Reading back what write_uint and write_string wrote.
use zerobus.Prelude.{
  ℕ, zero, suc, ◌+◌, ◌*◌, ◌/◌, ◌%◌, ◌^◌, ◌≤◌, ◌<◌, bit_and, bit_or, ◌≡◌, refl, sym, ap, ◌∙◌, ◌++◌,
  ◌∷◌, append_assoc, arith, length, lt_wf, take-append_length, drop-append_length,
}
use zerobus.Prelude.Bits.{bit_or-pow}
use zerobus.Prelude.Masks.{bit_and-ones}
use zerobus.Wire.Uint.{
  Bytes, shrink, write_tail, write_uint, write_string, read_tail, read_uint, read_string,
}
use mathlib.Core.WellFounded.{Acc}
use mathlib.Core.Logic.{dif_pos, dif_neg}
use mathlib.Core.Path.{ap₂}
use native.Mathlib.Bridge.{le_prop}
use native.Mathlib.Decide.{dec_lt}
use native.Mathlib.Nat.{div-le_self}

-- `val >> 8 * (k + 1)` is `val >> 8 * k` shifted once more, for the eight counts that occur.
pub shift_step : (val k : ℕ) → k < 8 → val / 2 ^ (suc k * 8) ≡ val / 2 ^ (k * 8) / 256
shift_step val zero h = omega arith
shift_step val (suc zero) h = omega arith
shift_step val (suc (suc zero)) h = omega arith
shift_step val (suc (suc (suc zero))) h = omega arith
shift_step val (suc (suc (suc (suc zero)))) h = omega arith
shift_step val (suc (suc (suc (suc (suc zero))))) h = omega arith
shift_step val (suc (suc (suc (suc (suc (suc zero)))))) h = omega arith
shift_step val (suc (suc (suc (suc (suc (suc (suc zero))))))) h = omega arith
shift_step val (suc (suc (suc (suc (suc (suc (suc (suc k)))))))) h = absurd (omega arith)

-- What is left of a 61-bit number after seven shifts fits five bits.
shift_small : (val k : ℕ) → val < 2 ^ 61 → k < 8 → 0x1f < val / 2 ^ (k * 8) → k < 7
shift_small val k hv hk h = elim (dec_lt k 7) [
  | yes p ↦ p
  | no p ↦ let e : k ≡ 7 = omega arith in absurd (omega (arith, rw e at h))
]

-- The loop ends with the number shifted by as many bytes as it counted.
shrink_lem :
    (val tmp bytes : ℕ) (w : Acc ◌<◌ tmp)
    → val < 2 ^ 61
    → bytes < 8
    → tmp ≡ val / 2 ^ (bytes * 8)
    → let r = shrink tmp bytes w in (r.0 ≡ val / 2 ^ (r.1 * 8)) × (r.0 < 32) × (r.1 < 8)
unfolding shrink
shrink_lem val tmp bytes (Acc.intro _ smaller) hv hb e = elim (dec_lt 0x1f tmp) [
  | yes p ↦
      let small : bytes < 7 = shift_small val bytes hv hb (rw e at p) in
      rw (dif_pos (dec_lt 0x1f tmp) le_prop p) (
        shrink_lem val (tmp / 256) (suc bytes) (smaller (tmp / 256) _) hv (omega arith)
          (ap (λ (t : ℕ). t / 256) e ∙ sym (shift_step val bytes hb)))
  | no p ↦ rw (dif_neg (dec_lt 0x1f tmp) p) (e, omega arith, hb)
]

shifted-lt : (val k : ℕ) → val < 2 ^ 61 → val / 2 ^ k < 2 ^ 61
shifted-lt val k h = omega (arith, div-le_self val (2 ^ k))

-- One byte more below the part that is read.
join_byte : (a : ℕ) → a < 2 ^ 61 → bit_or (a / 256 * 256 % 2 ^ 64) (a % 256) ≡ a
join_byte a h =
    let e : a / 256 * 256 % 2 ^ 64 ≡ a / 256 * 256 = omega arith in
    rw e (bit_or-pow 8 (a / 256) (a % 256) (omega arith) ∙ omega arith)

read_tail-write_tail :
    (val k : ℕ) (rest : Bytes)
    → val < 2 ^ 61
    → k ≤ 8
    → read_tail k (val / 2 ^ (k * 8)) (write_tail val k ++ rest) ≡ (val, rest)
unfolding read_tail write_tail
read_tail-write_tail val zero rest hv hk = ap (λ (t : ℕ). (t, rest)) (omega arith)
read_tail-write_tail val (suc k) rest hv hk =
    rw (shift_step val k (omega arith), join_byte _ (shifted-lt val (k * 8) hv))
      (read_tail-write_tail val k rest hv (omega arith))

-- The first byte holds the count above and the leading five bits below.
first_byte :
    (tmp bytes : ℕ)
    → tmp < 32
    → bytes < 8
    → let c = bit_or (bytes * 32) tmp % 256 in (c / 32 ≡ bytes) × (bit_and c 0x1f ≡ tmp)
first_byte tmp bytes ht hb =
    rw (bit_or-pow 5 bytes tmp ht) (omega arith, bit_and-ones 5 _ ∙ omega arith)

length-write_tail : (val k : ℕ) → length (write_tail val k) ≡ k
unfolding write_tail
length-write_tail val zero = refl
length-write_tail val (suc k) = ap suc (length-write_tail val k)

-- A number below 2 ^ 61 is one byte, which holds the count of the bytes behind it, and those.
pub write_uint_head :
    (val : ℕ)
    → val < 2 ^ 61
    → (first : ℕ) × (rest : Bytes) × (write_uint val ≡ first ∷ rest)
      × (first / 32 ≡ length rest)
      × (length rest < 8)
unfolding write_uint
write_uint_head val hv =
    let (tmp, bytes) = shrink val 0 (lt_wf.apply val) in
    let s = shrink_lem val val 0 (lt_wf.apply val) hv (omega arith) (omega arith) in
    let f = first_byte tmp bytes s.1 s.2 in
    let e = length-write_tail val bytes in
    (bit_or (bytes * 32) tmp % 256, write_tail val bytes, refl, f.0 ∙ sym e, omega (arith, e, s.2))

-- read_uint gives back a number below 2 ^ 61 that write_uint wrote, and leaves what follows it
-- in place.
pub read_uint-write_uint :
    (val : ℕ) (rest : Bytes) → val < 2 ^ 61 → read_uint (write_uint val ++ rest) ≡ (val, rest)
unfolding read_uint write_uint
read_uint-write_uint val rest hv =
    let s = shrink_lem val val 0 (lt_wf.apply val) hv (omega arith) (omega arith) in
    let f = first_byte _ _ s.1 s.2 in
    rw (f.0, f.1, s.0) (read_tail-write_tail val _ rest hv (omega (arith, s.2)))

-- read_string gives back a string of less than 2 ^ 61 bytes that write_string wrote, and leaves
-- what follows it in place.
pub read_string-write_string :
    (str rest : Bytes) → length str < 2 ^ 61 → read_string (write_string str ++ rest) ≡ (str, rest)
unfolding read_string write_string
read_string-write_string str rest h = rw (
  append_assoc,
  read_uint-write_uint (length str) (str ++ rest) h,
  take-append_length str rest,
  drop-append_length str rest,
)

shift_large : (val k : ℕ) → k < 8 → 2 ^ 61 ≤ val → 0x1f < val / 2 ^ (k * 8)
shift_large val zero h lo = omega arith
shift_large val (suc zero) h lo = omega arith
shift_large val (suc (suc zero)) h lo = omega arith
shift_large val (suc (suc (suc zero))) h lo = omega arith
shift_large val (suc (suc (suc (suc zero)))) h lo = omega arith
shift_large val (suc (suc (suc (suc (suc zero))))) h lo = omega arith
shift_large val (suc (suc (suc (suc (suc (suc zero)))))) h lo = omega arith
shift_large val (suc (suc (suc (suc (suc (suc (suc zero))))))) h lo = omega arith
shift_large val (suc (suc (suc (suc (suc (suc (suc (suc k)))))))) h lo = absurd (omega arith)

-- From 2 ^ 61 on eight bytes follow, and the count does not fit the three bits it has.
shrink_large :
    (val k tmp bytes : ℕ) (w : Acc ◌<◌ tmp)
    → 2 ^ 61 ≤ val
    → val < 2 ^ 64
    → bytes + k ≡ 8
    → tmp ≡ val / 2 ^ (bytes * 8)
    → shrink tmp bytes w ≡ (0, 8)
unfolding shrink
shrink_large val zero tmp bytes (Acc.intro _ smaller) lo hi hb e =
    let hbytes : bytes ≡ 8 = omega arith in
    let none_left : tmp ≡ 0 = omega (arith, rw hbytes at e) in
    rw (dif_neg (dec_lt 0x1f tmp) (λ p. omega arith)) (ap₂ (λ (a b : ℕ). (a, b)) none_left hbytes)
shrink_large val (suc k) tmp bytes (Acc.intro _ smaller) lo hi hb e =
    let more : 0x1f < tmp = rw e (shift_large val bytes (omega arith) lo) in
    rw (dif_pos (dec_lt 0x1f tmp) le_prop more) (
      shrink_large val k (tmp / 256) (suc bytes) (smaller (tmp / 256) _) lo hi (omega arith)
        (ap (λ (t : ℕ). t / 256) e ∙ sym (shift_step val bytes (omega arith))))

-- A number from 2 ^ 61 to below 2 ^ 64 that write_uint wrote is read back as 0, and its eight
-- lower bytes are left in front of what follows.
pub read_uint-write_uint_large :
    (val : ℕ) (rest : Bytes)
    → 2 ^ 61 ≤ val
    → val < 2 ^ 64
    → read_uint (write_uint val ++ rest) ≡ (0, write_tail val 8 ++ rest)
unfolding read_uint write_uint
read_uint-write_uint_large val rest lo hi =
    rw (shrink_large val 8 val 0 (lt_wf.apply val) lo hi refl (omega arith))
      (unfold read_tail in refl)
