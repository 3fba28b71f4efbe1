-- ===== src/Prelude/Masks.antt =====
-- A mask of ones at the lower end of a number keeps a remainder.
use Prim.Native.Nat.{
  ℕ, zero, suc, ◌+◌, ◌-◌, ◌*◌, ◌/◌, ◌%◌, ◌^◌, ◌≤◌, ◌<◌, min, bit_and, bit_and-bitwise,
}
use mathlib.Core.Path.{◌≡◌, refl, sym, ap, ◌∙◌}
use native.Mathlib.Omega.{arith}
use native.Mathlib.Nat.{
  pow-suc, mod-eq_of_lt, add-mod_right, div-add-mod', mod-lt, mul_assoc, suc-mul,
}
use zerobus.Prelude.Bits.{join_digits, join_digits_step}

min_nothing : (d : ℕ) → min 0 d ≡ 0
min_nothing d = omega arith

-- The digits of a conjunction, from the halves of both numbers.
halve-bit_and : (a b : ℕ) → bit_and a b ≡ bit_and (a / 2) (b / 2) * 2 + min (a % 2) (b % 2)
halve-bit_and zero b =
    omega (arith, bit_and-bitwise 0 b, bit_and-bitwise 0 (b / 2), min_nothing (b % 2))
halve-bit_and (suc a) b =
    bit_and-bitwise (suc a) b
    ∙ join_digits_step (λ d. zero) min a b
    ∙ ap (λ d. d * 2 + min (suc a % 2) (b % 2)) (sym (bit_and-bitwise (suc a / 2) (b / 2)))

ones : (p : ℕ) → 1 ≤ p → ((p * 2 - 1) / 2 ≡ p - 1) × ((p * 2 - 1) % 2 ≡ 1)
ones p h = (omega arith, omega arith)

pow_pos : (k : ℕ) → 1 ≤ 2 ^ k
pow_pos zero = omega arith
pow_pos (suc k) = rw (pow-suc 2 k) (omega (arith, pow_pos k))

min_digit : (d : ℕ) → d < 2 → min d 1 ≡ d
min_digit zero h = refl
min_digit (suc zero) h = refl
min_digit (suc (suc d)) h = absurd (omega (arith, h))

nothing_joined : (n a : ℕ) → join_digits (λ d. zero) min n a 0 ≡ 0
nothing_joined zero a = refl
nothing_joined (suc n) zero = refl
nothing_joined (suc n) (suc a) = omega (arith, nothing_joined n (suc a / 2))

shift : (q m r : ℕ) → suc q * m + r ≡ q * m + r + m
shift q m r = rw (suc-mul q m) (omega arith)

multiple-mod : (q m r : ℕ) → r < m → (q * m + r) % m ≡ r
multiple-mod zero m r h = ap (λ x. x % m) (omega arith) ∙ mod-eq_of_lt h
multiple-mod (suc q) m r h =
    ap (λ x. x % m) (shift q m r) ∙ add-mod_right (q * m + r) m ∙ multiple-mod q m r h

regroup : (q p r d : ℕ) → (q * p + r) * 2 + d ≡ q * (p * 2) + (r * 2 + d)
regroup q p r d = rw (sym (mul_assoc q p 2)) (omega arith)

whole : (a x : ℕ) → x ≡ a / 2 → a ≡ x * 2 + a % 2
whole a x h = omega (arith, h)

below : (p r d : ℕ) → r < p → d < 2 → r * 2 + d < p * 2
below p r d h k = omega (arith, h, k)

-- The remainder by a double, from that of the half.
double-mod : (a p : ℕ) → 1 ≤ p → (a / 2) % p * 2 + a % 2 ≡ a % (p * 2)
double-mod a p h =
    let q = a / 2 / p in
    let r = a / 2 % p in
    let e : q * p + r ≡ a / 2 = div-add-mod' (a / 2) p in
    sym (
      ap (λ x. x % (p * 2)) (whole a (q * p + r) e ∙ regroup q p r (a % 2))
      ∙ multiple-mod q (p * 2) (r * 2 + a % 2) (below p r (a % 2) (mod-lt (a / 2) h) (omega arith)))

pub bit_and-ones : (k a : ℕ) → bit_and a (2 ^ k - 1) ≡ a % 2 ^ k
bit_and-ones zero a = bit_and-bitwise a 0 ∙ nothing_joined a a ∙ omega arith
bit_and-ones (suc k) a =
    let o = ones (2 ^ k) (pow_pos k) in
    rw (pow-suc 2 k) (
      halve-bit_and a (2 ^ k * 2 - 1)
      ∙ rw (o.0, o.1, bit_and-ones k (a / 2), min_digit (a % 2) (omega arith))
          (double-mod a (2 ^ k) (pow_pos k)))
