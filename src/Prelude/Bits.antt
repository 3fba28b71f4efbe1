-- ===== src/Prelude/Bits.antt =====
-- Laws of the bit operations at variables, from the digit recursion that they stand for.
use Prim.Native.Nat.{
  ℕ, zero, suc, ◌+◌, ◌*◌, ◌/◌, ◌%◌, ◌^◌, ◌≤◌, ◌<◌, max, bit_or, bit_xor, digits, differ,
  bit_or-bitwise, bit_xor-bitwise,
}
use mathlib.Core.Path.{◌≡◌, refl, ap, ◌∙◌}
use mathlib.Core.Bool.{Bool, true, ◌&&◌}
use native.Mathlib.Omega.{arith}
use native.Mathlib.Nat.{pow-suc}

unfoldable pub all_below : ℕ → (ℕ → Bool) → Bool
all_below zero test = true
all_below (suc k) test = test k && all_below k test

pub all_below_sound :
    (k : ℕ) (test : ℕ → Bool) (i : ℕ) → all_below k test ≡ true → i < k → test i ≡ true
unfolding all_below
all_below_sound zero test i h lt = absurd (omega (arith, lt))
all_below_sound (suc k) test i h lt = ground (arith, all_below_sound k test i)

-- The digits of two numbers joined by f. More rounds than there are digits change nothing.
abbrev pub join_digits : (ℕ → ℕ) → (ℕ → ℕ → ℕ) → ℕ → ℕ → ℕ → ℕ
join_digits z f n a b = digits z f n a b

join_digits_fuel :
    (z : ℕ → ℕ) (f : ℕ → ℕ → ℕ) (i j x y : ℕ)
    → x ≤ i
    → x ≤ j
    → join_digits z f i x y ≡ join_digits z f j x y
join_digits_fuel z f zero zero x y hi hj = refl
join_digits_fuel z f zero (suc j) zero y hi hj = refl
join_digits_fuel z f zero j (suc x) y hi hj = absurd (omega (arith, hi))
join_digits_fuel z f i zero (suc x) y hi hj = absurd (omega (arith, hj))
join_digits_fuel z f (suc i) zero zero y hi hj = refl
join_digits_fuel z f (suc i) (suc j) zero y hi hj = refl
join_digits_fuel z f (suc i) (suc j) (suc x) y hi hj =
    omega (arith, join_digits_fuel z f i j (suc x / 2) (y / 2) (omega arith) (omega arith))

-- The lowest digits come from one step, and the others from the halves.
pub join_digits_step :
    (z : ℕ → ℕ) (f : ℕ → ℕ → ℕ) (a b : ℕ)
    → join_digits z f (suc a) (suc a) b
      ≡ join_digits z f (suc a / 2) (suc a / 2) (b / 2) * 2 + f (suc a % 2) (b % 2)
join_digits_step z f a b =
    omega
      (arith, join_digits_fuel z f a (suc a / 2) (suc a / 2) (b / 2) (omega arith) (omega arith))

pub zero-bit_or : (b : ℕ) → bit_or 0 b ≡ b
zero-bit_or b = bit_or-bitwise 0 b

pub bit_or_step : (a b : ℕ) → bit_or a b ≡ bit_or (a / 2) (b / 2) * 2 + max (a % 2) (b % 2)
bit_or_step zero b = omega (arith, zero-bit_or b, zero-bit_or (b / 2))
bit_or_step (suc a) b = omega (
  arith,
  bit_or-bitwise (suc a) b,
  bit_or-bitwise (suc a / 2) (b / 2),
  join_digits_step (λ d. d) max a b,
)

bit_or-zero_fuel : (n a : ℕ) → a ≤ n → bit_or a 0 ≡ a
bit_or-zero_fuel n zero h = refl
bit_or-zero_fuel zero (suc a) h = absurd (omega arith)
bit_or-zero_fuel (suc n) (suc a) h =
    omega (arith, bit_or_step (suc a) 0, bit_or-zero_fuel n (suc a / 2) (omega arith))

pub bit_or-zero : (a : ℕ) → bit_or a 0 ≡ a
bit_or-zero a = bit_or-zero_fuel a a (omega arith)

half_double : (n : ℕ) → n * 2 / 2 ≡ n
half_double n = omega arith

half_lt : (c n : ℕ) → c < n * 2 → c / 2 < n
half_lt c n h = omega arith

-- Numbers whose digits do not overlap are joined by addition.
pub bit_or-pow : (k a c : ℕ) → c < 2 ^ k → bit_or (a * 2 ^ k) c ≡ a * 2 ^ k + c
bit_or-pow zero a zero h = bit_or-zero (a * 1) ∙ omega arith
bit_or-pow zero a (suc c) h = absurd (omega arith)
bit_or-pow (suc k) a c h =
    let e : a * 2 ^ suc k ≡ a * 2 ^ k * 2 = rw (pow-suc 2 k) (omega arith) in
    rw e (
      omega (
        arith,
        bit_or_step (a * 2 ^ k * 2) c,
        ap (λ (t : ℕ). bit_or t (c / 2) * 2) (half_double (a * 2 ^ k)),
        ap (λ (t : ℕ). t) (pow-suc 2 k),
        bit_or-pow k a (c / 2) (half_lt c (2 ^ k) (rw (pow-suc 2 k) at h)),
      ))

zero-bit_xor : (b : ℕ) → bit_xor 0 b ≡ b
zero-bit_xor b = bit_xor-bitwise 0 b

differ_zero : (d : ℕ) → differ 0 d ≡ d
differ_zero d = refl

bit_xor_step : (a b : ℕ) → bit_xor a b ≡ bit_xor (a / 2) (b / 2) * 2 + differ (a % 2) (b % 2)
bit_xor_step zero b = omega (arith, zero-bit_xor b, zero-bit_xor (b / 2), differ_zero (b % 2))
bit_xor_step (suc a) b = omega (
  arith,
  bit_xor-bitwise (suc a) b,
  bit_xor-bitwise (suc a / 2) (b / 2),
  join_digits_step (λ d. d) differ a b,
)

differ_lem : (x y : ℕ) → x < 2 → y < 2 → (differ x y < 2) × (differ (differ x y) y ≡ x)
differ_lem zero zero hx hy = (omega arith, refl)
differ_lem zero (suc zero) hx hy = (omega arith, refl)
differ_lem (suc zero) zero hx hy = (omega arith, refl)
differ_lem (suc zero) (suc zero) hx hy = (omega arith, refl)
differ_lem (suc (suc x)) y hx hy = absurd (omega (arith, hx))
differ_lem x (suc (suc y)) hx hy = absurd (omega (arith, hy))

halves : (q d : ℕ) → d < 2 → ((q * 2 + d) / 2 ≡ q) × ((q * 2 + d) % 2 ≡ d)
halves q d h = (omega arith, omega arith)

bit_xor_twice_below : (n a b : ℕ) → a ≤ n → b ≤ n → bit_xor (bit_xor a b) b ≡ a
bit_xor_twice_below zero zero zero ha hb = refl
bit_xor_twice_below zero (suc a) b ha hb = absurd (omega (arith, ha))
bit_xor_twice_below zero a (suc b) ha hb = absurd (omega (arith, hb))
bit_xor_twice_below (suc n) a b ha hb =
    let d = differ_lem (a % 2) (b % 2) (omega arith) (omega arith) in
    let h = halves (bit_xor (a / 2) (b / 2)) (differ (a % 2) (b % 2)) d.0 in
    bit_xor_step (bit_xor a b) b
    ∙ rw (bit_xor_step a b, h.0, h.1, d.1)
        (rw (bit_xor_twice_below n (a / 2) (b / 2) (omega arith) (omega arith)) (omega arith))

-- A mask that is applied twice is gone.
pub bit_xor_twice : (a b : ℕ) → bit_xor (bit_xor a b) b ≡ a
bit_xor_twice a b = bit_xor_twice_below (a + b) a b (omega arith) (omega arith)
