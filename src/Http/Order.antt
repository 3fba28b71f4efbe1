-- ===== src/Http/Order.antt =====
-- The order of strings iless of src/zerobus/http_utils.h and its equality icmp.
use zerobus.Prelude.{
  ℕ, ◌≡◌, refl, Bool, true, false, not, ◌&&◌, [], ◌∷◌, arith, ◌==◌, ltb, Bool-cases, inl, inr,
}
use zerobus.Wire.Uint.{Bytes}
use zerobus.Http.{icmp, iless, fast_tolower}

swap_equal : (u v : ℕ) (b : Bool) → (u == v) ≡ b → (v == u) ≡ b
swap_equal u v true h = ground (arith, h)
swap_equal u v false h = ground (arith, h)

one_less : (u v : ℕ) → (u == v) ≡ false → (not (ltb u v) && not (ltb v u)) ≡ false
one_less u v h = ground (arith, h)

-- Neither of two strings is less than the other by iless exactly if icmp finds them equal.
pub iless-icmp : (a b : Bytes) → (not (iless a b) && not (iless b a)) ≡ icmp a b
unfolding iless icmp
iless-icmp [] [] = refl
iless-icmp [] (y ∷ b) = refl
iless-icmp (x ∷ a) [] = refl
iless-icmp (x ∷ a) (y ∷ b) = elim (Bool-cases (fast_tolower x == fast_tolower y)) [
  | inl e ↦
      let back = swap_equal (fast_tolower x) (fast_tolower y) true e in
      rw e (rw back (iless-icmp a b))
  | inr e ↦
      let back = swap_equal (fast_tolower x) (fast_tolower y) false e in
      rw e (rw back (one_less (fast_tolower x) (fast_tolower y) e))
]
