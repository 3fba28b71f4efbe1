-- ===== src/Prelude/Keys.antt =====
-- Equality tests as an interface, with the two kinds of key that the program's maps have: a
-- pointer, which is a number, and a string_view, which is the list of its bytes.
use Prim.Native.Nat.{ℕ}
use mathlib.Core.Path.{◌≡◌, refl}
use mathlib.Core.Logic.{◌↔◌}
use mathlib.Core.Bool.{Bool, true, false, ◌&&◌}
use mathlib.Core.List.{List, [], ◌∷◌}
use native.Mathlib.Omega.{arith}
use zerobus.Prelude.Tests.{◌==◌, ==_iff, ltb, if◌then◌else◌}

pub record Eq {ℓ} (A : Type ℓ) : Type ℓ where
  pub eqb : A → A → Bool
  pub eqb_iff : (a b : A) → (eqb a b ≡ true) ↔ (a ≡ b)

infix 50 ◌=?◌
abbrev pub ◌=?◌ {ℓ} : {A : Type ℓ} ⦃e : Eq A⦄ → A → A → Bool
◌=?◌ ⦃e⦄ = e.eqb

pub =?_iff {ℓ} : {A : Type ℓ} ⦃e : Eq A⦄ → (a b : A) → ((a =? b) ≡ true) ↔ (a ≡ b)
=?_iff ⦃e⦄ = e.eqb_iff

pub =?_self {ℓ} : {A : Type ℓ} ⦃e : Eq A⦄ → (a : A) → (a =? a) ≡ true
=?_self ⦃e⦄ a = (e.eqb_iff a a).1 refl

abbrev nat_eqb : ℕ → ℕ → Bool
nat_eqb a b = a == b

abbrev pub bytes_eqb : List ℕ → List ℕ → Bool
bytes_eqb [] [] = true
bytes_eqb [] (y ∷ ys) = false
bytes_eqb (x ∷ xs) [] = false
bytes_eqb (x ∷ xs) (y ∷ ys) = (x == y) && bytes_eqb xs ys

pub bytes_eqb_iff : (xs ys : List ℕ) → (bytes_eqb xs ys ≡ true) ↔ (xs ≡ ys)
bytes_eqb_iff [] [] = (λ _. refl, λ _. refl)
bytes_eqb_iff [] (y ∷ ys) = (λ e. cc, λ e. cc)
bytes_eqb_iff (x ∷ xs) [] = (λ e. cc, λ e. cc)
bytes_eqb_iff (x ∷ xs) (y ∷ ys) =
    (λ e. ground (arith, bytes_eqb_iff xs ys), λ e. ground (arith, bytes_eqb_iff xs ys))

instance abbrev pub nat_eq : Eq ℕ
nat_eq = record { eqb = nat_eqb; eqb_iff = ==_iff }

instance abbrev pub bytes_eq : Eq (List ℕ)
bytes_eq = record { eqb = bytes_eqb; eqb_iff = bytes_eqb_iff }

-- std::less of two string_views: byte by byte, and a prefix is smaller.
pub bytes_ltb : List ℕ → List ℕ → Bool
bytes_ltb xs [] = false
bytes_ltb [] (y ∷ ys) = true
bytes_ltb (x ∷ xs) (y ∷ ys) =
    let rest = bytes_ltb xs ys in if ltb x y then true else if ltb y x then false else rest

pub bytes_ltb_irrefl : (xs : List ℕ) → bytes_ltb xs xs ≡ false
unfolding bytes_ltb
bytes_ltb_irrefl [] = refl
bytes_ltb_irrefl (x ∷ xs) = ground (arith, bytes_ltb_irrefl xs)

pub bytes_ltb_trans :
    (xs ys zs : List ℕ) → bytes_ltb xs ys ≡ true → bytes_ltb ys zs ≡ true → bytes_ltb xs zs ≡ true
unfolding bytes_ltb
bytes_ltb_trans xs [] zs h k = cc
bytes_ltb_trans [] (y ∷ ys) [] h k = cc
bytes_ltb_trans [] (y ∷ ys) (z ∷ zs) h k = refl
bytes_ltb_trans (x ∷ xs) (y ∷ ys) [] h k = cc
bytes_ltb_trans (x ∷ xs) (y ∷ ys) (z ∷ zs) h k = ground (arith, bytes_ltb_trans xs ys zs)

-- Two names that are not ordered either way are one name.
pub bytes_ltb_total : (xs ys : List ℕ) → bytes_ltb xs ys ≡ false → bytes_ltb ys xs ≡ false → xs ≡ ys
unfolding bytes_ltb
bytes_ltb_total [] [] h k = refl
bytes_ltb_total [] (y ∷ ys) h k = cc
bytes_ltb_total (x ∷ xs) [] h k = cc
bytes_ltb_total (x ∷ xs) (y ∷ ys) h k = ground (arith, bytes_ltb_total xs ys)
