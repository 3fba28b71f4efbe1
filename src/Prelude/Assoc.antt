-- ===== src/Prelude/Assoc.antt =====
-- A map as an association list with one entry for a key: find, emplace and erase of the
-- standard maps.
use mathlib.Core.Path.{◌≡◌, refl}
use mathlib.Core.Logic.{◌≢◌}
use mathlib.Core.List.{List, [], ◌∷◌}
use mathlib.Core.Option.{Option, none, some}
use native.Mathlib.Omega.{arith}
use zerobus.Prelude.Tests.{if◌then◌else◌}
use zerobus.Prelude.Keys.{Eq, ◌=?◌, =?_iff}

module _ {ℓ κ} {K : Type ℓ} {V : Type κ} ⦃e : Eq K⦄ where
  unfoldable pub lookup : K → List (K × V) → Option V
  lookup k [] = none
  lookup k ((j, v) ∷ m) = if j =? k then some v else lookup k m

  unfoldable pub erase : K → List (K × V) → List (K × V)
  erase k [] = []
  erase k ((j, v) ∷ m) = if j =? k then m else (j, v) ∷ erase k m

  abbrev pub emplace : K → V → List (K × V) → List (K × V)
  emplace k v m = (k, v) ∷ m

  -- No key stands twice.
  abbrev pub Fresh : K → List (K × V) → Type ℓ
  Fresh k [] = Unit
  Fresh k ((j, v) ∷ m) = (j ≢ k) × Fresh k m

  abbrev pub Distinct : List (K × V) → Type ℓ
  Distinct [] = Unit
  Distinct ((j, v) ∷ m) = Fresh j m × Distinct m

module _ {ℓ κ} {K : Type ℓ} {V : Type κ} ⦃e : Eq K⦄ where
  pub lookup-Fresh : (k : K) (m : List (K × V)) → Fresh k m → lookup k m ≡ none
  unfolding lookup
  lookup-Fresh k [] h = refl
  lookup-Fresh k ((j, v) ∷ m) h = ground (arith, =?_iff j k, lookup-Fresh k m h.1)

  pub Fresh-lookup : (k : K) (m : List (K × V)) → lookup k m ≡ none → Fresh k m
  unfolding lookup
  Fresh-lookup k [] h = tt
  Fresh-lookup k ((j, v) ∷ m) h = ground (arith, =?_iff j k, Fresh-lookup k m)

  pub Fresh-erase : (k j : K) (m : List (K × V)) → Fresh k m → Fresh k (erase j m)
  unfolding erase
  Fresh-erase k j [] h = tt
  Fresh-erase k j ((i, v) ∷ m) h = ground (arith, Fresh-erase k j m h.1)

  pub Distinct-erase : (k : K) (m : List (K × V)) → Distinct m → Distinct (erase k m)
  unfolding erase
  Distinct-erase k [] h = tt
  Distinct-erase k ((i, v) ∷ m) h = ground (arith, Distinct-erase k m h.1, Fresh-erase i k m h.0)

  pub lookup-erase :
      (j k : K) (m : List (K × V))
      → Distinct m
      → lookup j (erase k m) ≡ (if k =? j then none else lookup j m)
  unfolding lookup erase
  lookup-erase j k [] h = ground arith
  lookup-erase j k ((i, v) ∷ m) h =
      ground
        (arith, =?_iff i k, =?_iff i j, =?_iff k j, lookup-erase j k m h.1, lookup-Fresh i m h.0)

  pub erase_fresh : (k : K) (m : List (K × V)) → lookup k m ≡ none → erase k m ≡ m
  unfolding lookup erase
  erase_fresh k [] h = refl
  erase_fresh k ((j, v) ∷ m) h = ground (arith, erase_fresh k m)
