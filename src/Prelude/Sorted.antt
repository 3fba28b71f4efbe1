-- ===== src/Prelude/Sorted.antt =====
-- std::map with string_view keys: an association list in the order of std::less.
use mathlib.Core.Path.{◌≡◌, refl}
use mathlib.Core.Bool.{true}
use mathlib.Core.List.{List, [], ◌∷◌}
use mathlib.Core.Option.{none, some}
use Prim.Native.Nat.{ℕ}
use native.Mathlib.Omega.{arith}
use zerobus.Prelude.Tests.{if◌then◌else◌}
use zerobus.Prelude.Keys.{
  ◌=?◌, =?_iff, bytes_eq, bytes_ltb, bytes_ltb_irrefl, bytes_ltb_trans, bytes_ltb_total,
}
use zerobus.Prelude.Assoc.{lookup, erase, Fresh, Distinct}

module _ {κ} {V : Type κ} where
  -- emplace, for a key that is not there yet.
  unfoldable pub insert_sorted : List ℕ → V → List (List ℕ × V) → List (List ℕ × V)
  insert_sorted k v [] = (k, v) ∷ []
  insert_sorted k v ((j, w) ∷ m) =
      if bytes_ltb j k then (j, w) ∷ insert_sorted k v m else (k, v) ∷ (j, w) ∷ m

  -- All keys are above `k`, and each key is below those that follow.
  abbrev pub Above : List ℕ → List (List ℕ × V) → Type 0
  Above k [] = Unit
  Above k ((j, v) ∷ m) = (bytes_ltb k j ≡ true) × Above k m

  abbrev pub Ordered : List (List ℕ × V) → Type 0
  Ordered [] = Unit
  Ordered ((j, v) ∷ m) = Above j m × Ordered m

module _ {κ} {V : Type κ} where
  Above-trans :
      (i j : List ℕ) (m : List (List ℕ × V)) → bytes_ltb i j ≡ true → Above j m → Above i m
  Above-trans i j [] h a = tt
  Above-trans i j ((k, v) ∷ m) h a = (bytes_ltb_trans i j k h a.0, Above-trans i j m h a.1)

  Above-Fresh : (k : List ℕ) (m : List (List ℕ × V)) → Above k m → Fresh k m
  Above-Fresh k [] a = tt
  Above-Fresh k ((j, v) ∷ m) a = (λ e. ground (arith, bytes_ltb_irrefl k), Above-Fresh k m a.1)

  pub Ordered-Distinct : (m : List (List ℕ × V)) → Ordered m → Distinct m
  Ordered-Distinct [] o = tt
  Ordered-Distinct ((j, v) ∷ m) o = (Above-Fresh j m o.0, Ordered-Distinct m o.1)

  Above-insert :
      (i k : List ℕ) (v : V) (m : List (List ℕ × V))
      → bytes_ltb i k ≡ true
      → Above i m
      → Above i (insert_sorted k v m)
  unfolding insert_sorted
  Above-insert i k v [] h a = (h, tt)
  Above-insert i k v ((j, w) ∷ m) h a = ground (arith, Above-insert i k v m h a.1)

  pub Ordered-insert_sorted :
      (k : List ℕ) (v : V) (m : List (List ℕ × V))
      → lookup k m ≡ none
      → Ordered m
      → Ordered (insert_sorted k v m)
  unfolding insert_sorted lookup
  Ordered-insert_sorted k v [] h o = (tt, tt)
  Ordered-insert_sorted k v ((j, w) ∷ m) h o = ground (
    arith,
    =?_iff j k,
    bytes_ltb_total j k,
    Above-insert j k v m,
    Above-trans k j m,
    Ordered-insert_sorted k v m,
  )

  Above-erase : (i k : List ℕ) (m : List (List ℕ × V)) → Above i m → Above i (erase k m)
  unfolding erase
  Above-erase i k [] a = tt
  Above-erase i k ((j, w) ∷ m) a = ground (arith, Above-erase i k m a.1)

  pub Ordered-erase : (k : List ℕ) (m : List (List ℕ × V)) → Ordered m → Ordered (erase k m)
  unfolding erase
  Ordered-erase k [] o = tt
  Ordered-erase k ((j, w) ∷ m) o = ground (arith, Ordered-erase k m o.1, Above-erase j k m o.0)

  pub lookup-insert_sorted :
      (j k : List ℕ) (v : V) (m : List (List ℕ × V))
      → lookup k m ≡ none
      → lookup j (insert_sorted k v m) ≡ (if k =? j then some v else lookup j m)
  unfolding insert_sorted lookup
  lookup-insert_sorted j k v [] h = refl
  lookup-insert_sorted j k v ((i, w) ∷ m) h =
      ground (arith, =?_iff i k, =?_iff i j, =?_iff k j, lookup-insert_sorted j k v m)
