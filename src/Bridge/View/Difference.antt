-- ===== src/Bridge/View/Difference.antt =====
-- std::set_difference on lists of names in ascending order, as the bridge uses it
-- (src/zerobus/bridge.cpp).
use zerobus.Prelude.{◌≡◌, refl, true, false, not, inl, inr, Bool-cases, ◌&&◌, List, [], ◌∷◌, arith}
use zerobus.Prelude.Keys.{
  bytes_eq, =?_iff, bytes_ltb, bytes_ltb_irrefl, bytes_ltb_trans, bytes_ltb_total,
}
use zerobus.Messages.{ChannelId}
use zerobus.Bus.Effect.Listing.{listed}
use zerobus.Bridge.Channels.{set_difference}

-- All names are above the given one, and each name is below those that follow.
abbrev pub AllAbove : ChannelId → List ChannelId → Type 0
AllAbove k [] = Unit
AllAbove k (n ∷ names) = (bytes_ltb k n ≡ true) × AllAbove k names

abbrev pub Ascending : List ChannelId → Type 0
Ascending [] = Unit
Ascending (n ∷ names) = AllAbove n names × Ascending names

pub AllAbove-trans :
    (j k : ChannelId) (names : List ChannelId)
    → bytes_ltb j k ≡ true
    → AllAbove k names
    → AllAbove j names
AllAbove-trans j k [] h a = tt
AllAbove-trans j k (n ∷ names) h a = (bytes_ltb_trans j k n h a.0, AllAbove-trans j k names h a.1)

-- A name that is not above all the others is not among them.
pub listed-AllAbove :
    (n : ChannelId) (names : List ChannelId) → AllAbove n names → listed n names ≡ false
listed-AllAbove n [] a = refl
listed-AllAbove n (m ∷ names) a =
    ground (arith, =?_iff m n, bytes_ltb_irrefl n, listed-AllAbove n names a.1)

pub listed-set_difference :
    (n : ChannelId) (xs ys : List ChannelId)
    → Ascending xs
    → Ascending ys
    → listed n (set_difference xs ys) ≡ (listed n xs && not (listed n ys))
unfolding set_difference
listed-set_difference n [] ys a c = refl
listed-set_difference n (x ∷ xs) [] a c = ground arith
listed-set_difference n (x ∷ xs) (y ∷ ys) a c = elim (Bool-cases (bytes_ltb x y)) [
  | inl h ↦
      rw (h, set_difference)
        (ground (
          arith,
          =?_iff x n,
          listed-set_difference n xs (y ∷ ys) a.1 c,
          listed-AllAbove x (y ∷ ys) (h, AllAbove-trans x y ys h c.0),
        ))
  | inr h ↦
      rw (h, set_difference)
        (elim (Bool-cases (bytes_ltb y x)) [
          | inl k ↦ rw (k) (
              ground (
                arith,
                =?_iff y n,
                listed-set_difference n (x ∷ xs) ys a c.1,
                listed-AllAbove y (x ∷ xs) (k, AllAbove-trans y x xs k a.0),
              ))
          | inr k ↦ rw (k) (
              ground (
                arith,
                =?_iff x n,
                =?_iff y n,
                bytes_ltb_total x y h k,
                listed-set_difference n xs ys a.1 c.1,
                listed-AllAbove x xs a.0,
              ))
        ])
]
