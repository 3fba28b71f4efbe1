-- ===== src/Bus/Channel/Listeners.antt =====
-- The vector of listeners: its order, what add_listener and remove_listener do to it, seen
-- through has, and whom a broadcast reaches.
use zerobus.Prelude.{
  ℕ, ◌≤◌, ◌<◌, ◌≡◌, refl, Bool, false, if◌then◌else◌, not, ◌&&◌, ◌||◌, List, [], ◌∷◌, ◌==◌, All,
  arith,
}
use zerobus.Bus.Channel.{
  ChanDef, nullptr, insert_listener, erase_listener, has_listener, receivers, is_empty, can_export,
  sole_other,
}

abbrev pub AllAbove : ℕ → List ℕ → Type 0
AllAbove b = All (λ x. b < x)

-- Ascending with no listener twice.
abbrev pub IsSorted : List ℕ → Type 0
IsSorted [] = Unit {0}
IsSorted (x ∷ xs) = AllAbove x xs × IsSorted xs

AllAbove-insert :
    (b l : ℕ) (xs : List ℕ) → b < l → AllAbove b xs → AllAbove b (insert_listener l xs)
unfolding insert_listener
AllAbove-insert b l [] h a = (h, tt)
AllAbove-insert b l (x ∷ xs) h a = ground (arith, AllAbove-insert b l xs h a.1)

AllAbove-mono : (a b : ℕ) (xs : List ℕ) → a < b → AllAbove b xs → AllAbove a xs
AllAbove-mono a b [] h k = tt
AllAbove-mono a b (x ∷ xs) h k = (omega arith, AllAbove-mono a b xs h k.1)

pub insert_listener-IsSorted : (l : ℕ) (xs : List ℕ) → IsSorted xs → IsSorted (insert_listener l xs)
unfolding insert_listener
insert_listener-IsSorted l [] s = (tt, tt)
insert_listener-IsSorted l (x ∷ xs) s =
    ground (arith, AllAbove-insert x l xs, AllAbove-mono l x xs, insert_listener-IsSorted l xs s.1)

AllAbove-erase : (b l : ℕ) (xs : List ℕ) → AllAbove b xs → AllAbove b (erase_listener l xs)
unfolding erase_listener
AllAbove-erase b l [] a = tt
AllAbove-erase b l (x ∷ xs) a = ground (arith, AllAbove-erase b l xs a.1)

pub erase_listener-IsSorted : (l : ℕ) (xs : List ℕ) → IsSorted xs → IsSorted (erase_listener l xs)
unfolding erase_listener
erase_listener-IsSorted l [] s = tt
erase_listener-IsSorted l (x ∷ xs) s =
    ground (arith, AllAbove-erase x l xs s.0, erase_listener-IsSorted l xs s.1)

AllAbove-has : (b l : ℕ) (xs : List ℕ) → AllAbove b xs → l ≤ b → has_listener l xs ≡ false
unfolding has_listener
AllAbove-has b l [] a h = refl
AllAbove-has b l (x ∷ xs) a h = ground arith

-- Whether the listener is in a vector, in whatever order.
abbrev pub listens : ℕ → List ℕ → Bool
listens l [] = false
listens l (x ∷ xs) = (x == l) || listens l xs

AllAbove-listens : (b l : ℕ) (xs : List ℕ) → AllAbove b xs → l ≤ b → listens l xs ≡ false
AllAbove-listens b l [] a h = refl
AllAbove-listens b l (x ∷ xs) a h = ground (arith, AllAbove-listens b l xs a.1 h)

-- In a sorted vector, the walk to the first listener that is not below finds it.
pub has_listener-listens : (l : ℕ) (xs : List ℕ) → IsSorted xs → has_listener l xs ≡ listens l xs
unfolding has_listener
has_listener-listens l [] s = refl
has_listener-listens l (x ∷ xs) s =
    ground (arith, has_listener-listens l xs s.1, AllAbove-listens x l xs s.0)

-- The listeners that pass a test, and those that are not the one named.
abbrev pub those : (ℕ → Bool) → List ℕ → List ℕ
those keep [] = []
those keep (x ∷ xs) = let rest = those keep xs in if keep x then x ∷ rest else rest

abbrev pub others : ℕ → List ℕ → List ℕ
others l = those (λ k. not (k == l))

pub receivers-others : (l : ℕ) (xs : List ℕ) → receivers l xs ≡ others l xs
unfolding receivers
receivers-others l [] = refl
receivers-others l (x ∷ xs) = ground (arith, receivers-others l xs)

-- For a sorted vector, has finds after add_listener the listener that was added and those that
-- it found before.
pub has-insert_listener :
    (k l : ℕ) (xs : List ℕ)
    → IsSorted xs
    → has_listener k (insert_listener l xs) ≡ ((l == k) || has_listener k xs)
unfolding insert_listener has_listener
has-insert_listener k l [] s = ground arith
has-insert_listener k l (x ∷ xs) s = ground (arith, has-insert_listener k l xs s.1)

-- For a sorted vector, has finds after remove_listener those that it found before, without the
-- listener that was removed.
pub has-erase_listener :
    (k l : ℕ) (xs : List ℕ)
    → IsSorted xs
    → has_listener k (erase_listener l xs) ≡ (not (l == k) && has_listener k xs)
unfolding erase_listener has_listener
has-erase_listener k l [] s = ground arith
has-erase_listener k l (x ∷ xs) s =
    ground (arith, has-erase_listener k l xs s.1, AllAbove-has x k xs s.0)

AllAbove-receivers : (b l : ℕ) (xs : List ℕ) → AllAbove b xs → AllAbove b (receivers l xs)
unfolding receivers
AllAbove-receivers b l [] a = tt
AllAbove-receivers b l (x ∷ xs) a = ground (arith, AllAbove-receivers b l xs a.1)

receivers-IsSorted : (l : ℕ) (xs : List ℕ) → IsSorted xs → IsSorted (receivers l xs)
unfolding receivers
receivers-IsSorted l [] s = tt
receivers-IsSorted l (x ∷ xs) s =
    ground (arith, AllAbove-receivers x l xs s.0, receivers-IsSorted l xs s.1)

has-receivers :
    (k l : ℕ) (xs : List ℕ)
    → IsSorted xs
    → has_listener k (receivers l xs) ≡ (not (l == k) && has_listener k xs)
unfolding receivers has_listener
has-receivers k l [] s = ground arith
has-receivers k l (x ∷ xs) s = ground (
  arith,
  has-receivers k l xs s.1,
  AllAbove-has x k xs s.0,
  AllAbove-has x k (receivers l xs) (AllAbove-receivers x l xs s.0),
)

-- A broadcast over a sorted vector of listeners reaches each listener of it but the sender
-- once, in order, and nobody else.
pub receivers_exact :
    (l : ℕ) (xs : List ℕ)
    → IsSorted xs
    → IsSorted (receivers l xs)
      × ((k : ℕ) → has_listener k (receivers l xs) ≡ (not (l == k) && has_listener k xs))
receivers_exact l xs s = (receivers-IsSorted l xs s, λ k. has-receivers k l xs s)

receivers_all : (l : ℕ) (xs : List ℕ) → AllAbove l xs → receivers l xs ≡ xs
unfolding receivers
receivers_all l [] a = refl
receivers_all l (x ∷ xs) a = ground (arith, receivers_all l xs a.1)

sole_other-receivers :
    (l : ℕ) (xs : List ℕ) → IsSorted xs → sole_other l xs ≡ not (is_empty (receivers l xs))
unfolding receivers
sole_other-receivers l [] s = refl
sole_other-receivers l (x ∷ []) s = ground arith
sole_other-receivers l (x ∷ y ∷ xs) s = ground arith

-- A channel with a sorted vector of listeners is announced to a listener exactly if it is no
-- group and a message that the listener broadcasts to it would reach somebody.
pub can_export-receivers :
    (l : ℕ) (ch : ChanDef)
    → IsSorted ch.listeners
    → can_export l ch ≡ ((ch.owner == nullptr) && not (is_empty (receivers l ch.listeners)))
can_export-receivers l ch s = ground (arith, sole_other-receivers l ch.listeners s)
