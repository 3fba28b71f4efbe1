-- ===== src/Bus/Channel.antt =====
-- LocalBus::ChanDef of src/zerobus/local_bus.cpp: a channel with its owner and its listeners.
-- A pointer to a listener is a number and the null pointer is 0. std::lower_bound over the
-- sorted vector is the walk to the first listener that is not below the one looked for.
pub mod Listeners
use zerobus.Prelude.{
  ℕ, ◌<◌, Bool, true, false, not, ◌||◌, List, [], ◌∷◌, map, ltb, ◌==◌, if◌then◌else◌, length,
}
use zerobus.Messages.{ChannelId}

abbrev pub nullptr : ℕ
nullptr = 0

pub record ChanDef : Type 0 where
  pub name : ChannelId
  pub owner : ℕ
  pub listeners : List ℕ

abbrev pub new_channel : ChannelId → ChanDef
new_channel id = record { name = id; owner = nullptr; listeners = [] }

abbrev pub is_empty : List ℕ → Bool
is_empty [] = true
is_empty (x ∷ xs) = false

-- The vector after add_listener and after remove_listener, and the test of has.
unfoldable pub insert_listener : ℕ → List ℕ → List ℕ
insert_listener l [] = l ∷ []
insert_listener l (x ∷ xs) =
    if ltb x l then x ∷ insert_listener l xs else if x == l then x ∷ xs else l ∷ x ∷ xs

unfoldable pub erase_listener : ℕ → List ℕ → List ℕ
erase_listener l [] = []
erase_listener l (x ∷ xs) =
    if ltb x l then x ∷ erase_listener l xs else if x == l then xs else x ∷ xs

unfoldable pub has_listener : ℕ → List ℕ → Bool
has_listener l [] = false
has_listener l (x ∷ xs) = if ltb x l then has_listener l xs else x == l

abbrev pub add_listener : ℕ → ChanDef → ChanDef
add_listener l ch = record ch { listeners = insert_listener l ch.listeners }

-- The channel without the listener, and whether no listener is left.
abbrev pub remove_listener : ℕ → ChanDef → ChanDef × Bool
remove_listener l ch =
    let rest = erase_listener l ch.listeners in (record ch { listeners = rest }, is_empty rest)

abbrev pub has : ℕ → ChanDef → Bool
has l ch = has_listener l ch.listeners

abbrev pub sole_other : ℕ → List ℕ → Bool
sole_other l [] = false
sole_other l (x ∷ xs) = ltb 1 (length (x ∷ xs)) || not (x == l)

-- A group is not exported, nor an empty channel, nor one whose only listener asks.
abbrev pub can_export : ℕ → ChanDef → Bool
can_export l ch = if ch.owner == nullptr then sole_other l ch.listeners else false

-- broadcast calls on_message on each of these, in this order.
unfoldable pub receivers : ℕ → List ℕ → List ℕ
receivers l [] = []
receivers l (x ∷ xs) = if x == l then receivers l xs else x ∷ receivers l xs
