-- ===== src/Bus/BackPath.antt =====
-- LocalBus::BackPathStorage of src/zerobus/local_bus.h and src/zerobus/local_bus.cpp: the routes
-- by which senders behind a bridge were last heard. The map and the intrusive list over its
-- entries are one association list here, in the order of the intrusive list: `_root.next` is its
-- head, and `_last` points at its end. The null pointer is the listener 0.
pub mod Lru
use zerobus.Prelude.{
  ℕ, zero, suc, ◌<◌, Bool, List, [], ◌∷◌, Option, none, some, length, ltb, ◌==◌, if◌then◌else◌,
}
use zerobus.Prelude.Keys.{bytes_eq}
use zerobus.Prelude.Assoc.{lookup, erase}
use zerobus.Messages.{ChannelId}
use zerobus.Bus.Channel.{nullptr}

abbrev pub Paths : Type 0
Paths = List (ChannelId × ℕ)

-- `_limit` of the header.
abbrev pub default_limit : ℕ
default_limit = 128

-- `find_path`: the null pointer for a name that has no entry.
unfoldable pub find_path : ChannelId → Paths → ℕ
find_path chan entries = elim (lookup chan entries) [ none ↦ nullptr | some l ↦ l ]

-- `l = _last; l->remove(); _entries.erase(l->id)`
pub drop_last : Paths → Paths
drop_last [] = []
drop_last (p ∷ []) = []
drop_last (p ∷ q ∷ entries) = p ∷ drop_last (q ∷ entries)

-- `while (_entries.size() > _limit)`. A round takes one entry away, so as many rounds as there
-- are entries are enough.
pub evict : ℕ → ℕ → Paths → Paths
evict limit zero entries = entries
evict limit (suc rounds) entries = elim (ltb limit (length entries)) [
  | Bool.true ↦ evict limit rounds (drop_last entries)
  | Bool.false ↦ entries
]

-- `promote`: out of its place, and behind the root.
abbrev promote : ChannelId → ℕ → Paths → Paths
promote chan l entries = (chan, l) ∷ erase chan entries

pub store_found : ChannelId → ℕ → Paths → Paths
store_found chan l entries = if l == nullptr then erase chan entries else promote chan l entries

pub store_new : ℕ → ChannelId → ℕ → Paths → Paths
store_new limit chan l entries =
    if l == nullptr
    then entries
    else evict limit (length ((chan, l) ∷ entries)) ((chan, l) ∷ entries)

pub store_path : ℕ → ChannelId → ℕ → Paths → Paths
store_path limit chan l entries = elim (lookup chan entries) [
  | none ↦ store_new limit chan l entries
  | some old ↦ store_found chan l entries
]

-- `remove_listener`: the loop from `_root.next` to the sentinel.
pub remove_paths : ℕ → Paths → Paths
remove_paths l [] = []
remove_paths l ((chan, x) ∷ entries) =
    if x == l then remove_paths l entries else (chan, x) ∷ remove_paths l entries
