-- ===== src/Net/Timer.antt =====
-- The timers of NetContext: get_epoll_timeout_lk, set_timeout and clear_timeout of
-- src/zerobus/network_linux.cpp. std::set of pairs is a list in the order of std::less. The times
-- that are set are before time_point::max().
pub mod Order
pub mod Pending
pub mod Set
use zerobus.Prelude.{
  ℕ, Bool, true, false, ◌&&◌, ◌||◌, List, [], ◌∷◌, Option, none, some, ltb, ◌==◌, if◌then◌else◌,
}
use zerobus.Net.Socket.{NetContext, put_socket, note_effect, wake, is_socket}

abbrev pub pair_less : ℕ × ℕ → ℕ × ℕ → Bool
pair_less (t, i) (u, j) = ltb t u || (t == u && ltb i j)

unfoldable pub insert_timer : ℕ × ℕ → List (ℕ × ℕ) → List (ℕ × ℕ)
insert_timer e [] = e ∷ []
insert_timer e (f ∷ m) =
    let rest = insert_timer e m in
    if pair_less e f then e ∷ f ∷ m else if pair_less f e then f ∷ rest else f ∷ m

unfoldable pub erase_timer : ℕ × ℕ → List (ℕ × ℕ) → List (ℕ × ℕ)
erase_timer e [] = []
erase_timer e (f ∷ m) =
    let rest = erase_timer e m in if f.0 == e.0 && f.1 == e.1 then m else f ∷ rest

-- The first time, or none for time_point::max().
abbrev pub get_epoll_timeout : NetContext → Option ℕ
get_epoll_timeout n = elim n.tmset [ [] ↦ none | ◌∷◌ e m ↦ some e.0 ]

-- `top > tp`
abbrev pub later_than : Option ℕ → ℕ → Bool
later_than none tp = true
later_than (some top) tp = ltb tp top

abbrev pub wake_if : Bool → NetContext → NetContext
wake_if true n = note_effect wake n
wake_if false n = n

unfoldable pub set_timeout : ℕ → ℕ → ℕ → NetContext → NetContext
set_timeout id tp p n =
    let s = n.sockets id in
    let rest = erase_timer (s.tmtp, id) n.tmset in
    if is_socket id n
    then wake_if (later_than (get_epoll_timeout n) tp && n.timer_thread)
        (record (put_socket id (record s { timeout_cb = some p; tmtp = tp }) n) {
          tmset = insert_timer (tp, id) rest;
        })
    else n

unfoldable pub clear_timeout : ℕ → NetContext → NetContext
clear_timeout id n =
    if is_socket id n then record n { tmset = erase_timer ((n.sockets id).tmtp, id) n.tmset } else n
