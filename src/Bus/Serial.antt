-- ===== src/Bus/Serial.antt =====
-- LocalBus in src/zerobus/local_bus.cpp: the serial number of the network by which bridges detect
-- cycles, the monitors, and the report of an undeliverable message.
use zerobus.Prelude.{
  ℕ, Bool, true, false, List, [], ◌∷◌, ◌++◌, Option, none, some, ◌==◌, if◌then◌else◌,
}
use zerobus.Prelude.Keys.{◌=?◌, bytes_eq, bytes_ltb}
use zerobus.Prelude.Assoc.{lookup}
use zerobus.Messages.{ChannelId}
use zerobus.Bus.Channel.{nullptr}
use zerobus.Bus.BackPath.{find_path, store_path}
use zerobus.Bus.State.{Bus, on_no_route, emit, lock, unlock}

-- `_serial_source ? _cur_serial : _this_serial`
unfoldable pub current_serial : Bus → ChannelId
current_serial s = if s.serial_source == nullptr then s.this_serial else s.cur_serial

abbrev pub set_serial_lk : ℕ → ChannelId → Bus → Bool × Bus
set_serial_lk l serial s =
    if current_serial s =? serial
    then (l == s.serial_source, s)
    else if bytes_ltb serial (current_serial s)
    then (true, record s { cur_serial = serial; serial_source = l })
    else (true, record s { channels_change = true })

unfoldable pub set_serial : ℕ → ChannelId → Bus → Bool × Bus
set_serial l serial s = let (r, t) = set_serial_lk l serial (lock s) in (r, unlock t)

-- The serial number for the other side of a bridge; empty for the bridge that it came from.
unfoldable pub get_serial : ℕ → Bus → ChannelId
get_serial l s =
    if s.serial_source == nullptr
    then s.this_serial
    else if l == s.serial_source
    then []
    else s.cur_serial

unfoldable pub register_monitor : ℕ → Bus → Bus
register_monitor m s = unlock (record (lock s) { monitors = s.monitors ++ (m ∷ []) })

-- `std::swap(*iter, _monitors.back()); _monitors.pop_back();`
abbrev rotate_last : List ℕ → List ℕ
rotate_last [] = []
rotate_last (x ∷ []) = x ∷ []
rotate_last (x ∷ y ∷ xs) = elim (rotate_last (y ∷ xs)) [ [] ↦ x ∷ [] | z ∷ zs ↦ z ∷ x ∷ zs ]

unfoldable pub swap_out : ℕ → List ℕ → List ℕ
swap_out m [] = []
swap_out m (x ∷ xs) = if x == m then rotate_last xs else x ∷ swap_out m xs

unfoldable pub unregister_monitor : ℕ → Bus → Bus
unregister_monitor m s = unlock (record (lock s) { monitors = swap_out m s.monitors })

unfoldable pub force_update_channels : Bus → Bus
force_update_channels s = unlock (record (lock s) { channels_change = true })

abbrev pub tell_sender : ChannelId → ChannelId → Option ℕ → Bus → Bus
tell_sender sender receiver none s = s
tell_sender sender receiver (some m) s = emit (on_no_route (s.mbx m).owner sender receiver ∷ []) s

-- clear_return_path locks `_mutex` itself, so its end tells no monitor.
unfoldable pub clear_return_path : ℕ → ChannelId → ChannelId → Bus → Bool × Bus
clear_return_path l sender receiver s =
    let cleared = record s { back_path = store_path s.limit receiver nullptr s.back_path } in
    let l3 = find_path sender cleared.back_path in
    if l == find_path receiver s.back_path
    then (
      true,
      if l3 == nullptr then cleared else emit (on_no_route l3 sender receiver ∷ []) cleared,
    )
    else (false, tell_sender sender receiver (lookup sender s.mailboxes_by_name) s)
