-- ===== src/Bus/Valid/Messages.antt =====
-- Mailboxes, serial numbers, return paths and the delivery of messages keep the bus well formed.
use zerobus.Prelude.{ℕ, List, Option, none, some, ◌==◌}
use zerobus.Prelude.Keys.{nat_eq, bytes_eq, ◌=?◌}
use zerobus.Prelude.Assoc.{lookup}
use zerobus.Messages.{ChannelId}
use zerobus.Bus.Channel.{nullptr}
use zerobus.Bus.BackPath.{find_path, store_path}
use zerobus.Bus.BackPath.Lru.{store_path-IsCache}
use zerobus.Bus.State.{Bus, lock}
use zerobus.Bus.Serial.{
  current_serial, set_serial_lk, set_serial, register_monitor, unregister_monitor,
  force_update_channels, tell_sender, clear_return_path,
}
use zerobus.Bus.Valid.State.{IsValid, emit-IsValid, lock-IsValid, unlock-IsValid, if-IsValid}
use zerobus.Bus.Valid.Subscriptions.{marked, if-pair}

set_serial_lk-IsValid :
    (l : ℕ) (serial : ChannelId) (s : Bus) → IsValid s → IsValid (set_serial_lk l serial s).1
set_serial_lk-IsValid l serial s v =
    let taken : IsValid (record s { cur_serial = serial; serial_source = l }) = record {
      channels = v.channels;
      boxes = v.boxes;
      paths = v.paths;
    } in
    if-pair (current_serial s =? serial) _ _ v (if-pair _ _ _ taken (marked s v))

pub set_serial-IsValid :
    (l : ℕ) (serial : ChannelId) (s : Bus) → IsValid s → IsValid (set_serial l serial s).1
unfolding set_serial
set_serial-IsValid l serial s v =
    unlock-IsValid _ (set_serial_lk-IsValid l serial _ (lock-IsValid s v))

watched : (ms : List ℕ) (s : Bus) → IsValid s → IsValid (record s { monitors = ms })
watched ms s v = record { channels = v.channels; boxes = v.boxes; paths = v.paths }

pub register_monitor-IsValid : (m : ℕ) (s : Bus) → IsValid s → IsValid (register_monitor m s)
unfolding register_monitor
register_monitor-IsValid m s v = unlock-IsValid _ (watched _ (lock s) (lock-IsValid s v))

pub unregister_monitor-IsValid : (m : ℕ) (s : Bus) → IsValid s → IsValid (unregister_monitor m s)
unfolding unregister_monitor
unregister_monitor-IsValid m s v = unlock-IsValid _ (watched _ (lock s) (lock-IsValid s v))

pub force_update_channels-IsValid : (s : Bus) → IsValid s → IsValid (force_update_channels s)
unfolding force_update_channels
force_update_channels-IsValid s v = unlock-IsValid _ (marked _ (lock-IsValid s v))

tell_sender-IsValid :
    (sender receiver : ChannelId) (o : Option ℕ) (s : Bus)
    → IsValid s
    → IsValid (tell_sender sender receiver o s)
tell_sender-IsValid sender receiver none s v = v
tell_sender-IsValid sender receiver (some m) s v = emit-IsValid _ s v

pub clear_return_path-IsValid :
    (l : ℕ) (sender receiver : ChannelId) (s : Bus)
    → IsValid s
    → IsValid (clear_return_path l sender receiver s).1
unfolding clear_return_path
clear_return_path-IsValid l sender receiver s v =
    let cleared : IsValid
        (record s { back_path = store_path s.limit receiver nullptr s.back_path }) =
      record {
        channels = v.channels;
        boxes = v.boxes;
        paths = store_path-IsCache s.limit receiver nullptr s.back_path v.paths;
      } in
    if-pair (l == find_path receiver s.back_path) _ _
      (if-IsValid _ _ _ cleared (emit-IsValid _ _ cleared))
      (tell_sender-IsValid sender receiver (lookup sender s.mailboxes_by_name) s v)
