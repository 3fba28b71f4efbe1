-- ===== src/Bus/Valid/State.antt =====
-- A well-formed bus, and the steps on its state that no queue is involved in.
use zerobus.Prelude.{ℕ, Bool, true, false, List, ◌==◌, if◌then◌else◌}
use zerobus.Prelude.Keys.{nat_eq, bytes_eq}
use zerobus.Bus.BackPath.Lru.{IsCache}
use zerobus.Bus.State.{
  Bus, Event, emit, lock, notify, unlock, drop_channel, is_referenced, destructor_events,
}
use zerobus.Bus.Valid.Channels.{ChannelsOk}
use zerobus.Bus.Valid.Boxes.{BoxesOk}

-- The channels, the mailboxes and the return paths are well formed.
pub record IsValid (s : Bus) : Type 0 where
  pub channels : ChannelsOk s.chan s.next_chan s.channels
  pub boxes : BoxesOk s.mbx s.next_mbx s.mailboxes_by_ptr s.mailboxes_by_name s.names s.generated
  pub paths : IsCache s.limit s.back_path

pub emit-IsValid : (es : List Event) (s : Bus) → IsValid s → IsValid (emit es s)
unfolding emit
emit-IsValid es s v = record { channels = v.channels; boxes = v.boxes; paths = v.paths }

pub lock-IsValid : (s : Bus) → IsValid s → IsValid (lock s)
unfolding lock
lock-IsValid s v = record { channels = v.channels; boxes = v.boxes; paths = v.paths }

pub if-IsValid : (b : Bool) (s t : Bus) → IsValid s → IsValid t → IsValid (if b then s else t)
if-IsValid true s t v w = v
if-IsValid false s t v w = w

pub notify-IsValid : (s : Bus) → IsValid s → IsValid (notify s)
unfolding notify
notify-IsValid s v =
    let w : IsValid (record s { channels_change = false }) = record {
      channels = v.channels;
      boxes = v.boxes;
      paths = v.paths;
    } in
    if-IsValid s.channels_change _ s (emit-IsValid _ _ w) v

pub unlock-IsValid : (s : Bus) → IsValid s → IsValid (unlock s)
unfolding unlock
unlock-IsValid s v =
    let w = if-IsValid (s.recursion == 1) (notify s) s (notify-IsValid s v) v in
    record { channels = w.channels; boxes = w.boxes; paths = w.paths }

pub drop_channel-IsValid : (c : ℕ) (s : Bus) → IsValid s → IsValid (drop_channel c s)
unfolding drop_channel
drop_channel-IsValid c s v =
    if-IsValid (is_referenced c s) s _ v (emit-IsValid (destructor_events (s.chan c)) s v)
