-- ===== src/Bus/Valid/Deferred.antt =====
-- The deferred changes to subscriptions keep the bus well formed.
use zerobus.Prelude.{ℕ, refl, true, List, [], ◌∷◌, ◌++◌, inl, inr, Option-cases}
use zerobus.Prelude.Keys.{nat_eq, bytes_eq}
use zerobus.Prelude.Assoc.{lookup}
use zerobus.Messages.{ChannelId}
use zerobus.Bus.Channel.{remove_listener}
use zerobus.Bus.Channel.Listeners.{insert_listener-IsSorted, erase_listener-IsSorted}
use zerobus.Bus.State.{Bus, LsnItem, add_to, remove_from, drop_mailbox, update, lock}
use zerobus.Bus.Deferred.{
  get_channel_lk, erase_channel, channel_is_empty, remove_mailbox, execute_lsn, release_item, drain,
  run_lsn_queue, enqueue_lsn, item_channels,
}
use zerobus.Bus.Valid.Channels.{ChannelsOk-update, ChannelsOk-insert, ChannelsOk-erase}
use zerobus.Bus.Valid.Boxes.{BoxesOk-erase}
use zerobus.Bus.Valid.State.{
  IsValid, lock-IsValid, unlock-IsValid, if-IsValid, drop_channel-IsValid,
}

pub get_channel_lk-IsValid :
    (name : ChannelId) (s : Bus) → IsValid s → IsValid (get_channel_lk name s).1
unfolding get_channel_lk
get_channel_lk-IsValid name s v = elim (Option-cases (lookup name s.channels)) [
  | inl new ↦
      rw (new, get_channel_lk)
        (record {
          channels = ChannelsOk-insert v.channels name new;
          boxes = v.boxes;
          paths = v.paths;
        })
  | inr (c, old) ↦ rw (old, get_channel_lk) v
]

pub erase_channel-IsValid :
    (name : ChannelId) (s : Bus) → IsValid s → IsValid (erase_channel name s)
unfolding erase_channel
erase_channel-IsValid name s v = elim (Option-cases (lookup name s.channels)) [
  | inl e ↦ rw (e, erase_channel) v
  | inr (c, e) ↦
      rw (e, erase_channel)
        (drop_channel-IsValid c _ (record {
          channels = ChannelsOk-erase v.channels name;
          boxes = v.boxes;
          paths = v.paths;
        }))
]

pub channel_is_empty-IsValid :
    (name : ChannelId) (s : Bus) → IsValid s → IsValid (channel_is_empty name s)
unfolding channel_is_empty
channel_is_empty-IsValid name s v =
    unlock-IsValid _ (erase_channel-IsValid name (lock s) (lock-IsValid s v))

pub remove_mailbox-IsValid : (l : ℕ) (s : Bus) → IsValid s → IsValid (remove_mailbox l s)
unfolding remove_mailbox lock
remove_mailbox-IsValid l s v = elim (Option-cases (lookup l s.mailboxes_by_ptr)) [
  | inl e ↦ rw (e, remove_mailbox) (unlock-IsValid _ (lock-IsValid s v))
  | inr (m, e) ↦
      rw (e, remove_mailbox)
        (unlock-IsValid _
          (record { channels = v.channels; boxes = BoxesOk-erase v.boxes l m e; paths = v.paths }))
]

execute_lsn-IsValid : (i : LsnItem) (s : Bus) → IsValid s → IsValid (execute_lsn i s)
unfolding execute_lsn
execute_lsn-IsValid (add_to c l) s v = record {
  channels =
      ChannelsOk-update v.channels c _ refl (insert_listener-IsSorted l _ (v.channels.sorted c));
  boxes = v.boxes;
  paths = v.paths;
}
execute_lsn-IsValid (remove_from c l) s v =
    let t = record s { chan = update s.chan c (remove_listener l (s.chan c)).0 } in
    let removed : IsValid t = record {
      channels =
          ChannelsOk-update v.channels c _ refl (erase_listener-IsSorted l _ (v.channels.sorted c));
      boxes = v.boxes;
      paths = v.paths;
    } in
    if-IsValid _ (channel_is_empty (s.chan c).name t) t (channel_is_empty-IsValid _ t removed)
      removed
execute_lsn-IsValid (drop_mailbox l) s v = remove_mailbox-IsValid l s v

release_item-IsValid : (i : LsnItem) (s : Bus) → IsValid s → IsValid (release_item i s)
unfolding release_item
release_item-IsValid (add_to c l) s v = drop_channel-IsValid c s v
release_item-IsValid (remove_from c l) s v = drop_channel-IsValid c s v
release_item-IsValid (drop_mailbox l) s v = v

drain-IsValid : (is : List LsnItem) (s : Bus) → IsValid s → IsValid (drain is s)
unfolding drain
drain-IsValid [] s v = v
drain-IsValid (i ∷ is) s v =
    let w = execute_lsn-IsValid i s v in
    drain-IsValid is _ (
      release_item-IsValid i _ (record { channels = w.channels; boxes = w.boxes; paths = w.paths }))

pub run_lsn_queue-IsValid : (s : Bus) → IsValid s → IsValid (run_lsn_queue s)
unfolding run_lsn_queue
run_lsn_queue-IsValid s v = drain-IsValid s.lsn_queue s v

pub enqueue_lsn-IsValid : (i : LsnItem) (s : Bus) → IsValid s → IsValid (enqueue_lsn i s)
unfolding enqueue_lsn
enqueue_lsn-IsValid i s v =
    let w = run_lsn_queue-IsValid _ (
      execute_lsn-IsValid i (record s { running = true; held = item_channels i ++ s.held })
        (record { channels = v.channels; boxes = v.boxes; paths = v.paths })) in
    if-IsValid s.running _ _ (record { channels = v.channels; boxes = v.boxes; paths = v.paths })
      (release_item-IsValid i _
        (record { channels = w.channels; boxes = w.boxes; paths = w.paths }))
