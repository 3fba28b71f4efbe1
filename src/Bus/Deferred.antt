-- ===== src/Bus/Deferred.antt =====
-- TLState and the channel map of LocalBus in src/zerobus/local_bus.cpp: changes to a channel's
-- listeners that wait while messages are delivered on the thread (enqueue_lsn). Monitors, and
-- the listeners of a channel that goes away, do not call the bus back while the queue is
-- worked off.
use zerobus.Prelude.{ℕ, suc, true, false, List, [], ◌∷◌, ◌++◌, none, some, if◌then◌else◌}
use zerobus.Prelude.Keys.{nat_eq, bytes_eq}
use zerobus.Prelude.Assoc.{lookup, erase}
use zerobus.Prelude.Sorted.{insert_sorted}
use zerobus.Messages.{ChannelId}
use zerobus.Bus.Channel.{new_channel, add_listener, remove_listener}
use zerobus.Bus.State.{
  Bus, LsnItem, add_to, remove_from, drop_mailbox, update, lock, unlock, drop_channel,
}

-- get_channel_lk: the channel of that name, made if there is none.
unfoldable pub get_channel_lk : ChannelId → Bus → ℕ × Bus
get_channel_lk name s = elim (lookup name s.channels) [
  | some c ↦ (c, s)
  | none ↦ (
    s.next_chan,
    record s {
      chan = update s.chan s.next_chan (new_channel name);
      next_chan = suc s.next_chan;
      channels = insert_sorted name s.next_chan s.channels;
    },
  )
]

-- `_channels.erase(id)`: the map lets go of the channel of that name.
unfoldable pub erase_channel : ChannelId → Bus → Bus
erase_channel name s = elim (lookup name s.channels) [
  | none ↦ s
  | some c ↦ drop_channel c (record s { channels = erase name s.channels })
]

unfoldable pub channel_is_empty : ChannelId → Bus → Bus
channel_is_empty name s = unlock (erase_channel name (lock s))

-- remove_mailbox, when the deferred removal of the mailbox is executed.
unfoldable pub remove_mailbox : ℕ → Bus → Bus
remove_mailbox l s = elim (lookup l s.mailboxes_by_ptr) [
  | none ↦ unlock (lock s)
  | some m ↦ unlock (record (lock s) {
    mailboxes_by_name = erase (s.mbx m).id s.mailboxes_by_name;
    mailboxes_by_ptr = erase l s.mailboxes_by_ptr;
  })
]

-- TLSLsnQueueItem::execute. The item holds its channel until the end.
unfoldable pub execute_lsn : LsnItem → Bus → Bus
execute_lsn (add_to c l) s = record s { chan = update s.chan c (add_listener l (s.chan c)) }
execute_lsn (remove_from c l) s =
    let (ch, last) = remove_listener l (s.chan c) in
    let t = record s { chan = update s.chan c ch } in if last then channel_is_empty ch.name t else t
execute_lsn (drop_mailbox l) s = remove_mailbox l s

-- The shared_ptr of an executed item goes away.
unfoldable pub release_item : LsnItem → Bus → Bus
release_item (add_to c l) s = drop_channel c s
release_item (remove_from c l) s = drop_channel c s
release_item (drop_mailbox l) s = s

-- run_lsn_queue: the front is executed in place, then popped.
unfoldable pub drain : List LsnItem → Bus → Bus
drain [] s = s
drain (i ∷ is) s = drain is (release_item i (record (execute_lsn i s) { lsn_queue = is }))

unfoldable pub run_lsn_queue : Bus → Bus
run_lsn_queue s = drain s.lsn_queue s

abbrev pub item_channels : LsnItem → List ℕ
item_channels (add_to c l) = c ∷ []
item_channels (remove_from c l) = c ∷ []
item_channels (drop_mailbox l) = []

-- enqueue_lsn: at once if nothing runs on this thread, else later. The item is a temporary of
-- the caller, which holds its channel to the end of the call.
unfoldable pub enqueue_lsn : LsnItem → Bus → Bus
enqueue_lsn i s =
    if s.running
    then record s { lsn_queue = s.lsn_queue ++ (i ∷ []) }
    else let ran =
        run_lsn_queue
          (execute_lsn i (record s { running = true; held = item_channels i ++ s.held })) in
      release_item i (record ran { running = false; held = s.held })
