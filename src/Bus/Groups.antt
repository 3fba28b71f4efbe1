-- ===== src/Bus/Groups.antt =====
-- LocalBus in src/zerobus/local_bus.cpp: groups, mailboxes, and a listener that leaves.
use zerobus.Prelude.{
  ℕ, Bool, true, false, not, ◌&&◌, List, [], ◌∷◌, Option, none, some, ◌==◌, if◌then◌else◌,
}
use zerobus.Prelude.Keys.{nat_eq, bytes_eq}
use zerobus.Prelude.Assoc.{lookup}
use zerobus.Messages.{ChannelId}
use zerobus.Bus.Channel.{nullptr, add_listener}
use zerobus.Bus.BackPath.{find_path, remove_paths}
use zerobus.Bus.State.{Bus, drop_mailbox, on_add_to_group, update, emit, lock, unlock}
use zerobus.Bus.Deferred.{get_channel_lk, enqueue_lsn, erase_channel}
use zerobus.Bus.Subscriptions.{mark_change, unsubscribe_all_channels_lk}

-- erase_groups_lk: the loop over the map.
unfoldable pub erase_groups_lk : ℕ → List (ChannelId × ℕ) → Bus → Bus
erase_groups_lk owner [] s = s
erase_groups_lk owner ((name, c) ∷ m) s =
    erase_groups_lk owner m (if (s.chan c).owner == owner then erase_channel name s else s)

unfoldable pub close_all_groups : ℕ → Bus → Bus
close_all_groups owner s = unlock (erase_groups_lk owner s.channels (lock s))

unfoldable pub set_owner : ℕ → ℕ → Bus → Bus
set_owner c owner s = record s { chan = update s.chan c (record (s.chan c) { owner = owner }) }

-- close_group takes no lock.
unfoldable pub close_group : ℕ → ChannelId → Bus → Bus
close_group owner name s = elim (lookup name s.channels) [
  | none ↦ s
  | some c ↦
      if (s.chan c).owner == owner
      then record (erase_channel name (set_owner c nullptr s)) { channels_change = true }
      else s
]

-- erase_mailbox_lk.
unfoldable pub erase_mailbox_lk : ℕ → Bus → Bus
erase_mailbox_lk l s = elim (lookup l s.mailboxes_by_ptr) [
  | none ↦ s
  | some m ↦
      enqueue_lsn (drop_mailbox l)
        (record s { mbx = update s.mbx m (record (s.mbx m) { disabled = true }) })
]

-- The source spells it unsubcribe_private.
unfoldable pub unsubscribe_private : ℕ → Bus → Bus
unsubscribe_private l s = unlock (erase_mailbox_lk l (lock s))

abbrev pub leave_serial : ℕ → Bus → Bus
leave_serial l s =
    if l == s.serial_source then record s { serial_source = nullptr; channels_change = true } else s

unfoldable pub unsubscribe_all : ℕ → Bus → Bus
unsubscribe_all l s =
    let s1 = erase_mailbox_lk l (lock s) in
    let s2 = erase_groups_lk l s1.channels s1 in
    let s3 = record s2 { back_path = remove_paths l s2.back_path } in
    unlock (leave_serial l (mark_change (unsubscribe_all_channels_lk l true s3)))

-- The lambda new_channel of add_to_group: the group is made or taken over, and the listener is
-- added at once.
unfoldable pub new_group_channel : ℕ → ChannelId → ℕ → Bus → Bool × Bus
new_group_channel owner group l s =
    let (c, t) = get_channel_lk group s in
    let own = (t.chan c).owner in
    let u = set_owner c owner t in
    if not (own == nullptr) && not (own == owner)
    then (false, t)
    else (true, record u { chan = update u.chan c (add_listener l (u.chan c)) })

abbrev pub join_group : ℕ → ChannelId → ChannelId → ℕ → Bus → Bool × Bus
join_group owner group uid l s =
    let (done, t) = new_group_channel owner group l s in
    if done then (true, emit (on_add_to_group l group uid ∷ []) t) else (false, t)

-- A local mailbox goes before the return path.
abbrev pub invite : ℕ → ChannelId → ChannelId → Option ℕ → Bus → Bool × Bus
invite owner group uid (some m) s = join_group owner group uid (s.mbx m).owner s
invite owner group uid none s =
    let l = find_path uid s.back_path in
    if l == nullptr then (false, s) else join_group owner group uid l s

unfoldable pub add_to_group : ℕ → ChannelId → ChannelId → Bus → Bool × Bus
add_to_group owner group uid s =
    let t = lock s in
    let (r, u) = invite owner group uid (lookup uid t.mailboxes_by_name) t in (r, unlock u)
