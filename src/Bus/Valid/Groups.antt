-- ===== src/Bus/Valid/Groups.antt =====
-- Groups, mailboxes and the departure of a listener keep the bus well formed.
use zerobus.Prelude.{ℕ, refl, true, List, [], ◌∷◌, Option, none, some, ◌==◌, inl, inr, Option-cases}
use zerobus.Prelude.Keys.{nat_eq, bytes_eq}
use zerobus.Prelude.Assoc.{lookup}
use zerobus.Messages.{ChannelId}
use zerobus.Bus.Channel.{nullptr}
use zerobus.Bus.Channel.Listeners.{insert_listener-IsSorted}
use zerobus.Bus.BackPath.{find_path}
use zerobus.Bus.BackPath.Lru.{remove_paths-IsCache}
use zerobus.Bus.State.{Bus, lock}
use zerobus.Bus.Deferred.{get_channel_lk}
use zerobus.Bus.Groups.{
  erase_groups_lk, close_all_groups, set_owner, close_group, erase_mailbox_lk, unsubscribe_private,
  leave_serial, unsubscribe_all, new_group_channel, join_group, invite, add_to_group,
}
use zerobus.Bus.Valid.Channels.{ChannelsOk-update}
use zerobus.Bus.Valid.Boxes.{BoxesOk-update}
use zerobus.Bus.Valid.State.{IsValid, emit-IsValid, lock-IsValid, unlock-IsValid, if-IsValid}
use zerobus.Bus.Valid.Deferred.{get_channel_lk-IsValid, erase_channel-IsValid, enqueue_lsn-IsValid}
use zerobus.Bus.Valid.Subscriptions.{marked, if-pair, unsubscribe_all_channels_lk-IsValid}

pub erase_groups_lk-IsValid :
    (l : ℕ) (m : List (ChannelId × ℕ)) (s : Bus) → IsValid s → IsValid (erase_groups_lk l m s)
unfolding erase_groups_lk
erase_groups_lk-IsValid l [] s v = v
erase_groups_lk-IsValid l ((name, c) ∷ m) s v =
    erase_groups_lk-IsValid l m _
      (if-IsValid ((s.chan c).owner == l) _ s (erase_channel-IsValid name s v) v)

pub close_all_groups-IsValid : (l : ℕ) (s : Bus) → IsValid s → IsValid (close_all_groups l s)
unfolding close_all_groups
close_all_groups-IsValid l s v =
    unlock-IsValid _ (erase_groups_lk-IsValid l s.channels _ (lock-IsValid s v))

set_owner-IsValid : (c l : ℕ) (s : Bus) → IsValid s → IsValid (set_owner c l s)
unfolding set_owner
set_owner-IsValid c l s v = record {
  channels = ChannelsOk-update v.channels c _ refl (v.channels.sorted c);
  boxes = v.boxes;
  paths = v.paths;
}

pub close_group-IsValid :
    (l : ℕ) (name : ChannelId) (s : Bus) → IsValid s → IsValid (close_group l name s)
unfolding close_group
close_group-IsValid l name s v = elim (Option-cases (lookup name s.channels)) [
  | inl e ↦ rw (e, close_group) v
  | inr (c, e) ↦
      rw (e, close_group)
        (if-IsValid ((s.chan c).owner == l) _ s
          (marked _ (erase_channel-IsValid name _ (set_owner-IsValid c nullptr s v))) v)
]

pub erase_mailbox_lk-IsValid : (l : ℕ) (s : Bus) → IsValid s → IsValid (erase_mailbox_lk l s)
unfolding erase_mailbox_lk
erase_mailbox_lk-IsValid l s v = elim (Option-cases (lookup l s.mailboxes_by_ptr)) [
  | inl e ↦ rw (e, erase_mailbox_lk) v
  | inr (m, e) ↦
      rw (e, erase_mailbox_lk)
        (enqueue_lsn-IsValid _ _ (record {
          channels = v.channels;
          boxes = BoxesOk-update v.boxes m _ refl refl;
          paths = v.paths;
        }))
]

pub unsubscribe_private-IsValid : (l : ℕ) (s : Bus) → IsValid s → IsValid (unsubscribe_private l s)
unfolding unsubscribe_private
unsubscribe_private-IsValid l s v =
    unlock-IsValid _ (erase_mailbox_lk-IsValid l _ (lock-IsValid s v))

leave_serial-IsValid : (l : ℕ) (s : Bus) → IsValid s → IsValid (leave_serial l s)
leave_serial-IsValid l s v =
    let left : IsValid (record s { serial_source = nullptr; channels_change = true }) = record {
      channels = v.channels;
      boxes = v.boxes;
      paths = v.paths;
    } in
    if-IsValid (l == s.serial_source) _ s left v

pub unsubscribe_all-IsValid : (l : ℕ) (s : Bus) → IsValid s → IsValid (unsubscribe_all l s)
unfolding unsubscribe_all
unsubscribe_all-IsValid l s v =
    let s1 = erase_mailbox_lk l (lock s) in
    let v1 = erase_mailbox_lk-IsValid l (lock s) (lock-IsValid s v) in
    let v2 = erase_groups_lk-IsValid l s1.channels s1 v1 in
    unlock-IsValid _ (
      leave_serial-IsValid l _ (
        unsubscribe_all_channels_lk-IsValid l true _ (record {
          channels = v2.channels;
          boxes = v2.boxes;
          paths = remove_paths-IsCache _ l _ v2.paths;
        })))

new_group_channel-IsValid :
    (owner : ℕ) (group : ChannelId) (l : ℕ) (s : Bus)
    → IsValid s
    → IsValid (new_group_channel owner group l s).1
unfolding new_group_channel
new_group_channel-IsValid owner group l s v =
    let (c, t) = get_channel_lk group s in
    let w = get_channel_lk-IsValid group s v in
    let x = set_owner-IsValid c owner t w in
    if-pair _ _ _ w (record {
      channels =
          ChannelsOk-update x.channels c _ refl
            (insert_listener-IsSorted l _ (x.channels.sorted c));
      boxes = x.boxes;
      paths = x.paths;
    })

join_group-IsValid :
    (owner : ℕ) (group uid : ChannelId) (l : ℕ) (s : Bus)
    → IsValid s
    → IsValid (join_group owner group uid l s).1
join_group-IsValid owner group uid l s v =
    let w = new_group_channel-IsValid owner group l s v in
    if-pair (new_group_channel owner group l s).0 _ _ (emit-IsValid _ _ w) w

invite-IsValid :
    (owner : ℕ) (group uid : ChannelId) (o : Option ℕ) (s : Bus)
    → IsValid s
    → IsValid (invite owner group uid o s).1
invite-IsValid owner group uid (some m) s v = join_group-IsValid owner group uid (s.mbx m).owner s v
invite-IsValid owner group uid none s v =
    let l = find_path uid s.back_path in
    if-pair (l == nullptr) _ _ v (join_group-IsValid owner group uid l s v)

pub add_to_group-IsValid :
    (owner : ℕ) (group uid : ChannelId) (s : Bus)
    → IsValid s
    → IsValid (add_to_group owner group uid s).1
unfolding add_to_group
add_to_group-IsValid owner group uid s v =
    unlock-IsValid _ (invite-IsValid owner group uid _ _ (lock-IsValid s v))
