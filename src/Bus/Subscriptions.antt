-- ===== src/Bus/Subscriptions.antt =====
-- LocalBus in src/zerobus/local_bus.cpp: subscriptions, and the lists of channels for a listener.
use zerobus.Prelude.{
  ℕ, Bool, true, false, not, ◌&&◌, ◌||◌, List, [], ◌∷◌, ◌++◌, none, some, ◌==◌, if◌then◌else◌,
}
use zerobus.Prelude.Keys.{nat_eq, bytes_eq}
use zerobus.Prelude.Assoc.{lookup}
use zerobus.Messages.{ChannelId, Operation}
use zerobus.Bus.Channel.{ChanDef, nullptr, has, is_empty, can_export}
use zerobus.Bus.State.{Bus, add_to, remove_from, lock, unlock}
use zerobus.Bus.Deferred.{get_channel_lk, enqueue_lsn}

unfoldable pub subscribe_lk : ℕ → ChannelId → Bus → Bool × Bus
subscribe_lk l [] s = (false, s)
subscribe_lk l (b ∷ name) s =
    let (c, t) = get_channel_lk (b ∷ name) s in
    if (t.chan c).owner == nullptr
    then (true, record (enqueue_lsn (add_to c l) t) { channels_change = true })
    else (false, t)

unfoldable pub subscribe : ℕ → ChannelId → Bus → Bool × Bus
subscribe l name s = let (r, t) = subscribe_lk l name (lock s) in (r, unlock t)

unfoldable pub unsubscribe_lk : ℕ → ChannelId → Bus → Bus
unsubscribe_lk l name s = elim (lookup name s.channels) [
  | none ↦ s
  | some c ↦
      if has l (s.chan c)
      then record (enqueue_lsn (remove_from c l) s) { channels_change = true }
      else s
]

unfoldable pub unsubscribe : ℕ → ChannelId → Bus → Bus
unsubscribe l name s = unlock (unsubscribe_lk l name (lock s))

-- The channels of the map to which the listener is subscribed, without the groups if
-- `and_groups` is false.
unfoldable pub subscribed : ℕ → Bool → (ℕ → ChanDef) → List (ChannelId × ℕ) → List ℕ
subscribed l and_groups chan [] = []
subscribed l and_groups chan ((name, c) ∷ m) =
    let rest = subscribed l and_groups chan m in
    if (and_groups || (chan c).owner == nullptr) && has l (chan c) then c ∷ rest else rest

-- The second loop: each shared_ptr of the array moves into an item.
unfoldable pub remove_each : ℕ → List ℕ → Bus → Bus
remove_each l [] s = s
remove_each l (c ∷ cs) s =
    let t = enqueue_lsn (remove_from c l) (record s { held = cs ++ s.held }) in
    remove_each l cs (record t { held = s.held })

unfoldable pub unsubscribe_all_channels_lk : ℕ → Bool → Bus → Bool × Bus
unsubscribe_all_channels_lk l and_groups s =
    let cs = subscribed l and_groups s.chan s.channels in (not (is_empty cs), remove_each l cs s)

-- `if (unsubscribe_all_channels_lk(...)) _channels_change = true;`
abbrev pub mark_change : Bool × Bus → Bus
mark_change (true, s) = record s { channels_change = true }
mark_change (false, s) = s

unfoldable pub unsubscribe_all_channels : ℕ → Bool → Bus → Bus
unsubscribe_all_channels l and_groups s =
    unlock (mark_change (unsubscribe_all_channels_lk l and_groups (lock s)))

abbrev pub subscribe_each : ℕ → List ChannelId → Bus → Bus
subscribe_each l [] s = s
subscribe_each l (name ∷ names) s = subscribe_each l names (subscribe_lk l name s).1

abbrev pub unsubscribe_each : ℕ → List ChannelId → Bus → Bus
unsubscribe_each l [] s = s
unsubscribe_each l (name ∷ names) s = unsubscribe_each l names (unsubscribe_lk l name s)

abbrev pub update_lk : ℕ → Operation → List ChannelId → Bus → Bus
update_lk l Operation.replace names s =
    subscribe_each l names (mark_change (unsubscribe_all_channels_lk l false s))
update_lk l Operation.add names s = subscribe_each l names s
update_lk l Operation.erase names s = unsubscribe_each l names s

-- The source spells it update_subscribtion.
unfoldable pub update_subscription : ℕ → Operation → List ChannelId → Bus → Bus
update_subscription l op names s = unlock (update_lk l op names (lock s))

-- The names of the map's channels that a test accepts, in the map's order.
unfoldable pub select_names :
    (ChanDef → Bool) → (ℕ → ChanDef) → List (ChannelId × ℕ) → List ChannelId
select_names keep chan [] = []
select_names keep chan ((name, c) ∷ m) =
    if keep (chan c) then name ∷ select_names keep chan m else select_names keep chan m

unfoldable pub get_active_channels : ℕ → Bus → List ChannelId
get_active_channels l s = select_names (can_export l) s.chan s.channels

unfoldable pub get_subscribed_channels : ℕ → Bus → List ChannelId
get_subscribed_channels l s = select_names (has l) s.chan s.channels

unfoldable pub is_channel : ChannelId → Bus → Bool
is_channel name s = elim (lookup name s.channels) [
  | none ↦ false
  | some c ↦ not (is_empty (s.chan c).listeners)
]
