-- ===== src/Bridge/Local.antt =====
-- A bridge on LocalBus (src/zerobus/local_bus.cpp): the bus as an instance of what AbstractBridge
-- uses, and what it gives the bridge.
pub mod Announce
pub mod Cycle
use zerobus.Prelude.{
  ℕ, suc, ◌+◌, ◌≤◌, ◌≡◌, refl, ◌∙◌, none, not, ◌&&◌, Bool, true, false, List, [], ◌∷◌,
  if◌then◌else◌, arith,
}
use zerobus.Messages.{ChannelId}
use zerobus.Bus.Channel.{ChanDef, can_export}
use zerobus.Bus.State.{Bus}
use zerobus.Bus.Subscriptions.{
  get_active_channels, get_subscribed_channels, is_channel, select_names, update_subscription,
  unsubscribe, unsubscribe_all_channels,
}
use zerobus.Bus.Groups.{close_group, add_to_group, unsubscribe_all}
use zerobus.Bus.Serial.{get_serial, set_serial, clear_return_path}
use zerobus.Bus.Routing.{dispatch_message}
use zerobus.Bus.Delivery.{call_back, Reaction, enqueue_msg}
use zerobus.Bus.Valid.State.{IsValid}
use zerobus.Bus.Valid.Messages.{set_serial-IsValid}
use zerobus.Bus.Valid.Subscriptions.{unsubscribe-IsValid}
use zerobus.Prelude.Sorted.{Above, Ordered}
use zerobus.Bus.Routing.{done}
use zerobus.Bus.Effect.Listing.{listed, found_with, reaches, get_active_channels-reaches}
use zerobus.Bridge.Channels.{send_mine_channels}
use zerobus.Bridge.View.Announce.{view, Synced}
use zerobus.Bridge.View.Rounds.{send_mine_channels_unfiltered}
use zerobus.Bridge.Api.{Bridge, BusApi, FilterApi, Env, open_filter}
use zerobus.Bridge.View.Difference.{AllAbove, Ascending}
use zerobus.Bridge.View.Rules.{BusLaws, Settles}

-- LocalBus with other listeners on it, and a bound on the rounds of a delivery.
abbrev pub local_bus : Reaction → ℕ → BusApi
local_bus react rounds = record {
  State = Bus;
  get_serial = get_serial;
  set_serial = set_serial;
  get_active_channels = get_active_channels;
  get_subscribed_channels = get_subscribed_channels;
  is_channel = is_channel;
  update_subscription = update_subscription;
  unsubscribe = unsubscribe;
  unsubscribe_all_channels = unsubscribe_all_channels;
  unsubscribe_all = unsubscribe_all;
  close_group = close_group;
  add_to_group = add_to_group;
  clear_return_path = clear_return_path;
  dispatch_message =
      dispatch_message (enqueue_msg react rounds rounds)
        (call_back react (enqueue_msg react rounds rounds) rounds);
}

select_names-AllAbove :
    (keep : ChanDef → Bool) (chan : ℕ → ChanDef) (k : ChannelId) (m : List (ChannelId × ℕ))
    → Above k m
    → AllAbove k (select_names keep chan m)
unfolding select_names
select_names-AllAbove keep chan k [] a = tt
select_names-AllAbove keep chan k ((n, c) ∷ m) a =
    ground (arith, select_names-AllAbove keep chan k m a.1)

select_names-Ascending :
    (keep : ChanDef → Bool) (chan : ℕ → ChanDef) (m : List (ChannelId × ℕ))
    → Ordered m
    → Ascending (select_names keep chan m)
unfolding select_names
select_names-Ascending keep chan [] o = tt
select_names-Ascending keep chan ((n, c) ∷ m) o =
    ground (arith, select_names-Ascending keep chan m o.1, select_names-AllAbove keep chan n m o.0)

pub commit :
    (clean : Bool)
    → let r = open_filter.commit_rule_changed clean in
      (if r.0 then 1 else 0) + (if r.1 then 0 else 1) ≤ (if clean then 0 else 1)
commit true = omega arith
commit false = omega arith

abbrev pub local_env : Reaction → ℕ → FilterApi → (ChannelId → ℕ) → ℕ → Env
local_env react rounds flt hash self = record {
  api = local_bus react rounds;
  flt = flt;
  hash = hash;
  self = self;
}

pub get_active_channels-Ascending :
    (l : ℕ) (s : Bus) → IsValid s → Ascending (get_active_channels l s)
unfolding get_active_channels
get_active_channels-Ascending l s v =
    select_names-Ascending (can_export l) s.chan s.channels v.channels.ordered

unfoldable pub local_laws :
    (react : Reaction) (rounds self : ℕ) → BusLaws (local_bus react rounds) self
local_laws react rounds self = record {
  Ok = IsValid;
  unsubscribe-Ok = λ n s. unsubscribe-IsValid self n s;
  set_serial-Ok = λ serial s. set_serial-IsValid self serial s;
  active-Ascending = get_active_channels-Ascending self;
}

-- The rules of class Filter change once, when the filter is new.
unfoldable pub open_filter_settles : Settles open_filter
open_filter_settles = record {
  changes = λ clean. if clean then 0 else 1;
  on_incoming = λ n clean. omega arith;
  on_outgoing = λ n clean. omega arith;
  commit = commit;
}

-- A bridge on LocalBus whose filter, if it has one, is of class Filter.
abbrev pub on_local : Reaction → ℕ → (ChannelId → ℕ) → ℕ → Env
on_local react bound hash self = local_env react bound open_filter hash self
