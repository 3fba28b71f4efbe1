-- ===== src/Bridge/Local/Announce.antt =====
-- What a bridge on LocalBus announces: send_mine_channels of src/zerobus/bridge.cpp with
-- get_active_channels of src/zerobus/local_bus.cpp.
use zerobus.Prelude.{ℕ, suc, ◌≡◌, refl, ◌∙◌, Bool, true, false, none, not, ◌&&◌, [], if◌then◌else◌}
use zerobus.Messages.{ChannelId}
use zerobus.Bus.Routing.{done}
use zerobus.Bus.State.{Bus}
use zerobus.Bus.Subscriptions.{get_active_channels}
use zerobus.Bus.Delivery.{Reaction}
use zerobus.Bus.Valid.State.{IsValid}
use zerobus.Bus.Effect.Listing.{listed, found_with, reaches, get_active_channels-reaches}
use zerobus.Bridge.Api.{Bridge, Env}
use zerobus.Bridge.Channels.{send_mine_channels}
use zerobus.Bridge.View.Difference.{Ascending}
use zerobus.Bridge.View.Announce.{view, Synced}
use zerobus.Bridge.View.Rounds.{send_mine_channels_unfiltered}
use zerobus.Bridge.Local.{on_local, local_laws, open_filter_settles}

listed_own :
    (cycle : Bool) (n : ChannelId) (s : Bus) (self : ℕ)
    → IsValid s
    → listed n (if cycle then [] else get_active_channels self s)
      ≡ (not cycle && found_with (reaches self) n s.chan s.channels)
listed_own true n s self v = refl
listed_own false n s self v = get_active_channels-reaches self n s v

module _ (react : Reaction) (bound : ℕ) (hash : ChannelId → ℕ) (self : ℕ) where
  abbrev here : Env
  here = on_local react bound hash self

  -- On a well-formed LocalBus, send_mine_channels of a bridge without a filter, which nobody
  -- else is running, returns after one round, if the list that it keeps is in order and is what
  -- the updates sent so far let the other side know; the updates that it then has sent let the
  -- other side know exactly the channels that are no groups and where a message from the bridge
  -- would reach somebody, and none in a cycle.
  pub send_mine_channels-reaches :
      (rounds : ℕ) (b : Bridge Bus Bool)
      → IsValid b.bus
      → b.send_mine_channels_lock ≡ 0
      → b.filter ≡ none
      → Ascending b.cur_channels
      → Synced b
      → (c : Bridge Bus Bool) × (send_mine_channels here (suc rounds) false b ≡ done c)
        × ((n : ChannelId)
            → view n c
              ≡ (not b.cycle_detected && found_with (reaches self) n b.bus.chan b.bus.channels))
  unfolding local_laws
  send_mine_channels-reaches rounds b v z h ac sy =
      let (c, s, a) =
        send_mine_channels_unfiltered here (local_laws react bound self) open_filter_settles rounds
          b v z h ac sy in
      (c, s, λ n. a.known n ∙ listed_own b.cycle_detected n b.bus self v)
