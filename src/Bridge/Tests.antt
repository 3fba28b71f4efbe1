-- ===== src/Bridge/Tests.antt =====
-- The theorems on the bridge at concrete inputs. Channel `a` has the name of the byte 97.
use zerobus.Prelude.{
  ℕ, ◌≡◌, refl, ap, ◌&&◌, not, List, [], ◌∷◌, some, true, false, Bool, ltb, length, arith,
}
use zerobus.Messages.{ChannelId, Operation, Msg}
use zerobus.Bus.Routing.{done}
use zerobus.Bus.State.{Bus, new_bus}
use zerobus.Bus.Subscriptions.{subscribe}
use zerobus.Bus.Delivery.{Reaction}
use zerobus.Bus.Valid.State.{IsValid}
use zerobus.Bus.Valid.Initial.{new_bus-IsValid}
use zerobus.Bus.Valid.Subscriptions.{subscribe-IsValid}
use zerobus.Bus.Effect.Listing.{found_with, reaches}
use zerobus.Bridge.Api.{Bridge, Env, new_bridge, send}
use zerobus.Bridge.Channels.{asked_again, announce, send_mine_channels}
use zerobus.Bridge.Receive.{receive_update_serial}
use zerobus.Bridge.View.Announce.{
  view, Synced, Announced, announce-Announced, announce_reset-Announced,
}
use zerobus.Bridge.View.Requests.{lock_after, resets, asked_again-lock_after}
use zerobus.Bridge.View.Rounds.{Finished, send_mine_channels_ends}
use zerobus.Bridge.Local.{on_local, local_laws, open_filter_settles}
use zerobus.Bridge.Local.Announce.{send_mine_channels-reaches}
use zerobus.Bridge.Local.Cycle.{closes_cycle, receive_update_serial-closes_cycle}

abbrev a : ChannelId
a = 97 ∷ []

abbrev b : ChannelId
b = 98 ∷ []

abbrev head : List ℕ → ℕ
head [] = 0
head (x ∷ xs) = x

-- Three requests, one of them with reset.
asked_again-lock_after_example :
    asked_again (lock_after 0 (false ∷ true ∷ false ∷ []))
    ≡ (ltb 1 (length (false ∷ true ∷ false ∷ [])), ltb 1 (resets (false ∷ true ∷ false ∷ [])))
asked_again-lock_after_example = asked_again-lock_after (false ∷ true ∷ false ∷ []) (omega arith)

-- The other side knows channel `a`.
abbrev knows_a : Bridge Bool Bool
knows_a = record (send (Msg.channel_update (a ∷ []) Operation.replace) (new_bridge true)) {
  cur_channels = a ∷ [];
}

knows_a-Synced : Synced knows_a
knows_a-Synced n = refl

announce-Announced_example : Announced (b ∷ []) (announce (b ∷ []) false knows_a)
announce-Announced_example = announce-Announced (b ∷ []) knows_a (tt, tt) (tt, tt) knows_a-Synced

announce_reset-Announced_example : Announced (b ∷ []) (announce (b ∷ []) true knows_a)
announce_reset-Announced_example = announce_reset-Announced (b ∷ []) knows_a (tt, tt) refl

abbrev quiet : Reaction
quiet es l msg pm = []

abbrev one_hash : ChannelId → ℕ
one_hash name = length name

-- A bus whose serial number is `b`, where listener 3 is subscribed to `a`.
abbrev one_in : Bus
one_in = (subscribe 3 a (new_bus b (λ i. i ∷ []))).1

one_in-IsValid : IsValid one_in
one_in-IsValid = subscribe-IsValid 3 a _ (new_bus-IsValid b (λ i. i ∷ []) (λ i j e. ap head e))

-- Listener 4 is the bridge.
abbrev here : Env
here = on_local quiet 1 one_hash 4

abbrev bridge : Bridge Bus Bool
bridge = new_bridge one_in

-- The same bridge with a filter whose rules are new.
abbrev filtering : Bridge Bus Bool
filtering = record bridge { filter = some false }

bridge-Synced : Synced bridge
bridge-Synced n = refl

send_mine_channels_ends_example :
    (c : Bridge Bus Bool) × (send_mine_channels here 2 true filtering ≡ done c)
    × Finished here (local_laws quiet 1 4) open_filter_settles true filtering c
unfolding local_laws open_filter_settles
send_mine_channels_ends_example =
    send_mine_channels_ends here (local_laws quiet 1 4) open_filter_settles 2 true filtering
      one_in-IsValid refl (omega arith)

send_mine_channels-reaches_example :
    (c : Bridge Bus Bool) × (send_mine_channels here 1 false bridge ≡ done c)
    × ((n : ChannelId)
        → view n c ≡ (not false && found_with (reaches 4) n one_in.chan one_in.channels))
send_mine_channels-reaches_example =
    send_mine_channels-reaches quiet 1 one_hash 4 0 bridge one_in-IsValid refl refl tt bridge-Synced

-- The bus's own serial number comes back to it.
receive_update_serial-closes_cycle_example :
    (c : Bridge Bus Bool) × (receive_update_serial here 1 b bridge ≡ done c)
    × (c.cycle_detected ≡ closes_cycle 4 b one_in)
receive_update_serial-closes_cycle_example =
    receive_update_serial-closes_cycle quiet 1 one_hash 4 0 b bridge one_in-IsValid refl refl
