-- ===== src/Bus/Valid/Channels.antt =====
-- The channel map and the channels that it names.
use zerobus.Prelude.{ℕ, suc, ◌<◌, ◌≡◌, List, none, some, arith}
use zerobus.Prelude.Keys.{bytes_eq, =?_iff}
use zerobus.Prelude.Assoc.{lookup, erase, lookup-erase}
use zerobus.Prelude.Sorted.{
  insert_sorted, Ordered, Ordered-Distinct, Ordered-insert_sorted, Ordered-erase,
  lookup-insert_sorted,
}
use zerobus.Messages.{ChannelId}
use zerobus.Bus.Channel.{ChanDef, new_channel}
use zerobus.Bus.Channel.Listeners.{IsSorted}
use zerobus.Bus.State.{update}

-- The map is in order, each entry names a channel that was made and bears that name, and every
-- channel's vector of listeners is sorted.
pub record ChannelsOk (chan : ℕ → ChanDef) (next : ℕ) (m : List (ChannelId × ℕ)) : Type 0 where
  pub ordered : Ordered m
  pub named :
      (name : ChannelId) (c : ℕ) → lookup name m ≡ some c → ((chan c).name ≡ name) × (c < next)
  pub sorted : (c : ℕ) → IsSorted (chan c).listeners

module _ {chan : ℕ → ChanDef} {next : ℕ} {m : List (ChannelId × ℕ)}
    (v : ChannelsOk chan next m) where
  -- A channel changes its owner or its listeners.
  pub ChannelsOk-update :
      (c : ℕ) (ch : ChanDef)
      → ch.name ≡ (chan c).name
      → IsSorted ch.listeners
      → ChannelsOk (update chan c ch) next m
  ChannelsOk-update c ch same s = record {
    ordered = v.ordered;
    named = λ name d e. ground (arith, v.named name d e);
    sorted = λ d. ground (arith, v.sorted d);
  }

  pub ChannelsOk-insert :
      (name : ChannelId)
      → lookup name m ≡ none
      → ChannelsOk (update chan next (new_channel name)) (suc next) (insert_sorted name next m)
  ChannelsOk-insert name new = record {
    ordered = Ordered-insert_sorted name next m new v.ordered;
    named =
        λ k c e. ground (arith, lookup-insert_sorted k name next m new, =?_iff name k, v.named k c);
    sorted = λ d. ground (arith, v.sorted d);
  }

  pub ChannelsOk-erase : (name : ChannelId) → ChannelsOk chan next (erase name m)
  ChannelsOk-erase name = record {
    ordered = Ordered-erase name m v.ordered;
    named =
        λ k c e. ground (arith, lookup-erase k name m (Ordered-Distinct m v.ordered), v.named k c);
    sorted = v.sorted;
  }
