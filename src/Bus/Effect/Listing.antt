-- ===== src/Bus/Effect/Listing.antt =====
-- The lists of channels that the bus gives a listener.
use zerobus.Prelude.{
  ℕ, ◌≡◌, refl, ◌∙◌, Bool, false, ◌&&◌, ◌||◌, not, List, [], ◌∷◌, none, some, arith, ◌==◌, inl, inr,
  Option-cases,
}
use zerobus.Prelude.Keys.{bytes_eq, ◌=?◌, =?_iff}
use zerobus.Prelude.Assoc.{lookup, Distinct, lookup-Fresh}
use zerobus.Prelude.Sorted.{Ordered-Distinct}
use zerobus.Messages.{ChannelId}
use zerobus.Bus.Channel.{ChanDef, nullptr, has, can_export, receivers, is_empty}
use zerobus.Bus.Channel.Listeners.{listens, has_listener-listens, can_export-receivers}
use zerobus.Bus.State.{Bus}
use zerobus.Bus.Subscriptions.{select_names, get_active_channels, get_subscribed_channels}
use zerobus.Bus.Valid.State.{IsValid}

abbrev pub listed : ChannelId → List ChannelId → Bool
listed n [] = false
listed n (name ∷ names) = name =? n || listed n names

-- Whether the map has the name with a channel that passes a test.
unfoldable pub found_with :
    (ChanDef → Bool) → ChannelId → (ℕ → ChanDef) → List (ChannelId × ℕ) → Bool
found_with keep n chan m = elim (lookup n m) [ none ↦ false | some c ↦ keep (chan c) ]

select_names-listed :
    (keep : ChanDef → Bool) (n : ChannelId) (chan : ℕ → ChanDef) (m : List (ChannelId × ℕ))
    → Distinct m
    → listed n (select_names keep chan m) ≡ found_with keep n chan m
unfolding select_names found_with lookup
select_names-listed keep n chan [] d = refl
select_names-listed keep n chan ((name, c) ∷ m) d =
    ground (arith, =?_iff name n, lookup-Fresh name m d.0, select_names-listed keep n chan m d.1)

-- On a well-formed bus, get_subscribed_channels lists exactly the names of the channels among
-- whose listeners the listener is, at whatever place.
pub get_subscribed_channels-listens :
    (l : ℕ) (n : ChannelId) (s : Bus)
    → IsValid s
    → listed n (get_subscribed_channels l s)
      ≡ found_with (λ ch. listens l ch.listeners) n s.chan s.channels
unfolding get_subscribed_channels found_with
get_subscribed_channels-listens l n s v =
    select_names-listed (has l) n s.chan s.channels (Ordered-Distinct s.channels v.channels.ordered)
    ∙ elim (Option-cases (lookup n s.channels)) [
      | inl e ↦ rw (e, found_with) refl
      | inr (c, e) ↦ rw (e, found_with) (has_listener-listens l _ (v.channels.sorted c))
    ]

-- Whether a message that the listener broadcasts to the channel would reach somebody.
abbrev pub reaches : ℕ → ChanDef → Bool
reaches l ch = (ch.owner == nullptr) && not (is_empty (receivers l ch.listeners))

-- On a well-formed bus, get_active_channels lists exactly the names of the channels that are no
-- groups and where a message that the listener broadcasts would reach somebody.
pub get_active_channels-reaches :
    (l : ℕ) (n : ChannelId) (s : Bus)
    → IsValid s
    → listed n (get_active_channels l s) ≡ found_with (reaches l) n s.chan s.channels
unfolding get_active_channels found_with
get_active_channels-reaches l n s v =
    select_names-listed (can_export l) n s.chan s.channels
      (Ordered-Distinct s.channels v.channels.ordered)
    ∙ elim (Option-cases (lookup n s.channels)) [
      | inl e ↦ rw (e, found_with) refl
      | inr (c, e) ↦ rw (e, found_with) (can_export-receivers l (s.chan c) (v.channels.sorted c))
    ]
