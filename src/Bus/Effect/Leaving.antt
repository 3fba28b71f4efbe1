-- ===== src/Bus/Effect/Leaving.antt =====
-- Unsubscribing while nothing is delivered on the thread. A channel that loses its last listener
-- leaves the map.
use zerobus.Prelude.{
  ℕ, ◌≡◌, refl, sym, ap, ◌∙◌, Bool, true, false, not, ◌&&◌, List, [], ◌∷◌, none, some, arith, ◌==◌,
  ==_iff, if◌then◌else◌, inl, inr, Option-cases, Bool-cases,
}
use mathlib.Core.Path.{ap₂}
use zerobus.Prelude.Keys.{bytes_eq, ◌=?◌, =?_iff, =?_self}
use zerobus.Prelude.Assoc.{lookup, erase, lookup-erase, erase_fresh}
use zerobus.Prelude.Sorted.{Ordered-Distinct}
use zerobus.Messages.{ChannelId}
use zerobus.Bus.Channel.{ChanDef, remove_listener, has, has_listener, erase_listener, is_empty}
use zerobus.Bus.Channel.Listeners.{has-erase_listener, erase_listener-IsSorted}
use zerobus.Bus.State.{Bus, remove_from, update, lock}
use zerobus.Bus.Deferred.{erase_channel, channel_is_empty, execute_lsn, release_item, enqueue_lsn}
use zerobus.Bus.Subscriptions.{unsubscribe_lk, unsubscribe}
use zerobus.Bus.Valid.Channels.{ChannelsOk, ChannelsOk-update}
use zerobus.Bus.Valid.State.{IsValid, lock-IsValid}
use zerobus.Bus.Effect.Idle.{
  IsIdle, drop_channel-SameMaps, unlock-SameMaps, enqueue_idle, started, lock-IsIdle,
}
use zerobus.Bus.Effect.Members.{
  member_of, is_member, member_of-update, member_of_found, SameMaps-member,
}

-- The map lets go of a name, and nothing else changes that subscriptions depend on.
record Dropped (name : ChannelId) (s t : Bus) : Type 0 where
  chan : t.chan ≡ s.chan
  channels : t.channels ≡ erase name s.channels
  lsn_queue : t.lsn_queue ≡ s.lsn_queue

erase_channel-Dropped : (name : ChannelId) (s : Bus) → Dropped name s (erase_channel name s)
unfolding erase_channel
erase_channel-Dropped name s = elim (Option-cases (lookup name s.channels)) [
  | inl e ↦
      rw (e, erase_channel)
        (record { chan = refl; channels = sym (erase_fresh name s.channels e); lsn_queue = refl })
  | inr (c, e) ↦
      let h = drop_channel-SameMaps c (record s { channels = erase name s.channels }) in
      rw (e, erase_channel)
        (record { chan = h.chan; channels = h.channels; lsn_queue = h.lsn_queue })
]

channel_is_empty-Dropped : (name : ChannelId) (s : Bus) → Dropped name s (channel_is_empty name s)
unfolding channel_is_empty lock
channel_is_empty-Dropped name s =
    let u = unlock-SameMaps (erase_channel name (lock s)) in
    let d = erase_channel-Dropped name (lock s) in
    record {
      chan = u.chan ∙ d.chan;
      channels = u.channels ∙ d.channels;
      lsn_queue = u.lsn_queue ∙ d.lsn_queue;
    }

-- The relation without a name that no listener has.
member_of-erase :
    (k : ℕ) (n name : ChannelId) (chan : ℕ → ChanDef) (next : ℕ) (m : List (ChannelId × ℕ))
    → ChannelsOk chan next m
    → ((j : ℕ) → member_of j name chan m ≡ false)
    → member_of k n chan (erase name m) ≡ member_of k n chan m
unfolding member_of
member_of-erase k n name chan next m v none_left = elim (Bool-cases (name =? n)) [
  | inl hit ↦
      rw (lookup-erase n name m (Ordered-Distinct m v.ordered), hit, member_of)
        (sym (rw ((=?_iff name n).0 hit) at none_left k))
  | inr miss ↦ rw (lookup-erase n name m (Ordered-Distinct m v.ordered), miss, member_of) refl
]

abbrev removed : ℕ → ℕ → Bus → Bus
removed c l s = record s { chan = update s.chan c (remove_listener l (s.chan c)).0 }

removed-is_member :
    (k l : ℕ) (n name : ChannelId) (c : ℕ) (s : Bus)
    → IsValid s
    → lookup name s.channels ≡ some c
    → is_member k n (removed c l s) ≡ (not (name =? n && (l == k)) && is_member k n s)
removed-is_member k l n name c s v found =
    member_of-update v.channels k n name c (remove_listener l (s.chan c)).0 found
    ∙ ground (
      arith,
      =?_iff name n,
      member_of_found k name c s.chan s.channels found,
      has-erase_listener k l (s.chan c).listeners (v.channels.sorted c),
    )

has-is_empty : (k : ℕ) (xs : List ℕ) → is_empty xs ≡ true → has_listener k xs ≡ false
unfolding has_listener
has-is_empty k [] e = refl
has-is_empty k (x ∷ xs) e = cc

-- The last listener of the channel goes, and the name with it.
last_out :
    (k l : ℕ) (n name : ChannelId) (c : ℕ) (s : Bus)
    → IsValid s
    → lookup name s.channels ≡ some c
    → is_empty (erase_listener l (s.chan c).listeners) ≡ true
    → is_member k n (channel_is_empty name (removed c l s)) ≡ is_member k n (removed c l s)
last_out k l n name c s v found e =
    let d = channel_is_empty-Dropped name (removed c l s) in
    ap₂ (λ f m. member_of k n f m) d.chan d.channels
    ∙ member_of-erase k n name (removed c l s).chan s.next_chan s.channels
        (ChannelsOk-update v.channels c _ refl (erase_listener-IsSorted l _ (v.channels.sorted c)))
        (λ j.
          member_of-update v.channels j name name c (remove_listener l (s.chan c)).0 found
          ∙ rw (=?_self name) (has-is_empty j _ e))

execute_remove-is_member :
    (k l : ℕ) (n name : ChannelId) (c : ℕ) (s : Bus)
    → IsValid s
    → lookup name s.channels ≡ some c
    → is_member k n (execute_lsn (remove_from c l) s)
      ≡ (not (name =? n && (l == k)) && is_member k n s)
unfolding execute_lsn
execute_remove-is_member k l n name c s v found =
    elim (Bool-cases (is_empty (erase_listener l (s.chan c).listeners))) [
      | inl e ↦ rw e (
          ap (λ m. is_member k n (channel_is_empty m (removed c l s)))
            (v.channels.named name c found).0
          ∙ last_out k l n name c s v found e
          ∙ removed-is_member k l n name c s v found)
      | inr e ↦ rw e (removed-is_member k l n name c s v found)
    ]

execute_remove-lsn_queue :
    (c l : ℕ) (s : Bus) → (execute_lsn (remove_from c l) s).lsn_queue ≡ s.lsn_queue
unfolding execute_lsn
execute_remove-lsn_queue c l s =
    elim (Bool-cases (is_empty (erase_listener l (s.chan c).listeners))) [
      | inl e ↦ rw e ((channel_is_empty-Dropped (s.chan c).name (removed c l s)).lsn_queue)
      | inr e ↦ rw e refl
    ]

enqueue_remove :
    (k l : ℕ) (n name : ChannelId) (c : ℕ) (s : Bus)
    → IsValid s
    → IsIdle s
    → lookup name s.channels ≡ some c
    → is_member k n (record (enqueue_lsn (remove_from c l) s) { channels_change = true })
      ≡ (not (name =? n && (l == k)) && is_member k n s)
unfolding release_item
enqueue_remove k l n name c s v idle found =
    let start = started (remove_from c l) s in
    ap (is_member k n)
      (enqueue_idle (remove_from c l) s idle (execute_remove-lsn_queue c l start ∙ idle.no_change))
    ∙ SameMaps-member k n (drop_channel-SameMaps c _)
    ∙ execute_remove-is_member k l n name c start
        (record { channels = v.channels; boxes = v.boxes; paths = v.paths }) found

not_there :
    (k l : ℕ) (n name : ChannelId) (c : ℕ) (s : Bus)
    → lookup name s.channels ≡ some c
    → has l (s.chan c) ≡ false
    → is_member k n s ≡ (not (name =? n && (l == k)) && is_member k n s)
not_there k l n name c s found e =
    ground (arith, =?_iff name n, ==_iff l k, member_of_found k name c s.chan s.channels found)

no_channel :
    (k l : ℕ) (n name : ChannelId) (s : Bus)
    → lookup name s.channels ≡ none
    → is_member k n s ≡ (not (name =? n && (l == k)) && is_member k n s)
unfolding member_of
no_channel k l n name s e = ground (arith, =?_iff name n)

if-member :
    (b : Bool) (k : ℕ) (n : ChannelId) (x y : Bus) (r : Bool)
    → is_member k n x ≡ r
    → (b ≡ false → is_member k n y ≡ r)
    → is_member k n (if b then x else y) ≡ r
if-member true k n x y r h j = h
if-member false k n x y r h j = j refl

unsubscribe_lk-is_member :
    (k l : ℕ) (n name : ChannelId) (s : Bus)
    → IsValid s
    → IsIdle s
    → is_member k n (unsubscribe_lk l name s) ≡ (not (name =? n && (l == k)) && is_member k n s)
unfolding unsubscribe_lk
unsubscribe_lk-is_member k l n name s v idle = elim (Option-cases (lookup name s.channels)) [
  | inl e ↦ rw (e, unsubscribe_lk) (no_channel k l n name s e)
  | inr (c, e) ↦
      rw (e, unsubscribe_lk)
        (if-member (has l (s.chan c)) k n _ s _ (enqueue_remove k l n name c s v idle e)
          (not_there k l n name c s e))
]

-- On a well-formed bus, while nothing is delivered on the thread and nothing waits, unsubscribe
-- takes exactly the pair of the listener and the name out of the relation of who is subscribed
-- to what, also where the channel goes away with its last listener.
pub unsubscribe-is_member :
    (k l : ℕ) (n name : ChannelId) (s : Bus)
    → IsValid s
    → IsIdle s
    → is_member k n (unsubscribe l name s) ≡ (not (name =? n && (l == k)) && is_member k n s)
unfolding unsubscribe
unsubscribe-is_member k l n name s v idle =
    SameMaps-member k n (unlock-SameMaps _)
    ∙ unsubscribe_lk-is_member k l n name (lock s) (lock-IsValid s v) (lock-IsIdle s idle)
    ∙ unfold lock in refl
