-- ===== src/Bus/Effect/Members.antt =====
-- The bus as a relation between listeners and names of channels, and what subscribing and
-- unsubscribing do to it while nothing is delivered on the thread.
use zerobus.Prelude.{
  ℕ, ◌≡◌, refl, ap, ◌∙◌, Bool, true, false, ◌&&◌, ◌||◌, List, [], ◌∷◌, none, some, arith, ◌==◌,
  ==_iff, if◌then◌else◌, inl, inr, Option-cases,
}
use zerobus.Prelude.Keys.{bytes_eq, ◌=?◌, =?_iff}
use zerobus.Prelude.Assoc.{lookup}
use zerobus.Prelude.Sorted.{lookup-insert_sorted, insert_sorted}
use mathlib.Core.Path.{ap₂}
use zerobus.Messages.{ChannelId}
use zerobus.Bus.Channel.{ChanDef, new_channel, add_listener, has, has_listener}
use zerobus.Bus.Channel.Listeners.{has-insert_listener}
use zerobus.Bus.State.{Bus, add_to, update, lock}
use zerobus.Bus.Deferred.{get_channel_lk, enqueue_lsn}
use zerobus.Bus.Subscriptions.{subscribe_lk, subscribe}
use zerobus.Bus.Valid.Channels.{ChannelsOk}
use zerobus.Bus.Valid.State.{IsValid, lock-IsValid}
use zerobus.Bus.Valid.Deferred.{get_channel_lk-IsValid}
use zerobus.Bus.Effect.Idle.{
  IsIdle, SameMaps, drop_channel-SameMaps, unlock-SameMaps, enqueue_add, get_channel_lk-lookup,
  get_channel_lk-IsIdle, lock-IsIdle,
}

-- Whether the listener is subscribed to the channel of that name.
unfoldable pub member_of : (k : ℕ) → ChannelId → (ℕ → ChanDef) → List (ChannelId × ℕ) → Bool
member_of k n chan m = elim (lookup n m) [ none ↦ false | some c ↦ has k (chan c) ]

abbrev pub is_member : ℕ → ChannelId → Bus → Bool
is_member k n s = member_of k n s.chan s.channels

module _ {chan : ℕ → ChanDef} {next : ℕ} {m : List (ChannelId × ℕ)}
    (v : ChannelsOk chan next m) where
  -- A channel of another name is another channel.
  pub member_of-update :
      (k : ℕ) (n name : ChannelId) (c : ℕ) (ch : ChanDef)
      → lookup name m ≡ some c
      → member_of k n (update chan c ch) m ≡ (if name =? n then has k ch else member_of k n chan m)
  unfolding member_of
  member_of-update k n name c ch found = elim (Option-cases (lookup n m)) [
    | inl e ↦ rw (e, member_of) (ground (arith, =?_iff name n))
    | inr (d, e) ↦
        rw (e, member_of)
          (ground (arith, =?_iff name n, v.named name c found, v.named n d e, ==_iff d c))
  ]

  member_of-insert :
      (k : ℕ) (n name : ChannelId)
      → lookup name m ≡ none
      → member_of k n (update chan next (new_channel name)) (insert_sorted name next m)
        ≡ member_of k n chan m
  unfolding member_of has_listener
  member_of-insert k n name new = elim (Option-cases (lookup n m)) [
    | inl e ↦ ground (arith, lookup-insert_sorted n name next m new, =?_iff name n)
    | inr (d, e) ↦
        ground (arith, lookup-insert_sorted n name next m new, =?_iff name n, v.named n d e)
  ]

get_channel_lk-member_of :
    (k : ℕ) (n name : ChannelId) (s : Bus)
    → IsValid s
    → is_member k n (get_channel_lk name s).1 ≡ is_member k n s
unfolding get_channel_lk
get_channel_lk-member_of k n name s v = elim (Option-cases (lookup name s.channels)) [
  | inl new ↦ rw (new, get_channel_lk) (member_of-insert v.channels k n name new)
  | inr (c, old) ↦ rw (old, get_channel_lk)
]

pub member_of_found :
    (k : ℕ) (n : ChannelId) (c : ℕ) (chan : ℕ → ChanDef) (m : List (ChannelId × ℕ))
    → lookup n m ≡ some c
    → member_of k n chan m ≡ has k (chan c)
unfolding member_of
member_of_found k n c chan m e = rw (e, member_of)

pub SameMaps-member :
    {s t : Bus} (k : ℕ) (n : ChannelId) → SameMaps s t → is_member k n t ≡ is_member k n s
SameMaps-member k n h = ap₂ (λ f m. member_of k n f m) h.chan h.channels

-- After a subscription that is accepted.
accepted :
    (k l : ℕ) (n name : ChannelId) (c : ℕ) (t : Bus)
    → IsValid t
    → IsIdle t
    → lookup name t.channels ≡ some c
    → is_member k n (record (enqueue_lsn (add_to c l) t) { channels_change = true })
      ≡ (if name =? n then (l == k) || is_member k n t else is_member k n t)
accepted k l n name c t v idle found =
    ap (is_member k n) (enqueue_add c l t idle)
    ∙ SameMaps-member k n (drop_channel-SameMaps c _)
    ∙ member_of-update v.channels k n name c (add_listener l (t.chan c)) found
    ∙ ground (
      arith,
      =?_iff name n,
      member_of_found k name c t.chan t.channels found,
      has-insert_listener k l (t.chan c).listeners (v.channels.sorted c),
    )

-- The two branches of subscribe_lk.
branches :
    (b q before : Bool) (f : Bus → Bool) (x y : Bus)
    → f x ≡ (q || before)
    → f y ≡ before
    → let r = if◌then◌else◌ {A = Bool × Bus} b (true, x) (false, y) in
      f r.1 ≡ ((r.0 && q) || before)
branches true q before f x y hx hy = hx
branches false q before f x y hx hy = hy

subscribe_lk-is_member :
    (k l : ℕ) (n name : ChannelId) (s : Bus)
    → IsValid s
    → IsIdle s
    → let (r, t) = subscribe_lk l name s in
      is_member k n t ≡ ((r && (name =? n && (l == k))) || is_member k n s)
unfolding subscribe_lk
subscribe_lk-is_member k l n [] s v idle = refl
subscribe_lk-is_member k l n (b ∷ name) s v idle =
    let (c, t) = get_channel_lk (b ∷ name) s in
    let same = get_channel_lk-member_of k n (b ∷ name) s v in
    branches _ _ _ (is_member k n) _ t
      (accepted k l n (b ∷ name) c t (get_channel_lk-IsValid _ s v) (get_channel_lk-IsIdle _ s idle)
          (get_channel_lk-lookup (b ∷ name) s)
        ∙ ground (arith, same))
      same

-- On a well-formed bus, while nothing is delivered on the thread and nothing waits, subscribe
-- adds exactly the pair of the listener and the name to the relation of who is subscribed to
-- what if it returns true, and changes nothing in that relation if it returns false.
pub subscribe-is_member :
    (k l : ℕ) (n name : ChannelId) (s : Bus)
    → IsValid s
    → IsIdle s
    → let (r, t) = subscribe l name s in
      is_member k n t ≡ ((r && (name =? n && (l == k))) || is_member k n s)
unfolding subscribe
subscribe-is_member k l n name s v idle =
    SameMaps-member k n (unlock-SameMaps _)
    ∙ subscribe_lk-is_member k l n name (lock s) (lock-IsValid s v) (lock-IsIdle s idle)
    ∙ unfold lock in refl
