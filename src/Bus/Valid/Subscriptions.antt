-- ===== src/Bus/Valid/Subscriptions.antt =====
-- The calls that change subscriptions keep the bus well formed.
use zerobus.Prelude.{
  ℕ, Bool, true, false, List, [], ◌∷◌, ◌++◌, if◌then◌else◌, inl, inr, Option-cases,
}
use zerobus.Prelude.Keys.{nat_eq, bytes_eq}
use zerobus.Prelude.Assoc.{lookup}
use zerobus.Messages.{ChannelId, Operation}
use zerobus.Bus.Channel.{has}
use zerobus.Bus.State.{Bus, remove_from}
use zerobus.Bus.Subscriptions.{
  subscribe_lk, subscribe, unsubscribe_lk, unsubscribe, remove_each, unsubscribe_all_channels_lk,
  mark_change, unsubscribe_all_channels, subscribe_each, unsubscribe_each, update_lk,
  update_subscription, subscribed,
}
use zerobus.Bus.Valid.State.{IsValid, lock-IsValid, unlock-IsValid, if-IsValid}
use zerobus.Bus.Valid.Deferred.{get_channel_lk-IsValid, enqueue_lsn-IsValid}

-- A step that leaves the maps, their objects and the return paths alone.
pub marked : (s : Bus) → IsValid s → IsValid (record s { channels_change = true })
marked s v = record { channels = v.channels; boxes = v.boxes; paths = v.paths }

pub holding : (cs : List ℕ) (s : Bus) → IsValid s → IsValid (record s { held = cs })
holding cs s v = record { channels = v.channels; boxes = v.boxes; paths = v.paths }

pub mark_change-IsValid : (b : Bool) (s : Bus) → IsValid s → IsValid (mark_change (b, s))
mark_change-IsValid true s v = marked s v
mark_change-IsValid false s v = v

pub if-pair :
    {A : Type 0} (b : Bool) (p q : A × Bus)
    → IsValid p.1
    → IsValid q.1
    → IsValid (if b then p else q).1
if-pair true p q v w = v
if-pair false p q v w = w

subscribe_lk-IsValid :
    (l : ℕ) (name : ChannelId) (s : Bus) → IsValid s → IsValid (subscribe_lk l name s).1
unfolding subscribe_lk
subscribe_lk-IsValid l [] s v = v
subscribe_lk-IsValid l (b ∷ name) s v =
    let w = get_channel_lk-IsValid (b ∷ name) s v in
    if-pair _ _ _ (marked _ (enqueue_lsn-IsValid _ _ w)) w

pub subscribe-IsValid :
    (l : ℕ) (name : ChannelId) (s : Bus) → IsValid s → IsValid (subscribe l name s).1
unfolding subscribe
subscribe-IsValid l name s v = unlock-IsValid _ (subscribe_lk-IsValid l name _ (lock-IsValid s v))

unsubscribe_lk-IsValid :
    (l : ℕ) (name : ChannelId) (s : Bus) → IsValid s → IsValid (unsubscribe_lk l name s)
unfolding unsubscribe_lk
unsubscribe_lk-IsValid l name s v = elim (Option-cases (lookup name s.channels)) [
  | inl e ↦ rw (e, unsubscribe_lk) v
  | inr (c, e) ↦
      rw (e, unsubscribe_lk)
        (if-IsValid (has l (s.chan c)) _ s (marked _ (enqueue_lsn-IsValid (remove_from c l) s v)) v)
]

pub unsubscribe-IsValid :
    (l : ℕ) (name : ChannelId) (s : Bus) → IsValid s → IsValid (unsubscribe l name s)
unfolding unsubscribe
unsubscribe-IsValid l name s v =
    unlock-IsValid _ (unsubscribe_lk-IsValid l name _ (lock-IsValid s v))

remove_each-IsValid : (l : ℕ) (cs : List ℕ) (s : Bus) → IsValid s → IsValid (remove_each l cs s)
unfolding remove_each
remove_each-IsValid l [] s v = v
remove_each-IsValid l (c ∷ cs) s v =
    remove_each-IsValid l cs _ (holding _ _ (enqueue_lsn-IsValid _ _ (holding (cs ++ s.held) s v)))

pub unsubscribe_all_channels_lk-IsValid :
    (l : ℕ) (b : Bool) (s : Bus)
    → IsValid s
    → IsValid (mark_change (unsubscribe_all_channels_lk l b s))
unfolding unsubscribe_all_channels_lk
unsubscribe_all_channels_lk-IsValid l b s v =
    mark_change-IsValid _ _ (remove_each-IsValid l (subscribed l b s.chan s.channels) s v)

pub unsubscribe_all_channels-IsValid :
    (l : ℕ) (b : Bool) (s : Bus) → IsValid s → IsValid (unsubscribe_all_channels l b s)
unfolding unsubscribe_all_channels
unsubscribe_all_channels-IsValid l b s v =
    unlock-IsValid _ (unsubscribe_all_channels_lk-IsValid l b _ (lock-IsValid s v))

subscribe_each-IsValid :
    (l : ℕ) (names : List ChannelId) (s : Bus) → IsValid s → IsValid (subscribe_each l names s)
subscribe_each-IsValid l [] s v = v
subscribe_each-IsValid l (name ∷ names) s v =
    subscribe_each-IsValid l names _ (subscribe_lk-IsValid l name s v)

unsubscribe_each-IsValid :
    (l : ℕ) (names : List ChannelId) (s : Bus) → IsValid s → IsValid (unsubscribe_each l names s)
unsubscribe_each-IsValid l [] s v = v
unsubscribe_each-IsValid l (name ∷ names) s v =
    unsubscribe_each-IsValid l names _ (unsubscribe_lk-IsValid l name s v)

update_lk-IsValid :
    (l : ℕ) (op : Operation) (names : List ChannelId) (s : Bus)
    → IsValid s
    → IsValid (update_lk l op names s)
update_lk-IsValid l Operation.replace names s v =
    subscribe_each-IsValid l names _ (unsubscribe_all_channels_lk-IsValid l false s v)
update_lk-IsValid l Operation.add names s v = subscribe_each-IsValid l names s v
update_lk-IsValid l Operation.erase names s v = unsubscribe_each-IsValid l names s v

pub update_subscription-IsValid :
    (l : ℕ) (op : Operation) (names : List ChannelId) (s : Bus)
    → IsValid s
    → IsValid (update_subscription l op names s)
unfolding update_subscription
update_subscription-IsValid l op names s v =
    unlock-IsValid _ (update_lk-IsValid l op names _ (lock-IsValid s v))
