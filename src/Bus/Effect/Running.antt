-- ===== src/Bus/Effect/Running.antt =====
-- Calls from a callback, while a delivery runs on the thread (enqueue_lsn).
use zerobus.Prelude.{
  ℕ, ◌≡◌, refl, ap, ◌∙◌, Bool, true, false, List, [], ◌∷◌, ◌++◌, if◌then◌else◌, inl, inr,
  Option-cases,
}
use mathlib.Core.Path.{ap₂}
use zerobus.Prelude.Keys.{bytes_eq}
use zerobus.Prelude.Assoc.{lookup}
use zerobus.Messages.{ChannelId}
use zerobus.Bus.Channel.{has}
use zerobus.Bus.State.{Bus, LsnItem, remove_from, lock, unlock}
use zerobus.Bus.Deferred.{enqueue_lsn, item_channels, release_item, run_lsn_queue, execute_lsn}
use zerobus.Bus.Subscriptions.{
  unsubscribe, unsubscribe_lk, remove_each, unsubscribe_all_channels, unsubscribe_all_channels_lk,
  mark_change, subscribed,
}
use zerobus.Bus.Effect.Idle.{unlock-SameMaps}
use zerobus.Bus.Effect.Members.{member_of, is_member}

-- Nothing that says who is subscribed to what has changed, and the delivery still runs.
record Kept (s t : Bus) : Type 0 where
  chan : t.chan ≡ s.chan
  channels : t.channels ≡ s.channels
  running : t.running ≡ s.running

Kept-trans : {s t u : Bus} → Kept s t → Kept t u → Kept s u
Kept-trans h k = record {
  chan = k.chan ∙ h.chan;
  channels = k.channels ∙ h.channels;
  running = k.running ∙ h.running;
}

unlock-Kept : (s : Bus) → Kept s (unlock s)
unlock-Kept s =
    let h = unlock-SameMaps s in
    record { chan = h.chan; channels = h.channels; running = h.running }

if-Kept : (b : Bool) (s t u : Bus) → Kept s t → Kept s u → Kept s (if b then t else u)
if-Kept true s t u h k = h
if-Kept false s t u h k = k

Kept-member : {s t : Bus} (k : ℕ) (n : ChannelId) → Kept s t → is_member k n t ≡ is_member k n s
Kept-member k n h = ap₂ (λ f m. member_of k n f m) h.chan h.channels

-- The item goes to the end of the queue.
enqueue_running :
    (i : LsnItem) (s : Bus)
    → s.running ≡ true
    → enqueue_lsn i s ≡ record s { lsn_queue = s.lsn_queue ++ (i ∷ []) }
unfolding enqueue_lsn
enqueue_running i s e =
    ap
      (λ b.
        if b
        then record s { lsn_queue = s.lsn_queue ++ (i ∷ []) }
        else release_item i
            (record (run_lsn_queue
              (execute_lsn i (record s { running = true; held = item_channels i ++ s.held }))) {
                running = false;
                held = s.held;
              }))
      e

enqueue-Kept : (i : LsnItem) (s : Bus) → s.running ≡ true → Kept s (enqueue_lsn i s)
enqueue-Kept i s e =
    let h = enqueue_running i s e in
    record {
      chan = ap (λ t. t.chan) h;
      channels = ap (λ t. t.channels) h;
      running = ap (λ t. t.running) h;
    }

unsubscribe_lk-Kept :
    (l : ℕ) (name : ChannelId) (s : Bus) → s.running ≡ true → Kept s (unsubscribe_lk l name s)
unfolding unsubscribe_lk
unsubscribe_lk-Kept l name s e = elim (Option-cases (lookup name s.channels)) [
  | inl f ↦ rw (f, unsubscribe_lk) (record { chan = refl; channels = refl; running = refl })
  | inr (c, f) ↦
      let h = enqueue-Kept (remove_from c l) s e in
      rw (f, unsubscribe_lk)
        (if-Kept (has l (s.chan c)) s _ s
          (record { chan = h.chan; channels = h.channels; running = h.running })
          (record { chan = refl; channels = refl; running = refl }))
]

remove_each-Kept : (l : ℕ) (cs : List ℕ) (s : Bus) → s.running ≡ true → Kept s (remove_each l cs s)
unfolding remove_each
remove_each-Kept l [] s e = record { chan = refl; channels = refl; running = refl }
remove_each-Kept l (c ∷ cs) s e =
    let h = enqueue-Kept (remove_from c l) (record s { held = cs ++ s.held }) e in
    let t = record (enqueue_lsn (remove_from c l) (record s { held = cs ++ s.held })) {
      held = s.held;
    } in
    Kept-trans (record { chan = h.chan; channels = h.channels; running = h.running })
      (remove_each-Kept l cs t (h.running ∙ e))

mark_change-Kept : (b : Bool) (s : Bus) → Kept s (mark_change (b, s))
mark_change-Kept true s = record { chan = refl; channels = refl; running = refl }
mark_change-Kept false s = record { chan = refl; channels = refl; running = refl }

-- While a delivery runs on the thread, unsubscribe and unsubscribe_all_channels leave the
-- relation of who is subscribed to what as it is when they return, so that the listener that
-- asked is still in its channels.
pub unsubscribe-waits :
    (k l : ℕ) (n name : ChannelId) (b : Bool) (s : Bus)
    → s.running ≡ true
    → (is_member k n (unsubscribe l name s) ≡ is_member k n s)
      × (is_member k n (unsubscribe_all_channels l b s) ≡ is_member k n s)
unfolding unsubscribe unsubscribe_all_channels unsubscribe_all_channels_lk lock
unsubscribe-waits k l n name b s e = (
  Kept-member k n (Kept-trans (unsubscribe_lk-Kept l name (lock s) e) (unlock-Kept _)),
  Kept-member k n (
      Kept-trans
        (Kept-trans (remove_each-Kept l (subscribed l b s.chan s.channels) (lock s) e)
          (mark_change-Kept _ _))
        (unlock-Kept _)),
)
