-- ===== src/Bus/Valid/Routing.antt =====
-- The calls on a well-formed bus, given what the queue of messages does.
use zerobus.Prelude.{
  ℕ, Bool, true, false, List, [], ◌∷◌, ◌==◌, if◌then◌else◌, inl, inr, Option-cases, Bool-cases,
}
use zerobus.Prelude.Keys.{nat_eq, bytes_eq}
use zerobus.Prelude.Assoc.{lookup}
use zerobus.Messages.{ChannelId, Message}
use zerobus.Bus.Channel.{nullptr}
use zerobus.Bus.BackPath.{find_path, store_path}
use zerobus.Bus.BackPath.Lru.{store_path-IsCache}
use zerobus.Bus.State.{Bus, MsgItem, lock, unlock}
use zerobus.Bus.Routing.{
  Outcome, done, thrown, unfinished, ◌>>=◌, get_mailbox, open_channel, post_back,
  forward_message_internal, send_message, is_unknown, note_sender, dispatch_message,
}
use zerobus.Bus.Delivery.{
  Call, subscribes, unsubscribes, closes_group, leaves, leaves_private, closes_groups,
  leaves_channels, updates, groups, clears, sets_serial, monitors, unmonitors, forces, sends,
  dispatches, after, perform,
}
use zerobus.Bus.Valid.Boxes.{BoxesOk-insert}
use zerobus.Bus.Valid.State.{IsValid, lock-IsValid, unlock-IsValid, if-IsValid}
use zerobus.Bus.Valid.Subscriptions.{
  subscribe-IsValid, unsubscribe-IsValid, unsubscribe_all_channels-IsValid,
  update_subscription-IsValid,
}
use zerobus.Bus.Valid.Subscriptions.{if-pair}
use zerobus.Bus.Valid.Groups.{
  close_group-IsValid, close_all_groups-IsValid, unsubscribe_private-IsValid,
  unsubscribe_all-IsValid, add_to_group-IsValid,
}
use zerobus.Bus.Valid.Messages.{
  set_serial-IsValid, register_monitor-IsValid, unregister_monitor-IsValid,
  force_update_channels-IsValid, clear_return_path-IsValid,
}

-- If the call returns, the bus that it leaves is well formed.
abbrev pub Keeps : Outcome Bus → Type 0
Keeps (done s) = IsValid s
Keeps thrown = Unit {0}
Keeps unfinished = Unit {0}

abbrev Keeps₂ : Outcome (Bool × Bus) → Type 0
Keeps₂ (done (r, s)) = IsValid s
Keeps₂ thrown = Unit {0}
Keeps₂ unfinished = Unit {0}

-- A second step starts from what the first one left.
pub Keeps-bind :
    (m : Outcome Bus) (f : Bus → Outcome Bus)
    → Keeps m
    → ((t : Bus) → IsValid t → Keeps (f t))
    → Keeps (m >>= f)
Keeps-bind (done t) f k h = h t k
Keeps-bind thrown f k h = tt
Keeps-bind unfinished f k h = tt

pub Keeps-if : (b : Bool) (m n : Outcome Bus) → Keeps m → Keeps n → Keeps (if b then m else n)
Keeps-if true m n k h = k
Keeps-if false m n k h = h

get_mailbox-IsValid : (l : ℕ) (s : Bus) → IsValid s → IsValid (get_mailbox l s).1
unfolding get_mailbox lock
get_mailbox-IsValid l s v = elim (Option-cases (lookup l s.mailboxes_by_ptr)) [
  | inl e ↦
      let w = lock-IsValid s v in
      rw (e, get_mailbox)
        (unlock-IsValid _
          (record { channels = w.channels; boxes = BoxesOk-insert v.boxes l e; paths = w.paths }))
  | inr (m, e) ↦ rw (e, get_mailbox) (unlock-IsValid _ (lock-IsValid s v))
]

module _ (enqueue : MsgItem → Bus → Outcome Bus)
    (kept : (i : MsgItem) (s : Bus) → IsValid s → Keeps (enqueue i s))
    (back : ℕ → Message → Bus → Outcome Bus)
    (kept_back : (l : ℕ) (msg : Message) (s : Bus) → IsValid s → Keeps (back l msg s)) where
  finish : (r : Bool) (m : Outcome Bus) → Keeps m → Keeps₂ (m >>= λ t. done (r, t))
  finish r (done t) k = k
  finish r thrown k = tt
  finish r unfinished k = tt

  finish_unlocked : (m : Outcome Bus) → Keeps m → Keeps₂ (m >>= λ t. done (true, unlock t))
  finish_unlocked (done t) k = unlock-IsValid t k
  finish_unlocked thrown k = tt
  finish_unlocked unfinished k = tt

  post_back-IsValid : (msg : Message) (s : Bus) → IsValid s → Keeps₂ (post_back enqueue back msg s)
  post_back-IsValid msg s v = elim (Bool-cases (find_path msg.channel s.back_path == nullptr)) [
    | inl e ↦ rw e (unlock-IsValid _ (lock-IsValid s v))
    | inr e ↦ rw e (finish_unlocked _ (kept_back _ msg _ (lock-IsValid s v)))
  ]

  forward-IsValid :
      (l : ℕ) (msg : Message) (s : Bus)
      → IsValid s
      → Keeps₂ (forward_message_internal enqueue back l msg s)
  unfolding forward_message_internal
  forward-IsValid l msg s v = elim (Option-cases (lookup msg.channel s.mailboxes_by_name)) [
    | inr (m, e) ↦ rw (e, forward_message_internal) (finish true _ (kept _ s v))
    | inl e ↦ elim (Option-cases (open_channel l msg.channel s)) [
      | inr (c, f) ↦
          rw (e, f, forward_message_internal)
            (finish true _ (kept _ _ (unlock-IsValid _ (lock-IsValid s v))))
      | inl f ↦ rw (e, f, forward_message_internal) (post_back-IsValid msg s v)
    ]
  ]

  send_message-IsValid :
      (l : ℕ) (name : ChannelId) (content : List ℕ) (cid : ℕ) (s : Bus)
      → IsValid s
      → Keeps₂ (send_message enqueue back l name content cid s)
  unfolding send_message
  send_message-IsValid l [] content cid s v = tt
  send_message-IsValid l (b ∷ name) content cid s v =
      forward-IsValid l _ _
        (if-pair (l == nullptr) ([], s) (get_mailbox l s) v (get_mailbox-IsValid l s v))

  note_sender-IsValid :
      (l : ℕ) (msg : Message) (b : Bool) (s : Bus) → IsValid s → IsValid (note_sender l msg b s)
  note_sender-IsValid l msg b s v =
      let w = lock-IsValid s v in
      let noted : IsValid
          (record (lock s) { back_path = store_path s.limit msg.sender l s.back_path }) =
        record {
          channels = w.channels;
          boxes = w.boxes;
          paths = unfold lock in store_path-IsCache s.limit msg.sender l s.back_path v.paths;
        } in
      if-IsValid _ _ s (unlock-IsValid _ (if-IsValid (is_unknown msg.sender (lock s)) _ _ noted w))
        v

  dispatch_message-IsValid :
      (l : ℕ) (msg : Message) (b : Bool) (s : Bus)
      → IsValid s
      → Keeps₂ (dispatch_message enqueue back l msg b s)
  unfolding dispatch_message
  dispatch_message-IsValid l msg b s v = forward-IsValid l msg _ (note_sender-IsValid l msg b s v)

  after-IsValid : (s : Bus) (m : Outcome (Bool × Bus)) → IsValid s → Keeps₂ m → Keeps (after s m)
  after-IsValid s (done (r, t)) v k = k
  after-IsValid s thrown v k = v
  after-IsValid s unfinished v k = tt

  pub perform-IsValid : (c : Call) (s : Bus) → IsValid s → Keeps (perform enqueue back c s)
  unfolding perform
  perform-IsValid (subscribes l name) s v = subscribe-IsValid l name s v
  perform-IsValid (unsubscribes l name) s v = unsubscribe-IsValid l name s v
  perform-IsValid (closes_group l name) s v = close_group-IsValid l name s v
  perform-IsValid (leaves l) s v = unsubscribe_all-IsValid l s v
  perform-IsValid (leaves_private l) s v = unsubscribe_private-IsValid l s v
  perform-IsValid (closes_groups l) s v = close_all_groups-IsValid l s v
  perform-IsValid (leaves_channels l b) s v = unsubscribe_all_channels-IsValid l b s v
  perform-IsValid (updates l op names) s v = update_subscription-IsValid l op names s v
  perform-IsValid (groups l name uid) s v = add_to_group-IsValid l name uid s v
  perform-IsValid (clears l sender receiver) s v = clear_return_path-IsValid l sender receiver s v
  perform-IsValid (sets_serial l serial) s v = set_serial-IsValid l serial s v
  perform-IsValid (monitors m) s v = register_monitor-IsValid m s v
  perform-IsValid (unmonitors m) s v = unregister_monitor-IsValid m s v
  perform-IsValid forces s v = force_update_channels-IsValid s v
  perform-IsValid (sends l name content cid) s v =
      after-IsValid s _ v (send_message-IsValid l name content cid s v)
  perform-IsValid (dispatches l msg b) s v =
      after-IsValid s _ v (dispatch_message-IsValid l msg b s v)
