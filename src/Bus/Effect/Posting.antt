-- ===== src/Bus/Effect/Posting.antt =====
-- Messages that are posted while nothing is delivered on the thread: whether there is a way for
-- them, and whom they reach if the listeners do not call the bus back.
use zerobus.Prelude.{
  ℕ, ◌≡◌, refl, sym, ap, ◌∙◌, Bool, true, false, not, ◌||◌, List, [], ◌∷◌, ◌++◌, append_assoc,
  append-nil, Option, none, some, map, arith, ◌==◌, ==_iff, if◌then◌else◌, inl, inr, Option-cases,
  Bool-cases,
}
use mathlib.Core.Path.{subst, ap₂}
use zerobus.Prelude.Keys.{bytes_eq, ◌=?◌}
use zerobus.Prelude.Assoc.{lookup}
use zerobus.Messages.{ChannelId, Message}
use zerobus.Bus.Channel.{ChanDef, nullptr, receivers}
use zerobus.Bus.Channel.Listeners.{others, receivers-others}
use zerobus.Bus.BackPath.{Paths, find_path}
use zerobus.Bus.State.{
  Bus, MsgItem, channel, Event, on_message, emit, lock, unlock, drop_channel, is_referenced,
  names_channel,
}
use zerobus.Bus.Deferred.{run_lsn_queue, drain}
use zerobus.Bus.Routing.{Outcome, done, ◌>>=◌, open_channel, forward_message_internal}
use zerobus.Bus.Delivery.{
  Reaction, call_back, deliver, deliver_each, perform_each, broadcast, run_msgs, run_msg_queue,
  enqueue_msg, release_target,
}
use zerobus.Bus.Effect.Idle.{IsIdle, unlock-SameMaps}

abbrev is_some {ℓ} : {A : Type ℓ} → Option A → Bool
is_some none = false
is_some (some a) = true

-- Whether a mailbox has the name.
abbrev pub has_box : ChannelId → List (ChannelId × ℕ) → Bool
has_box name [] = false
has_box name ((k, m) ∷ boxes) = (k =? name) || has_box name boxes

-- Whether the first channel of the name has no owner, or the listener as its owner.
abbrev pub may_post : ℕ → ChannelId → (ℕ → ChanDef) → List (ChannelId × ℕ) → Bool
may_post l name chan [] = false
may_post l name chan ((k, c) ∷ m) =
    let rest = may_post l name chan m in
    if k =? name then (chan c).owner == l || (chan c).owner == 0 else rest

-- Whether the first return path of the name leads to a listener.
abbrev pub has_way_back : ChannelId → Paths → Bool
has_way_back name [] = false
has_way_back name ((k, l) ∷ paths) =
    let rest = has_way_back name paths in if k =? name then not (l == 0) else rest

-- Whether a message for that name has a mailbox, an open channel or a return path.
abbrev pub has_route : ℕ → ChannelId → Bus → Bool
has_route l name s =
    has_box name s.mailboxes_by_name
    || (may_post l name s.chan s.channels || has_way_back name s.back_path)

lookup-has_box :
    (name : ChannelId) (m : List (ChannelId × ℕ)) → is_some (lookup name m) ≡ has_box name m
unfolding lookup
lookup-has_box name [] = refl
lookup-has_box name ((k, c) ∷ m) = ground (arith, lookup-has_box name m)

open_channel-may_post :
    (l : ℕ) (name : ChannelId) (s : Bus) (m : List (ChannelId × ℕ))
    → is_some (open_channel l name (record s { channels = m })) ≡ may_post l name s.chan m
unfolding open_channel lookup
open_channel-may_post l name s [] = refl
open_channel-may_post l name s ((k, c) ∷ m) = ground (arith, open_channel-may_post l name s m)

find_path-has_way_back :
    (name : ChannelId) (paths : Paths)
    → not (find_path name paths == nullptr) ≡ has_way_back name paths
unfolding find_path lookup
find_path-has_way_back name [] = refl
find_path-has_way_back name ((k, l) ∷ paths) = ground (arith, find_path-has_way_back name paths)

has_route_lem :
    (l : ℕ) (name : ChannelId) (s : Bus)
    → (is_some (lookup name s.mailboxes_by_name)
        || (is_some (open_channel l name s) || not (find_path name s.back_path == nullptr)))
      ≡ has_route l name s
has_route_lem l name s =
    ap₂ ◌||◌ (lookup-has_box name s.mailboxes_by_name) (
      ap₂ ◌||◌ (open_channel-may_post l name s s.channels)
        (find_path-has_way_back name s.back_path))

abbrev pub Returns : Bool → Outcome (Bool × Bus) → Type 0
Returns b m = (t : Bus) × (m ≡ done (b, t))

module _ (enqueue : MsgItem → Bus → Outcome Bus)
    (total : (i : MsgItem) (s : Bus) → (t : Bus) × (enqueue i s ≡ done t))
    (back : ℕ → Message → Bus → Outcome Bus)
    (total_back : (l : ℕ) (msg : Message) (s : Bus) → (t : Bus) × (back l msg s ≡ done t)) where
  posted : (i : MsgItem) (s : Bus) → Returns true (enqueue i s >>= λ t. done (true, t))
  posted i s = let (t, e) = total i s in (t, ap (λ m. m >>= λ t. done (true, t)) e)

  posted_back :
      (l : ℕ) (msg : Message) (s : Bus) → Returns true (back l msg s >>= λ t. done (true, unlock t))
  posted_back l msg s =
      let (t, e) = total_back l msg s in (unlock t, ap (λ m. m >>= λ t. done (true, unlock t)) e)

  Returns-found :
      (l : ℕ) (msg : Message) (s : Bus)
      → Returns
          (is_some (lookup msg.channel s.mailboxes_by_name)
            || (is_some (open_channel l msg.channel s)
                || not (find_path msg.channel s.back_path == nullptr)))
          (forward_message_internal enqueue back l msg s)
  unfolding forward_message_internal
  Returns-found l msg s = elim (Option-cases (lookup msg.channel s.mailboxes_by_name)) [
    | inr (m, e) ↦ rw (e, forward_message_internal) (posted _ _)
    | inl e ↦ elim (Option-cases (open_channel l msg.channel s)) [
      | inr (c, f) ↦ rw (e, f, forward_message_internal) (posted _ _)
      | inl f ↦ elim (Bool-cases (find_path msg.channel s.back_path == nullptr)) [
        | inl g ↦ rw (e, f, g, forward_message_internal) (_, refl)
        | inr g ↦ rw (e, f, g, forward_message_internal) (posted_back _ msg _)
      ]
    ]
  ]

  -- With a queue of messages whose enqueue_msg always returns, and listeners whose on_message
  -- returns when it is called on a return path, forward_message_internal returns, and its
  -- result is true exactly if a mailbox has the message's name, or the first channel of that
  -- name is no group or is the sender's, or the first return path of that name leads to a
  -- listener.
  pub forward-has_route :
      (l : ℕ) (msg : Message) (s : Bus)
      → Returns (has_route l msg.channel s) (forward_message_internal enqueue back l msg s)
  forward-has_route l msg s =
      subst (λ b. Returns b (forward_message_internal enqueue back l msg s))
        (has_route_lem l msg.channel s) (Returns-found l msg s)

-- Listeners that make no calls.
abbrev pub silent : Reaction
silent es l msg pm = []

deliver_each-silent :
    (depth : ℕ) (ls : List ℕ) (msg : Message) (s : Bus)
    → deliver_each silent depth ls msg s ≡ done (emit (map (λ l. on_message l msg false) ls) s)
unfolding deliver_each deliver perform_each emit
deliver_each-silent depth [] msg s =
    ap (λ es. done (record s { events = es })) (sym (append-nil s.events))
deliver_each-silent depth (l ∷ ls) msg s =
    deliver_each-silent depth ls msg (emit (on_message l msg false ∷ []) s)
    ∙ ap (λ es. done (record s { events = es }))
        (append_assoc s.events (on_message l msg false ∷ []) (map (λ k. on_message k msg false) ls))

-- A delivery with no calls from its listeners leaves nothing in the queues.
finished : ℕ → List Event → Bus → Bus
finished c es s = drop_channel c (record (emit es s) { running = false })

run_empty :
    (depth rounds : ℕ) (s : Bus)
    → s.lsn_queue ≡ []
    → s.msg_queue ≡ []
    → run_msg_queue silent depth rounds s ≡ done s
unfolding run_msg_queue run_lsn_queue drain run_msgs
run_empty depth rounds s e f =
    let g : run_lsn_queue s ≡ s = ap (λ q. drain q s) e in
    ap (λ t. run_msgs silent depth rounds t.msg_queue t) g
    ∙ ap (λ q. run_msgs silent depth rounds q s) f

enqueue_silent :
    (depth rounds c l : ℕ) (msg : Message) (s : Bus)
    → IsIdle s
    → enqueue_msg silent depth rounds (record { target = channel c; message = msg; listener = l }) s
      ≡ done (finished c (map (λ k. on_message k msg false) (receivers l (s.chan c).listeners)) s)
unfolding enqueue_msg broadcast finished release_target emit
enqueue_silent depth rounds c l msg s idle =
    let i : MsgItem = record { target = channel c; message = msg; listener = l } in
    let ls = receivers l (s.chan c).listeners in
    let t =
      emit (map (λ k. on_message k msg false) ls)
        (record s { running = true; held = c ∷ s.held }) in
    rw (idle.quiet, enqueue_msg)
      (ap
          (λ m. m >>= λ t. run_msg_queue silent depth rounds t >>= λ u.
            done (drop_channel c (record u { running = false; held = s.held })))
          (deliver_each-silent depth ls msg (record s { running = true; held = c ∷ s.held }))
        ∙ ap (λ m. m >>= λ u. done (drop_channel c (record u { running = false; held = s.held })))
            (run_empty depth rounds t idle.no_change idle.no_message))

names_channel_found :
    (name : ChannelId) (c : ℕ) (m : List (ChannelId × ℕ))
    → lookup name m ≡ some c
    → names_channel c m ≡ true
unfolding lookup
names_channel_found name c [] e = ground arith
names_channel_found name c ((k, d) ∷ m) e = ground (arith, ==_iff d c, names_channel_found name c m)

the : ℕ → Option ℕ → ℕ
the d none = d
the d (some c) = c

if_some : (b : Bool) (d c : ℕ) → (if b then some d else none) ≡ some c → d ≡ c
unfolding the
if_some true d c e = ap (the d) e
if_some false d c e = ground arith

open_channel-lookup :
    (l : ℕ) (name : ChannelId) (c : ℕ) (s : Bus)
    → open_channel l name s ≡ some c
    → lookup name s.channels ≡ some c
unfolding open_channel
open_channel-lookup l name c s e = elim (Option-cases (lookup name s.channels)) [
  | inl f ↦ let g : none ≡ some c = rw (f, open_channel) at e in ground arith
  | inr (d, f) ↦
      let own = (s.chan d).owner in
      f ∙ ap some (if_some (own == l || own == nullptr) d c (rw (f, open_channel) at e))
]

still_there :
    (c : ℕ) (es : List Event) (s : Bus)
    → names_channel c s.channels ≡ true
    → finished c es s ≡ record (emit es s) { running = false }
unfolding finished drop_channel is_referenced emit
still_there c es s e = rw e refl

unlocked-IsIdle : (s : Bus) → IsIdle s → IsIdle (unlock (lock s))
unfolding lock
unlocked-IsIdle s idle =
    let h = unlock-SameMaps (lock s) in
    record {
      quiet = h.running ∙ idle.quiet;
      no_change = h.lsn_queue ∙ idle.no_change;
      no_message = h.msg_queue ∙ idle.no_message;
    }

-- While nothing is delivered on the thread and nothing waits, a message whose name is no
-- mailbox and is a channel that the sender may post to is routed and its delivery ends, if the
-- listeners make no calls, within any bounds on the rounds and the depth: the events that it
-- adds, behind what unlock tells the monitors, are one on_message for each listener of the
-- channel that is not the sender, in order, and the channels are as before.
pub forward-silent :
    (depth rounds l c : ℕ) (msg : Message) (s : Bus)
    → IsIdle s
    → lookup msg.channel s.mailboxes_by_name ≡ none
    → open_channel l msg.channel s ≡ some c
    → (t : Bus) × (forward_message_internal
          (enqueue_msg silent depth rounds)
          (call_back silent (enqueue_msg silent depth rounds) depth)
          l
          msg
          s
        ≡ done (true, t))
      × (t.events
          ≡ (unlock (lock s)).events
            ++ map (λ k. on_message k msg false) (others l (s.chan c).listeners))
      × (t.channels ≡ s.channels)
      × (t.chan ≡ s.chan)
unfolding forward_message_internal emit lock
forward-silent depth rounds l c msg s idle no_box opened =
    let h = unlock-SameMaps (lock s) in
    let es = map (λ k. on_message k msg false) (receivers l ((unlock (lock s)).chan c).listeners) in
    let there =
      ap (names_channel c) h.channels
      ∙ names_channel_found msg.channel c s.channels
          (open_channel-lookup l msg.channel c s opened) in
    (
      record (emit es (unlock (lock s))) { running = false },
      rw (no_box, opened, forward_message_internal)
          (ap (λ m. m >>= λ t. done (true, t))
            (enqueue_silent depth rounds c l msg (unlock (lock s)) (unlocked-IsIdle s idle)
              ∙ ap done (still_there c es (unlock (lock s)) there))),
      ap
            (λ f.
              (unlock (lock s)).events
              ++ map (λ k. on_message k msg false) (receivers l (f c).listeners))
            h.chan
          ∙ ap (λ ls. (unlock (lock s)).events ++ map (λ k. on_message k msg false) ls)
              (receivers-others l (s.chan c).listeners),
      h.channels,
      h.chan,
    )
