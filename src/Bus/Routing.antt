-- ===== src/Bus/Routing.antt =====
-- LocalBus in src/zerobus/local_bus.cpp: mailboxes, and the way of a message to a mailbox, a
-- channel or a return path. `enqueue_msg` and `call_back`, which calls on_message of a listener at
-- once, are arguments here: Bus/Delivery.antt gives them.
use zerobus.Prelude.{
  ℕ, suc, Bool, true, false, not, ◌&&◌, ◌||◌, List, [], ◌∷◌, Option, none, some, ◌==◌,
  if◌then◌else◌,
}
use zerobus.Prelude.Keys.{nat_eq, bytes_eq}
use zerobus.Prelude.Assoc.{lookup, emplace}
use zerobus.Messages.{ChannelId, Message}
use zerobus.Bus.Channel.{nullptr}
use zerobus.Bus.BackPath.{find_path, store_path}
use zerobus.Bus.State.{Bus, MsgItem, Target, channel, mailbox, update, lock, unlock}

-- What a call comes to: a value, an exception, or a delivery that has not ended within the
-- rounds that it was given.
pub data Outcome {ℓ} (A : Type ℓ) : Type ℓ where
  done : A → Outcome A
  thrown unfinished : Outcome A

infixl 5 ◌>>=◌
abbrev pub ◌>>=◌ {ℓ κ} : {A : Type ℓ} {B : Type κ} → Outcome A → (A → Outcome B) → Outcome B
done a >>= f = f a
thrown >>= f = thrown
unfinished >>= f = unfinished

-- get_mailbox: the address of the listener's mailbox, which is made at first use.
unfoldable pub get_mailbox : ℕ → Bus → ChannelId × Bus
get_mailbox l s = elim (lookup l s.mailboxes_by_ptr) [
  | some m ↦ ((s.mbx m).id, unlock (lock s))
  | none ↦ (
    s.names s.generated,
    unlock (record (lock s) {
      mbx =
          update s.mbx s.next_mbx
            (record { owner = l; id = s.names s.generated; disabled = false });
      next_mbx = suc s.next_mbx;
      generated = suc s.generated;
      mailboxes_by_ptr = emplace l s.next_mbx s.mailboxes_by_ptr;
      mailboxes_by_name = emplace (s.names s.generated) s.next_mbx s.mailboxes_by_name;
    }),
  )
]

-- The channel of that name, if the listener may post to it.
unfoldable pub open_channel : ℕ → ChannelId → Bus → Option ℕ
open_channel l name s = elim (lookup name s.channels) [
  | none ↦ none
  | some c ↦ let own = (s.chan c).owner in if own == l || own == nullptr then some c else none
]

abbrev pub bytes_empty : List ℕ → Bool
bytes_empty [] = true
bytes_empty (b ∷ bs) = false

abbrev pub is_unknown : ChannelId → Bus → Bool
is_unknown name s = elim (lookup name s.mailboxes_by_name) [
  | some m ↦ false
  | none ↦ elim (lookup name s.channels) [ some c ↦ false | none ↦ true ]
]

-- The sender's return path is noted, unless the name is one of this bus.
abbrev pub note_sender : ℕ → Message → Bool → Bus → Bus
note_sender l msg subscribe_return_path s =
    let t = lock s in
    let noted = record t { back_path = store_path s.limit msg.sender l s.back_path } in
    if not (l == nullptr) && subscribe_return_path && not (bytes_empty msg.sender)
    then unlock (if is_unknown msg.sender t then noted else t)
    else s

module _ (enqueue_msg : MsgItem → Bus → Outcome Bus)
    (call_back : ℕ → Message → Bus → Outcome Bus) where
  abbrev pub post : Target → Message → ℕ → Bus → Outcome (Bool × Bus)
  post target msg l s = do
    t ← enqueue_msg (record { target = target; message = msg; listener = l }) s
    done (true, t)

  -- The return path is called under the lock, with the message marked as private. The lock is
  -- recursive, so the listener may call the bus.
  abbrev pub post_back : Message → Bus → Outcome (Bool × Bus)
  post_back msg s =
      let l = find_path msg.channel s.back_path in
      if l == nullptr
      then done (false, unlock (lock s))
      else (do t ← call_back l msg (lock s); done (true, unlock t))

  unfoldable pub forward_message_internal : ℕ → Message → Bus → Outcome (Bool × Bus)
  forward_message_internal l msg s = elim (lookup msg.channel s.mailboxes_by_name) [
    | some m ↦ post (mailbox m) msg l s
    | none ↦ elim (open_channel l msg.channel s) [
      | some c ↦ post (channel c) msg l (unlock (lock s))
      | none ↦ post_back msg s
    ]
  ]

  unfoldable pub send_message : ℕ → ChannelId → List ℕ → ℕ → Bus → Outcome (Bool × Bus)
  send_message l [] content cid s = thrown
  send_message l (b ∷ name) content cid s =
      let (sender, t) = if l == nullptr then ([], s) else get_mailbox l s in
      forward_message_internal l
        (record { sender = sender; channel = b ∷ name; content = content; conversation = cid }) t

  unfoldable pub dispatch_message : ℕ → Message → Bool → Bus → Outcome (Bool × Bus)
  dispatch_message l msg subscribe_return_path s =
      forward_message_internal l msg (note_sender l msg subscribe_return_path s)
