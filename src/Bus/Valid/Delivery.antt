-- ===== src/Bus/Valid/Delivery.antt =====
-- The delivery of messages on a well-formed bus, to listeners that call the bus back.
use zerobus.Prelude.{ℕ, zero, suc, Bool, true, false, List, [], ◌∷◌, inl, inr, Bool-cases}
use zerobus.Prelude.Keys.{nat_eq, bytes_eq}
use zerobus.Messages.{Message}
use zerobus.Bus.State.{Bus, MsgItem, Target, channel, mailbox}
use zerobus.Bus.Routing.{Outcome}
use zerobus.Bus.Delivery.{
  Call, call_back, push_msg, perform_each, release_target, Reaction, deliver, deliver_each,
  broadcast, pop_msg, run_msgs, run_msg_queue, start_msg, enqueue_msg, call,
}
use zerobus.Bus.Valid.State.{IsValid, emit-IsValid, drop_channel-IsValid}
use zerobus.Bus.Valid.Deferred.{run_lsn_queue-IsValid}
use zerobus.Bus.Valid.Routing.{Keeps, Keeps-bind, Keeps-if, perform-IsValid}

push_msg-IsValid : (i : MsgItem) (s : Bus) → IsValid s → Keeps (push_msg i s)
unfolding push_msg
push_msg-IsValid i s v = record { channels = v.channels; boxes = v.boxes; paths = v.paths }

module _ (enqueue : MsgItem → Bus → Outcome Bus)
    (kept : (i : MsgItem) (s : Bus) → IsValid s → Keeps (enqueue i s)) where
  perform_each-IsValid :
      (back : ℕ → Message → Bus → Outcome Bus)
      → ((l : ℕ) (msg : Message) (s : Bus) → IsValid s → Keeps (back l msg s))
      → (cs : List Call) (s : Bus) → IsValid s
      → Keeps (perform_each enqueue back cs s)
  unfolding perform_each
  perform_each-IsValid back kept_back [] s v = v
  perform_each-IsValid back kept_back (c ∷ cs) s v =
      Keeps-bind _ _ (perform-IsValid enqueue kept back kept_back c s v)
        (λ t w. perform_each-IsValid back kept_back cs t w)

  call_back-IsValid :
      (react : Reaction) (depth l : ℕ) (msg : Message) (s : Bus)
      → IsValid s
      → Keeps (call_back react enqueue depth l msg s)
  unfolding call_back
  call_back-IsValid react zero l msg s v = tt
  call_back-IsValid react (suc depth) l msg s v =
      perform_each-IsValid _ (call_back-IsValid react depth) _ _ (emit-IsValid _ s v)

release_target-IsValid : (target : Target) (s : Bus) → IsValid s → IsValid (release_target target s)
unfolding release_target
release_target-IsValid (channel c) s v = drop_channel-IsValid c s v
release_target-IsValid (mailbox m) s v = v

pop_msg-IsValid : (target : Target) (s : Bus) → IsValid s → IsValid (pop_msg target s)
pop_msg-IsValid target s v = run_lsn_queue-IsValid _ (
    release_target-IsValid target _
      (record { channels = v.channels; boxes = v.boxes; paths = v.paths }))

module _ (react : Reaction) (depth : ℕ) where
  deliver-IsValid :
      (l : ℕ) (msg : Message) (pm : Bool) (s : Bus)
      → IsValid s
      → Keeps (deliver react depth l msg pm s)
  unfolding deliver
  deliver-IsValid l msg pm s v =
      perform_each-IsValid push_msg push_msg-IsValid _
        (call_back-IsValid push_msg push_msg-IsValid react depth) _ _ (emit-IsValid _ s v)

  deliver_each-IsValid :
      (ls : List ℕ) (msg : Message) (s : Bus)
      → IsValid s
      → Keeps (deliver_each react depth ls msg s)
  unfolding deliver_each
  deliver_each-IsValid [] msg s v = v
  deliver_each-IsValid (l ∷ ls) msg s v =
      Keeps-bind _ _ (deliver-IsValid l msg false s v) (λ t w. deliver_each-IsValid ls msg t w)

  broadcast-IsValid :
      (i : MsgItem) (target : Target) (s : Bus)
      → IsValid s
      → Keeps (broadcast react depth i target s)
  unfolding broadcast
  broadcast-IsValid i (channel c) s v = deliver_each-IsValid _ i.message s v
  broadcast-IsValid i (mailbox m) s v = elim (Bool-cases (s.mbx m).disabled) [
    | inl e ↦ rw (e, broadcast) v
    | inr e ↦ rw (e, broadcast) (deliver-IsValid (s.mbx m).owner i.message true s v)
  ]

  run_msgs-IsValid :
      (rounds : ℕ) (is : List MsgItem) (s : Bus)
      → IsValid s
      → Keeps (run_msgs react depth rounds is s)
  unfolding run_msgs
  run_msgs-IsValid rounds [] s v = v
  run_msgs-IsValid zero (i ∷ is) s v = tt
  run_msgs-IsValid (suc rounds) (i ∷ is) s v =
      Keeps-bind _ _ (broadcast-IsValid i i.target s v)
        (λ t w. run_msgs-IsValid rounds _ _ (pop_msg-IsValid i.target t w))

  start_msg-IsValid :
      (rounds : ℕ) (i : MsgItem) (s : Bus) → IsValid s → Keeps (start_msg react depth rounds i s)
  unfolding run_msg_queue
  start_msg-IsValid rounds i s v =
      Keeps-bind _ _
        (broadcast-IsValid i i.target _
          (record { channels = v.channels; boxes = v.boxes; paths = v.paths }))
        (λ t w. Keeps-bind _ _ (run_msgs-IsValid rounds _ _ (run_lsn_queue-IsValid t w)) (λ u x.
          release_target-IsValid i.target _
            (record { channels = x.channels; boxes = x.boxes; paths = x.paths })))

  enqueue_msg-IsValid :
      (rounds : ℕ) (i : MsgItem) (s : Bus) → IsValid s → Keeps (enqueue_msg react depth rounds i s)
  unfolding enqueue_msg
  enqueue_msg-IsValid rounds i s v =
      Keeps-if s.running _ _ (push_msg-IsValid i s v) (start_msg-IsValid rounds i s v)

  -- On a well-formed bus, every call of the interface that changes it, made from outside every
  -- callback, leaves a well-formed bus if it returns, whatever calls the listeners make back
  -- from on_message, on a return path too, if the other callbacks and the monitors make none:
  -- the channel map is in order, each entry naming a channel of that name with a sorted vector
  -- of listeners, the two maps of mailboxes are inverse to one another, and the return paths
  -- are distinct and within their limit.
  pub call-IsValid :
      (rounds : ℕ) (c : Call) (s : Bus) → IsValid s → Keeps (call react depth rounds c s)
  unfolding call
  call-IsValid rounds c s v =
      perform-IsValid _ (enqueue_msg-IsValid rounds) _
        (call_back-IsValid _ (enqueue_msg-IsValid rounds) react depth) c s v
