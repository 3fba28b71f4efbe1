-- ===== src/Bus/Delivery.antt =====
-- TLState of src/zerobus/local_bus.cpp: messages are delivered one after the other on a thread. A
-- message that a listener posts from its callback waits in the queue; between two messages the
-- deferred changes to subscriptions are made. A listener is a function from what the bus has
-- called so far and the message to the calls that it makes from on_message; the other callbacks
-- and the monitors make no calls. One bus has the thread for itself.
use zerobus.Prelude.{ℕ, zero, suc, Bool, true, false, List, [], ◌∷◌, ◌++◌, if◌then◌else◌}
use zerobus.Messages.{ChannelId, Message, Operation}
use zerobus.Bus.Channel.{receivers}
use zerobus.Bus.State.{
  Bus, MsgItem, Target, channel, mailbox, Event, on_message, emit, drop_channel,
}
use zerobus.Bus.Deferred.{run_lsn_queue}
use zerobus.Bus.Subscriptions.{
  subscribe, unsubscribe, unsubscribe_all_channels, update_subscription,
}
use zerobus.Bus.Groups.{
  close_group, close_all_groups, unsubscribe_private, unsubscribe_all, add_to_group,
}
use zerobus.Bus.Serial.{
  set_serial, register_monitor, unregister_monitor, force_update_channels, clear_return_path,
}
use zerobus.Bus.Routing.{Outcome, done, thrown, unfinished, ◌>>=◌, send_message, dispatch_message}

-- The calls of IBridgeAPI that change the bus.
pub data Call : Type 0 where
  subscribes unsubscribes closes_group : ℕ → ChannelId → Call
  leaves leaves_private closes_groups : ℕ → Call
  leaves_channels : ℕ → Bool → Call
  updates : ℕ → Operation → List ChannelId → Call
  groups : ℕ → ChannelId → ChannelId → Call
  clears : ℕ → ChannelId → ChannelId → Call
  sets_serial : ℕ → ChannelId → Call
  monitors unmonitors : ℕ → Call
  forces : Call
  sends : ℕ → ChannelId → List ℕ → ℕ → Call
  dispatches : ℕ → Message → Bool → Call

-- The state after a call whose result is not looked at. An exception changes nothing.
abbrev pub after : Bus → Outcome (Bool × Bus) → Outcome Bus
after s (done (r, t)) = done t
after s thrown = done s
after s unfinished = unfinished

unfoldable pub perform :
    (MsgItem → Bus → Outcome Bus) → (ℕ → Message → Bus → Outcome Bus) → Call → Bus → Outcome Bus
perform enqueue_msg call_back (subscribes l name) s = done (subscribe l name s).1
perform enqueue_msg call_back (unsubscribes l name) s = done (unsubscribe l name s)
perform enqueue_msg call_back (closes_group l name) s = done (close_group l name s)
perform enqueue_msg call_back (leaves l) s = done (unsubscribe_all l s)
perform enqueue_msg call_back (leaves_private l) s = done (unsubscribe_private l s)
perform enqueue_msg call_back (closes_groups l) s = done (close_all_groups l s)
perform enqueue_msg call_back (leaves_channels l b) s = done (unsubscribe_all_channels l b s)
perform enqueue_msg call_back (updates l op names) s = done (update_subscription l op names s)
perform enqueue_msg call_back (groups l name uid) s = done (add_to_group l name uid s).1
perform enqueue_msg call_back (clears l sender receiver) s =
    done (clear_return_path l sender receiver s).1
perform enqueue_msg call_back (sets_serial l serial) s = done (set_serial l serial s).1
perform enqueue_msg call_back (monitors m) s = done (register_monitor m s)
perform enqueue_msg call_back (unmonitors m) s = done (unregister_monitor m s)
perform enqueue_msg call_back forces s = done (force_update_channels s)
perform enqueue_msg call_back (sends l name content cid) s =
    after s (send_message enqueue_msg call_back l name content cid s)
perform enqueue_msg call_back (dispatches l msg back) s =
    after s (dispatch_message enqueue_msg call_back l msg back s)

-- enqueue_msg while a delivery runs.
unfoldable pub push_msg : MsgItem → Bus → Outcome Bus
push_msg i s = done (record s { msg_queue = s.msg_queue ++ (i ∷ []) })

unfoldable pub perform_each :
    (MsgItem → Bus → Outcome Bus)
    → (ℕ → Message → Bus → Outcome Bus)
    → List Call
    → Bus
    → Outcome Bus
perform_each enqueue_msg call_back [] s = done s
perform_each enqueue_msg call_back (c ∷ cs) s = do
  t ← perform enqueue_msg call_back c s
  perform_each enqueue_msg call_back cs t

-- The shared_ptr of an executed item goes away.
unfoldable pub release_target : Target → Bus → Bus
release_target (channel c) s = drop_channel c s
release_target (mailbox m) s = s

abbrev pub target_channels : Target → List ℕ
target_channels (channel c) = c ∷ []
target_channels (mailbox m) = []

abbrev pub Reaction : Type 0
Reaction = List Event → ℕ → Message → Bool → List Call

-- `front().execute(); pop(); run_lsn_queue();`, with the queue as the callbacks leave it.
abbrev pub pop_front : List MsgItem → List MsgItem
pop_front [] = []
pop_front (i ∷ is) = is

abbrev pub pop_msg : Target → Bus → Bus
pop_msg target s =
    run_lsn_queue (release_target target (record s { msg_queue = pop_front s.msg_queue }))

-- on_message of the listener on a return path, with the calls that it makes at once; these may
-- come to a return path again, so the depth is bounded.
unfoldable pub call_back :
    Reaction → (MsgItem → Bus → Outcome Bus) → ℕ → ℕ → Message → Bus → Outcome Bus
call_back react enqueue_msg zero l msg s = unfinished
call_back react enqueue_msg (suc depth) l msg s =
    perform_each enqueue_msg (call_back react enqueue_msg depth) (react s.events l msg true)
      (emit (on_message l msg true ∷ []) s)

module _ (react : Reaction) (depth : ℕ) where
  unfoldable pub deliver : ℕ → Message → Bool → Bus → Outcome Bus
  deliver l msg pm s =
      perform_each push_msg (call_back react push_msg depth) (react s.events l msg pm)
        (emit (on_message l msg pm ∷ []) s)

  unfoldable pub deliver_each : List ℕ → Message → Bus → Outcome Bus
  deliver_each [] msg s = done s
  deliver_each (l ∷ ls) msg s = do t ← deliver l msg false s; deliver_each ls msg t

  -- TLSMsgQueueItem::execute, ChanDef::broadcast and MbxDef::broadcast.
  unfoldable pub broadcast : MsgItem → Target → Bus → Outcome Bus
  broadcast i (channel c) s = deliver_each (receivers i.listener (s.chan c).listeners) i.message s
  broadcast i (mailbox m) s =
      if (s.mbx m).disabled then done s else deliver (s.mbx m).owner i.message true s

  -- The loop of run_msg_queue, with a bound on its rounds: listeners that answer one another
  -- for ever keep it going.
  unfoldable pub run_msgs : ℕ → List MsgItem → Bus → Outcome Bus
  run_msgs rounds [] s = done s
  run_msgs zero (i ∷ is) s = unfinished
  run_msgs (suc rounds) (i ∷ is) s = do
    t ← broadcast i i.target s
    run_msgs rounds (pop_msg i.target t).msg_queue (pop_msg i.target t)

  unfoldable pub run_msg_queue : ℕ → Bus → Outcome Bus
  run_msg_queue rounds s = run_msgs rounds (run_lsn_queue s).msg_queue (run_lsn_queue s)

  -- enqueue_msg: the delivery starts at once if none runs on this thread.
  abbrev pub start_msg : ℕ → MsgItem → Bus → Outcome Bus
  start_msg rounds i s = do
    t ←
        broadcast i i.target
          (record s { running = true; held = target_channels i.target ++ s.held })
    u ← run_msg_queue rounds t
    done (release_target i.target (record u { running = false; held = s.held }))

  unfoldable pub enqueue_msg : ℕ → MsgItem → Bus → Outcome Bus
  enqueue_msg rounds i s = if s.running then push_msg i s else start_msg rounds i s

  -- A call from outside every callback.
  unfoldable pub call : ℕ → Call → Bus → Outcome Bus
  call rounds = perform (enqueue_msg rounds) (call_back react (enqueue_msg rounds) depth)
