-- ===== src/Net/Event.antt =====
-- What a worker thread does: process_event_lk, invoke_cb and the loops of run_worker over timers
-- and actions (src/zerobus/network_linux.cpp). The peers and servers are a parameter: the calls
-- that they, and other threads meanwhile, make while a callback runs outside the lock.
pub mod Busy
pub mod Valid
pub mod Firing
pub mod Reached
pub mod Due
pub mod Waits
use zerobus.Prelude.{
  ℕ, zero, suc, ◌-◌, Bool, true, false, List, [], ◌∷◌, ◌++◌, Option, none, some, ltb, if◌then◌else◌,
}
use zerobus.Bus.Routing.{Outcome, done, thrown, unfinished, ◌>>=◌}
use zerobus.Net.Socket.{
  Interest, no_interest, SocketInfo, Callback, on_accept, receive_complete, clear_to_send,
  on_timeout, NetContext, put_socket, note_effect, epoll_add, report_error, is_socket, alloc_socket,
  apply_flags,
}
use zerobus.Net.Call.{NetCall, run_calls}

-- What the kernel answers to accept4, and whether the epoll takes the new descriptor.
pub record AcceptAnswer : Type 0 where
  pub accepted : Option ℕ
  pub added : Bool

abbrev pub count_callback : ℕ → Callback → NetContext → NetContext
count_callback id cb n =
    record (put_socket id (record (n.sockets id) { cb_call_cntr = suc (n.sockets id).cb_call_cntr })
      n) { callbacks = n.callbacks ++ (cb ∷ []) }

abbrev pub uncount_callback : ℕ → NetContext → NetContext
uncount_callback id n =
    put_socket id (record (n.sockets id) { cb_call_cntr = (n.sockets id).cb_call_cntr - 1 }) n

-- An error of ::recv or ::read is reported, and counts as the end.
abbrev pub received_bytes : Option ℕ → NetContext → ℕ × NetContext
received_bytes none n = (0, note_effect report_error n)
received_bytes (some r) n = (r, n)

module _ (handler : Callback → NetContext → List NetCall) where
  unfoldable pub invoke_cb : ℕ → Callback → NetContext → Outcome NetContext
  invoke_cb id cb n = do
    let m = count_callback id cb n
    o ← run_calls (handler cb m) m
    done (uncount_callback id o)

  -- The new connection of a server.
  unfoldable pub accept_one : ℕ → ℕ → Option ℕ → Bool → NetContext → Outcome NetContext
  accept_one id server none added n = done (note_effect report_error n)
  accept_one id server (some fd) added n =
      let (k, m) = alloc_socket n in
      let o =
        note_effect (epoll_add (some fd) k)
          (put_socket k (record (m.sockets k) { socket = some fd }) m) in
      if added then invoke_cb id (on_accept server k) o else thrown

  abbrev pub accept_if : ℕ → Option ℕ → AcceptAnswer → NetContext → Outcome NetContext
  accept_if id none answer n = done n
  accept_if id (some server) answer n =
      let s = n.sockets id in
      accept_one id server answer.accepted answer.added
        (put_socket id (record s { flags = record s.flags { input = false }; accept_cb = none }) n)

  abbrev pub receive_if : ℕ → Option ℕ → Option ℕ → NetContext → Outcome NetContext
  receive_if id none answer n = done n
  receive_if id (some peer) answer n =
      let s = n.sockets id in
      let (r, m) = received_bytes answer n in
      invoke_cb id (receive_complete peer r)
        (put_socket id (record s { flags = record s.flags { input = false }; recv_cb = none }) m)

  abbrev pub send_if : ℕ → Option ℕ → NetContext → Outcome NetContext
  send_if id none n = done n
  send_if id (some peer) n = invoke_cb id (clear_to_send peer) n

  unfoldable pub process_input :
      ℕ → Bool → AcceptAnswer → Option ℕ → NetContext → Outcome NetContext
  process_input id false accept_answer recv_answer n = done n
  process_input id true accept_answer recv_answer n = do
    m ← accept_if id (n.sockets id).accept_cb accept_answer n
    receive_if id (m.sockets id).recv_cb recv_answer m

  unfoldable pub process_output : ℕ → Bool → NetContext → Outcome NetContext
  process_output id false n = done n
  process_output id true n =
      let s = n.sockets id in
      send_if id s.send_cb
        (put_socket id (record s { flags = record s.flags { output = false }; send_cb = none }) n)

  unfoldable pub process_event :
      ℕ → Interest → AcceptAnswer → Option ℕ → NetContext → Outcome NetContext
  process_event id events accept_answer recv_answer n =
      let s = n.sockets id in
      let run = do
        m ←
            process_input id events.input accept_answer recv_answer
              (put_socket id (record s { cur_flags = no_interest }) n)
        o ← process_output id events.output m
        done (apply_flags id o)
      in if is_socket id n then run else done n

  -- The callback of a timer that was taken out of the set.
  abbrev pub timeout_if : ℕ → Option ℕ → NetContext → Outcome NetContext
  timeout_if id none n = done n
  timeout_if id (some p) n =
      invoke_cb id (on_timeout p) (put_socket id (record (n.sockets id) { timeout_cb = none }) n)

  unfoldable pub fire_timer : ℕ → NetContext → Outcome NetContext
  fire_timer id n = if is_socket id n then timeout_if id (n.sockets id).timeout_cb n else done n

  -- A round of `while (!_tmset.empty())`, on the set of timers.
  unfoldable pub next_timer :
      (NetContext → Outcome NetContext) → ℕ → List (ℕ × ℕ) → NetContext → Outcome NetContext
  next_timer next now [] n = done n
  next_timer next now (e ∷ rest) n =
      let fire = fire_timer e.1 (record n { tmset = rest }) >>= next in
      if ltb now e.0 then done n else fire

  -- The loop, with a bound on its rounds.
  unfoldable pub run_timers : ℕ → ℕ → NetContext → Outcome NetContext
  run_timers zero now n = unfinished
  run_timers (suc rounds) now n = next_timer (run_timers rounds now) now n.tmset n

-- The loop over the actions, which run outside the lock: `perform` has the calls of an action.
module _ (perform : ℕ → NetContext → List NetCall) where
  unfoldable pub run_each : List ℕ → NetContext → Outcome NetContext
  run_each [] n = done n
  run_each (a ∷ actions) n = do m ← run_calls (perform a n) n; run_each actions m

  -- A round of `while (!actions.empty())`: the actions that were swapped out are run as a whole.
  unfoldable pub next_actions :
      (NetContext → Outcome NetContext) → List ℕ → NetContext → Outcome NetContext
  next_actions next [] n = done n
  next_actions next (a ∷ actions) n = run_each (a ∷ actions) (record n { actions = [] }) >>= next

  -- The loop, with a bound on its rounds.
  unfoldable pub run_actions : ℕ → NetContext → Outcome NetContext
  run_actions zero n = unfinished
  run_actions (suc rounds) n = next_actions (run_actions rounds) n.actions n
