-- ===== src/Net/Event/Valid.antt =====
-- A NetContext stays in order through events, timers and actions, whatever the peers do in their
-- callbacks (src/zerobus/network_linux.cpp).
use zerobus.Prelude.{
  ℕ, suc, ◌≡◌, refl, sym, ap, ◌∙◌, Bool, true, false, Option, none, some, List, arith,
  if◌then◌else◌,
}
use zerobus.Bus.Routing.{Outcome, done}
use zerobus.Net.Socket.{
  Interest, no_interest, Callback, on_accept, clear_to_send, NetContext, put_socket, note_effect,
  epoll_add, report_error, is_socket, alloc_socket, apply_flags,
}
use zerobus.Net.Valid.{Armed, IsNet, IsNet-same, raised, hold, apply_flags-IsNet, is_socket-put}
use zerobus.Net.Call.{NetCall, run_calls}
use zerobus.Net.Call.Valid.{Ensures, bind-Ensures}
use zerobus.Net.Call.Running.{Running}
use zerobus.Net.Call.Keeps.{run_calls-Running}
use zerobus.Net.Event.Busy.{Busy, begin_Busy, same_Busy, other_Busy, alloc_Busy, note_Busy}
use zerobus.Net.Event.{
  AcceptAnswer, count_callback, uncount_callback, invoke_cb, accept_one, accept_if, received_bytes,
  receive_if, send_if, process_input, process_output, process_event,
}

module _ (handler : Callback → NetContext → List NetCall) where
  -- A callback runs while the socket is held, which is held again afterwards.
  invoke_cb-Busy :
      (id : ℕ) (cb : Callback) (n : NetContext)
      → Busy id n
      → Ensures (Busy id) (invoke_cb handler id cb n)
  unfolding invoke_cb
  invoke_cb-Busy id cb n (h, v) =
      let m = count_callback id cb n in
      let w = IsNet-same (raised id n) m refl refl refl refl v in
      let k = suc (n.sockets id).cb_call_cntr in
      let start : Running id k false m = record {
        found = is_socket-put n id id _ refl ∙ h;
        counted = ground arith;
        synced = λ z. absurd cc;
      } in
      bind-Ensures (λ o. IsNet o × Running id k false o) (Busy id) (run_calls (handler cb m) m)
        (λ o. done (uncount_callback id o))
        (run_calls-Running id k false (handler cb m) m (omega arith) w start)
        (λ o r. (is_socket-put o id id _ refl ∙ r.1.found, hold o id _ r.0 r.1.found refl refl))

  accept_one-Busy :
      (id server : ℕ) (accepted : Option ℕ) (added : Bool) (n : NetContext)
      → Busy id n
      → Ensures (Busy id) (accept_one handler id server accepted added n)
  unfolding accept_one
  accept_one-Busy id server none added n b =
      note_Busy id n (note_effect report_error n) refl refl refl refl b
  accept_one-Busy id server (some fd) false n b = tt
  accept_one-Busy id server (some fd) true n b =
      let (k, m) = alloc_socket n in
      let (w, d, f, e) = alloc_Busy n id b in
      let s = record (m.sockets k) { socket = some fd } in
      let p = put_socket k s m in
      let armed : Armed s = λ z. ap (λ x. x.cur_flags) e ∙ sym (ap (λ x. x.flags) e) in
      invoke_cb-Busy id (on_accept server k) (note_effect (epoll_add (some fd) k) p) (
        note_Busy id p (note_effect (epoll_add (some fd) k) p) refl refl refl refl
          (other_Busy m id k s w d f refl refl armed))

  accept_if-Busy :
      (id : ℕ) (server : Option ℕ) (answer : AcceptAnswer) (n : NetContext)
      → Busy id n
      → Ensures (Busy id) (accept_if handler id server answer n)
  accept_if-Busy id none answer n b = b
  accept_if-Busy id (some server) answer n b =
      accept_one-Busy id server answer.accepted answer.added _ (same_Busy n id _ b refl refl)

  received_Busy :
      (id : ℕ) (answer : Option ℕ) (n : NetContext)
      → Busy id n
      → Busy id (received_bytes answer n).1
  received_Busy id none n b = note_Busy id n (note_effect report_error n) refl refl refl refl b
  received_Busy id (some r) n b = b

  received_sockets :
      (answer : Option ℕ) (n : NetContext) → (received_bytes answer n).1.sockets ≡ n.sockets
  received_sockets none n = refl
  received_sockets (some r) n = refl

  receive_if-Busy :
      (id : ℕ) (peer answer : Option ℕ) (n : NetContext)
      → Busy id n
      → Ensures (Busy id) (receive_if handler id peer answer n)
  receive_if-Busy id none answer n b = b
  receive_if-Busy id (some peer) answer n b =
      let m = (received_bytes answer n).1 in
      let same = sym (ap (λ g. g id) (received_sockets answer n)) in
      invoke_cb-Busy id _ _ (
        same_Busy m id _ (received_Busy id answer n b) (ap (λ s. s.ident) same)
          (ap (λ s. s.tmtp) same))

  send_if-Busy :
      (id : ℕ) (peer : Option ℕ) (n : NetContext)
      → Busy id n
      → Ensures (Busy id) (send_if handler id peer n)
  send_if-Busy id none n b = b
  send_if-Busy id (some peer) n b = invoke_cb-Busy id (clear_to_send peer) n b

  process_input-Busy :
      (id : ℕ) (input : Bool) (accept_answer : AcceptAnswer) (recv_answer : Option ℕ)
      (n : NetContext)
      → Busy id n
      → Ensures (Busy id) (process_input handler id input accept_answer recv_answer n)
  unfolding process_input
  process_input-Busy id false accept_answer recv_answer n b = b
  process_input-Busy id true accept_answer recv_answer n b =
      bind-Ensures (Busy id) (Busy id)
        (accept_if handler id (n.sockets id).accept_cb accept_answer n)
        (λ m. receive_if handler id (m.sockets id).recv_cb recv_answer m)
        (accept_if-Busy id (n.sockets id).accept_cb accept_answer n b)
        (λ m w. receive_if-Busy id (m.sockets id).recv_cb recv_answer m w)

  process_output-Busy :
      (id : ℕ) (output : Bool) (n : NetContext)
      → Busy id n
      → Ensures (Busy id) (process_output handler id output n)
  unfolding process_output
  process_output-Busy id false n b = b
  process_output-Busy id true n b =
      send_if-Busy id (n.sockets id).send_cb _ (same_Busy n id _ b refl refl)

  pub if-Ensures :
      (b : Bool) (o : Outcome NetContext) (n : NetContext)
      → (b ≡ true → Ensures IsNet o)
      → IsNet n
      → Ensures IsNet (if b then o else done n)
  if-Ensures true o n f v = f refl
  if-Ensures false o n f v = v

  pub process_event-IsNet :
      (id : ℕ) (events : Interest) (accept_answer : AcceptAnswer) (recv_answer : Option ℕ)
      (n : NetContext)
      → IsNet n
      → Ensures IsNet (process_event handler id events accept_answer recv_answer n)
  unfolding process_event
  process_event-IsNet id events accept_answer recv_answer n v =
      let s = record (n.sockets id) { cur_flags = no_interest } in
      let p = put_socket id s n in
      if-Ensures (is_socket id n) _ n
        (λ h.
          bind-Ensures (Busy id) IsNet
            (process_input handler id events.input accept_answer recv_answer p) _
            (process_input-Busy id events.input accept_answer recv_answer p
              (begin_Busy n id s v h refl refl))
            (λ m b.
              bind-Ensures (Busy id) IsNet (process_output handler id events.output m)
                (λ o. done (apply_flags id o)) (process_output-Busy id events.output m b)
                (λ o w. apply_flags-IsNet o id w.0 w.1)))
        v
