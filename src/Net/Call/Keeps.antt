-- ===== src/Net/Call/Keeps.antt =====
-- A socket stays while one of its callbacks runs, whatever is called meanwhile
-- (src/zerobus/network_linux.cpp).
use zerobus.Prelude.{
  ℕ, ◌<◌, ◌≡◌, refl, sym, ap, ◌∙◌, Bool, true, false, not, ◌&&◌, Option, none, some, List, [], ◌∷◌,
  arith, ◌==◌, if◌then◌else◌, Bool-cases, inl, inr,
}
use mathlib.Core.Path.{subst}
use zerobus.Bus.Routing.{Outcome, done, thrown, unfinished}
use zerobus.Net.Socket.{
  Effect, epoll_add, note_effect, no_interest, NetContext, put_socket, is_socket, alloc_socket,
  free_socket,
}
use zerobus.Net.Socket.Table.{IsTable, IsTable-same}
use zerobus.Net.Socket.Alloc.{alloc_socket-Gives, free_socket-Takes}
use zerobus.Net.Timer.{
  get_epoll_timeout, later_than, insert_timer, erase_timer, set_timeout, clear_timeout,
}
use zerobus.Net.Valid.{IsNet}
use zerobus.Net.Call.{
  receive, ready_to_send, accept, send_count, SendAnswer, sent_bytes, failed, close_pipe, send,
  register, connect, SpecialConnection, null, stdinput, stdoutput, stderror, descriptor, socket,
  connect_special, create_pipe, drop_descriptor, reconnect, destroy, enqueue, NetCall, receives,
  readies, accepts, sends, connects, connects_special, creates_pipe, reconnects, destroys, times,
  clears_timeout, enqueues, call, run_calls,
}
use zerobus.Net.Call.Running.{
  Synced, Running, if-Running, wake_if-Running, flagged-Running, put_socket-Running,
}
use zerobus.Net.Call.Valid.{register-IsNet, Ensures, call-IsNet, bind-Ensures, either-Ensures}

both-Ensures :
    (P Q : NetContext → Type 0) (o : Outcome NetContext)
    → Ensures P o
    → Ensures Q o
    → Ensures (λ m. P m × Q m) o
both-Ensures P Q (done n) h g = (h, g)
both-Ensures P Q thrown h g = tt
both-Ensures P Q unfinished h g = tt

module _ (id k : ℕ) (strict : Bool) where
  alloc_socket-Running :
      (n : NetContext) → IsTable n → Running id k strict n → Running id k strict (alloc_socket n).1
  alloc_socket-Running n t r =
      let g = alloc_socket-Gives n t in
      record {
        found = ground (arith, g.found id, r.found);
        counted = ap (λ s. s.cb_call_cntr) (g.kept id r.found) ∙ r.counted;
        synced = λ z. subst Synced (sym (g.kept id r.found)) (r.synced z);
      }

  register-Running :
      (fd : Option ℕ) (is_pipe added : Bool) (n : NetContext)
      → IsTable n
      → Running id k strict n
      → Running id k strict (register fd is_pipe added n).1
  unfolding register
  register-Running fd is_pipe added n t r =
      let (j, m) = alloc_socket n in
      let w =
        put_socket-Running id k strict m j
          (record (m.sockets j) { socket = fd; socket_is_pipe = is_pipe }) refl refl (λ y. y)
          (alloc_socket-Running n t r) in
      record { found = w.found; counted = w.counted; synced = w.synced }

  connect_special-Running :
      (type : SpecialConnection) (fd : Option ℕ) (added : Bool) (n : NetContext)
      → IsTable n
      → Running id k strict n
      → Running id k strict (connect_special type fd added n).1
  unfolding connect_special
  connect_special-Running null fd added n t r = register-Running none false added n t r
  connect_special-Running stdinput none added n t r = alloc_socket-Running n t r
  connect_special-Running stdoutput none added n t r = alloc_socket-Running n t r
  connect_special-Running stderror none added n t r = alloc_socket-Running n t r
  connect_special-Running descriptor none added n t r = alloc_socket-Running n t r
  connect_special-Running socket none added n t r = alloc_socket-Running n t r
  connect_special-Running stdinput (some fd) added n t r =
      register-Running (some fd) true added n t r
  connect_special-Running stdoutput (some fd) added n t r =
      register-Running (some fd) true added n t r
  connect_special-Running stderror (some fd) added n t r =
      register-Running (some fd) true added n t r
  connect_special-Running descriptor (some fd) added n t r =
      register-Running (some fd) true added n t r
  connect_special-Running socket (some fd) added n t r =
      register-Running (some fd) false added n t r

  connect-Running :
      (fd : Option ℕ) (added : Bool) (n : NetContext)
      → IsTable n
      → Running id k strict n
      → Running id k strict (connect fd added n).1
  unfolding connect
  connect-Running none added n t r = r
  connect-Running (some fd) added n t r = register-Running (some fd) false added n t r

  close_pipe-Running :
      (j : ℕ) (fd : Option ℕ) (n : NetContext)
      → Running id k strict n
      → Running id k strict (close_pipe j fd n)
  close_pipe-Running j none n r = r
  close_pipe-Running j (some fd) n r =
      let w =
        put_socket-Running id k strict n j (record (n.sockets j) { socket = none }) refl refl
          (λ y. y) r in
      record { found = w.found; counted = w.counted; synced = w.synced }

  pair-Running :
      (b : Bool) (p q : ℕ × NetContext)
      → Running id k strict p.1
      → Running id k strict q.1
      → Running id k strict (if b then p else q).1
  pair-Running true p q r t = r
  pair-Running false p q r t = t

  send_count-Running :
      (answer : SendAnswer) (n : NetContext)
      → Running id k strict n
      → Running id k strict (send_count answer n).1
  send_count-Running (sent_bytes s) n r = r
  send_count-Running (failed true) n r = r
  send_count-Running (failed false) n r = record {
    found = r.found;
    counted = r.counted;
    synced = r.synced;
  }

  send-Running :
      (j : ℕ) (data_empty : Bool) (answer : SendAnswer) (n : NetContext)
      → Running id k strict n
      → Running id k strict (send j data_empty answer n).1
  unfolding send
  send-Running j data_empty answer n r =
      let s = n.sockets j in
      pair-Running (not (is_socket j n)) _ _ r (
        pair-Running data_empty _ _
          (if-Running id k strict s.socket_is_pipe _ _ (close_pipe-Running j s.socket n r)
            (record { found = r.found; counted = r.counted; synced = r.synced }))
          (send_count-Running answer n r))

  noted-Running :
      (e : Effect) (n : NetContext) → Running id k strict n → Running id k strict (note_effect e n)
  noted-Running e n r = record { found = r.found; counted = r.counted; synced = r.synced }

  reconnect-Running :
      (j : ℕ) (fd : Option ℕ) (added : Bool) (n : NetContext)
      → Running id k strict n
      → Running id k strict (reconnect j fd added n).1
  unfolding reconnect
  reconnect-Running j none added n r = r
  reconnect-Running j (some fd) added n r =
      let s = record (n.sockets j) { socket = some fd } in
      let m = drop_descriptor (n.sockets j).socket n in
      let q : Running id k strict m = record {
        found = r.found;
        counted = r.counted;
        synced = r.synced;
      } in
      if-Running id k strict (is_socket j n) _ n
        (noted-Running (epoll_add (some fd) j) _ (
          if-Running id k strict added _ _
            (put_socket-Running id k strict m j
              (record s { flags = no_interest; cur_flags = no_interest }) refl refl (λ y. refl) q)
            (put_socket-Running id k strict m j s refl refl (λ y. y) q)))
        r

  set_timeout-Running :
      (j tp p : ℕ) (n : NetContext)
      → Running id k strict n
      → Running id k strict (set_timeout j tp p n)
  unfolding set_timeout
  set_timeout-Running j tp p n r =
      let s = n.sockets j in
      let w =
        put_socket-Running id k strict n j (record s { timeout_cb = some p; tmtp = tp }) refl refl
          (λ y. y) r in
      let m = record (put_socket j (record s { timeout_cb = some p; tmtp = tp }) n) {
        tmset = insert_timer (tp, j) (erase_timer (s.tmtp, j) n.tmset);
      } in
      if-Running id k strict (is_socket j n) _ n
        (wake_if-Running id k strict (later_than (get_epoll_timeout n) tp && n.timer_thread) m
          (record { found = w.found; counted = w.counted; synced = w.synced }))
        r

  different :
      (j : ℕ) (n : NetContext)
      → 0 < k
      → Running id k strict n
      → ((n.sockets j).cb_call_cntr == 0) ≡ true
      → (id == j) ≡ false
  different j n pos r z = elim (Bool-cases (id == j)) [
    | inr e ↦ e
    | inl e ↦
        let same : id ≡ j = ground arith in
        let none : (n.sockets j).cb_call_cntr ≡ 0 = ground arith in
        absurd (omega (arith, pos, none, r.counted, ap (λ i. (n.sockets i).cb_call_cntr) same))
  ]

  -- destroy waits for the socket, and gives others back.
  destroy-Running :
      (j : ℕ) (n : NetContext)
      → 0 < k
      → IsTable n
      → Running id k strict n
      → Ensures (Running id k strict) (destroy j n)
  unfolding destroy
  destroy-Running j n pos t r =
      let s = n.sockets j in
      let m = record (drop_descriptor s.socket n) { tmset = erase_timer (s.tmtp, j) n.tmset } in
      either-Ensures (Running id k strict) (is_socket j n) (s.cb_call_cntr == 0) n (free_socket j m)
        r
        (λ h z.
          let takes = free_socket-Takes m j (IsTable-same n m refl refl refl t) h in
          let other : (id == j) ≡ false = different j n pos r z in
          let there : is_socket id (free_socket j m) ≡ true =
            ground (arith, takes.found id, other, r.found) in
          record {
            found = there;
            counted = ap (λ x. x.cb_call_cntr) (takes.kept id there) ∙ r.counted;
            synced = λ y. subst Synced (sym (takes.kept id there)) (r.synced y);
          })

  call-Running :
      (c : NetCall) (n : NetContext)
      → 0 < k
      → IsNet n
      → Running id k strict n
      → Ensures (Running id k strict) (call c n)
  unfolding call receive ready_to_send accept create_pipe clear_timeout enqueue
  call-Running (receives j size peer) n pos v r = flagged-Running id k strict n j _ refl refl r
  call-Running (readies j peer) n pos v r = flagged-Running id k strict n j _ refl refl r
  call-Running (accepts j server) n pos v r = flagged-Running id k strict n j _ refl refl r
  call-Running (sends j data_empty answer) n pos v r = send-Running j data_empty answer n r
  call-Running (connects fd added) n pos v r = connect-Running fd added n v.table r
  call-Running (connects_special type fd added) n pos v r =
      connect_special-Running type fd added n v.table r
  call-Running (creates_pipe r w a b) n pos v running =
      let first = register-Running (some r) true a n v.table running in
      if-Running id k strict a _ _
        (register-Running (some w) true b (register (some r) true a n).1
          (register-IsNet (some r) true a n v).table first)
        first
  call-Running (reconnects j fd added) n pos v r = reconnect-Running j fd added n r
  call-Running (destroys j) n pos v r = destroy-Running j n pos v.table r
  call-Running (times j tp p) n pos v r = set_timeout-Running j tp p n r
  call-Running (clears_timeout j) n pos v r =
      if-Running id k strict (is_socket j n) _ n
        (record { found = r.found; counted = r.counted; synced = r.synced }) r
  call-Running (enqueues action) n pos v r =
      wake_if-Running id k strict n.timer_thread _
        (record { found = r.found; counted = r.counted; synced = r.synced })

  -- The calls keep all in order, and the socket with its running callbacks.
  pub run_calls-Running :
      (cs : List NetCall) (n : NetContext)
      → 0 < k
      → IsNet n
      → Running id k strict n
      → Ensures (λ m. IsNet m × Running id k strict m) (run_calls cs n)
  unfolding run_calls
  run_calls-Running [] n pos v r = (v, r)
  run_calls-Running (c ∷ cs) n pos v r =
      bind-Ensures (λ m. IsNet m × Running id k strict m) (λ m. IsNet m × Running id k strict m)
        (call c n) (run_calls cs)
        (both-Ensures IsNet (Running id k strict) (call c n) (call-IsNet c n v)
          (call-Running c n pos v r))
        (λ m w. run_calls-Running cs m pos w.0 w.1)
