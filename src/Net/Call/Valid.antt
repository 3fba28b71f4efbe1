-- ===== src/Net/Call/Valid.antt =====
-- Every call keeps a NetContext in order (src/zerobus/network_linux.cpp).
use zerobus.Prelude.{
  ℕ, ◌≡◌, refl, Bool, true, false, not, Option, none, some, List, [], ◌∷◌, ◌++◌, arith, ◌==◌,
  if◌then◌else◌,
}
use zerobus.Bus.Routing.{Outcome, done, thrown, unfinished, ◌>>=◌}
use zerobus.Net.Socket.{
  NetContext, is_socket, alloc_socket, free_socket, note_effect, Effect, epoll_add, report_error,
  shutdown_fd,
}
use zerobus.Net.Socket.Alloc.{alloc_socket-Gives}
use zerobus.Net.Timer.{erase_timer}
use zerobus.Net.Valid.{IsNet, IsNet-same, put_socket-IsNet}
use zerobus.Net.Valid.Changes.{
  wake_if-IsNet, set_timeout-IsNet, clear_timeout-IsNet, free_socket-IsNet, if-IsNet,
  put_flags-IsNet, erased-NoTimer, erase_timer-IsNet, alloc_socket-IsNet,
}
use zerobus.Net.Call.{
  receive, ready_to_send, accept, send_count, SendAnswer, sent_bytes, failed, close_pipe, send,
  register, connect, SpecialConnection, null, stdinput, stdoutput, stderror, descriptor, socket,
  connect_special, create_pipe, drop_descriptor, reconnect, destroy, enqueue, NetCall, receives,
  readies, accepts, sends, connects, connects_special, creates_pipe, reconnects, destroys, times,
  clears_timeout, enqueues, call, run_calls,
}

receive-IsNet : (id size peer : ℕ) (n : NetContext) → IsNet n → IsNet (receive id size peer n)
unfolding receive
receive-IsNet id size peer n v =
    if-IsNet (is_socket id n) _ n (λ h. put_flags-IsNet n id _ v h refl refl) v

ready_to_send-IsNet : (id peer : ℕ) (n : NetContext) → IsNet n → IsNet (ready_to_send id peer n)
unfolding ready_to_send
ready_to_send-IsNet id peer n v =
    if-IsNet (is_socket id n) _ n (λ h. put_flags-IsNet n id _ v h refl refl) v

accept-IsNet : (id server : ℕ) (n : NetContext) → IsNet n → IsNet (accept id server n)
unfolding accept
accept-IsNet id server n v =
    if-IsNet (is_socket id n) _ n (λ h. put_flags-IsNet n id _ v h refl refl) v

note_effect-IsNet : (e : Effect) (n : NetContext) → IsNet n → IsNet (note_effect e n)
note_effect-IsNet e n v = IsNet-same n (note_effect e n) refl refl refl refl v

pub register-IsNet :
    (fd : Option ℕ) (is_pipe added : Bool) (n : NetContext)
    → IsNet n
    → IsNet (register fd is_pipe added n).1
unfolding register
register-IsNet fd is_pipe added n v =
    let (k, m) = alloc_socket n in
    let g = alloc_socket-Gives n v.table in
    let w = alloc_socket-IsNet n v in
    let there : is_socket k m ≡ true = ground (arith, g.found k) in
    note_effect-IsNet (epoll_add fd k) _ (
      put_socket-IsNet m k (record (m.sockets k) { socket = fd; socket_is_pipe = is_pipe }) w there
        refl refl (w.armed k there))

connect-IsNet :
    (fd : Option ℕ) (added : Bool) (n : NetContext) → IsNet n → IsNet (connect fd added n).1
unfolding connect
connect-IsNet none added n v = v
connect-IsNet (some fd) added n v = register-IsNet (some fd) false added n v

connect_special-IsNet :
    (type : SpecialConnection) (fd : Option ℕ) (added : Bool) (n : NetContext)
    → IsNet n
    → IsNet (connect_special type fd added n).1
unfolding connect_special
connect_special-IsNet null fd added n v = register-IsNet none false added n v
connect_special-IsNet stdinput none added n v = alloc_socket-IsNet n v
connect_special-IsNet stdoutput none added n v = alloc_socket-IsNet n v
connect_special-IsNet stderror none added n v = alloc_socket-IsNet n v
connect_special-IsNet descriptor none added n v = alloc_socket-IsNet n v
connect_special-IsNet socket none added n v = alloc_socket-IsNet n v
connect_special-IsNet stdinput (some fd) added n v = register-IsNet (some fd) true added n v
connect_special-IsNet stdoutput (some fd) added n v = register-IsNet (some fd) true added n v
connect_special-IsNet stderror (some fd) added n v = register-IsNet (some fd) true added n v
connect_special-IsNet descriptor (some fd) added n v = register-IsNet (some fd) true added n v
connect_special-IsNet socket (some fd) added n v = register-IsNet (some fd) false added n v

create_pipe-IsNet :
    (r w : ℕ) (added_read added_write : Bool) (n : NetContext)
    → IsNet n
    → IsNet (create_pipe r w added_read added_write n).1
unfolding create_pipe
create_pipe-IsNet r w added_read added_write n v =
    let first = register-IsNet (some r) true added_read n v in
    if-IsNet added_read _ _ (λ h. register-IsNet (some w) true added_write _ first) first

drop_descriptor-IsNet : (fd : Option ℕ) (n : NetContext) → IsNet n → IsNet (drop_descriptor fd n)
drop_descriptor-IsNet fd n v = IsNet-same n (drop_descriptor fd n) refl refl refl refl v

reconnect-IsNet :
    (id : ℕ) (fd : Option ℕ) (added : Bool) (n : NetContext)
    → IsNet n
    → IsNet (reconnect id fd added n).1
unfolding reconnect
reconnect-IsNet id none added n v = v
reconnect-IsNet id (some fd) added n v =
    let m = drop_descriptor (n.sockets id).socket n in
    let w = drop_descriptor-IsNet (n.sockets id).socket n v in
    if-IsNet (is_socket id n) _ n
      (λ h. note_effect-IsNet (epoll_add (some fd) id) _ (
        if-IsNet added _ _ (λ a. put_socket-IsNet m id _ w h refl refl (λ z. refl))
          (put_socket-IsNet m id _ w h refl refl (v.armed id h))))
      v

close_pipe-IsNet :
    (id : ℕ) (fd : Option ℕ) (n : NetContext)
    → is_socket id n ≡ true
    → IsNet n
    → IsNet (close_pipe id fd n)
close_pipe-IsNet id none n h v = v
close_pipe-IsNet id (some fd) n h v =
    put_socket-IsNet (drop_descriptor (some fd) n) id _ (drop_descriptor-IsNet (some fd) n v) h refl
      refl (v.armed id h)

send_count-IsNet : (answer : SendAnswer) (n : NetContext) → IsNet n → IsNet (send_count answer n).1
send_count-IsNet (sent_bytes s) n v = v
send_count-IsNet (failed true) n v = v
send_count-IsNet (failed false) n v = note_effect-IsNet report_error n v

first-IsNet :
    (b : Bool) (p q : ℕ × NetContext)
    → IsNet p.1
    → (b ≡ true → IsNet q.1)
    → IsNet (if not b then p else q).1
first-IsNet true p q v f = f refl
first-IsNet false p q v f = v

second-IsNet :
    (b : Bool) (p q : ℕ × NetContext) → IsNet p.1 → IsNet q.1 → IsNet (if b then p else q).1
second-IsNet true p q v w = v
second-IsNet false p q v w = w

send-IsNet :
    (id : ℕ) (data_empty : Bool) (answer : SendAnswer) (n : NetContext)
    → IsNet n
    → IsNet (send id data_empty answer n).1
unfolding send
send-IsNet id data_empty answer n v =
    first-IsNet (is_socket id n) (0, n) _ v
      (λ h.
        second-IsNet data_empty _ (send_count answer n)
          (if-IsNet (n.sockets id).socket_is_pipe _ _
            (λ p. close_pipe-IsNet id (n.sockets id).socket n h v)
            (note_effect-IsNet (shutdown_fd (n.sockets id).socket) n v))
          (send_count-IsNet answer n v))

-- What a call that ends leaves in order.
abbrev pub Ensures : (NetContext → Type 0) → Outcome NetContext → Type 0
Ensures P (done n) = P n
Ensures P thrown = Unit {0}
Ensures P unfinished = Unit {0}

pub either-Ensures :
    (P : NetContext → Type 0) (b c : Bool) (n m : NetContext)
    → P n
    → (b ≡ true → c ≡ true → P m)
    → Ensures P (if not b then done n else if c then done m else unfinished)
either-Ensures P false c n m v f = v
either-Ensures P true true n m v f = f refl refl
either-Ensures P true false n m v f = tt

pub destroy-IsNet : (id : ℕ) (n : NetContext) → IsNet n → Ensures IsNet (destroy id n)
unfolding destroy
destroy-IsNet id n v =
    let s = n.sockets id in
    let rest = record n { tmset = erase_timer (s.tmtp, id) n.tmset } in
    let m = record (drop_descriptor s.socket n) { tmset = erase_timer (s.tmtp, id) n.tmset } in
    let w = IsNet-same rest m refl refl refl refl (erase_timer-IsNet n (s.tmtp, id) v) in
    either-Ensures IsNet (is_socket id n) (s.cb_call_cntr == 0) n (free_socket id m) v
      (λ h z. free_socket-IsNet m id w (erased-NoTimer n id v) h)

-- Every call of the interface.
pub call-IsNet : (c : NetCall) (n : NetContext) → IsNet n → Ensures IsNet (call c n)
unfolding call enqueue
call-IsNet (receives id size peer) n v = receive-IsNet id size peer n v
call-IsNet (readies id peer) n v = ready_to_send-IsNet id peer n v
call-IsNet (accepts id server) n v = accept-IsNet id server n v
call-IsNet (sends id data_empty answer) n v = send-IsNet id data_empty answer n v
call-IsNet (connects fd added) n v = connect-IsNet fd added n v
call-IsNet (connects_special type fd added) n v = connect_special-IsNet type fd added n v
call-IsNet (creates_pipe r w a b) n v = create_pipe-IsNet r w a b n v
call-IsNet (reconnects id fd added) n v = reconnect-IsNet id fd added n v
call-IsNet (destroys id) n v = destroy-IsNet id n v
call-IsNet (times id tp p) n v = set_timeout-IsNet id tp p n v
call-IsNet (clears_timeout id) n v = clear_timeout-IsNet id n v
call-IsNet (enqueues action) n v =
    wake_if-IsNet n.timer_thread _
      (IsNet-same n (record n { actions = n.actions ++ (action ∷ []) }) refl refl refl refl v)

pub bind-Ensures :
    (P Q : NetContext → Type 0) (o : Outcome NetContext) (f : NetContext → Outcome NetContext)
    → Ensures P o
    → ((m : NetContext) → P m → Ensures Q (f m))
    → Ensures Q (o >>= f)
bind-Ensures P Q (done n) f h g = g n h
bind-Ensures P Q thrown f h g = tt
bind-Ensures P Q unfinished f h g = tt

pub run_calls-IsNet :
    (cs : List NetCall) (n : NetContext) → IsNet n → Ensures IsNet (run_calls cs n)
unfolding run_calls
run_calls-IsNet [] n v = v
run_calls-IsNet (c ∷ cs) n v =
    bind-Ensures IsNet IsNet (call c n) (run_calls cs) (call-IsNet c n v)
      (λ m w. run_calls-IsNet cs m w)
