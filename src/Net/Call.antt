-- ===== src/Net/Call.antt =====
-- The calls of INetContext on NetContext (src/zerobus/network_linux.cpp), each under its lock from
-- begin to end. What the kernel answers is an argument: a descriptor or none where a call failed,
-- and whether the epoll took a new descriptor. Changes and removals in the epoll are taken to
-- succeed.
pub mod Valid
pub mod Running
pub mod Keeps
use zerobus.Prelude.{
  ℕ, zero, suc, ◌+◌, ◌≤◌, Bool, true, false, not, ◌&&◌, ◌||◌, List, [], ◌∷◌, ◌++◌, Option, none,
  some, ltb, ◌==◌, if◌then◌else◌,
}
use zerobus.Bus.Routing.{Outcome, done, unfinished, ◌>>=◌}
use zerobus.Net.Socket.{
  Effect, SocketInfo, NetContext, no_interest, put_socket, note_effect, epoll_add, epoll_del,
  close_fd, shutdown_fd, report_error, is_socket, alloc_socket, free_socket, apply_flags,
}
use zerobus.Net.Timer.{erase_timer, set_timeout, clear_timeout, wake_if}

unfoldable pub receive : ℕ → ℕ → ℕ → NetContext → NetContext
receive id size peer n =
    let s = n.sockets id in
    if is_socket id n
    then apply_flags id (
        put_socket id
          (record s {
            flags = record s.flags { input = true };
            recv_buffer = size;
            recv_cb = some peer;
          })
          n)
    else n

unfoldable pub ready_to_send : ℕ → ℕ → NetContext → NetContext
ready_to_send id peer n =
    let s = n.sockets id in
    if is_socket id n
    then apply_flags id (
        put_socket id (record s { flags = record s.flags { output = true }; send_cb = some peer })
          n)
    else n

unfoldable pub accept : ℕ → ℕ → NetContext → NetContext
accept id server n =
    let s = n.sockets id in
    if is_socket id n
    then apply_flags id (
        put_socket id
          (record s { flags = record s.flags { input = true }; accept_cb = some server }) n)
    else n

-- What ::write or ::send answers: a count of bytes, or an error, which may be one of those that
-- are expected (EWOULDBLOCK, EPIPE and ECONNRESET).
pub data SendAnswer : Type 0 where
  sent_bytes : ℕ → SendAnswer
  failed : Bool → SendAnswer

abbrev pub send_count : SendAnswer → NetContext → ℕ × NetContext
send_count (sent_bytes s) n = (s, n)
send_count (failed true) n = (0, n)
send_count (failed false) n = (0, note_effect report_error n)

-- The old descriptor leaves the epoll and is closed.
abbrev pub dropped : Option ℕ → List Effect
dropped none = []
dropped (some fd) = epoll_del (some fd) ∷ close_fd (some fd) ∷ []

abbrev pub drop_descriptor : Option ℕ → NetContext → NetContext
drop_descriptor fd n = record n { effects = n.effects ++ dropped fd }

-- The end of a pipe is closed.
abbrev pub close_pipe : ℕ → Option ℕ → NetContext → NetContext
close_pipe id none n = n
close_pipe id (some fd) n =
    put_socket id (record (n.sockets id) { socket = none }) (drop_descriptor (some fd) n)

unfoldable pub send : ℕ → Bool → SendAnswer → NetContext → ℕ × NetContext
send id data_empty answer n =
    let s = n.sockets id in
    if not (is_socket id n)
    then (0, n)
    else if data_empty
    then (
      0,
      if s.socket_is_pipe then close_pipe id s.socket n else note_effect (shutdown_fd s.socket) n,
    )
    else send_count answer n

-- A new socket with its descriptor. If the epoll does not take it, the exception leaves the socket
-- in the table.
unfoldable pub register : Option ℕ → Bool → Bool → NetContext → Option ℕ × NetContext
register fd is_pipe added n =
    let (k, m) = alloc_socket n in
    (
      if added then some k else none,
      note_effect (epoll_add fd k)
          (put_socket k (record (m.sockets k) { socket = fd; socket_is_pipe = is_pipe }) m),
    )

-- connect and create_server, with the descriptor of connect_peer or of listen.
unfoldable pub connect : Option ℕ → Bool → NetContext → Option ℕ × NetContext
connect none added n = (none, n)
connect (some fd) added n = register (some fd) false added n

pub data SpecialConnection : Type 0 where
  null stdinput stdoutput stderror descriptor socket : SpecialConnection

abbrev pub is_pipe_type : SpecialConnection → Bool
is_pipe_type null = false
is_pipe_type socket = false
is_pipe_type _ = true

-- connect to a descriptor, with what dup_fd answers; it is not called for null.
unfoldable pub connect_special :
    SpecialConnection → Option ℕ → Bool → NetContext → Option ℕ × NetContext
connect_special null fd added n = register none false added n
connect_special type none added n = (none, (alloc_socket n).1)
connect_special type (some fd) added n = register (some fd) (is_pipe_type type) added n

abbrev pub both_ends : Option ℕ → Option ℕ → Option (ℕ × ℕ)
both_ends (some r) (some w) = some (r, w)
both_ends _ _ = none

-- With whether the epoll takes each end. The exception comes before the second end is made, or
-- behind it; what is in the table by then stays.
unfoldable pub create_pipe : ℕ → ℕ → Bool → Bool → NetContext → Option (ℕ × ℕ) × NetContext
create_pipe read_fd write_fd added_read added_write n =
    let (r, m) = register (some read_fd) true added_read n in
    let (w, o) = register (some write_fd) true added_write m in
    (both_ends r w, if added_read then o else m)

-- With the new descriptor of connect_peer, or none where it throws, and whether the epoll takes
-- it; false stands for an exception. If the epoll does not take it, the socket has the new
-- descriptor and its old flags.
unfoldable pub reconnect : ℕ → Option ℕ → Bool → NetContext → Bool × NetContext
reconnect id none added n = (not (is_socket id n), n)
reconnect id (some fd) added n =
    let s = record (n.sockets id) { socket = some fd } in
    let m = drop_descriptor (n.sockets id).socket n in
    (
      not (is_socket id n) || added,
      if is_socket id n
          then note_effect (epoll_add (some fd) id) (
              if added
              then put_socket id (record s { flags = no_interest; cur_flags = no_interest }) m
              else put_socket id s m)
          else n,
    )

-- destroy waits while a callback of the socket runs.
unfoldable pub destroy : ℕ → NetContext → Outcome NetContext
destroy id n =
    let s = n.sockets id in
    if not (is_socket id n)
    then done n
    else if s.cb_call_cntr == 0
    then done (
        free_socket id
          (record (drop_descriptor s.socket n) { tmset = erase_timer (s.tmtp, id) n.tmset }))
    else unfinished

unfoldable pub enqueue : ℕ → NetContext → NetContext
enqueue action n = wake_if n.timer_thread (record n { actions = n.actions ++ (action ∷ []) })

-- The calls, with what the kernel answers.
pub data NetCall : Type 0 where
  receives : ℕ → ℕ → ℕ → NetCall
  readies accepts : ℕ → ℕ → NetCall
  sends : ℕ → Bool → SendAnswer → NetCall
  connects : Option ℕ → Bool → NetCall
  connects_special : SpecialConnection → Option ℕ → Bool → NetCall
  creates_pipe : ℕ → ℕ → Bool → Bool → NetCall
  reconnects : ℕ → Option ℕ → Bool → NetCall
  destroys : ℕ → NetCall
  times : ℕ → ℕ → ℕ → NetCall
  clears_timeout enqueues : ℕ → NetCall

-- The state after a call.
unfoldable pub call : NetCall → NetContext → Outcome NetContext
call (receives id size peer) n = done (receive id size peer n)
call (readies id peer) n = done (ready_to_send id peer n)
call (accepts id server) n = done (accept id server n)
call (sends id data_empty answer) n = done (send id data_empty answer n).1
call (connects fd added) n = done (connect fd added n).1
call (connects_special type fd added) n = done (connect_special type fd added n).1
call (creates_pipe r w added_read added_write) n = done (create_pipe r w added_read added_write n).1
call (reconnects id fd added) n = done (reconnect id fd added n).1
call (destroys id) n = destroy id n
call (times id tp p) n = done (set_timeout id tp p n)
call (clears_timeout id) n = done (clear_timeout id n)
call (enqueues action) n = done (enqueue action n)

unfoldable pub run_calls : List NetCall → NetContext → Outcome NetContext
run_calls [] n = done n
run_calls (c ∷ cs) n = do m ← call c n; run_calls cs m
