-- ===== src/Net/Socket.antt =====
-- The table of sockets of NetContext (src/zerobus/network_linux.h and network_linux.cpp):
-- alloc_socket_lk, free_socket_lk, socket_by_ident and apply_flags_lk. The vector of sockets is a
-- function of the index with a count; a null pointer is none, and so is the descriptor -1. The two
-- bits EPOLLIN and EPOLLOUT of a set of flags are a record. What is done outside is recorded.
pub mod Table
pub mod Alloc
use zerobus.Prelude.{
  ℕ, zero, suc, ◌+◌, Bool, true, false, not, ◌&&◌, List, [], ◌∷◌, ◌++◌, Option, none, ltb, ◌==◌,
  if◌then◌else◌,
}

pub record Interest : Type 0 where
  pub input : Bool
  pub output : Bool

abbrev pub no_interest : Interest
no_interest = record { input = false; output = false }

abbrev pub same_bool : Bool → Bool → Bool
same_bool true b = b
same_bool false b = not b

abbrev pub same_interest : Interest → Interest → Bool
same_interest a b = same_bool a.input b.input && same_bool a.output b.output

pub record SocketInfo : Type 0 where
  pub ident : ℕ
  pub socket : Option ℕ
  pub recv_buffer : ℕ
  pub flags : Interest
  pub cur_flags : Interest
  pub tmtp : ℕ
  pub recv_cb : Option ℕ
  pub send_cb : Option ℕ
  pub accept_cb : Option ℕ
  pub timeout_cb : Option ℕ
  pub cb_call_cntr : ℕ
  pub socket_is_pipe : Bool

-- A fresh SocketInfo with an ident.
abbrev pub new_socket : ℕ → SocketInfo
new_socket ident = record {
  ident = ident;
  socket = none;
  recv_buffer = 0;
  flags = no_interest;
  cur_flags = no_interest;
  tmtp = 0;
  recv_cb = none;
  send_cb = none;
  accept_cb = none;
  timeout_cb = none;
  cb_call_cntr = 0;
  socket_is_pipe = false;
}

-- What is done outside: on the epoll, on descriptors, the write that wakes the thread that waits
-- for the timers, and a call of the error callback.
pub data Effect : Type 0 where
  epoll_add : Option ℕ → ℕ → Effect
  epoll_mod : Option ℕ → Interest → ℕ → Effect
  epoll_del : Option ℕ → Effect
  close_fd : Option ℕ → Effect
  shutdown_fd : Option ℕ → Effect
  wake report_error : Effect

-- The callbacks of a peer or of a server.
pub data Callback : Type 0 where
  on_accept : ℕ → ℕ → Callback
  receive_complete : ℕ → ℕ → Callback
  clear_to_send : ℕ → Callback
  on_timeout : ℕ → Callback

-- Time is a number; the set of timers is the list of its pairs in order. An action is a number, and
-- `timer_thread` is whether a thread waits for the timers.
pub record NetContext : Type 0 where
  pub sockets : ℕ → SocketInfo
  pub count : ℕ
  pub first_free : ℕ
  pub tmset : List (ℕ × ℕ)
  pub actions : List ℕ
  pub timer_thread : Bool
  pub effects : List Effect
  pub callbacks : List Callback

abbrev pub new_context : NetContext
new_context = record {
  sockets = λ i. new_socket 0;
  count = 0;
  first_free = 0;
  tmset = [];
  actions = [];
  timer_thread = false;
  effects = [];
  callbacks = [];
}

abbrev pub put_socket : ℕ → SocketInfo → NetContext → NetContext
put_socket id s n = record n { sockets = λ i. if i == id then s else n.sockets i }

abbrev pub note_effect : Effect → NetContext → NetContext
note_effect c n = record n { effects = n.effects ++ (c ∷ []) }

-- Whether socket_by_ident finds the socket, which is `sockets id` then.
abbrev pub is_socket : ℕ → NetContext → Bool
is_socket id n = ltb id n.count && ((n.sockets id).ident == id)

-- `_sockets.push_back(...)`, whose ident is the new count.
abbrev pub push_socket : NetContext → NetContext
push_socket n = record (put_socket n.count (new_socket (n.count + 1)) n) { count = n.count + 1 }

-- The loop of alloc_socket_lk, with a bound on its rounds.
unfoldable pub grow : ℕ → NetContext → NetContext
grow zero n = n
grow (suc rounds) n =
    let rest = grow rounds (push_socket n) in if ltb n.first_free n.count then n else rest

-- The swap of the first free ident and the socket's.
abbrev pub take_first : NetContext → ℕ × NetContext
take_first n =
    let k = n.first_free in
    (
      k,
      record (put_socket k (record (n.sockets k) { ident = k }) n) {
        first_free = (n.sockets k).ident;
      },
    )

unfoldable pub alloc_socket : NetContext → ℕ × NetContext
alloc_socket n = take_first (grow (suc n.first_free) n)

unfoldable pub free_socket : ℕ → NetContext → NetContext
free_socket id n = record (put_socket id (new_socket n.first_free) n) { first_free = id }

unfoldable pub apply_flags : ℕ → NetContext → NetContext
apply_flags id n =
    let s = n.sockets id in
    if same_interest s.flags s.cur_flags
    then n
    else put_socket id (record s { cur_flags = s.flags })
        (note_effect (epoll_mod s.socket s.flags s.ident) n)
