-- ===== src/Net/Event/Reached.antt =====
-- The states that a network context reaches (src/zerobus/network_linux.cpp).
use zerobus.Prelude.{ℕ, ◌≡◌, Option, List}
use mathlib.Core.Path.{subst}
use zerobus.Bus.Routing.{Outcome, done}
use zerobus.Net.Socket.{Interest, Callback, NetContext, new_context}
use zerobus.Net.Valid.{IsNet, new_context-IsNet}
use zerobus.Net.Call.{NetCall, call}
use zerobus.Net.Call.Valid.{Ensures, call-IsNet}
use zerobus.Net.Event.{AcceptAnswer, process_event, run_timers, run_actions}
use zerobus.Net.Event.Valid.{process_event-IsNet}
use zerobus.Net.Event.Firing.{NoneDue, run_timers-IsNet, run_actions-IsNet}

ensured :
    (P : NetContext → Type 0) (o : Outcome NetContext) (m : NetContext)
    → Ensures P o
    → o ≡ done m
    → P m
ensured P o m h e = subst (Ensures P) e h

module _ (handler : Callback → NetContext → List NetCall)
    (perform : ℕ → NetContext → List NetCall) where
  -- What makes a context of another, with the lock free before and after: a call from outside the
  -- callbacks, and what a worker thread does after epoll_wait.
  pub data Step (n m : NetContext) : Type 0 where
    calls : (c : NetCall) → call c n ≡ done m → Step n m
    event :
        (id : ℕ) (events : Interest) (accept_answer : AcceptAnswer) (recv_answer : Option ℕ)
        → process_event handler id events accept_answer recv_answer n ≡ done m
        → Step n m
    timers : (rounds now : ℕ) → run_timers handler rounds now n ≡ done m → Step n m
    actions : (rounds : ℕ) → run_actions perform rounds n ≡ done m → Step n m

  pub data Reached : NetContext → Type 0 where
    begins : Reached new_context
    goes_on : {n m : NetContext} → Reached n → Step n m → Reached m

  Step-IsNet : (n m : NetContext) → IsNet n → Step n m → IsNet m
  Step-IsNet n m v (calls c e) = ensured IsNet (call c n) m (call-IsNet c n v) e
  Step-IsNet n m v (event id events a r e) =
      ensured IsNet (process_event handler id events a r n) m
        (process_event-IsNet handler id events a r n v) e
  Step-IsNet n m v (timers rounds now e) =
      (ensured (λ o. IsNet o × NoneDue now o) (run_timers handler rounds now n) m
        (run_timers-IsNet handler rounds now n v) e).0
  Step-IsNet n m v (actions rounds e) =
      ensured IsNet (run_actions perform rounds n) m (run_actions-IsNet perform rounds n v) e

  -- In every state that a new NetContext reaches by calls of INetContext and by a worker's
  -- events, timers and actions, whatever the kernel answers where descriptors are made, added
  -- to the epoll or used, if no change and no removal in the epoll fails, and whatever the
  -- callbacks and the actions call, the free places of the table are a list that ends at its
  -- size and has all that are not in use; the timers are in order, at most one for each socket,
  -- of sockets in use and at the time that the socket has; and a socket in use that has no
  -- callback running has the same _cur_flags as _flags.
  pub Reached-IsNet : (n : NetContext) → Reached n → IsNet n
  Reached-IsNet _ begins = new_context-IsNet
  Reached-IsNet _ (goes_on {n} {m} r s) = Step-IsNet n m (Reached-IsNet n r) s
