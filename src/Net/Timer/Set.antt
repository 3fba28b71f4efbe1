-- ===== src/Net/Timer/Set.antt =====
-- set_timeout, clear_timeout and get_epoll_timeout_lk on a context in order
-- (src/zerobus/network_linux.cpp).
use zerobus.Prelude.{
  ℕ, ◌≡◌, refl, ap, ◌∙◌, Bool, true, false, ◌&&◌, Option, none, some, arith, ◌==◌, if◌then◌else◌,
  Bool-cases, inl, inr,
}
use mathlib.Core.Path.{subst}
use zerobus.Net.Socket.{NetContext, is_socket}
use zerobus.Net.Timer.{
  get_epoll_timeout, later_than, erase_timer, set_timeout, clear_timeout, wake_if,
}
use zerobus.Net.Timer.Order.{NoTimer}
use zerobus.Net.Timer.Pending.{pending, pending-NoTimer, pending-insert, pending-erase}
use zerobus.Net.Valid.{IsNet}
use zerobus.Net.Valid.Changes.{erased-NoTimer}

same_test :
    (b : Bool) (x y z : Option ℕ) → (if b then x else if b then y else z) ≡ (if b then x else z)
same_test true x y z = refl
same_test false x y z = refl

wake_if-tmset : (b : Bool) (n : NetContext) → (wake_if b n).tmset ≡ n.tmset
wake_if-tmset true n = refl
wake_if-tmset false n = refl

-- The timers without the socket's.
erased :
    (n : NetContext) (id j : ℕ)
    → IsNet n
    → pending j (erase_timer ((n.sockets id).tmtp, id) n.tmset)
      ≡ (if id == j then none else pending j n.tmset)
erased n id j v =
    let ts = erase_timer ((n.sockets id).tmtp, id) n.tmset in
    elim (Bool-cases (id == j)) [
      | inl e ↦
          let same : id ≡ j = ground arith in
          rw e (pending-NoTimer j ts (subst (λ i. NoTimer i ts) same (erased-NoTimer n id v)))
      | inr e ↦ rw e (pending-erase j (n.sockets id).tmtp id n.tmset e)
    ]

-- On a context in order, set_timeout of a socket in use sets the time of its timer, in place of
-- an earlier one, clear_timeout takes its timer away, and both leave the timers of the other
-- sockets.
pub set_timeout-pending :
    (n : NetContext) (id tp p j : ℕ)
    → IsNet n
    → is_socket id n ≡ true
    → (pending j (set_timeout id tp p n).tmset ≡ (if id == j then some tp else pending j n.tmset))
      × (pending j (clear_timeout id n).tmset ≡ (if id == j then none else pending j n.tmset))
unfolding set_timeout clear_timeout
set_timeout-pending n id tp p j v h =
    let ts = erase_timer ((n.sockets id).tmtp, id) n.tmset in
    (
      rw h (
          ap (pending j) (wake_if-tmset (later_than (get_epoll_timeout n) tp && n.timer_thread) _)
          ∙ pending-insert j tp id ts (erased-NoTimer n id v)
          ∙ ap (λ x. if id == j then some tp else x) (erased n id j v)
          ∙ same_test (id == j) (some tp) none (pending j n.tmset)),
      rw h (erased n id j v),
    )
