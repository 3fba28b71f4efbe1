-- ===== src/Net/Event/Firing.antt =====
-- A NetContext stays in order through timers and actions, and no timer is left that is due
-- (src/zerobus/network_linux.cpp).
use zerobus.Prelude.{
  ℕ, zero, suc, ◌<◌, ◌≡◌, ◌≢◌, refl, sym, ◌∙◌, Bool, true, false, Option, none, some, List, [], ◌∷◌,
  arith, ltb, ◌==◌, All, Bool-cases, inl, inr,
}
use mathlib.Core.Path.{subst}
use zerobus.Bus.Routing.{Outcome, done}
use zerobus.Net.Socket.{Callback, on_timeout, NetContext, put_socket, is_socket}
use zerobus.Net.Valid.{Owned, IsNet, IsNet-same, put_socket-IsNet, is_socket-put}
use zerobus.Net.Call.{NetCall, run_calls}
use zerobus.Net.Call.Valid.{Ensures, bind-Ensures, run_calls-IsNet}
use zerobus.Net.Call.Running.{Synced, Running}
use zerobus.Net.Call.Keeps.{run_calls-Running}
use zerobus.Net.Timer.Order.{Ordered, Single, After}
use zerobus.Net.Socket.Table.{IsTable-same}
use zerobus.Net.Event.Valid.{if-Ensures}
use zerobus.Net.Event.{
  count_callback, uncount_callback, invoke_cb, next_timer, timeout_if, fire_timer, run_timers,
  run_each, next_actions, run_actions,
}

-- No timer is due.
abbrev pub NoneDue : ℕ → NetContext → Type 0
NoneDue now n = All (λ e. now < e.0) n.tmset

module _ (handler : Callback → NetContext → List NetCall) where
  -- A callback outside of an event: the flags stay with the epoll.
  invoke-Synced :
      (id : ℕ) (cb : Callback) (n : NetContext) (strict : Bool)
      → is_socket id n ≡ true
      → (strict ≡ true → Synced (n.sockets id))
      → (strict ≡ false → (n.sockets id).cb_call_cntr ≢ 0)
      → IsNet n
      → Ensures IsNet (invoke_cb handler id cb n)
  unfolding invoke_cb
  invoke-Synced id cb n strict h y c v =
      let m = count_callback id cb n in
      let s = n.sockets id in
      let k = suc s.cb_call_cntr in
      let r = record s { cb_call_cntr = k } in
      let w =
        IsNet-same (put_socket id r n) m refl refl refl refl
          (put_socket-IsNet n id r v h refl refl (λ z. absurd (omega (arith, z)))) in
      let start : Running id k strict m = record {
        found = is_socket-put n id id r refl ∙ h;
        counted = ground arith;
        synced = λ z. let e = y z in ground (arith, e);
      } in
      bind-Ensures (λ o. IsNet o × Running id k strict o) IsNet (run_calls (handler cb m) m)
        (λ o. done (uncount_callback id o))
        (run_calls-Running id k strict (handler cb m) m (omega arith) w start)
        (λ o q. put_socket-IsNet o id _ q.0 q.1.found refl refl (λ z. elim (Bool-cases strict) [
          | inl e ↦ q.1.synced e
          | inr e ↦ absurd (c e (omega (arith, z, q.1.counted)))
        ]))

  invoke_cb-IsNet :
      (id : ℕ) (cb : Callback) (n : NetContext)
      → is_socket id n ≡ true
      → IsNet n
      → Ensures IsNet (invoke_cb handler id cb n)
  invoke_cb-IsNet id cb n h v =
      invoke-Synced id cb n ((n.sockets id).cb_call_cntr == 0) h
        (λ z. v.armed id h (ground (arith, z))) (λ z e. ground (arith, z, e)) v

  timeout_if-IsNet :
      (id : ℕ) (p : Option ℕ) (n : NetContext)
      → is_socket id n ≡ true
      → IsNet n
      → Ensures IsNet (timeout_if handler id p n)
  timeout_if-IsNet id none n h v = v
  timeout_if-IsNet id (some p) n h v =
      let s = record (n.sockets id) { timeout_cb = none } in
      invoke_cb-IsNet id (on_timeout p) (put_socket id s n) (is_socket-put n id id s refl ∙ h)
        (put_socket-IsNet n id s v h refl refl (v.armed id h))

  fire_timer-IsNet : (id : ℕ) (n : NetContext) → IsNet n → Ensures IsNet (fire_timer handler id n)
  unfolding fire_timer
  fire_timer-IsNet id n v =
      if-Ensures handler (is_socket id n) _ n
        (λ h. timeout_if-IsNet id (n.sockets id).timeout_cb n h v) v

  remaining-NoneDue :
      (now t i : ℕ) (m : List (ℕ × ℕ)) → now < t → After (t, i) m → All (λ e. now < e.0) m
  remaining-NoneDue now t i [] l a = tt
  remaining-NoneDue now t i ((u, j) ∷ m) l a =
      (ground (arith, l, a.0), remaining-NoneDue now t i m l a.1)

  next_timer-IsNet :
      (next : NetContext → Outcome NetContext) (now : ℕ) (ts : List (ℕ × ℕ)) (n : NetContext)
      → ts ≡ n.tmset
      → IsNet n
      → ((m : NetContext) → IsNet m → Ensures (λ o. IsNet o × NoneDue now o) (next m))
      → Ensures (λ o. IsNet o × NoneDue now o) (next_timer handler next now ts n)
  unfolding next_timer
  next_timer-IsNet next now [] n e v f = (v, subst (All (λ x. now < x.0)) e tt)
  next_timer-IsNet next now ((t, i) ∷ rest) n e v f =
      let ordered : Ordered ((t, i) ∷ rest) = subst Ordered (sym e) v.ordered in
      let single : Single ((t, i) ∷ rest) = subst Single (sym e) v.single in
      let owned : All (Owned n) ((t, i) ∷ rest) = subst (All (Owned n)) (sym e) v.owned in
      let m = record n { tmset = rest } in
      let w : IsNet m = record {
        table = IsTable-same n m refl refl refl v.table;
        ordered = ordered.1;
        single = single.1;
        owned = owned.1;
        armed = v.armed;
      } in
      elim (Bool-cases (ltb now t)) [
        | inl q ↦
            let later : now < t = ground (arith, q) in
            rw q (
              v,
              subst (All (λ x. now < x.0)) e
                  (later, remaining-NoneDue now t i rest later ordered.0),
            )
        | inr q ↦ rw q (
            bind-Ensures IsNet (λ o. IsNet o × NoneDue now o) (fire_timer handler i m) next
              (fire_timer-IsNet i m w) f)
      ]

  pub run_timers-IsNet :
      (rounds now : ℕ) (n : NetContext)
      → IsNet n
      → Ensures (λ o. IsNet o × NoneDue now o) (run_timers handler rounds now n)
  unfolding run_timers
  run_timers-IsNet zero now n v = tt
  run_timers-IsNet (suc rounds) now n v =
      next_timer-IsNet (run_timers handler rounds now) now n.tmset n refl v
        (λ m w. run_timers-IsNet rounds now m w)

module _ (perform : ℕ → NetContext → List NetCall) where
  run_each-IsNet :
      (actions : List ℕ) (n : NetContext) → IsNet n → Ensures IsNet (run_each perform actions n)
  unfolding run_each
  run_each-IsNet [] n v = v
  run_each-IsNet (a ∷ actions) n v =
      bind-Ensures IsNet IsNet (run_calls (perform a n) n) (run_each perform actions)
        (run_calls-IsNet (perform a n) n v) (λ m w. run_each-IsNet actions m w)

  next_actions-IsNet :
      (next : NetContext → Outcome NetContext) (actions : List ℕ) (n : NetContext)
      → IsNet n
      → ((m : NetContext) → IsNet m → Ensures IsNet (next m))
      → Ensures IsNet (next_actions perform next actions n)
  unfolding next_actions
  next_actions-IsNet next [] n v f = v
  next_actions-IsNet next (a ∷ actions) n v f =
      let m = record n { actions = [] } in
      bind-Ensures IsNet IsNet (run_each perform (a ∷ actions) m) next
        (run_each-IsNet (a ∷ actions) m (IsNet-same n m refl refl refl refl v)) f

  pub run_actions-IsNet :
      (rounds : ℕ) (n : NetContext) → IsNet n → Ensures IsNet (run_actions perform rounds n)
  unfolding run_actions
  run_actions-IsNet zero n v = tt
  run_actions-IsNet (suc rounds) n v =
      next_actions-IsNet (run_actions perform rounds) n.actions n v
        (λ m w. run_actions-IsNet rounds m w)
