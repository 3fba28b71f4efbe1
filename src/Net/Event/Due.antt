-- ===== src/Net/Event/Due.antt =====
-- Timers fire in the order of their times (src/zerobus/network_linux.cpp).
use zerobus.Prelude.{
  ℕ, zero, suc, ◌<◌, ◌≡◌, refl, sym, ap, ◌∙◌, true, false, Option, none, some, List, [], ◌∷◌, ◌++◌,
  append_assoc, append-nil, arith, length, ltb, ◌==◌, if◌then◌else◌, All, Bool-cases, inl, inr,
}
use mathlib.Core.Path.{ap₂}
use zerobus.Bus.Routing.{done, ◌>>=◌}
use zerobus.Net.Socket.{SocketInfo, Callback, on_timeout, NetContext, put_socket, is_socket}
use zerobus.Net.Valid.{Owned, IsNet}
use zerobus.Net.Call.{NetCall, run_calls}
use zerobus.Net.Timer.Order.{Single, NoTimer}
use zerobus.Net.Event.{
  count_callback, uncount_callback, invoke_cb, timeout_if, fire_timer, next_timer, run_timers,
}

abbrev pub no_calls : Callback → NetContext → List NetCall
no_calls cb n = []

abbrev pub fired_callbacks : Option ℕ → List Callback
fired_callbacks none = []
fired_callbacks (some p) = on_timeout p ∷ []

-- The callbacks of the timers that are due, in the order of the set.
unfoldable pub due : ℕ → (ℕ → SocketInfo) → List (ℕ × ℕ) → List Callback
due now sockets [] = []
due now sockets ((t, i) ∷ rest) =
    let later = fired_callbacks (sockets i).timeout_cb ++ due now sockets rest in
    if ltb now t then [] else later

-- The context after the callback of a timer, if it has one.
abbrev fired : ℕ → Option ℕ → NetContext → NetContext
fired i none n = n
fired i (some p) n =
    uncount_callback i (
      count_callback i (on_timeout p) (put_socket i (record (n.sockets i) { timeout_cb = none }) n))

fire : (i : ℕ) (p : Option ℕ) (n : NetContext) → timeout_if no_calls i p n ≡ done (fired i p n)
unfolding invoke_cb run_calls
fire i none n = refl
fire i (some p) n = refl

-- What a fired timer leaves of the others.
record Leaves (i : ℕ) (p : Option ℕ) (n m : NetContext) : Type 0 where
  timers_left : m.tmset ≡ n.tmset
  called : m.callbacks ≡ n.callbacks ++ fired_callbacks p
  found_still : (j : ℕ) → is_socket j m ≡ is_socket j n
  kept : (j : ℕ) → (j == i) ≡ false → (m.sockets j).timeout_cb ≡ (n.sockets j).timeout_cb

fired-Leaves : (i : ℕ) (p : Option ℕ) (n : NetContext) → Leaves i p n (fired i p n)
fired-Leaves i none n = record {
  timers_left = refl;
  called = sym (append-nil n.callbacks);
  found_still = λ j. refl;
  kept = λ j d. refl;
}
fired-Leaves i (some p) n = record {
  timers_left = refl;
  called = refl;
  found_still = λ j. ground arith;
  kept = λ j d. ground (arith, d);
}

due_same :
    (now i : ℕ) (n m : NetContext) (ts : List (ℕ × ℕ))
    → NoTimer i ts
    → ((j : ℕ) → (j == i) ≡ false → (m.sockets j).timeout_cb ≡ (n.sockets j).timeout_cb)
    → due now m.sockets ts ≡ due now n.sockets ts
unfolding due
due_same now i n m [] h f = refl
due_same now i n m ((t, j) ∷ ts) h f =
    ap₂ (λ x y. if ltb now t then [] else (fired_callbacks x ++ y)) (f j (ground (arith, h.0)))
      (due_same now i n m ts h.1 f)

due_stop :
    (now t i : ℕ) (sockets : ℕ → SocketInfo) (ts : List (ℕ × ℕ))
    → ltb now t ≡ true
    → due now sockets ((t, i) ∷ ts) ≡ []
unfolding due
due_stop now t i sockets ts h = rw h refl

due_first :
    (now t i : ℕ) (sockets : ℕ → SocketInfo) (ts : List (ℕ × ℕ))
    → ltb now t ≡ false
    → due now sockets ((t, i) ∷ ts) ≡ fired_callbacks (sockets i).timeout_cb ++ due now sockets ts
unfolding due
due_first now t i sockets ts h = rw h refl

All-found :
    (n m : NetContext) (ts : List (ℕ × ℕ))
    → ((j : ℕ) → is_socket j m ≡ is_socket j n)
    → All (λ e. is_socket e.1 n ≡ true) ts
    → All (λ e. is_socket e.1 m ≡ true) ts
All-found n m [] f a = tt
All-found n m ((t, i) ∷ ts) f a = (f i ∙ a.0, All-found n m ts f a.1)

fires :
    (rounds now : ℕ) (ts : List (ℕ × ℕ)) (n : NetContext)
    → n.tmset ≡ ts
    → Single ts
    → All (λ e. is_socket e.1 n ≡ true) ts
    → length ts < rounds
    → (m : NetContext) × (run_timers no_calls rounds now n ≡ done m)
      × (m.callbacks ≡ n.callbacks ++ due now n.sockets ts)
unfolding run_timers next_timer fire_timer due
fires zero now ts n e s a l = absurd (omega (arith, l))
fires (suc rounds) now [] n e s a l = (
  n,
  ap (λ x. next_timer no_calls (run_timers no_calls rounds now) now x n) e,
  sym (append-nil n.callbacks),
)
fires (suc rounds) now ((t, i) ∷ ts) n e s a l =
    let run = run_timers no_calls rounds now in
    let start = ap (λ x. next_timer no_calls run now x n) e in
    elim (Bool-cases (ltb now t)) [
      | inl q ↦ (
        n,
        start ∙ rw q refl,
        sym (append-nil n.callbacks)
            ∙ ap (λ x. n.callbacks ++ x) (sym (due_stop now t i n.sockets ts q)),
      )
      | inr q ↦
          let p = (n.sockets i).timeout_cb in
          let o = record n { tmset = ts } in
          let left = fired-Leaves i p o in
          let (m, runs, calls) =
            fires rounds now ts (fired i p o) left.timers_left s.1
              (All-found n (fired i p o) ts left.found_still a.1) (omega (arith, l)) in
          (
            m,
            start
                ∙ rw q (
                    ap (λ b. (if b then timeout_if no_calls i p o else done o) >>= run) a.0
                    ∙ ap (λ x. x >>= run) (fire i p o)
                    ∙ runs),
            calls
                ∙ ap₂ (λ x y. x ++ y) left.called (due_same now i n (fired i p o) ts s.0 left.kept)
                ∙ append_assoc n.callbacks (fired_callbacks p) (due now n.sockets ts)
                ∙ ap (λ x. n.callbacks ++ x) (sym (due_first now t i n.sockets ts q)),
          )
    ]

Owned-found :
    (n : NetContext) (ts : List (ℕ × ℕ)) → All (Owned n) ts → All (λ e. is_socket e.1 n ≡ true) ts
Owned-found n [] a = tt
Owned-found n (e ∷ ts) a = (a.0.0, Owned-found n ts a.1)

-- On a context in order, where the callbacks make no calls, the loop over the timers ends
-- within one round more than there are timers, and it has then called the timeout callbacks of
-- exactly the sockets whose time has come, in the order of their times.
pub run_timers-due :
    (now : ℕ) (n : NetContext)
    → IsNet n
    → (m : NetContext) × (run_timers no_calls (suc (length n.tmset)) now n ≡ done m)
      × (m.callbacks ≡ n.callbacks ++ due now n.sockets n.tmset)
run_timers-due now n v =
    fires (suc (length n.tmset)) now n.tmset n refl v.single (Owned-found n n.tmset v.owned)
      (omega arith)
