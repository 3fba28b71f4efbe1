-- ===== src/Net/Valid/Changes.antt =====
-- The parts of the calls keep a NetContext in order (src/zerobus/network_linux.cpp).
use zerobus.Prelude.{
  ℕ, ◌≡◌, ◌≢◌, refl, sym, ap, ◌∙◌, Bool, true, false, some, List, [], ◌∷◌, arith, ◌==◌,
  if◌then◌else◌, All, Bool-cases, inl, inr,
}
use mathlib.Core.Path.{subst}
use zerobus.Net.Socket.{
  SocketInfo, NetContext, put_socket, is_socket, alloc_socket, free_socket, apply_flags,
}
use zerobus.Net.Socket.Alloc.{alloc_socket-Gives, free_socket-Takes}
use zerobus.Net.Timer.{erase_timer, insert_timer, set_timeout, clear_timeout, wake_if}
use zerobus.Net.Socket.Table.{IsTable-same, put_socket-IsTable}
use zerobus.Net.Timer.Order.{
  Ordered, Single, NoTimer, TimedAt, Ordered-insert, Ordered-erase, Single-insert, Single-erase,
  All-insert, All-erase, erase-NoTimer,
}
use zerobus.Net.Valid.{
  Owned, Armed, IsNet, IsNet-same, All-imp, hold, apply_flags-IsNet, is_socket-put,
}

pub if-IsNet :
    (b : Bool) (p q : NetContext) → (b ≡ true → IsNet p) → IsNet q → IsNet (if b then p else q)
if-IsNet true p q f v = f refl
if-IsNet false p q f v = v

-- A socket whose flags are given to the epoll afterwards.
pub put_flags-IsNet :
    (n : NetContext) (id : ℕ) (s : SocketInfo)
    → IsNet n
    → is_socket id n ≡ true
    → s.ident ≡ (n.sockets id).ident
    → s.tmtp ≡ (n.sockets id).tmtp
    → IsNet (apply_flags id (put_socket id s n))
put_flags-IsNet n id s v h e t =
    apply_flags-IsNet (put_socket id s n) id (is_socket-put n id id s e ∙ h) (hold n id s v h e t)

pub wake_if-IsNet : (b : Bool) (n : NetContext) → IsNet n → IsNet (wake_if b n)
wake_if-IsNet true n v = IsNet-same n (wake_if true n) refl refl refl refl v
wake_if-IsNet false n v = v

-- The timers of a socket are at its time.
timed : (n : NetContext) (id : ℕ) → IsNet n → TimedAt (n.sockets id).tmtp id n.tmset
timed n id v =
    All-imp (Owned n) (λ (e : ℕ × ℕ). e.1 ≡ id → e.0 ≡ (n.sockets id).tmtp) n.tmset
      (λ (e : ℕ × ℕ) (o : Owned n e) (q : e.1 ≡ id). sym o.1 ∙ ap (λ j. (n.sockets j).tmtp) q)
      v.owned

pub erased-NoTimer :
    (n : NetContext) (id : ℕ) → IsNet n → NoTimer id (erase_timer ((n.sockets id).tmtp, id) n.tmset)
erased-NoTimer n id v = erase-NoTimer (n.sockets id).tmtp id n.tmset v.single (timed n id v)

pub erase_timer-IsNet :
    (n : NetContext) (e : ℕ × ℕ) → IsNet n → IsNet (record n { tmset = erase_timer e n.tmset })
erase_timer-IsNet n e v = record {
  table = IsTable-same n (record n { tmset = erase_timer e n.tmset }) refl refl refl v.table;
  ordered = Ordered-erase e n.tmset v.ordered;
  single = Single-erase e n.tmset v.single;
  owned = All-erase (Owned n) e n.tmset v.owned;
  armed = v.armed;
}

All-both :
    (P Q R : ℕ × ℕ → Type 0) (m : List (ℕ × ℕ))
    → ((e : ℕ × ℕ) → P e → Q e → R e)
    → All P m
    → All Q m
    → All R m
All-both P Q R [] f a b = tt
All-both P Q R (e ∷ m) f a b = (f e a.0 b.0, All-both P Q R m f a.1 b.1)

-- The time of a socket without a timer changes, and gets one.
timed_anew :
    (n : NetContext) (id tp : ℕ) (s : SocketInfo)
    → IsNet n
    → NoTimer id n.tmset
    → is_socket id n ≡ true
    → s.ident ≡ (n.sockets id).ident
    → s.tmtp ≡ tp
    → Armed s
    → IsNet (record (put_socket id s n) { tmset = insert_timer (tp, id) n.tmset })
timed_anew n id tp s v w h e t a =
    let m = record (put_socket id s n) { tmset = insert_timer (tp, id) n.tmset } in
    let mine : Owned m (tp, id) = (is_socket-put n id id s e ∙ h, ground (arith, t)) in
    record {
      table =
          IsTable-same (put_socket id s n) m refl refl refl
            (put_socket-IsTable n id s v.table h (ground (arith, e, h)));
      ordered = Ordered-insert (tp, id) n.tmset v.ordered;
      single = Single-insert (tp, id) n.tmset w v.single;
      owned =
          All-insert (Owned m) (tp, id) n.tmset mine
            (All-both (λ (f : ℕ × ℕ). f.1 ≢ id) (Owned n) (Owned m) n.tmset
              (λ (f : ℕ × ℕ) (q : f.1 ≢ id) (o : Owned n f). ground (arith, q, o.0, o.1)) w
              v.owned);
      armed = λ j k. elim (Bool-cases (j == id)) [
        | inl q ↦ rw q a
        | inr q ↦ rw q (v.armed j (ground (arith, k)))
      ];
    }

pub set_timeout-IsNet : (id tp p : ℕ) (n : NetContext) → IsNet n → IsNet (set_timeout id tp p n)
unfolding set_timeout
set_timeout-IsNet id tp p n v =
    let s = n.sockets id in
    let m = record n { tmset = erase_timer (s.tmtp, id) n.tmset } in
    if-IsNet (is_socket id n) _ n
      (λ h. wake_if-IsNet _ _ (
        timed_anew m id tp (record s { timeout_cb = some p; tmtp = tp })
          (erase_timer-IsNet n (s.tmtp, id) v) (erased-NoTimer n id v) h refl refl (v.armed id h)))
      v

pub clear_timeout-IsNet : (id : ℕ) (n : NetContext) → IsNet n → IsNet (clear_timeout id n)
unfolding clear_timeout
clear_timeout-IsNet id n v =
    if-IsNet (is_socket id n) _ n (λ h. erase_timer-IsNet n ((n.sockets id).tmtp, id) v) v

-- A new socket.
pub alloc_socket-IsNet : (n : NetContext) → IsNet n → IsNet (alloc_socket n).1
alloc_socket-IsNet n v =
    let (k, m) = alloc_socket n in
    let g = alloc_socket-Gives n v.table in
    record {
      table = g.table;
      ordered = subst Ordered (sym g.tmset) v.ordered;
      single = subst Single (sym g.tmset) v.single;
      owned = subst (All (Owned m)) (sym g.tmset) (
          All-imp (Owned n) (Owned m) n.tmset
            (λ (e : ℕ × ℕ) (o : Owned n e).
              (ground (arith, g.found e.1, o.0), ap (λ s. s.tmtp) (g.kept e.1 o.0) ∙ o.1))
            v.owned);
      armed = λ j h. elim (Bool-cases (j == k)) [
        | inl q ↦
            let same : j ≡ k = ground arith in
            subst (λ i. Armed (m.sockets i)) (sym same) (subst Armed (sym g.blank) (λ z. refl))
        | inr q ↦
            let old : is_socket j n ≡ true = ground (arith, g.found j, h) in
            subst Armed (sym (g.kept j old)) (v.armed j old)
      ];
    }

pub free_socket-IsNet :
    (n : NetContext) (id : ℕ)
    → IsNet n
    → NoTimer id n.tmset
    → is_socket id n ≡ true
    → IsNet (free_socket id n)
free_socket-IsNet n id v w h =
    let m = free_socket id n in
    let t = free_socket-Takes n id v.table h in
    let stays : (j : ℕ) → (j == id) ≡ false → is_socket j n ≡ true → is_socket j m ≡ true =
      λ j q o. ground (arith, t.found j, q, o) in
    record {
      table = t.table;
      ordered = subst Ordered (sym t.tmset) v.ordered;
      single = subst Single (sym t.tmset) v.single;
      owned = subst (All (Owned m)) (sym t.tmset) (
          All-both (λ (f : ℕ × ℕ). f.1 ≢ id) (Owned n) (Owned m) n.tmset
            (λ (f : ℕ × ℕ) (q : f.1 ≢ id) (o : Owned n f).
              let there = stays f.1 (ground (arith, q)) o.0 in
              (there, ap (λ s. s.tmtp) (t.kept f.1 there) ∙ o.1))
            w v.owned);
      armed = λ j k. subst Armed (sym (t.kept j k)) (v.armed j (ground (arith, t.found j, k)));
    }
