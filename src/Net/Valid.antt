-- ===== src/Net/Valid.antt =====
-- What holds of a NetContext whenever its lock is free (src/zerobus/network_linux.cpp).
pub mod Changes
use zerobus.Prelude.{
  ℕ, suc, ◌+◌, ◌<◌, ◌≡◌, ◌≢◌, refl, sym, ap, ◌∙◌, Bool, true, false, not, ◌&&◌, ◌||◌, List, [], ◌∷◌,
  arith, ltb, ◌==◌, if◌then◌else◌, All, Bool-cases, inl, inr,
}
use mathlib.Core.Path.{subst, ap₂, fun_ext}
use zerobus.Net.Socket.{
  Interest, SocketInfo, NetContext, new_context, new_socket, put_socket, is_socket, apply_flags,
  same_interest, same_bool, note_effect, epoll_mod,
}
use zerobus.Net.Socket.Table.{IsTable, new_context-IsTable, put_socket-IsTable, IsTable-same}
use zerobus.Net.Timer.Order.{Ordered, Single, NoTimer}

-- A timer is that of a socket in use.
abbrev pub Owned : NetContext → ℕ × ℕ → Type 0
Owned n e = (is_socket e.1 n ≡ true) × ((n.sockets e.1).tmtp ≡ e.0)

-- The flags of a socket are those that the epoll was given, outside its callbacks.
abbrev pub Armed : SocketInfo → Type 0
Armed s = s.cb_call_cntr ≡ 0 → s.cur_flags ≡ s.flags

pub record IsNet (n : NetContext) : Type 0 where
  pub table : IsTable n
  pub ordered : Ordered n.tmset
  pub single : Single n.tmset
  pub owned : All (Owned n) n.tmset
  pub armed : (j : ℕ) → is_socket j n ≡ true → Armed (n.sockets j)

pub new_context-IsNet : IsNet new_context
new_context-IsNet = record {
  table = new_context-IsTable;
  ordered = tt;
  single = tt;
  owned = tt;
  armed = λ j h. absurd (ground (arith, h));
}

pub All-imp :
    (P Q : ℕ × ℕ → Type 0) (m : List (ℕ × ℕ)) → ((e : ℕ × ℕ) → P e → Q e) → All P m → All Q m
All-imp P Q [] f a = tt
All-imp P Q (e ∷ m) f a = (f e a.0, All-imp P Q m f a.1)

-- A socket in use gets other contents, but keeps its number and its time.
pub put_socket-IsNet :
    (n : NetContext) (id : ℕ) (s : SocketInfo)
    → IsNet n
    → is_socket id n ≡ true
    → s.ident ≡ (n.sockets id).ident
    → s.tmtp ≡ (n.sockets id).tmtp
    → Armed s
    → IsNet (put_socket id s n)
put_socket-IsNet n id s v h e t a = record {
  table = put_socket-IsTable n id s v.table h (ground (arith, e, h));
  ordered = v.ordered;
  single = v.single;
  owned =
      All-imp (Owned n) (Owned (put_socket id s n)) n.tmset
        (λ (f : ℕ × ℕ) (o : Owned n f). ground (arith, o.0, o.1, e, t)) v.owned;
  armed = λ j k. elim (Bool-cases (j == id)) [
    | inl q ↦ rw q a
    | inr q ↦ rw q (v.armed j (ground (arith, k)))
  ];
}

-- Only the table and the timers count.
pub IsNet-same :
    (n m : NetContext)
    → m.sockets ≡ n.sockets
    → m.count ≡ n.count
    → m.first_free ≡ n.first_free
    → m.tmset ≡ n.tmset
    → IsNet n
    → IsNet m
IsNet-same n m s c f t v =
    let found : (j : ℕ) → is_socket j m ≡ is_socket j n = λ j.
      ap (λ x. ltb j x && ((m.sockets j).ident == j)) c
      ∙ ap (λ g. ltb j n.count && ((g j).ident == j)) s in
    record {
      table = IsTable-same n m s c f v.table;
      ordered = subst Ordered (sym t) v.ordered;
      single = subst Single (sym t) v.single;
      owned = subst (All (Owned m)) (sym t) (
          All-imp (Owned n) (Owned m) n.tmset
            (λ (e : ℕ × ℕ) (o : Owned n e). (found e.1 ∙ o.0, ap (λ g. (g e.1).tmtp) s ∙ o.1))
            v.owned);
      armed = λ j h. subst (λ g. Armed (g j)) (sym s) (v.armed j (sym (found j) ∙ h));
    }

-- The context with the count of running callbacks of a socket raised by one.
abbrev pub raised : ℕ → NetContext → NetContext
raised id n =
    put_socket id (record (n.sockets id) { cb_call_cntr = suc (n.sockets id).cb_call_cntr }) n

-- All holds but that the socket's flags may not have been given to the epoll.
abbrev pub Held : ℕ → NetContext → Type 0
Held id n = IsNet (raised id n)

pub put_twice :
    (n : NetContext) (id : ℕ) (r s : SocketInfo)
    → (put_socket id s n).sockets ≡ (put_socket id s (put_socket id r n)).sockets
put_twice n id r s = fun_ext (λ i. ground arith)

pub is_socket-put :
    (n : NetContext) (id j : ℕ) (s : SocketInfo)
    → s.ident ≡ (n.sockets id).ident
    → is_socket j (put_socket id s n) ≡ is_socket j n
is_socket-put n id j s e = ground (arith, e)

pub hold :
    (n : NetContext) (id : ℕ) (s : SocketInfo)
    → IsNet n
    → is_socket id n ≡ true
    → s.ident ≡ (n.sockets id).ident
    → s.tmtp ≡ (n.sockets id).tmtp
    → Held id (put_socket id s n)
hold n id s v h e t =
    let r = record s { cb_call_cntr = suc s.cb_call_cntr } in
    let p = put_socket id s n in
    let here : p.sockets id ≡ s = ground arith in
    let same : (raised id p).sockets ≡ (put_socket id r n).sockets =
      ap (λ y. (put_socket id (record y { cb_call_cntr = suc y.cb_call_cntr }) p).sockets) here
      ∙ sym (put_twice n id s r) in
    IsNet-same (put_socket id r n) (raised id p) same refl refl refl
      (put_socket-IsNet n id r v h e t (λ z. absurd (omega (arith, z))))

pub put_self : (n : NetContext) (id : ℕ) → n.sockets ≡ (put_socket id (n.sockets id) n).sockets
put_self n id = fun_ext (λ i. elim (Bool-cases (i == id)) [
  | inl e ↦ let same : i ≡ id = ground arith in rw e (ap n.sockets same)
  | inr e ↦ rw e refl
])

pub settle :
    (n m : NetContext) (id : ℕ) (s : SocketInfo)
    → Held id n
    → is_socket id n ≡ true
    → s.ident ≡ (n.sockets id).ident
    → s.tmtp ≡ (n.sockets id).tmtp
    → Armed s
    → m.sockets ≡ (put_socket id s n).sockets
    → m.count ≡ n.count
    → m.first_free ≡ n.first_free
    → m.tmset ≡ n.tmset
    → IsNet m
settle n m id s v h e t a x c f w =
    let r = record (n.sockets id) { cb_call_cntr = suc (n.sockets id).cb_call_cntr } in
    let here : (raised id n).sockets id ≡ r = ground arith in
    IsNet-same (put_socket id s (raised id n)) m (x ∙ put_twice n id r s) c f w (
      put_socket-IsNet (raised id n) id s v (is_socket-put n id id r refl ∙ h)
        (e ∙ sym (ap (λ y. y.ident) here)) (t ∙ sym (ap (λ y. y.tmtp) here)) a)

same_bool-eq : (a b : Bool) → same_bool a b ≡ true → a ≡ b
same_bool-eq true true h = refl
same_bool-eq true false h = absurd cc
same_bool-eq false true h = absurd cc
same_bool-eq false false h = refl

pub same_interest-eq : (a b : Interest) → same_interest a b ≡ true → a ≡ b
same_interest-eq a b h =
    let input : a.input ≡ b.input = same_bool-eq a.input b.input (ground (arith, h)) in
    let output : a.output ≡ b.output = same_bool-eq a.output b.output (ground (arith, h)) in
    ap₂ (λ x y. let i : Interest = record { input = x; output = y } in i) input output

-- The flags are given to the epoll.
pub apply_flags-IsNet :
    (n : NetContext) (id : ℕ) → is_socket id n ≡ true → Held id n → IsNet (apply_flags id n)
unfolding apply_flags
apply_flags-IsNet n id h v =
    let s = n.sockets id in
    elim (Bool-cases (same_interest s.flags s.cur_flags)) [
      | inl e ↦ rw e (
          settle n n id s v h refl refl (λ k. sym (same_interest-eq s.flags s.cur_flags e))
            (put_self n id) refl refl refl)
      | inr e ↦ rw e (
          settle n _ id (record s { cur_flags = s.flags }) v h refl refl (λ k. refl) refl refl refl
            refl)
    ]
