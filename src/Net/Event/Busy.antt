-- ===== src/Net/Event/Busy.antt =====
-- A NetContext while an event of a socket is processed: the socket's flags wait for the epoll
-- (src/zerobus/network_linux.cpp).
use zerobus.Prelude.{
  ℕ, suc, ◌≡◌, refl, sym, ap, ◌∙◌, true, false, ◌&&◌, arith, ltb, ◌==◌, All, Bool-cases, inl, inr,
}
use mathlib.Core.Path.{subst, fun_ext}
use zerobus.Net.Socket.{SocketInfo, new_socket, NetContext, put_socket, is_socket, alloc_socket}
use zerobus.Net.Socket.Alloc.{alloc_socket-Gives}
use zerobus.Net.Socket.Table.{IsTable, IsTable-same, put_socket-IsTable}
use zerobus.Net.Timer.Order.{Ordered, Single}
use zerobus.Net.Valid.{
  Owned, Armed, All-imp, put_twice, put_self, IsNet, IsNet-same, Held, raised, put_socket-IsNet,
  hold, settle, is_socket-put,
}

-- In order but for the flags of a socket in use.
abbrev pub Busy : ℕ → NetContext → Type 0
Busy id n = (is_socket id n ≡ true) × Held id n

pub begin_Busy :
    (n : NetContext) (id : ℕ) (s : SocketInfo)
    → IsNet n
    → is_socket id n ≡ true
    → s.ident ≡ (n.sockets id).ident
    → s.tmtp ≡ (n.sockets id).tmtp
    → Busy id (put_socket id s n)
begin_Busy n id s v h e t = (is_socket-put n id id s e ∙ h, hold n id s v h e t)

-- The socket itself changes.
pub same_Busy :
    (n : NetContext) (id : ℕ) (s : SocketInfo)
    → Busy id n
    → s.ident ≡ (n.sockets id).ident
    → s.tmtp ≡ (n.sockets id).tmtp
    → Busy id (put_socket id s n)
same_Busy n id s (h, v) e t =
    let r = record s { cb_call_cntr = suc s.cb_call_cntr } in
    let p = put_socket id s n in
    let here : p.sockets id ≡ s = ground arith in
    let same : (raised id p).sockets ≡ (put_socket id r n).sockets =
      ap (λ y. (put_socket id (record y { cb_call_cntr = suc y.cb_call_cntr }) p).sockets) here
      ∙ sym (put_twice n id s r) in
    (
      is_socket-put n id id s e ∙ h,
      settle n (raised id p) id r v h e t (λ z. absurd (omega (arith, z))) same refl refl refl,
    )

swap_puts :
    (n : NetContext) (k id : ℕ) (s r : SocketInfo)
    → (k == id) ≡ false
    → (put_socket id r (put_socket k s n)).sockets ≡ (put_socket k s (put_socket id r n)).sockets
swap_puts n k id s r d = fun_ext (λ i. ground (arith, d))

-- Another socket changes.
pub other_Busy :
    (n : NetContext) (id k : ℕ) (s : SocketInfo)
    → Busy id n
    → (k == id) ≡ false
    → is_socket k n ≡ true
    → s.ident ≡ (n.sockets k).ident
    → s.tmtp ≡ (n.sockets k).tmtp
    → Armed s
    → Busy id (put_socket k s n)
other_Busy n id k s (h, v) d f e t a =
    let m = put_socket k s n in
    let r = record (n.sockets id) { cb_call_cntr = suc (n.sockets id).cb_call_cntr } in
    let here : m.sockets id ≡ n.sockets id = ground (arith, d) in
    let there : (raised id n).sockets k ≡ n.sockets k = ground (arith, d) in
    let same : (raised id m).sockets ≡ (put_socket k s (raised id n)).sockets =
      ap (λ y. (put_socket id (record y { cb_call_cntr = suc y.cb_call_cntr }) m).sockets) here
      ∙ swap_puts n k id s r d in
    (
      is_socket-put n k id s e ∙ h,
      IsNet-same (put_socket k s (raised id n)) (raised id m) same refl refl refl (
          put_socket-IsNet (raised id n) k s v (is_socket-put n id k r refl ∙ f)
            (e ∙ sym (ap (λ y. y.ident) there)) (t ∙ sym (ap (λ y. y.tmtp) there)) a),
    )

Busy-IsTable : (n : NetContext) (id : ℕ) → Busy id n → IsTable n
Busy-IsTable n id (h, v) =
    let s = n.sockets id in
    let r = record s { cb_call_cntr = suc s.cb_call_cntr } in
    IsTable-same (put_socket id s (raised id n)) n (put_self n id ∙ put_twice n id r s) refl refl (
      put_socket-IsTable (raised id n) id s v.table (is_socket-put n id id r refl ∙ h)
        (ground (arith, h)))

raised_tmtp : (n : NetContext) (id j : ℕ) → ((raised id n).sockets j).tmtp ≡ (n.sockets j).tmtp
raised_tmtp n id j = elim (Bool-cases (j == id)) [
  | inl e ↦ let same : id ≡ j = ground arith in rw e (ap (λ i. (n.sockets i).tmtp) same)
  | inr e ↦ rw e refl
]

new_Armed :
    (n : NetContext) (id j : ℕ)
    → Busy id n
    → (j == id) ≡ false
    → is_socket j (alloc_socket n).1 ≡ true
    → Armed ((alloc_socket n).1.sockets j)
new_Armed n id j (h, v) e q =
    let (k, m) = alloc_socket n in
    let g = alloc_socket-Gives n (Busy-IsTable n id (h, v)) in
    elim (Bool-cases (j == k)) [
      | inl i ↦
          let same : j ≡ k = ground arith in
          subst (λ x. Armed (m.sockets x)) (sym same) (subst Armed (sym g.blank) (λ z. refl))
      | inr i ↦
          let old : is_socket j n ≡ true = ground (arith, g.found j, q) in
          let apart : (raised id n).sockets j ≡ n.sockets j = ground (arith, e) in
          subst Armed (sym (g.kept j old))
            (subst Armed apart (v.armed j (is_socket-put n id j _ refl ∙ old)))
    ]

-- A new socket is not the one that is busy.
pub alloc_Busy :
    (n : NetContext) (id : ℕ)
    → Busy id n
    → let (k, m) = alloc_socket n in
      Busy id m × ((k == id) ≡ false) × (is_socket k m ≡ true) × (m.sockets k ≡ new_socket k)
alloc_Busy n id (h, v) =
    let (k, m) = alloc_socket n in
    let g = alloc_socket-Gives n (Busy-IsTable n id (h, v)) in
    let there : is_socket id m ≡ true = ground (arith, g.found id, h) in
    let apart : (k == id) ≡ false = ground (arith, g.fresh, h) in
    let kept = g.kept id h in
    let r = record (m.sockets id) { cb_call_cntr = suc (m.sockets id).cb_call_cntr } in
    let o = raised id m in
    let w : IsNet o = record {
      table = put_socket-IsTable m id r g.table there (ground (arith, there));
      ordered = subst Ordered (sym g.tmset) v.ordered;
      single = subst Single (sym g.tmset) v.single;
      owned = subst (All (Owned o)) (sym g.tmset) (
          All-imp (Owned (raised id n)) (Owned o) n.tmset
            (λ (e : ℕ × ℕ) (w : Owned (raised id n) e).
              let old : is_socket e.1 n ≡ true = sym (is_socket-put n id e.1 _ refl) ∙ w.0 in
              (
                is_socket-put m id e.1 r refl ∙ ground (arith, g.found e.1, old),
                raised_tmtp m id e.1
                    ∙ ap (λ s. s.tmtp) (g.kept e.1 old)
                    ∙ sym (raised_tmtp n id e.1)
                    ∙ w.1,
              ))
            v.owned);
      armed = λ j q. elim (Bool-cases (j == id)) [
        | inl e ↦ rw e (λ z. absurd (omega (arith, z)))
        | inr e ↦ rw e (new_Armed n id j (h, v) e (sym (is_socket-put m id j r refl) ∙ q))
      ];
    } in
    ((there, w), apart, ground (arith, g.found k), g.blank)

-- What is noted outside the table does not count.
pub note_Busy :
    (id : ℕ) (n m : NetContext)
    → m.sockets ≡ n.sockets
    → m.count ≡ n.count
    → m.first_free ≡ n.first_free
    → m.tmset ≡ n.tmset
    → Busy id n
    → Busy id m
note_Busy id n m s c f t (h, v) = (
  ap (λ g. ltb id m.count && ((g id).ident == id)) s
      ∙ ap (λ x. ltb id x && ((n.sockets id).ident == id)) c
      ∙ h,
  IsNet-same (raised id n) (raised id m)
      (ap (λ g. (raised id (record n { sockets = g })).sockets) s) c f t v,
)
