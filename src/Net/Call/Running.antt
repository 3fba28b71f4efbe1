-- ===== src/Net/Call/Running.antt =====
-- A socket while some of its callbacks run (src/zerobus/network_linux.cpp).
use zerobus.Prelude.{
  ℕ, ◌≡◌, refl, sym, ap, ◌∙◌, Bool, true, false, arith, ◌==◌, if◌then◌else◌, Bool-cases, inl, inr,
}
use mathlib.Core.Path.{subst}
use zerobus.Net.Socket.{SocketInfo, NetContext, put_socket, is_socket, apply_flags, same_interest}
use zerobus.Net.Timer.{wake_if}
use zerobus.Net.Valid.{is_socket-put, same_interest-eq}

-- The flags are those that the epoll was given.
abbrev pub Synced : SocketInfo → Type 0
Synced s = s.cur_flags ≡ s.flags

-- The socket is in use, and so many of its callbacks run; with its flags at the epoll, if asked.
pub record Running (id k : ℕ) (strict : Bool) (n : NetContext) : Type 0 where
  pub found : is_socket id n ≡ true
  pub counted : (n.sockets id).cb_call_cntr ≡ k
  pub synced : strict ≡ true → Synced (n.sockets id)

apply_flags-Synced : (n : NetContext) (j : ℕ) → Synced ((apply_flags j n).sockets j)
unfolding apply_flags
apply_flags-Synced n j =
    let s = n.sockets j in
    elim (Bool-cases (same_interest s.flags s.cur_flags)) [
      | inl e ↦ rw e (sym (same_interest-eq s.flags s.cur_flags e))
      | inr e ↦ rw e (ground arith)
    ]

apply_flags_outside :
    (n : NetContext) (i j : ℕ) → (i == j) ≡ false → (apply_flags j n).sockets i ≡ n.sockets i
unfolding apply_flags
apply_flags_outside n i j d =
    let s = n.sockets j in
    elim (Bool-cases (same_interest s.flags s.cur_flags)) [
      | inl e ↦ rw e refl
      | inr e ↦ rw e (ground (arith, d))
    ]

module _ (id k : ℕ) where
  loose_put :
      (n : NetContext) (j : ℕ) (s : SocketInfo)
      → s.ident ≡ (n.sockets j).ident
      → s.cb_call_cntr ≡ (n.sockets j).cb_call_cntr
      → Running id k false n
      → Running id k false (put_socket j s n)
  loose_put n j s e c r = record {
    found = is_socket-put n j id s e ∙ r.found;
    counted = elim (Bool-cases (id == j)) [
      | inl q ↦
          let same : j ≡ id = ground arith in
          rw q (c ∙ ap (λ i. (n.sockets i).cb_call_cntr) same ∙ r.counted)
      | inr q ↦ rw q r.counted
    ];
    synced = λ z. absurd cc;
  }

  if_loose :
      (b : Bool) (p q : NetContext)
      → Running id k false p
      → Running id k false q
      → Running id k false (if b then p else q)
  if_loose true p q r t = r
  if_loose false p q r t = t

  flagged_loose :
      (n : NetContext) (j : ℕ) (s : SocketInfo)
      → s.ident ≡ (n.sockets j).ident
      → s.cb_call_cntr ≡ (n.sockets j).cb_call_cntr
      → Running id k false n
      → Running id k false (apply_flags j (put_socket j s n))
  unfolding apply_flags
  flagged_loose n j s e c r =
      let p = put_socket j s n in
      let w = loose_put n j s e c r in
      let t = p.sockets j in
      let o = loose_put p j (record t { cur_flags = t.flags }) refl refl w in
      if_loose (same_interest t.flags t.cur_flags) p _ w
        (record { found = o.found; counted = o.counted; synced = o.synced })

module _ (id k : ℕ) (strict : Bool) where
  pub if-Running :
      (b : Bool) (p q : NetContext)
      → Running id k strict p
      → Running id k strict q
      → Running id k strict (if b then p else q)
  if-Running true p q r t = r
  if-Running false p q r t = t

  pub put_socket-Running :
      (n : NetContext) (j : ℕ) (s : SocketInfo)
      → s.ident ≡ (n.sockets j).ident
      → s.cb_call_cntr ≡ (n.sockets j).cb_call_cntr
      → (Synced (n.sockets j) → Synced s)
      → Running id k strict n
      → Running id k strict (put_socket j s n)
  put_socket-Running n j s e c y r = record {
    found = is_socket-put n j id s e ∙ r.found;
    counted = elim (Bool-cases (id == j)) [
      | inl q ↦
          let same : j ≡ id = ground arith in
          rw q (c ∙ ap (λ i. (n.sockets i).cb_call_cntr) same ∙ r.counted)
      | inr q ↦ rw q r.counted
    ];
    synced = λ z. elim (Bool-cases (id == j)) [
      | inl q ↦
          let same : j ≡ id = ground arith in
          rw q (y (subst (λ i. Synced (n.sockets i)) (sym same) (r.synced z)))
      | inr q ↦ rw q (r.synced z)
    ];
  }

  pub wake_if-Running :
      (b : Bool) (n : NetContext) → Running id k strict n → Running id k strict (wake_if b n)
  wake_if-Running true n r = record { found = r.found; counted = r.counted; synced = r.synced }
  wake_if-Running false n r = r

  -- The socket with other flags and callbacks, if it is found.
  pub flagged-Running :
      (n : NetContext) (j : ℕ) (s : SocketInfo)
      → s.ident ≡ (n.sockets j).ident
      → s.cb_call_cntr ≡ (n.sockets j).cb_call_cntr
      → Running id k strict n
      → Running id k strict (if is_socket j n then apply_flags j (put_socket j s n) else n)
  flagged-Running n j s e c r =
      let p = put_socket j s n in
      let loose : Running id k false n = record {
        found = r.found;
        counted = r.counted;
        synced = λ z. absurd cc;
      } in
      let w = flagged_loose id k n j s e c loose in
      if-Running (is_socket j n) _ n
        (record {
          found = w.found;
          counted = w.counted;
          synced = λ z. elim (Bool-cases (id == j)) [
            | inl q ↦
                let same : j ≡ id = ground arith in
                subst (λ i. Synced ((apply_flags j p).sockets i)) same (apply_flags-Synced p j)
            | inr q ↦
                let kept : p.sockets id ≡ n.sockets id = ground (arith, q) in
                subst Synced (sym (apply_flags_outside p id j q ∙ kept)) (r.synced z)
          ];
        })
        r
