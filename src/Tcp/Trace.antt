-- ===== src/Tcp/Trace.antt =====
-- The messages of a TCP client over its connections, one after the other:
-- src/zerobus/bridge_tcp_common.cpp and src/zerobus/bridge_tcp_client.cpp.
use zerobus.Prelude.{
  ℕ, zero, suc, ◌+◌, ◌≤◌, ◌≡◌, refl, sym, ap, ◌∙◌, Bool, true, false, List, [], ◌∷◌, ◌++◌,
  append_assoc, arith, ◌==◌, if◌then◌else◌, length, take, drop,
}
use mathlib.Core.Path.{subst, ap₂}
use zerobus.Wire.Uint.{Bytes}
use zerobus.Tcp.{
  NetAction, wrote, ready_to_send, reconnect, set_timeout, lost, TcpOutput, get_view_to_send,
  after_send, erase_complete, no_separators, first_separator, from_current, send_view,
}
use zerobus.Tcp.Queue.{joined, WithinFirst}
use zerobus.Tcp.Sent.{Holds, joined-append, after_send-Sent}

-- What was written since the last reconnect, behind what was written before.
abbrev pub on_connection : Bytes → List NetAction → Bytes
on_connection sofar [] = sofar
on_connection sofar (wrote bytes ∷ actions) = on_connection (sofar ++ bytes) actions
on_connection sofar (ready_to_send ∷ actions) = on_connection sofar actions
on_connection sofar (set_timeout ∷ actions) = on_connection sofar actions
on_connection sofar (lost ∷ actions) = on_connection sofar actions
on_connection sofar (reconnect ∷ actions) = on_connection [] actions

abbrev pub connection : TcpOutput → Bytes
connection q = on_connection [] q.net_actions

pub on_connection-append :
    (sofar : Bytes) (xs ys : List NetAction)
    → on_connection sofar (xs ++ ys) ≡ on_connection (on_connection sofar xs) ys
on_connection-append sofar [] ys = refl
on_connection-append sofar (wrote bytes ∷ xs) ys = on_connection-append (sofar ++ bytes) xs ys
on_connection-append sofar (ready_to_send ∷ xs) ys = on_connection-append sofar xs ys
on_connection-append sofar (set_timeout ∷ xs) ys = on_connection-append sofar xs ys
on_connection-append sofar (lost ∷ xs) ys = on_connection-append sofar xs ys
on_connection-append sofar (reconnect ∷ xs) ys = on_connection-append [] xs ys

-- The frames that were queued are those that earlier connections have as a whole, those that this
-- one has, and those that wait; this connection got whole frames and a part of the next.
pub record Tracks (frames : List Bytes) (q : TcpOutput) : Type 0 where
  pub before : List Bytes
  pub during : List Bytes
  pub pending : List Bytes
  pub all : frames ≡ before ++ (during ++ pending)
  pub holds : Holds q pending
  pub sent : connection q ≡ joined during ++ take q.output_cursor (joined pending)

pub Tracks-same :
    (frames : List Bytes) (q r : TcpOutput)
    → r.output_data ≡ q.output_data
    → r.output_msg_sp ≡ q.output_msg_sp
    → r.output_cursor ≡ q.output_cursor
    → connection r ≡ connection q
    → Tracks frames q
    → Tracks frames r
Tracks-same frames q r d s c n t = record {
  before = t.before;
  during = t.during;
  pending = t.pending;
  all = t.all;
  holds = record {
    bytes = d ∙ t.holds.bytes;
    separators = s ∙ t.holds.separators;
    within = subst (λ x. WithinFirst x t.pending) (sym c) t.holds.within;
    filled = t.holds.filled;
  };
  sent = n ∙ t.sent ∙ ap (λ x. joined t.during ++ take x (joined t.pending)) (sym c);
}

plus_suc : (a b : ℕ) → suc a + b ≡ suc (a + b)
plus_suc a b = omega arith

take_nil : (n : ℕ) → ◌≡◌ {A = Bytes} (take n []) []
take_nil zero = refl
take_nil (suc n) = refl

take-add : (a b : ℕ) (xs : Bytes) → take a xs ++ take b (drop a xs) ≡ take (a + b) xs
take-add zero b xs = let same : b ≡ 0 + b = omega arith in ap (λ n. take n xs) same
take-add (suc a) b [] = take_nil b ∙ sym (take_nil (suc a + b))
take-add (suc a) b (x ∷ xs) = rw (plus_suc a b) (ap (◌∷◌ x) (take-add a b xs))

take-append_plus : (xs ys : Bytes) (k : ℕ) → take (length xs + k) (xs ++ ys) ≡ xs ++ take k ys
take-append_plus [] ys k = let same : 0 + k ≡ k = omega arith in ap (λ n. take n ys) same
take-append_plus (x ∷ xs) ys k = rw (plus_suc (length xs) k) (ap (◌∷◌ x) (take-append_plus xs ys k))

pub take-append_short : (n : ℕ) (xs ys : Bytes) → n ≤ length xs → take n (xs ++ ys) ≡ take n xs
take-append_short zero xs ys h = refl
take-append_short (suc n) [] ys h = absurd (omega (arith, h))
take-append_short (suc n) (x ∷ xs) ys h = ap (◌∷◌ x) (take-append_short n xs ys (omega (arith, h)))

if-net_actions :
    (b : Bool) (p q : TcpOutput) (actions : List NetAction)
    → p.net_actions ≡ actions
    → q.net_actions ≡ actions
    → (if b then p else q).net_actions ≡ actions
if-net_actions true p q actions h k = h
if-net_actions false p q actions h k = k

if-net_actions_of :
    (b : Bool) (p q : Bool × TcpOutput) (actions : List NetAction)
    → p.1.net_actions ≡ actions
    → q.1.net_actions ≡ actions
    → (if b then p else q).1.net_actions ≡ actions
if-net_actions_of true p q actions h k = h
if-net_actions_of false p q actions h k = k

after_send-net_actions : (sz : ℕ) (q : TcpOutput) → (after_send sz q).1.net_actions ≡ q.net_actions
unfolding after_send erase_complete
after_send-net_actions sz q =
    if-net_actions_of (no_separators q.output_msg_sp) _ _ q.net_actions refl (
      if-net_actions_of (q.output_cursor + sz == length q.output_data) _ _ q.net_actions refl (
        if-net_actions (first_separator (from_current (q.output_cursor + sz) q.output_msg_sp) == 0)
          _ _ q.net_actions refl refl))

-- What a connection has got when the network took some more of the first messages.
more_sent :
    (during complete pending : List Bytes) (cursor accepted next : ℕ) (rest : Bytes)
    → rest ≡ joined (complete ++ pending)
    → cursor + accepted ≡ length (joined complete) + next
    → (joined during ++ take cursor rest) ++ take accepted (drop cursor rest)
      ≡ joined (during ++ complete) ++ take next (joined pending)
more_sent during complete pending cursor accepted next rest e n =
    append_assoc (joined during) (take cursor rest) (take accepted (drop cursor rest))
    ∙ ap (λ x. joined during ++ x)
        (take-add cursor accepted rest
          ∙ ap₂ take n (e ∙ joined-append complete pending)
          ∙ take-append_plus (joined complete) (joined pending) next)
    ∙ sym (append_assoc (joined during) (joined complete) (take next (joined pending)))
    ∙ ap (λ x. x ++ take next (joined pending)) (sym (joined-append during complete))

-- The network takes a part of what waits.
pub after_send-Tracks :
    (accepted : ℕ) (frames : List Bytes) (q : TcpOutput)
    → Tracks frames q
    → q.output_cursor + accepted ≤ length q.output_data
    → Tracks frames (after_send accepted (send_view accepted q)).1
after_send-Tracks accepted frames q t k =
    let waiting = get_view_to_send q in
    let h : Holds (send_view accepted q) t.pending = record {
      bytes = t.holds.bytes;
      separators = t.holds.separators;
      within = t.holds.within;
      filled = t.holds.filled;
    } in
    let s = after_send-Sent accepted (send_view accepted q) t.pending h k in
    record {
      before = t.before;
      during = t.during ++ s.complete;
      pending = s.pending;
      all =
          t.all
          ∙ ap (λ x. t.before ++ x)
              (ap (λ x. t.during ++ x) s.all ∙ sym (append_assoc t.during s.complete s.pending));
      holds = s.holds;
      sent =
          ap (on_connection []) (after_send-net_actions accepted (send_view accepted q))
          ∙ on_connection-append [] q.net_actions (wrote (take accepted waiting) ∷ [])
          ∙ ap₂ (λ x y. x ++ take accepted (drop q.output_cursor y)) t.sent t.holds.bytes
          ∙ more_sent t.during s.complete s.pending q.output_cursor accepted _ (joined t.pending)
              (ap joined s.all) s.counted;
    }
