-- ===== src/Tcp/Sent.antt =====
-- after_send of src/zerobus/bridge_tcp_common.cpp as a step of a queue of messages: those that the
-- network has as a whole leave, and the rest stays as it was.
use zerobus.Prelude.{
  ℕ, ◌+◌, ◌-◌, ◌≤◌, ◌<◌, ◌≡◌, refl, sym, ap, ◌∙◌, Bool, true, false, List, [], ◌∷◌, ◌++◌, map,
  append_assoc, append-nil, arith, ◌==◌, length, length-append, drop, All, drop-append_length,
}
use mathlib.Core.Path.{subst}
use native.Mathlib.Decide.{dec_lt}
use zerobus.Wire.Uint.{Bytes}
use zerobus.Tcp.{TcpOutput, from_current, erase_complete, after_send, no_separators}
use zerobus.Tcp.Queue.{joined, offsets, Filled, WithinFirst, cut}

-- The buffer holds the messages, none of them empty, and the first is not written as a whole.
pub record Holds (q : TcpOutput) (ms : List Bytes) : Type 0 where
  pub bytes : q.output_data ≡ joined ms
  pub separators : q.output_msg_sp ≡ offsets 0 ms
  pub within : WithinFirst q.output_cursor ms
  pub filled : All Filled ms

pub joined-append : (xs ys : List Bytes) → joined (xs ++ ys) ≡ joined xs ++ joined ys
joined-append [] ys = refl
joined-append (x ∷ xs) ys =
    ap (λ r. x ++ r) (joined-append xs ys) ∙ sym (append_assoc x (joined xs) (joined ys))

All-right : (xs ys : List Bytes) → All Filled (xs ++ ys) → All Filled ys
All-right [] ys h = h
All-right (x ∷ xs) ys h = All-right xs ys h.1

map-offsets : (k at : ℕ) (ms : List Bytes) → map (λ x. x - k) (offsets (k + at) ms) ≡ offsets at ms
map-offsets k at [] = refl
map-offsets k at (m ∷ ms) =
    let head : k + at - k ≡ at = omega arith in
    let next : k + at + length m ≡ k + (at + length m) = omega arith in
    rw (head, next) (ap (◌∷◌ at) (map-offsets k (at + length m) ms))

-- The step of after_send that takes complete messages out.
erase_complete-Holds :
    (complete pending : List Bytes) (into : ℕ) (current : List ℕ) (q : TcpOutput)
    → All Filled (complete ++ pending)
    → q.output_data ≡ joined complete ++ joined pending
    → q.output_msg_sp ≡ offsets 0 (complete ++ pending)
    → q.output_cursor ≡ length (joined complete) + into
    → WithinFirst into pending
    → current ≡ offsets (length (joined complete)) pending
    → 0 < length (joined pending)
    → Holds (erase_complete current q) pending × ((erase_complete current q).output_cursor ≡ into)
unfolding erase_complete
erase_complete-Holds complete [] into current q f d s c w e n = absurd (omega (arith, n))
erase_complete-Holds [] (m ∷ ms) into current q f d s c w e n =
    let c0 : q.output_cursor ≡ into = omega (arith, c) in
    rw e (
      (
        record {
          bytes = d;
          separators = s;
          within = subst (λ x. WithinFirst x (m ∷ ms)) (sym c0) w;
          filled = f;
        },
        c0,
      ))
erase_complete-Holds (k ∷ complete) (m ∷ ms) into current q f d s c w e n =
    let x = length (joined (k ∷ complete)) in
    let some_bytes : (x == 0) ≡ false = ground (arith, f.0, length-append k (joined complete)) in
    let left : q.output_cursor - x ≡ into = omega (arith, c) in
    rw (e, some_bytes)
      ((
        record {
          bytes = ap (drop x) d ∙ drop-append_length (joined (k ∷ complete)) (joined (m ∷ ms));
          separators =
              ap (λ y. map (λ z. z - x) (offsets y (m ∷ ms))) (omega arith)
              ∙ map-offsets x 0 (m ∷ ms);
          within = subst (λ y. WithinFirst y (m ∷ ms)) (sym left) w;
          filled = All-right (k ∷ complete) (m ∷ ms) f;
        },
        left,
      ))

-- What after_send comes to, whose result is r.
pub record Sent (sz : ℕ) (q : TcpOutput) (ms : List Bytes) (r : Bool × TcpOutput) : Type 0 where
  pub complete : List Bytes
  pub pending : List Bytes
  pub all : ms ≡ complete ++ pending
  pub holds : Holds r.1 pending
  pub counted : q.output_cursor + sz ≡ length (joined complete) + r.1.output_cursor
  pub more : r.0 ≡ true → 0 < length (joined pending)
  pub no_more : r.0 ≡ false → pending ≡ []

nothing_queued :
    (sz : ℕ) (q : TcpOutput)
    → Holds q []
    → q.output_cursor + sz ≤ length q.output_data
    → Sent sz q [] (after_send sz q)
unfolding after_send
nothing_queued sz q h k =
    let stop : after_send sz q ≡ (false, q) = rw (ap no_separators h.separators) refl in
    subst (Sent sz q []) (sym stop) (record {
      complete = [];
      pending = [];
      all = refl;
      holds = h;
      counted = omega (arith, h.within, k, ap length h.bytes);
      more = λ e. absurd cc;
      no_more = λ e. refl;
    })

all_written :
    (sz : ℕ) (q : TcpOutput) (m : Bytes) (ms : List Bytes)
    → Holds q (m ∷ ms)
    → q.output_cursor + sz ≡ length q.output_data
    → Sent sz q (m ∷ ms) (after_send sz q)
unfolding after_send
all_written sz q m ms h k =
    let whole : (q.output_cursor + sz == length q.output_data) ≡ true = ground (arith, k) in
    let stop : after_send sz q
        ≡ (false, record q { output_cursor = 0; output_msg_sp = []; output_data = [] }) =
      rw (ap no_separators h.separators) (rw whole refl) in
    subst (Sent sz q (m ∷ ms)) (sym stop) (record {
      complete = m ∷ ms;
      pending = [];
      all = sym (append-nil (m ∷ ms));
      holds = record { bytes = refl; separators = refl; within = refl; filled = tt };
      counted = omega (arith, k, ap length h.bytes);
      more = λ e. absurd cc;
      no_more = λ e. refl;
    })

some_left :
    (complete pending : List Bytes) (n into : ℕ)
    → n ≡ length (joined complete) + into
    → WithinFirst into pending
    → n < length (joined (complete ++ pending))
    → 0 < length (joined pending)
some_left complete [] n into e w h =
    absurd (omega (arith, e, w, h, ap (λ x. length (joined x)) (append-nil complete)))
some_left complete (m ∷ ms) n into e w h = omega (arith, w, length-append m (joined ms))

partly_written :
    (sz : ℕ) (q : TcpOutput) (m : Bytes) (ms : List Bytes)
    → Holds q (m ∷ ms)
    → q.output_cursor + sz < length q.output_data
    → Sent sz q (m ∷ ms) (after_send sz q)
unfolding after_send
partly_written sz q m ms h k =
    let n = q.output_cursor + sz in
    let p = record q { output_cursor = n } in
    let not_all : (n == length q.output_data) ≡ false = ground (arith, k) in
    let current = from_current n q.output_msg_sp in
    let go : after_send sz q ≡ (true, erase_complete current p) =
      rw (ap no_separators h.separators) (rw not_all refl) in
    let bound : n < length (joined (m ∷ ms)) = omega (arith, k, ap length h.bytes) in
    let c = cut n (m ∷ ms) bound in
    let left =
      some_left c.complete c.pending n c.into c.written c.within
        (omega (arith, bound, ap (λ x. length (joined x)) c.all)) in
    let (holds, at) =
      erase_complete-Holds c.complete c.pending c.into current p (subst (All Filled) c.all h.filled)
        (h.bytes ∙ ap joined c.all ∙ joined-append c.complete c.pending)
        (h.separators ∙ ap (offsets 0) c.all) c.written c.within
        (ap (from_current n) h.separators
          ∙ ap (λ x. from_current x (offsets 0 (m ∷ ms))) (omega arith)
          ∙ c.separators 0
          ∙ ap (λ x. offsets x c.pending) (omega arith))
        left in
    subst (Sent sz q (m ∷ ms)) (sym go) (record {
      complete = c.complete;
      pending = c.pending;
      all = c.all;
      holds = holds;
      counted = c.written ∙ ap (λ x. length (joined c.complete) + x) (sym at);
      more = λ e. left;
      no_more = λ e. absurd cc;
    })

pub after_send-Sent :
    (sz : ℕ) (q : TcpOutput) (ms : List Bytes)
    → Holds q ms
    → q.output_cursor + sz ≤ length q.output_data
    → Sent sz q ms (after_send sz q)
after_send-Sent sz q [] h k = nothing_queued sz q h k
after_send-Sent sz q (m ∷ ms) h k = elim (dec_lt (q.output_cursor + sz) (length q.output_data)) [
  | yes p ↦ partly_written sz q m ms h p
  | no p ↦ all_written sz q m ms h (omega (arith, p, k))
]
