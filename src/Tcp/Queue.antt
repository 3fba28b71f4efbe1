-- ===== src/Tcp/Queue.antt =====
-- The output of a bridge over TCP (src/zerobus/bridge_tcp_common.cpp) as a queue of messages.
use zerobus.Prelude.{
  ℕ, ◌+◌, ◌-◌, ◌≤◌, ◌<◌, ◌≡◌, refl, ap, ◌∙◌, true, false, List, [], ◌∷◌, ◌++◌, arith, ltb, length,
  length-append,
}
use native.Mathlib.Decide.{dec_lt}
use zerobus.Wire.Uint.{Bytes}
use zerobus.Tcp.{TcpOutput, from_current}

abbrev pub joined : List Bytes → Bytes
joined [] = []
joined (m ∷ ms) = m ++ joined ms

-- Where each message begins.
abbrev pub offsets : ℕ → List Bytes → List ℕ
offsets at [] = []
offsets at (m ∷ ms) = at ∷ offsets (at + length m) ms

-- The buffer holds the messages, with the cursor inside the first.
pub record Represents (q : TcpOutput) (ms : List Bytes) (cursor : ℕ) : Type 0 where
  pub bytes : q.output_data ≡ joined ms
  pub separators : q.output_msg_sp ≡ offsets 0 ms
  pub cursor_at : q.output_cursor ≡ cursor

abbrev pub Filled : Bytes → Type 0
Filled m = 0 < length m

abbrev pub WithinFirst : ℕ → List Bytes → Type 0
WithinFirst n [] = n ≡ 0
WithinFirst n (m ∷ ms) = n < length m

-- Messages of which some bytes, not all, are written: those that are as a whole, and the rest.
pub record Cut (n : ℕ) (ms : List Bytes) : Type 0 where
  pub complete : List Bytes
  pub pending : List Bytes
  pub into : ℕ
  pub all : ms ≡ complete ++ pending
  pub written : n ≡ length (joined complete) + into
  pub within : WithinFirst into pending
  pub separators :
      (at : ℕ)
      → from_current (at + n) (offsets at ms) ≡ offsets (at + length (joined complete)) pending

here :
    (at n : ℕ) (m : Bytes) (ms : List Bytes)
    → n < length m
    → from_current (at + n) (offsets at (m ∷ ms)) ≡ offsets at (m ∷ ms)
unfolding from_current
here at n m [] h = refl
here at n m (l ∷ ms) h =
    let below : ltb (at + n) (at + length m) ≡ true = ground (arith, h) in
    rw (below, from_current) refl

there :
    (at n : ℕ) (m l : Bytes) (ms : List Bytes)
    → length m ≤ n
    → from_current (at + n) (offsets at (m ∷ l ∷ ms))
      ≡ from_current (at + length m + (n - length m)) (offsets (at + length m) (l ∷ ms))
unfolding from_current
there at n m l ms h =
    let above : ltb (at + n) (at + length m) ≡ false = ground (arith, h) in
    let same : at + n ≡ at + length m + (n - length m) = omega (arith, h) in
    rw (above, from_current) (ap (λ x. from_current x (offsets (at + length m) (l ∷ ms))) same)

add_zero : (n : ℕ) → n ≡ n + 0
add_zero n = omega arith

later :
    (n : ℕ) (m : Bytes) (ms : List Bytes)
    → length m ≤ n
    → n < length (joined (m ∷ ms))
    → Cut (n - length m) ms
    → Cut n (m ∷ ms)
later n m [] p h c = absurd (omega (arith, p, h, length-append m []))
later n m (l ∷ ms) p h c = record {
  complete = m ∷ c.complete;
  pending = c.pending;
  into = c.into;
  all = ap (◌∷◌ m) c.all;
  written = omega (arith, c.written, p, length-append m (joined c.complete));
  within = c.within;
  separators = λ at.
      there at n m l ms p
      ∙ c.separators (at + length m)
      ∙ ap (λ x. offsets x c.pending) (omega (arith, length-append m (joined c.complete)));
}

pub cut : (n : ℕ) (ms : List Bytes) → n < length (joined ms) → Cut n ms
cut n [] h = absurd (omega (arith, h))
cut n (m ∷ ms) h = elim (dec_lt n (length m)) [
  | yes p ↦ record {
    complete = [];
    pending = m ∷ ms;
    into = n;
    all = refl;
    written = omega arith;
    within = p;
    separators = λ at. here at n m ms p ∙ ap (λ x. offsets x (m ∷ ms)) (add_zero at);
  }
  | no p ↦
      later n m ms (omega (arith, p)) h
        (cut (n - length m) ms (omega (arith, p, h, length-append m (joined ms))))
]
