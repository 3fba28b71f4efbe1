-- ===== src/Pipe/Stream.antt =====
-- What parse_messages of src/zerobus/bridge_pipe.cpp makes of a part of a stream of messages.
use zerobus.Prelude.{
  ℕ, zero, suc, ◌+◌, ◌-◌, ◌^◌, ◌≤◌, ◌<◌, ◌≡◌, refl, sym, ap, ◌∙◌, true, false, List, [], ◌∷◌, ◌++◌,
  append_assoc, arith, length, length-append, ltb, All, take-append_length, drop-append_length,
}
use mathlib.Core.Path.{ap₂}
use native.Mathlib.Decide.{dec_lt}
use zerobus.Messages.{Msg}
use zerobus.Bus.Routing.{Outcome, done, thrown, unfinished, ◌>>=◌}
use zerobus.Wire.Uint.{Bytes, write_uint, read_uint, can_read_uint}
use zerobus.Wire.Uint.RoundTrip.{read_uint-write_uint, write_uint_head}
use zerobus.Wire.Codec.{serialize, deserialize}
use zerobus.Wire.Codec.RoundTrip.{Fits, deserialize-serialize}
use zerobus.Pipe.{frame, parse_loop, parse_one, visit}
use zerobus.Pipe.Header.{split_prefix, can_read_uint-write_uint, in_size, in_text, partly}

abbrev pub frames : List Msg → Bytes
frames [] = []
frames (m ∷ ms) = frame m ++ frames ms

-- The first of the messages is not there as a whole.
abbrev pub Waiting : Bytes → List Msg → Type 0
Waiting s [] = Unit
Waiting s (m ∷ ms) = length s < length (frame m)

-- A message that the two formats can hold.
abbrev pub CanSend : ℕ → Msg → Type 0
CanSend max_size m = Fits max_size m × (length (serialize m) < 2 ^ 61)

pub pred_pos : (n : ℕ) → 0 < n → n ≡ suc (n - 1)
pred_pos n h = omega (arith, h)

pub bind_same :
    {A B : Type 0} (o : Outcome A) (f g : A → Outcome B)
    → ((a : A) → f a ≡ g a)
    → (o >>= f) ≡ (o >>= g)
bind_same (done a) f g h = h a
bind_same thrown f g h = refl
bind_same unfinished f g h = refl

pub bind_assoc :
    {A B C : Type 0} (o : Outcome A) (f : A → Outcome B) (g : B → Outcome C)
    → ((o >>= f) >>= g) ≡ (o >>= (λ a. f a >>= g))
bind_assoc (done a) f g = refl
bind_assoc thrown f g = refl
bind_assoc unfinished f g = refl

module _ {A : Type 0} (max_size : ℕ) (receive : Msg → A → Outcome A) where
  -- The messages are received one after the other.
  abbrev pub handle_all : List Msg → A → Outcome A
  handle_all [] a = done a
  handle_all (m ∷ ms) a = receive m a >>= handle_all ms

  -- Some messages are received and the rest of the text is left: the messages that it begins
  -- go on with what follows.
  pub record Parsed (ms : List Msg) (s t : Bytes) (rounds : ℕ) : Type 0 where
    pub first : List Msg
    pub later : List Msg
    pub rest : Bytes
    pub all : ms ≡ first ++ later
    pub goes_on : rest ++ t ≡ frames later
    pub waiting : Waiting rest later
    pub shorter : length rest ≤ length s
    pub parsed :
        (a : A)
        → parse_loop max_size receive rounds s a ≡ (handle_all first a >>= (λ b. done (rest, b)))

  written : (n : ℕ) (text : Bytes) → n < 2 ^ 61 → 0 < length (write_uint n ++ text)
  written n text h = let (first, rest, e, c, l) = write_uint_head n h in rw e (omega arith)

  stops :
      (rounds : ℕ) (s : Bytes) (a : A)
      → can_read_uint s ≡ false
      → parse_loop max_size receive rounds s a ≡ done (s, a)
  unfolding parse_loop
  stops zero s a h = rw (h, parse_loop) refl
  stops (suc rounds) s a h = rw (h, parse_loop) refl

  reads :
      (rounds : ℕ) (s : Bytes) (n : ℕ) (text : Bytes) (a : A)
      → n < 2 ^ 61
      → s ≡ write_uint n ++ text
      → parse_loop max_size receive (suc rounds) s a
        ≡ parse_one max_size receive (parse_loop max_size receive rounds) (n, text) s a
  unfolding parse_loop
  reads rounds s n text a h e =
      let can : can_read_uint s ≡ true = ap can_read_uint e ∙ can_read_uint-write_uint n text h in
      rw (can, parse_loop)
        (ap (λ p. parse_one max_size receive (parse_loop max_size receive rounds) p s a)
          (ap read_uint e ∙ read_uint-write_uint n text h))

  stops_in_text :
      (rounds n : ℕ) (s text : Bytes) (a : A)
      → n < 2 ^ 61
      → s ≡ write_uint n ++ text
      → length text < n
      → 0 < rounds
      → parse_loop max_size receive rounds s a ≡ done (s, a)
  stops_in_text zero n s text a h e l k = absurd (omega (arith, k))
  stops_in_text (suc rounds) n s text a h e l k =
      let too_long : ltb (length text) n ≡ true = ground arith in
      reads rounds s n text a h e ∙ rw (too_long, parse_one) refl

  takes :
      (rounds : ℕ) (m : Msg) (r : Bytes) (a : A)
      → CanSend max_size m
      → parse_loop max_size receive (suc rounds) (frame m ++ r) a
        ≡ (receive m a >>= parse_loop max_size receive rounds r)
  unfolding frame
  takes rounds m r a h =
      let str = serialize m in
      let enough : ltb (length (str ++ r)) (length str) ≡ false =
        ground (arith, length-append str r) in
      reads rounds (frame m ++ r) (length str) (str ++ r) a h.1
        (append_assoc (write_uint (length str)) str r)
      ∙ rw (enough, parse_one)
          (ap₂
              (λ x y.
                visit max_size receive (deserialize max_size x) a
                >>= parse_loop max_size receive rounds y)
              (take-append_length str r) (drop-append_length str r)
            ∙ ap (λ o. visit max_size receive o a >>= parse_loop max_size receive rounds r)
                (deserialize-serialize max_size m h.0))

  -- What is left is a part of a message.
  waits :
      (rounds : ℕ) (m : Msg) (s t more : Bytes) (a : A)
      → CanSend max_size m
      → s ++ t ≡ frame m ++ more
      → length s < length (frame m)
      → length s ≤ rounds
      → parse_loop max_size receive rounds s a ≡ done (s, a)
  unfolding frame
  waits rounds m s t more a h e l k = elim (partly (serialize m) s t more h.1 e l) [
    | in_size x ↦ stops rounds s a x
    | in_text text x y ↦
        stops_in_text rounds (length (serialize m)) s text a h.1 x y
          (omega (arith, l, k, ap length x, written (length (serialize m)) text h.1))
  ]

  pub frame_pos : (m : Msg) → CanSend max_size m → 0 < length (frame m)
  unfolding frame
  frame_pos m h = written (length (serialize m)) (serialize m) h.1

  pub parse_frames :
      (ms : List Msg) (s t : Bytes) (rounds : ℕ)
      → All (CanSend max_size) ms
      → s ++ t ≡ frames ms
      → length s ≤ rounds
      → Parsed ms s t rounds
  parse_frames [] [] t rounds h e k = record {
    first = [];
    later = [];
    rest = [];
    all = refl;
    goes_on = e;
    waiting = tt;
    shorter = omega arith;
    parsed = λ a. stops rounds [] a (unfold can_read_uint in refl);
  }
  parse_frames [] (c ∷ s) t rounds h e k = absurd cc
  parse_frames (m ∷ ms) s t rounds h e k = elim (dec_lt (length s) (length (frame m))) [
    | yes p ↦ record {
      first = [];
      later = m ∷ ms;
      rest = s;
      all = refl;
      goes_on = e;
      waiting = p;
      shorter = omega arith;
      parsed = λ a. waits rounds m s t (frames ms) a h.0 e p k;
    }
    | no p ↦
        let (r, d, q) = split_prefix (frame m) s t (frames ms) e (omega (arith, p)) in
        let len : length s ≡ length (frame m) + length r =
          ap length d ∙ length-append (frame m) r in
        let one : 0 < length (frame m) = frame_pos m h.0 in
        let ih = parse_frames ms r t (rounds - 1) h.1 q (omega (arith, len, k, one)) in
        record {
          first = m ∷ ih.first;
          later = ih.later;
          rest = ih.rest;
          all = ap (◌∷◌ m) ih.all;
          goes_on = ih.goes_on;
          waiting = ih.waiting;
          shorter = omega (arith, ih.shorter, len);
          parsed = λ a.
              ap₂ (λ n x. parse_loop max_size receive n x a)
                (pred_pos rounds (omega (arith, len, k, one))) d
              ∙ takes (rounds - 1) m r a h.0
              ∙ bind_same (receive m a) _ _ ih.parsed
              ∙ sym (bind_assoc (receive m a) (handle_all ih.first) (λ b. done (ih.rest, b)));
        }
  ]
