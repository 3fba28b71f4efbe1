-- ===== src/Tcp/Input/Stream.antt =====
-- A stream of messages that comes over TCP in any pieces, one call of receive_complete of
-- src/zerobus/bridge_tcp_common.cpp after another.
use zerobus.Prelude.{
  ℕ, suc, ◌+◌, ◌-◌, ◌≤◌, ◌<◌, ◌≡◌, refl, sym, ap, ◌∙◌, false, List, [], ◌∷◌, ◌++◌, append_assoc,
  append-nil, arith, length, length-append, All,
}
use mathlib.Core.Path.{ap₂, subst}
use native.Mathlib.Decide.{dec_lt}
use zerobus.Messages.{Msg}
use zerobus.Bus.Routing.{Outcome, done, ◌>>=◌}
use zerobus.Wire.Uint.{Bytes}
use zerobus.Wire.Codec.RoundTrip.{deserialize-serialize}
use zerobus.WebSocket.Builder.{Builder, build}
use zerobus.WebSocket.Parser.{Parser, push_data, reset, get_message}
use zerobus.WebSocket.Parser.Pieces.{push_data-append}
use zerobus.Pipe.Header.{split_prefix}
use zerobus.Pipe.Stream.{bind_same, bind_assoc, handle_all, pred_pos}
use zerobus.Pipe.Delivery.{concat, All-later, handle_all-append}
use zerobus.Tcp.{in_frame}
use zerobus.Tcp.Queue.{Filled}
use zerobus.Tcp.Input.{TcpInput, receive_input, receive_inputs}
use zerobus.Tcp.Input.Pieces.{wire, CanFrame, Reads, reads, not_yet, loop, after, stops, takes}

-- What has come of the next frame is not the whole of it.
abbrev pub Within : Bytes → List Msg → Builder → Type 0
Within s [] b = s ≡ []
Within s (m ∷ ms) b = length s < length (build (in_frame m) b).1

no_first : (xs ys : Bytes) → xs ++ ys ≡ [] → xs ≡ []
no_first [] ys h = refl
no_first (x ∷ xs) ys h = absurd cc

module _ {A : Type 0} (max_size : ℕ) (receive : Msg → A → Outcome A) where
  -- A run on a parser that has got `s` of the stream receives some messages, and leaves a parser
  -- that has got a part of the next frame.
  record Taken (ms : List Msg) (b : Builder) (p : Parser) (s t : Bytes)
      (run : TcpInput A → Outcome (TcpInput A)) : Type 0 where
    first : List Msg
    later : List Msg
    next : Builder
    last : Parser
    rest : Bytes
    all : ms ≡ first ++ later
    whole : next.fragmented ≡ false
    goes_on : rest ++ t ≡ wire later next
    within : Within rest later next
    wants : (push_data (reset last) rest).0 ≡ false
    taken :
        (i : TcpInput A)
        → i.ws_parser ≡ (push_data (reset p) s).1
        → run i ≡ (
            handle_all max_size receive first i.receiver
            >>= (λ a. done (after max_size receive (push_data (reset last) rest).1 i a)))

  pushed :
      (p q : Parser) (s c : Bytes)
      → (push_data (reset p) s).0 ≡ false
      → q ≡ (push_data (reset p) s).1
      → push_data q c ≡ push_data (reset p) (s ++ c)
  pushed p q s c w h = ap (λ x. push_data x c) h ∙ sym (push_data-append (reset p) s c w)

  stays :
      (ms : List Msg) (b : Builder) (p : Parser) (s c t : Bytes) (rounds : ℕ)
      → b.fragmented ≡ false
      → Within (s ++ c) ms b
      → s ++ (c ++ t) ≡ wire ms b
      → (push_data (reset p) s).0 ≡ false
      → (push_data (reset p) (s ++ c)).0 ≡ false
      → Taken ms b p s t (loop max_size receive rounds c)
  stays ms b p s c t rounds f k e w v = record {
    first = [];
    later = ms;
    next = b;
    last = p;
    rest = s ++ c;
    all = refl;
    whole = f;
    goes_on = append_assoc s c t ∙ e;
    within = k;
    wants = v;
    taken = λ i h.
        let same = pushed p i.ws_parser s c w h in
        stops max_size receive rounds c i (ap (λ x. x.0) same ∙ v)
        ∙ ap (λ x. done (after max_size receive x.1 i i.receiver)) same;
  }

  nothing_read : (p : Parser) → (push_data (reset p) []).0 ≡ false
  unfolding push_data
  nothing_read p = refl

  no_part :
      (ms : List Msg) (b : Builder)
      → b.fragmented ≡ false
      → All (CanFrame max_size) ms
      → Within [] ms b
  no_part [] b f h = refl
  no_part (m ∷ ms) b f h = (reads m b f h.0.1).filled

  -- A whole frame of the stream, and what the rest of the input comes to.
  takes_one :
      (m : Msg) (ms : List Msg) (b : Builder) (p : Parser) (s c r t : Bytes) (rounds : ℕ)
      → CanFrame max_size m
      → Reads m b
      → (push_data (reset p) s).0 ≡ false
      → s ++ c ≡ (build (in_frame m) b).1 ++ r
      → Taken ms
          (build (in_frame m) b).2
          (push_data (reset p) ((build (in_frame m) b).1 ++ r)).1
          []
          t
          (loop max_size receive rounds r)
      → Taken (m ∷ ms) b p s t (loop max_size receive (suc rounds) c)
  unfolding push_data
  takes_one m ms b p s c r t rounds fits reading w d ih =
      let (full, left, got) = reading.read p r in
      let after_frame = push_data (reset p) ((build (in_frame m) b).1 ++ r) in
      record {
        first = m ∷ ih.first;
        later = ih.later;
        next = ih.next;
        last = ih.last;
        rest = ih.rest;
        all = ap (◌∷◌ m) ih.all;
        whole = ih.whole;
        goes_on = ih.goes_on;
        within = ih.within;
        wants = ih.wants;
        taken = λ i h.
            let same = pushed p i.ws_parser s c w h ∙ ap (push_data (reset p)) d in
            takes max_size receive rounds c i m (ap (λ x. x.0) same ∙ full)
              (ap (λ x. get_message x.1) same ∙ got) (deserialize-serialize max_size m fits.0)
            ∙ ap
                (λ x. receive m i.receiver >>= (λ a.
                  loop max_size receive rounds x.1.unused_data
                    (after max_size receive (reset x.1) i a)))
                same
            ∙ ap
                (λ u. receive m i.receiver >>= (λ a.
                  loop max_size receive rounds u
                    (after max_size receive (reset after_frame.1) i a)))
                left
            ∙ bind_same (receive m i.receiver) _ _
                (λ a. ih.taken (after max_size receive (reset after_frame.1) i a) refl)
            ∙ sym (bind_assoc (receive m i.receiver) (handle_all max_size receive ih.first) _);
      }

  take_pieces :
      (ms : List Msg) (b : Builder) (p : Parser) (s c t : Bytes) (rounds : ℕ)
      → All (CanFrame max_size) ms
      → b.fragmented ≡ false
      → Within s ms b
      → s ++ (c ++ t) ≡ wire ms b
      → length c ≤ rounds
      → (push_data (reset p) s).0 ≡ false
      → Taken ms b p s t (loop max_size receive rounds c)
  take_pieces [] b p s c t rounds h f k e n w =
      let none : s ++ c ≡ [] = no_first (s ++ c) t (append_assoc s c t ∙ e) in
      stays [] b p s c t rounds f none e w
        (ap (λ x. (push_data (reset p) x).0) none ∙ nothing_read p)
  take_pieces (m ∷ ms) b p s c t rounds h f k e n w =
      let reading = reads m b f h.0.1 in
      let frame = (build (in_frame m) b).1 in
      let go = append_assoc s c t ∙ e in
      elim (dec_lt (length (s ++ c)) (length frame)) [
        | yes l ↦
            stays (m ∷ ms) b p s c t rounds f l e w
              (not_yet m b p (s ++ c) t (wire ms (build (in_frame m) b).2) reading go l)
        | no l ↦
            let (r, d, q) =
              split_prefix frame (s ++ c) t (wire ms (build (in_frame m) b).2) go
                (omega (arith, l)) in
            let len : length s + length c ≡ length frame + length r =
              sym (length-append s c) ∙ ap length d ∙ length-append frame r in
            subst (λ x. Taken (m ∷ ms) b p s t (loop max_size receive x c))
              (sym (pred_pos rounds (omega (arith, len, k, n))))
              (takes_one m ms b p s c r t (rounds - 1) h.0 reading w d (
                take_pieces ms (build (in_frame m) b).2 _ [] r t (rounds - 1) h.1 reading.next_whole
                  (no_part ms _ reading.next_whole h.1) q (omega (arith, len, k, n))
                  (nothing_read _)))
      ]

  pieces :
      (ms : List Msg) (b : Builder) (p : Parser) (s t : Bytes) (chunks : List Bytes)
      → All (CanFrame max_size) ms
      → All Filled chunks
      → b.fragmented ≡ false
      → Within s ms b
      → s ++ (concat chunks ++ t) ≡ wire ms b
      → (push_data (reset p) s).0 ≡ false
      → Taken ms b p s t (receive_inputs max_size receive chunks)
  unfolding receive_inputs receive_input
  pieces ms b p s t [] h n f k e w = record {
    first = [];
    later = ms;
    next = b;
    last = p;
    rest = s;
    all = refl;
    whole = f;
    goes_on = e;
    within = k;
    wants = w;
    taken = λ i q. ap (λ x. done (after max_size receive x i i.receiver)) q;
  }
  pieces ms b p s t ([] ∷ cs) h n f k e w = absurd (omega (arith, n.0))
  pieces ms b p s t ((d ∷ ds) ∷ cs) h n f k e w =
      let c = d ∷ ds in
      let one =
        take_pieces ms b p s c (concat cs ++ t) (length c) h f k
          (ap (λ x. s ++ x) (sym (append_assoc c (concat cs) t)) ∙ e) (omega arith) w in
      let later =
        pieces one.later one.next one.last one.rest t cs
          (All-later (CanFrame max_size) one.first one.later
            (subst (All (CanFrame max_size)) one.all h))
          n.1 one.whole one.within one.goes_on one.wants in
      record {
        first = one.first ++ later.first;
        later = later.later;
        next = later.next;
        last = later.last;
        rest = later.rest;
        all =
            one.all
            ∙ ap (λ x. one.first ++ x) later.all
            ∙ sym (append_assoc one.first later.first later.later);
        whole = later.whole;
        goes_on = later.goes_on;
        within = later.within;
        wants = later.wants;
        taken = λ i q.
            let parser = (push_data (reset one.last) one.rest).1 in
            ap (λ o. o >>= receive_inputs max_size receive cs) (one.taken i q)
            ∙ bind_assoc (handle_all max_size receive one.first i.receiver) _ _
            ∙ bind_same (handle_all max_size receive one.first i.receiver) _ _
                (λ a. later.taken (after max_size receive parser i a) refl)
            ∙ sym (handle_all-append max_size receive one.first later.first i.receiver _);
      }

  none_left :
      (ms : List Msg) (b : Builder) (rest : Bytes)
      → Within rest ms b
      → rest ++ [] ≡ wire ms b
      → (ms ≡ []) × (rest ≡ [])
  none_left [] b rest k e = (refl, k)
  none_left (m ∷ ms) b rest k e =
      let (ok, bytes, next) = build (in_frame m) b in
      absurd
        (omega (arith, k, ap length e, length-append rest [], length-append bytes (wire ms next)))

  -- When receive_complete gets the binary frames that a builder makes of messages that fit the
  -- two formats, cut into any pieces that are not empty, with a parser after reset, the
  -- messages are received, each once and in order, as far as receive goes on; then the parser
  -- is again one after reset, and nothing was answered or closed.
  pub receive_inputs-wire :
      (ms : List Msg) (b : Builder) (p : Parser) (chunks : List Bytes) (i : TcpInput A)
      → All (CanFrame max_size) ms
      → All Filled chunks
      → b.fragmented ≡ false
      → i.ws_parser ≡ reset p
      → concat chunks ≡ wire ms b
      → (q : Parser) × (receive_inputs max_size receive chunks i ≡ (
          handle_all max_size receive ms i.receiver
          >>= (λ a. done (after max_size receive (reset q) i a))))
  unfolding push_data
  receive_inputs-wire ms b p chunks i h n f z e =
      let r =
        pieces ms b p [] [] chunks h n f (no_part ms b f h) (append-nil (concat chunks) ∙ e)
          (nothing_read p) in
      let (no_later, no_rest) = none_left r.later r.next r.rest r.within r.goes_on in
      (
        r.last,
        r.taken i z
            ∙ ap₂
                (λ x y.
                  handle_all max_size receive x i.receiver
                  >>= (λ a. done (after max_size receive (push_data (reset r.last) y).1 i a)))
                (sym (append-nil r.first) ∙ ap (λ x. r.first ++ x) (sym no_later) ∙ sym r.all)
                no_rest,
      )
