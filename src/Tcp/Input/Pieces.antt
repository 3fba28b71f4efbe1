-- ===== src/Tcp/Input/Pieces.antt =====
-- A stream of messages in binary frames that comes over TCP in pieces.
use zerobus.Prelude.{
  ℕ, zero, suc, ◌^◌, ◌<◌, ◌≡◌, refl, sym, ap, ◌∙◌, true, false, List, [], ◌∷◌, ◌++◌, some, arith,
  length, length-append, Bool-cases, inl, inr,
}
use zerobus.Messages.{Msg}
use zerobus.Bus.Routing.{Outcome, done, ◌>>=◌}
use zerobus.Wire.Uint.{Bytes}
use zerobus.Wire.Codec.{serialize, deserialize}
use zerobus.Wire.Codec.RoundTrip.{Fits}
use zerobus.WebSocket.Frame.{binary}
use zerobus.WebSocket.Builder.{Builder, build, frame_opcode, type_opcode, wire_payload}
use zerobus.WebSocket.Parser.{Parser, push_data, reset, get_message}
use zerobus.WebSocket.Parser.Pieces.{push_data-done}
use zerobus.WebSocket.Messages.{push_data-build, seen, build-Built}
use zerobus.Pipe.{visit}
use zerobus.Pipe.Stream.{bind_assoc}
use zerobus.Tcp.{in_frame}
use zerobus.Tcp.Client.{built, binary_known}
use zerobus.Tcp.Input.{TcpInput, deserialize_message, handle_frame, take_message, receive_loop}

-- What a builder makes of the messages, one after the other.
abbrev pub wire : List Msg → Builder → Bytes
wire [] b = []
wire (m ∷ ms) b = let (ok, bytes, next) = build (in_frame m) b in bytes ++ wire ms next

abbrev pub CanFrame : ℕ → Msg → Type 0
CanFrame max_size m = Fits max_size m × (length (serialize m) < 2 ^ 64)

-- What a parser after reset makes of a frame of the builder.
pub record Reads (m : Msg) (b : Builder) : Type 0 where
  pub next_whole : (build (in_frame m) b).2.fragmented ≡ false
  pub filled : 0 < length (build (in_frame m) b).1
  pub read :
      (p : Parser) (rest : Bytes)
      → let r = push_data (reset p) ((build (in_frame m) b).1 ++ rest) in
        (r.0 ≡ true) × (r.1.unused_data ≡ rest) × (get_message r.1 ≡ seen (in_frame m))

pub reads :
    (m : Msg) (b : Builder) → b.fragmented ≡ false → length (serialize m) < 2 ^ 64 → Reads m b
unfolding type_opcode wire_payload
reads m b whole h = record {
  next_whole =
      (build-Built (in_frame m) b 2 (ap (λ f. frame_opcode f binary) whole) (omega arith) h).next;
  filled = built (in_frame m) b binary_known;
  read = λ p rest.
      let (ok, d, u, g) = push_data-build (in_frame m) b p 2 rest whole refl refl (omega arith) h in
      (d, u, g);
}

-- A part of a frame is no message yet.
pub not_yet :
    (m : Msg) (b : Builder) (p : Parser) (s t more : Bytes)
    → Reads m b
    → s ++ t ≡ (build (in_frame m) b).1 ++ more
    → length s < length (build (in_frame m) b).1
    → (push_data (reset p) s).0 ≡ false
not_yet m b p s t more r e l = elim (Bool-cases (push_data (reset p) s).0) [
  | inr h ↦ h
  | inl h ↦
      let f = (build (in_frame m) b).1 in
      let u = (push_data (reset p) s).1.unused_data in
      let (d, left, g) = r.read p more in
      let same : u ++ t ≡ more =
        sym (ap (λ x. x.1.unused_data) (push_data-done (reset p) s t h))
        ∙ ap (λ x. (push_data (reset p) x).1.unused_data) e
        ∙ left in
      absurd (
        omega (
          arith,
          l,
          ap length e,
          length-append s t,
          length-append f more,
          ap length same,
          length-append u t,
        ))
]

module _ {A : Type 0} (max_size : ℕ) (receive : Msg → A → Outcome A) where
  abbrev pub loop : ℕ → Bytes → TcpInput A → Outcome (TcpInput A)
  loop = receive_loop max_size receive

  abbrev pub after : Parser → TcpInput A → A → TcpInput A
  after p i a = record i { receiver = a; ws_parser = p }

  pub stops :
      (rounds : ℕ) (c : Bytes) (i : TcpInput A)
      → (push_data i.ws_parser c).0 ≡ false
      → loop rounds c i ≡ done (after (push_data i.ws_parser c).1 i i.receiver)
  unfolding receive_loop
  stops zero c i h = rw (h, receive_loop) refl
  stops (suc rounds) c i h = rw (h, receive_loop) refl

  pub takes :
      (rounds : ℕ) (c : Bytes) (i : TcpInput A) (m : Msg)
      → (push_data i.ws_parser c).0 ≡ true
      → get_message (push_data i.ws_parser c).1 ≡ seen (in_frame m)
      → deserialize max_size (serialize m) ≡ some m
      → loop (suc rounds) c i ≡ (
          receive m i.receiver >>= (λ a.
            loop rounds
              (push_data i.ws_parser c).1.unused_data
              (after (reset (push_data i.ws_parser c).1) i a)))
  unfolding receive_loop take_message handle_frame deserialize_message
  takes rounds c i m h g d =
      let p = (push_data i.ws_parser c).1 in
      rw (h, receive_loop)
        (ap (λ f. take_message max_size receive (loop rounds) f p i) g
          ∙ ap
              (λ o.
                (visit max_size receive o i.receiver >>= (λ a. done (record i { receiver = a })))
                >>= (λ j. loop rounds p.unused_data (record j { ws_parser = reset p })))
              d
          ∙ bind_assoc (receive m i.receiver) (λ a. done (record i { receiver = a }))
              (λ j. loop rounds p.unused_data (record j { ws_parser = reset p })))
