-- ===== src/WebSocket/Messages.antt =====
-- A message from Builder to Parser: whole, and in fragments that the parser joins.
use zerobus.Prelude.{
  ℕ, suc, ◌-◌, ◌/◌, ◌%◌, ◌^◌, ◌<◌, ◌≡◌, refl, sym, ap, ◌∙◌, Bool, true, false, not, ◌&&◌, ◌||◌,
  List, [], ◌∷◌, ◌++◌, Option, none, some, arith, length, length-append, take-append_length, inl,
  inr, Bool-cases, ltb,
}
use mathlib.Core.Path.{ap₂}
use zerobus.WebSocket.Frame.{FrameType, Frame, unknown, text, binary, conn_close, ping, pong}
use zerobus.WebSocket.Parser.{
  Parser, push_data, reset_state, reset, finalized, final_type_of, get_message, close_reason,
  close_code,
}
use zerobus.WebSocket.Parser.Payload.{finish, Ends}
use zerobus.WebSocket.Builder.{Builder, wire_payload, frame_opcode, type_opcode, build}
use zerobus.WebSocket.RoundTrip.{server_frame-Ends, client_frame-Ends}

-- What build returns where it does not give up.
pub record Built (m : Frame) (b : Builder) (op : ℕ) : Type 0 where
  pub ok : (build m b).0 ≡ true
  pub next : (build m b).2.fragmented ≡ not m.fin
  pub ends :
      (p : Parser) (rest : List ℕ)
      → Ends p m.fin op (wire_payload m) rest (push_data (reset_state p) ((build m b).1 ++ rest))

pub build-Built :
    (m : Frame) (b : Builder) (op : ℕ)
    → frame_opcode b.fragmented m.type ≡ some op
    → op < 16
    → length (wire_payload m) < 2 ^ 64
    → Built m b op
unfolding build
build-Built m b op e h hl = elim (Bool-cases b.client) [
  | inl c ↦ record {
    ok = rw (e, c, build) refl;
    next = rw (e, c, build) refl;
    ends = λ p rest. rw (e, c, build) (client_frame-Ends p m.fin op h (wire_payload m) rest hl _);
  }
  | inr c ↦ record {
    ok = rw (e, c, build) refl;
    next = rw (e, c, build) refl;
    ends = λ p rest. rw (e, c, build) (server_frame-Ends p m.fin op h (wire_payload m) rest hl);
  }
]

pub finish_whole :
    (rest : List ℕ) (q : Parser)
    → (not q.fin && q.need_fragmented) ≡ false
    → finish rest q ≡ (true, finalized rest q)
finish_whole rest q e = rw (e, finish) refl

-- The code that Parser reports: that of a close frame, or else the opcode.
unfoldable pub seen_code : Frame → ℕ
seen_code m = elim m.type [
  | unknown ↦ 0
  | text ↦ 1
  | binary ↦ 2
  | conn_close ↦ m.code
  | ping ↦ 9
  | pong ↦ 10
]

abbrev pub seen : Frame → Frame
seen m = record m { code = seen_code m }

-- What get_message makes of a parser that ended with a frame of this payload and opcode.
close_lem :
    (code : ℕ) (payload : List ℕ)
    → code < 65536
    → let body = (code / 256 % 256) ∷ (code % 256) ∷ payload ++ (0 ∷ []) in
      (close_reason body ≡ payload) × (close_code body ≡ code)
unfolding close_reason close_code
close_lem code payload h =
    let e : ltb 2 (suc (suc (length (payload ++ (0 ∷ []))))) ≡ true =
      rw (length-append payload (0 ∷ [])) (ground arith) in
    let n : suc (suc (length (payload ++ (0 ∷ [])))) - 3 ≡ length payload =
      rw (length-append payload (0 ∷ [])) (omega arith) in
    (rw e (rw n (take-append_length payload (0 ∷ []))), omega arith)

the : Option ℕ → ℕ
the none = 0
the (some n) = n

staged :
    (t : ℕ) (fin : Bool) (body rest : List ℕ) (q : Parser)
    → q.type ≡ t
    → q.fin ≡ fin
    → q.cur_message ≡ body
    → get_message (finalized rest q)
      ≡ get_message (finalized rest (record q { type = t; fin = fin; cur_message = body }))
staged t fin body rest q et ef eb =
    let seen_as = λ (x : ℕ) (y : Bool) (z : List ℕ).
      get_message (finalized rest (record q { type = x; fin = y; cur_message = z })) in
    ap (λ x. seen_as x q.fin q.cur_message) et
    ∙ ap (λ y. seen_as t y q.cur_message) ef
    ∙ ap (seen_as t fin) eb

get_message-whole :
    (type : FrameType) (payload : List ℕ) (code : ℕ) (fin : Bool) (rest : List ℕ) (q : Parser)
    → let m : Frame = record { payload = payload; type = type; code = code; fin = fin } in
      type_opcode type ≡ some q.type
      → code < 65536
      → q.cur_message ≡ wire_payload m
      → q.fin ≡ fin
      → get_message (finalized rest q) ≡ seen m
unfolding get_message seen_code final_type_of wire_payload type_opcode the
get_message-whole unknown payload code fin rest q e hc body f = ground arith
get_message-whole text payload code fin rest q e hc body f =
    staged 1 fin payload rest q (sym (ap the e)) f body
get_message-whole binary payload code fin rest q e hc body f =
    staged 2 fin payload rest q (sym (ap the e)) f body
get_message-whole ping payload code fin rest q e hc body f =
    staged 9 fin payload rest q (sym (ap the e)) f body
get_message-whole pong payload code fin rest q e hc body f =
    staged 10 fin payload rest q (sym (ap the e)) f body
get_message-whole conn_close payload code fin rest q e hc body f =
    let r = close_lem code payload hc in
    staged 8 fin _ rest q (sym (ap the e)) f body
    ∙ ap₂ (λ p c. record { payload = p; type = conn_close; code = c; fin = fin }) r.0 r.1

opcode_small : (t : FrameType) (op : ℕ) → type_opcode t ≡ some op → op < 16
unfolding type_opcode the
opcode_small unknown op e = ground arith
opcode_small text op e = omega (arith, ap the e)
opcode_small binary op e = omega (arith, ap the e)
opcode_small ping op e = omega (arith, ap the e)
opcode_small pong op e = omega (arith, ap the e)
opcode_small conn_close op e = omega (arith, ap the e)

-- A message of a known type, with a close code below 2 ^ 16 and, with what a close frame adds,
-- less than 2 ^ 64 bytes, is built by a Builder that is not inside a fragmented message,
-- whether of a client or of a server; a Parser after reset, which need not join fragments if
-- the message is one, has read it when push_data has returned true, with what follows as unused
-- data, and get_message gives its payload, type, close code (for other types the opcode) and
-- flag.
pub push_data-build :
    (m : Frame) (b : Builder) (p : Parser) (op : ℕ) (rest : List ℕ)
    → b.fragmented ≡ false
    → type_opcode m.type ≡ some op
    → (m.fin || not p.need_fragmented) ≡ true
    → m.code < 65536
    → length (wire_payload m) < 2 ^ 64
    → let (ok, out, sent) = build m b in
      let (done, q) = push_data (reset p) (out ++ rest) in
      (ok ≡ true) × (done ≡ true) × (q.unused_data ≡ rest) × (get_message q ≡ seen m)
unfolding reset reset_state
push_data-build m b p op rest whole e mode hc hl =
    let built =
      build-Built m b op (ap (λ f. frame_opcode f m.type) whole ∙ e) (opcode_small m.type op e)
        hl in
    let r = built.ends (record p { cur_message = [] }) rest in
    let read =
      r.result
      ∙ finish_whole rest r.last (ap₂ (λ x y. not x && y) r.fin_read r.same_mode ∙ ground arith) in
    (
      built.ok,
      ap (λ x. x.0) read,
      ap (λ x. x.1.unused_data) read,
      ap (λ x. get_message x.1) read
          ∙ get_message-whole m.type m.payload m.code m.fin rest r.last
              (e ∙ ap some (sym r.type_read)) hc r.cur_message r.fin_read,
    )
