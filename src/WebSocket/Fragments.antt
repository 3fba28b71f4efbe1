-- ===== src/WebSocket/Fragments.antt =====
-- A message that Builder sends in fragments, and Parser joins.
use zerobus.Prelude.{
  ℕ, ◌^◌, ◌<◌, ◌≡◌, refl, sym, ap, ◌∙◌, Bool, true, false, not, ◌&&◌, List, [], ◌∷◌, ◌++◌,
  append_assoc, append-nil, some, arith, length, All,
}
use mathlib.Core.Path.{ap₂, subst}
use zerobus.WebSocket.Frame.{FrameType, Frame, text, binary}
use zerobus.WebSocket.Parser.{
  Parser, push_data, reset_state, reset, finalized, final_type_of, get_message,
}
use zerobus.WebSocket.Parser.Payload.{finish}
use zerobus.WebSocket.Builder.{Builder, wire_payload, frame_opcode, type_opcode, build}
use zerobus.WebSocket.Messages.{build-Built, finish_whole}

-- A text message, or a binary one.
abbrev pub data_type : Bool → FrameType
data_type true = text
data_type false = binary

-- The frames of a message that is cut in parts: only the last one has the flag.
abbrev pub fragments : FrameType → List ℕ → List (List ℕ) → List Frame
fragments type part [] = record { payload = part; type = type; code = 0; fin = true } ∷ []
fragments type part (next ∷ parts) =
    record { payload = part; type = type; code = 0; fin = false } ∷ fragments type next parts

-- The bytes of frames that are built one after the other.
abbrev pub build_all : List Frame → Builder → List ℕ
build_all [] b = []
build_all (m ∷ ms) b = (build m b).1 ++ build_all ms (build m b).2

abbrev pub join : List ℕ → List (List ℕ) → List ℕ
join part [] = part
join part (next ∷ parts) = part ++ join next parts

abbrev sent_opcode : Bool → Bool → ℕ
sent_opcode true is_text = 0
sent_opcode false true = 1
sent_opcode false false = 2

abbrev pub Short : List ℕ → Type 0
Short part = length part < 2 ^ 64

-- What the parser has at the end.
abbrev Joined : Parser → FrameType → List ℕ → List ℕ → Bool × Parser → Type 0
Joined p type body rest r =
    (r.0 ≡ true)
    × (r.1.unused_data ≡ rest)
    × (r.1.cur_message ≡ p.cur_message ++ body)
    × (r.1.final_type ≡ type)
    × (r.1.fin ≡ true)

opcode_sent : (f is_text : Bool) → frame_opcode f (data_type is_text) ≡ some (sent_opcode f is_text)
unfolding type_opcode
opcode_sent true is_text = refl
opcode_sent false true = refl
opcode_sent false false = refl

opcode_fits : (f is_text : Bool) → sent_opcode f is_text < 16
opcode_fits true is_text = omega arith
opcode_fits false true = omega arith
opcode_fits false false = omega arith

-- A continuation keeps the type, and the first frame sets it.
abbrev Known : Bool → Bool → FrameType → Type 0
Known true is_text type = type ≡ data_type is_text
Known false is_text type = Unit

known_next :
    (f is_text : Bool) (before : FrameType)
    → Known f is_text before
    → final_type_of (sent_opcode f is_text) before ≡ data_type is_text
unfolding final_type_of
known_next true is_text before h = h
known_next false true before h = refl
known_next false false before h = refl

same_wire :
    (is_text fin : Bool) (part : List ℕ)
    → wire_payload (record { payload = part; type = data_type is_text; code = 0; fin = fin }) ≡ part
unfolding wire_payload
same_wire true fin part = refl
same_wire false fin part = refl

finish_fragment :
    (rest : List ℕ) (q : Parser)
    → (not q.fin && q.need_fragmented) ≡ true
    → finish rest q ≡ push_data (reset_state (finalized rest q)) rest
finish_fragment rest q e = rw (e, finish) refl

run_fragments :
    (is_text : Bool) (part : List ℕ) (parts : List (List ℕ)) (b : Builder) (p : Parser)
    (rest : List ℕ)
    → p.need_fragmented ≡ true
    → Known b.fragmented is_text p.final_type
    → Short part
    → All Short parts
    → Joined p
        (data_type is_text)
        (join part parts)
        rest
        (push_data (reset_state p) (build_all (fragments (data_type is_text) part parts) b ++ rest))
run_fragments is_text part [] b p rest need known short shorts =
    let m : Frame = record { payload = part; type = data_type is_text; code = 0; fin = true } in
    let built =
      build-Built m b _ (opcode_sent b.fragmented is_text) (opcode_fits b.fragmented is_text)
        (rw (same_wire is_text true part) short) in
    let r = built.ends p rest in
    let read =
      ap (λ xs. push_data (reset_state p) (xs ++ rest)) (append-nil (build m b).1)
      ∙ r.result
      ∙ finish_whole rest r.last (ap (λ x. not x && r.last.need_fragmented) r.fin_read) in
    (
      ap (λ x. x.0) read,
      ap (λ x. x.1.unused_data) read,
      ap (λ x. x.1.cur_message) read
          ∙ r.cur_message
          ∙ ap (◌++◌ p.cur_message) (same_wire is_text true part),
      ap (λ x. x.1.final_type) read
          ∙ ap₂ final_type_of r.type_read r.same_type
          ∙ known_next b.fragmented is_text p.final_type known,
      ap (λ x. x.1.fin) read ∙ r.fin_read,
    )
run_fragments is_text part (next ∷ parts) b p rest need known short shorts =
    let m : Frame = record { payload = part; type = data_type is_text; code = 0; fin = false } in
    let more = build_all (fragments (data_type is_text) next parts) (build m b).2 in
    let built =
      build-Built m b _ (opcode_sent b.fragmented is_text) (opcode_fits b.fragmented is_text)
        (rw (same_wire is_text false part) short) in
    let r = built.ends p (more ++ rest) in
    let read =
      ap (push_data (reset_state p)) (append_assoc (build m b).1 more rest)
      ∙ r.result
      ∙ finish_fragment (more ++ rest) r.last
          (ap₂ (λ x y. not x && y) r.fin_read (r.same_mode ∙ need)) in
    let typed =
      ap₂ final_type_of r.type_read r.same_type
      ∙ known_next b.fragmented is_text p.final_type known in
    let later =
      run_fragments is_text next parts (build m b).2 (finalized (more ++ rest) r.last) rest
        (r.same_mode ∙ need)
        (subst (λ f. Known f is_text (final_type_of r.last.type r.last.final_type)) (sym built.next)
          typed)
        shorts.0 shorts.1 in
    (
      ap (λ x. x.0) read ∙ later.0,
      ap (λ x. x.1.unused_data) read ∙ later.1,
      ap (λ x. x.1.cur_message) read
          ∙ later.2
          ∙ ap (λ xs. xs ++ join next parts)
              (r.cur_message ∙ ap (◌++◌ p.cur_message) (same_wire is_text false part))
          ∙ append_assoc p.cur_message part (join next parts),
      ap (λ x. x.1.final_type) read ∙ later.3,
      ap (λ x. x.1.fin) read ∙ later.4,
    )

get_message-data :
    (is_text : Bool) (q : Parser)
    → q.final_type ≡ data_type is_text
    → get_message q
      ≡ record { payload = q.cur_message; type = data_type is_text; code = q.type; fin = q.fin }
unfolding get_message
get_message-data true q e = ap (λ t. get_message (record q { final_type = t })) e
get_message-data false q e = ap (λ t. get_message (record q { final_type = t })) e

-- A text or binary message that a Builder, not inside another one, sends in fragments of less
-- than 2 ^ 64 bytes is read by one call of push_data, of a Parser after reset with
-- need_fragmented set, which joins fragments, although websocket.h documents that it then
-- returns them: the call returns true, what follows is unused data, and get_message gives the
-- type, the joined payload and the flag of the end.
pub push_data-fragments :
    (is_text : Bool) (part : List ℕ) (parts : List (List ℕ)) (b : Builder) (p : Parser)
    (rest : List ℕ)
    → p.need_fragmented ≡ true
    → b.fragmented ≡ false
    → Short part
    → All Short parts
    → let (done, q) =
        push_data (reset p) (build_all (fragments (data_type is_text) part parts) b ++ rest) in
      (done ≡ true)
      × (q.unused_data ≡ rest)
      × ((get_message q).payload ≡ join part parts)
      × ((get_message q).type ≡ data_type is_text)
      × ((get_message q).fin ≡ true)
unfolding reset reset_state
push_data-fragments is_text part parts b p rest need whole short shorts =
    let r =
      run_fragments is_text part parts b (record p { cur_message = [] }) rest need
        (subst (λ f. Known f is_text p.final_type) (sym whole) tt) short shorts in
    let g = get_message-data is_text _ r.3 in
    (r.0, r.1, ap (λ m. m.payload) g ∙ r.2, ap (λ m. m.type) g, ap (λ m. m.fin) g ∙ r.4)
