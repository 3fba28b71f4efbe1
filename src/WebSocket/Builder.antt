-- ===== src/WebSocket/Builder.antt =====
-- Builder of src/zerobus/websocket.h and src/zerobus/websocket.cpp: build_t returns whether a
-- frame was written, and its bytes. The random engine is a stream of numbers.
use zerobus.Prelude.{
  ℕ, ◌+◌, ◌/◌, ◌%◌, ◌^◌, bit_and, bit_or, bit_xor, Bool, true, false, not, List, [], ◌∷◌, ◌++◌,
  Option, none, some, if◌then◌else◌, length, ltb,
}
use zerobus.WebSocket.Frame.{
  FrameType, Frame, unknown, text, binary, conn_close, ping, pong, opcode_cont_frame,
  opcode_text_frame, opcode_binary_frame, opcode_conn_close, opcode_ping, opcode_pong,
}

pub record Builder : Type 0 where
  pub client : Bool
  pub fragmented : Bool
  -- The numbers from 0 to 255 that the engine will give, and how many it has given.
  pub random : ℕ → ℕ
  pub drawn : ℕ

abbrev pub new_builder : Bool → (ℕ → ℕ) → Builder
new_builder client random = record {
  client = client;
  fragmented = false;
  random = random;
  drawn = 0;
}

-- A close frame carries its code before the text and a zero behind it.
unfoldable pub wire_payload : Frame → List ℕ
wire_payload m = elim m.type [
  | conn_close ↦ (m.code / 256 % 256) ∷ (m.code % 256) ∷ m.payload ++ (0 ∷ [])
  | _ ↦ m.payload
]

unfoldable pub type_opcode : FrameType → Option ℕ
type_opcode unknown = none
type_opcode text = some opcode_text_frame
type_opcode binary = some opcode_binary_frame
type_opcode ping = some opcode_ping
type_opcode pong = some opcode_pong
type_opcode conn_close = some opcode_conn_close

-- The opcode, which is that of a continuation after a fragment; none where build_t gives up.
abbrev pub frame_opcode : Bool → FrameType → Option ℕ
frame_opcode true type = some opcode_cont_frame
frame_opcode false type = type_opcode type

unfoldable pub first_byte_of : Bool → ℕ → ℕ
first_byte_of fin opcode = bit_or (if fin then 0x80 else 0) opcode

-- `_client?0x80:0`
abbrev pub mask_bit : Bool → ℕ
mask_bit client = if client then 0x80 else 0

-- The length, with the bit that says whether a mask follows.
unfoldable pub length_bytes : ℕ → ℕ → List ℕ
length_bytes mm len =
    if ltb len 126
    then bit_or mm len ∷ []
    else if ltb len 65536
    then bit_or mm 126 ∷ (len / 2 ^ 8 % 256) ∷ (len % 256) ∷ []
    else bit_or mm 127
      ∷ (len / 2 ^ 56 % 256)
      ∷ (len / 2 ^ 48 % 256)
      ∷ (len / 2 ^ 40 % 256)
      ∷ (len / 2 ^ 32 % 256)
      ∷ (len / 2 ^ 24 % 256)
      ∷ (len / 2 ^ 16 % 256)
      ∷ (len / 2 ^ 8 % 256)
      ∷ (len % 256)
      ∷ []

-- The loop over the payload, from the index idx of the key.
unfoldable pub apply_mask : (ℕ → ℕ) → ℕ → List ℕ → List ℕ
apply_mask key idx [] = []
apply_mask key idx (c ∷ payload) =
    bit_xor c (key idx) ∷ apply_mask key (bit_and (idx + 1) 0x3) payload

-- The bytes of a frame of the server, and of the client with its key.
unfoldable pub server_frame : ℕ → List ℕ → List ℕ
server_frame first body =
    first ∷ length_bytes (mask_bit false) (length body) ++ apply_mask (λ i. 0) 0 body

unfoldable pub client_frame : ℕ → (ℕ → ℕ) → List ℕ → List ℕ
client_frame first key body =
    first ∷ length_bytes (mask_bit true) (length body)
    ++ (key 0 ∷ key 1 ∷ key 2 ∷ key 3 ∷ apply_mask key 0 body)

unfoldable pub build : Frame → Builder → Bool × (List ℕ) × Builder
build m b = elim (frame_opcode b.fragmented m.type) [
  | none ↦ (false, [], b)
  | some opcode ↦
      let sent = record b { fragmented = not m.fin } in
      if b.client
      then (
        true,
        client_frame (first_byte_of m.fin opcode) (λ i. b.random (b.drawn + i)) (wire_payload m),
        record sent { drawn = b.drawn + 4 },
      )
      else (true, server_frame (first_byte_of m.fin opcode) (wire_payload m), sent)
]
