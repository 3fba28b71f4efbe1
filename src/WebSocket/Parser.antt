-- ===== src/WebSocket/Parser.antt =====
-- Parser of src/zerobus/websocket.h and src/zerobus/websocket.cpp. The loop of push_data is
-- recursion over the bytes; a round of it is `step`. The four bytes of `_masking` are a function
-- of the index. std::size_t is a number below 2 ^ 64.
pub mod Payload
pub mod Header
pub mod Pieces
use zerobus.Prelude.{
  ℕ, zero, suc, ◌+◌, ◌-◌, ◌*◌, ◌%◌, ◌^◌, bit_and, bit_xor, Bool, true, false, not, ◌&&◌, List, [],
  ◌∷◌, ◌++◌, ◌==◌, if◌then◌else◌, length, ltb, take, drop, update,
}
use zerobus.WebSocket.Frame.{
  FrameType, Frame, unknown, text, binary, conn_close, ping, pong, opcode_cont_frame,
  opcode_text_frame, opcode_binary_frame, opcode_conn_close, opcode_ping, opcode_pong,
}

pub data State : Type 0 where
  first_byte second_byte payload_len masking payload complete : State

pub record Parser : Type 0 where
  pub state_len : ℕ
  pub payload_len : ℕ
  pub mask_cntr : ℕ
  pub cur_message : List ℕ
  pub need_fragmented : Bool
  pub fin : Bool
  pub masked : Bool
  pub state : State
  pub type : ℕ
  pub masking : ℕ → ℕ
  pub unused_data : List ℕ
  pub final_type : FrameType

abbrev pub new_parser : Bool → Parser
new_parser need_fragmented = record {
  state_len = 0;
  payload_len = 0;
  mask_cntr = 0;
  cur_message = [];
  need_fragmented = need_fragmented;
  fin = false;
  masked = false;
  state = State.first_byte;
  type = 0;
  masking = λ i. 0;
  unused_data = [];
  final_type = unknown;
}

abbrev is_zero : ℕ → Bool
is_zero zero = true
is_zero (suc n) = false

-- `--n` on a std::size_t.
abbrev pub pred_size : ℕ → ℕ
pred_size zero = 2 ^ 64 - 1
pred_size (suc n) = n

-- The state after the payload's length is known, and whether the frame ends there.
abbrev pub enter_payload : ℕ → Parser → Bool × Parser
enter_payload len p =
    if is_zero len then (true, p) else (false, record p { state = State.payload; state_len = len })

abbrev pub second : ℕ → Parser → Bool × Parser
second c p =
    if c == 127
    then (false, record p { state = State.payload_len; state_len = 8 })
    else if c == 126
    then (false, record p { state = State.payload_len; state_len = 2 })
    else if p.masked
    then (false, record p { payload_len = c; state = State.masking; state_len = 4 })
    else enter_payload c p

abbrev pub length_byte : ℕ → Parser → Bool × Parser
length_byte c p =
    let q = record p {
      payload_len = (p.payload_len * 256 % 2 ^ 64 + c) % 2 ^ 64;
      state_len = pred_size p.state_len;
    } in
    if is_zero q.state_len
    then (if p.masked
        then (false, record q { state = State.masking; state_len = 4 })
        else enter_payload q.payload_len q)
    else (false, q)

-- The counter of the mask starts again only if a payload follows.
abbrev pub masking_byte : ℕ → Parser → Bool × Parser
masking_byte c p =
    let q = record p {
      masking = update p.masking (4 - p.state_len) c;
      state_len = pred_size p.state_len;
    } in
    if is_zero q.state_len
    then (if is_zero q.payload_len
        then (true, q)
        else (false, record q { state_len = q.payload_len; state = State.payload; mask_cntr = 0 }))
    else (false, q)

abbrev pub payload_byte : ℕ → Parser → Bool × Parser
payload_byte c p =
    let q = record p {
      cur_message = p.cur_message ++ (bit_xor c (p.masking p.mask_cntr) ∷ []);
      mask_cntr = bit_and (p.mask_cntr + 1) 0x3;
      state_len = pred_size p.state_len;
    } in
    (is_zero q.state_len, q)

-- A round of the loop in a state other than `complete`: the variable `fin`, and the parser.
abbrev pub step : ℕ → Parser → Bool × Parser
step c p = elim p.state [
  | State.first_byte ↦ (
    false,
    record p { fin = not (bit_and c 0x80 == 0); type = bit_and c 0xF; state = State.second_byte },
  )
  | State.second_byte ↦ second (bit_and c 0x7F) (record p { masked = not (bit_and c 0x80 == 0) })
  | State.payload_len ↦ length_byte c p
  | State.masking ↦ masking_byte c p
  | State.payload ↦ payload_byte c p
  | State.complete ↦ (true, p)
]

abbrev pub is_complete : Parser → Bool
is_complete p = elim p.state [ State.complete ↦ true | _ ↦ false ]

unfoldable pub reset_state : Parser → Parser
reset_state p = record p {
  state = State.first_byte;
  masking = λ i. 0;
  fin = false;
  masked = false;
  payload_len = 0;
  state_len = 0;
  unused_data = [];
}

unfoldable pub reset : Parser → Parser
reset p = record (reset_state p) { cur_message = [] }

-- The switch of finalize. A continuation keeps the type of the frame before.
unfoldable pub final_type_of : ℕ → FrameType → FrameType
final_type_of type before =
    if type == opcode_cont_frame
    then before
    else if type == opcode_conn_close
    then conn_close
    else if type == opcode_binary_frame
    then binary
    else if type == opcode_text_frame
    then text
    else if type == opcode_ping
    then ping
    else if type == opcode_pong
    then pong
    else unknown

abbrev pub finalized : List ℕ → Parser → Parser
finalized unused p = record p {
  unused_data = unused;
  state = State.complete;
  final_type = final_type_of p.type p.final_type;
}

-- push_data with finalize, which goes on with the unused input after a fragment if
-- `_need_fragmented` is set.
unfoldable pub push_data : Parser → List ℕ → Bool × Parser
push_data p [] = (false, p)
push_data p (c ∷ input) = elim (is_complete p) [
  | true ↦ (true, record p { unused_data = c ∷ input })
  | false ↦ elim (step c p).0 [
    | false ↦ push_data (step c p).1 input
    | true ↦ elim (not (step c p).1.fin && (step c p).1.need_fragmented) [
      | true ↦ push_data (reset_state (finalized input (step c p).1)) input
      | false ↦ (true, finalized input (step c p).1)
    ]
  ]
]

unfoldable pub reset_parse_next : Parser → Bool × Parser
reset_parse_next p = push_data (reset p) p.unused_data

unfoldable pub close_code : List ℕ → ℕ
close_code [] = 0
close_code (a ∷ []) = 0
close_code (a ∷ b ∷ rest) = a * 256 + b

-- The payload of a close frame behind the code, without its last byte.
unfoldable pub close_reason : List ℕ → List ℕ
close_reason message =
    if ltb 2 (length message) then take (length message - 3) (drop 2 message) else []

unfoldable pub get_message : Parser → Frame
get_message p = elim p.final_type [
  | conn_close ↦ record {
    payload = close_reason p.cur_message;
    type = p.final_type;
    code = close_code p.cur_message;
    fin = p.fin;
  }
  | _ ↦ record { payload = p.cur_message; type = p.final_type; code = p.type; fin = p.fin }
]
