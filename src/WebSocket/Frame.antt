-- ===== src/WebSocket/Frame.antt =====
-- The frame types, messages and opcodes of src/zerobus/websocket.h. A char is a number below 256.
use zerobus.Prelude.{ℕ, Bool, List}

-- ws::Type.
pub data FrameType : Type 0 where
  unknown text binary conn_close ping pong : FrameType

-- ws::Message.
pub record Frame : Type 0 where
  pub payload : List ℕ
  pub type : FrameType
  pub code : ℕ
  pub fin : Bool

-- Base.
abbrev pub opcode_cont_frame : ℕ
opcode_cont_frame = 0

abbrev pub opcode_text_frame : ℕ
opcode_text_frame = 1

abbrev pub opcode_binary_frame : ℕ
opcode_binary_frame = 2

abbrev pub opcode_conn_close : ℕ
opcode_conn_close = 8

abbrev pub opcode_ping : ℕ
opcode_ping = 9

abbrev pub opcode_pong : ℕ
opcode_pong = 10
