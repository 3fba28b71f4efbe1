-- ===== src/Tcp/Input.antt =====
-- What a bridge over TCP receives once the handshake is done: receive_complete and
-- deserialize_message of src/zerobus/bridge_tcp_common.cpp. What is done with a message is a
-- parameter; AbstractBridge::receive fills it.
pub mod Pieces
pub mod Stream
use zerobus.Prelude.{ℕ, zero, suc, Bool, true, false, List, [], ◌∷◌, ◌++◌, length}
use zerobus.Messages.{Msg}
use zerobus.Bus.Routing.{Outcome, done, unfinished, ◌>>=◌}
use zerobus.Wire.Uint.{Bytes}
use zerobus.Wire.Codec.{deserialize}
use zerobus.WebSocket.Frame.{Frame, unknown, text, binary, conn_close, ping, pong}
use zerobus.WebSocket.Parser.{Parser, push_data, reset, get_message}
use zerobus.Pipe.{visit}

-- The parser, what receives the messages, the frames given to output_message, and whether the
-- connection was given up.
pub record TcpInput (A : Type 0) : Type 0 where
  pub ws_parser : Parser
  pub receiver : A
  pub answers : List Frame
  pub closed : Bool

abbrev pub close_normal : ℕ
close_normal = 1000

module _ {A : Type 0} (max_size : ℕ) (receive : Msg → A → Outcome A) where
  unfoldable pub deserialize_message : Bytes → TcpInput A → Outcome (TcpInput A)
  deserialize_message msg i = do
    a ← visit max_size receive (deserialize max_size msg) i.receiver
    done (record i { receiver = a })

  -- The cases of the switch that go on, with the parser that has read the message.
  unfoldable pub handle_frame : Frame → TcpInput A → Outcome (TcpInput A)
  handle_frame m i = elim m.type [
    | binary ↦ deserialize_message m.payload i
    | ping ↦ done (record i {
      answers =
          i.answers ++ (record { payload = m.payload; type = pong; code = 0; fin = true } ∷ []);
    })
    | _ ↦ done i
  ]

  -- The other side closes: it is answered, and the connection is given up.
  abbrev pub close_connection : TcpInput A → TcpInput A
  close_connection i = record i {
    answers =
        i.answers
        ++ (record { payload = []; type = conn_close; code = close_normal; fin = true } ∷ []);
    ws_parser = reset i.ws_parser;
    closed = true;
  }

  -- A round of the loop after push_data returned true.
  unfoldable pub take_message :
      (Bytes → TcpInput A → Outcome (TcpInput A))
      → Frame
      → Parser
      → TcpInput A
      → Outcome (TcpInput A)
  take_message next m p i = elim m.type [
    | conn_close ↦ done (close_connection (record i { ws_parser = p }))
    | _ ↦ do j ← handle_frame m i; next p.unused_data (record j { ws_parser = reset p })
  ]

  -- The loop of receive_complete, with a bound on its rounds.
  unfoldable pub receive_loop : ℕ → Bytes → TcpInput A → Outcome (TcpInput A)
  receive_loop zero input i = elim (push_data i.ws_parser input).0 [
    | false ↦ done (record i { ws_parser = (push_data i.ws_parser input).1 })
    | true ↦ unfinished
  ]
  receive_loop (suc rounds) input i = elim (push_data i.ws_parser input).0 [
    | false ↦ done (record i { ws_parser = (push_data i.ws_parser input).1 })
    | true ↦
        take_message (receive_loop rounds) (get_message (push_data i.ws_parser input).1)
          (push_data i.ws_parser input).1 i
  ]

  -- receive_complete: no data means a lost connection, and a round for each byte is enough.
  unfoldable pub receive_input : Bytes → TcpInput A → Outcome (TcpInput A)
  receive_input [] i = done (record i { closed = true })
  receive_input (c ∷ input) i = receive_loop (length (c ∷ input)) (c ∷ input) i

  -- One call after another.
  unfoldable pub receive_inputs : List Bytes → TcpInput A → Outcome (TcpInput A)
  receive_inputs [] i = done i
  receive_inputs (input ∷ inputs) i = do j ← receive_input input i; receive_inputs inputs j
