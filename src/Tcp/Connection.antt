-- ===== src/Tcp/Connection.antt =====
-- The client's connection: class BridgeTCPClient of src/zerobus/bridge_tcp_client.h and
-- bridge_tcp_client.cpp. The output is that of BridgeTCPCommon; the other calls on INetContext and
-- on the parts of the client that BridgeTCPCommon and AbstractBridge have are recorded, oldest
-- first. The bytes that a random device gives are arguments.
pub mod Handshake
use zerobus.Prelude.{
  ℕ, zero, suc, ◌+◌, ◌-◌, Bool, true, false, not, List, [], ◌∷◌, ◌++◌, ◌==◌, if◌then◌else◌, ltb,
  length, take,
}
use zerobus.Bus.Routing.{bytes_empty}
use zerobus.Wire.Uint.{Bytes}
use zerobus.WebSocket.Frame.{Frame, conn_close}
use zerobus.WebSocket.Accept.{calculate_ws_accept}
use zerobus.Http.{split}
use zerobus.Http.EmptyLine.{empty_line, has_text}
use zerobus.Tcp.{
  TcpOutput, new_tcp_output, net_act, ready_to_send, output_message, clear_to_send, lost_connection,
  finish_handshake,
}
use zerobus.Tcp.Input.{close_normal}
use zerobus.Tcp.Handshake.{check_ws_response}
use zerobus.Tcp.Request.{request, request_path, generate_ws_key}
use zerobus.Tcp.Address.{get_address_from_url, get_path_from_url}

-- What the client sends past its queue, its reads, a timeout for now, what is left to
-- BridgeTCPCommon::receive_complete and send_mine_channels, and the end.
pub data ClientAct : Type 0 where
  sends receives : Bytes → ClientAct
  reads sets_timeout sends_channels destroys : ClientAct

-- `input_data` is what came of a response; that the parser of frames keeps its message in the same
-- buffer is left out.
pub record TcpClient : Type 0 where
  pub output : TcpOutput
  pub input_data : Bytes
  pub address : Bytes
  pub expected_ws_accept : Bytes
  pub session_id : Bytes
  pub acts : List ClientAct

abbrev pub note_act : ClientAct → TcpClient → TcpClient
note_act a c = record c { acts = c.acts ++ (a ∷ []) }

-- The characters of valid_chars.
abbrev pub valid_char : ℕ → ℕ
valid_char n =
    if ltb n 26
    then n + 65
    else if ltb n 52
    then n + 71
    else if ltb n 62
    then n - 52 + 48
    else if n == 62
    then 45
    else 95

unfoldable pub session_chars : ℕ → (ℕ → ℕ) → Bytes
session_chars zero drawn = []
session_chars (suc rest) drawn = valid_char (drawn rest) ∷ session_chars rest drawn

unfoldable pub generate_session_id : (ℕ → ℕ) → Bytes
generate_session_id drawn = session_chars 32 drawn

-- The constructor with bind, where the network has a connection. The handshake is not done, so the
-- message of a new session is not sent.
abbrev pub new_client : Bytes → (ℕ → ℕ) → TcpClient
new_client address drawn = record {
  output = net_act ready_to_send (new_tcp_output false (λ i. 0));
  input_data = [];
  address = address;
  expected_ws_accept = [];
  session_id = generate_session_id drawn;
  acts = [];
}

-- BridgeTCPClient::lost_connection and close, where a new connection is made or not.
abbrev pub lose : Bool → TcpClient → TcpClient
lose connects c = record c { output = lost_connection connects c.output }

unfoldable pub on_client_timeout : Bool → TcpClient → TcpClient
on_client_timeout connects c =
    if c.output.timeout_reconnect
    then lose connects (record c { output = record c.output { timeout_reconnect = false } })
    else note_act sends_channels c

abbrev pub on_client_update : TcpClient → TcpClient
on_client_update c = note_act sets_timeout c

-- The request, with the bytes drawn for its key.
abbrev pub client_request : Bytes → TcpClient → Bytes
client_request buff c =
    request (request_path (get_path_from_url c.address) c.session_id)
      (get_address_from_url c.address) (generate_ws_key buff)

-- Whether the network took the whole request.
unfoldable pub send_handshake : ℕ → Bytes → TcpClient → Bool × TcpClient
send_handshake accepted buff c =
    let text = client_request buff c in
    (
      accepted == length text,
      note_act (sends (take accepted text))
          (record c { expected_ws_accept = calculate_ws_accept (generate_ws_key buff) }),
    )

abbrev pub read_or_lose : Bool → Bool × TcpClient → TcpClient
read_or_lose connects (true, c) = note_act reads c
read_or_lose connects (false, c) = lose connects c

-- The connection is made again where BridgeTCPCommon::clear_to_send finds it lost.
abbrev pub clear_queue : Bool → ℕ → TcpClient → TcpClient
clear_queue connects accepted c =
    let sent = record c { output = clear_to_send accepted c.output } in
    if accepted == 0
    then (if bytes_empty c.output.output_data then sent else lose connects c)
    else sent

unfoldable pub client_clear_to_send : Bool → ℕ → Bytes → TcpClient → TcpClient
client_clear_to_send connects accepted buff c =
    if c.output.handshake
    then read_or_lose connects (send_handshake accepted buff c)
    else clear_queue connects accepted c

-- What came behind the response is for BridgeTCPCommon::receive_complete.
abbrev pub read_rest : Bytes → TcpClient → TcpClient
read_rest [] c = note_act reads c
read_rest (b ∷ rest) c = note_act (receives (b ∷ rest)) c

-- A response as a whole.
abbrev pub take_response : Bool → Bool → ℕ → Bytes × Bytes → TcpClient → TcpClient
take_response connects in_time accepted (hdr, rest) c =
    if check_ws_response c.expected_ws_accept hdr
    then read_rest rest (record c { output = finish_handshake in_time accepted c.output })
    else lose connects c

-- The input so far; if it has no empty line, no more is read.
abbrev pub take_input : Bool → Bool → ℕ → TcpClient → TcpClient
take_input connects in_time accepted c =
    if has_text empty_line c.input_data
    then take_response connects in_time accepted (split c.input_data empty_line)
        (record c { input_data = [] })
    else c

-- No data means a lost connection, in BridgeTCPCommon::receive_complete too.
unfoldable pub client_receive : Bool → Bool → ℕ → Bytes → TcpClient → TcpClient
client_receive connects in_time accepted [] c = lose connects c
client_receive connects in_time accepted (b ∷ data_in) c =
    if c.output.handshake
    then take_input connects in_time accepted
        (record c { input_data = c.input_data ++ (b ∷ data_in) })
    else note_act (receives (b ∷ data_in)) c

-- ~BridgeTCPClient, which may wait for the output before the end.
unfoldable pub destroy_client : Bool → ℕ → TcpClient → TcpClient
destroy_client in_time accepted c = note_act destroys (record c {
  output =
      output_message in_time accepted
        (record { payload = []; type = conn_close; code = close_normal; fin = true }) c.output;
})
