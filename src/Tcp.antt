-- ===== src/Tcp.antt =====
-- What the bridges over TCP share, and the client's way to a lost connection:
-- src/zerobus/bridge_tcp_common.h, bridge_tcp_common.cpp and BridgeTCPClient::lost_connection of
-- bridge_tcp_client.cpp. INetContext is a parameter: a call of `send` comes with the count of bytes
-- that it accepted, and the other calls are recorded, oldest first.
pub mod Queue
pub mod Sent
pub mod Trace
pub mod Client
pub mod Handshake
pub mod Input
pub mod Peer
pub mod Request
pub mod Address
pub mod Connection
pub mod Server
mod Tests
use zerobus.Prelude.{
  ℕ, zero, suc, ◌+◌, ◌-◌, ◌*◌, Bool, true, false, not, List, [], ◌∷◌, ◌++◌, map, ◌==◌,
  if◌then◌else◌, ltb, length, take, drop,
}
use zerobus.Bus.Routing.{bytes_empty}
use zerobus.Wire.Uint.{Bytes}
use zerobus.Messages.{Msg}
use zerobus.Wire.Codec.{serialize}
use zerobus.WebSocket.Frame.{Frame, binary}
use zerobus.WebSocket.Builder.{Builder, build, new_builder}

-- The calls on INetContext, and that the connection was found lost.
pub data NetAction : Type 0 where
  wrote : Bytes → NetAction
  ready_to_send reconnect set_timeout lost : NetAction

-- The fields of BridgeTCPCommon for its output, and two of BridgeTCPClient.
pub record TcpOutput : Type 0 where
  pub ws_builder : Builder
  pub hwm : ℕ
  pub output_data : Bytes
  pub output_msg_sp : List ℕ
  pub output_cursor : ℕ
  pub handshake : Bool
  pub output_allowed : Bool
  pub send_reset_on_connect : Bool
  pub timeout_reconnect : Bool
  pub net_actions : List NetAction

-- BridgeTCPCommon::BridgeTCPCommon, with the engine that the builder draws from.
abbrev pub new_tcp_output : Bool → (ℕ → ℕ) → TcpOutput
new_tcp_output client_masking random = record {
  ws_builder = new_builder client_masking random;
  hwm = 1024 * 1024;
  output_data = [];
  output_msg_sp = [];
  output_cursor = 0;
  handshake = true;
  output_allowed = false;
  send_reset_on_connect = false;
  timeout_reconnect = false;
  net_actions = [];
}

abbrev pub net_act : NetAction → TcpOutput → TcpOutput
net_act a q = record q { net_actions = q.net_actions ++ (a ∷ []) }

abbrev pub get_view_to_send : TcpOutput → Bytes
get_view_to_send q = drop q.output_cursor q.output_data

-- The separators from the last one on that is not above the cursor: what
-- `--std::upper_bound(begin, end, cursor)` points to.
unfoldable pub from_current : ℕ → List ℕ → List ℕ
from_current cursor [] = []
from_current cursor (x ∷ []) = x ∷ []
from_current cursor (x ∷ y ∷ sp) =
    let rest = from_current cursor (y ∷ sp) in if ltb cursor y then x ∷ y ∷ sp else rest

abbrev pub first_separator : List ℕ → ℕ
first_separator [] = 0
first_separator (x ∷ sp) = x

-- Complete messages leave the buffer, and the separators are counted from the new begin.
unfoldable pub erase_complete : List ℕ → TcpOutput → TcpOutput
erase_complete current q =
    let pos = first_separator current in
    if pos == 0 then q else record q {
      output_msg_sp = map (λ x. x - pos) current;
      output_data = drop pos q.output_data;
      output_cursor = q.output_cursor - pos;
    }

abbrev pub no_separators : List ℕ → Bool
no_separators [] = true
no_separators (x ∷ sp) = false

unfoldable pub after_send : ℕ → TcpOutput → Bool × TcpOutput
after_send sz q =
    let p = record q { output_cursor = q.output_cursor + sz } in
    if no_separators q.output_msg_sp
    then (false, q)
    else if p.output_cursor == length p.output_data
    then (false, record p { output_cursor = 0; output_msg_sp = []; output_data = [] })
    else (true, erase_complete (from_current p.output_cursor p.output_msg_sp) p)

-- `_ctx->send(_aux, get_view_to_send())`, where the network accepts so many bytes.
abbrev pub send_view : ℕ → TcpOutput → TcpOutput
send_view accepted q = net_act (wrote (take accepted (get_view_to_send q))) q

unfoldable pub flush_buffer : ℕ → TcpOutput → TcpOutput
flush_buffer accepted q =
    if q.output_allowed
    then net_act ready_to_send
        (record (after_send accepted (send_view accepted q)).1 { output_allowed = false })
    else q

-- Whether a message may be queued, if the wait at the high water mark ends in time or not.
unfoldable pub block_hwm : Bool → TcpOutput → Bool
block_hwm in_time q = if ltb q.hwm (length (get_view_to_send q)) then in_time else true

-- `_output_msg_sp.push_back(_output_data.size()); _ws_builder.build(msg, _output_data);`
abbrev pub queue_message : Frame → TcpOutput → TcpOutput
queue_message m q =
    let (ok, bytes, next) = build m q.ws_builder in
    record q {
      output_msg_sp = q.output_msg_sp ++ (length q.output_data ∷ []);
      output_data = q.output_data ++ bytes;
      ws_builder = next;
    }

unfoldable pub output_message : Bool → ℕ → Frame → TcpOutput → TcpOutput
output_message in_time accepted m q =
    if q.handshake
    then q
    else if not (block_hwm in_time q)
    then q
    else flush_buffer accepted (queue_message m q)

abbrev pub allow_output : Bool × TcpOutput → TcpOutput
allow_output (true, q) = net_act ready_to_send q
allow_output (false, q) = record q { output_allowed = true }

unfoldable pub clear_to_send : ℕ → TcpOutput → TcpOutput
clear_to_send accepted q =
    if bytes_empty q.output_data
    then record q { output_allowed = true }
    else if accepted == 0
    then net_act lost q
    else allow_output (after_send accepted (send_view accepted q))

-- The frame in which output_message puts a serialized message.
abbrev pub in_frame : Msg → Frame
in_frame m = record { payload = serialize m; type = binary; code = 0; fin = true }

-- BridgeTCPClient::lost_connection, where the network makes a new connection or throws.
unfoldable pub lost_connection : Bool → TcpOutput → TcpOutput
lost_connection connects q =
    let p = record q { send_reset_on_connect = true; output_allowed = false } in
    if connects
    then net_act ready_to_send
        (net_act reconnect (record p { output_cursor = 0; handshake = true }))
    else net_act set_timeout (record p { timeout_reconnect = true })

-- BridgeTCPClient::receive_complete, when the response of the server is accepted.
unfoldable pub finish_handshake : Bool → ℕ → TcpOutput → TcpOutput
finish_handshake in_time accepted q =
    let p = record q { handshake = false } in
    net_act ready_to_send (
      if q.send_reset_on_connect
      then output_message in_time accepted (in_frame Msg.channel_reset) p
      else p)
