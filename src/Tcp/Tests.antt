-- ===== src/Tcp/Tests.antt =====
-- The theorems on TCP bridges at concrete inputs.
use zerobus.Prelude.{All, length, ℕ, [], ◌∷◌, ◌++◌, true, false, arith, ◌≡◌, refl, List}
use zerobus.WebSocket.Frame.{Frame, binary}
use zerobus.WebSocket.Builder.{
  new_builder, first_byte_of, build, server_frame, length_bytes, apply_mask, wire_payload,
  type_opcode,
}
use zerobus.Messages.{Msg}
use zerobus.Bus.Routing.{Outcome, done, ◌>>=◌}
use zerobus.Wire.Uint.{Bytes}
use zerobus.Wire.Codec.{serialize}
use zerobus.WebSocket.Parser.{Parser, new_parser, reset}
use zerobus.Pipe.Stream.{handle_all}
use zerobus.WebSocket.Accept.{calculate_ws_accept}
use zerobus.Http.{split, crlf}
use zerobus.Tcp.Handshake.{check_ws_response, accepted_response, same_text}
use zerobus.Http.EmptyLine.{empty_line}
use zerobus.Tcp.Request.{generate_ws_key, switches, websocket_handshake}
use zerobus.Tcp.Server.{Server, new_server, on_timeout}
use zerobus.Tcp.Server.Peers.{IsServer}
use zerobus.Tcp.Server.Events.{
  ServerEvent, accepted_one, timed_out, updated, handle_events, accepts_in, accepts_of,
  handle_events-IsServer,
}
use zerobus.Tcp.Server.Timeout.{live, closings, asked_for, on_timeout-live}
use zerobus.Tcp.Request.Answer.{behind}
use zerobus.Tcp.Address.{ws_scheme, get_path_from_url}
use zerobus.Tcp.Handshake.Accepted.{Visible}
use zerobus.Tcp.Connection.{
  TcpClient, new_client, client_request, client_clear_to_send, client_receive,
}
use zerobus.Tcp.Connection.Handshake.{asking, answered, client_receive-client_clear_to_send}
use zerobus.Tcp.Handshake.Accepted.{check_ws_response-accepted_response}
use zerobus.Tcp.Peer.{new_peer, check_dead}
use zerobus.Tcp.Peer.Silence.{PeerEvent, heard, checked, peer_after, check_dead-silent_checks}
use zerobus.Tcp.Input.{TcpInput, receive_inputs}
use zerobus.Tcp.Input.Pieces.{after}
use zerobus.Tcp.Input.Stream.{receive_inputs-wire}
use zerobus.Tcp.{
  TcpOutput, new_tcp_output, finish_handshake, output_message, flush_buffer, block_hwm,
  clear_to_send, lost_connection, queue_message, in_frame,
}
use zerobus.Tcp.Trace.{Tracks}
use zerobus.Tcp.Client.{
  begins, outputs, clears, loses, finishes, Accepts, greeting, queued, binary_known, Reaches-Tracks,
}

abbrev zeros : ℕ → ℕ
zeros i = 0

abbrev hello : Frame
hello = record { payload = 1 ∷ 2 ∷ []; type = binary; code = 0; fin = true }

abbrev ready : TcpOutput
ready = finish_handshake true 0 (new_tcp_output false zeros)

abbrev waiting : TcpOutput
waiting = output_message true 0 hello ready

no_bytes : Accepts 0 (
    queue_message
      (in_frame Msg.channel_reset)
      (record (new_tcp_output false zeros) { handshake = false }))
no_bytes = omega arith

two_accepted : Accepts 2 waiting
unfolding output_message finish_handshake flush_buffer block_hwm build server_frame length_bytes
    apply_mask wire_payload type_opcode
two_accepted = omega arith

-- The frame is queued, two of its bytes are written, and the connection is lost.
abbrev after_loss : TcpOutput
after_loss = lost_connection true (clear_to_send 2 waiting)

Reaches-Tracks_example :
    Tracks
      (([] ++ greeting true (new_tcp_output false zeros)) ++ queued true hello ready)
      after_loss
unfolding finish_handshake
Reaches-Tracks_example =
    Reaches-Tracks false zeros
      (([] ++ greeting true (new_tcp_output false zeros)) ++ queued true hello ready) after_loss
      (loses true (
        clears 2 (outputs true 0 hello (finishes true 0 begins no_bytes) binary_known (omega arith))
          two_accepted))

abbrev collect : Msg → List Msg → Outcome (List Msg)
collect m ms = done (ms ++ (m ∷ []))

abbrev fresh : TcpInput (List Msg)
fresh = record { ws_parser = reset (new_parser false); receiver = []; answers = []; closed = false }

-- A reset in a frame without a mask, cut inside the header.
abbrev frame_pieces : List Bytes
frame_pieces = (0x82 ∷ []) ∷ (1 ∷ 0xfb ∷ []) ∷ []

receive_inputs-wire_example :
    (q : Parser) × (receive_inputs 1000 collect frame_pieces fresh ≡ (
      handle_all 1000 collect (Msg.channel_reset ∷ []) []
      >>= (λ a. done (after 1000 collect (reset q) fresh a))))
unfolding build server_frame length_bytes apply_mask wire_payload type_opcode serialize
    first_byte_of
receive_inputs-wire_example =
    receive_inputs-wire 1000 collect (Msg.channel_reset ∷ []) (new_builder false zeros)
      (new_parser false) frame_pieces fresh ((tt, omega arith), tt) (omega arith, (omega arith, tt))
      refl refl refl

abbrev some_key : Bytes
some_key = 65 ∷ 66 ∷ 61 ∷ 61 ∷ []

check_ws_response-accepted_response_example :
    check_ws_response (67 ∷ []) (split (accepted_response some_key) (crlf ++ crlf)).0
    ≡ same_text (calculate_ws_accept some_key) (67 ∷ [])
check_ws_response-accepted_response_example = check_ws_response-accepted_response some_key (67 ∷ [])

-- Something was received, and nothing for two checks.
abbrev silent : List PeerEvent
silent = checked true 0 ∷ checked true 0 ∷ heard ∷ []

check_dead-silent_checks_example :
    (check_dead true 0 (peer_after silent (new_peer 7 (new_tcp_output false zeros)))).0 ≡ true
check_dead-silent_checks_example =
    check_dead-silent_checks silent 7 (new_tcp_output false zeros) true 0

-- "/a", a session of two characters and the host "h"
abbrev server_path : Bytes
server_path = 47 ∷ 97 ∷ []

abbrev session_id : Bytes
session_id = 49 ∷ 50 ∷ []

abbrev host_name : Bytes
host_name = 104 ∷ []

abbrev drawn : Bytes
drawn = 1 ∷ 200 ∷ []

-- A client of "ws://h/a" with a session of one letter.
abbrev client : TcpClient
client = new_client (ws_scheme ++ (host_name ++ server_path)) (λ i. 0)

client-Visible : All Visible (ws_scheme ++ (host_name ++ server_path))
client-Visible = (
  omega arith,
  (
    omega arith,
    (omega arith, (omega arith, (omega arith, (omega arith, (omega arith, (omega arith, tt)))))),
  ),
)

client_receive-client_clear_to_send_example :
    let text = client_request drawn client in
    let path = get_path_from_url client.address in
    let response = accepted_response (generate_ws_key drawn) in
    let sent = client_clear_to_send true (length text) drawn client in
    (sent ≡ asking drawn client)
    × (websocket_handshake false path (split text empty_line).0
        ≡ switches response (behind path client.session_id))
    × (client_receive true true 0 response sent ≡ answered true 0 (asking drawn client))
client_receive-client_clear_to_send_example =
    client_receive-client_clear_to_send true true false 0 1 (200 ∷ []) (λ i. 0) client refl
      client-Visible refl refl

-- Two peers, the first of which runs into its timeout while the channels have changed.
abbrev two_peers : List ServerEvent
two_peers = accepted_one 5 ∷ accepted_one 6 ∷ timed_out 1 ∷ updated ∷ []

handle_events-IsServer_example : IsServer 3 (handle_events two_peers (new_server 3 server_path))
unfolding accepts_in accepts_of
handle_events-IsServer_example = handle_events-IsServer 3 server_path two_peers (omega arith)

abbrev waiting_server : Server
waiting_server = handle_events two_peers (new_server 3 server_path)

on_timeout-live_example :
    ((on_timeout waiting_server).peers ≡ live waiting_server.peers)
    × ((on_timeout waiting_server).acts
        ≡ waiting_server.acts ++ (asked_for waiting_server ++ closings waiting_server.peers))
unfolding accepts_in accepts_of
on_timeout-live_example =
    on_timeout-live waiting_server
      (handle_events-IsServer 3 server_path two_peers (omega arith)).noted
