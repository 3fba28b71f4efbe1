-- ===== src/Tcp/Server/Session.antt =====
-- A peer's handshake, its session and what it receives: class BridgeTCPServer::Peer and
-- BridgeTCPServer::handover of src/zerobus/bridge_tcp_server.cpp.
use zerobus.Prelude.{
  ℕ, Bool, true, false, not, ◌&&◌, Option, none, some, List, [], ◌∷◌, ◌++◌, ◌==◌, if◌then◌else◌,
  length,
}
use zerobus.Bus.Routing.{bytes_empty}
use zerobus.Wire.Uint.{Bytes}
use zerobus.Http.{split}
use zerobus.Http.EmptyLine.{empty_line, has_text}
use zerobus.Tcp.{flush_buffer}
use zerobus.Tcp.Peer.{note_activity}
use zerobus.Tcp.Handshake.{same_text}
use zerobus.Tcp.Request.{HandshakeAnswer, switches, refuses, to_http_server, websocket_handshake}
use zerobus.Tcp.Server.{
  ServerPeer, Server, act, put_peer, close, lose_peer, reads, readies, destroys, sends_session,
  sends_channels, sends_reset, receives, serves, peer_connect, peer_lost,
}

-- Peer::reconnect
abbrev pub reconnect : ℕ → ServerPeer → Server → Server
reconnect aux p s =
    put_peer (record p { aux = aux; input_data = [] })
      (record s {
        acts = s.acts ++ (destroys aux ∷ reads aux ∷ sends_reset p.base.id ∷ readies aux ∷ []);
      })

-- The first peer with the session.
unfoldable pub find_session : Bytes → List ServerPeer → Option ServerPeer
find_session session [] = none
find_session session (p ∷ peers) =
    let rest = find_session session peers in if same_text p.session_id session then some p else rest

-- Whether another peer took over, which is not lost.
abbrev pub take_over : ServerPeer → Option ServerPeer → Server → Bool × Server
take_over p none s = (false, s)
take_over p (some o) s =
    if not (o.base.id == p.base.id) && not o.lost then (true, reconnect p.aux o s) else (false, s)

unfoldable pub handover : ServerPeer → Server → Bool × Server
handover p s = take_over p (find_session p.session_id s.peers) s

-- A text goes to the output as a message of its own.
unfoldable pub write_response : ℕ → Bytes → ServerPeer → ServerPeer
write_response accepted text p =
    let q = p.base.output in
    record p {
      base = record p.base {
        output = flush_buffer accepted (record q {
          output_msg_sp = q.output_msg_sp ++ (length q.output_data ∷ []);
          output_data = q.output_data ++ text;
        });
      };
    }

-- Peer::websocket_handshake, with its result.
abbrev pub answer_peer :
    ℕ → HandshakeAnswer → Bytes → Bytes → ServerPeer → Server → Bool × ServerPeer × Server
answer_peer accepted (switches text session) hdr extra p s =
    (true, write_response accepted text (record p { session_id = p.session_id ++ session }), s)
answer_peer accepted (refuses text) hdr extra p s = (false, write_response accepted text p, s)
answer_peer accepted to_http_server hdr extra p s =
    (false, record p { destroyed = true }, act (serves p.aux hdr extra) s)

abbrev pub initial_handshake : ℕ → Server → Server
initial_handshake id s = act (peer_connect id) (act (sends_channels id) (act (sends_session id) s))

abbrev pub start_peer : ServerPeer → Server → ServerPeer × Server
start_peer p s = (
  record p { base = record p.base { output = record p.base.output { handshake = false } } },
  initial_handshake p.base.id s,
)

-- The peer goes on with what came behind the request.
abbrev pub go_on : Bytes → ServerPeer → Server → ServerPeer × Server
go_on [] p s = start_peer p (act (reads p.aux) s)
go_on (c ∷ extra) p s = let (q, t) = start_peer p s in (q, act (receives p.base.id (c ∷ extra)) t)

abbrev pub hand_or_go_on : Bytes → ServerPeer → Bool × Server → ServerPeer × Server
hand_or_go_on extra p (true, s) = close p s
hand_or_go_on extra p (false, s) = go_on extra (record p { input_data = [] }) s

abbrev pub after_handshake : Bytes → Bool × ServerPeer × Server → ServerPeer × Server
after_handshake extra (false, p, s) = close p s
after_handshake extra (true, p, s) =
    let t = put_peer p s in
    hand_or_go_on extra p (if not (bytes_empty p.session_id) then handover p t else (false, t))

abbrev pub read_request : ℕ → ServerPeer → Server → ServerPeer × Server
read_request accepted p s =
    let (hdr, extra) = split p.input_data empty_line in
    let answer = websocket_handshake s.has_http_server s.path hdr in
    if has_text empty_line p.input_data
    then after_handshake extra (answer_peer accepted answer hdr extra p s)
    else (p, s)

-- No data closes the peer, and goes on.
abbrev pub receive_handshake : ℕ → Bytes → ServerPeer → Server → ServerPeer × Server
receive_handshake accepted [] p s = let (q, t) = close p s in read_request accepted q t
receive_handshake accepted (c ∷ data_in) p s =
    read_request accepted (record p { input_data = p.input_data ++ (c ∷ data_in) }) s

-- BridgeTCPCommon::receive_complete, whose loop over the frames is recorded.
abbrev pub receive_frames : ℕ → Bytes → ServerPeer → Server → ServerPeer × Server
receive_frames now [] p s = lose_peer now p s
receive_frames now (c ∷ data_in) p s = (p, act (receives p.base.id (c ∷ data_in)) s)

abbrev pub receive_peer : ℕ → ℕ → Bytes → ServerPeer → Server → ServerPeer × Server
receive_peer now accepted data_in p s =
    let q = record p { base = note_activity p.base } in
    if q.base.output.handshake
    then receive_handshake accepted data_in q s
    else receive_frames now data_in q s

unfoldable pub find_peer : ℕ → List ServerPeer → Option ServerPeer
find_peer id [] = none
find_peer id (p ∷ peers) = let rest = find_peer id peers in if p.base.id == id then some p else rest

abbrev pub with_peer : Option ServerPeer → (ServerPeer → ServerPeer × Server) → Server → Server
with_peer none f s = s
with_peer (some p) f s = let (q, t) = f p in put_peer q t

-- Peer::receive_complete of the peer with the number.
unfoldable pub peer_receive_complete : ℕ → ℕ → ℕ → Bytes → Server → Server
peer_receive_complete now id accepted data_in s =
    with_peer (find_peer id s.peers) (λ p. receive_peer now accepted data_in p s) s

-- Peer::on_timeout
unfoldable pub on_peer_timeout : ℕ → Server → Server
on_peer_timeout id s =
    with_peer (find_peer id s.peers) (λ p. close p (act (peer_lost p.base.id) s)) s

-- Peer::lost_connection, which clear_to_send calls too.
unfoldable pub on_lost : ℕ → ℕ → Server → Server
on_lost now id s = with_peer (find_peer id s.peers) (λ p. lose_peer now p s) s
