-- ===== src/Tcp/Server.antt =====
-- The server and its list of peers: class BridgeTCPServer of src/zerobus/bridge_tcp_server.h and
-- bridge_tcp_server.cpp. The calls on INetContext and on the parts of a peer that
-- BridgeTCPCommon and AbstractBridge have are recorded, oldest first, but for the output of
-- responses and pings, which comes with the count of bytes that the network accepts.
pub mod Session
pub mod Peers
pub mod Noted
pub mod Events
pub mod Timeout
use zerobus.Prelude.{
  ℕ, ◌+◌, ◌*◌, ◌%◌, ◌^◌, Bool, true, false, not, ◌&&◌, ◌||◌, Option, none, some, List, [], ◌∷◌,
  ◌++◌, map, ◌==◌, if◌then◌else◌, length,
}
use zerobus.Bus.Routing.{bytes_empty}
use zerobus.Wire.Uint.{Bytes}
use zerobus.Http.{starts_with, split}
use zerobus.Http.EmptyLine.{empty_line}
use zerobus.Tcp.{TcpOutput, new_tcp_output, flush_buffer}
use zerobus.Tcp.Peer.{Peer, new_peer, note_activity, check_dead}
use zerobus.Tcp.Handshake.{same_text}
use zerobus.Tcp.Request.{HandshakeAnswer, switches, refuses, to_http_server, websocket_handshake}

-- The calls: on the network with a handle, where no time stands for time_point::min, on the bridge
-- of a peer with its number, on the HTTP server, and the callbacks of the server.
pub data ServerAct : Type 0 where
  accepts reads readies destroys : ℕ → ServerAct
  sets_timeout : ℕ → Option ℕ → ServerAct
  sends_session sends_channels sends_reset unsubscribes : ℕ → ServerAct
  receives : ℕ → Bytes → ServerAct
  serves : ℕ → Bytes → Bytes → ServerAct
  peer_connect peer_lost : ℕ → ServerAct

-- A peer with its handle, its number and activity in `base`.
pub record ServerPeer : Type 0 where
  pub base : Peer
  pub aux : ℕ
  pub session_id : Bytes
  pub input_data : Bytes
  pub lost : Bool
  pub destroyed : Bool

pub record Server : Type 0 where
  pub aux : ℕ
  pub path : Bytes
  pub peers : List ServerPeer
  pub hwm : ℕ
  pub session_timeout : ℕ
  pub id_cntr : ℕ
  pub send_mine_channels_flag : Bool
  pub lost_peers_flag : Bool
  pub has_http_server : Bool
  pub acts : List ServerAct

abbrev pub act : ServerAct → Server → Server
act a s = record s { acts = s.acts ++ (a ∷ []) }

-- A bound server, which waits for its first peer.
abbrev pub new_server : ℕ → Bytes → Server
new_server aux path = record {
  aux = aux;
  path = path;
  peers = [];
  hwm = 1024 * 1024;
  session_timeout = 0;
  id_cntr = 1;
  send_mine_channels_flag = false;
  lost_peers_flag = false;
  has_http_server = false;
  acts = accepts aux ∷ [];
}

abbrev pub on_channels_update : Server → Server
on_channels_update s = act (sets_timeout s.aux none) (record s { send_mine_channels_flag = true })

-- A server's builder does not mask, so it draws nothing.
abbrev pub new_server_peer : ℕ → ℕ → ℕ → ServerPeer
new_server_peer id aux hwm = record {
  base = new_peer id (record (new_tcp_output false (λ i. 0)) { hwm = hwm });
  aux = aux;
  session_id = [];
  input_data = [];
  lost = false;
  destroyed = false;
}

unfoldable pub on_accept : ℕ → Server → Server
on_accept aux s = act (accepts s.aux) (
    act (readies aux) (
      act (reads aux) (record s {
        peers = s.peers ++ (new_server_peer s.id_cntr aux s.hwm ∷ []);
        id_cntr = (s.id_cntr + 1) % 2 ^ 32;
      })))

-- The peers that are asked to send their channels.
unfoldable pub send_channels : List ServerPeer → List ServerAct
send_channels [] = []
send_channels (p ∷ peers) =
    let rest = send_channels peers in
    if not p.base.output.handshake then sends_channels p.base.id ∷ rest else rest

-- ~Peer, and the unsubscribe_all of ~AbstractBridge.
abbrev pub destroy_peer : ServerPeer → List ServerAct
destroy_peer p =
    (if not p.destroyed then destroys p.aux ∷ [] else []) ++ (unsubscribes p.base.id ∷ [])

-- The peers that stay, and what the destructors of the others do.
unfoldable pub erase_lost : List ServerPeer → List ServerPeer × List ServerAct
erase_lost [] = ([], [])
erase_lost (p ∷ peers) =
    let (stay, acts) = erase_lost peers in
    if p.lost then (stay, destroy_peer p ++ acts) else (p ∷ stay, acts)

-- The flag of the channels stays set.
abbrev pub update_peers : Server → Server
update_peers s =
    if s.send_mine_channels_flag then record s { acts = s.acts ++ send_channels s.peers } else s

abbrev pub drop_lost : Server → Server
drop_lost s =
    let (stay, acts) = erase_lost s.peers in
    if s.lost_peers_flag
    then record s { peers = stay; lost_peers_flag = false; acts = s.acts ++ acts }
    else s

unfoldable pub on_timeout : Server → Server
on_timeout s = drop_lost (update_peers s)

-- BridgeTCPServer::lost_connection
abbrev pub lost_connection : Server → Server
lost_connection s = act (sets_timeout s.aux none) (record s { lost_peers_flag = true })

-- What a peer does goes with the server, where its own entry may be an older one.
abbrev pub put_peer : ServerPeer → Server → Server
put_peer p s = record s { peers = map (λ q. if q.base.id == p.base.id then p else q) s.peers }

-- Peer::close
abbrev pub close : ServerPeer → Server → ServerPeer × Server
close p s = (record p { lost = true }, lost_connection s)

-- Peer::lost_connection, at the time `now` in seconds.
unfoldable pub lose_peer : ℕ → ServerPeer → Server → ServerPeer × Server
lose_peer now p s =
    if not (s.session_timeout == 0)
    then (p, act (sets_timeout p.aux (some (now + s.session_timeout))) s)
    else close p (act (peer_lost p.base.id) s)

-- send_ping: each peer comes with how the network answers its ping.
unfoldable pub ping_peers : (ℕ → Bool × ℕ) → List ServerPeer → List ServerPeer × List ServerAct
ping_peers answer [] = ([], [])
ping_peers answer (p ∷ peers) =
    let (in_time, accepted) = answer p.base.id in
    let (dead, q) = check_dead in_time accepted p.base in
    let (stay, acts) = ping_peers answer peers in
    if dead then (stay, destroy_peer p ++ acts) else (record p { base = q } ∷ stay, acts)

unfoldable pub send_ping : (ℕ → Bool × ℕ) → Server → Server
send_ping answer s =
    let (stay, acts) = ping_peers answer s.peers in record s { peers = stay; acts = s.acts ++ acts }

unfoldable pub set_hwm : ℕ → Server → Server
set_hwm size s = record s {
  hwm = size;
  peers =
      map
        (λ (p : ServerPeer). record p {
          base = record p.base { output = record p.base.output { hwm = size } };
        })
        s.peers;
}
