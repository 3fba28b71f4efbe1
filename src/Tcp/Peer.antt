-- ===== src/Tcp/Peer.antt =====
-- The server's look for dead peers: BridgeTCPServer::Peer::check_dead, where receive_complete notes
-- activity (src/zerobus/bridge_tcp_server.cpp).
pub mod Silence
use zerobus.Prelude.{ℕ, Bool, true, false, List, [], ◌∷◌, if◌then◌else◌}
use zerobus.WebSocket.Frame.{Frame, ping}
use zerobus.Tcp.{TcpOutput, output_message}

-- The fields of a peer for its activity, and its output.
pub record Peer : Type 0 where
  pub id : ℕ
  pub activity_check : Bool
  pub ping_sent : Bool
  pub output : TcpOutput

abbrev pub new_peer : ℕ → TcpOutput → Peer
new_peer id output = record { id = id; activity_check = false; ping_sent = false; output = output }

-- `_activity_check = false`, when anything was received.
abbrev pub note_activity : Peer → Peer
note_activity p = record p { activity_check = false }

abbrev pub ping_frame : Frame
ping_frame = record { payload = []; type = ping; code = 0; fin = true }

unfoldable pub check_dead : Bool → ℕ → Peer → Bool × Peer
check_dead in_time accepted p =
    if p.activity_check
    then (if p.ping_sent then (true, p) else (
      false,
      record p {
        output = output_message in_time accepted ping_frame p.output;
        ping_sent = true;
        activity_check = true;
      },
    ))
    else (false, record p { ping_sent = false; activity_check = true })
