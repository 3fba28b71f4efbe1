-- ===== src/Tcp/Handshake.antt =====
-- The response of the server to a WebSocket request and the client's check of it:
-- websocket_handshake of src/zerobus/bridge_tcp_server.cpp, where the key of the request was found,
-- and check_ws_response of src/zerobus/bridge_tcp_client.cpp. Strings are lists of their characters.
pub mod Accepted
use zerobus.Prelude.{ℕ, Bool, true, false, ◌&&◌, List, [], ◌∷◌, ◌++◌, ◌==◌, if◌then◌else◌}
use zerobus.Wire.Uint.{Bytes}
use zerobus.WebSocket.Accept.{calculate_ws_accept}
use zerobus.Http.{icmp, crlf, parse_http_header}

-- "upgrade"
abbrev pub name_upgrade : Bytes
name_upgrade = 117 ∷ 112 ∷ 103 ∷ 114 ∷ 97 ∷ 100 ∷ 101 ∷ []

-- "websocket"
abbrev pub name_websocket : Bytes
name_websocket = 119 ∷ 101 ∷ 98 ∷ 115 ∷ 111 ∷ 99 ∷ 107 ∷ 101 ∷ 116 ∷ []

-- "connection"
abbrev pub name_connection : Bytes
name_connection = 99 ∷ 111 ∷ 110 ∷ 110 ∷ 101 ∷ 99 ∷ 116 ∷ 105 ∷ 111 ∷ 110 ∷ []

-- "sec-websocket-accept"
abbrev pub name_accept : Bytes
name_accept =
    115 ∷ 101 ∷ 99 ∷ 45 ∷ 119 ∷ 101 ∷ 98 ∷ 115 ∷ 111 ∷ 99 ∷ 107 ∷ 101 ∷ 116 ∷ 45 ∷ 97 ∷ 99 ∷ 99
    ∷ 101 ∷ 112 ∷ 116 ∷ []

-- "http/1.1 101 switching protocols"
abbrev pub expected_status : Bytes
expected_status =
    104 ∷ 116 ∷ 116 ∷ 112 ∷ 47 ∷ 49 ∷ 46 ∷ 49 ∷ 32 ∷ 49 ∷ 48 ∷ 49 ∷ 32 ∷ 115 ∷ 119 ∷ 105 ∷ 116 ∷ 99
    ∷ 104 ∷ 105 ∷ 110 ∷ 103 ∷ 32 ∷ 112 ∷ 114 ∷ 111 ∷ 116 ∷ 111 ∷ 99 ∷ 111 ∷ 108 ∷ 115 ∷ []

-- `value == _expected_ws_accept`
unfoldable pub same_text : Bytes → Bytes → Bool
same_text [] [] = true
same_text [] (y ∷ b) = false
same_text (x ∷ a) [] = false
same_text (x ∷ a) (y ∷ b) = (x == y) && same_text a b

-- The flags of check_ws_response.
pub record ResponseFlags : Type 0 where
  pub upgrade : Bool
  pub connection : Bool
  pub accept : Bool

abbrev pub check_field : Bytes → Bytes → Bytes → ResponseFlags → ResponseFlags
check_field expected_accept key value flags =
    if icmp key name_upgrade
    then (if icmp value name_websocket then record flags { upgrade = true } else flags)
    else if icmp key name_connection
    then (if icmp value name_upgrade then record flags { connection = true } else flags)
    else if icmp key name_accept
    then (if same_text value expected_accept then record flags { accept = true } else flags)
    else flags

unfoldable pub check_ws_response : Bytes → Bytes → Bool
check_ws_response expected_accept hdr =
    let (first_line, flags) =
      parse_http_header (check_field expected_accept) hdr
        (record { upgrade = false; connection = false; accept = false }) in
    icmp first_line expected_status && (flags.upgrade && (flags.connection && flags.accept))

-- "HTTP/1.1 101 Switching Protocols\r\nUpgrade: websocket\r\nServer: zerobus\r\n"
-- "Connection: Upgrade\r\nSec-WebSocket-Accept: "
abbrev pub switching_protocols : Bytes
switching_protocols =
    72 ∷ 84 ∷ 84 ∷ 80 ∷ 47 ∷ 49 ∷ 46 ∷ 49 ∷ 32 ∷ 49 ∷ 48 ∷ 49 ∷ 32 ∷ 83 ∷ 119 ∷ 105 ∷ 116 ∷ 99 ∷ 104
    ∷ 105 ∷ 110 ∷ 103 ∷ 32 ∷ 80 ∷ 114 ∷ 111 ∷ 116 ∷ 111 ∷ 99 ∷ 111 ∷ 108 ∷ 115 ∷ 13 ∷ 10 ∷ 85 ∷ 112
    ∷ 103 ∷ 114 ∷ 97 ∷ 100 ∷ 101 ∷ 58 ∷ 32 ∷ 119 ∷ 101 ∷ 98 ∷ 115 ∷ 111 ∷ 99 ∷ 107 ∷ 101 ∷ 116 ∷ 13
    ∷ 10 ∷ 83 ∷ 101 ∷ 114 ∷ 118 ∷ 101 ∷ 114 ∷ 58 ∷ 32 ∷ 122 ∷ 101 ∷ 114 ∷ 111 ∷ 98 ∷ 117 ∷ 115 ∷ 13
    ∷ 10 ∷ 67 ∷ 111 ∷ 110 ∷ 110 ∷ 101 ∷ 99 ∷ 116 ∷ 105 ∷ 111 ∷ 110 ∷ 58 ∷ 32 ∷ 85 ∷ 112 ∷ 103 ∷ 114
    ∷ 97 ∷ 100 ∷ 101 ∷ 13 ∷ 10 ∷ 83 ∷ 101 ∷ 99 ∷ 45 ∷ 87 ∷ 101 ∷ 98 ∷ 83 ∷ 111 ∷ 99 ∷ 107 ∷ 101
    ∷ 116 ∷ 45 ∷ 65 ∷ 99 ∷ 99 ∷ 101 ∷ 112 ∷ 116 ∷ 58 ∷ 32 ∷ []

unfoldable pub accepted_response : Bytes → Bytes
accepted_response key = switching_protocols ++ (calculate_ws_accept key ++ (crlf ++ crlf))
