-- ===== src/Tcp/Request.antt =====
-- The request of a WebSocket client and the server's answer to it: send_handshake of
-- src/zerobus/bridge_tcp_client.cpp, parse_websocket_header and websocket_handshake of
-- src/zerobus/bridge_tcp_server.cpp.
pub mod Lines
pub mod Answer
use zerobus.Prelude.{
  ℕ, zero, suc, ◌+◌, ◌-◌, ◌*◌, ◌≤◌, Bool, true, false, not, ◌&&◌, ◌||◌, List, [], ◌∷◌, ◌++◌, Option,
  none, some, ◌==◌, if◌then◌else◌, ltb, leb, length, take, drop,
}
use zerobus.Bus.Routing.{bytes_empty}
use zerobus.Wire.Uint.{Bytes}
use zerobus.WebSocket.Accept.{base64_encode}
use zerobus.Http.{icmp, split, crlf, space, parse_http_header}
use zerobus.Tcp.Handshake.{
  same_text, name_upgrade, name_websocket, name_connection, accepted_response,
}

-- `path.empty() || path.back() != '/'`
unfoldable pub no_slash_at_end : Bytes → Bool
no_slash_at_end [] = true
no_slash_at_end (c ∷ []) = not (c == 47)
no_slash_at_end (c ∷ d ∷ path) = no_slash_at_end (d ∷ path)

unfoldable pub request_path : Bytes → Bytes → Bytes
request_path path session = (if no_slash_at_end path then path ++ (47 ∷ []) else path) ++ session

-- "GET "
abbrev pub text_get : Bytes
text_get = 71 ∷ 69 ∷ 84 ∷ 32 ∷ []

-- " HTTP/1.1\r\nHost: "
abbrev pub text_host : Bytes
text_host =
    32 ∷ 72 ∷ 84 ∷ 84 ∷ 80 ∷ 47 ∷ 49 ∷ 46 ∷ 49 ∷ 13 ∷ 10 ∷ 72 ∷ 111 ∷ 115 ∷ 116 ∷ 58 ∷ 32 ∷ []

-- "\r\nUpgrade: websocket\r\nConnection: Upgrade\r\nSec-WebSocket-Key: "
abbrev pub text_key : Bytes
text_key =
    13 ∷ 10 ∷ 85 ∷ 112 ∷ 103 ∷ 114 ∷ 97 ∷ 100 ∷ 101 ∷ 58 ∷ 32 ∷ 119 ∷ 101 ∷ 98 ∷ 115 ∷ 111 ∷ 99
    ∷ 107 ∷ 101 ∷ 116 ∷ 13 ∷ 10 ∷ 67 ∷ 111 ∷ 110 ∷ 110 ∷ 101 ∷ 99 ∷ 116 ∷ 105 ∷ 111 ∷ 110 ∷ 58 ∷ 32
    ∷ 85 ∷ 112 ∷ 103 ∷ 114 ∷ 97 ∷ 100 ∷ 101 ∷ 13 ∷ 10 ∷ 83 ∷ 101 ∷ 99 ∷ 45 ∷ 87 ∷ 101 ∷ 98 ∷ 83
    ∷ 111 ∷ 99 ∷ 107 ∷ 101 ∷ 116 ∷ 45 ∷ 75 ∷ 101 ∷ 121 ∷ 58 ∷ 32 ∷ []

-- "\r\nSec-WebSocket-Version: 13\r\n\r\n"
abbrev pub text_version : Bytes
text_version =
    13 ∷ 10 ∷ 83 ∷ 101 ∷ 99 ∷ 45 ∷ 87 ∷ 101 ∷ 98 ∷ 83 ∷ 111 ∷ 99 ∷ 107 ∷ 101 ∷ 116 ∷ 45 ∷ 86 ∷ 101
    ∷ 114 ∷ 115 ∷ 105 ∷ 111 ∷ 110 ∷ 58 ∷ 32 ∷ 49 ∷ 51 ∷ 13 ∷ 10 ∷ 13 ∷ 10 ∷ []

-- The text that send_handshake writes: the path with the session, the address and the key.
unfoldable pub request : Bytes → Bytes → Bytes → Bytes
request path host key =
    text_get ++ (path ++ (text_host ++ (host ++ (text_key ++ (key ++ text_version)))))

-- generate_ws_key, of the bytes that are drawn.
unfoldable pub generate_ws_key : Bytes → Bytes
generate_ws_key buff = base64_encode buff

-- "get"
abbrev pub name_get : Bytes
name_get = 103 ∷ 101 ∷ 116 ∷ []

-- "http/1.1"
abbrev pub name_http : Bytes
name_http = 104 ∷ 116 ∷ 116 ∷ 112 ∷ 47 ∷ 49 ∷ 46 ∷ 49 ∷ []

-- "sec-websocket-key"
abbrev pub name_key : Bytes
name_key =
    115 ∷ 101 ∷ 99 ∷ 45 ∷ 119 ∷ 101 ∷ 98 ∷ 115 ∷ 111 ∷ 99 ∷ 107 ∷ 101 ∷ 116 ∷ 45 ∷ 107 ∷ 101 ∷ 121
    ∷ []

-- "sec-websocket-version"
abbrev pub name_version : Bytes
name_version =
    115 ∷ 101 ∷ 99 ∷ 45 ∷ 119 ∷ 101 ∷ 98 ∷ 115 ∷ 111 ∷ 99 ∷ 107 ∷ 101 ∷ 116 ∷ 45 ∷ 118 ∷ 101 ∷ 114
    ∷ 115 ∷ 105 ∷ 111 ∷ 110 ∷ []

-- std::from_chars of an int in base 10: the value of the leading digits, or none where there are
-- none or the value is out of range.
abbrev pub is_digit : ℕ → Bool
is_digit c = leb 48 c && leb c 57

unfoldable pub read_digits : ℕ → Bytes → ℕ
read_digits n [] = n
read_digits n (c ∷ text) =
    let rest = read_digits (n * 10 + (c - 48)) text in if is_digit c then rest else n

-- Whether from_chars reads a value that is at least 13; a negative one is not.
unfoldable pub is_version : Bytes → Bool
is_version [] = false
is_version (c ∷ text) =
    let v = read_digits 0 (c ∷ text) in is_digit c && (ltb v 2147483648 && leb 13 v)

pub record RequestFlags : Type 0 where
  pub upgrade : Bool
  pub connection : Bool
  pub version : Bool
  pub wskey : Bytes

abbrev pub read_field : Bytes → Bytes → RequestFlags → RequestFlags
read_field key value flags =
    if icmp key name_upgrade
    then (if icmp value name_websocket then record flags { upgrade = true } else flags)
    else if icmp key name_connection
    then (if icmp value name_upgrade then record flags { connection = true } else flags)
    else if icmp key name_key
    then record flags { wskey = value }
    else if icmp key name_version
    then (if is_version value then record flags { version = true } else flags)
    else flags

pub record ParseResult : Type 0 where
  pub key : Bytes
  pub uri : Bytes
  pub method : Bytes
  pub sessionid : Bytes

-- From the first line and the flags, for a server on a path.
unfoldable pub parse_result : Bytes → Bytes → RequestFlags → ParseResult
parse_result owner_path first_line flags =
    let (method, rest) = split first_line space in
    let (path, last) = split rest space in
    let protocol = (split last space).0 in
    let ok =
      icmp method name_get
      && (same_text (take (length owner_path) path) owner_path
          && (icmp protocol name_http && (flags.upgrade && (flags.connection && flags.version)))) in
    record {
      key = if ok then flags.wskey else [];
      uri = path;
      method = method;
      sessionid = if ok then drop (length owner_path) path else [];
    }

unfoldable pub parse_websocket_header : Bytes → Bytes → ParseResult
parse_websocket_header owner_path hdr =
    let (first_line, flags) =
      parse_http_header read_field hdr
        (record { upgrade = false; connection = false; version = false; wskey = [] }) in
    parse_result owner_path first_line flags

-- "HTTP/1.1 400 Bad request\r\nServer: zerobus\r\nConnection: close\r\nContext-Type: text/plain\r\n\r\nUse websocket protocol"
abbrev pub bad_request : Bytes
bad_request =
    72 ∷ 84 ∷ 84 ∷ 80 ∷ 47 ∷ 49 ∷ 46 ∷ 49 ∷ 32 ∷ 52 ∷ 48 ∷ 48 ∷ 32 ∷ 66 ∷ 97 ∷ 100 ∷ 32 ∷ 114 ∷ 101
    ∷ 113 ∷ 117 ∷ 101 ∷ 115 ∷ 116 ∷ 13 ∷ 10 ∷ 83 ∷ 101 ∷ 114 ∷ 118 ∷ 101 ∷ 114 ∷ 58 ∷ 32 ∷ 122 ∷ 101
    ∷ 114 ∷ 111 ∷ 98 ∷ 117 ∷ 115 ∷ 13 ∷ 10 ∷ 67 ∷ 111 ∷ 110 ∷ 110 ∷ 101 ∷ 99 ∷ 116 ∷ 105 ∷ 111 ∷ 110
    ∷ 58 ∷ 32 ∷ 99 ∷ 108 ∷ 111 ∷ 115 ∷ 101 ∷ 13 ∷ 10 ∷ 67 ∷ 111 ∷ 110 ∷ 116 ∷ 101 ∷ 120 ∷ 116 ∷ 45
    ∷ 84 ∷ 121 ∷ 112 ∷ 101 ∷ 58 ∷ 32 ∷ 116 ∷ 101 ∷ 120 ∷ 116 ∷ 47 ∷ 112 ∷ 108 ∷ 97 ∷ 105 ∷ 110 ∷ 13
    ∷ 10 ∷ 13 ∷ 10 ∷ 85 ∷ 115 ∷ 101 ∷ 32 ∷ 119 ∷ 101 ∷ 98 ∷ 115 ∷ 111 ∷ 99 ∷ 107 ∷ 101 ∷ 116 ∷ 32
    ∷ 112 ∷ 114 ∷ 111 ∷ 116 ∷ 111 ∷ 99 ∷ 111 ∷ 108 ∷ []

-- What websocket_handshake does: the response and the session that it keeps, a refusal with its
-- text, or the request goes to the HTTP server.
pub data HandshakeAnswer : Type 0 where
  switches : Bytes → Bytes → HandshakeAnswer
  refuses : Bytes → HandshakeAnswer
  to_http_server : HandshakeAnswer

abbrev pub kept_session : Bytes → Bytes
kept_session session = if leb 32 (length session) then session else []

abbrev pub answer_request : Bool → ParseResult → HandshakeAnswer
answer_request has_http_server rs =
    if bytes_empty rs.key
    then (if has_http_server then to_http_server else refuses bad_request)
    else switches (accepted_response rs.key) (kept_session rs.sessionid)

unfoldable pub websocket_handshake : Bool → Bytes → Bytes → HandshakeAnswer
websocket_handshake has_http_server owner_path hdr =
    answer_request has_http_server (parse_websocket_header owner_path hdr)
