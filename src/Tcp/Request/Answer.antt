-- ===== src/Tcp/Request/Answer.antt =====
-- The answer of the server to a client's request: websocket_handshake of
-- src/zerobus/bridge_tcp_server.cpp on what send_handshake of src/zerobus/bridge_tcp_client.cpp
-- writes.
use zerobus.Prelude.{
  ℕ, zero, suc, ◌≡◌, ◌≢◌, refl, ap, ◌∙◌, Bool, true, false, ◌&&◌, [], ◌∷◌, ◌++◌, append_assoc,
  arith, All, ◌==◌, ◌%◌, if◌then◌else◌, Bool-cases, inl, inr, length, take, drop,
  drop-append_length, take-append_length,
}
use mathlib.Core.Path.{ap₂}
use zerobus.Bus.Routing.{bytes_empty}
use zerobus.Wire.Uint.{Bytes}
use zerobus.WebSocket.Accept.{emit_chars, encode_loop, pad, base64_encode, calculate_ws_accept}
use zerobus.Http.{icmp, split, trim, crlf, space, parse_http_header}
use zerobus.Http.Header.{Without, split-append, write_lines, parse_http_header-write_lines}
use zerobus.Http.EmptyLine.{empty_line}
use zerobus.Tcp.Handshake.{same_text, check_ws_response, accepted_response}
use zerobus.Tcp.Handshake.Accepted.{
  Visible, encode_loop-Visible, pad-Visible, check_ws_response-accepted_response,
}
use zerobus.Tcp.Request.{
  no_slash_at_end, request_path, request, generate_ws_key, is_version, read_digits, RequestFlags,
  read_field, parse_result, ParseResult, parse_websocket_header, switches, kept_session,
  answer_request, websocket_handshake, name_http,
}
use zerobus.Tcp.Request.Lines.{
  request_line, more_fields, host_field, fields-Field, line-Without, split-request,
}

pub same_text_refl : (a : Bytes) → same_text a a ≡ true
unfolding same_text
same_text_refl [] = refl
same_text_refl (c ∷ a) = let same : (c == c) ≡ true = ground arith in rw same (same_text_refl a)

-- A key has characters, all of them visible.
pub key-Visible : (buff : Bytes) → All Visible (generate_ws_key buff)
unfolding generate_ws_key base64_encode
key-Visible buff = pad-Visible 3 _ (encode_loop-Visible buff 0 0)

some-append : (text : Bytes) → bytes_empty (text ++ (61 ∷ [])) ≡ false
some-append [] = refl
some-append (c ∷ text) = refl

pad_some :
    (rounds : ℕ) (text : Bytes) → bytes_empty text ≡ false → bytes_empty (pad rounds text) ≡ false
pad_some zero text h = h
pad_some (suc rounds) text h = elim (Bool-cases (length text % 4 == 0)) [
  | inl e ↦ rw e h
  | inr e ↦ rw e (pad_some rounds (text ++ (61 ∷ [])) (some-append text))
]

key_some : (b : ℕ) (buff : Bytes) → bytes_empty (generate_ws_key (b ∷ buff)) ≡ false
unfolding generate_ws_key base64_encode encode_loop emit_chars
key_some b buff = pad_some 3 (encode_loop (b ∷ buff) 0 0) refl

-- The flags that the request sets.
abbrev asked : Bytes → RequestFlags
asked key = record { upgrade = true; connection = true; version = true; wskey = key }

abbrev no_flags : RequestFlags
no_flags = record { upgrade = false; connection = false; version = false; wskey = [] }

fields_ask :
    (line host key : Bytes)
    → Without 13 line
    → Without 13 host
    → trim host ≡ host
    → All Visible key
    → parse_http_header read_field
        (line ++ (crlf ++ write_lines (host_field host ∷ more_fields key)))
        no_flags
      ≡ (line, asked key)
unfolding icmp is_version read_digits
fields_ask line host key l h t v =
    parse_http_header-write_lines read_field line (host_field host ∷ more_fields key) no_flags l
      (fields-Field host key h t v)

-- What is behind the server's path.
abbrev pub behind : Bytes → Bytes → Bytes
behind path session = if no_slash_at_end path then 47 ∷ session else session

request_path-behind :
    (path session : Bytes) → request_path path session ≡ path ++ behind path session
unfolding request_path
request_path-behind path session = elim (Bool-cases (no_slash_at_end path)) [
  | inl e ↦ rw e (append_assoc path (47 ∷ []) session)
  | inr e ↦ rw e refl
]

slash-Without :
    (s : ℕ) (path session : Bytes)
    → 47 ≢ s
    → Without s (path ++ session)
    → Without s (path ++ (47 ∷ session))
slash-Without s [] session n h = (n, h)
slash-Without s (c ∷ path) session n h = (h.0, slash-Without s path session n h.1)

behind-Without :
    (s : ℕ) (path session : Bytes)
    → 47 ≢ s
    → Without s (path ++ session)
    → Without s (path ++ behind path session)
behind-Without s path session n h = elim (Bool-cases (no_slash_at_end path)) [
  | inl e ↦ rw e (slash-Without s path session n h)
  | inr e ↦ rw e h
]

abbrev found : Bytes → Bytes → Bytes → ParseResult
found path more key = record {
  key = key;
  uri = path ++ more;
  method = 71 ∷ 69 ∷ 84 ∷ [];
  sessionid = more;
}

-- parse_result of the request, with the path and what follows it, the test of the server's path
-- and the session.
abbrev decided : Bytes → Bytes → Bool → Bytes → ParseResult
decided uri key ok session = record {
  key = if ok then key else [];
  uri = uri;
  method = 71 ∷ 69 ∷ 84 ∷ [];
  sessionid = if ok then session else [];
}

parse_result_lem :
    (path more key : Bytes)
    → Without 32 (path ++ more)
    → parse_result path (request_line (path ++ more)) (asked key) ≡ found path more key
unfolding parse_result split icmp
parse_result_lem path more key h =
    let http = 72 ∷ 84 ∷ 84 ∷ 80 ∷ 47 ∷ 49 ∷ 46 ∷ 49 ∷ [] in
    let n = length path in
    ap
      (λ x.
        let ok = same_text (take n x.0) path && (icmp (split x.1 space).0 name_http && true) in
        decided x.0 key ok (drop n x.0))
      (split-append 32 [] (path ++ more) http h)
    ∙ ap₂ (λ t d. decided (path ++ more) key (same_text t path && true) d)
        (take-append_length path more) (drop-append_length path more)
    ∙ ap (λ b. decided (path ++ more) key (b && true) more) (same_text_refl path)

answered :
    (has_server : Bool) (path more key : Bytes)
    → bytes_empty key ≡ false
    → answer_request has_server (found path more key)
      ≡ switches (accepted_response key) (kept_session more)
answered has_server path more key h = rw h refl

-- The request that send_handshake writes for a server's own path, a session, a host and a key
-- of any drawn bytes ends at its empty line, with nothing behind; the server answers it with
-- the response that switches protocols and keeps the session if that is long enough, and the
-- client's check of the response succeeds; the path and the session have no space and no
-- carriage return, and the host is trimmed and has no carriage return.
pub websocket_handshake-request :
    (has_server : Bool) (path session host : Bytes) (b : ℕ) (buff : Bytes)
    → Without 13 (path ++ session)
    → Without 32 (path ++ session)
    → Without 13 host
    → trim host ≡ host
    → let key = generate_ws_key (b ∷ buff) in
      let (hdr, extra) = split (request (request_path path session) host key) empty_line in
      (websocket_handshake has_server path hdr
        ≡ switches (accepted_response key) (kept_session (behind path session)))
      × (extra ≡ [])
      × (check_ws_response (calculate_ws_accept key) (split (accepted_response key) empty_line).0
          ≡ true)
unfolding websocket_handshake parse_websocket_header
websocket_handshake-request has_server path session host b buff p q h t =
    let key = generate_ws_key (b ∷ buff) in
    let visible = key-Visible (b ∷ buff) in
    let more = behind path session in
    let uri = path ++ more in
    let cut : split (request (request_path path session) host key) empty_line
        ≡ (request_line uri ++ (crlf ++ write_lines (host_field host ∷ more_fields key)), []) =
      ap (λ x. split (request x host key) empty_line) (request_path-behind path session)
      ∙ split-request uri host key (behind-Without 13 path session (omega arith) p) h t visible in
    let read =
      fields_ask (request_line uri) host key
        (line-Without uri (behind-Without 13 path session (omega arith) p)) h t visible in
    (
      ap (λ x. websocket_handshake has_server path x.0) cut
          ∙ ap (λ x. answer_request has_server (parse_result path x.0 x.1)) read
          ∙ ap (answer_request has_server)
              (parse_result_lem path more key (behind-Without 32 path session (omega arith) q))
          ∙ answered has_server path more key (key_some b buff),
      ap (λ x. x.1) cut,
      check_ws_response-accepted_response key (calculate_ws_accept key)
          ∙ same_text_refl (calculate_ws_accept key),
    )
