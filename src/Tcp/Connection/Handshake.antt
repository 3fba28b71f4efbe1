-- ===== src/Tcp/Connection/Handshake.antt =====
-- A client and a server finish their handshake: src/zerobus/bridge_tcp_client.cpp and
-- src/zerobus/bridge_tcp_server.cpp.
use zerobus.Prelude.{
  ℕ, zero, suc, ◌≡◌, refl, sym, ap, ◌∙◌, Bool, true, [], ◌∷◌, ◌++◌, append_assoc, arith, All,
  All-append, ◌==◌, if◌then◌else◌, length, take, Bool-cases, inl, inr, leb,
}
use mathlib.Core.Path.{subst}
use zerobus.Wire.Uint.{Bytes}
use zerobus.WebSocket.Accept.{calculate_ws_accept}
use zerobus.Http.{split}
use zerobus.Http.Header.{split-append}
use zerobus.Http.EmptyLine.{empty_line, has_text, has_text-append}
use zerobus.Tcp.{finish_handshake}
use zerobus.Tcp.Address.{get_address_from_url, get_path_from_url}
use zerobus.Tcp.Address.Visible.{address-Visible, path-Visible}
use zerobus.Tcp.Handshake.{check_ws_response, switching_protocols, accepted_response}
use zerobus.Tcp.Handshake.Accepted.{
  Visible, Visible-Without, trim-Visible, accept-Visible, check_ws_response-accepted_response,
}
use zerobus.Tcp.Request.{
  no_slash_at_end, generate_ws_key, switches, kept_session, websocket_handshake,
}
use zerobus.Tcp.Request.Answer.{behind, same_text_refl, websocket_handshake-request}
use zerobus.Tcp.Connection.{
  note_act, receives, sends, reads, TcpClient, valid_char, session_chars, generate_session_id,
  client_request, send_handshake, read_or_lose, client_clear_to_send, read_rest, take_response,
  take_input, client_receive, lose, clear_queue,
}

valid_char-Visible : (n : ℕ) → Visible (valid_char n)
valid_char-Visible n = ground arith

session_chars-Visible : (n : ℕ) (drawn : ℕ → ℕ) → All Visible (session_chars n drawn)
unfolding session_chars
session_chars-Visible zero drawn = tt
session_chars-Visible (suc n) drawn = (valid_char-Visible (drawn n), session_chars-Visible n drawn)

length-session_chars : (n : ℕ) (drawn : ℕ → ℕ) → length (session_chars n drawn) ≡ n
unfolding session_chars
length-session_chars zero drawn = refl
length-session_chars (suc n) drawn = ap suc (length-session_chars n drawn)

-- A session of 32 characters is kept, also with a slash before it.
kept :
    (path : Bytes) (session : Bytes)
    → length session ≡ 32
    → kept_session (behind path session) ≡ behind path session
kept path session h = elim (Bool-cases (no_slash_at_end path)) [
  | inl e ↦ rw e (let l : leb 32 (length (47 ∷ session)) ≡ true = ground (arith, h) in rw l refl)
  | inr e ↦ rw e (let l : leb 32 (length session) ≡ true = ground (arith, h) in rw l refl)
]

-- The client that has sent its request and reads.
abbrev pub asking : Bytes → TcpClient → TcpClient
asking buff c = record c {
  expected_ws_accept = calculate_ws_accept (generate_ws_key buff);
  acts = (c.acts ++ (sends (client_request buff c) ∷ [])) ++ (reads ∷ []);
}

take_all : (text : Bytes) → take (length text) text ≡ text
take_all [] = refl
take_all (c ∷ text) = ap (◌∷◌ c) (take_all text)

clear_to_send-asking :
    (connects : Bool) (buff : Bytes) (c : TcpClient)
    → c.output.handshake ≡ true
    → client_clear_to_send connects (length (client_request buff c)) buff c ≡ asking buff c
unfolding client_clear_to_send send_handshake
clear_to_send-asking connects buff c h =
    let text = client_request buff c in
    let n = length text in
    let same : (n == n) ≡ true = ground arith in
    let sent = λ (t : Bytes). record c {
      expected_ws_accept = calculate_ws_accept (generate_ws_key buff);
      acts = c.acts ++ (sends t ∷ []);
    } in
    ap
      (λ b. if b then read_or_lose connects (send_handshake n buff c) else clear_queue connects n c)
      h
    ∙ ap (λ b. read_or_lose connects (b, sent (take n text))) same
    ∙ ap (λ t. read_or_lose connects (true, sent t)) (take_all text)

-- The response ends at its empty line.
response_ends :
    (key : Bytes)
    → (has_text empty_line (accepted_response key) ≡ true)
      × ((split (accepted_response key) empty_line).1 ≡ [])
unfolding accepted_response split
response_ends key =
    let accept = calculate_ws_accept key in
    let h = Visible-Without 13 accept (omega arith) (accept-Visible key) in
    (
      ap (has_text empty_line) (sym (append_assoc switching_protocols accept empty_line))
          ∙ has_text-append 13 (10 ∷ 13 ∷ 10 ∷ []) (switching_protocols ++ accept) [],
      ap (λ x. x.1) (split-append 13 (10 ∷ 13 ∷ 10 ∷ []) accept [] h),
    )

-- A client that waits for the response.
abbrev pub answered : Bool → ℕ → TcpClient → TcpClient
answered in_time accepted c = record c {
  output = finish_handshake in_time accepted c.output;
  input_data = [];
  acts = c.acts ++ (reads ∷ []);
}

take_response_lem :
    (connects in_time : Bool) (accepted : ℕ) (key rest : Bytes) (c : TcpClient)
    → check_ws_response c.expected_ws_accept key ≡ true
    → rest ≡ []
    → take_response connects in_time accepted (key, rest) c ≡ record c {
      output = finish_handshake in_time accepted c.output;
      acts = c.acts ++ (reads ∷ []);
    }
take_response_lem connects in_time accepted key rest c h e =
    let d = record c { output = finish_handshake in_time accepted c.output } in
    ap (λ b. if b then read_rest rest d else lose connects c) h ∙ ap (λ r. read_rest r d) e

client_receive-response :
    (connects in_time : Bool) (accepted : ℕ) (key : Bytes) (c : TcpClient)
    → c.output.handshake ≡ true
    → c.input_data ≡ []
    → c.expected_ws_accept ≡ calculate_ws_accept key
    → client_receive connects in_time accepted (accepted_response key) c
      ≡ answered in_time accepted c
unfolding client_receive accepted_response
client_receive-response connects in_time accepted key c h i x =
    let text = accepted_response key in
    let (found, ends) = response_ends key in
    let parts = split text empty_line in
    let same : check_ws_response c.expected_ws_accept parts.0 ≡ true =
      ap (λ e. check_ws_response e parts.0) x
      ∙ check_ws_response-accepted_response key (calculate_ws_accept key)
      ∙ same_text_refl (calculate_ws_accept key) in
    ap
      (λ b.
        if b
        then take_input connects in_time accepted (record c { input_data = c.input_data ++ text })
        else note_act (receives text) c)
      h
    ∙ ap (λ d. take_input connects in_time accepted (record c { input_data = d ++ text })) i
    ∙ ap
        (λ b.
          if b
          then take_response connects in_time accepted parts (record c { input_data = [] })
          else record c { input_data = text })
        found
    ∙ take_response_lem connects in_time accepted parts.0 parts.1 (record c { input_data = [] })
        same ends

-- A client in its handshake, whose buffer is empty, whose session was generated and whose
-- address has no white space or control characters, sends its request and reads, when the
-- network takes the request as a whole; a server on the path of the client's address answers it
-- by switching protocols and keeps the session, with a slash before it if the path ends in
-- none; and that response, received as a whole, finishes the client's handshake and makes it
-- read.
pub client_receive-client_clear_to_send :
    (connects in_time has_server : Bool) (accepted b : ℕ) (buff : Bytes) (drawn : ℕ → ℕ)
    (c : TcpClient)
    → c.session_id ≡ generate_session_id drawn
    → All Visible c.address
    → c.output.handshake ≡ true
    → c.input_data ≡ []
    → let text = client_request (b ∷ buff) c in
      let path = get_path_from_url c.address in
      let response = accepted_response (generate_ws_key (b ∷ buff)) in
      let sent = client_clear_to_send connects (length text) (b ∷ buff) c in
      (sent ≡ asking (b ∷ buff) c)
      × (websocket_handshake has_server path (split text empty_line).0
          ≡ switches response (behind path c.session_id))
      × (client_receive connects in_time accepted response sent
          ≡ answered in_time accepted (asking (b ∷ buff) c))
unfolding generate_session_id
client_receive-client_clear_to_send connects in_time has_server accepted b buff drawn c s v h i =
    let key = generate_ws_key (b ∷ buff) in
    let path = get_path_from_url c.address in
    let host = get_address_from_url c.address in
    let asked = clear_to_send-asking connects (b ∷ buff) c h in
    let session : All Visible c.session_id =
      subst (All Visible) (sym s) (session_chars-Visible 32 drawn) in
    let size : length c.session_id ≡ 32 = ap length s ∙ length-session_chars 32 drawn in
    let uri = All-append Visible path c.session_id (path-Visible c.address v) session in
    let seen = address-Visible c.address v in
    let answer =
      websocket_handshake-request has_server path c.session_id host b buff
        (Visible-Without 13 (path ++ c.session_id) (omega arith) uri)
        (Visible-Without 32 (path ++ c.session_id) (omega arith) uri)
        (Visible-Without 13 host (omega arith) seen) (trim-Visible host seen) in
    (
      asked,
      answer.0 ∙ ap (switches (accepted_response key)) (kept path c.session_id size),
      ap (client_receive connects in_time accepted (accepted_response key)) asked
          ∙ client_receive-response connects in_time accepted key (asking (b ∷ buff) c) h i refl,
    )
