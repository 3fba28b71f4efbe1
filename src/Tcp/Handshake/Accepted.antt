-- ===== src/Tcp/Handshake/Accepted.antt =====
-- A client accepts the response that the server gives to its key, and to no other accept value
-- (src/zerobus/bridge_tcp_server.cpp and src/zerobus/bridge_tcp_client.cpp).
use zerobus.Prelude.{
  ℕ, zero, suc, ◌+◌, ◌-◌, ◌*◌, ◌/◌, ◌%◌, ◌^◌, bit_and, ◌≤◌, ◌<◌, ◌≡◌, refl, ap, ◌∙◌, Bool, true,
  false, not, List, [], ◌∷◌, ◌++◌, arith, All, All-append, Bool-cases, inl, inr, length, ltb, ◌==◌,
  ◌&&◌, if◌then◌else◌,
}
use zerobus.Wire.Uint.{Bytes}
use zerobus.WebSocket.Accept.{
  base64_char, emit_chars, encode_loop, pad, base64_encode, calculate_ws_accept,
}
use zerobus.Http.{icmp, split, trim, trim_back, isspace, crlf}
use zerobus.Http.Header.{Without, split-append, Field, write_lines, parse_http_header-write_lines}
use zerobus.Tcp.Handshake.{
  same_text, ResponseFlags, check_field, check_ws_response, expected_status, switching_protocols,
  accepted_response,
}

-- A character of base64 is no white space.
abbrev pub Visible : ℕ → Type 0
Visible c = 33 ≤ c

base64_char-Visible : (n : ℕ) → Visible (base64_char n)
base64_char-Visible n = ground (arith)

emit_chars-Visible : (rounds val bits : ℕ) → All Visible (emit_chars rounds val bits).0
unfolding emit_chars
emit_chars-Visible zero val bits = tt
emit_chars-Visible (suc rounds) val bits = elim (Bool-cases (ltb bits 6)) [
  | inl e ↦ rw e tt
  | inr e ↦ rw e (
    base64_char-Visible (bit_and (val / 2 ^ (bits - 6)) 0x3F),
    emit_chars-Visible rounds val (bits - 6),
  )
]

pub encode_loop-Visible : (input : Bytes) (val bits : ℕ) → All Visible (encode_loop input val bits)
unfolding encode_loop
encode_loop-Visible [] val bits = elim (Bool-cases (ltb 0 bits)) [
  | inl e ↦ rw e (base64_char-Visible (bit_and (val * 2 ^ 8 % 2 ^ 32 / 2 ^ (bits + 2)) 0x3F), tt)
  | inr e ↦ rw e tt
]
encode_loop-Visible (c ∷ input) val bits =
    let v = (val * 2 ^ 8 % 2 ^ 32 + c) % 2 ^ 32 in
    All-append Visible (emit_chars 2 v (bits + 8)).0 _ (emit_chars-Visible 2 v (bits + 8))
      (encode_loop-Visible input v (emit_chars 2 v (bits + 8)).1)

pub pad-Visible :
    (rounds : ℕ) (encoded : Bytes) → All Visible encoded → All Visible (pad rounds encoded)
pad-Visible zero encoded h = h
pad-Visible (suc rounds) encoded h = elim (Bool-cases (length encoded % 4 == 0)) [
  | inl e ↦ rw e h
  | inr e ↦ rw e (
      pad-Visible rounds (encoded ++ (61 ∷ []))
        (All-append Visible encoded (61 ∷ []) h (omega arith, tt)))
]

pub accept-Visible : (key : Bytes) → All Visible (calculate_ws_accept key)
unfolding calculate_ws_accept base64_encode
accept-Visible key = pad-Visible 3 _ (encode_loop-Visible _ 0 0)

pub Visible-Without : (s : ℕ) (text : Bytes) → s < 33 → All Visible text → Without s text
Visible-Without s [] l h = tt
Visible-Without s (c ∷ text) l h =
    let first : 33 ≤ c = h.0 in
    (λ e. absurd (omega (arith, first, l, e)), Visible-Without s text l h.1)

no_space : (c : ℕ) → Visible c → isspace c ≡ false
no_space c h = ground (arith, h)

trim_back-Visible : (text : Bytes) → All Visible text → trim_back text ≡ text
trim_back-Visible [] h = refl
trim_back-Visible (c ∷ text) h = rw (no_space c h.0) (ap (◌∷◌ c) (trim_back-Visible text h.1))

pub trim-Visible : (text : Bytes) → All Visible text → trim text ≡ text
unfolding trim
trim-Visible [] h = refl
trim-Visible (c ∷ text) h = rw (no_space c h.0) (trim_back-Visible (c ∷ text) h)

abbrev status : Bytes
status =
    72 ∷ 84 ∷ 84 ∷ 80 ∷ 47 ∷ 49 ∷ 46 ∷ 49 ∷ 32 ∷ 49 ∷ 48 ∷ 49 ∷ 32 ∷ 83 ∷ 119 ∷ 105 ∷ 116 ∷ 99 ∷ 104
    ∷ 105 ∷ 110 ∷ 103 ∷ 32 ∷ 80 ∷ 114 ∷ 111 ∷ 116 ∷ 111 ∷ 99 ∷ 111 ∷ 108 ∷ 115 ∷ []

abbrev pub upgrade_key : Bytes
upgrade_key = 85 ∷ 112 ∷ 103 ∷ 114 ∷ 97 ∷ 100 ∷ 101 ∷ []

abbrev pub upgrade_value : Bytes
upgrade_value = 119 ∷ 101 ∷ 98 ∷ 115 ∷ 111 ∷ 99 ∷ 107 ∷ 101 ∷ 116 ∷ []

abbrev server_key : Bytes
server_key = 83 ∷ 101 ∷ 114 ∷ 118 ∷ 101 ∷ 114 ∷ []

abbrev server_value : Bytes
server_value = 122 ∷ 101 ∷ 114 ∷ 111 ∷ 98 ∷ 117 ∷ 115 ∷ []

abbrev pub connection_key : Bytes
connection_key = 67 ∷ 111 ∷ 110 ∷ 110 ∷ 101 ∷ 99 ∷ 116 ∷ 105 ∷ 111 ∷ 110 ∷ []

abbrev accept_key : Bytes
accept_key =
    83 ∷ 101 ∷ 99 ∷ 45 ∷ 87 ∷ 101 ∷ 98 ∷ 83 ∷ 111 ∷ 99 ∷ 107 ∷ 101 ∷ 116 ∷ 45 ∷ 65 ∷ 99 ∷ 99 ∷ 101
    ∷ 112 ∷ 116 ∷ []

abbrev fields : Bytes → List (Bytes × Bytes)
fields accept =
    (upgrade_key, upgrade_value)
    ∷ (server_key, server_value)
    ∷ (connection_key, upgrade_key)
    ∷ (accept_key, accept)
    ∷ []

-- The response up to the empty line.
header_part :
    (accept : Bytes)
    → Without 13 accept
    → (split (switching_protocols ++ (accept ++ (crlf ++ crlf))) (crlf ++ crlf)).0
      ≡ status ++ (crlf ++ write_lines (fields accept))
unfolding split
header_part accept h =
    ap (λ x. switching_protocols ++ x.0) (split-append 13 (10 ∷ 13 ∷ 10 ∷ []) accept [] h)

abbrev pub all_others : ℕ → Bytes → Bool
all_others s [] = true
all_others s (c ∷ text) = not (c == s) && all_others s text

pub others-Without : (s : ℕ) (text : Bytes) → all_others s text ≡ true → Without s text
others-Without s [] h = tt
others-Without s (c ∷ text) h = elim (Bool-cases (c == s)) [
  | inl e ↦ let no : false ≡ true = rw e at h in absurd cc
  | inr e ↦ (λ same. ground (arith, e, same), others-Without s text (rw e at h))
]

pub line_ok :
    (key value : Bytes)
    → all_others 13 key ≡ true
    → all_others 58 key ≡ true
    → trim key ≡ key
    → Without 13 value
    → trim value ≡ value
    → Field key value
line_ok key value h k t w v = record {
  key_line = others-Without 13 key h;
  key_colon = others-Without 58 key k;
  value_line = w;
  key_trimmed = t;
  value_trimmed = v;
}

fields-Field : (accept : Bytes) → All Visible accept → All (λ f. Field f.0 f.1) (fields accept)
unfolding trim
fields-Field accept h = (
  line_ok upgrade_key upgrade_value refl refl refl (others-Without 13 upgrade_value refl) refl,
  (
    line_ok server_key server_value refl refl refl (others-Without 13 server_value refl) refl,
    (
      line_ok connection_key upgrade_key refl refl refl (others-Without 13 upgrade_key refl) refl,
      (
        line_ok accept_key accept refl refl refl (Visible-Without 13 accept (omega arith) h)
            (trim-Visible accept h),
        tt,
      ),
    ),
  ),
)

-- All flags are set if the accept value is the expected one.
all_flags :
    (same : Bool)
    → let flags : ResponseFlags =
        if same
        then record { upgrade = true; connection = true; accept = true }
        else record { upgrade = true; connection = true; accept = false } in
      (flags.upgrade && (flags.connection && flags.accept)) ≡ same
all_flags true = refl
all_flags false = refl

-- The client's check of the response that the server writes for a key, taken up to the empty
-- line, succeeds exactly if the accept value of that key is the one that the client expects,
-- whatever key and expected value are.
pub check_ws_response-accepted_response :
    (key expected : Bytes)
    → check_ws_response expected (split (accepted_response key) (crlf ++ crlf)).0
      ≡ same_text (calculate_ws_accept key) expected
unfolding check_ws_response accepted_response icmp
check_ws_response-accepted_response key expected =
    let accept = calculate_ws_accept key in
    let visible = accept-Visible key in
    let none : ResponseFlags = record { upgrade = false; connection = false; accept = false } in
    ap (check_ws_response expected)
      (header_part accept (Visible-Without 13 accept (omega arith) visible))
    ∙ ap (λ x. icmp x.0 expected_status && (x.1.upgrade && (x.1.connection && x.1.accept)))
        (parse_http_header-write_lines (check_field expected) status (fields accept) none
          (others-Without 13 status refl) (fields-Field accept visible))
    ∙ all_flags (same_text accept expected)
