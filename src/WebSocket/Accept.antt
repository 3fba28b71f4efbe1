-- ===== src/WebSocket/Accept.antt =====
-- base64_encode and calculate_ws_accept of src/zerobus/websocket.cpp.
use zerobus.Prelude.{
  ℕ, zero, suc, ◌+◌, ◌-◌, ◌*◌, ◌/◌, ◌%◌, ◌^◌, bit_and, List, [], ◌∷◌, ◌++◌, ltb, ◌==◌,
  if◌then◌else◌, length,
}
use zerobus.WebSocket.Sha1.{new_sha1, sha1_update, sha1_final}

-- base64_encode: a character is a number. `bits` is `valb + 6`, the count of bits of val that
-- are still to be written; an int is a number below 2 ^ 32, since only its lower bits are read.
abbrev pub base64_char : ℕ → ℕ
base64_char n =
    if ltb n 26
    then 65 + n
    else if ltb n 52
    then 97 + (n - 26)
    else if ltb n 62
    then 48 + (n - 52)
    else if n == 62
    then 43
    else 47

-- `while (valb >= 0)`, with the bits that are left. Fewer than fourteen bits take two rounds.
unfoldable pub emit_chars : ℕ → ℕ → ℕ → (List ℕ) × ℕ
emit_chars zero val bits = ([], bits)
emit_chars (suc rounds) val bits =
    if ltb bits 6
    then ([], bits)
    else let (cs, left) = emit_chars rounds val (bits - 6) in
      (base64_char (bit_and (val / 2 ^ (bits - 6)) 0x3F) ∷ cs, left)

unfoldable pub encode_loop : List ℕ → ℕ → ℕ → List ℕ
encode_loop [] val bits =
    if ltb 0 bits
    then base64_char (bit_and (val * 2 ^ 8 % 2 ^ 32 / 2 ^ (bits + 2)) 0x3F) ∷ []
    else []
encode_loop (c ∷ input) val bits =
    let v = (val * 2 ^ 8 % 2 ^ 32 + c) % 2 ^ 32 in
    let (cs, left) = emit_chars 2 v (bits + 8) in cs ++ encode_loop input v left

-- `while (encoded.size() % 4)`, which ends within three rounds.
abbrev pub pad : ℕ → List ℕ → List ℕ
pad zero encoded = encoded
pad (suc rounds) encoded =
    if length encoded % 4 == 0 then encoded else pad rounds (encoded ++ (61 ∷ []))

unfoldable pub base64_encode : List ℕ → List ℕ
base64_encode input = pad 3 (encode_loop input 0 0)

-- "258EAFA5-E914-47DA-95CA-C5AB0DC85B11"
abbrev pub accept_guid : List ℕ
accept_guid =
    50 ∷ 53 ∷ 56 ∷ 69 ∷ 65 ∷ 70 ∷ 65 ∷ 53 ∷ 45 ∷ 69 ∷ 57 ∷ 49 ∷ 52 ∷ 45 ∷ 52 ∷ 55 ∷ 68 ∷ 65 ∷ 45
    ∷ 57 ∷ 53 ∷ 67 ∷ 65 ∷ 45 ∷ 67 ∷ 53 ∷ 65 ∷ 66 ∷ 48 ∷ 68 ∷ 67 ∷ 56 ∷ 53 ∷ 66 ∷ 49 ∷ 49 ∷ []

unfoldable pub calculate_ws_accept : List ℕ → List ℕ
calculate_ws_accept key =
    base64_encode (sha1_final (sha1_update (sha1_update new_sha1 key) accept_guid))
