-- ===== src/WebSocket/Tests.antt =====
-- Frames at concrete inputs.
use zerobus.Prelude.{ℕ, List, ◌≡◌, refl, ◌%◌, ◌*◌, true, false, [], ◌∷◌, ◌++◌, arith}
use zerobus.WebSocket.Frame.{Frame, conn_close}
use zerobus.WebSocket.Parser.{new_parser, reset, reset_state, push_data, get_message}
use zerobus.WebSocket.Parser.Pieces.{push_data-append}
use zerobus.WebSocket.Builder.{Builder, new_builder, build, wire_payload, type_opcode}
use zerobus.WebSocket.Sha1.{
  new_sha1, sha1_update, sha1_final, update_loop, transform, buffer_to_block, run_rounds, schedule,
  operation, mix, mix_choose, mix_parity, mix_majority, blk, rol, zeros,
}
use zerobus.WebSocket.Sha1.Streaming.{sha1_update-append}
use zerobus.WebSocket.Accept.{calculate_ws_accept, base64_encode, encode_loop, emit_chars}
use zerobus.WebSocket.Messages.{seen, push_data-build}
use zerobus.WebSocket.Fragments.{data_type, fragments, build_all, join, push_data-fragments}

abbrev client : Builder
client = new_builder true (λ i. i * 37 % 256)

abbrev bye : Frame
bye = record { payload = 98 ∷ 121 ∷ []; type = conn_close; code = 1000; fin = true }

push_data-build_example :
    let (ok, out, sent) = build bye client in
    let (done, q) = push_data (reset (new_parser false)) (out ++ (1 ∷ [])) in
    (ok ≡ true) × (done ≡ true) × (q.unused_data ≡ 1 ∷ []) × (get_message q ≡ seen bye)
unfolding type_opcode wire_payload
push_data-build_example =
    push_data-build bye client (new_parser false) 8 (1 ∷ []) refl refl refl (omega arith)
      (omega arith)

push_data-fragments_example :
    let (done, q) =
      push_data
        (reset (new_parser true))
        (build_all (fragments (data_type true) (104 ∷ []) ((105 ∷ []) ∷ [])) client ++ (1 ∷ [])) in
    (done ≡ true)
    × (q.unused_data ≡ 1 ∷ [])
    × ((get_message q).payload ≡ join (104 ∷ []) ((105 ∷ []) ∷ []))
    × ((get_message q).type ≡ data_type true)
    × ((get_message q).fin ≡ true)
push_data-fragments_example =
    push_data-fragments true (104 ∷ []) ((105 ∷ []) ∷ []) client (new_parser true) (1 ∷ []) refl
      refl (omega arith) (omega arith, tt)

sha1_update-append_example :
    sha1_update (sha1_update new_sha1 (1 ∷ 2 ∷ [])) (3 ∷ [])
    ≡ sha1_update new_sha1 ((1 ∷ 2 ∷ []) ++ (3 ∷ []))
sha1_update-append_example = sha1_update-append new_sha1 (1 ∷ 2 ∷ []) (3 ∷ []) (omega arith)

-- The key and the answer that RFC 6455 has as its example: "dGhlIHNhbXBsZSBub25jZQ==" and
-- "s3pPLMBiTxaQ9kYGzzhZRbK+xOo=".
abbrev sample_key : List ℕ
sample_key =
    100 ∷ 71 ∷ 104 ∷ 108 ∷ 73 ∷ 72 ∷ 78 ∷ 104 ∷ 98 ∷ 88 ∷ 66 ∷ 115 ∷ 90 ∷ 83 ∷ 66 ∷ 117 ∷ 98 ∷ 50
    ∷ 53 ∷ 106 ∷ 90 ∷ 81 ∷ 61 ∷ 61 ∷ []

accept_sample :
    calculate_ws_accept sample_key
    ≡ 115 ∷ 51 ∷ 112 ∷ 80 ∷ 76 ∷ 77 ∷ 66 ∷ 105 ∷ 84 ∷ 120 ∷ 97 ∷ 81 ∷ 57 ∷ 107 ∷ 89 ∷ 71 ∷ 122 ∷ 122
      ∷ 104 ∷ 90 ∷ 82 ∷ 98 ∷ 75 ∷ 43 ∷ 120 ∷ 79 ∷ 111 ∷ 61 ∷ []
unfolding calculate_ws_accept base64_encode encode_loop emit_chars sha1_final update_loop transform
    buffer_to_block run_rounds schedule operation mix mix_choose mix_parity mix_majority blk rol
    zeros
accept_sample = refl

push_data-append_example :
    let p = reset (new_parser false) in
    push_data p ((0x82 ∷ 2 ∷ []) ++ (7 ∷ 8 ∷ 9 ∷ []))
    ≡ push_data (push_data p (0x82 ∷ 2 ∷ [])).1 (7 ∷ 8 ∷ 9 ∷ [])
unfolding push_data reset reset_state
push_data-append_example =
    push_data-append (reset (new_parser false)) (0x82 ∷ 2 ∷ []) (7 ∷ 8 ∷ 9 ∷ []) refl
