-- ===== src/WebSocket/RoundTrip.antt =====
-- What Parser makes of the frames that Builder writes.
use zerobus.Prelude.{
  ℕ, ◌^◌, ◌<◌, ◌≡◌, refl, sym, ap, ◌∙◌, Bool, true, false, List, ◌∷◌, ◌++◌, append_assoc, length,
  inl, inr,
}
use mathlib.Core.Path.{subst}
use mathlib.Core.Path.{ap₂}
use zerobus.WebSocket.Parser.{Parser, State, push_data, reset_state}
use zerobus.WebSocket.Parser.Payload.{push_step, headed, Ends, unmasked-Ends, masked-Ends}
use zerobus.WebSocket.Parser.Header.{opcode_lem, any_length}
use zerobus.WebSocket.Builder.{first_byte_of, length_bytes, apply_mask, server_frame, client_frame}

-- The first byte of a frame.
first_step :
    (p : Parser) (fin : Bool) (op : ℕ) (rest : List ℕ)
    → op < 16
    → push_data (reset_state p) (first_byte_of fin op ∷ rest)
      ≡ push_data (headed p 0 0 fin op State.second_byte false) rest
unfolding reset_state
first_step p fin op rest h =
    let r = opcode_lem fin op h in
    push_step (reset_state p) (first_byte_of fin op) rest refl
    ∙ ap₂ (λ f t. push_data (headed p 0 0 f t State.second_byte false) rest) r.0 r.1

module _ (p : Parser) (fin : Bool) (op : ℕ) (h : op < 16) (body rest : List ℕ)
    (hl : length body < 2 ^ 64) where
  abbrev first : ℕ
  first = first_byte_of fin op

  pub server_frame-Ends :
      Ends p fin op body rest (push_data (reset_state p) (server_frame first body ++ rest))
  unfolding server_frame
  server_frame-Ends =
      let tail = apply_mask (λ i. 0) 0 body ++ rest in
      let start =
        first_step p fin op ((length_bytes 0 (length body) ++ apply_mask (λ i. 0) 0 body) ++ rest) h
        ∙ ap (push_data (headed p 0 0 fin op State.second_byte false))
            (append_assoc (length_bytes 0 (length body)) (apply_mask (λ i. 0) 0 body) rest) in
      elim (any_length p fin op false (length body) tail hl) [
        | inl e ↦
            subst (Ends p fin op body rest) (sym (start ∙ e))
              (unmasked-Ends p 0 0 fin op State.second_byte body rest)
        | inr e ↦
            subst (Ends p fin op body rest) (sym (start ∙ e))
              (unmasked-Ends p (length body) 0 fin op State.payload_len body rest)
      ]

  pub client_frame-Ends :
      (key : ℕ → ℕ)
      → Ends p fin op body rest (push_data (reset_state p) (client_frame first key body ++ rest))
  unfolding client_frame
  client_frame-Ends key =
      let masked = key 0 ∷ key 1 ∷ key 2 ∷ key 3 ∷ apply_mask key 0 body in
      let start =
        first_step p fin op ((length_bytes 0x80 (length body) ++ masked) ++ rest) h
        ∙ ap (push_data (headed p 0 0 fin op State.second_byte false))
            (append_assoc (length_bytes 0x80 (length body)) masked rest) in
      elim (any_length p fin op true (length body) (masked ++ rest) hl) [
        | inl e ↦
            subst (Ends p fin op body rest) (sym (start ∙ e)) (masked-Ends p fin op key body rest)
        | inr e ↦
            subst (Ends p fin op body rest) (sym (start ∙ e)) (masked-Ends p fin op key body rest)
      ]
