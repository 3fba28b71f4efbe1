-- ===== src/WebSocket/Parser/Payload.antt =====
-- The parser over the payload of a frame, masked and not.
use zerobus.Prelude.{
  ℕ, zero, suc, ◌+◌, ◌<◌, ◌≡◌, refl, sym, ap, ◌∙◌, bit_and, bit_xor, Bool, true, false, not, ◌&&◌,
  List, [], ◌∷◌, ◌++◌, append_assoc, append-nil, arith, length, update,
}
use zerobus.Prelude.Bits.{bit_xor_twice}
use zerobus.WebSocket.Frame.{FrameType}
use zerobus.WebSocket.Parser.{
  Parser, State, push_data, step, is_complete, reset_state, finalized, enter_payload,
}
use zerobus.WebSocket.Builder.{apply_mask}

-- What push_data does once a frame has ended, and after a round of the loop.
abbrev pub finish : List ℕ → Parser → Bool × Parser
finish rest q = elim (not q.fin && q.need_fragmented) [
  | true ↦ push_data (reset_state (finalized rest q)) rest
  | false ↦ (true, finalized rest q)
]

abbrev pub go_on : List ℕ → Bool × Parser → Bool × Parser
go_on rest (true, q) = finish rest q
go_on rest (false, q) = push_data q rest

abbrev turn : List ℕ → Bool × Parser → Bool × Parser
turn rest r = elim r.0 [ false ↦ push_data r.1 rest | true ↦ finish rest r.1 ]

turned : (rest : List ℕ) (r : Bool × Parser) → turn rest r ≡ go_on rest r
turned rest (true, q) = refl
turned rest (false, q) = refl

pub push_step :
    (p : Parser) (c : ℕ) (rest : List ℕ)
    → is_complete p ≡ false
    → push_data p (c ∷ rest) ≡ go_on rest (step c p)
unfolding push_data
push_step p c rest e = rw (e, push_data) (turned rest (step c p))

-- A frame was read: the parser came to its end with this payload behind what it had before.
pub record Ends (p : Parser) (fin : Bool) (type : ℕ) (body rest : List ℕ) (r : Bool × Parser)
    : Type 0 where
  pub last : Parser
  pub result : r ≡ finish rest last
  pub cur_message : last.cur_message ≡ p.cur_message ++ body
  pub fin_read : last.fin ≡ fin
  pub type_read : last.type ≡ type
  pub same_mode : last.need_fragmented ≡ p.need_fragmented
  pub same_type : last.final_type ≡ p.final_type

module _ (plen : ℕ) (need fin masked : Bool) (type : ℕ) (key : ℕ → ℕ) (ft : FrameType) where
  -- The parser inside a payload.
  abbrev pub reading : ℕ → ℕ → List ℕ → Parser
  reading n k cur = record {
    state_len = n;
    payload_len = plen;
    mask_cntr = k;
    cur_message = cur;
    need_fragmented = need;
    fin = fin;
    masked = masked;
    state = State.payload;
    type = type;
    masking = key;
    unused_data = [];
    final_type = ft;
  }

  last_index : ℕ → List ℕ → ℕ
  last_index k [] = k
  last_index k (x ∷ xs) = last_index (bit_and (k + 1) 0x3) xs

  payload_run :
      (k : ℕ) (cur : List ℕ) (x : ℕ) (xs rest : List ℕ)
      → push_data (reading (suc (length xs)) k cur) (apply_mask key k (x ∷ xs) ++ rest)
        ≡ finish rest (reading 0 (last_index k (x ∷ xs)) (cur ++ (x ∷ xs)))
  unfolding apply_mask last_index
  payload_run k cur x [] rest =
      push_step (reading 1 k cur) (bit_xor x (key k)) rest refl
      ∙ ap (λ c. finish rest (reading 0 (bit_and (k + 1) 0x3) (cur ++ (c ∷ []))))
          (bit_xor_twice x (key k))
  payload_run k cur x (y ∷ ys) rest =
      push_step (reading (suc (suc (length ys))) k cur) (bit_xor x (key k))
        (apply_mask key (bit_and (k + 1) 0x3) (y ∷ ys) ++ rest) refl
      ∙ ap
          (λ c.
            push_data (reading (suc (length ys)) (bit_and (k + 1) 0x3) (cur ++ (c ∷ [])))
              (apply_mask key (bit_and (k + 1) 0x3) (y ∷ ys) ++ rest))
          (bit_xor_twice x (key k))
      ∙ payload_run (bit_and (k + 1) 0x3) (cur ++ (x ∷ [])) y ys rest
      ∙ ap (λ m. finish rest (reading 0 (last_index k (x ∷ y ∷ ys)) m))
          (append_assoc cur (x ∷ []) (y ∷ ys))

  -- The payload from its first byte on.
  pub payload-Ends :
      (p : Parser) (k : ℕ) (x : ℕ) (xs rest : List ℕ)
      → p.need_fragmented ≡ need
      → p.final_type ≡ ft
      → Ends p fin type (x ∷ xs) rest (
          push_data (reading (suc (length xs)) k p.cur_message) (apply_mask key k (x ∷ xs) ++ rest))
  payload-Ends p k x xs rest same_mode same_type = record {
    last = reading 0 (last_index k (x ∷ xs)) (p.cur_message ++ (x ∷ xs));
    result = payload_run k p.cur_message x xs rest;
    cur_message = refl;
    fin_read = refl;
    type_read = refl;
    same_mode = sym same_mode;
    same_type = sym same_type;
  }

next_index : (k : ℕ) → k < 4 → bit_and (k + 1) 0x3 < 4
next_index zero h = omega arith
next_index (suc zero) h = omega arith
next_index (suc (suc zero)) h = omega arith
next_index (suc (suc (suc zero))) h = omega arith
next_index (suc (suc (suc (suc k)))) h = absurd (omega (arith, h))

-- Only the places of the key below 4 matter.
apply_mask-ext :
    (f g : ℕ → ℕ) (k : ℕ) (xs : List ℕ)
    → k < 4
    → ((i : ℕ) → i < 4 → f i ≡ g i)
    → apply_mask f k xs ≡ apply_mask g k xs
unfolding apply_mask
apply_mask-ext f g k [] h e = refl
apply_mask-ext f g k (x ∷ xs) h e =
    rw (e k h)
      (ap (◌∷◌ (bit_xor x (g k))) (apply_mask-ext f g (bit_and (k + 1) 0x3) xs (next_index k h) e))

-- A key of zeros leaves every place the same.
apply_mask-const : (k j : ℕ) (xs : List ℕ) → apply_mask (λ i. 0) k xs ≡ apply_mask (λ i. 0) j xs
unfolding apply_mask
apply_mask-const k j [] = refl
apply_mask-const k j (x ∷ xs) =
    ap (◌∷◌ (bit_xor x 0)) (apply_mask-const (bit_and (k + 1) 0x3) (bit_and (j + 1) 0x3) xs)

module _ (p : Parser) (plen n : ℕ) (fin : Bool) (type : ℕ) (state : State) where
  -- The parser with the head of a frame read, as far as the length.
  abbrev pub headed : Bool → Parser
  headed masked = record p {
    state_len = n;
    payload_len = plen;
    fin = fin;
    masked = masked;
    state = state;
    type = type;
    masking = λ i. 0;
    unused_data = [];
  }

  -- A frame with no mask.
  pub unmasked-Ends :
      (body rest : List ℕ)
      → Ends p fin type body rest
          (go_on (apply_mask (λ i. 0) 0 body ++ rest) (enter_payload (length body) (headed false)))
  unmasked-Ends [] rest = record {
    last = headed false;
    result = unfold apply_mask in refl;
    cur_message = sym (append-nil p.cur_message);
    fin_read = refl;
    type_read = refl;
    same_mode = refl;
    same_type = refl;
  }
  unmasked-Ends (x ∷ xs) rest = rw (apply_mask-const 0 p.mask_cntr (x ∷ xs)) (
      payload-Ends plen p.need_fragmented fin false type (λ i. 0) p.final_type p p.mask_cntr x xs
        rest refl refl)

module _ (p : Parser) (fin : Bool) (type : ℕ) (key : ℕ → ℕ) where
  stored : ℕ → ℕ
  stored = update (update (update (update (λ i. 0) 0 (key 0)) 1 (key 1)) 2 (key 2)) 3 (key 3)

  stored-key : (i : ℕ) → i < 4 → key i ≡ stored i
  unfolding stored
  stored-key zero h = refl
  stored-key (suc zero) h = refl
  stored-key (suc (suc zero)) h = refl
  stored-key (suc (suc (suc zero))) h = refl
  stored-key (suc (suc (suc (suc i)))) h = absurd (omega (arith, h))

  -- A frame with a mask: its key, and the masked payload.
  pub masked-Ends :
      (body rest : List ℕ)
      → Ends p fin type body rest (
          push_data
            (headed p (length body) 4 fin type State.masking true)
            (key 0 ∷ key 1 ∷ key 2 ∷ key 3 ∷ apply_mask key 0 body ++ rest))
  unfolding push_data stored
  masked-Ends [] rest = record {
    last = record (headed p 0 0 fin type State.masking true) { masking = stored };
    result = unfold apply_mask stored in refl;
    cur_message = sym (append-nil p.cur_message);
    fin_read = refl;
    type_read = refl;
    same_mode = refl;
    same_type = refl;
  }
  masked-Ends (x ∷ xs) rest = rw (apply_mask-ext key stored 0 (x ∷ xs) (omega arith) stored-key) (
      payload-Ends (length (x ∷ xs)) p.need_fragmented fin true type stored p.final_type p 0 x xs
        rest refl refl)
