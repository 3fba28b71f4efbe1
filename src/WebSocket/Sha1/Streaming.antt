-- ===== src/WebSocket/Sha1/Streaming.antt =====
-- The loop of SHA1::update in src/zerobus/websocket.cpp next to a reference that takes one byte
-- after the other.
use zerobus.Prelude.{
  ℕ, zero, suc, ◌+◌, ◌-◌, ◌≤◌, ◌<◌, ◌≡◌, refl, sym, ap, ◌∙◌, true, false, List, [], ◌∷◌, ◌++◌,
  append_assoc, append-nil, arith, length, length-append, take, drop, take_all, take_append_drop,
  length-take, length-drop, ◌==◌, if◌then◌else◌, inl, inr, Bool-cases,
}
use native.Mathlib.Decide.{dec_lt}
use zerobus.WebSocket.Sha1.{Sha1, block_bytes, absorb_block, update_loop, sha1_update}

-- The reference: one byte after the other.
unfoldable feed : Sha1 → ℕ → Sha1
feed h x =
    let filled = record h { buffer = h.buffer ++ (x ∷ []) } in
    if length filled.buffer == block_bytes then absorb_block filled else filled

feeds : Sha1 → List ℕ → Sha1
feeds h [] = h
feeds h (x ∷ xs) = feeds (feed h x) xs

feeds-append : (h : Sha1) (xs ys : List ℕ) → feeds h (xs ++ ys) ≡ feeds (feeds h xs) ys
unfolding feeds
feeds-append h [] ys = refl
feeds-append h (x ∷ xs) ys = feeds-append (feed h x) xs ys

length_one_more : (xs : List ℕ) (x : ℕ) → length (xs ++ (x ∷ [])) ≡ suc (length xs)
length_one_more xs x = length-append xs (x ∷ []) ∙ omega arith

-- Bytes that do not fill the buffer.
feeds_short :
    (h : Sha1) (xs : List ℕ)
    → length h.buffer + length xs < block_bytes
    → feeds h xs ≡ record h { buffer = h.buffer ++ xs }
unfolding feeds feed
feeds_short h [] lt = ap (λ b. record h { buffer = b }) (sym (append-nil h.buffer))
feeds_short h (x ∷ xs) lt =
    let e : (length (h.buffer ++ (x ∷ [])) == block_bytes) ≡ false =
      rw (length_one_more h.buffer x) (ground arith) in
    rw (e, feed)
      (feeds_short (record h { buffer = h.buffer ++ (x ∷ []) }) xs
          (rw (length_one_more h.buffer x) (omega arith))
        ∙ ap (λ b. record h { buffer = b }) (append_assoc h.buffer (x ∷ []) xs))

-- Bytes that fill it.
feeds_full :
    (h : Sha1) (x : ℕ) (xs : List ℕ)
    → length h.buffer + length (x ∷ xs) ≡ block_bytes
    → feeds h (x ∷ xs) ≡ absorb_block (record h { buffer = h.buffer ++ (x ∷ xs) })
unfolding feeds feed
feeds_full h x [] full =
    let e : (length (h.buffer ++ (x ∷ [])) == block_bytes) ≡ true =
      rw (length_one_more h.buffer x) (ground arith) in
    rw (e, feed) refl
feeds_full h x (y ∷ ys) full =
    let e : (length (h.buffer ++ (x ∷ [])) == block_bytes) ≡ false =
      rw (length_one_more h.buffer x) (ground arith) in
    rw (e, feed)
      (feeds_full (record h { buffer = h.buffer ++ (x ∷ []) }) y ys
          (rw (length_one_more h.buffer x) (omega arith))
        ∙ ap (λ b. absorb_block (record h { buffer = b }))
            (append_assoc h.buffer (x ∷ []) (y ∷ ys)))

-- A round of the loop of update.
update_loop-feeds :
    (rounds : ℕ) (h : Sha1) (xs : List ℕ)
    → length h.buffer < block_bytes
    → length xs ≤ rounds
    → update_loop rounds h xs ≡ feeds h xs
unfolding update_loop feeds
update_loop-feeds rounds h [] lt enough = refl
update_loop-feeds zero h (x ∷ xs) lt enough = absurd (omega (arith, enough))
update_loop-feeds (suc rounds) h (x ∷ xs) lt enough =
    let m = 63 - length h.buffer in
    let room : 64 - length h.buffer ≡ suc m = omega arith in
    elim (dec_lt (length xs) m) [
      | yes few ↦
          let same : take (64 - length h.buffer) (x ∷ xs) ≡ x ∷ xs =
            take_all _ (x ∷ xs) (omega arith) in
          let e : (length (h.buffer ++ (x ∷ xs)) == block_bytes) ≡ false =
            rw (length-append h.buffer (x ∷ xs)) (ground arith) in
          rw (same, e, update_loop)
            (ap (λ t. record h { buffer = h.buffer ++ t }) same
              ∙ sym (feeds_short h (x ∷ xs) (omega arith)))
      | no many ↦
          let n : length (take m xs) ≡ m = length-take m xs (omega arith) in
          let e : (length (h.buffer ++ (x ∷ take m xs)) == block_bytes) ≡ true =
            rw (length-append h.buffer (x ∷ take m xs)) (ground (arith, n)) in
          let full = absorb_block (record h { buffer = h.buffer ++ (x ∷ take m xs) }) in
          rw (room, e, update_loop)
            (ap
                (λ k.
                  let sbuf = take k (x ∷ xs) in
                  update_loop rounds (absorb_block (record h { buffer = h.buffer ++ sbuf }))
                    (drop (length sbuf) (x ∷ xs)))
                room
              ∙ ap (λ k. update_loop rounds full (drop k xs)) n
              ∙ update_loop-feeds rounds full (drop m xs) (omega arith)
                  (omega (arith, length-drop m xs))
              ∙ ap (λ g. feeds g (drop m xs)) (sym (feeds_full h x (take m xs) (omega (arith, n))))
              ∙ sym (feeds-append h (x ∷ take m xs) (drop m xs))
              ∙ ap (λ t. feeds h (x ∷ t)) (take_append_drop m xs))
    ]

feed_room :
    (h : Sha1) (x : ℕ) → length h.buffer < block_bytes → length (feed h x).buffer < block_bytes
unfolding feed
feed_room h x lt = elim (Bool-cases (length (h.buffer ++ (x ∷ [])) == block_bytes)) [
  | inl e ↦ rw (e, feed) (omega arith)
  | inr e ↦ rw (e, feed) (ground (arith, length_one_more h.buffer x))
]

feeds_room :
    (h : Sha1) (xs : List ℕ)
    → length h.buffer < block_bytes
    → length (feeds h xs).buffer < block_bytes
unfolding feeds
feeds_room h [] lt = lt
feeds_room h (x ∷ xs) lt = feeds_room (feed h x) xs (feed_room h x lt)

-- With a buffer that is not full, two calls of SHA1's update leave the same state as one call
-- with the joined input, whatever the blocks that its loop cuts from them.
pub sha1_update-append :
    (h : Sha1) (xs ys : List ℕ)
    → length h.buffer < block_bytes
    → sha1_update (sha1_update h xs) ys ≡ sha1_update h (xs ++ ys)
sha1_update-append h xs ys lt =
    ap (λ g. sha1_update g ys) (update_loop-feeds (length xs) h xs lt (omega arith))
    ∙ update_loop-feeds (length ys) (feeds h xs) ys (feeds_room h xs lt) (omega arith)
    ∙ sym (feeds-append h xs ys)
    ∙ sym (update_loop-feeds (length (xs ++ ys)) h (xs ++ ys) lt (omega arith))
