-- ===== src/WebSocket/Sha1.antt =====
-- class SHA1 of src/zerobus/websocket.cpp. A word is a number below 2 ^ 32, and a block a list of
-- sixteen of them. The rounds of transform are a loop here: the source passes the working
-- variables to each round with their names moved on by one place.
pub mod Streaming
use zerobus.Prelude.{
  ℕ, zero, suc, ◌+◌, ◌-◌, ◌*◌, ◌/◌, ◌%◌, ◌^◌, bit_and, bit_or, bit_xor, true, false, List, [], ◌∷◌,
  ◌++◌, ltb, ◌==◌, if◌then◌else◌, length, take, drop,
}

-- `digest[5]`, and the working variables of transform.
pub record Words : Type 0 where
  pub a : ℕ
  pub b : ℕ
  pub c : ℕ
  pub d : ℕ
  pub e : ℕ

pub record Sha1 : Type 0 where
  pub digest : Words
  pub buffer : List ℕ
  pub transforms : ℕ

abbrev pub block_bytes : ℕ
block_bytes = 64

-- SHA1::SHA1, with reset.
abbrev pub new_sha1 : Sha1
new_sha1 = record {
  digest = record {
    a = 0x67452301;
    b = 0xefcdab89;
    c = 0x98badcfe;
    d = 0x10325476;
    e = 0xc3d2e1f0;
  };
  buffer = [];
  transforms = 0;
}

unfoldable pub rol : ℕ → ℕ → ℕ
rol value bits = bit_or (value * 2 ^ bits % 2 ^ 32) (value / 2 ^ (32 - bits))

abbrev word_at : List ℕ → ℕ → ℕ
word_at [] i = 0
word_at (w ∷ ws) zero = w
word_at (w ∷ ws) (suc i) = word_at ws i

abbrev set_word : List ℕ → ℕ → ℕ → List ℕ
set_word [] i v = []
set_word (w ∷ ws) zero v = v ∷ ws
set_word (w ∷ ws) (suc i) v = w ∷ set_word ws i v

unfoldable pub blk : List ℕ → ℕ → ℕ
blk block i =
    rol
      (bit_xor
        (bit_xor
          (bit_xor (word_at block (bit_and (i + 13) 15)) (word_at block (bit_and (i + 8) 15)))
          (word_at block (bit_and (i + 2) 15)))
        (word_at block i))
      1

-- What each of the operations mixes, and its constant.
unfoldable pub mix_choose : ℕ → ℕ → ℕ → ℕ
mix_choose w x y = bit_xor (bit_and w (bit_xor x y)) y

unfoldable pub mix_parity : ℕ → ℕ → ℕ → ℕ
mix_parity w x y = bit_xor (bit_xor w x) y

unfoldable pub mix_majority : ℕ → ℕ → ℕ → ℕ
mix_majority w x y = bit_or (bit_and (bit_or w x) y) (bit_and w x)

-- The part that R0 to R4 have in common, with the names moved on for the next round: z comes
-- first, and w is rotated.
unfoldable pub mix : (ℕ → ℕ → ℕ → ℕ) → ℕ → ℕ → Words → Words
mix f k word r = record {
  a = (r.e + (f r.b r.c r.d + word + k + rol r.a 5)) % 2 ^ 32;
  b = r.a;
  c = rol r.b 30;
  d = r.c;
  e = r.d;
}

-- The operation of round n, of eighty.
unfoldable pub operation : ℕ → ℕ → Words → Words
operation n word =
    if ltb n 20
    then mix mix_choose 0x5a827999 word
    else if ltb n 40
    then mix mix_parity 0x6ed9eba1 word
    else if ltb n 60
    then mix mix_majority 0x8f1bbcdc word
    else mix mix_parity 0xca62c1d6 word

-- From the sixteenth round on the block changes.
unfoldable pub schedule : ℕ → List ℕ → List ℕ
schedule n block = let i = n % 16 in if ltb n 16 then block else set_word block i (blk block i)

unfoldable pub run_rounds : ℕ → ℕ → List ℕ → Words → Words
run_rounds zero n block r = r
run_rounds (suc left) n block r =
    let next = schedule n block in
    run_rounds left (n + 1) next (operation n (word_at next (n % 16)) r)

unfoldable pub transform : List ℕ → Sha1 → Sha1
transform block h =
    let r = run_rounds 80 0 block h.digest in
    record h {
      digest = record {
        a = (h.digest.a + r.a) % 2 ^ 32;
        b = (h.digest.b + r.b) % 2 ^ 32;
        c = (h.digest.c + r.c) % 2 ^ 32;
        d = (h.digest.d + r.d) % 2 ^ 32;
        e = (h.digest.e + r.e) % 2 ^ 32;
      };
      transforms = (h.transforms + 1) % 2 ^ 64;
    }

-- buffer_to_block, four bytes to a word.
unfoldable pub buffer_to_block : List ℕ → List ℕ
buffer_to_block (p ∷ q ∷ r ∷ s ∷ buffer) =
    bit_or (bit_or (bit_or s (r * 2 ^ 8)) (q * 2 ^ 16)) (p * 2 ^ 24) ∷ buffer_to_block buffer
buffer_to_block buffer = []

-- A full buffer is transformed and cleared.
abbrev pub absorb_block : Sha1 → Sha1
absorb_block h = record (transform (buffer_to_block h.buffer) h) { buffer = [] }

-- The loop of update. The buffer is never full at the start of a round, so a round for each byte
-- is enough.
unfoldable pub update_loop : ℕ → Sha1 → List ℕ → Sha1
update_loop rounds h [] = h
update_loop zero h (x ∷ xs) = h
update_loop (suc rounds) h (x ∷ xs) =
    let sbuf = take (block_bytes - length h.buffer) (x ∷ xs) in
    let filled = record h { buffer = h.buffer ++ sbuf } in
    elim (length filled.buffer == block_bytes) [
      | false ↦ filled
      | true ↦ update_loop rounds (absorb_block filled) (drop (length sbuf) (x ∷ xs))
    ]

abbrev pub sha1_update : Sha1 → List ℕ → Sha1
sha1_update h input = update_loop (length input) h input

unfoldable pub zeros : ℕ → List ℕ
zeros zero = []
zeros (suc n) = 0 ∷ zeros n

abbrev pub word_bytes : ℕ → List ℕ
word_bytes d = (d / 2 ^ 24 % 256) ∷ (d / 2 ^ 16 % 256) ∷ (d / 2 ^ 8 % 256) ∷ (d % 256) ∷ []

-- SHA1::final.
unfoldable pub sha1_final : Sha1 → List ℕ
sha1_final h =
    let total_bits = (h.transforms * block_bytes + length h.buffer) * 8 % 2 ^ 64 in
    let marked = h.buffer ++ (0x80 ∷ []) in
    let block = buffer_to_block (marked ++ zeros (block_bytes - length marked)) in
    let long = ltb (block_bytes - 8) (length marked) in
    let h1 = if long then transform block h else h in
    let kept = if long then zeros 14 else take 14 block in
    let h2 = transform (kept ++ ((total_bits / 2 ^ 32 % 2 ^ 32) ∷ (total_bits % 2 ^ 32) ∷ [])) h1 in
    let r = h2.digest in
    word_bytes r.a ++ word_bytes r.b ++ word_bytes r.c ++ word_bytes r.d ++ word_bytes r.e
