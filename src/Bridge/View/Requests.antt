-- ===== src/Bridge/View/Requests.antt =====
-- Calls of send_mine_channels from several threads (src/zerobus/bridge.cpp): what the thread that
-- sends reads off the lock's counter.
use zerobus.Prelude.{
  ℕ, ◌+◌, ◌*◌, ◌/◌, ◌%◌, ◌^◌, ◌≤◌, ◌<◌, ◌≡◌, ap, ◌∙◌, Bool, true, false, List, [], ◌∷◌, arith,
  if◌then◌else◌, ltb, length,
}
use mathlib.Core.Path.{ap₂}
use zerobus.Prelude.Masks.{bit_and-ones}
use zerobus.Bridge.Channels.{fetch_add, asked_again, reset_flag}

-- The counter after the requests, with or without reset, one after the other.
abbrev pub lock_after : ℕ → List Bool → ℕ
lock_after lock [] = lock
lock_after lock (reset ∷ requests) = lock_after (fetch_add reset lock) requests

abbrev pub resets : List Bool → ℕ
resets [] = 0
resets (reset ∷ requests) = (if reset then 1 else 0) + resets requests

resets-le : (requests : List Bool) → resets requests ≤ length requests
resets-le [] = omega arith
resets-le (true ∷ requests) = omega (arith, resets-le requests)
resets-le (false ∷ requests) = omega (arith, resets-le requests)

lock_after_lem :
    (lock : ℕ) (requests : List Bool)
    → lock + length requests + 1024 * resets requests < 2 ^ 32
    → lock_after lock requests ≡ lock + length requests + 1024 * resets requests
lock_after_lem lock [] h = omega arith
lock_after_lem lock (true ∷ requests) h =
    lock_after_lem (fetch_add true lock) requests (omega (arith, h)) ∙ omega (arith, h)
lock_after_lem lock (false ∷ requests) h =
    lock_after_lem (fetch_add false lock) requests (omega (arith, h)) ∙ omega (arith, h)

low_part : (n r : ℕ) → n < 1024 → (0 + n + 1024 * r) % 2 ^ 10 ≡ n
low_part n r h = omega (arith, h)

high_part : (n r : ℕ) → n < 1024 → (0 + n + 1024 * r) / reset_flag ≡ r
high_part n r h = omega (arith, h)

-- After fewer than 1024 calls of send_mine_channels that met on the lock, the first of which
-- sends, that one repeats exactly if there was a second call, and repeats with reset exactly if
-- two of all the calls asked for it.
pub asked_again-lock_after :
    (requests : List Bool)
    → length requests < 1024
    → asked_again (lock_after 0 requests) ≡ (ltb 1 (length requests), ltb 1 (resets requests))
asked_again-lock_after requests h =
    let n = length requests in
    let r = resets requests in
    ap asked_again (lock_after_lem 0 requests (omega (arith, h, resets-le requests)))
    ∙ ap₂ (λ x y. (ltb 1 x, ltb 1 y)) (bit_and-ones 10 (0 + n + 1024 * r) ∙ low_part n r h)
        (high_part n r h)
