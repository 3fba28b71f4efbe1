-- ===== src/Net/Timer/Pending.antt =====
-- The timer that waits for a socket (src/zerobus/network_linux.cpp).
use zerobus.Prelude.{
  ℕ, ◌≤◌, ◌≡◌, refl, false, List, [], ◌∷◌, Option, none, some, arith, ◌==◌, if◌then◌else◌, All,
}
use zerobus.Net.Timer.{insert_timer, erase_timer}
use zerobus.Net.Timer.Order.{NoTimer, After}

-- The time of the socket's timer.
unfoldable pub pending : ℕ → List (ℕ × ℕ) → Option ℕ
pending j [] = none
pending j ((t, i) ∷ m) = let rest = pending j m in if i == j then some t else rest

pub pending-NoTimer : (j : ℕ) (m : List (ℕ × ℕ)) → NoTimer j m → pending j m ≡ none
unfolding pending
pending-NoTimer j [] h = refl
pending-NoTimer j ((t, i) ∷ m) h = ground (arith, pending-NoTimer j m h.1, h.0)

pub pending-insert :
    (j t i : ℕ) (m : List (ℕ × ℕ))
    → NoTimer i m
    → pending j (insert_timer (t, i) m) ≡ (if i == j then some t else pending j m)
unfolding pending insert_timer
pending-insert j t i [] h = refl
pending-insert j t i ((u, k) ∷ m) h = ground (arith, pending-insert j t i m h.1, h.0)

pub pending-erase :
    (j t i : ℕ) (m : List (ℕ × ℕ))
    → (i == j) ≡ false
    → pending j (erase_timer (t, i) m) ≡ pending j m
unfolding pending erase_timer
pending-erase j t i [] h = refl
pending-erase j t i ((u, k) ∷ m) h = ground (arith, pending-erase j t i m h)

pub first-le : (t i : ℕ) (m : List (ℕ × ℕ)) → After (t, i) m → All (λ e. t ≤ e.0) m
first-le t i [] a = tt
first-le t i ((u, j) ∷ m) a = (ground (arith, a.0), first-le t i m a.1)
