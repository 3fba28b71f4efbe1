-- ===== src/Net/Timer/Order.antt =====
-- The set of timers in order, with one timer for a socket (src/zerobus/network_linux.cpp).
use zerobus.Prelude.{ℕ, ◌≡◌, ◌≢◌, sym, true, List, [], ◌∷◌, arith, ◌==◌, All, Bool-cases, inl, inr}
use mathlib.Core.Path.{subst}
use zerobus.Net.Timer.{pair_less, insert_timer, erase_timer}

abbrev pub After : ℕ × ℕ → List (ℕ × ℕ) → Type 0
After e [] = Unit {0}
After e (f ∷ m) = (pair_less e f ≡ true) × After e m

abbrev pub Ordered : List (ℕ × ℕ) → Type 0
Ordered [] = Unit {0}
Ordered (e ∷ m) = After e m × Ordered m

-- No timer of the socket.
abbrev pub NoTimer : ℕ → List (ℕ × ℕ) → Type 0
NoTimer i m = All (λ e. e.1 ≢ i) m

abbrev pub Single : List (ℕ × ℕ) → Type 0
Single [] = Unit {0}
Single (e ∷ m) = NoTimer e.1 m × Single m

-- The timers of the socket are at the time.
abbrev pub TimedAt : ℕ → ℕ → List (ℕ × ℕ) → Type 0
TimedAt t i m = All (λ e. e.1 ≡ i → e.0 ≡ t) m

less_trans : (e f g : ℕ × ℕ) → pair_less e f ≡ true → pair_less f g ≡ true → pair_less e g ≡ true
less_trans (t, i) (u, j) (v, k) h l = ground (arith, h, l)

After-less : (e f : ℕ × ℕ) (m : List (ℕ × ℕ)) → pair_less e f ≡ true → After f m → After e m
After-less e f [] h a = tt
After-less e f (g ∷ m) h a = (less_trans e f g h a.0, After-less e f m h a.1)

After-insert :
    (e f : ℕ × ℕ) (m : List (ℕ × ℕ)) → pair_less e f ≡ true → After e m → After e (insert_timer f m)
unfolding insert_timer
After-insert e f [] h a = (h, tt)
After-insert e f (g ∷ m) h a = ground (arith, After-insert e f m h a.1)

pub Ordered-insert : (e : ℕ × ℕ) (m : List (ℕ × ℕ)) → Ordered m → Ordered (insert_timer e m)
unfolding insert_timer
Ordered-insert e [] o = (tt, tt)
Ordered-insert e (f ∷ m) o =
    ground (arith, Ordered-insert e m o.1, After-insert f e m, After-less e f m)

After-erase : (e f : ℕ × ℕ) (m : List (ℕ × ℕ)) → After e m → After e (erase_timer f m)
unfolding erase_timer
After-erase e f [] a = tt
After-erase e f (g ∷ m) a = ground (arith, After-erase e f m a.1)

pub Ordered-erase : (e : ℕ × ℕ) (m : List (ℕ × ℕ)) → Ordered m → Ordered (erase_timer e m)
unfolding erase_timer
Ordered-erase e [] o = tt
Ordered-erase e (f ∷ m) o = ground (arith, Ordered-erase e m o.1, After-erase f e m o.0)

module _ (P : ℕ × ℕ → Type 0) where
  pub All-insert : (e : ℕ × ℕ) (m : List (ℕ × ℕ)) → P e → All P m → All P (insert_timer e m)
  unfolding insert_timer
  All-insert e [] h a = (h, tt)
  All-insert e (f ∷ m) h a = ground (arith, All-insert e m h a.1)

  pub All-erase : (e : ℕ × ℕ) (m : List (ℕ × ℕ)) → All P m → All P (erase_timer e m)
  unfolding erase_timer
  All-erase e [] a = tt
  All-erase e (f ∷ m) a = ground (arith, All-erase e m a.1)

pub Single-insert :
    (e : ℕ × ℕ) (m : List (ℕ × ℕ)) → NoTimer e.1 m → Single m → Single (insert_timer e m)
unfolding insert_timer
Single-insert e [] h s = (tt, tt)
Single-insert e (f ∷ m) h s =
    ground (
      arith,
      Single-insert e m h.1 s.1,
      All-insert (λ g. g.1 ≢ f.1) e m (λ same. h.0 (sym same)) s.0,
    )

pub Single-erase : (e : ℕ × ℕ) (m : List (ℕ × ℕ)) → Single m → Single (erase_timer e m)
unfolding erase_timer
Single-erase e [] s = tt
Single-erase e (f ∷ m) s = ground (arith, Single-erase e m s.1, All-erase (λ g. g.1 ≢ f.1) e m s.0)

-- The one timer of the socket is erased.
pub erase-NoTimer :
    (t i : ℕ) (m : List (ℕ × ℕ)) → Single m → TimedAt t i m → NoTimer i (erase_timer (t, i) m)
unfolding erase_timer
erase-NoTimer t i [] s h = tt
erase-NoTimer t i ((u, j) ∷ m) s h = elim (Bool-cases (j == i)) [
  | inl e ↦
      let same : j ≡ i = ground arith in
      let at : u ≡ t = h.0 same in
      let one : (u == t) ≡ true = ground arith in rw (e, one) (subst (λ x. NoTimer x m) same s.0)
  | inr e ↦ ground (arith, erase-NoTimer t i m s.1 h.1)
]
