-- ===== src/Net/Socket/Table.antt =====
-- The free list that runs through the idents of the table of sockets
-- (src/zerobus/network_linux.cpp).
use zerobus.Prelude.{
  ℕ, ◌<◌, ◌≡◌, ◌≢◌, refl, sym, ap, ◌∙◌, Bool, true, false, not, ◌&&◌, ◌||◌, List, [], ◌∷◌, arith,
  ltb, ◌==◌, Bool-cases, inl, inr,
}
use mathlib.Core.Path.{subst}
use zerobus.Net.Socket.{SocketInfo, NetContext, new_context, new_socket, put_socket, is_socket}

abbrev pub has : ℕ → List ℕ → Bool
has k [] = false
has k (j ∷ js) = (k == j) || has k js

-- From `k` the idents lead through the listed places, which are free, to the end of the table.
abbrev pub Chain : NetContext → ℕ → List ℕ → Type 0
Chain n k [] = k ≡ n.count
Chain n k (j ∷ js) =
    (k ≡ j)
    × (j < n.count)
    × (has j js ≡ false)
    × (n.sockets j ≡ new_socket (n.sockets j).ident)
    × Chain n (n.sockets j).ident js

-- Each place of the table is free and blank, or in use under its own number.
pub record IsTable (n : NetContext) : Type 0 where
  pub free : List ℕ
  pub chain : Chain n n.first_free free
  pub used : (i : ℕ) → i < n.count → has i free ≡ false → (n.sockets i).ident ≡ i

pub new_context-IsTable : IsTable new_context
new_context-IsTable = record { free = []; chain = refl; used = λ i h k. absurd (omega (arith, h)) }

-- A place that is free is not found.
free_ident :
    (n : NetContext) (k i : ℕ) (js : List ℕ)
    → Chain n k js
    → has i js ≡ true
    → (n.sockets i).ident ≢ i
free_ident n k i [] c h = absurd cc
free_ident n k i (j ∷ []) (e, l, f, b, c) h = ground arith
free_ident n k i (j ∷ l ∷ js) (e, m, f, b, c) h =
    ground (arith, free_ident n (n.sockets j).ident i (l ∷ js) c)

-- The sockets that are found are those in use.
pub is_socket-free :
    (n : NetContext) (t : IsTable n) (i : ℕ) → is_socket i n ≡ (ltb i n.count && not (has i t.free))
is_socket-free n t i = ground (arith, free_ident n n.first_free i t.free t.chain, t.used i)

-- The chain looks at the free places only.
pub Chain-same :
    (n m : NetContext) (k : ℕ) (js : List ℕ)
    → n.count ≡ m.count
    → ((i : ℕ) → has i js ≡ true → n.sockets i ≡ m.sockets i)
    → Chain n k js
    → Chain m k js
Chain-same n m k [] e s c = c ∙ e
Chain-same n m k (j ∷ js) e s (a, l, f, b, c) =
    let same = s j (ground arith) in
    let next = ap (λ x. x.ident) same in
    (
      a,
      subst (λ x. j < x) e l,
      f,
      sym same ∙ b ∙ ap new_socket next,
      subst (λ x. Chain m x js) next
          (Chain-same n m (n.sockets j).ident js e (λ i h. s i (ground (arith, h))) c),
    )

-- A place that is not free is as good as any other.
pub other_place : (i j : ℕ) (js : List ℕ) → has i js ≡ true → has j js ≡ false → (i == j) ≡ false
other_place i j js h k = elim (Bool-cases (i == j)) [
  | inr e ↦ e
  | inl e ↦ let same : i ≡ j = ground arith in absurd (ground (arith, ap (λ x. has x js) same))
]

-- The table after a place in use was changed, but not its number.
pub put_socket-IsTable :
    (n : NetContext) (id : ℕ) (s : SocketInfo)
    → (t : IsTable n) → is_socket id n ≡ true
    → s.ident ≡ id
    → IsTable (put_socket id s n)
put_socket-IsTable n id s t h e =
    let unused : has id t.free ≡ false = ground (arith, is_socket-free n t id) in
    record {
      free = t.free;
      chain =
          Chain-same n (put_socket id s n) n.first_free t.free refl
            (λ i k. rw (other_place i id t.free k unused)) t.chain;
      used = λ i l k. ground (arith, t.used i);
    }

-- Nothing but the sockets, their count and the first free ident belongs to the table.
pub IsTable-same :
    (n m : NetContext)
    → m.sockets ≡ n.sockets
    → m.count ≡ n.count
    → m.first_free ≡ n.first_free
    → IsTable n
    → IsTable m
IsTable-same n m s c f t = record {
  free = t.free;
  chain =
      subst (λ x. Chain m x t.free) (sym f)
        (Chain-same n m n.first_free t.free (sym c) (λ i k. ap (λ g. g i) (sym s)) t.chain);
  used = λ i l k. ap (λ g. (g i).ident) s ∙ t.used i (subst (λ x. i < x) c l) k;
}
