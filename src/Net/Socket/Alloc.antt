-- ===== src/Net/Socket/Alloc.antt =====
-- Handles are fresh when they are given out, and gone when they are given back: alloc_socket_lk and
-- free_socket_lk of src/zerobus/network_linux.cpp.
use zerobus.Prelude.{
  ℕ, zero, suc, ◌+◌, ◌<◌, ◌≡◌, ◌≢◌, refl, sym, ap, ◌∙◌, true, false, not, ◌&&◌, ◌||◌, List, [], ◌∷◌,
  arith, ltb, ◌==◌,
}
use mathlib.Core.Path.{subst}
use zerobus.Net.Socket.{
  NetContext, new_socket, put_socket, is_socket, push_socket, grow, take_first, alloc_socket,
  free_socket,
}
use zerobus.Net.Socket.Table.{IsTable, Chain, Chain-same, has, is_socket-free, other_place}

-- What becomes of a table when the place `k` is given out.
pub record Gives (n : NetContext) (k : ℕ) (m : NetContext) : Type 0 where
  pub table : IsTable m
  pub fresh : is_socket k n ≡ false
  pub found : (j : ℕ) → is_socket j m ≡ (j == k || is_socket j n)
  pub blank : m.sockets k ≡ new_socket k
  pub kept : (j : ℕ) → is_socket j n ≡ true → m.sockets j ≡ n.sockets j
  pub tmset : m.tmset ≡ n.tmset

grow_done : (rounds : ℕ) (n : NetContext) → ltb n.first_free n.count ≡ true → grow rounds n ≡ n
unfolding grow
grow_done zero n h = refl
grow_done (suc rounds) n h = rw h refl

-- The context after the place `k`, whose ident was `next`, was given out.
abbrev given : ℕ → ℕ → NetContext → NetContext
given k next n = record (put_socket k (new_socket k) n) { first_free = next }

take_first_lem :
    (n : NetContext) (k next : ℕ)
    → n.first_free ≡ k
    → n.sockets k ≡ new_socket next
    → take_first n ≡ (k, given k next n)
take_first_lem n k next e b =
    ap
      (λ j. (
        j,
        record (put_socket j (record (n.sockets j) { ident = j }) n) {
          first_free = (n.sockets j).ident;
        },
      ))
      e
    ∙ ap (λ s. (k, record (put_socket k (record s { ident = k }) n) { first_free = s.ident })) b

give_end :
    (n : NetContext) (t : IsTable n)
    → t.free ≡ []
    → Gives n n.count (given n.count (n.count + 1) (push_socket n))
give_end n t f = record {
  table = record {
    free = [];
    chain = refl;
    used = λ i l k. ground (arith, t.used i, ap (has i) f);
  };
  fresh = ground arith;
  found = λ j. ground arith;
  blank = ground arith;
  kept = λ j h. ground (arith, h);
  tmset = refl;
}

give_first :
    (n : NetContext) (t : IsTable n) (j : ℕ) (js : List ℕ)
    → t.free ≡ j ∷ js
    → Chain n n.first_free (j ∷ js)
    → Gives n j (given j (n.sockets j).ident n)
give_first n t j js f (a, l, g, b, c) =
    let free : is_socket j n ≡ false = ground (arith, is_socket-free n t j, ap (has j) f) in
    record {
      table = record {
        free = js;
        chain =
            Chain-same n (given j (n.sockets j).ident n) (n.sockets j).ident js refl
              (λ i k. rw (other_place i j js k g)) c;
        used = λ i m k. ground (arith, t.used i, ap (has i) f);
      };
      fresh = free;
      found = λ i. ground (arith, l);
      blank = ground arith;
      kept = λ i h. ground (arith, h, free);
      tmset = refl;
    }

alloc_lem :
    (n : NetContext) (t : IsTable n) (js : List ℕ)
    → t.free ≡ js
    → Gives n (alloc_socket n).0 (alloc_socket n).1
unfolding alloc_socket grow
alloc_lem n t [] f =
    let end : n.first_free ≡ n.count = subst (Chain n n.first_free) f t.chain in
    let more : ltb n.first_free n.count ≡ false = ground arith in
    let p = push_socket n in
    let grown : grow (suc n.first_free) n ≡ p = rw more (grow_done n.first_free p (ground arith)) in
    let same : alloc_socket n ≡ (n.count, given n.count (n.count + 1) p) =
      ap take_first grown ∙ take_first_lem p n.count (n.count + 1) end (ground arith) in
    subst (λ x. Gives n x.0 x.1) (sym same) (give_end n t f)
alloc_lem n t (j ∷ js) f =
    let c : Chain n n.first_free (j ∷ js) = subst (Chain n n.first_free) f t.chain in
    let (a, l, g, b, d) = c in
    let grown : grow (suc n.first_free) n ≡ n = grow_done (suc n.first_free) n (ground arith) in
    let same : alloc_socket n ≡ (j, given j (n.sockets j).ident n) =
      ap take_first grown ∙ take_first_lem n j (n.sockets j).ident a b in
    subst (λ x. Gives n x.0 x.1) (sym same) (give_first n t j js f c)

-- On a table whose free places are linked as a list, alloc_socket_lk gives a number that no
-- socket has, with a socket without callbacks and flags; the other sockets that are in use and
-- the timers are as before, and the free places are again linked as a list.
pub alloc_socket-Gives :
    (n : NetContext) → IsTable n → Gives n (alloc_socket n).0 (alloc_socket n).1
alloc_socket-Gives n t = alloc_lem n t t.free refl

-- What becomes of a table when a socket is given back.
pub record Takes (n : NetContext) (k : ℕ) (m : NetContext) : Type 0 where
  pub table : IsTable m
  pub found : (j : ℕ) → is_socket j m ≡ (not (j == k) && is_socket j n)
  pub kept : (j : ℕ) → is_socket j m ≡ true → m.sockets j ≡ n.sockets j
  pub tmset : m.tmset ≡ n.tmset

-- The first free ident is no socket's.
not_first :
    (n : NetContext) (k : ℕ) (js : List ℕ)
    → Chain n n.first_free js
    → has k js ≡ false
    → k < n.count
    → n.first_free ≢ k
not_first n k [] c h l = ground (arith, c, l)
not_first n k (j ∷ js) (a, m, f, b, c) h l = ground (arith, a, h)

pub free_socket-Takes :
    (n : NetContext) (k : ℕ) → IsTable n → is_socket k n ≡ true → Takes n k (free_socket k n)
unfolding free_socket
free_socket-Takes n k t h =
    let unused : has k t.free ≡ false = ground (arith, is_socket-free n t k) in
    let other : n.first_free ≢ k = not_first n k t.free t.chain unused (ground (arith, h)) in
    let freed = free_socket k n in
    let blank : freed.sockets k ≡ new_socket n.first_free = ground arith in
    let next = ap (λ s. s.ident) blank in
    record {
      table = record {
        free = k ∷ t.free;
        chain = (
          refl,
          ground (arith, h),
          unused,
          blank ∙ ap new_socket (sym next),
          subst (λ x. Chain freed x t.free) (sym next)
              (Chain-same n freed n.first_free t.free refl
                (λ i m. rw (other_place i k t.free m unused)) t.chain),
        );
        used = λ i l m. ground (arith, t.used i);
      };
      found = λ j. ground (arith, other);
      kept = λ j m. ground (arith, other, m);
      tmset = refl;
    }
