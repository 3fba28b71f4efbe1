-- ===== src/WebSocket/Parser/Pieces.antt =====
-- Input that comes to Parser in pieces (push_data of src/zerobus/websocket.cpp).
use zerobus.Prelude.{
  ◌≡◌, refl, true, false, not, ◌&&◌, List, [], ◌∷◌, ◌++◌, inl, inr, Bool-cases, ℕ,
}
use zerobus.WebSocket.Parser.{Parser, push_data, step, is_complete, finalized, reset_state}

-- A parser that wants more after a part of the input comes to the same result with the rest of
-- the input as a parser that gets all of it at once, in the fields and in what push_data
-- returns.
pub push_data-append :
    (p : Parser) (xs ys : List ℕ)
    → (push_data p xs).0 ≡ false
    → push_data p (xs ++ ys) ≡ push_data (push_data p xs).1 ys
unfolding push_data reset_state
push_data-append p [] ys h = refl
push_data-append p (c ∷ xs) ys h = elim (Bool-cases (is_complete p)) [
  | inl e ↦ let no : true ≡ false = rw (e, push_data) at h in absurd cc
  | inr e ↦ elim (Bool-cases (step c p).0) [
    | inr k ↦
        rw (e, push_data) (rw k (push_data-append (step c p).1 xs ys (rw (e, k, push_data) at h)))
    | inl k ↦ elim (Bool-cases (not (step c p).1.fin && (step c p).1.need_fragmented)) [
      | inl f ↦
          rw (e, push_data)
            (rw k (
              rw f (
                push_data-append (reset_state (finalized xs (step c p).1)) xs ys
                  (rw (e, k, f, push_data) at h))))
      | inr f ↦ let no : true ≡ false = rw (e, k, f, push_data) at h in absurd cc
    ]
  ]
]

-- A parser that has read a message leaves what follows in any piece.
pub push_data-done :
    (p : Parser) (xs ys : List ℕ)
    → (push_data p xs).0 ≡ true
    → push_data p (xs ++ ys)
      ≡ (true, record (push_data p xs).1 { unused_data = (push_data p xs).1.unused_data ++ ys })
unfolding push_data reset_state
push_data-done p [] ys h = absurd cc
push_data-done p (c ∷ xs) ys h = elim (Bool-cases (is_complete p)) [
  | inl e ↦ rw (e, push_data) refl
  | inr e ↦ elim (Bool-cases (step c p).0) [
    | inr k ↦
        rw (e, push_data) (rw k (push_data-done (step c p).1 xs ys (rw (e, k, push_data) at h)))
    | inl k ↦ elim (Bool-cases (not (step c p).1.fin && (step c p).1.need_fragmented)) [
      | inl f ↦
          rw (e, push_data)
            (rw k (
              rw f (
                push_data-done (reset_state (finalized xs (step c p).1)) xs ys
                  (rw (e, k, f, push_data) at h))))
      | inr f ↦ rw (e, push_data) (rw k (rw f refl))
    ]
  ]
]
