-- ===== src/Pipe/Delivery.antt =====
-- A stream of messages that comes over a pipe in pieces: receive_complete of
-- src/zerobus/bridge_pipe.cpp, one call after another.
use zerobus.Prelude.{
  ℕ, ◌≤◌, ◌≡◌, refl, sym, ap, ◌∙◌, List, [], ◌∷◌, ◌++◌, append_assoc, append-nil, arith, length,
  length-append, All,
}
use mathlib.Core.Path.{ap₂, subst}
use zerobus.Messages.{Msg}
use zerobus.Bus.Routing.{Outcome, done, ◌>>=◌}
use zerobus.Wire.Uint.{Bytes}
use zerobus.Pipe.{
  frame, parse_loop, parse_messages, combine_input_before_parse, combine_input_after_parse,
  receive_data, receive_each,
}
use zerobus.Pipe.Stream.{
  frames, CanSend, bind_same, bind_assoc, handle_all, Parsed, parse_frames, Waiting, frame_pos,
}

abbrev pub concat : List Bytes → Bytes
concat [] = []
concat (c ∷ cs) = c ++ concat cs

before_parse : (tmp text : Bytes) → (combine_input_before_parse tmp text).0 ≡ tmp ++ text
unfolding combine_input_before_parse
before_parse [] text = refl
before_parse (b ∷ tmp) text = refl

-- The buffer holds what was not parsed.
after_parse :
    (tmp text rest : Bytes)
    → length rest ≤ length (tmp ++ text)
    → combine_input_after_parse (combine_input_before_parse tmp text).1 rest ≡ rest
unfolding combine_input_before_parse combine_input_after_parse
after_parse [] text [] h = refl
after_parse [] text (r ∷ rest) h = ground (arith)
after_parse (b ∷ tmp) text rest h = ground (arith, h)

pub All-later : (P : Msg → Type 0) (first later : List Msg) → All P (first ++ later) → All P later
All-later P [] later h = h
All-later P (m ∷ first) later h = All-later P first later h.1

module _ {A : Type 0} (max_size : ℕ) (receive : Msg → A → Outcome A) where
  pub handle_all-append :
      {B : Type 0} (xs ys : List Msg) (a : A) (f : A → Outcome B)
      → (handle_all max_size receive (xs ++ ys) a >>= f)
        ≡ (handle_all max_size receive xs a >>= (λ b. handle_all max_size receive ys b >>= f))
  handle_all-append [] ys a f = refl
  handle_all-append (x ∷ xs) ys a f =
      bind_assoc (receive x a) _ f
      ∙ bind_same (receive x a) _ _ (λ b. handle_all-append xs ys b f)
      ∙ sym (bind_assoc (receive x a) _ _)

  -- What the calls come to: some messages are received, and the buffer holds a part of the next.
  record Received (ms : List Msg) (tmp t : Bytes) (chunks : List Bytes) : Type 0 where
    first : List Msg
    later : List Msg
    rest : Bytes
    all : ms ≡ first ++ later
    goes_on : rest ++ t ≡ frames later
    waiting : Waiting rest later
    received :
        (a : A)
        → receive_each max_size receive chunks tmp a
          ≡ (handle_all max_size receive first a >>= (λ b. done (rest, b)))

  receive_data-Parsed :
      (ms : List Msg) (tmp text t : Bytes)
      (p : Parsed max_size receive ms (tmp ++ text) t (length (tmp ++ text))) (a : A)
      → receive_data max_size receive text tmp a
        ≡ (handle_all max_size receive p.first a >>= (λ b. done (p.rest, b)))
  unfolding receive_data parse_messages
  receive_data-Parsed ms tmp text t p a =
      let f = λ (r : Bytes × A).
        done (combine_input_after_parse (combine_input_before_parse tmp text).1 r.0, r.1) in
      let all = handle_all max_size receive p.first a in
      ap (λ x. parse_loop max_size receive (length x) x a >>= f) (before_parse tmp text)
      ∙ ap (λ o. o >>= f) (p.parsed a)
      ∙ bind_assoc all (λ b. done (p.rest, b)) f
      ∙ bind_same all _ _ (λ b. ap (λ x. done (x, b)) (after_parse tmp text p.rest p.shorter))

  receive_pieces :
      (ms : List Msg) (tmp t : Bytes) (chunks : List Bytes)
      → All (CanSend max_size) ms
      → Waiting tmp ms
      → tmp ++ (concat chunks ++ t) ≡ frames ms
      → Received ms tmp t chunks
  unfolding receive_each
  receive_pieces ms tmp t [] h w e = record {
    first = [];
    later = ms;
    rest = tmp;
    all = refl;
    goes_on = e;
    waiting = w;
    received = λ a. refl;
  }
  receive_pieces ms tmp t (c ∷ cs) h w e =
      let p =
        parse_frames max_size receive ms (tmp ++ c) (concat cs ++ t) (length (tmp ++ c)) h
          (append_assoc tmp c (concat cs ++ t)
            ∙ ap (λ x. tmp ++ x) (sym (append_assoc c (concat cs) t))
            ∙ e)
          (omega arith) in
      let r =
        receive_pieces p.later p.rest t cs
          (All-later (CanSend max_size) p.first p.later (subst (All (CanSend max_size)) p.all h))
          p.waiting p.goes_on in
      record {
        first = p.first ++ r.first;
        later = r.later;
        rest = r.rest;
        all = p.all ∙ ap (λ x. p.first ++ x) r.all ∙ sym (append_assoc p.first r.first r.later);
        goes_on = r.goes_on;
        waiting = r.waiting;
        received = λ a.
            ap (λ o. o >>= (λ q. receive_each max_size receive cs q.0 q.1))
              (receive_data-Parsed ms tmp c (concat cs ++ t) p a)
            ∙ bind_assoc (handle_all max_size receive p.first a) (λ b. done (p.rest, b)) _
            ∙ bind_same (handle_all max_size receive p.first a) _ _ r.received
            ∙ sym (handle_all-append p.first r.first a (λ b. done (r.rest, b)));
      }

  waits_for_none :
      (later : List Msg) (rest : Bytes)
      → Waiting rest later
      → rest ++ [] ≡ frames later
      → (later ≡ []) × (rest ≡ [])
  waits_for_none [] rest w e = (refl, sym (append-nil rest) ∙ e)
  waits_for_none (m ∷ later) rest w e =
      absurd (
        omega
          (arith, w, ap length e, length-append rest [], length-append (frame m) (frames later)))

  start : (ms : List Msg) → All (CanSend max_size) ms → Waiting [] ms
  start [] h = tt
  start (m ∷ ms) h = frame_pos max_size receive m h.0

  pub receive_each-frames :
      (ms : List Msg) (chunks : List Bytes) (a : A)
      → All (CanSend max_size) ms
      → concat chunks ≡ frames ms
      → receive_each max_size receive chunks [] a
        ≡ (handle_all max_size receive ms a >>= (λ b. done ([], b)))
  receive_each-frames ms chunks a h e =
      let r = receive_pieces ms [] [] chunks h (start ms h) (append-nil (concat chunks) ∙ e) in
      let (none_later, none_left) = waits_for_none r.later r.rest r.waiting r.goes_on in
      r.received a
      ∙ ap₂ (λ x y. handle_all max_size receive x a >>= (λ b. done (y, b)))
          (sym (append-nil r.first) ∙ ap (λ x. r.first ++ x) (sym none_later) ∙ sym r.all) none_left
