-- ===== src/Pipe/Writing.antt =====
-- What a bridge over a pipe writes: send_gen, flush_output and clear_to_send of
-- src/zerobus/bridge_pipe.cpp in any order, with a network that takes any count of bytes.
use zerobus.Prelude.{
  ℕ, ◌≡◌, refl, sym, ap, ◌∙◌, Bool, true, false, not, List, [], ◌∷◌, ◌++◌, append_assoc, append-nil,
  arith, ◌==◌, if◌then◌else◌, ltb, length, take, drop, take_append_drop, take_all, All, Bool-cases,
  inl, inr,
}
use zerobus.Messages.{Msg}
use zerobus.Bus.Routing.{Outcome, done, ◌>>=◌, bytes_empty}
use zerobus.Wire.Uint.{Bytes}
use zerobus.Pipe.{
  Action, wrote, ready_to_send, ready_to_receive, on_disconnect, Output, act, drop_sent, frame,
  flush_output, send_gen, on_clear_to_send, new_output, receive_each,
}
use zerobus.Pipe.Stream.{frames, CanSend, handle_all}
use zerobus.Pipe.Delivery.{concat, receive_each-frames}

-- The bytes that were given to the network.
abbrev pub written : List Action → Bytes
written [] = []
written (wrote bytes ∷ xs) = bytes ++ written xs
written (ready_to_send ∷ xs) = written xs
written (ready_to_receive ∷ xs) = written xs
written (on_disconnect ∷ xs) = written xs

written-append : (xs ys : List Action) → written (xs ++ ys) ≡ written xs ++ written ys
written-append [] ys = refl
written-append (wrote bytes ∷ xs) ys =
    ap (λ x. bytes ++ x) (written-append xs ys) ∙ sym (append_assoc bytes (written xs) (written ys))
written-append (ready_to_send ∷ xs) ys = written-append xs ys
written-append (ready_to_receive ∷ xs) ys = written-append xs ys
written-append (on_disconnect ∷ xs) ys = written-append xs ys

-- All bytes so far: those that are written and those that wait.
abbrev pub stream : Output → Bytes
stream o = written o.actions ++ o.output_buffer

-- A call of send, or of clear_to_send by the network, with the count of bytes that it accepts.
pub data Step : Type 0 where
  sends : ℕ → Msg → Step
  clears : ℕ → Step

abbrev pub run : List Step → Output → Output
run [] o = o
run (sends accepted m ∷ steps) o = run steps (send_gen accepted m o)
run (clears accepted ∷ steps) o = run steps (on_clear_to_send accepted o)

abbrev pub messages : List Step → List Msg
messages [] = []
messages (sends accepted m ∷ steps) = m ∷ messages steps
messages (clears accepted ∷ steps) = messages steps

written_more :
    (xs ys : List Action) (r s : Bytes)
    → written ys ++ r ≡ s
    → written (xs ++ ys) ++ r ≡ written xs ++ s
written_more xs ys r s e =
    ap (λ x. x ++ r) (written-append xs ys)
    ∙ append_assoc (written xs) (written ys) r
    ∙ ap (λ x. written xs ++ x) e

rest_of : (n : ℕ) (b : Bytes) → take n b ++ (if n == length b then [] else drop n b) ≡ b
rest_of n b = elim (Bool-cases (n == length b)) [
  | inl h ↦ rw h (append-nil (take n b) ∙ take_all n b (ground (arith, h)))
  | inr h ↦ rw h (take_append_drop n b)
]

drop_sent-stream :
    (n : ℕ) (o : Output)
    → stream (act ready_to_send (record (drop_sent n o) { clear_to_send = false })) ≡ stream o
drop_sent-stream n o =
    let b = o.output_buffer in
    let left = if n == length b then [] else drop n b in
    let gone = wrote (take n b) ∷ [] in
    written_more (o.actions ++ gone) (ready_to_send ∷ []) left left refl
    ∙ written_more o.actions gone left b (ap (λ x. x ++ left) (append-nil (take n b)) ∙ rest_of n b)

if-stream :
    (t : Bool) (p q : Bool × Output) (s : Bytes)
    → stream p.1 ≡ s
    → stream q.1 ≡ s
    → stream (if t then p else q).1 ≡ s
if-stream true p q s h k = h
if-stream false p q s h k = k

flush_output-stream : (n : ℕ) (o : Output) → stream (flush_output n o).1 ≡ stream o
unfolding flush_output
flush_output-stream n o = if-stream (bytes_empty o.output_buffer) _ _ (stream o) refl (
    if-stream (not o.clear_to_send) _ _ (stream o) refl (
      if-stream (n == length o.output_buffer) _ _ (stream o) (drop_sent-stream n o)
        (if-stream (ltb 0 n) _ _ (stream o) (drop_sent-stream n o) refl)))

send_gen-stream : (n : ℕ) (m : Msg) (o : Output) → stream (send_gen n m o) ≡ stream o ++ frame m
unfolding send_gen
send_gen-stream n m o =
    flush_output-stream n (record o { output_buffer = o.output_buffer ++ frame m })
    ∙ sym (append_assoc (written o.actions) o.output_buffer (frame m))

lost : (ok : Bool) (o : Output) → stream (if ok then o else act on_disconnect o) ≡ stream o
lost true o = refl
lost false o = written_more o.actions (on_disconnect ∷ []) o.output_buffer o.output_buffer refl

on_clear_to_send-stream : (n : ℕ) (o : Output) → stream (on_clear_to_send n o) ≡ stream o
unfolding on_clear_to_send
on_clear_to_send-stream n o =
    let p = flush_output n (record o { clear_to_send = true }) in
    lost p.0 p.1 ∙ flush_output-stream n (record o { clear_to_send = true })

run-stream :
    (steps : List Step) (o : Output) → stream (run steps o) ≡ stream o ++ frames (messages steps)
run-stream [] o = sym (append-nil (stream o))
run-stream (sends n m ∷ steps) o =
    run-stream steps (send_gen n m o)
    ∙ ap (λ x. x ++ frames (messages steps)) (send_gen-stream n m o)
    ∙ append_assoc (stream o) (frame m) (frames (messages steps))
run-stream (clears n ∷ steps) o =
    run-stream steps (on_clear_to_send n o)
    ∙ ap (λ x. x ++ frames (messages steps)) (on_clear_to_send-stream n o)

new_output-stream : stream new_output ≡ frame (Msg.new_session 1)
unfolding new_output
new_output-stream = send_gen-stream 0 (Msg.new_session 1) _

-- All messages of a bridge so far, with the one that its constructor sends.
abbrev pub all_messages : List Step → List Msg
all_messages steps = Msg.new_session 1 ∷ messages steps

-- After any sequence of sends and of clear_to_send on a new pipe bridge, with any counts of
-- bytes that the network accepts, the written bytes with those that wait in the buffer are the
-- frames of all messages, in order, the constructor's first.
pub run-written :
    (steps : List Step)
    → let o = run steps new_output in
      written o.actions ++ o.output_buffer ≡ frames (all_messages steps)
run-written steps =
    run-stream steps new_output ∙ ap (λ x. x ++ frames (messages steps)) new_output-stream

-- After any sequence of sends and of clear_to_send on a new pipe bridge, with any counts of
-- bytes that the network accepts, if nothing is left in the output buffer, then a bridge that
-- gets the written bytes in any pieces receives exactly the messages that were sent, in order,
-- behind the session message of the constructor, and keeps no bytes; the messages must fit the
-- two formats.
pub delivers :
    {A : Type 0} (max_size : ℕ) (receive : Msg → A → Outcome A) (steps : List Step)
    (chunks : List Bytes) (a : A)
    → All (CanSend max_size) (all_messages steps)
    → (run steps new_output).output_buffer ≡ []
    → concat chunks ≡ written (run steps new_output).actions
    → receive_each max_size receive chunks [] a
      ≡ (handle_all max_size receive (all_messages steps) a >>= (λ b. done ([], b)))
delivers max_size receive steps chunks a h e k =
    receive_each-frames max_size receive (all_messages steps) chunks a h (
      k
      ∙ sym (append-nil _)
      ∙ ap (λ x. written (run steps new_output).actions ++ x) (sym e)
      ∙ run-written steps)
