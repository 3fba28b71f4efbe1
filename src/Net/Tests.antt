-- ===== src/Net/Tests.antt =====
-- The theorems on the network context at concrete states.
use zerobus.Prelude.{
  suc, ℕ, ◌≡◌, refl, true, false, none, some, List, [], ◌++◌, length, ◌≤◌, ◌<◌, ◌+◌, All, arith,
  ◌∷◌,
}
use zerobus.Bus.Routing.{Outcome, done, thrown, unfinished}
use zerobus.Net.Socket.{
  Callback, receive_complete, NetContext, new_context, alloc_socket, grow, apply_flags,
}
use zerobus.Net.Socket.Table.{new_context-IsTable}
use zerobus.Net.Socket.Alloc.{Gives, alloc_socket-Gives}
use zerobus.Net.Timer.{set_timeout, clear_timeout}
use zerobus.Net.Timer.Pending.{pending}
use zerobus.Net.Timer.Set.{set_timeout-pending}
use zerobus.Net.Valid.{IsNet}
use zerobus.Net.Call.{
  destroys, NetCall, connects, receives, receive, run_calls, times, connect, register, call,
}
use zerobus.Net.Command.{parse_command_line, read_args}
use zerobus.Net.Command.Room.{parse_command_line-inside}
use zerobus.Net.Command.Quoting.{quote_words, read_args-quote_words}
use zerobus.Wire.Uint.{Bytes}
use zerobus.Net.Event.{run_timers, process_event, process_input, process_output, invoke_cb}
use zerobus.Net.Event.Waits.{invoke_cb-destroys}
use zerobus.Net.Event.Due.{no_calls, due, run_timers-due}
use zerobus.Net.Event.Reached.{Reached, begins, goes_on, calls, event, Reached-IsNet}

abbrev no_work : ℕ → NetContext → List NetCall
no_work action n = []

-- One connection, and a timer for it.
abbrev one : NetContext
one = (connect (some 5) true new_context).1

abbrev waiting : NetContext
waiting = set_timeout 0 7 3 one

one-Reached : Reached no_calls no_work one
unfolding call
one-Reached = goes_on begins (calls (connects (some 5) true) refl)

waiting-Reached : Reached no_calls no_work waiting
unfolding call
waiting-Reached = goes_on one-Reached (calls (times 0 7 3) refl)

-- A read is asked for, and four bytes come, while the timer waits.
abbrev asking : NetContext
asking = receive 0 64 3 waiting

abbrev or_else : NetContext → Outcome NetContext → NetContext
or_else n (done m) = m
or_else n thrown = n
or_else n unfinished = n

abbrev heard : Outcome NetContext
heard =
    process_event no_calls 0 (record { input = true; output = false })
      (record { accepted = none; added = true }) (some 4) asking

heard-Reached : Reached no_calls no_work (or_else asking heard)
unfolding call process_event process_input process_output invoke_cb run_calls receive apply_flags
    set_timeout connect register alloc_socket grow
heard-Reached = goes_on (goes_on waiting-Reached (calls (receives 0 64 3) refl)) (
    event 0 (record { input = true; output = false }) (record { accepted = none; added = true })
      (some 4) refl)

Reached-IsNet_example : IsNet (or_else asking heard)
Reached-IsNet_example = Reached-IsNet no_calls no_work (or_else asking heard) heard-Reached

alloc_socket-Gives_example :
    Gives new_context (alloc_socket new_context).0 (alloc_socket new_context).1
alloc_socket-Gives_example = alloc_socket-Gives new_context new_context-IsTable

one-IsNet : IsNet one
one-IsNet = Reached-IsNet no_calls no_work one one-Reached

set_timeout-pending_example :
    (pending 0 (set_timeout 0 9 4 one).tmset ≡ some 9)
    × (pending 0 (clear_timeout 0 one).tmset ≡ none)
unfolding connect register alloc_socket grow
set_timeout-pending_example = set_timeout-pending one 0 9 4 0 one-IsNet refl

run_timers-due_example :
    (m : NetContext) × (run_timers no_calls (suc (length waiting.tmset)) 8 waiting ≡ done m)
    × (m.callbacks ≡ waiting.callbacks ++ due 8 waiting.sockets waiting.tmset)
run_timers-due_example =
    run_timers-due 8 waiting (Reached-IsNet no_calls no_work waiting waiting-Reached)

-- A word with a quote and a space, and an empty one.
abbrev words : List Bytes
words = (97 ∷ 34 ∷ 32 ∷ []) ∷ [] ∷ []

read_args-quote_words_example : read_args (parse_command_line (quote_words words)) ≡ words
read_args-quote_words_example =
    read_args-quote_words words ((omega arith, (omega arith, (omega arith, tt))), (tt, tt))

-- "a b"
abbrev two_letters : Bytes
two_letters = 97 ∷ 32 ∷ 98 ∷ []

parse_command_line-inside_example :
    let (pointers, buffer) = parse_command_line two_letters in
    (length buffer ≤ length two_letters + 2) × All (λ p. p < length buffer) pointers
parse_command_line-inside_example = parse_command_line-inside two_letters

-- A peer that destroys its connection from receive_complete.
abbrev destroying : Callback → NetContext → List NetCall
destroying cb n = destroys 0 ∷ []

invoke_cb-destroys_example : invoke_cb destroying 0 (receive_complete 3 4) one ≡ unfinished
unfolding connect register alloc_socket grow
invoke_cb-destroys_example = invoke_cb-destroys destroying 0 (receive_complete 3 4) one [] refl refl
