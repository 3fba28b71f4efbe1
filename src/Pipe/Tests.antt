-- ===== src/Pipe/Tests.antt =====
-- The theorems on the pipe at concrete inputs.
use zerobus.Prelude.{lt_wf, ◌≡◌, refl, ◌++◌, List, [], ◌∷◌, arith}
use zerobus.Messages.{Msg}
use zerobus.Bus.Routing.{Outcome, done, ◌>>=◌}
use zerobus.Wire.Uint.{Bytes, write_uint, write_tail, shrink}
use native.Mathlib.Decide.{dec_lt}
use zerobus.Wire.Codec.{serialize}
use zerobus.Pipe.{frame, new_output, send_gen, flush_output, on_clear_to_send, receive_each}
use zerobus.Pipe.Stream.{frames, handle_all}
use zerobus.Pipe.Writing.{Step, sends, clears, run, written, all_messages, run-written, delivers}

abbrev collect : Msg → List Msg → Outcome (List Msg)
collect m ms = done (ms ++ (m ∷ []))

-- The network first takes one byte, and then the other four.
abbrev steps : List Step
steps = sends 0 Msg.channel_reset ∷ clears 1 ∷ clears 4 ∷ []

-- The session message and the reset, cut inside the first.
abbrev pieces : List Bytes
pieces = (2 ∷ []) ∷ (0xf6 ∷ 1 ∷ 1 ∷ []) ∷ (0xfb ∷ []) ∷ []

run-written_example :
    let o = run steps new_output in
    written o.actions ++ o.output_buffer ≡ frames (all_messages steps)
run-written_example = run-written steps

delivers_example :
    receive_each 1000 collect pieces [] []
    ≡ (handle_all 1000 collect (all_messages steps) [] >>= (λ b. done ([], b)))
unfolding new_output send_gen flush_output on_clear_to_send frame serialize write_uint shrink lt_wf
    write_tail dec_lt
delivers_example =
    delivers 1000 collect steps pieces [] ((omega arith, omega arith), ((tt, omega arith), tt)) refl
      refl
