-- ===== src/Pipe.antt =====
-- The bridge over a pipe: src/zerobus/bridge_pipe.h and src/zerobus/bridge_pipe.cpp. INetContext is
-- a parameter: a call of `send` comes with the count of bytes that it accepted, and the other calls
-- are recorded, oldest first. What is done with a message that was received is a parameter too;
-- AbstractBridge::receive fills it.
pub mod Header
pub mod Stream
pub mod Delivery
pub mod Writing
mod Tests
use zerobus.Prelude.{
  ℕ, zero, suc, Bool, true, false, not, ◌&&◌, List, [], ◌∷◌, ◌++◌, Option, none, some, ◌==◌,
  if◌then◌else◌, ltb, length, take, drop,
}
use zerobus.Messages.{Msg}
use zerobus.Bus.Routing.{Outcome, done, thrown, unfinished, ◌>>=◌, bytes_empty}
use zerobus.Wire.Uint.{Bytes, write_uint, read_uint, can_read_uint}
use zerobus.Wire.Codec.{serialize, deserialize}

-- What send_gen appends to the output: the size, then the text.
unfoldable pub frame : Msg → Bytes
frame m = let str = serialize m in write_uint (length str) ++ str

-- The calls that the bridge makes on INetContext and on itself.
pub data Action : Type 0 where
  wrote : Bytes → Action
  ready_to_send ready_to_receive on_disconnect : Action

-- The fields of BridgePipe for its output.
pub record Output : Type 0 where
  pub output_buffer : Bytes
  pub clear_to_send : Bool
  pub actions : List Action

abbrev pub act : Action → Output → Output
act a o = record o { actions = o.actions ++ (a ∷ []) }

-- What is left in the buffer after the network took `accepted` bytes of it.
abbrev pub drop_sent : ℕ → Output → Output
drop_sent accepted o = act (wrote (take accepted o.output_buffer)) (record o {
  output_buffer = if accepted == length o.output_buffer then [] else drop accepted o.output_buffer;
})

unfoldable pub flush_output : ℕ → Output → Bool × Output
flush_output accepted o =
    if bytes_empty o.output_buffer
    then (true, o)
    else if not o.clear_to_send
    then (false, o)
    else if accepted == length o.output_buffer
    then (true, act ready_to_send (record (drop_sent accepted o) { clear_to_send = false }))
    else if ltb 0 accepted
    then (true, act ready_to_send (record (drop_sent accepted o) { clear_to_send = false }))
    else (false, o)

unfoldable pub send_gen : ℕ → Msg → Output → Output
send_gen accepted m o =
    (flush_output accepted (record o { output_buffer = o.output_buffer ++ frame m })).1

-- clear_to_send, the callback.
unfoldable pub on_clear_to_send : ℕ → Output → Output
on_clear_to_send accepted o =
    let (ok, p) = flush_output accepted (record o { clear_to_send = true }) in
    if ok then p else act on_disconnect p

-- The constructor, with the NewSession that it sends; nothing can be written yet.
unfoldable pub new_output : Output
new_output = send_gen 0 (Msg.new_session 1) (record {
  output_buffer = [];
  clear_to_send = false;
  actions = ready_to_send ∷ ready_to_receive ∷ [];
})

-- combine_input_before_parse: the text to parse, and the buffer.
unfoldable pub combine_input_before_parse : Bytes → Bytes → Bytes × Bytes
combine_input_before_parse tmp text =
    if bytes_empty tmp then (text, tmp) else (tmp ++ text, tmp ++ text)

-- combine_input_after_parse: the buffer, which the text may be a part of.
unfoldable pub combine_input_after_parse : Bytes → Bytes → Bytes
combine_input_after_parse tmp text =
    if ltb (length tmp) (length text) then (if not (bytes_empty text) then text else tmp) else text

module _ {A : Type 0} (max_size : ℕ) (receive : Msg → A → Outcome A) where
  -- `std::visit(receive, _deser(msg))`. Deserialization throws on a list that is too long.
  abbrev pub visit : Option Msg → A → Outcome A
  visit none a = thrown
  visit (some m) a = receive m a

  -- The rest of a round of parse_messages, from the size and what stands behind it.
  abbrev pub parse_one :
      (Bytes → A → Outcome (Bytes × A)) → ℕ × Bytes → Bytes → A → Outcome (Bytes × A)
  parse_one next (sz, msg) out a = elim (ltb (length msg) sz) [
    | true ↦ done (out, a)
    | false ↦ do b ← visit (deserialize max_size (take sz msg)) a; next (drop sz msg) b
  ]

  -- The loop of parse_messages, with a bound on its rounds.
  unfoldable pub parse_loop : ℕ → Bytes → A → Outcome (Bytes × A)
  parse_loop zero out a = elim (can_read_uint out) [ true ↦ unfinished | false ↦ done (out, a) ]
  parse_loop (suc rounds) out a = elim (can_read_uint out) [
    | false ↦ done (out, a)
    | true ↦ parse_one (parse_loop rounds) (read_uint out) out a
  ]

  -- A round for each byte: every message takes at least one.
  unfoldable pub parse_messages : Bytes → A → Outcome (Bytes × A)
  parse_messages text a = parse_loop (length text) text a

  -- receive_complete with data, from _msg_tmp_buffer and the state of what receives.
  unfoldable pub receive_data : Bytes → Bytes → A → Outcome (Bytes × A)
  receive_data text tmp a = do
    r ← parse_messages (combine_input_before_parse tmp text).0 a
    done (combine_input_after_parse (combine_input_before_parse tmp text).1 r.0, r.1)

  -- receive_complete: no data means that the other side is gone.
  unfoldable pub receive_complete : Bytes → Bytes → A → Outcome (Action × (Bytes × A))
  receive_complete [] tmp a = done (on_disconnect, (tmp, a))
  receive_complete (b ∷ text) tmp a = do
    r ← receive_data (b ∷ text) tmp a
    done (ready_to_receive, r)

  -- One call after another.
  unfoldable pub receive_each : List Bytes → Bytes → A → Outcome (Bytes × A)
  receive_each [] tmp a = done (tmp, a)
  receive_each (text ∷ more) tmp a = do r ← receive_data text tmp a; receive_each more r.0 r.1
