-- ===== src/Tcp/Client.antt =====
-- A TCP client's output through any sequence of messages, answers of the network and lost
-- connections: src/zerobus/bridge_tcp_common.cpp and src/zerobus/bridge_tcp_client.cpp.
use zerobus.Prelude.{
  ℕ, ◌+◌, ◌≤◌, ◌<◌, ◌≡◌, ◌≢◌, refl, sym, ap, ◌∙◌, Bool, true, false, not, List, [], ◌∷◌, ◌++◌, some,
  append_assoc, append-nil, arith, ◌==◌, if◌then◌else◌, length, length-append, take, All,
  All-append, Bool-cases, inl, inr,
}
use mathlib.Core.Path.{subst, ap₂}
use zerobus.Messages.{Msg}
use zerobus.Bus.Routing.{bytes_empty}
use zerobus.Wire.Uint.{Bytes}
use zerobus.WebSocket.Frame.{Frame, FrameType, unknown, text, binary, conn_close, ping, pong}
use zerobus.WebSocket.Builder.{
  Builder, build, frame_opcode, type_opcode, client_frame, server_frame,
}
use zerobus.Tcp.{
  ready_to_send, reconnect, set_timeout, lost, in_frame, TcpOutput, new_tcp_output, net_act,
  after_send, send_view, flush_buffer, block_hwm, queue_message, output_message, allow_output,
  clear_to_send, lost_connection, finish_handshake,
}
use zerobus.Tcp.Queue.{joined, offsets, Filled, WithinFirst}
use zerobus.Tcp.Sent.{joined-append}
use zerobus.Tcp.Trace.{
  on_connection-append, Tracks, Tracks-same, after_send-Tracks, take-append_short,
}

-- The frame that output_message queues, if it queues one.
abbrev pub queued : Bool → Frame → TcpOutput → List Bytes
queued in_time m q =
    if q.handshake
    then []
    else if not (block_hwm in_time q)
    then []
    else (build m q.ws_builder).1 ∷ []

-- The network accepts no more than it is given.
abbrev pub Accepts : ℕ → TcpOutput → Type 0
Accepts accepted q = q.output_cursor + accepted ≤ length q.output_data

-- The reset that a client queues after a handshake, if it lost a connection before.
abbrev pub greeting : Bool → TcpOutput → List Bytes
greeting in_time q =
    if q.send_reset_on_connect
    then queued in_time (in_frame Msg.channel_reset) (record q { handshake = false })
    else []

-- The states of the output, with the frames that were queued so far.
pub data Reaches (masking : Bool) (random : ℕ → ℕ) : List Bytes → TcpOutput → Type 0 where
  begins : Reaches masking random [] (new_tcp_output masking random)
  outputs :
      {frames : List Bytes} {q : TcpOutput} (in_time : Bool) (accepted : ℕ) (m : Frame)
      → Reaches masking random frames q
      → m.type ≢ unknown
      → Accepts accepted (queue_message m q)
      → Reaches masking random (frames ++ queued in_time m q) (output_message in_time accepted m q)
  clears :
      {frames : List Bytes} {q : TcpOutput} (accepted : ℕ)
      → Reaches masking random frames q
      → Accepts accepted q
      → Reaches masking random frames (clear_to_send accepted q)
  loses :
      {frames : List Bytes} {q : TcpOutput} (connects : Bool)
      → Reaches masking random frames q
      → Reaches masking random frames (lost_connection connects q)
  finishes :
      {frames : List Bytes} {q : TcpOutput} (in_time : Bool) (accepted : ℕ)
      → Reaches masking random frames q
      → Accepts accepted
          (queue_message (in_frame Msg.channel_reset) (record q { handshake = false }))
      → Reaches masking random (frames ++ greeting in_time q) (finish_handshake in_time accepted q)

if-Tracks :
    (b : Bool) (frames : List Bytes) (p q : TcpOutput)
    → Tracks frames p
    → Tracks frames q
    → Tracks frames (if b then p else q)
if-Tracks true frames p q h k = h
if-Tracks false frames p q h k = k

asks-Tracks :
    (frames : List Bytes) (q : TcpOutput)
    → Tracks frames q
    → Tracks frames (net_act ready_to_send q)
asks-Tracks frames q t =
    Tracks-same frames q (net_act ready_to_send q) refl refl refl
      (on_connection-append [] q.net_actions (ready_to_send ∷ [])) t

flush_buffer-Tracks :
    (accepted : ℕ) (frames : List Bytes) (q : TcpOutput)
    → Tracks frames q
    → Accepts accepted q
    → Tracks frames (flush_buffer accepted q)
unfolding flush_buffer
flush_buffer-Tracks accepted frames q t k =
    let r = (after_send accepted (send_view accepted q)).1 in
    if-Tracks q.output_allowed frames _ q
      (asks-Tracks frames (record r { output_allowed = false })
        (Tracks-same frames r (record r { output_allowed = false }) refl refl refl refl
          (after_send-Tracks accepted frames q t k)))
      t

allow_output-Tracks :
    (more : Bool) (frames : List Bytes) (q : TcpOutput)
    → Tracks frames q
    → Tracks frames (allow_output (more, q))
allow_output-Tracks true frames q t = asks-Tracks frames q t
allow_output-Tracks false frames q t =
    Tracks-same frames q (record q { output_allowed = true }) refl refl refl refl t

clear_to_send-Tracks :
    (accepted : ℕ) (frames : List Bytes) (q : TcpOutput)
    → Tracks frames q
    → Accepts accepted q
    → Tracks frames (clear_to_send accepted q)
unfolding clear_to_send
clear_to_send-Tracks accepted frames q t k =
    let r = after_send accepted (send_view accepted q) in
    if-Tracks (bytes_empty q.output_data) frames _ _
      (Tracks-same frames q (record q { output_allowed = true }) refl refl refl refl t)
      (if-Tracks (accepted == 0) frames _ _
        (Tracks-same frames q (net_act lost q) refl refl refl
          (on_connection-append [] q.net_actions (lost ∷ [])) t)
        (allow_output-Tracks r.0 frames r.1 (after_send-Tracks accepted frames q t k)))

offsets-append :
    (at : ℕ) (ms : List Bytes) (m : Bytes)
    → offsets at (ms ++ (m ∷ [])) ≡ offsets at ms ++ ((at + length (joined ms)) ∷ [])
offsets-append at [] m = let same : at ≡ at + 0 = omega arith in ap (λ x. x ∷ []) same
offsets-append at (l ∷ ms) m =
    let same : at + length l + length (joined ms) ≡ at + length (l ++ joined ms) =
      omega (arith, length-append l (joined ms)) in
    ap (◌∷◌ at)
      (offsets-append (at + length l) ms m ∙ ap (λ x. offsets (at + length l) ms ++ (x ∷ [])) same)

within_more :
    (n : ℕ) (ms : List Bytes) (m : Bytes)
    → 0 < length m
    → WithinFirst n ms
    → WithinFirst n (ms ++ (m ∷ []))
within_more n [] m h w = omega (arith, h, w)
within_more n (l ∷ ms) m h w = w

within-le : (n : ℕ) (ms : List Bytes) → WithinFirst n ms → n ≤ length (joined ms)
within-le n [] w = omega (arith, w)
within-le n (m ∷ ms) w = omega (arith, w, length-append m (joined ms))

sum_zero : (n : ℕ) → n ≡ 0 + n
sum_zero n = omega arith

queue_message-Tracks :
    (frames : List Bytes) (m : Frame) (q : TcpOutput)
    → 0 < length (build m q.ws_builder).1
    → Tracks frames q
    → Tracks (frames ++ ((build m q.ws_builder).1 ∷ [])) (queue_message m q)
queue_message-Tracks frames m q h t =
    let b = (build m q.ws_builder).1 in
    let tail : joined (t.pending ++ (b ∷ [])) ≡ joined t.pending ++ b =
      joined-append t.pending (b ∷ []) ∙ ap (λ x. joined t.pending ++ x) (append-nil b) in
    record {
      before = t.before;
      during = t.during;
      pending = t.pending ++ (b ∷ []);
      all =
          ap (λ x. x ++ (b ∷ [])) t.all
          ∙ append_assoc t.before (t.during ++ t.pending) (b ∷ [])
          ∙ ap (λ x. t.before ++ x) (append_assoc t.during t.pending (b ∷ []));
      holds = record {
        bytes = ap (λ x. x ++ b) t.holds.bytes ∙ sym tail;
        separators =
            ap₂ (λ x y. x ++ (y ∷ [])) t.holds.separators
              (ap length t.holds.bytes ∙ sum_zero (length (joined t.pending)))
            ∙ sym (offsets-append 0 t.pending b);
        within = within_more q.output_cursor t.pending b h t.holds.within;
        filled = All-append Filled t.pending (b ∷ []) t.holds.filled (h, tt);
      };
      sent =
          t.sent
          ∙ ap (λ x. joined t.during ++ x)
              (sym (
                ap (take q.output_cursor) tail
                ∙ take-append_short q.output_cursor (joined t.pending) b
                    (within-le q.output_cursor t.pending t.holds.within)));
    }

has_opcode :
    (fragmented : Bool) (type : FrameType)
    → type ≢ unknown
    → (op : ℕ) × (frame_opcode fragmented type ≡ some op)
unfolding type_opcode
has_opcode true type h = (0, refl)
has_opcode false unknown h = absurd (h refl)
has_opcode false text h = (1, refl)
has_opcode false binary h = (2, refl)
has_opcode false conn_close h = (8, refl)
has_opcode false ping h = (9, refl)
has_opcode false pong h = (10, refl)

-- Builder writes a frame of every known type.
pub built : (m : Frame) (b : Builder) → m.type ≢ unknown → 0 < length (build m b).1
unfolding build client_frame server_frame
built m b h =
    let (op, e) = has_opcode b.fragmented m.type h in
    elim (Bool-cases b.client) [
      | inl c ↦ rw (e, c, build) (omega arith)
      | inr c ↦ rw (e, c, build) (omega arith)
    ]

either :
    (b : Bool) (frames xs : List Bytes) (q r : TcpOutput)
    → Tracks (frames ++ []) q
    → Tracks (frames ++ xs) r
    → Tracks (frames ++ (if b then [] else xs)) (if b then q else r)
either true frames xs q r h k = h
either false frames xs q r h k = k

output_message-Tracks :
    (in_time : Bool) (accepted : ℕ) (m : Frame) (frames : List Bytes) (q : TcpOutput)
    → m.type ≢ unknown
    → Accepts accepted (queue_message m q)
    → Tracks frames q
    → Tracks (frames ++ queued in_time m q) (output_message in_time accepted m q)
unfolding output_message
output_message-Tracks in_time accepted m frames q h k t =
    let same = subst (λ x. Tracks x q) (sym (append-nil frames)) t in
    let grown =
      flush_buffer-Tracks accepted (frames ++ ((build m q.ws_builder).1 ∷ [])) (queue_message m q)
        (queue_message-Tracks frames m q (built m q.ws_builder h) t) k in
    either q.handshake frames _ q _ same
      (either (not (block_hwm in_time q)) frames ((build m q.ws_builder).1 ∷ []) q _ same grown)

zero_within : (ms : List Bytes) → All Filled ms → WithinFirst 0 ms
zero_within [] h = refl
zero_within (m ∷ ms) h = h.0

lost_connection-Tracks :
    (connects : Bool) (frames : List Bytes) (q : TcpOutput)
    → Tracks frames q
    → Tracks frames (lost_connection connects q)
unfolding lost_connection
lost_connection-Tracks false frames q t =
    Tracks-same frames q (lost_connection false q) refl refl refl
      (on_connection-append [] q.net_actions (set_timeout ∷ [])) t
lost_connection-Tracks true frames q t = record {
  before = t.before ++ t.during;
  during = [];
  pending = t.pending;
  all = t.all ∙ sym (append_assoc t.before t.during t.pending);
  holds = record {
    bytes = t.holds.bytes;
    separators = t.holds.separators;
    within = zero_within t.pending t.holds.filled;
    filled = t.holds.filled;
  };
  sent =
      on_connection-append [] (q.net_actions ++ (reconnect ∷ [])) (ready_to_send ∷ [])
      ∙ on_connection-append [] q.net_actions (reconnect ∷ []);
}

abbrev is_unknown : FrameType → Bool
is_unknown unknown = true
is_unknown binary = false
is_unknown _ = false

pub binary_known : binary ≢ unknown
binary_known e = let same : false ≡ true = ap is_unknown e in absurd cc

greets :
    (b : Bool) (frames xs : List Bytes) (q r : TcpOutput)
    → Tracks frames q
    → Tracks (frames ++ xs) r
    → Tracks (frames ++ (if b then xs else [])) (if b then r else q)
greets true frames xs q r h k = k
greets false frames xs q r h k = subst (λ x. Tracks x q) (sym (append-nil frames)) h

finish_handshake-Tracks :
    (in_time : Bool) (accepted : ℕ) (frames : List Bytes) (q : TcpOutput)
    → Accepts accepted (queue_message (in_frame Msg.channel_reset) (record q { handshake = false }))
    → Tracks frames q
    → Tracks (frames ++ greeting in_time q) (finish_handshake in_time accepted q)
unfolding finish_handshake
finish_handshake-Tracks in_time accepted frames q k t =
    let p = record q { handshake = false } in
    let reset = in_frame Msg.channel_reset in
    let agreed = Tracks-same frames q p refl refl refl refl t in
    asks-Tracks (frames ++ greeting in_time q) _ (
      greets q.send_reset_on_connect frames (queued in_time reset p) p _ agreed
        (output_message-Tracks in_time accepted reset frames p binary_known k agreed))

-- In every state that the output of a new TCP client reaches by output_message of frames of
-- known types, clear_to_send, lost connections and finished handshakes, with a network that
-- accepts no more than it is given, the frames that were queued are, in order, those that
-- earlier connections got as a whole, those that the current one got as a whole, and those that
-- wait; the current connection got its whole frames and exactly the first output_cursor bytes
-- of the next, and the separators are where the waiting frames begin.
pub Reaches-Tracks :
    (masking : Bool) (random : ℕ → ℕ) (frames : List Bytes) (q : TcpOutput)
    → Reaches masking random frames q
    → Tracks frames q
Reaches-Tracks masking random _ _ begins = record {
  before = [];
  during = [];
  pending = [];
  all = refl;
  holds = record { bytes = refl; separators = refl; within = refl; filled = tt };
  sent = refl;
}
Reaches-Tracks masking random _ _ (outputs {frames} {q} in_time accepted m r h k) =
    output_message-Tracks in_time accepted m frames q h k (Reaches-Tracks masking random frames q r)
Reaches-Tracks masking random _ _ (clears {frames} {q} accepted r k) =
    clear_to_send-Tracks accepted frames q (Reaches-Tracks masking random frames q r) k
Reaches-Tracks masking random _ _ (loses {frames} {q} connects r) =
    lost_connection-Tracks connects frames q (Reaches-Tracks masking random frames q r)
Reaches-Tracks masking random _ _ (finishes {frames} {q} in_time accepted r k) =
    finish_handshake-Tracks in_time accepted frames q k (Reaches-Tracks masking random frames q r)
