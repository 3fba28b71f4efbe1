-- ===== src/Tcp/Server/Noted.antt =====
-- A peer that closes is noted by its server, whatever it receives
-- (src/zerobus/bridge_tcp_server.cpp).
use zerobus.Prelude.{
  ℕ, refl, Bool, true, false, not, ◌&&◌, Option, none, some, List, [], ◌∷◌, ◌==◌, if◌then◌else◌,
  All, Bool-cases, inl, inr,
}
use zerobus.Bus.Routing.{bytes_empty}
use zerobus.Wire.Uint.{Bytes}
use zerobus.Http.{split}
use zerobus.Http.EmptyLine.{empty_line, has_text}
use zerobus.Tcp.Peer.{note_activity}
use zerobus.Tcp.Request.{HandshakeAnswer, switches, refuses, to_http_server, websocket_handshake}
use zerobus.Tcp.Server.{ServerAct, ServerPeer, Server, act, put_peer, close, lose_peer}
use zerobus.Tcp.Server.Session.{
  write_response, find_session, take_over, handover, answer_peer, start_peer, go_on, hand_or_go_on,
  after_handshake, read_request, receive_handshake, receive_frames, receive_peer, find_peer,
  with_peer,
}
use zerobus.Tcp.Server.Peers.{Noted, IsServer, put_peer-IsServer, All-Noted}

-- A peer at work with its server.
abbrev pub Working : ℕ → ServerPeer × Server → Type 0
Working k (p, s) = Noted s.lost_peers_flag p × IsServer k s

-- The predicate holds of the peer, if there is one.
abbrev Holds : (ServerPeer → Type 0) → Option ServerPeer → Type 0
Holds P none = Unit
Holds P (some p) = P p

either-Holds :
    (P : ServerPeer → Type 0) (b : Bool) (p : ServerPeer) (o : Option ServerPeer)
    → P p
    → Holds P o
    → Holds P (if b then some p else o)
either-Holds P true p o h k = h
either-Holds P false p o h k = k

find_session-Holds :
    (P : ServerPeer → Type 0) (session : Bytes) (peers : List ServerPeer)
    → All P peers
    → Holds P (find_session session peers)
unfolding find_session
find_session-Holds P session [] a = tt
find_session-Holds P session (p ∷ peers) a =
    either-Holds P _ p _ a.0 (find_session-Holds P session peers a.1)

find_peer-Holds :
    (P : ServerPeer → Type 0) (id : ℕ) (peers : List ServerPeer)
    → All P peers
    → Holds P (find_peer id peers)
unfolding find_peer
find_peer-Holds P id [] a = tt
find_peer-Holds P id (p ∷ peers) a = either-Holds P _ p _ a.0 (find_peer-Holds P id peers a.1)

module _ {k : ℕ} where
  either-Working :
      (b : Bool) (x y : ServerPeer × Server)
      → Working k x
      → Working k y
      → Working k (if b then x else y)
  either-Working true x y w v = w
  either-Working false x y w v = v

  pub act-IsServer : (a : ServerAct) (s : Server) → IsServer k s → IsServer k (act a s)
  act-IsServer a s v = record { rising = v.rising; noted = v.noted; bounded = v.bounded }

  acts-IsServer :
      (done_acts : List ServerAct) (s : Server)
      → IsServer k s
      → IsServer k (record s { acts = done_acts })
  acts-IsServer done_acts s v = record { rising = v.rising; noted = v.noted; bounded = v.bounded }

  pub close-Working : (p : ServerPeer) (s : Server) → IsServer k s → Working k (close p s)
  close-Working p s v =
      (λ h. refl, record { rising = v.rising; noted = All-Noted s.peers; bounded = v.bounded })

  pub lose_peer-Working :
      (now : ℕ) (p : ServerPeer) (s : Server) → Working k (p, s) → Working k (lose_peer now p s)
  unfolding lose_peer
  lose_peer-Working now p s w = elim (Bool-cases (s.session_timeout == 0)) [
    | inl e ↦ rw e (close-Working p _ (act-IsServer _ s w.1))
    | inr e ↦ rw e (w.0, act-IsServer _ s w.1)
  ]

  start_peer-Working : (p : ServerPeer) (s : Server) → Working k (p, s) → Working k (start_peer p s)
  start_peer-Working p s w =
      (w.0, record { rising = w.1.rising; noted = w.1.noted; bounded = w.1.bounded })

  go_on-Working :
      (extra : Bytes) (p : ServerPeer) (s : Server) → Working k (p, s) → Working k (go_on extra p s)
  go_on-Working [] p s w = start_peer-Working p _ (w.0, act-IsServer _ s w.1)
  go_on-Working (c ∷ extra) p s w =
      let next = start_peer-Working p s w in (next.0, act-IsServer _ (start_peer p s).1 next.1)

  -- A connection that is handed over leaves the flag, and who is lost.
  take_over-Working :
      (p : ServerPeer) (o : Option ServerPeer) (s : Server)
      → Holds (Noted s.lost_peers_flag) o
      → Working k (p, s)
      → Working k (p, (take_over p o s).1)
  take_over-Working p none s h w = w
  take_over-Working p (some o) s h w =
      elim (Bool-cases (not (o.base.id == p.base.id) && not o.lost)) [
        | inl e ↦ rw e (
          w.0,
          put_peer-IsServer (record o { aux = p.aux; input_data = [] }) _ h (acts-IsServer _ s w.1),
        )
        | inr e ↦ rw e w
      ]

  handover-Working :
      (p : ServerPeer) (s : Server) → Working k (p, s) → Working k (p, (handover p s).1)
  unfolding handover
  handover-Working p s w =
      take_over-Working p (find_session p.session_id s.peers) s
        (find_session-Holds (Noted s.lost_peers_flag) p.session_id s.peers w.1.noted) w

  hand_or_go_on-Working :
      (extra : Bytes) (p : ServerPeer) (b : Bool) (s : Server)
      → Working k (p, s)
      → Working k (hand_or_go_on extra p (b, s))
  hand_or_go_on-Working extra p true s w = close-Working p s w.1
  hand_or_go_on-Working extra p false s w = go_on-Working extra (record p { input_data = [] }) s w

  handed-Working :
      (b : Bool) (p : ServerPeer) (s : Server)
      → Working k (p, s)
      → Working k (p, (if b then handover p s else (false, s)).1)
  handed-Working true p s w = handover-Working p s w
  handed-Working false p s w = w

  after_handshake-Working :
      (extra : Bytes) (b : Bool) (p : ServerPeer) (s : Server)
      → Working k (p, s)
      → Working k (after_handshake extra (b, p, s))
  after_handshake-Working extra false p s w = close-Working p s w.1
  after_handshake-Working extra true p s w =
      let t = put_peer p s in
      let b = not (bytes_empty p.session_id) in
      let handed = if b then handover p t else (false, t) in
      hand_or_go_on-Working extra p handed.0 handed.1
        (handed-Working b p t (w.0, put_peer-IsServer p s w.0 w.1))

  answer_peer-Working :
      (accepted : ℕ) (a : HandshakeAnswer) (hdr extra : Bytes) (p : ServerPeer) (s : Server)
      → Working k (p, s)
      → let answer = answer_peer accepted a hdr extra p s in Working k (answer.1, answer.2)
  unfolding write_response
  answer_peer-Working accepted (switches text session) hdr extra p s w = w
  answer_peer-Working accepted (refuses text) hdr extra p s w = w
  answer_peer-Working accepted to_http_server hdr extra p s w = (w.0, act-IsServer _ s w.1)

  read_request-Working :
      (accepted : ℕ) (p : ServerPeer) (s : Server)
      → Working k (p, s)
      → Working k (read_request accepted p s)
  read_request-Working accepted p s w =
      let (hdr, extra) = split p.input_data empty_line in
      let answer = websocket_handshake s.has_http_server s.path hdr in
      let (ok, q, t) = answer_peer accepted answer hdr extra p s in
      either-Working (has_text empty_line p.input_data) (after_handshake extra (ok, q, t)) (p, s)
        (after_handshake-Working extra ok q t (answer_peer-Working accepted answer hdr extra p s w))
        w

  receive_handshake-Working :
      (accepted : ℕ) (data_in : Bytes) (p : ServerPeer) (s : Server)
      → Working k (p, s)
      → Working k (receive_handshake accepted data_in p s)
  receive_handshake-Working accepted [] p s w =
      read_request-Working accepted (close p s).0 (close p s).1 (close-Working p s w.1)
  receive_handshake-Working accepted (c ∷ data_in) p s w = read_request-Working accepted _ s w

  receive_frames-Working :
      (now : ℕ) (data_in : Bytes) (p : ServerPeer) (s : Server)
      → Working k (p, s)
      → Working k (receive_frames now data_in p s)
  receive_frames-Working now [] p s w = lose_peer-Working now p s w
  receive_frames-Working now (c ∷ data_in) p s w = (w.0, act-IsServer _ s w.1)

  pub receive_peer-Working :
      (now accepted : ℕ) (data_in : Bytes) (p : ServerPeer) (s : Server)
      → Working k (p, s)
      → Working k (receive_peer now accepted data_in p s)
  receive_peer-Working now accepted data_in p s w =
      let q = record p { base = note_activity p.base } in
      either-Working q.base.output.handshake (receive_handshake accepted data_in q s)
        (receive_frames now data_in q s) (receive_handshake-Working accepted data_in q s w)
        (receive_frames-Working now data_in q s w)

  with_peer-IsServer :
      (o : Option ServerPeer) (f : ServerPeer → ServerPeer × Server) (s : Server)
      → Holds (Noted s.lost_peers_flag) o
      → ((p : ServerPeer) → Noted s.lost_peers_flag p → Working k (f p))
      → IsServer k s
      → IsServer k (with_peer o f s)
  with_peer-IsServer none f s h g v = v
  with_peer-IsServer (some p) f s h g v = put_peer-IsServer (f p).0 (f p).1 (g p h).0 (g p h).1

  pub found-IsServer :
      (id : ℕ) (f : ServerPeer → ServerPeer × Server) (s : Server)
      → ((p : ServerPeer) → Noted s.lost_peers_flag p → Working k (f p))
      → IsServer k s
      → IsServer k (with_peer (find_peer id s.peers) f s)
  found-IsServer id f s g v =
      with_peer-IsServer (find_peer id s.peers) f s
        (find_peer-Holds (Noted s.lost_peers_flag) id s.peers v.noted) g v
