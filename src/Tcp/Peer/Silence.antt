-- ===== src/Tcp/Peer/Silence.antt =====
-- When a peer counts as dead (src/zerobus/bridge_tcp_server.cpp).
use zerobus.Prelude.{arith, ℕ, zero, suc, ◌≡◌, refl, Bool, true, false, List, [], ◌∷◌, leb}
use zerobus.Tcp.{TcpOutput}
use zerobus.Tcp.Peer.{Peer, new_peer, note_activity, check_dead}

-- What happens to a peer.
pub data PeerEvent : Type 0 where
  heard : PeerEvent
  checked : Bool → ℕ → PeerEvent

-- After the events, the latest first.
abbrev pub peer_after : List PeerEvent → Peer → Peer
peer_after [] p = p
peer_after (heard ∷ events) p = note_activity (peer_after events p)
peer_after (checked in_time accepted ∷ events) p =
    (check_dead in_time accepted (peer_after events p)).1

-- The checks since something was received.
abbrev pub silent_checks : List PeerEvent → ℕ
silent_checks [] = 0
silent_checks (heard ∷ events) = 0
silent_checks (checked in_time accepted ∷ events) = suc (silent_checks events)

-- The flags after so many silent checks.
abbrev Flags : ℕ → Peer → Type 0
Flags zero p = p.activity_check ≡ false
Flags (suc zero) p = (p.activity_check ≡ true) × (p.ping_sent ≡ false)
Flags (suc (suc n)) p = (p.activity_check ≡ true) × (p.ping_sent ≡ true)

check_dead-Flags :
    (in_time : Bool) (accepted n : ℕ) (p : Peer)
    → Flags n p
    → ((check_dead in_time accepted p).0 ≡ leb 2 n)
      × Flags (suc n) (check_dead in_time accepted p).1
unfolding check_dead
check_dead-Flags in_time accepted zero p h = rw (h, check_dead) (refl, (refl, refl))
check_dead-Flags in_time accepted (suc zero) p h =
    rw (h.0, check_dead) (rw h.1 (refl, (refl, refl)))
check_dead-Flags in_time accepted (suc (suc n)) p h =
    let enough : leb 2 (suc (suc n)) ≡ true = ground arith in
    rw (h.0, check_dead) (rw (h.1, enough) (refl, (refl, refl)))

peer_after-Flags :
    (events : List PeerEvent) (id : ℕ) (output : TcpOutput)
    → Flags (silent_checks events) (peer_after events (new_peer id output))
peer_after-Flags [] id output = refl
peer_after-Flags (heard ∷ events) id output = refl
peer_after-Flags (checked in_time accepted ∷ events) id output =
    (check_dead-Flags in_time accepted (silent_checks events) _
      (peer_after-Flags events id output)).1

-- After any sequence of received data and of calls of check_dead on a new peer, a call of
-- check_dead reports the peer as dead exactly if it was checked twice or more since something
-- was received, or since it was made.
pub check_dead-silent_checks :
    (events : List PeerEvent) (id : ℕ) (output : TcpOutput) (in_time : Bool) (accepted : ℕ)
    → (check_dead in_time accepted (peer_after events (new_peer id output))).0
      ≡ leb 2 (silent_checks events)
check_dead-silent_checks events id output in_time accepted =
    (check_dead-Flags in_time accepted (silent_checks events) _
      (peer_after-Flags events id output)).0
