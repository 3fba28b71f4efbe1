-- ===== src/Tcp/Server/Events.antt =====
-- No lost peer is forgotten: the states that a server reaches, and what its timeout leaves
-- (src/zerobus/bridge_tcp_server.cpp).
use zerobus.Prelude.{
  ℕ, suc, ◌+◌, ◌<◌, ◌%◌, ◌^◌, arith, ◌≡◌, refl, Bool, true, false, List, [], ◌∷◌, ◌++◌,
  if◌then◌else◌, All-append,
}
use mathlib.Core.Path.{subst}
use zerobus.Wire.Uint.{Bytes}
use zerobus.Tcp.Server.{
  Server, new_server, on_channels_update, new_server_peer, on_accept, update_peers, drop_lost,
  on_timeout, send_ping, set_hwm,
}
use zerobus.Tcp.Server.Session.{peer_receive_complete, on_peer_timeout, on_lost}
use zerobus.Tcp.Server.Peers.{
  Noted, IsServer, Rising, Rising-append, Rising-map, All-map, Rising-erase, stay-Noted,
  Rising-ping, Noted-ping,
}
use zerobus.Tcp.Server.Noted.{
  act-IsServer, close-Working, lose_peer-Working, receive_peer-Working, found-IsServer,
}

-- What the server and its peers do, with what the network brings.
pub data ServerEvent : Type 0 where
  accepted_one timed_out : ℕ → ServerEvent
  updated server_timed_out : ServerEvent
  received : ℕ → ℕ → ℕ → Bytes → ServerEvent
  connection_lost : ℕ → ℕ → ServerEvent
  pinged : (ℕ → Bool × ℕ) → ServerEvent
  mark_set timeout_set : ℕ → ServerEvent
  http_set : Bool → ServerEvent

unfoldable pub handle : ServerEvent → Server → Server
handle (accepted_one aux) s = on_accept aux s
handle (timed_out id) s = on_peer_timeout id s
handle updated s = on_channels_update s
handle server_timed_out s = on_timeout s
handle (received now id accepted data_in) s = peer_receive_complete now id accepted data_in s
handle (connection_lost now id) s = on_lost now id s
handle (pinged answer) s = send_ping answer s
handle (mark_set size) s = set_hwm size s
handle (timeout_set seconds) s = record s { session_timeout = seconds }
handle (http_set b) s = record s { has_http_server = b }

unfoldable pub handle_events : List ServerEvent → Server → Server
handle_events [] s = s
handle_events (e ∷ events) s = handle_events events (handle e s)

either-IsServer :
    {k : ℕ}
    → (b : Bool) (s t : Server) → IsServer k s
    → IsServer k t
    → IsServer k (if b then s else t)
either-IsServer true s t v w = v
either-IsServer false s t v w = w

drop_lost-IsServer : {k : ℕ} → (s : Server) → IsServer k s → IsServer k (drop_lost s)
drop_lost-IsServer s v =
    either-IsServer s.lost_peers_flag _ s
      (record {
        rising = Rising-erase 0 s.peers s.id_cntr v.rising;
        noted = stay-Noted false s.peers;
        bounded = v.bounded;
      })
      v

update_peers-IsServer : {k : ℕ} → (s : Server) → IsServer k s → IsServer k (update_peers s)
update_peers-IsServer s v =
    either-IsServer s.send_mine_channels_flag _ s
      (record { rising = v.rising; noted = v.noted; bounded = v.bounded }) v

on_timeout-IsServer : {k : ℕ} → (s : Server) → IsServer k s → IsServer k (on_timeout s)
unfolding on_timeout
on_timeout-IsServer s v = drop_lost-IsServer (update_peers s) (update_peers-IsServer s v)

-- How many connections an event, and events, have the server accept.
unfoldable pub accepts_of : ServerEvent → ℕ
accepts_of (accepted_one aux) = 1
accepts_of _ = 0

unfoldable pub accepts_in : List ServerEvent → ℕ
accepts_in [] = 0
accepts_in (e ∷ events) = accepts_of e + accepts_in events

on_accept-IsServer :
    (k aux : ℕ) (s : Server) → k + 1 < 2 ^ 32 → IsServer k s → IsServer (k + 1) (on_accept aux s)
unfolding on_accept
on_accept-IsServer k aux s h v =
    let p = new_server_peer s.id_cntr aux s.hwm in
    let next : suc s.id_cntr ≡ (s.id_cntr + 1) % 2 ^ 32 = omega (arith, h, v.bounded) in
    record {
      rising =
          subst (Rising 0 (s.peers ++ (p ∷ []))) next
            (Rising-append 0 s.peers p s.id_cntr refl v.rising);
      noted =
          All-append (Noted s.lost_peers_flag) s.peers _ v.noted
            (λ (h : false ≡ true). absurd cc, tt);
      bounded = omega (arith, h, v.bounded);
    }

-- The bound of the next number behind an event.
unfoldable next_bound : ServerEvent → ℕ → ℕ
next_bound (accepted_one aux) k = k + 1
next_bound _ k = k

next_bound_lem : (e : ServerEvent) (k : ℕ) → next_bound e k ≡ k + accepts_of e
unfolding next_bound accepts_of
next_bound_lem (accepted_one aux) k = refl
next_bound_lem (timed_out id) k = omega arith
next_bound_lem updated k = omega arith
next_bound_lem server_timed_out k = omega arith
next_bound_lem (received now id accepted data_in) k = omega arith
next_bound_lem (connection_lost now id) k = omega arith
next_bound_lem (pinged answer) k = omega arith
next_bound_lem (mark_set size) k = omega arith
next_bound_lem (timeout_set seconds) k = omega arith
next_bound_lem (http_set b) k = omega arith

handle-IsServer :
    (k : ℕ) (e : ServerEvent) (s : Server)
    → next_bound e k < 2 ^ 32
    → IsServer k s
    → IsServer (next_bound e k) (handle e s)
unfolding handle peer_receive_complete on_peer_timeout on_lost send_ping set_hwm next_bound
handle-IsServer k (accepted_one aux) s h v = on_accept-IsServer k aux s h v
handle-IsServer k (timed_out id) s h v =
    found-IsServer id _ s (λ p n. close-Working p _ (act-IsServer _ s v)) v
handle-IsServer k updated s h v = record { rising = v.rising; noted = v.noted; bounded = v.bounded }
handle-IsServer k server_timed_out s h v = on_timeout-IsServer s v
handle-IsServer k (received now id accepted data_in) s h v =
    found-IsServer id _ s (λ p n. receive_peer-Working now accepted data_in p s (n, v)) v
handle-IsServer k (connection_lost now id) s h v =
    found-IsServer id _ s (λ p n. lose_peer-Working now p s (n, v)) v
handle-IsServer k (pinged answer) s h v = record {
  rising = Rising-ping answer 0 s.peers s.id_cntr v.rising;
  bounded = v.bounded;
  noted = Noted-ping s.lost_peers_flag answer s.peers v.noted;
}
handle-IsServer k (mark_set size) s h v = record {
  rising = Rising-map _ 0 s.peers s.id_cntr (λ p. refl) v.rising;
  bounded = v.bounded;
  noted = All-map (Noted s.lost_peers_flag) _ s.peers (λ p n. n) v.noted;
}
handle-IsServer k (timeout_set seconds) s h v = record {
  rising = v.rising;
  noted = v.noted;
  bounded = v.bounded;
}
handle-IsServer k (http_set b) s h v = record {
  rising = v.rising;
  noted = v.noted;
  bounded = v.bounded;
}

new_server-IsServer : (aux : ℕ) (path : Bytes) → IsServer 1 (new_server aux path)
new_server-IsServer aux path = record { rising = omega arith; noted = tt; bounded = omega arith }

more-IsServer :
    (k : ℕ) (events : List ServerEvent) (s : Server)
    → k + accepts_in events < 2 ^ 32
    → IsServer k s
    → IsServer (k + accepts_in events) (handle_events events s)
unfolding handle_events accepts_in
more-IsServer k [] s h v = subst (λ i. IsServer i s) (omega arith) v
more-IsServer k (e ∷ events) s h v =
    let n = next_bound_lem e k in
    subst (λ i. IsServer i (handle_events events (handle e s))) (omega (arith, n))
      (more-IsServer (next_bound e k) events (handle e s) (omega (arith, h, n))
        (handle-IsServer k e s (omega (arith, h, n)) v))

-- After any sequence of accepted connections, received data, lost connections, timeouts, pings
-- and settings, with any answers of the network, in which fewer than 2 ^ 32 - 1 connections are
-- accepted, so that the counter of the numbers has not wrapped, the numbers of a new server's
-- peers rise along its list and stay below the next one, which is at most one more than the
-- count of connections accepted, and the flag of lost peers is set if any peer in the list is
-- lost.
pub handle_events-IsServer :
    (aux : ℕ) (path : Bytes) (events : List ServerEvent)
    → 1 + accepts_in events < 2 ^ 32
    → IsServer (1 + accepts_in events) (handle_events events (new_server aux path))
handle_events-IsServer aux path events h =
    more-IsServer 1 events (new_server aux path) h (new_server-IsServer aux path)
