-- ===== src/Tcp/Server/Timeout.antt =====
-- What the server's timeout leaves and does: BridgeTCPServer::on_timeout with the destructor of a
-- peer (src/zerobus/bridge_tcp_server.cpp).
use zerobus.Prelude.{
  ℕ, not, Bool-cases, inl, inr, ◌≡◌, refl, sym, ap, ◌∙◌, Bool, true, false, List, [], ◌∷◌, ◌++◌,
  append_assoc, append-nil, if◌then◌else◌, All,
}
use mathlib.Core.Path.{subst, ap₂}
use zerobus.Tcp.Server.{
  ServerAct, destroys, unsubscribes, sends_channels, ServerPeer, Server, send_channels,
  destroy_peer, erase_lost, update_peers, drop_lost, on_timeout,
}
use zerobus.Tcp.Server.Peers.{Noted}

-- The peers that are not lost.
unfoldable pub live : List ServerPeer → List ServerPeer
live [] = []
live (p ∷ peers) = let rest = live peers in if p.lost then rest else p ∷ rest

-- What a peer that goes away does: its handle is destroyed, unless it was given away, and its
-- bridge leaves the bus.
abbrev pub goes_away : Bool → ℕ → ℕ → List ServerAct
goes_away true aux id = unsubscribes id ∷ []
goes_away false aux id = destroys aux ∷ unsubscribes id ∷ []

goes_away_lem :
    (b : Bool) (p : ServerPeer) → p.destroyed ≡ b → destroy_peer p ≡ goes_away b p.aux p.base.id
goes_away_lem true p h = rw h refl
goes_away_lem false p h = rw h refl

-- What the lost peers do.
unfoldable pub closings : List ServerPeer → List ServerAct
closings [] = []
closings (p ∷ peers) =
    let rest = closings peers in
    if p.lost then goes_away p.destroyed p.aux p.base.id ++ rest else rest

split_choice :
    (b : Bool) (p : ServerPeer) (acts : List ServerAct) (r : List ServerPeer × List ServerAct)
    → ◌≡◌ {A = List ServerPeer × List ServerAct}
        (if b then (r.0, acts ++ r.1) else (p ∷ r.0, r.1))
        (if b then r.0 else p ∷ r.0, if b then acts ++ r.1 else r.1)
split_choice true p acts r = refl
split_choice false p acts r = refl

erase_lost_lem : (peers : List ServerPeer) → erase_lost peers ≡ (live peers, closings peers)
unfolding erase_lost live closings
erase_lost_lem [] = refl
erase_lost_lem (p ∷ peers) =
    split_choice p.lost p (destroy_peer p) (erase_lost peers)
    ∙ ap₂ (λ x d. (if p.lost then x.0 else p ∷ x.0, if p.lost then d ++ x.1 else x.1))
        (erase_lost_lem peers) (goes_away_lem p.destroyed p refl)

other_branch : {A : Type 0} → (b : Bool) (x y : A) → b ≡ false → (if b then x else y) ≡ y
other_branch b x y h = rw h refl

not_true : (b : Bool) → (b ≡ true → false ≡ true) → b ≡ false
not_true true h = sym (h refl)
not_true false h = refl

-- Without the flag no peer is lost.
live_same :
    (peers : List ServerPeer)
    → All (Noted false) peers
    → (live peers ≡ peers) × (closings peers ≡ [])
unfolding live closings
live_same [] a = (refl, refl)
live_same (p ∷ peers) a =
    let kept = not_true p.lost a.0 in
    let (same, none) = live_same peers a.1 in
    (
      other_branch p.lost (live peers) (p ∷ live peers) kept ∙ ap (◌∷◌ p) same,
      other_branch p.lost (goes_away p.destroyed p.aux p.base.id ++ closings peers) (closings peers)
            kept
          ∙ none,
    )

abbrev removed : Server → Server
removed s =
    let (stay, acts) = erase_lost s.peers in
    record s { peers = stay; lost_peers_flag = false; acts = s.acts ++ acts }

drops-Noted :
    (b : Bool) (s : Server)
    → s.lost_peers_flag ≡ b
    → All (Noted s.lost_peers_flag) s.peers
    → ((drop_lost s).peers ≡ live s.peers) × ((drop_lost s).acts ≡ s.acts ++ closings s.peers)
drops-Noted true s h v =
    let start = ap (λ b. if b then removed s else s) h in
    (
      ap (λ t. t.peers) start ∙ ap (λ x. x.0) (erase_lost_lem s.peers),
      ap (λ t. t.acts) start ∙ ap (λ x. s.acts ++ x.1) (erase_lost_lem s.peers),
    )
drops-Noted false s h v =
    let (same, none) = live_same s.peers (subst (λ f. All (Noted f) s.peers) h v) in
    let start = ap (λ b. if b then removed s else s) h in
    (
      ap (λ t. t.peers) start ∙ sym same,
      ap (λ t. t.acts) start ∙ sym (append-nil s.acts) ∙ ap (λ x. s.acts ++ x) (sym none),
    )

-- Only a peer past its handshake sends its channels.
abbrev pub asks : Bool → ℕ → List ServerAct
asks true id = []
asks false id = sends_channels id ∷ []

abbrev pub asked_peers : List ServerPeer → List ServerAct
asked_peers [] = []
asked_peers (p ∷ peers) = asks p.base.output.handshake p.base.id ++ asked_peers peers

asks_lem :
    (b : Bool) (id : ℕ) (rest : List ServerAct)
    → (if not b then sends_channels id ∷ rest else rest) ≡ asks b id ++ rest
asks_lem true id rest = refl
asks_lem false id rest = refl

send_channels_lem : (peers : List ServerPeer) → send_channels peers ≡ asked_peers peers
unfolding send_channels
send_channels_lem [] = refl
send_channels_lem (p ∷ peers) =
    asks_lem p.base.output.handshake p.base.id (send_channels peers)
    ∙ ap (λ x. asks p.base.output.handshake p.base.id ++ x) (send_channels_lem peers)

-- What the peers are asked for.
abbrev pub asked_for : Server → List ServerAct
asked_for s = if s.send_mine_channels_flag then asked_peers s.peers else []

update_peers-Noted :
    (s : Server)
    → All (Noted s.lost_peers_flag) s.peers
    → All (Noted (update_peers s).lost_peers_flag) (update_peers s).peers
update_peers-Noted s v = elim (Bool-cases s.send_mine_channels_flag) [
  | inl e ↦ rw e v
  | inr e ↦ rw e v
]

updated_lem :
    (b : Bool) (s : Server)
    → ((if b then record s { acts = s.acts ++ send_channels s.peers } else s).peers ≡ s.peers)
      × ((if b then record s { acts = s.acts ++ send_channels s.peers } else s).acts
          ≡ s.acts ++ (if b then send_channels s.peers else []))
updated_lem true s = (refl, refl)
updated_lem false s = (refl, sym (append-nil s.acts))

-- If the flag is set when a peer is lost, the server's timeout leaves exactly the peers that
-- are not lost, in their order; what it does is to ask the peers past their handshake, in
-- order, to send their channels, if that was asked for, and then, for each lost peer in order,
-- to destroy its handle, if the peer has not given it away, and to unsubscribe its bridge from
-- the bus.
pub on_timeout-live :
    (s : Server)
    → All (Noted s.lost_peers_flag) s.peers
    → ((on_timeout s).peers ≡ live s.peers)
      × ((on_timeout s).acts ≡ s.acts ++ (asked_for s ++ closings s.peers))
unfolding on_timeout
on_timeout-live s v =
    let t = update_peers s in
    let (peers, acts) = updated_lem s.send_mine_channels_flag s in
    let drops = drops-Noted t.lost_peers_flag t refl (update_peers-Noted s v) in
    let asked = ap (λ x. if s.send_mine_channels_flag then x else []) (send_channels_lem s.peers) in
    (
      drops.0 ∙ ap live peers,
      drops.1
          ∙ ap₂ (λ x y. x ++ closings y) (acts ∙ ap (λ x. s.acts ++ x) asked) peers
          ∙ append_assoc s.acts (asked_for s) (closings s.peers),
    )
