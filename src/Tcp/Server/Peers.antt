-- ===== src/Tcp/Server/Peers.antt =====
-- The list of a server's peers: what its operations keep (src/zerobus/bridge_tcp_server.cpp).
use zerobus.Prelude.{
  ℕ, suc, ◌≤◌, ◌≡◌, refl, sym, Bool, true, false, List, [], ◌∷◌, ◌++◌, map, arith, ◌==◌,
  if◌then◌else◌, All, Bool-cases, inl, inr,
}
use mathlib.Core.Path.{subst}
use zerobus.Tcp.Peer.{Peer, check_dead}
use zerobus.Tcp.Server.{ServerPeer, Server, put_peer, erase_lost, ping_peers}

-- The numbers rise, from `lo` on and below `hi`.
abbrev pub Rising : ℕ → List ServerPeer → ℕ → Type 0
Rising lo [] hi = lo ≤ hi
Rising lo (p ∷ peers) hi = (lo ≤ p.base.id) × Rising (suc p.base.id) peers hi

-- If the peer is lost, the flag is set.
abbrev pub Noted : Bool → ServerPeer → Type 0
Noted flag p = p.lost ≡ true → flag ≡ true

-- In order, and with the next number at most `k`.
pub record IsServer (k : ℕ) (s : Server) : Type 0 where
  pub rising : Rising 0 s.peers s.id_cntr
  pub noted : All (Noted s.lost_peers_flag) s.peers
  pub bounded : s.id_cntr ≤ k

pub Rising-weaken :
    (lo lower : ℕ) (peers : List ServerPeer) (hi : ℕ)
    → lower ≤ lo
    → Rising lo peers hi
    → Rising lower peers hi
Rising-weaken lo lower [] hi l r = omega (arith, l, r)
Rising-weaken lo lower (p ∷ peers) hi l r = (omega (arith, l, r.0), r.1)

pub Rising-append :
    (lo : ℕ) (peers : List ServerPeer) (p : ServerPeer) (hi : ℕ)
    → p.base.id ≡ hi
    → Rising lo peers hi
    → Rising lo (peers ++ (p ∷ [])) (suc hi)
Rising-append lo [] p hi e r = (omega (arith, e, r), omega (arith, e))
Rising-append lo (q ∷ peers) p hi e r = (r.0, Rising-append (suc q.base.id) peers p hi e r.1)

-- Another entry for each peer, with its number.
pub Rising-map :
    (f : ServerPeer → ServerPeer) (lo : ℕ) (peers : List ServerPeer) (hi : ℕ)
    → ((p : ServerPeer) → (f p).base.id ≡ p.base.id)
    → Rising lo peers hi
    → Rising lo (map f peers) hi
Rising-map f lo [] hi e r = r
Rising-map f lo (p ∷ peers) hi e r = (
  omega (arith, e p, r.0),
  Rising-map f (suc (f p).base.id) peers hi e
      (subst (λ i. Rising (suc i) peers hi) (sym (e p)) r.1),
)

pub All-map :
    (P : ServerPeer → Type 0) (f : ServerPeer → ServerPeer) (peers : List ServerPeer)
    → ((p : ServerPeer) → P p → P (f p))
    → All P peers
    → All P (map f peers)
All-map P f [] h a = tt
All-map P f (p ∷ peers) h a = (h p a.0, All-map P f peers h a.1)

pub put-id : (p q : ServerPeer) → (if q.base.id == p.base.id then p else q).base.id ≡ q.base.id
put-id p q = elim (Bool-cases (q.base.id == p.base.id)) [
  | inl e ↦ let same : q.base.id ≡ p.base.id = ground (arith, e) in rw e (sym same)
  | inr e ↦ rw e refl
]

put-Noted :
    (flag : Bool) (p q : ServerPeer)
    → Noted flag p
    → Noted flag q
    → Noted flag (if q.base.id == p.base.id then p else q)
put-Noted flag p q n m = elim (Bool-cases (q.base.id == p.base.id)) [
  | inl e ↦ rw e n
  | inr e ↦ rw e m
]

pub put_peer-IsServer :
    {k : ℕ}
    → (p : ServerPeer) (s : Server) → Noted s.lost_peers_flag p
    → IsServer k s
    → IsServer k (put_peer p s)
put_peer-IsServer p s n v = record {
  bounded = v.bounded;
  rising = Rising-map _ 0 s.peers s.id_cntr (put-id p) v.rising;
  noted =
      All-map (Noted s.lost_peers_flag) _ s.peers (λ q. put-Noted s.lost_peers_flag p q n) v.noted;
}

pub All-Noted : (peers : List ServerPeer) → All (Noted true) peers
All-Noted [] = tt
All-Noted (p ∷ peers) = (λ h. refl, All-Noted peers)

check_dead-id :
    (in_time : Bool) (accepted : ℕ) (p : Peer) → (check_dead in_time accepted p).1.id ≡ p.id
unfolding check_dead
check_dead-id in_time accepted p = elim (Bool-cases p.activity_check) [
  | inl e ↦ elim (Bool-cases p.ping_sent) [ inl d ↦ rw (e, d) refl | inr d ↦ rw (e, d) refl ]
  | inr e ↦ rw e refl
]

pub Rising-erase :
    (lo : ℕ) (peers : List ServerPeer) (hi : ℕ)
    → Rising lo peers hi
    → Rising lo (erase_lost peers).0 hi
unfolding erase_lost
Rising-erase lo [] hi r = r
Rising-erase lo (p ∷ peers) hi r =
    let rest = Rising-erase (suc p.base.id) peers hi r.1 in
    elim (Bool-cases p.lost) [
      | inl e ↦
          rw e (Rising-weaken (suc p.base.id) lo (erase_lost peers).0 hi (omega (arith, r.0)) rest)
      | inr e ↦ rw e (r.0, rest)
    ]

-- No peer that stays is lost.
pub stay-Noted : (flag : Bool) (peers : List ServerPeer) → All (Noted flag) (erase_lost peers).0
unfolding erase_lost
stay-Noted flag [] = tt
stay-Noted flag (p ∷ peers) = elim (Bool-cases p.lost) [
  | inl e ↦ rw e (stay-Noted flag peers)
  | inr e ↦ rw e ((λ (h : false ≡ true). absurd cc), stay-Noted flag peers)
]

pub Rising-ping :
    (answer : ℕ → Bool × ℕ) (lo : ℕ) (peers : List ServerPeer) (hi : ℕ)
    → Rising lo peers hi
    → Rising lo (ping_peers answer peers).0 hi
unfolding ping_peers
Rising-ping answer lo [] hi r = r
Rising-ping answer lo (p ∷ peers) hi r =
    let (in_time, accepted) = answer p.base.id in
    let rest = Rising-ping answer (suc p.base.id) peers hi r.1 in
    let same = check_dead-id in_time accepted p.base in
    elim (Bool-cases (check_dead in_time accepted p.base).0) [
      | inl e ↦ rw e (
          Rising-weaken (suc p.base.id) lo (ping_peers answer peers).0 hi (omega (arith, r.0)) rest)
      | inr e ↦ rw e (
        omega (arith, r.0, same),
        subst (λ i. Rising (suc i) (ping_peers answer peers).0 hi) (sym same) rest,
      )
    ]

pub Noted-ping :
    (flag : Bool) (answer : ℕ → Bool × ℕ) (peers : List ServerPeer)
    → All (Noted flag) peers
    → All (Noted flag) (ping_peers answer peers).0
unfolding ping_peers
Noted-ping flag answer [] a = tt
Noted-ping flag answer (p ∷ peers) a =
    let (in_time, accepted) = answer p.base.id in
    let rest = Noted-ping flag answer peers a.1 in
    elim (Bool-cases (check_dead in_time accepted p.base).0) [
      | inl e ↦ rw e rest
      | inr e ↦ rw e (a.0, rest)
    ]
