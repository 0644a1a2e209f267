-- ===== src/Gossip/Network/Fanout.antt =====
-- cmd/gossip/gossip/protocol.go run by several nodes: what is taken out of flight and what `fanout` sends.
use go_simple_protocol_runti.Common.{
  put_back, nth, ℕ, zero, suc, ◌≡◌, refl, sym, ap, List, [], ◌∷◌, true, ◌&&◌, ◌||◌, Option, some,
  ◌==◌, nat_eq, All, arith, subst,
}
use go_simple_protocol_runti.Transport.Host.{Host, host_eq}
use go_simple_protocol_runti.Gossip.{Message, Protocol, contains, fanout}
use go_simple_protocol_runti.Gossip.Network.{Packet, packets, is_coming}

-- A message taken out of flight.
pub nth-coming :
    (k : ℕ) (flight rest : List Packet) (x : Packet)
    → ◌≡◌ {A = Option (Packet × List Packet)} (nth k flight) (some (x, rest))
    → (b : Host) (id : ℕ) → is_coming id b flight ≡ true
    → (is_coming id b rest || ((x.receiver == b) && (x.msg.id == id))) ≡ true
nth-coming k [] rest x e b id c = cc
nth-coming zero (y ∷ flight) rest x e b id c =
    let same : ◌≡◌ {A = Packet × List Packet} (y, flight) (x, rest) = cc in
    let first : y ≡ x = ap (λ (t : Packet × List Packet). t.0) same in
    let others : flight ≡ rest = ap (λ (t : Packet × List Packet). t.1) same in
    rw (← first, ← others) (ground arith)
nth-coming (suc k) (y ∷ flight) rest x e b id c =
    let (r, taken, others) = put_back y x rest (nth k flight) e in
    rw others (ground (arith, nth-coming k flight r x taken b id))

pub nth-All {κ} :
    (P : Packet → Type κ) (k : ℕ) (flight rest : List Packet) (x : Packet)
    → ◌≡◌ {A = Option (Packet × List Packet)} (nth k flight) (some (x, rest))
    → All P flight
    → P x × All P rest
nth-All P k [] rest x e h = absurd cc
nth-All P zero (y ∷ flight) rest x e h =
    let same : ◌≡◌ {A = Packet × List Packet} (y, flight) (x, rest) = cc in
    subst (λ (t : Packet × List Packet). P t.0 × All P t.1) same h
nth-All P (suc k) (y ∷ flight) rest x e h =
    let (r, taken, others) = put_back y x rest (nth k flight) e in
    let (one, more) = nth-All P k flight r x taken h.1 in
    (one, subst (All P) (sym others) (h.0, more))

pub fanout-coming :
    (id : ℕ) (a b : Host) (m : Message) (peers : List Host) (p : Protocol)
    → is_coming id b (packets a (fanout m peers p).sent)
      ≡ ((contains b peers && (m.id == id)) || is_coming id b (packets a p.sent))
unfolding fanout contains
fanout-coming id a b m [] p = refl
fanout-coming id a b m (peer ∷ peers) p =
    ground (arith, fanout-coming id a b m peers (record p { sent = (m, peer) ∷ p.sent }))

pub fanout-from :
    (a : Host) (m : Message) (peers : List Host) (p : Protocol)
    → All (λ (x : Packet). (x.sender ≡ a) × (x.msg ≡ m)) (packets a p.sent)
    → All (λ (x : Packet). (x.sender ≡ a) × (x.msg ≡ m)) (packets a (fanout m peers p).sent)
unfolding fanout
fanout-from a m [] p h = h
fanout-from a m (peer ∷ peers) p h =
    fanout-from a m peers (record p { sent = (m, peer) ∷ p.sent }) ((refl, refl), h)

pub fanout_fields :
    (m : Message) (peers : List Host) (p : Protocol)
    → ((fanout m peers p).seen ≡ p.seen) × ((fanout m peers p).view ≡ p.view)
unfolding fanout
fanout_fields m [] p = (refl, refl)
fanout_fields m (peer ∷ peers) p = fanout_fields m peers (record p { sent = (m, peer) ∷ p.sent })

pub fanout_delivered :
    (m : Message) (peers : List Host) (p : Protocol) → (fanout m peers p).delivered ≡ p.delivered
unfolding fanout
fanout_delivered m [] p = refl
fanout_delivered m (peer ∷ peers) p =
    fanout_delivered m peers (record p { sent = (m, peer) ∷ p.sent })
