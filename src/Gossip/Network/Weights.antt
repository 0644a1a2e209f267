-- ===== src/Gossip/Network/Weights.antt =====
-- cmd/gossip/gossip/protocol.go run by several nodes: the copies of one message, in flight and to come.
use go_simple_protocol_runti.Common.{
  put_back, nth, ℕ, zero, suc, ◌+◌, ◌≤◌, ◌≡◌, ap, List, [], ◌∷◌, ◌++◌, length, Bool, true, false,
  ◌&&◌, ◌||◌, Option, none, some, if◌then◌else◌, ◌==◌, nat_eq, arith,
}
use go_simple_protocol_runti.Transport.Host.{Host, host_eq, host_beq_iff}
use go_simple_protocol_runti.Gossip.{Message, Protocol, is_seen, contains, excluding, fanout}
use go_simple_protocol_runti.Gossip.Network.{
  Packet, Network, packets, set_node, Move, originate, arrive, move,
}
use go_simple_protocol_runti.Gossip.Network.Handled.{Handled, seen_after, view_after}

-- The copies in flight of the message with an id.
abbrev pub in_flight : ℕ → List Packet → ℕ
in_flight id [] = 0
in_flight id (x ∷ flight) = (if x.msg.id == id then 1 else 0) + in_flight id flight

-- What a node may still send on.
abbrev pub weight : ℕ → Protocol → ℕ
weight id p = if is_seen id p.seen then 0 else length p.view

abbrev backlog : ℕ → (Host → Protocol) → List Host → ℕ
backlog id node [] = 0
backlog id node (b ∷ hosts) = weight id (node b) + backlog id node hosts

-- The copies in flight and those that the nodes which have not seen the message may send.
abbrev pub copies_left : ℕ → List Host → Network → ℕ
copies_left id hosts n = in_flight id n.flight + backlog id n.node hosts

abbrev pub brought : ℕ → Option (Packet × List Packet) → ℕ
brought id none = 0
brought id (some taken) = if taken.0.msg.id == id then 1 else 0

-- How many of the moves bring a node a copy of the message.
abbrev pub arrivals : ℕ → List Move → Network → ℕ
arrivals id [] n = 0
arrivals id (originate a i payload ∷ ms) n = arrivals id ms (move (originate a i payload) n)
arrivals id (arrive k ∷ ms) n = brought id (nth k n.flight) + arrivals id ms (move (arrive k) n)

-- Whether one of the moves is a broadcast under an id.
abbrev pub mints_id : ℕ → List Move → Bool
mints_id id [] = false
mints_id id (originate a i payload ∷ ms) = (i == id) || mints_id id ms
mints_id id (arrive k ∷ ms) = mints_id id ms

pub in_flight-append :
    (id : ℕ) (xs ys : List Packet) → in_flight id (xs ++ ys) ≡ in_flight id xs + in_flight id ys
in_flight-append id [] ys = omega arith
in_flight-append id (x ∷ xs) ys = omega (arith, in_flight-append id xs ys)

pub fanout-in_flight :
    (id : ℕ) (a : Host) (m : Message) (peers : List Host) (p : Protocol)
    → in_flight id (packets a (fanout m peers p).sent)
      ≡ (if m.id == id then length peers else 0) + in_flight id (packets a p.sent)
unfolding fanout
fanout-in_flight id a m [] p = ground arith
fanout-in_flight id a m (peer ∷ peers) p =
    ground (arith, fanout-in_flight id a m peers (record p { sent = (m, peer) ∷ p.sent }))

pub excluding_shrinks :
    (gone : Host) (view : List Host) → length (excluding view gone) ≤ length view
unfolding excluding
excluding_shrinks gone [] = omega arith
excluding_shrinks gone (x ∷ view) = ground (arith, excluding_shrinks gone view)

pub nth-in_flight :
    (id k : ℕ) (flight rest : List Packet) (x : Packet)
    → ◌≡◌ {A = Option (Packet × List Packet)} (nth k flight) (some (x, rest))
    → in_flight id flight ≡ (if x.msg.id == id then 1 else 0) + in_flight id rest
nth-in_flight id k [] rest x e = cc
nth-in_flight id zero (y ∷ flight) rest x e =
    let same : ◌≡◌ {A = Packet × List Packet} (y, flight) (x, rest) = cc in
    ap (λ (t : Packet × List Packet). (if t.0.msg.id == id then 1 else 0) + in_flight id t.1) same
nth-in_flight id (suc k) (y ∷ flight) rest x e =
    let (r, taken, others) = put_back y x rest (nth k flight) e in
    rw others (omega (arith, nth-in_flight id k flight r x taken))

module _ (n : Network) (a : Host) (msg : Message) (p : Protocol) (rest : List Packet)
    (h : Handled n a msg p rest) (id : ℕ) where
  weight_after :
      (b : Host)
      → weight id (set_node a (record p { sent = [] }) n.node b)
        ≡ (if (a == b) && (msg.id == id) then 0 else weight id (n.node b))
  weight_after b =
      rw (seen_after n a msg p rest h b id, view_after n a msg p rest h b) (ground arith)

  pub backlog_after :
      (hosts : List Host)
      → backlog id (set_node a (record p { sent = [] }) n.node) hosts
          + (if contains a hosts && (msg.id == id) then weight id (n.node a) else 0)
        ≤ backlog id n.node hosts
  unfolding contains
  backlog_after [] = ground arith
  backlog_after (b ∷ hosts) = ground (
    arith,
    weight_after b,
    backlog_after hosts,
    host_beq_iff a b,
    host_beq_iff b a,
    λ (e : (a == b) ≡ true). ap (λ (x : Host). weight id (n.node x)) ((host_beq_iff a b).0 e),
  )
