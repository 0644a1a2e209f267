-- ===== src/Gossip/Network/Spread.antt =====
-- cmd/gossip/gossip/protocol.go run by several nodes: what a broadcast reaches.
use go_simple_protocol_runti.Common.{
  ℕ, ◌≡◌, refl, ap, subst, ◌∙◌, List, [], ◌∷◌, true, ◌&&◌, ◌==◌, nat_eq, nat_beq_iff, inl, inr,
  Bool-cases, arith, Member, here, there,
}
use go_simple_protocol_runti.Transport.Host.{Host, host_eq, host_beq_iff}
use go_simple_protocol_runti.Gossip.{is_seen, contains}
use go_simple_protocol_runti.Gossip.Network.{
  Network, Move, originate, arrive, move, run_moves, Spreads, Fresh, Reaches, itself, hop,
  broadcasts_id, is_coming,
}
use go_simple_protocol_runti.Gossip.Network.Genuine.{
  Broadcasts, HasPayload, run_moves-Only, Fresh-Only, delivered-Member,
}
use go_simple_protocol_runti.Gossip.Network.Moves.{
  move-Spreads, move-view, move-seen, originate-seen,
}

pub run_moves-Spreads : (ms : List Move) (n : Network) → Spreads n → Spreads (run_moves ms n)
run_moves-Spreads [] n s = s
run_moves-Spreads (m ∷ ms) n s = run_moves-Spreads ms (move m n) (move-Spreads m n s)

pub run_moves-view :
    (ms : List Move) (n : Network)
    → Spreads n
    → (b : Host) → ((run_moves ms n).node b).view ≡ (n.node b).view
run_moves-view [] n s b = refl
run_moves-view (m ∷ ms) n s b =
    run_moves-view ms (move m n) (move-Spreads m n s) b ∙ move-view m n s b

run_moves-seen :
    (ms : List Move) (n : Network)
    → Spreads n
    → (b : Host) (id : ℕ) → is_seen id (n.node b).seen ≡ true
    → is_seen id ((run_moves ms n).node b).seen ≡ true
run_moves-seen [] n s b id seen = seen
run_moves-seen (m ∷ ms) n s b id seen =
    run_moves-seen ms (move m n) (move-Spreads m n s) b id (move-seen m n s b id seen)

broadcast_seen :
    (ms : List Move) (n : Network)
    → Spreads n
    → (a : Host) (id : ℕ) → broadcasts_id a id ms ≡ true
    → is_seen id ((run_moves ms n).node a).seen ≡ true
broadcast_seen [] n s a id e = cc
broadcast_seen (arrive k ∷ ms) n s a id e =
    broadcast_seen ms (move (arrive k) n) (move-Spreads (arrive k) n s) a id e
broadcast_seen (originate c i payload ∷ ms) n s a id e =
    let next = move (originate c i payload) n in
    let s' = move-Spreads (originate c i payload) n s in
    elim (Bool-cases ((c == a) && (i == id))) [
      | inl now ↦
          let who : c ≡ a = ground (arith, host_beq_iff c a) in
          let which : i ≡ id = ground (arith, nat_beq_iff i id) in
          run_moves-seen ms next s' a id (
            subst (λ (b : Host). is_seen id (next.node b).seen ≡ true) who
              (subst (λ (j : ℕ). is_seen j (next.node c).seen ≡ true) which
                (originate-seen n c i payload s)))
      | inr later ↦ broadcast_seen ms next s' a id (ground arith)
    ]

-- With nothing in flight, what a node has seen, every node that it reaches has seen.
reached_seen :
    (n final : Network)
    → Spreads final
    → final.flight ≡ []
    → ((b : Host) → (final.node b).view ≡ (n.node b).view)
    → (a c : Host) (id : ℕ) → is_seen id (final.node a).seen ≡ true
    → Reaches n a c
    → is_seen id (final.node c).seen ≡ true
reached_seen n final s quiet views a c id seen itself = seen
reached_seen n final s quiet views a c id seen (hop {b} path viewed) =
    let before = reached_seen n final s quiet views a b id seen path in
    let next = s.covered b c id before (ap (contains c) (views b) ∙ viewed) in
    let none_coming : is_coming id c final.flight ≡ is_coming id c [] = ap (is_coming id c) quiet in
    ground arith

pub Fresh-Spreads : (n : Network) → Fresh n → Spreads n
unfolding is_seen
Fresh-Spreads n f = record {
  sender_seen = rw f.no_flight tt;
  covered = λ (a : Host). λ (b : Host). λ (id : ℕ). λ seen. λ viewed.
      let none_seen : is_seen id (n.node a).seen ≡ is_seen id [] = ap (is_seen id) (f.no_seen a) in
      absurd cc;
  sent_empty = f.no_sent;
  delivered_seen = λ (a : Host). λ (id : ℕ). rw (f.no_seen a, f.no_delivered a) refl;
}

Member-broadcasts_id :
    (a : Host) (id : ℕ) (payload : List ℕ) (ms : List Move)
    → Member (originate a id payload) ms
    → broadcasts_id a id ms ≡ true
Member-broadcasts_id a id payload [] m = elim m [ ]
Member-broadcasts_id a id payload (m ∷ ms) (here e) =
    subst (λ (first : Move). broadcasts_id a id (first ∷ ms) ≡ true) e
      (ground (arith, host_beq_iff a a, nat_beq_iff id id))
Member-broadcasts_id a id payload (originate c i sent ∷ ms) (there later) =
    let ih = Member-broadcasts_id a id payload ms later in ground arith
Member-broadcasts_id a id payload (arrive k ∷ ms) (there later) =
    Member-broadcasts_id a id payload ms later

-- Nodes that have done nothing yet broadcast and handle messages in any order until nothing is in
-- flight. If a node broadcast a payload under an id, and no broadcast had another payload under that
-- id, then the message with this id and this payload has been delivered at every node that the views
-- lead to from there.
pub broadcast_covers_all :
    (ms : List Move) (n : Network)
    → Fresh n
    → (run_moves ms n).flight ≡ []
    → (a c : Host) (id : ℕ) (payload : List ℕ) → Member (originate a id payload) ms
    → Broadcasts (HasPayload id payload) ms
    → Reaches n a c
    → Member (record { id = id; payload = payload }) ((run_moves ms n).node c).delivered
broadcast_covers_all ms n f quiet a c id payload broadcast one path =
    let s = Fresh-Spreads n f in
    let final = run_moves-Spreads ms n s in
    let P = HasPayload id payload in
    delivered-Member id payload ((run_moves ms n).node c).delivered
      ((run_moves-Only P ms n one (Fresh-Only P n f)).delivered c)
      (final.delivered_seen c id
        ∙ reached_seen n (run_moves ms n) final quiet (run_moves-view ms n s) a c id
            (broadcast_seen ms n s a id (Member-broadcasts_id a id payload ms broadcast)) path)
