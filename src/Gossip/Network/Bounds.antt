-- ===== src/Gossip/Network/Bounds.antt =====
-- cmd/gossip/gossip/protocol.go run by several nodes: how often copies of one message arrive.
use go_simple_protocol_runti.Common.{
  nth, ℕ, ◌+◌, ◌≤◌, ◌≡◌, refl, ap, ◌∙◌, List, [], ◌∷◌, length, Bool, true, false, Option, none,
  some, if◌then◌else◌, ◌==◌, nat_eq, nat_beq_iff, arith,
}
use go_simple_protocol_runti.Transport.Host.{Host, host_eq}
use go_simple_protocol_runti.Gossip.{
  Message, Protocol, is_seen, contains, excluding, fanout, spread, disseminate, handle_inbound,
}
use go_simple_protocol_runti.Gossip.Network.{
  Packet, Network, packets, put_in_flight, Move, originate, arrive, move, run_moves, Spreads, Fresh,
}
use go_simple_protocol_runti.Gossip.Network.Fanout.{nth-All, nth-coming}
use go_simple_protocol_runti.Gossip.Network.Moves.{
  originate_handled, inbound_handled, move-Spreads, move-view,
}
use go_simple_protocol_runti.Gossip.Network.Spread.{
  run_moves-Spreads, run_moves-view, Fresh-Spreads,
}
use go_simple_protocol_runti.Gossip.Network.Weights.{
  in_flight, weight, copies_left, brought, arrivals, mints_id, in_flight-append, fanout-in_flight,
  excluding_shrinks, nth-in_flight, backlog_after,
}

inbound_sends :
    (id : ℕ) (a sender : Host) (msg : Message) (p : Protocol)
    → p.sent ≡ []
    → in_flight id (packets a (handle_inbound msg sender p).sent)
      ≤ (if msg.id == id then weight id p else 0)
unfolding handle_inbound spread
inbound_sends id a sender msg p empty = go (is_seen msg.id p.seen) refl
  where
    marked : Protocol
    marked = record p { seen = msg.id ∷ p.seen; delivered = msg ∷ p.delivered }

    go :
        (b : Bool)
        → is_seen msg.id p.seen ≡ b
        → in_flight id
            (packets a (if b then p else fanout msg (excluding p.view sender) marked).sent)
          ≤ (if msg.id == id then weight id p else 0)
    go true dup = rw empty (ground arith)
    go false fresh =
        let none_left : in_flight id (packets a p.sent) ≡ in_flight id (packets a []) =
          ap (λ (sent : List (Message × Host)). in_flight id (packets a sent)) empty in
        ground (
          arith,
          fanout-in_flight id a msg (excluding p.view sender) marked,
          excluding_shrinks sender p.view,
          nat_beq_iff msg.id id,
        )

arrive_spends :
    (id k : ℕ) (hosts : List Host) (n : Network)
    → Spreads n
    → ((b : Host) → contains b hosts ≡ false → (n.node b).view ≡ [])
    → brought id (nth k n.flight) + copies_left id hosts (move (arrive k) n)
      ≤ copies_left id hosts n
arrive_spends id k hosts n s inside = go (nth k n.flight) refl
  where
    after : Option (Packet × List Packet) → Network
    after none = n
    after (some (x, rest)) =
        put_in_flight x.receiver (handle_inbound x.msg x.sender (n.node x.receiver)) rest n

    go :
        (taken : Option (Packet × List Packet))
        → nth k n.flight ≡ taken
        → brought id taken + copies_left id hosts (after taken) ≤ copies_left id hosts n
    go none e = omega arith
    go (some (x, rest)) e =
        let (from, stays) =
          nth-All (λ (y : Packet). is_seen y.msg.id (n.node y.sender).seen ≡ true) k n.flight rest x
            e s.sender_seen in
        let h = inbound_handled n x rest s from stays (nth-coming k n.flight rest x e) in
        let p = handle_inbound x.msg x.sender (n.node x.receiver) in
        let outside : contains x.receiver hosts ≡ false → length (n.node x.receiver).view ≡ 0 =
          λ out. ap length (inside x.receiver out) in
        ground (
          arith,
          nth-in_flight id k n.flight rest x e,
          in_flight-append id (packets x.receiver p.sent) rest,
          inbound_sends id x.receiver x.sender x.msg (n.node x.receiver) (s.sent_empty x.receiver),
          backlog_after n x.receiver x.msg p rest h id hosts,
          outside,
        )

originate_spends :
    (id i : ℕ) (a : Host) (payload : List ℕ) (hosts : List Host) (n : Network)
    → Spreads n
    → (i == id) ≡ false
    → copies_left id hosts (move (originate a i payload) n) ≤ copies_left id hosts n
unfolding disseminate spread
originate_spends id i a payload hosts n s other =
    let msg : Message = record { id = i; payload = payload } in
    let p = disseminate i payload (n.node a) in
    let marked : Protocol = record (n.node a) {
      seen = i ∷ (n.node a).seen;
      delivered = msg ∷ (n.node a).delivered;
    } in
    let none_left : in_flight id (packets a (n.node a).sent) ≡ in_flight id (packets a []) =
      ap (λ (sent : List (Message × Host)). in_flight id (packets a sent)) (s.sent_empty a) in
    ground (
      arith,
      in_flight-append id (packets a p.sent) n.flight,
      fanout-in_flight id a msg (n.node a).view marked,
      backlog_after n a msg p n.flight (originate_handled n a i payload s) id hosts,
    )

moves_spend :
    (ms : List Move) (n : Network) (id : ℕ) (hosts : List Host)
    → Spreads n
    → ((b : Host) → contains b hosts ≡ false → (n.node b).view ≡ [])
    → mints_id id ms ≡ false
    → arrivals id ms n + copies_left id hosts (run_moves ms n) ≤ copies_left id hosts n
moves_spend [] n id hosts s inside minted = omega arith
moves_spend (originate a i payload ∷ ms) n id hosts s inside minted =
    let m = originate a i payload in
    let other : (i == id) ≡ false = ground arith in
    let inside' : (b : Host) → contains b hosts ≡ false → ((move m n).node b).view ≡ [] =
      λ (b : Host). λ out. move-view m n s b ∙ inside b out in
    let rest = moves_spend ms (move m n) id hosts (move-Spreads m n s) inside' (ground arith) in
    let first = originate_spends id i a payload hosts n s other in omega (arith, rest, first)
moves_spend (arrive k ∷ ms) n id hosts s inside minted =
    let m = arrive k in
    let inside' : (b : Host) → contains b hosts ≡ false → ((move m n).node b).view ≡ [] =
      λ (b : Host). λ out. move-view m n s b ∙ inside b out in
    let rest = moves_spend ms (move m n) id hosts (move-Spreads m n s) inside' minted in
    let first = arrive_spends id k hosts n s inside in omega (arith, rest, first)

-- Spreading a message ends. After any moves of nodes that had done nothing, whatever is handled from
-- then on, as long as no node mints the message's id, copies of it arrive at most as often as there
-- are copies in flight and hosts in the views of the nodes that have not seen it, of which only finitely
-- many nodes have a view.
pub flood_ends :
    (before after : List Move) (n : Network) (id : ℕ) (hosts : List Host)
    → Fresh n
    → ((b : Host) → contains b hosts ≡ false → (n.node b).view ≡ [])
    → mints_id id after ≡ false
    → arrivals id after (run_moves before n) ≤ copies_left id hosts (run_moves before n)
flood_ends before after n id hosts f inside minted =
    let s = Fresh-Spreads n f in
    omega (
      arith,
      moves_spend after (run_moves before n) id hosts (run_moves-Spreads before n s)
          (λ (b : Host). λ out. run_moves-view before n s b ∙ inside b out) minted,
    )
