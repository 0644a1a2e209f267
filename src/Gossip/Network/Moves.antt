-- ===== src/Gossip/Network/Moves.antt =====
-- cmd/gossip/gossip/protocol.go run by several nodes: the effect of each move.
use go_simple_protocol_runti.Common.{
  nth, ℕ, ◌≡◌, refl, sym, ap, ◌∙◌, List, [], ◌∷◌, Bool, true, false, ◌&&◌, ◌||◌, ◌⊎◌, Option, none,
  some, if◌then◌else◌, ◌==◌, nat_eq, nat_beq_iff, All, inl, inr, arith, subst,
}
use go_simple_protocol_runti.Transport.Host.{Host, host_eq, host_beq_iff}
use go_simple_protocol_runti.Gossip.{
  Message, Protocol, is_seen, contains, excluding, spread, disseminate, handle_inbound,
}
use go_simple_protocol_runti.Gossip.Network.{
  Packet, Network, put_in_flight, Move, originate, arrive, move, is_coming, Spreads,
}
use go_simple_protocol_runti.Gossip.Network.Handled.{
  Handled, put_in_flight-Spreads, seen_after, view_after,
}
use go_simple_protocol_runti.Gossip.Network.Fanout.{
  nth-coming, nth-All, fanout-coming, fanout-from, fanout_fields, fanout_delivered,
}

spread_handled :
    (n : Network) (a : Host) (msg : Message) (peers : List Host) (rest : List Packet)
    → Spreads n
    → All (λ (x : Packet). is_seen x.msg.id (n.node x.sender).seen ≡ true) rest
    → ((b : Host) (id : ℕ)
        → is_coming id b n.flight ≡ true
        → (is_coming id b rest || ((a == b) && (msg.id == id))) ≡ true)
    → ((b : Host)
        → contains b (n.node a).view ≡ true
        → (contains b peers || is_seen msg.id (n.node b).seen) ≡ true)
    → Handled n a msg (spread msg peers (n.node a)) rest
unfolding spread is_seen
spread_handled n a msg peers rest s stays gone left_out =
    let marked : Protocol = record (n.node a) {
      seen = msg.id ∷ (n.node a).seen;
      delivered = msg ∷ (n.node a).delivered;
    } in
    let (seen, view) = fanout_fields msg peers marked in
    let empty = s.sent_empty a in
    record {
      marks = λ (id : ℕ). ap (is_seen id) seen ∙ ground arith;
      keeps_view = view;
      delivers = λ (id : ℕ).
          rw (seen, fanout_delivered msg peers marked) (ground (arith, s.delivered_seen a id));
      stays = stays;
      gone = gone;
      sends = fanout-from a msg peers marked (rw empty tt);
      forwards = λ (b : Host). λ viewed. λ unseen.
          rw (fanout-coming msg.id a b msg peers marked)
            (ground (arith, left_out b, nat_beq_iff msg.id msg.id));
    }

pub originate_handled :
    (n : Network) (a : Host) (id : ℕ) (payload : List ℕ)
    → Spreads n
    → Handled n a
        (record { id = id; payload = payload })
        (disseminate id payload (n.node a))
        n.flight
unfolding disseminate
originate_handled n a id payload s =
    spread_handled n a (record { id = id; payload = payload }) (n.node a).view n.flight s
      s.sender_seen (λ (b : Host). λ (i : ℕ). λ coming. ground arith)
      (λ (b : Host). λ viewed. ground arith)

contains-excluding :
    (b gone : Host) (view : List Host)
    → contains b view ≡ true
    → (contains b (excluding view gone) || (gone == b)) ≡ true
unfolding contains excluding
contains-excluding b gone [] h = cc
contains-excluding b gone (x ∷ view) h = ground (
  arith,
  contains-excluding b gone view,
  host_beq_iff x gone,
  host_beq_iff x b,
  host_beq_iff gone b,
)

pub inbound_handled :
    (n : Network) (x : Packet) (rest : List Packet)
    → Spreads n
    → is_seen x.msg.id (n.node x.sender).seen ≡ true
    → All (λ (y : Packet). is_seen y.msg.id (n.node y.sender).seen ≡ true) rest
    → ((b : Host) (id : ℕ)
        → is_coming id b n.flight ≡ true
        → (is_coming id b rest || ((x.receiver == b) && (x.msg.id == id))) ≡ true)
    → Handled n x.receiver x.msg (handle_inbound x.msg x.sender (n.node x.receiver)) rest
unfolding handle_inbound
inbound_handled n x rest s from stays gone = go (is_seen x.msg.id here.seen) refl
  where
    here : Protocol
    here = n.node x.receiver

    go :
        (b : Bool)
        → is_seen x.msg.id here.seen ≡ b
        → Handled n x.receiver x.msg
            (if b then here else spread x.msg (excluding here.view x.sender) here)
            rest
    go true dup = record {
      marks = λ (id : ℕ). ground (arith, nat_beq_iff x.msg.id id);
      keeps_view = refl;
      delivers = s.delivered_seen x.receiver;
      stays = stays;
      gone = gone;
      sends = rw (s.sent_empty x.receiver) tt;
      forwards = λ (b : Host). λ viewed. λ unseen. absurd cc;
    }
    go false fresh =
        spread_handled n x.receiver x.msg (excluding here.view x.sender) rest s stays gone
          (λ (b : Host). λ viewed.
            ground (arith, contains-excluding b x.sender here.view viewed, host_beq_iff x.sender b))

-- A move leaves the network as it is, or one node handles a message.
move-cases :
    (m : Move) (n : Network)
    → Spreads n
    → (move m n ≡ n)
      ⊎ ((a : Host) × (msg : Message) × (p : Protocol) × (rest : List Packet) × Handled n a msg p
            rest
          × (move m n ≡ put_in_flight a p rest n))
move-cases (originate a id payload) n s =
    let msg : Message = record { id = id; payload = payload } in
    inr (
      a,
      msg,
      disseminate id payload (n.node a),
      n.flight,
      originate_handled n a id payload s,
      refl,
    )
move-cases (arrive k) n s = go (nth k n.flight) refl
  where
    after : Option (Packet × List Packet) → Network
    after none = n
    after (some (x, rest)) =
        put_in_flight x.receiver (handle_inbound x.msg x.sender (n.node x.receiver)) rest n

    go :
        (taken : Option (Packet × List Packet))
        → nth k n.flight ≡ taken
        → (after taken ≡ n)
          ⊎ ((a : Host) × (msg : Message) × (p : Protocol) × (rest : List Packet) × Handled n a msg
                p rest
              × (after taken ≡ put_in_flight a p rest n))
    go none e = inl refl
    go (some (x, rest)) e =
        let (from, stays) =
          nth-All (λ (y : Packet). is_seen y.msg.id (n.node y.sender).seen ≡ true) k n.flight rest x
            e s.sender_seen in
        inr (
          x.receiver,
          x.msg,
          handle_inbound x.msg x.sender (n.node x.receiver),
          rest,
          inbound_handled n x rest s from stays (nth-coming k n.flight rest x e),
          refl,
        )

-- What holds across a move of what every handled message keeps.
move-keeps {ℓ} :
    (P : Network → Type ℓ) (m : Move) (n : Network)
    → Spreads n
    → P n
    → ((a : Host) (msg : Message) (p : Protocol) (rest : List Packet)
        → Handled n a msg p rest
        → P (put_in_flight a p rest n))
    → P (move m n)
move-keeps P m n s before handled = elim (move-cases m n s) [
  | inl same ↦ subst P (sym same) before
  | inr (a, msg, p, rest, h, same) ↦ subst P (sym same) (handled a msg p rest h)
]

pub move-Spreads : (m : Move) (n : Network) → Spreads n → Spreads (move m n)
move-Spreads m n s = move-keeps Spreads m n s s (λ (a : Host). λ (msg : Message).
    λ (p : Protocol). λ (rest : List Packet). λ h. put_in_flight-Spreads n a msg p rest h s)

pub move-view :
    (m : Move) (n : Network) → Spreads n → (b : Host) → ((move m n).node b).view ≡ (n.node b).view
move-view m n s b =
    move-keeps (λ (after : Network). (after.node b).view ≡ (n.node b).view) m n s refl
      (λ (a : Host). λ (msg : Message).
        λ (p : Protocol). λ (rest : List Packet). λ h. view_after n a msg p rest h b)

pub move-seen :
    (m : Move) (n : Network)
    → Spreads n
    → (b : Host) (id : ℕ) → is_seen id (n.node b).seen ≡ true
    → is_seen id ((move m n).node b).seen ≡ true
move-seen m n s b id seen =
    move-keeps (λ (after : Network). is_seen id (after.node b).seen ≡ true) m n s seen
      (λ (a : Host). λ (msg : Message). λ (p : Protocol).
        λ (rest : List Packet). λ h. seen_after n a msg p rest h b id ∙ ground arith)

pub originate-seen :
    (n : Network) (a : Host) (id : ℕ) (payload : List ℕ)
    → Spreads n
    → is_seen id ((move (originate a id payload) n).node a).seen ≡ true
originate-seen n a id payload s =
    let msg : Message = record { id = id; payload = payload } in
    seen_after n a msg (disseminate id payload (n.node a)) n.flight
      (originate_handled n a id payload s) a id
    ∙ ground (arith, host_beq_iff a a, nat_beq_iff id id)
