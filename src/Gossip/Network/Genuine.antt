-- ===== src/Gossip/Network/Genuine.antt =====
-- cmd/gossip/gossip/protocol.go run by several nodes: what is sent on and delivered is what was broadcast.
use go_simple_protocol_runti.Common.{
  nth, ℕ, ◌≡◌, refl, sym, subst, List, [], ◌∷◌, Bool, true, false, Option, none, some,
  if◌then◌else◌, ◌==◌, nat_eq, nat_beq_iff, All, All-append, Member, here, there, inl, inr,
  Bool-cases, arith,
}
use go_simple_protocol_runti.Transport.Host.{Host, host_eq}
use go_simple_protocol_runti.Gossip.{
  Message, Protocol, is_seen, excluding, spread, disseminate, handle_inbound,
}
use go_simple_protocol_runti.Gossip.Network.{
  Packet, Network, packets, put_in_flight, Move, originate, arrive, move, run_moves, has_delivered,
  Fresh,
}
use go_simple_protocol_runti.Gossip.Network.Fanout.{nth-All, fanout-from, fanout_delivered}

-- A property of every message in flight and of every message that a node delivered.
pub record Only (P : Message → Type 0) (n : Network) : Type 0 where
  pub in_flight : All (λ (x : Packet). P x.msg) n.flight
  pub delivered : (b : Host) → All P (n.node b).delivered
  pub unsent : (b : Host) → (n.node b).sent ≡ []

-- A property of every message that the moves broadcast.
abbrev pub Broadcasts : (Message → Type 0) → List Move → Type 0
Broadcasts P [] = Unit
Broadcasts P (originate a id payload ∷ ms) =
    P (record { id = id; payload = payload }) × Broadcasts P ms
Broadcasts P (arrive k ∷ ms) = Broadcasts P ms

module _ (P : Message → Type 0) where
  packets-All :
      (a : Host) (msg : Message) (xs : List Packet)
      → P msg
      → All (λ (x : Packet). (x.sender ≡ a) × (x.msg ≡ msg)) xs
      → All (λ (x : Packet). P x.msg) xs
  packets-All a msg [] h from = tt
  packets-All a msg (x ∷ xs) h from = (subst P (sym from.0.1) h, packets-All a msg xs h from.1)

  put_in_flight-Only :
      (a : Host) (p : Protocol) (rest : List Packet) (n : Network)
      → Only P n
      → All P p.delivered
      → All (λ (x : Packet). P x.msg) (packets a p.sent)
      → All (λ (x : Packet). P x.msg) rest
      → Only P (put_in_flight a p rest n)
  put_in_flight-Only a p rest n o gives sends stays = record {
    in_flight = All-append (λ (x : Packet). P x.msg) (packets a p.sent) rest sends stays;
    delivered = λ (b : Host). got b (a == b);
    unsent = λ (b : Host). none_left b (a == b);
  }
    where
      got : (b : Host) (c : Bool) → All P (if c then record p { sent = [] } else n.node b).delivered
      got b true = gives
      got b false = o.delivered b

      none_left : (b : Host) (c : Bool) → (if c then record p { sent = [] } else n.node b).sent ≡ []
      none_left b true = refl
      none_left b false = o.unsent b

  spread-Only :
      (a : Host) (msg : Message) (peers : List Host) (rest : List Packet) (n : Network)
      → Only P n
      → P msg
      → All (λ (x : Packet). P x.msg) rest
      → Only P (put_in_flight a (spread msg peers (n.node a)) rest n)
  unfolding spread
  spread-Only a msg peers rest n o h stays =
      let marked : Protocol = record (n.node a) {
        seen = msg.id ∷ (n.node a).seen;
        delivered = msg ∷ (n.node a).delivered;
      } in
      put_in_flight-Only a (spread msg peers (n.node a)) rest n o
        (subst (All P) (sym (fanout_delivered msg peers marked)) (h, o.delivered a))
        (packets-All a msg _ h (fanout-from a msg peers marked (rw (o.unsent a) tt))) stays

  inbound-Only :
      (x : Packet) (rest : List Packet) (n : Network)
      → Only P n
      → P x.msg
      → All (λ (y : Packet). P y.msg) rest
      → Only P (put_in_flight x.receiver (handle_inbound x.msg x.sender (n.node x.receiver)) rest n)
  unfolding handle_inbound
  inbound-Only x rest n o h stays = go (is_seen x.msg.id here_is.seen)
    where
      here_is : Protocol
      here_is = n.node x.receiver

      go :
          (b : Bool)
          → Only P (
              put_in_flight x.receiver
                (if b then here_is else spread x.msg (excluding here_is.view x.sender) here_is)
                rest
                n)
      go true =
          put_in_flight-Only x.receiver here_is rest n o (o.delivered x.receiver)
            (rw (o.unsent x.receiver) tt) stays
      go false = spread-Only x.receiver x.msg (excluding here_is.view x.sender) rest n o h stays

  arrive-Only : (k : ℕ) (n : Network) → Only P n → Only P (move (arrive k) n)
  arrive-Only k n o = go (nth k n.flight) refl
    where
      after : Option (Packet × List Packet) → Network
      after none = n
      after (some (x, rest)) =
          put_in_flight x.receiver (handle_inbound x.msg x.sender (n.node x.receiver)) rest n

      go : (taken : Option (Packet × List Packet)) → nth k n.flight ≡ taken → Only P (after taken)
      go none e = o
      go (some (x, rest)) e =
          let (one, stays) = nth-All (λ (y : Packet). P y.msg) k n.flight rest x e o.in_flight in
          inbound-Only x rest n o one stays

  -- A property of all messages that are broadcast is one of all that are in flight or delivered.
  pub run_moves-Only :
      (ms : List Move) (n : Network) → Broadcasts P ms → Only P n → Only P (run_moves ms n)
  unfolding disseminate
  run_moves-Only [] n b o = o
  run_moves-Only (originate a id payload ∷ ms) n b o =
      run_moves-Only ms (move (originate a id payload) n) b.1 (
        spread-Only a (record { id = id; payload = payload }) (n.node a).view n.flight n o b.0
          o.in_flight)
  run_moves-Only (arrive k ∷ ms) n b o = run_moves-Only ms (move (arrive k) n) b (arrive-Only k n o)

  pub Fresh-Only : (n : Network) → Fresh n → Only P n
  Fresh-Only n f = record {
    in_flight = rw f.no_flight tt;
    delivered = λ (b : Host). rw (f.no_delivered b) tt;
    unsent = f.no_sent;
  }

-- Every message with this id has this payload.
abbrev pub HasPayload : ℕ → List ℕ → Message → Type 0
HasPayload id payload m = m.id ≡ id → m.payload ≡ payload

pub delivered-Member :
    (id : ℕ) (payload : List ℕ) (delivered : List Message)
    → All (HasPayload id payload) delivered
    → has_delivered id delivered ≡ true
    → Member (record { id = id; payload = payload }) delivered
delivered-Member id payload [] h e = absurd cc
delivered-Member id payload (m ∷ delivered) h e = elim (Bool-cases (m.id == id)) [
  | inl this ↦
      let same : m.id ≡ id = ground (arith, nat_beq_iff m.id id) in
      let carries : m.payload ≡ payload = h.0 same in
      here (λ i. record { id = sym same i; payload = sym carries i })
  | inr other ↦ there (delivered-Member id payload delivered h.1 (ground arith))
]

-- A message that one of the moves broadcasts.
abbrev IsBroadcast : List Move → Message → Type 0
IsBroadcast ms m = (a : Host) × Member (originate a m.id m.payload) ms

Broadcasts-implies :
    (P Q : Message → Type 0) (ms : List Move)
    → ((m : Message) → P m → Q m)
    → Broadcasts P ms
    → Broadcasts Q ms
Broadcasts-implies P Q [] weaken b = tt
Broadcasts-implies P Q (originate a id payload ∷ ms) weaken b =
    (weaken (record { id = id; payload = payload }) b.0, Broadcasts-implies P Q ms weaken b.1)
Broadcasts-implies P Q (arrive k ∷ ms) weaken b = Broadcasts-implies P Q ms weaken b

own-Broadcasts : (ms : List Move) → Broadcasts (IsBroadcast ms) ms
own-Broadcasts [] = tt
own-Broadcasts (originate a id payload ∷ ms) = (
  (a, here refl),
  Broadcasts-implies (IsBroadcast ms) (IsBroadcast (originate a id payload ∷ ms)) ms
      (λ (m : Message). λ from. (from.0, there from.1)) (own-Broadcasts ms),
)
own-Broadcasts (arrive k ∷ ms) =
    Broadcasts-implies (IsBroadcast ms) (IsBroadcast (arrive k ∷ ms)) ms
      (λ (m : Message). λ from. (from.0, there from.1)) (own-Broadcasts ms)

Member-All :
    (P : Message → Type 0) (m : Message) (delivered : List Message)
    → Member m delivered
    → All P delivered
    → P m
Member-All P m [] at h = elim at [ ]
Member-All P m (x ∷ delivered) (here e) h = subst P (sym e) h.0
Member-All P m (x ∷ delivered) (there at) h = Member-All P m delivered at h.1

-- Nodes that have done nothing yet broadcast and handle messages in any order: whatever a node delivers,
-- id and payload, is what some node broadcast.
pub delivered_was_broadcast :
    (ms : List Move) (n : Network) (c : Host) (m : Message)
    → Fresh n
    → Member m ((run_moves ms n).node c).delivered
    → (a : Host) × Member (originate a m.id m.payload) ms
delivered_was_broadcast ms n c m f at =
    let P = IsBroadcast ms in
    Member-All P m ((run_moves ms n).node c).delivered at
      ((run_moves-Only P ms n (own-Broadcasts ms) (Fresh-Only P n f)).delivered c)
