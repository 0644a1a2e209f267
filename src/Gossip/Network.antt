-- ===== src/Gossip/Network.antt =====
-- Several nodes of cmd/gossip/gossip/protocol.go. What a handler sends is put in flight, and any message
-- in flight may arrive next. The sessions stay up, so a Send loses nothing, and a message arrives under
-- the host that other nodes know its sender by; views do not change.
mod Handled
mod Fanout
pub mod Weights
mod Moves
pub mod Genuine
pub mod Spread
pub mod Bounds
use go_simple_protocol_runti.Common.{
  ℕ, zero, suc, ◌≡◌, refl, ap, ◌∙◌, List, [], ◌∷◌, ◌++◌, Bool, true, false, ◌&&◌, ◌||◌, not, Option,
  none, some, if◌then◌else◌, ◌==◌, nat_eq, All, All-append, nth,
}
use go_simple_protocol_runti.Transport.Host.{Host, host_eq, host_beq_iff}
use go_simple_protocol_runti.Gossip.{
  Message, Protocol, is_seen, contains, excluding, disseminate, handle_inbound,
}

pub record Packet : Type 0 where
  pub sender : Host
  pub receiver : Host
  pub msg : Message

-- Each node by its host; a node's own log of sends is emptied when they are put in flight.
pub record Network : Type 0 where
  pub node : Host → Protocol
  pub flight : List Packet

abbrev pub packets : Host → List (Message × Host) → List Packet
packets a [] = []
packets a ((m, b) ∷ sent) = record { sender = a; receiver = b; msg = m } ∷ packets a sent

abbrev pub set_node : Host → Protocol → (Host → Protocol) → Host → Protocol
set_node a p node b = if a == b then p else node b

-- A handler of node `a` has run.
abbrev pub put_in_flight : Host → Protocol → List Packet → Network → Network
put_in_flight a p rest n = record {
  node = set_node a (record p { sent = [] }) n.node;
  flight = packets a p.sent ++ rest;
}

pub data Move : Type 0 where
  -- a node broadcasts
  originate : Host → ℕ → List ℕ → Move
  -- the k-th message in flight arrives, if there is one
  arrive : ℕ → Move

abbrev pub move : Move → Network → Network
move (originate a id payload) n = put_in_flight a (disseminate id payload (n.node a)) n.flight n
move (arrive k) n = elim (nth k n.flight) [
  | none ↦ n
  | some (packet, rest) ↦
      put_in_flight packet.receiver
        (handle_inbound packet.msg packet.sender (n.node packet.receiver)) rest n
]

abbrev pub run_moves : List Move → Network → Network
run_moves [] n = n
run_moves (m ∷ ms) n = run_moves ms (move m n)

-- Whether a message with this id is in flight to a host.
abbrev pub is_coming : ℕ → Host → List Packet → Bool
is_coming id b [] = false
is_coming id b (x ∷ flight) = ((x.receiver == b) && (x.msg.id == id)) || is_coming id b flight

abbrev pub has_delivered : ℕ → List Message → Bool
has_delivered id [] = false
has_delivered id (m ∷ delivered) = (m.id == id) || has_delivered id delivered

-- What is in flight has been seen by its sender, and what a node has seen, each host of its view has
-- seen or is about to get. A node has
-- sent nothing that is not in flight, and delivered what it has seen.
pub record Spreads (n : Network) : Type 0 where
  pub sender_seen : All (λ (x : Packet). is_seen x.msg.id (n.node x.sender).seen ≡ true) n.flight
  pub covered :
      (a b : Host) (id : ℕ)
      → is_seen id (n.node a).seen ≡ true
      → contains b (n.node a).view ≡ true
      → (is_seen id (n.node b).seen || is_coming id b n.flight) ≡ true
  pub sent_empty : (a : Host) → (n.node a).sent ≡ []
  pub delivered_seen :
      (a : Host) (id : ℕ) → has_delivered id (n.node a).delivered ≡ is_seen id (n.node a).seen

-- Nothing has happened yet; each node has some view.
pub record Fresh (n : Network) : Type 0 where
  pub no_flight : n.flight ≡ []
  pub no_seen : (a : Host) → (n.node a).seen ≡ []
  pub no_delivered : (a : Host) → (n.node a).delivered ≡ []
  pub no_sent : (a : Host) → (n.node a).sent ≡ []

-- A chain of nodes, each in the view of the one before.
pub data Reaches (n : Network) (a : Host) : Host → Type 0 where
  itself : Reaches n a a
  hop : {b c : Host} → Reaches n a b → contains c (n.node b).view ≡ true → Reaches n a c

-- Whether one of the moves is a broadcast of a node under an id.
abbrev pub broadcasts_id : Host → ℕ → List Move → Bool
broadcasts_id a id [] = false
broadcasts_id a id (originate c i payload ∷ ms) = ((c == a) && (i == id)) || broadcasts_id a id ms
broadcasts_id a id (arrive k ∷ ms) = broadcasts_id a id ms
