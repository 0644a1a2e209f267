-- ===== src/Gossip/Examples.antt =====
-- A node of cmd/gossip/gossip/protocol.go with two peers that gets one message twice, and three nodes
-- in a line.
use go_simple_protocol_runti.Common.{
  Member, here, ℕ, ◌≤◌, ◌++◌, false, arith, ◌+◌, ◌≡◌, refl, List, [], ◌∷◌, not, ◌&&◌, if◌then◌else◌,
  ◌==◌,
}
use go_simple_protocol_runti.Common.Int.{pos}
use go_simple_protocol_runti.Transport.Host.{Host, host_eq, host_beq_iff, new_host}
use go_simple_protocol_runti.Gossip.{Message, Protocol, Event, inbound, run, is_seen, contains}
use go_simple_protocol_runti.Wire.Words.{le_value}
use go_simple_protocol_runti.Wire.{read_full, read_uint, read_uint32, read_uint64, read_bytes}
use go_simple_protocol_runti.Errors.{ok}
use go_simple_protocol_runti.Gossip.{excluding, fanout, spread, disseminate, handle_inbound}
use go_simple_protocol_runti.Gossip.Codec.{marshal, unmarshal, unmarshal-marshal, unmarshal-eq-ok}
use go_simple_protocol_runti.Gossip.Network.{
  Network, Move, originate, arrive, run_moves, Fresh, itself, hop,
}
use go_simple_protocol_runti.Gossip.Network.Genuine.{delivered_was_broadcast}
use go_simple_protocol_runti.Gossip.Network.Spread.{broadcast_covers_all}
use go_simple_protocol_runti.Gossip.Network.Weights.{arrivals, copies_left}
use go_simple_protocol_runti.Gossip.Network.Bounds.{flood_ends}
use go_simple_protocol_runti.Gossip.Delivery.{times, brings, delivered_once}

abbrev left_peer : Host
left_peer = new_host (pos 1) []

abbrev right_peer : Host
right_peer = new_host (pos 2) []

abbrev node : Protocol
node = record { seen = []; view = left_peer ∷ right_peer ∷ []; delivered = []; sent = [] }

abbrev rumour : Message
rumour = record { id = 7; payload = 1 ∷ [] }

abbrev copies_come_in : List Event
copies_come_in = inbound rumour left_peer ∷ inbound rumour right_peer ∷ []

delivered_once_example :
    times 7 (run copies_come_in node).delivered
    ≡ times 7 node.delivered
      + (if brings 7 copies_come_in && not (is_seen 7 node.seen) then 1 else 0)
delivered_once_example = delivered_once 7 copies_come_in node refl

unmarshal-marshal_example : unmarshal (marshal rumour ++ (9 ∷ [])) ≡ ok rumour
unmarshal-marshal_example = unmarshal-marshal rumour (9 ∷ []) (omega arith) (omega arith)

abbrev rumour_bytes : List ℕ
rumour_bytes = 7 ∷ 0 ∷ 0 ∷ 0 ∷ 0 ∷ 0 ∷ 0 ∷ 0 ∷ 1 ∷ 0 ∷ 0 ∷ 0 ∷ 1 ∷ 9 ∷ []

unmarshal-eq-ok_example : (rest : List ℕ) × (rumour_bytes ≡ marshal rumour ++ rest)
unfolding unmarshal read_uint64 read_bytes read_uint32 read_uint read_full le_value
unmarshal-eq-ok_example = unmarshal-eq-ok rumour rumour_bytes (ground arith) refl

abbrev far_peer : Host
far_peer = new_host (pos 3) []

-- Three nodes in a line: the left one, the right one, the far one.
abbrev view_of : Host → List Host
view_of h =
    if h == left_peer
    then right_peer ∷ []
    else if h == right_peer
    then left_peer ∷ far_peer ∷ []
    else if h == far_peer
    then right_peer ∷ []
    else []

abbrev line : Network
line = record {
  node = λ (h : Host). record { seen = []; view = view_of h; delivered = []; sent = [] };
  flight = [];
}

line-Fresh : Fresh line
line-Fresh = record {
  no_flight = refl;
  no_seen = λ (a : Host). refl;
  no_delivered = λ (a : Host). refl;
  no_sent = λ (a : Host). refl;
}

abbrev spreading : List Move
spreading = originate left_peer 7 (1 ∷ []) ∷ arrive 0 ∷ arrive 0 ∷ []

broadcast_covers_all_example :
    Member
      (record { id = 7; payload = 1 ∷ [] })
      ((run_moves spreading line).node far_peer).delivered
unfolding disseminate handle_inbound spread fanout is_seen excluding contains
broadcast_covers_all_example =
    broadcast_covers_all spreading line line-Fresh refl left_peer far_peer 7 (1 ∷ []) (here refl)
      ((λ same. refl), tt) (hop {b = right_peer} (hop {b = left_peer} itself refl) refl)

delivered_was_broadcast_example : (a : Host) × Member (originate a 7 (1 ∷ [])) spreading
unfolding disseminate handle_inbound spread fanout is_seen excluding contains
delivered_was_broadcast_example =
    delivered_was_broadcast spreading line far_peer (record { id = 7; payload = 1 ∷ [] }) line-Fresh
      (here refl)

abbrev three_hosts : List Host
three_hosts = left_peer ∷ right_peer ∷ far_peer ∷ []

others_have_no_view : (b : Host) → contains b three_hosts ≡ false → (line.node b).view ≡ []
unfolding contains
others_have_no_view b out = ground (
  arith,
  host_beq_iff b left_peer,
  host_beq_iff left_peer b,
  host_beq_iff b right_peer,
  host_beq_iff right_peer b,
  host_beq_iff b far_peer,
  host_beq_iff far_peer b,
)

flood_ends_example :
    arrivals 7 (arrive 0 ∷ arrive 0 ∷ []) (run_moves (originate left_peer 7 (1 ∷ []) ∷ []) line)
    ≤ copies_left 7 three_hosts (run_moves (originate left_peer 7 (1 ∷ []) ∷ []) line)
flood_ends_example =
    flood_ends (originate left_peer 7 (1 ∷ []) ∷ []) (arrive 0 ∷ arrive 0 ∷ []) line 7 three_hosts
      line-Fresh others_have_no_view refl
