-- ===== src/PingPong.antt =====
-- cmd/pingpong/protocol/ping.go and messages.go: the protocol of the ping-pong program. What it gives to
-- ctx.Send is logged, last first; a Send or a Connect that fails is only logged by the source.
pub mod Rally
pub mod Examples
use go_simple_protocol_runti.Common.{
  ℕ, ◌+◌, ◌%◌, ◌^◌, List, [], ◌∷◌, ◌++◌, Bool, true, false, not, Option, none, some, if◌then◌else◌,
  ◌==◌, nth,
}
use go_simple_protocol_runti.Errors.{Error}
use go_simple_protocol_runti.Transport.Host.{Host, host_eq}

pub data Message : Type 0 where
  ping pong : ℕ → Message

pub record Protocol : Type 0 where
  pub peer : Host
  pub seq : ℕ
  pub sent : List (Message × Host)

unfoldable pub new : Host → Protocol
new peer = record { peer = peer; seq = 0; sent = [] }

-- Init: `connect` is ctx.Connect on the state of the runtime.
unfoldable pub init {ℓ} :
    {R : Type ℓ} → (Host → R → R × Option Error) → Protocol → R → R × Option Error
init connect p r = connect p.peer r

abbrev pub send : Message → Protocol → Protocol
send m p = record p { sent = (m, p.peer) ∷ p.sent }

-- `p.seq++` on a uint64, and a Ping with it.
unfoldable pub next_ping : Protocol → Protocol
next_ping p = let seq' = (p.seq + 1) % 2 ^ 64 in send (ping seq') (record p { seq = seq' })

unfoldable pub on_session_connected : Host → Protocol → Protocol
unfolding next_ping
on_session_connected h p = if h == p.peer then next_ping p else p

-- OnSessionDisconnected only logs.
unfoldable pub on_session_disconnected : Host → Protocol → Protocol
on_session_disconnected h p = p

unfoldable pub handle_ping : ℕ → Host → Protocol → Protocol
handle_ping seq from p = send (pong seq) p

unfoldable pub handle_pong : ℕ → Host → Protocol → Protocol
unfolding next_ping
handle_pong seq from p = next_ping p

unfoldable pub handle : Message → Host → Protocol → Protocol
unfolding handle_ping handle_pong
handle (ping seq) from p = handle_ping seq from p
handle (pong seq) from p = handle_pong seq from p

-- Two nodes with a host each, and the messages in flight with the side that they go to. A node's log of
-- sends is emptied when they are put in flight. A message reaches the other side if it was sent to that
-- side's host; under any other host there is no session, and the Send only fails.
pub record Table : Type 0 where
  pub host_of : Bool → Host
  pub node : Bool → Protocol
  pub flight : List (Bool × Message)

unfoldable pub to_side : Bool → Host → List (Message × Host) → List (Bool × Message)
to_side side target [] = []
to_side side target ((m, h) ∷ sent) =
    if h == target then (side, m) ∷ to_side side target sent else to_side side target sent

abbrev pub same_side : Bool → Bool → Bool
same_side true true = true
same_side true false = false
same_side false true = false
same_side false false = true

abbrev pub put_in_flight : Bool → Protocol → List (Bool × Message) → Table → Table
put_in_flight side p rest t = record t {
  node = λ other. if same_side side other then record p { sent = [] } else t.node other;
  flight = to_side (not side) (t.host_of (not side)) p.sent ++ rest;
}

pub data Move : Type 0 where
  -- a node learns of a session with a host
  connects : Bool → Host → Move
  -- the k-th message in flight arrives, if there is one
  arrive : ℕ → Move

abbrev pub move : Move → Table → Table
move (connects side h) t = put_in_flight side (on_session_connected h (t.node side)) t.flight t
move (arrive k) t = elim (nth k t.flight) [
  | none ↦ t
  | some ((side, m), rest) ↦
      put_in_flight side (handle m (t.host_of (not side)) (t.node side)) rest t
]

abbrev pub run_moves : List Move → Table → Table
run_moves [] t = t
run_moves (m ∷ ms) t = run_moves ms (move m t)
