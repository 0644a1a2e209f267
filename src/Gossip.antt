-- ===== src/Gossip.antt =====
-- cmd/gossip/gossip/protocol.go: the gossip protocol's state and its handlers, which run one at a time
-- on its event loop. What it delivers and sends is logged, last first; a failed Send is only logged by
-- the source. The id that rand.Uint64 mints for a broadcast is an argument.
pub mod Delivery
pub mod Codec
pub mod Hooks
pub mod Network
pub mod Examples
use go_simple_protocol_runti.Common.{
  ℕ, List, [], ◌∷◌, ◌++◌, Bool, true, false, ◌||◌, Option, none, some, if◌then◌else◌, ◌==◌, nat_eq,
}
use go_simple_protocol_runti.Transport.Host.{Host, host_eq}
use go_simple_protocol_runti.Membership.{ViewChanged}

pub record Message : Type 0 where
  pub id : ℕ
  pub payload : List ℕ

pub record Protocol : Type 0 where
  pub seen : List ℕ
  pub view : List Host
  pub delivered : List Message
  pub sent : List (Message × Host)

unfoldable pub is_seen : ℕ → List ℕ → Bool
is_seen id [] = false
is_seen id (i ∷ ids) = (i == id) || is_seen id ids

unfoldable pub excluding : List Host → Host → List Host
excluding [] exclude = []
excluding (h ∷ peers) exclude =
    if h == exclude then excluding peers exclude else h ∷ excluding peers exclude

unfoldable pub contains : Host → List Host → Bool
contains target [] = false
contains target (h ∷ hosts) = (h == target) || contains target hosts

unfoldable pub fanout : Message → List Host → Protocol → Protocol
fanout msg [] p = p
fanout msg (peer ∷ peers) p = fanout msg peers (record p { sent = (msg, peer) ∷ p.sent })

-- Marks the message seen, delivers it, and sends it on.
unfoldable pub spread : Message → List Host → Protocol → Protocol
unfolding fanout
spread msg peers p =
    fanout msg peers (record p { seen = msg.id ∷ p.seen; delivered = msg ∷ p.delivered })

unfoldable pub disseminate : ℕ → List ℕ → Protocol → Protocol
unfolding spread
disseminate id payload p = spread (record { id = id; payload = payload }) p.view p

unfoldable pub handle_inbound : Message → Host → Protocol → Protocol
unfolding spread is_seen excluding
handle_inbound msg sender p =
    if is_seen msg.id p.seen then p else spread msg (excluding p.view sender) p

-- `none` is a GetView that failed.
unfoldable pub handle_initial_view : Option (List Host) → Protocol → Protocol
handle_initial_view none p = p
handle_initial_view (some peers) p = record p { view = peers }

unfoldable pub handle_view_changed : ViewChanged → Protocol → Protocol
unfolding contains excluding
handle_view_changed ev p =
    if ev.has_added
    then (if contains ev.added p.view then p else record p { view = p.view ++ (ev.added ∷ []) })
    else if ev.has_removed
    then record p { view = excluding p.view ev.removed }
    else p

pub data Event : Type 0 where
  broadcasts : ℕ → List ℕ → Event
  inbound : Message → Host → Event
  initial_view : Option (List Host) → Event
  view_changed : ViewChanged → Event

unfoldable pub step : Event → Protocol → Protocol
step (broadcasts id payload) p = disseminate id payload p
step (inbound msg sender) p = handle_inbound msg sender p
step (initial_view peers) p = handle_initial_view peers p
step (view_changed ev) p = handle_view_changed ev p

unfoldable pub run : List Event → Protocol → Protocol
run [] p = p
run (e ∷ es) p = run es (step e p)
