-- ===== src/Membership.antt =====
-- cmd/gossip/membership/protocol.go: the peers with an established session. `published` logs what
-- PublishNotification was given, last first. `range` over a Go map has no fixed order, so what is
-- stated of the reply to a GetView is stated of every list with the same hosts.
pub mod View
pub mod Examples
use go_simple_protocol_runti.Common.{
  List, [], ◌∷◌, ◌++◌, Bool, true, false, Option, none, some, Map, lookup, insert, delete,
}
use go_simple_protocol_runti.Errors.{Error}
use go_simple_protocol_runti.Transport.Host.{Host, host_eq, zero_host}

pub record ViewChanged : Type 0 where
  pub added : Host
  pub removed : Host
  pub has_added : Bool
  pub has_removed : Bool

pub record Protocol : Type 0 where
  pub contacts : List Host
  pub view : Map Host (Unit {0})
  pub published : List ViewChanged

unfoldable pub new : List Host → Protocol
new contacts = record { contacts = contacts; view = []; published = [] }

abbrev pub appeared : Host → ViewChanged
appeared h = record { added = h; removed = zero_host; has_added = true; has_removed = false }

abbrev pub vanished : Host → ViewChanged
vanished h = record { added = zero_host; removed = h; has_added = false; has_removed = true }

-- Init: `connect_with_retry` is the context's method on the state of the runtime; an error is logged.
unfoldable pub init {ℓ} :
    {R : Type ℓ}
    → (Host → R → R × Option Error)
    → List Host
    → R × List (Host × Error)
    → R × List (Host × Error)
init connect_with_retry [] (r, logged) = (r, logged)
init connect_with_retry (c ∷ contacts) (r, logged) =
    let (r', failure) = connect_with_retry c r in
    init connect_with_retry contacts (r', elim failure [ none ↦ logged | some e ↦ (c, e) ∷ logged ])

unfoldable pub on_session_connected : Host → Protocol → Protocol
on_session_connected h p = elim (lookup h p.view) [
  | some _ ↦ p
  | none ↦ record p { view = insert h tt p.view; published = appeared h ∷ p.published }
]

unfoldable pub on_session_disconnected : Host → Protocol → Protocol
on_session_disconnected h p = elim (lookup h p.view) [
  | none ↦ p
  | some _ ↦ record p { view = delete h p.view; published = vanished h ∷ p.published }
]

unfoldable pub hosts : Map Host (Unit {0}) → List Host
hosts [] = []
hosts ((h, _) ∷ view) = h ∷ hosts view

-- The peers that the reply to a GetView holds, in the order of the entries.
unfoldable pub handle_get_view : Protocol → List Host
unfolding hosts
handle_get_view p = hosts p.view

pub data Event : Type 0 where
  up down : Host → Event

unfoldable pub step : Event → Protocol → Protocol
step (up h) p = on_session_connected h p
step (down h) p = on_session_disconnected h p

unfoldable pub run : List Event → Protocol → Protocol
run [] p = p
run (e ∷ es) p = run es (step e p)
