-- ===== src/Transport/Session.antt =====
-- pkg/transport/session.go: the session layer's state, the state machine of one session, and the
-- dispatch of what the handler loop receives. The loop takes one input at a time, so an operation is
-- a function on the state; a sessionConn that `with_session` hands to a callback is taken out of the
-- map and put back under the same key. What goes out (events, application messages, calls of the
-- transport Layer) is logged, newest first; what emitEvent and a delivery give up once the context is
-- cancelled is taken out of the log in Live.
pub mod Steps
pub mod Mapping
pub mod Held
pub mod Handlers
pub mod Invariant
pub mod Lifecycle
pub mod Refinement
pub mod Peers
pub mod Reports
pub mod Quiet
mod Framed
pub mod Live
pub mod Examples
use go_simple_protocol_runti.Common.{
  ℕ, ◌≡◌, List, [], ◌∷◌, Bool, true, false, Option, none, some, if◌then◌else◌, ◌==◌, Map, lookup,
  insert, delete,
}
use go_simple_protocol_runti.Common.Int.{ℤ, pos, int_eq}
use go_simple_protocol_runti.Errors.{Error, Result, ok, err, errors_is, version_mismatch}
use go_simple_protocol_runti.Transport.Host.{Host, host_eq, zero_host}
use go_simple_protocol_runti.Transport.Layer.{Message}
use go_simple_protocol_runti.Transport.Handshake.{
  LayerIdentifier, application, session, unknown_layer, HandshakeType, hello, ack, SessionMessage,
  encode_hello, encode_ack, parse_handshake_payload, deserialize_message, serialize_message,
}

pub data SessionState : Type 0 where
  idle handshaking_client handshaking_server established failed closing : SessionState

pub record SessionConn : Type 0 where
  pub logical_host : Host
  pub transport_host : Host
  pub state : SessionState
  pub last_err : Option Error

pub data SessionEvent : Type 0 where
  session_connected session_disconnected session_failed : Host → SessionEvent
  -- the host and the field peerVersion
  session_version_mismatch : Host → ℕ → SessionEvent

pub data Output : Type 0 where
  event : SessionEvent → Output
  deliver : SessionMessage → Output
  connects disconnects : Host → Output
  sends : Message → Host → Output

pub record SessionLayer : Type 0 where
  pub self : Host
  pub sessions : Map Host SessionConn
  pub transport_to_logical : Map Host Host
  pub logical_to_transport : Map Host Host
  pub log : List Output

unfoldable pub new_session_layer : Host → SessionLayer
new_session_layer self = record {
  self = self;
  sessions = [];
  transport_to_logical = [];
  logical_to_transport = [];
  log = [];
}

abbrev pub emit : Output → SessionLayer → SessionLayer
emit o s = record s { log = o ∷ s.log }

unfoldable pub set_server_mapping : Host → Host → SessionLayer → SessionLayer
set_server_mapping transport logical s = record s {
  transport_to_logical = insert transport logical s.transport_to_logical;
  logical_to_transport = insert logical transport s.logical_to_transport;
}

unfoldable pub cleanup_server_mapping : Host → SessionLayer → SessionLayer
cleanup_server_mapping h s = elim (lookup h s.transport_to_logical) [
  | none ↦ s
  | some logical ↦ record s {
    transport_to_logical = delete h s.transport_to_logical;
    logical_to_transport = delete logical s.logical_to_transport;
  }
]

abbrev or_else : Option Host → Host → Host
or_else none d = d
or_else (some h) d = h

unfoldable pub resolve_underlying_host : Host → SessionLayer → Host
resolve_underlying_host send_to s = or_else (lookup send_to s.logical_to_transport) send_to

unfoldable pub map_to_host : Host → SessionLayer → Host
map_to_host h s = or_else (lookup h s.transport_to_logical) h

-- The methods of sessionConn, on the session and the layer that it belongs to.
abbrev pub Conn : Type 0
Conn = SessionConn × SessionLayer

unfoldable pub handle_client_connect_requested : Conn → Conn
handle_client_connect_requested (sc, s) = elim sc.state [
  | idle ↦ (record sc { state = handshaking_client }, emit (connects sc.transport_host) s)
  | failed ↦ (record sc { state = handshaking_client }, emit (connects sc.transport_host) s)
  | closing ↦ (record sc { state = handshaking_client }, emit (connects sc.transport_host) s)
  | _ ↦ (sc, s)
]

session_payload : Host → List ℕ → Message
session_payload transport payload =
    serialize_message (record { host = transport; layer = session; msg = payload })

-- Marks the session established, records the mapping and reports the peer.
unfoldable pub establish : Conn → Conn
unfolding set_server_mapping
establish (sc, s) = (
  record sc { state = established },
  emit (event (session_connected sc.logical_host))
      (set_server_mapping sc.transport_host sc.logical_host s),
)

client_connected : Result (List ℕ) → Conn → Conn
unfolding session_payload establish
client_connected (err e) (sc, s) = (
  record sc { state = failed; last_err = some e },
  emit (event (session_failed sc.logical_host)) s,
)
client_connected (ok hello_payload) (sc, s) =
    establish
      (sc, emit (sends (session_payload sc.transport_host hello_payload) sc.transport_host) s)

unfoldable pub handle_connected : Conn → Conn
unfolding client_connected
handle_connected (sc, s) = elim sc.state [
  | handshaking_client ↦ client_connected (encode_hello s.self) (sc, s)
  | _ ↦ (sc, s)
]

unfoldable pub handle_server_handshake : HandshakeType → Host → Conn → Conn
unfolding session_payload establish
handle_server_handshake hello remote (sc, s) = establish (
  record sc { logical_host = remote },
  emit (sends (session_payload sc.transport_host encode_ack) sc.transport_host) s,
)
handle_server_handshake ack remote (sc, s) = (sc, s)

-- Both branches only log.
unfoldable pub handle_client_handshake : HandshakeType → Host → Conn → Conn
handle_client_handshake ack remote c = c
handle_client_handshake hello remote c = c

-- A version mismatch is reported with the field peerVersion left at its zero value.
parse_failed : Error → Conn → Conn
parse_failed e (sc, s) = (
  record sc { last_err = some e },
  if errors_is version_mismatch e
      then emit (disconnects sc.transport_host)
          (emit (event (session_version_mismatch sc.transport_host 0)) s)
      else s,
)

parsed_handshake : HandshakeType → Host → Conn → Conn
unfolding handle_server_handshake handle_client_handshake
parsed_handshake ht host (sc, s) = elim sc.state [
  | handshaking_server ↦ handle_server_handshake ht host (sc, s)
  | handshaking_client ↦ handle_client_handshake ht host (sc, s)
  | _ ↦ (sc, s)
]

unfoldable pub handle_handshake_message : SessionMessage → Conn → Conn
unfolding parse_failed parsed_handshake
handle_handshake_message msg c = elim (parse_handshake_payload msg.msg) [
  | err e ↦ parse_failed e c
  | ok (ht, host) ↦ parsed_handshake ht host c
]

tear_down : Conn → Conn
unfolding cleanup_server_mapping map_to_host
tear_down (sc, s) = (
  record sc { state = closing },
  emit (event (session_disconnected (map_to_host sc.transport_host s)))
      (cleanup_server_mapping sc.transport_host s),
)

unfoldable pub handle_disconnected : Conn → Conn
unfolding tear_down
handle_disconnected (sc, s) = elim sc.state [
  | established ↦ tear_down (sc, s)
  | handshaking_client ↦ tear_down (sc, s)
  | handshaking_server ↦ tear_down (sc, s)
  | _ ↦ (record sc { state = failed }, s)
]

unfoldable pub handle_failed : Conn → Conn
unfolding cleanup_server_mapping map_to_host
handle_failed (sc, s) = (
  record sc { state = failed },
  emit (event (session_failed (map_to_host sc.transport_host s)))
      (cleanup_server_mapping sc.transport_host s),
)
