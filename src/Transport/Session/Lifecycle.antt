-- ===== src/Transport/Session/Lifecycle.antt =====
-- The life of one session of pkg/transport/session.go as an abstract machine: what each kind of input
-- does to the state of the session with one transport host.
use go_simple_protocol_runti.Common.{ℕ, ◌≡◌, List, Bool, true, false, if◌then◌else◌, ◌==◌, arith}
use go_simple_protocol_runti.Errors.{Result, ok, err}
use go_simple_protocol_runti.Transport.Host.{Host, host_eq}
use go_simple_protocol_runti.Transport.Layer.{
  transport_connected, transport_disconnected, transport_failed,
}
use go_simple_protocol_runti.Transport.Handshake.{
  LayerIdentifier, application, session, unknown_layer, SessionMessage, HandshakeType, hello, ack,
  deserialize_message, encode_hello, parse_handshake_payload,
}
use go_simple_protocol_runti.Transport.Session.{
  SessionState, idle, handshaking_client, handshaking_server, established, failed, closing, Conn,
  set_server_mapping, handle_handshake_message, handle_connected, handle_disconnected,
  handle_failed, handle_client_connect_requested,
}
use go_simple_protocol_runti.Transport.Session.Steps.{
  mark_server, Input, message, transport_event, connect_request, disconnect_request, send_request,
}
use go_simple_protocol_runti.Transport.Session.Mapping.{sessions-cleanup}

-- What an input means to one session. `up` says whether this node's own Hello can be encoded.
pub data Kind : Type 0 where
  untouched dial greeted noise down lost : Kind
  up : Bool → Kind

unfoldable pub next : Kind → SessionState → SessionState
next untouched x = x
next dial idle = handshaking_client
next dial failed = handshaking_client
next dial closing = handshaking_client
next dial x = x
next greeted idle = established
next greeted handshaking_server = established
next greeted x = x
next noise idle = handshaking_server
next noise x = x
next down established = closing
next down handshaking_client = closing
next down handshaking_server = closing
next down x = failed
next lost x = failed
next (up encodes) idle = handshaking_server
next (up encodes) handshaking_client = if encodes then established else failed
next (up encodes) x = x

abbrev pub is_ok {ℓ} : {A : Type ℓ} → Result A → Bool
is_ok (ok a) = true
is_ok (err e) = false

abbrev pub handshake_kind : Result (HandshakeType × Host) → Kind
handshake_kind (ok (hello, h)) = greeted
handshake_kind (ok (ack, h)) = noise
handshake_kind (err e) = noise

abbrev pub layer_kind : LayerIdentifier → List ℕ → Kind
layer_kind application payload = untouched
layer_kind session payload = handshake_kind (parse_handshake_payload payload)
layer_kind (unknown_layer b) payload = untouched

-- The kind of an input for the session of the transport host `t` in the layer of the node `self`.
unfoldable pub kind : Host → Host → Input → Kind
kind self t (message m) =
    let d = deserialize_message m in if d.host == t then layer_kind d.layer d.msg else untouched
kind self t (transport_event (transport_connected h)) =
    if h == t then up (is_ok (encode_hello self)) else untouched
kind self t (transport_event (transport_disconnected h)) = if h == t then down else untouched
kind self t (transport_event (transport_failed h)) = if h == t then lost else untouched
kind self t (connect_request h) = if h == t then dial else untouched
kind self t (disconnect_request h) = untouched
kind self t (send_request msg to) = untouched

-- A callback that follows the abstract machine and leaves the table and the node alone.
pub record Follows (k : Kind) (c c' : Conn) : Type 0 where
  pub state : c'.0.state ≡ next k c.0.state
  pub sessions : c'.1.sessions ≡ c.1.sessions
  pub self : c'.1.self ≡ c.1.self

pub dial_Follows : (c : Conn) → Follows dial c (handle_client_connect_requested c)
unfolding handle_client_connect_requested next
dial_Follows (sc, s) = ground arith

pub up_Follows :
    (c : Conn) → Follows (up (is_ok (encode_hello c.1.self))) c (handle_connected (mark_server c))
unfolding handle_connected mark_server next set_server_mapping
up_Follows (sc, s) = ground arith

pub down_Follows : (c : Conn) → Follows down c (handle_disconnected c)
unfolding handle_disconnected next
down_Follows (sc, s) = ground (arith, sessions-cleanup sc.transport_host s)

pub lost-Follows : (c : Conn) → Follows lost c (handle_failed c)
unfolding handle_failed next
lost-Follows (sc, s) = ground (arith, sessions-cleanup sc.transport_host s)

pub handshake_Follows :
    (m : SessionMessage) (c : Conn)
    → Follows
        (handshake_kind (parse_handshake_payload m.msg))
        c
        (handle_handshake_message m (mark_server c))
unfolding handle_handshake_message mark_server next set_server_mapping
handshake_Follows m (sc, s) = ground arith
