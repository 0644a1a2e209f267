-- ===== src/Transport/Session/Steps.antt =====
-- pkg/transport/session.go: the session table and the handler loop.
use go_simple_protocol_runti.Common.{
  ℕ, List, [], ◌∷◌, Option, none, some, if◌then◌else◌, ◌==◌, lookup, insert,
}
use go_simple_protocol_runti.Common.Int.{pos, int_eq}
use go_simple_protocol_runti.Transport.Host.{Host, host_eq, zero_host}
use go_simple_protocol_runti.Transport.Handshake.{
  application, session, unknown_layer, SessionMessage, deserialize_message, serialize_message,
}
use go_simple_protocol_runti.Transport.Layer.{
  Message, TransportEvent, transport_connected, transport_disconnected, transport_failed,
}
use go_simple_protocol_runti.Transport.Session.{
  idle, handshaking_server, SessionConn, SessionLayer, deliver, disconnects, sends, emit, Conn,
  cleanup_server_mapping, resolve_underlying_host, handle_client_connect_requested,
  handle_connected, handle_handshake_message, handle_disconnected, handle_failed,
}

-- The session that `with_session` hands to its callback.
unfoldable pub find_session : Host → Host → Option SessionConn → SessionConn
find_session transport logical none = record {
  logical_host = logical;
  transport_host = transport;
  state = idle;
  last_err = none;
}
find_session transport logical (some sc) =
    if logical.port == pos 0 then sc else record sc { logical_host = logical }

unfoldable pub store_session : Host → Conn → SessionLayer
store_session transport (sc, s) = record s { sessions = insert transport sc s.sessions }

unfoldable pub with_session : Host → Host → (Conn → Conn) → SessionLayer → SessionLayer
unfolding find_session store_session
with_session transport logical fn s =
    store_session transport (fn (find_session transport logical (lookup transport s.sessions), s))

-- An inbound connection that has no state yet is a server handshake.
unfoldable pub mark_server : Conn → Conn
mark_server (sc, s) = elim sc.state [
  | idle ↦ (record sc { state = handshaking_server }, s)
  | _ ↦ (sc, s)
]

unfoldable pub dispatch_handshake_message : Host → SessionMessage → SessionLayer → SessionLayer
unfolding with_session mark_server handle_handshake_message
dispatch_handshake_message transport msg =
    with_session transport zero_host (λ c. handle_handshake_message msg (mark_server c))

unfoldable pub dispatch_connected : Host → SessionLayer → SessionLayer
unfolding with_session mark_server handle_connected
dispatch_connected transport =
    with_session transport zero_host (λ c. handle_connected (mark_server c))

unfoldable pub dispatch_disconnected : Host → SessionLayer → SessionLayer
unfolding with_session handle_disconnected
dispatch_disconnected transport = with_session transport zero_host handle_disconnected

unfoldable pub dispatch_failed : Host → SessionLayer → SessionLayer
unfolding with_session handle_failed
dispatch_failed transport = with_session transport zero_host handle_failed

unfoldable pub connect_client : Host → SessionLayer → SessionLayer
unfolding with_session handle_client_connect_requested
connect_client h = with_session h h handle_client_connect_requested

unfoldable pub disconnect : Host → SessionLayer → SessionLayer
unfolding cleanup_server_mapping
disconnect h s = cleanup_server_mapping h (emit (disconnects h) s)

unfoldable pub send : List ℕ → Host → SessionLayer → SessionLayer
unfolding resolve_underlying_host
send msg send_to s =
    emit
      (sends (serialize_message (record { host = send_to; layer = application; msg = msg }))
        (resolve_underlying_host send_to s))
      s

unfoldable pub route_message : SessionMessage → SessionLayer → SessionLayer
unfolding dispatch_handshake_message
route_message m s = elim m.layer [
  | application ↦ emit (deliver m) s
  | session ↦ dispatch_handshake_message m.host m s
  | unknown_layer _ ↦ s
]

unfoldable pub transport_message_handler : Message → SessionLayer → SessionLayer
unfolding route_message
transport_message_handler msg = route_message (deserialize_message msg)

unfoldable pub transport_event_handler : TransportEvent → SessionLayer → SessionLayer
unfolding dispatch_connected dispatch_disconnected dispatch_failed
transport_event_handler (transport_connected h) = dispatch_connected h
transport_event_handler (transport_disconnected h) = dispatch_disconnected h
transport_event_handler (transport_failed h) = dispatch_failed h

-- What the handler's select receives.
pub data Input : Type 0 where
  message : Message → Input
  transport_event : TransportEvent → Input
  connect_request disconnect_request : Host → Input
  send_request : List ℕ → Host → Input

unfoldable pub handler : Input → SessionLayer → SessionLayer
unfolding transport_message_handler transport_event_handler connect_client disconnect send
handler (message m) = transport_message_handler m
handler (transport_event e) = transport_event_handler e
handler (connect_request h) = connect_client h
handler (disconnect_request h) = disconnect h
handler (send_request msg to) = send msg to

unfoldable pub run : List Input → SessionLayer → SessionLayer
run [] s = s
run (i ∷ is) s = run is (handler i s)
