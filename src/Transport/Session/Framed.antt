-- ===== src/Transport/Session/Framed.antt =====
-- pkg/transport/session.go: what the handler loop does is not told by what went out before.
use go_simple_protocol_runti.Common.{◌≡◌, refl, ap, ◌∙◌, List, [], ◌∷◌, ◌++◌, lookup, arith}
use go_simple_protocol_runti.Transport.Host.{Host, host_eq, zero_host}
use go_simple_protocol_runti.Transport.Layer.{
  transport_connected, transport_disconnected, transport_failed,
}
use go_simple_protocol_runti.Transport.Handshake.{
  LayerIdentifier, application, session, unknown_layer, SessionMessage, deserialize_message,
}
use go_simple_protocol_runti.Transport.Session.{
  Output, SessionConn, SessionLayer, Conn, handle_client_connect_requested, handle_connected,
  handle_handshake_message, handle_disconnected, handle_failed, cleanup_server_mapping,
}
use go_simple_protocol_runti.Transport.Session.Steps.{
  Input, message, transport_event, connect_request, disconnect_request, send_request, with_session,
  find_session, store_session, mark_server, route_message, handler, run,
}

-- The layer with more in its log from before.
abbrev pub over : List Output → SessionLayer → SessionLayer
over earlier s = record s { log = s.log ++ earlier }

abbrev conn_over : List Output → Conn → Conn
conn_over earlier (sc, s) = (sc, over earlier s)

abbrev IsFramed : (Conn → Conn) → Type 0
IsFramed f =
    (earlier : List Output) (sc : SessionConn) (s : SessionLayer)
    → f (sc, over earlier s) ≡ conn_over earlier (f (sc, s))

with_session-over :
    (f : Conn → Conn) (t logical : Host) (earlier : List Output) (s : SessionLayer)
    → IsFramed f
    → with_session t logical f (over earlier s) ≡ over earlier (with_session t logical f s)
unfolding with_session store_session
with_session-over f t logical earlier s framed =
    ap (store_session t) (framed earlier (find_session t logical (lookup t s.sessions)) s)

client-IsFramed : IsFramed handle_client_connect_requested
unfolding handle_client_connect_requested
client-IsFramed earlier sc s = ground arith

connected-IsFramed : IsFramed (λ (c : Conn). handle_connected (mark_server c))
unfolding handle_connected mark_server
connected-IsFramed earlier sc s = ground arith

message-IsFramed :
    (m : SessionMessage) → IsFramed (λ (c : Conn). handle_handshake_message m (mark_server c))
unfolding handle_handshake_message mark_server
message-IsFramed m earlier sc s = ground arith

disconnected-IsFramed : IsFramed handle_disconnected
unfolding handle_disconnected cleanup_server_mapping
disconnected-IsFramed earlier sc s = ground arith

failed-IsFramed : IsFramed handle_failed
unfolding handle_failed cleanup_server_mapping
failed-IsFramed earlier sc s = ground arith

pub handler-over :
    (i : Input) (earlier : List Output) (s : SessionLayer)
    → handler i (over earlier s) ≡ over earlier (handler i s)
unfolding handler cleanup_server_mapping
handler-over (message m) earlier s = let sm = deserialize_message m in routed sm sm.layer refl
  where
    routed :
        (m : SessionMessage) (layer : LayerIdentifier)
        → m.layer ≡ layer
        → route_message m (over earlier s) ≡ over earlier (route_message m s)
    routed m application e = rw (e, route_message) refl
    routed m session e =
        rw (e, route_message)
          (with_session-over (λ (c : Conn). handle_handshake_message m (mark_server c)) m.host
            zero_host earlier s (message-IsFramed m))
    routed m (unknown_layer b) e = rw (e, route_message) refl
handler-over (transport_event (transport_connected h)) earlier s =
    with_session-over (λ (c : Conn). handle_connected (mark_server c)) h zero_host earlier s
      connected-IsFramed
handler-over (transport_event (transport_disconnected h)) earlier s =
    with_session-over handle_disconnected h zero_host earlier s disconnected-IsFramed
handler-over (transport_event (transport_failed h)) earlier s =
    with_session-over handle_failed h zero_host earlier s failed-IsFramed
handler-over (connect_request h) earlier s =
    with_session-over handle_client_connect_requested h h earlier s client-IsFramed
handler-over (disconnect_request h) earlier s = ground arith
handler-over (send_request msg h) earlier s = refl

pub run-over :
    (is : List Input) (earlier : List Output) (s : SessionLayer)
    → run is (over earlier s) ≡ over earlier (run is s)
unfolding run
run-over [] earlier s = refl
run-over (i ∷ is) earlier s =
    ap (run is) (handler-over i earlier s) ∙ run-over is earlier (handler i s)
