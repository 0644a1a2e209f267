-- ===== src/Transport/Session/Invariant.antt =====
-- The mappings of the session layer of pkg/transport/session.go after any inputs.
use go_simple_protocol_runti.Common.{
  ◌≡◌, refl, List, [], ◌∷◌, some, inl, inr, lookup, lookup-insert, arith, Option-cases,
}
use go_simple_protocol_runti.Common.Int.{int_eq}
use go_simple_protocol_runti.Transport.Host.{Host, host_eq, host_beq_iff, zero_host}
use go_simple_protocol_runti.Transport.Layer.{
  TransportEvent, transport_connected, transport_disconnected, transport_failed,
}
use go_simple_protocol_runti.Transport.Handshake.{
  LayerIdentifier, application, session, unknown_layer, SessionMessage, deserialize_message,
}
use go_simple_protocol_runti.Transport.Session.{
  SessionState, idle, handshaking_client, handshaking_server, established, failed, closing,
  SessionLayer, Output, emit, Conn, new_session_layer, cleanup_server_mapping,
  resolve_underlying_host,
}
use go_simple_protocol_runti.Transport.Session.Steps.{
  find_session, store_session, with_session, mark_server, dispatch_handshake_message,
  dispatch_connected, dispatch_disconnected, dispatch_failed, connect_client, disconnect, send,
  route_message, transport_message_handler, transport_event_handler, Input, message,
  transport_event, connect_request, disconnect_request, send_request, handler, run,
}
use go_simple_protocol_runti.Transport.Session.Mapping.{
  Inv, HeldInv, state_of, transport_to_logical-cleanup, sessions-cleanup,
  cleanup_server_mapping-Agree,
}
use go_simple_protocol_runti.Transport.Session.Held.{HeldInv-state}
use go_simple_protocol_runti.Transport.Session.Handlers.{
  handle_client_connect_requested-HeldInv, handle_connected-HeldInv,
  handle_handshake_message-HeldInv, handle_disconnected-HeldInv, handle_failed-HeldInv,
}

find_session-HeldInv :
    (t l : Host) (s : SessionLayer) → Inv s → HeldInv t (find_session t l (lookup t s.sessions), s)
unfolding find_session
find_session-HeldInv t l s v = elim (Option-cases (lookup t s.sessions)) [
  | inl e ↦
      rw (e, find_session)
        (record {
          own = refl;
          keyed = v.keyed;
          held = λ k m. ground (arith, v.mapped t k);
          others = λ j k ne. v.mapped j k;
          agree = v.agree;
        })
  | inr (sc, e) ↦
      rw (e, find_session)
        (record {
          own = ground (arith, v.keyed t sc e);
          keyed = v.keyed;
          held = λ k m. ground (arith, v.mapped t k);
          others = λ j k ne. v.mapped j k;
          agree = v.agree;
        })
]

store_session-Inv : (t : Host) (c : Conn) → HeldInv t c → Inv (store_session t c)
unfolding store_session
store_session-Inv t (sc, s) v = record {
  keyed = λ j x e. ground (arith, lookup-insert t j sc s.sessions, host_beq_iff t j, v.keyed j x);
  mapped = λ j l e.
      ground (arith, lookup-insert t j sc s.sessions, host_beq_iff t j, v.held l, v.others j l);
  agree = v.agree;
}

with_session-Inv :
    (t l : Host) (fn : Conn → Conn) (s : SessionLayer)
    → ((c : Conn) → HeldInv t c → HeldInv t (fn c))
    → Inv s
    → Inv (with_session t l fn s)
unfolding with_session
with_session-Inv t l fn s keeps v =
    store_session-Inv t (fn (find_session t l (lookup t s.sessions), s))
      (keeps _ (find_session-HeldInv t l s v))

mark_server-HeldInv : (t : Host) (c : Conn) → HeldInv t c → HeldInv t (mark_server c)
unfolding mark_server
mark_server-HeldInv t (sc, s) v = go sc.state refl
  where
    go : (x : SessionState) → sc.state ≡ x → HeldInv t (mark_server (sc, s))
    go idle e = rw (e, mark_server) (HeldInv-state t sc _ s refl (λ f. cc) v)
    go handshaking_client e = rw (e, mark_server) v
    go handshaking_server e = rw (e, mark_server) v
    go established e = rw (e, mark_server) v
    go failed e = rw (e, mark_server) v
    go closing e = rw (e, mark_server) v

cleanup_server_mapping-Inv :
    (h : Host) (s : SessionLayer) → Inv s → Inv (cleanup_server_mapping h s)
cleanup_server_mapping-Inv h s v = record {
  keyed = rw (sessions-cleanup h s) v.keyed;
  mapped = λ t l e.
      rw (sessions-cleanup h s) (ground (arith, transport_to_logical-cleanup h t s, v.mapped t l));
  agree = cleanup_server_mapping-Agree h s v.agree;
}

emit-Inv : (o : Output) (s : SessionLayer) → Inv s → Inv (emit o s)
emit-Inv o s v = record { keyed = v.keyed; mapped = v.mapped; agree = v.agree }

route_message-Inv : (m : SessionMessage) (s : SessionLayer) → Inv s → Inv (route_message m s)
unfolding route_message dispatch_handshake_message
route_message-Inv m s v = go m.layer refl
  where
    go : (x : LayerIdentifier) → m.layer ≡ x → Inv (route_message m s)
    go application e = rw (e, route_message) (emit-Inv _ s v)
    go (unknown_layer b) e = rw (e, route_message) v
    go session e =
        rw (e, route_message)
          (with_session-Inv m.host zero_host _ s
            (λ c w.
              handle_handshake_message-HeldInv m.host m (mark_server c)
                (mark_server-HeldInv m.host c w))
            v)

transport_event_handler-Inv :
    (e : TransportEvent) (s : SessionLayer) → Inv s → Inv (transport_event_handler e s)
unfolding transport_event_handler dispatch_connected dispatch_disconnected dispatch_failed
transport_event_handler-Inv (transport_connected h) s v =
    with_session-Inv h zero_host _ s
      (λ c w. handle_connected-HeldInv h (mark_server c) (mark_server-HeldInv h c w)) v
transport_event_handler-Inv (transport_disconnected h) s v =
    with_session-Inv h zero_host _ s (handle_disconnected-HeldInv h) v
transport_event_handler-Inv (transport_failed h) s v =
    with_session-Inv h zero_host _ s (handle_failed-HeldInv h) v

-- Every input keeps the invariant.
pub handler-Inv : (i : Input) (s : SessionLayer) → Inv s → Inv (handler i s)
unfolding handler transport_message_handler connect_client disconnect send
handler-Inv (message m) s v = route_message-Inv (deserialize_message m) s v
handler-Inv (transport_event e) s v = transport_event_handler-Inv e s v
handler-Inv (connect_request h) s v =
    with_session-Inv h h _ s (handle_client_connect_requested-HeldInv h) v
handler-Inv (disconnect_request h) s v = cleanup_server_mapping-Inv h _ (emit-Inv _ s v)
handler-Inv (send_request msg to) s v = emit-Inv _ s v

pub run-Inv : (is : List Input) (s : SessionLayer) → Inv s → Inv (run is s)
unfolding run
run-Inv [] s v = v
run-Inv (i ∷ is) s v = run-Inv is (handler i s) (handler-Inv i s v)

pub new_session_layer-Inv : (self : Host) → Inv (new_session_layer self)
unfolding new_session_layer lookup
new_session_layer-Inv self = record {
  keyed = λ t sc e. cc;
  mapped = λ t l e. cc;
  agree = λ l t e. cc;
}

-- Whatever a session layer receives, a logical host that resolves to a transport host resolves to
-- one whose session is established and which is mapped back to that logical host.
pub run_resolves :
    (self : Host) (is : List Input) (l t : Host)
    → lookup l (run is (new_session_layer self)).logical_to_transport ≡ some t
    → (lookup t (run is (new_session_layer self)).transport_to_logical ≡ some l)
      × (state_of (lookup t (run is (new_session_layer self)).sessions) ≡ established)
      × (resolve_underlying_host l (run is (new_session_layer self)) ≡ t)
unfolding resolve_underlying_host
run_resolves self is l t e =
    let v = run-Inv is (new_session_layer self) (new_session_layer-Inv self) in
    (v.agree l t e, v.mapped t l (v.agree l t e), rw e)
