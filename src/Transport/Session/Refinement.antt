-- ===== src/Transport/Session/Refinement.antt =====
-- The session layer of pkg/transport/session.go against the abstract machine of one session.
use go_simple_protocol_runti.Common.{
  ◌≡◌, ◌≢◌, refl, ◌∙◌, List, [], ◌∷◌, Bool, true, false, Option, none, some, if◌then◌else◌, ◌==◌,
  lookup, lookup-insert, arith, ◌⊎◌, All,
}
use mathlib.Core.Path.{ap₂}
use go_simple_protocol_runti.Common.Int.{int_eq}
use go_simple_protocol_runti.Transport.Host.{Host, host_eq, host_beq_iff, zero_host}
use go_simple_protocol_runti.Transport.Layer.{
  TransportEvent, transport_connected, transport_disconnected, transport_failed,
}
use go_simple_protocol_runti.Transport.Handshake.{
  LayerIdentifier, application, session, unknown_layer, SessionMessage, deserialize_message,
  encode_hello, parse_handshake_payload,
}
use go_simple_protocol_runti.Transport.Session.{
  SessionState, failed, closing, SessionConn, SessionLayer, Conn, emit, deliver, disconnects,
  cleanup_server_mapping, handle_handshake_message, handle_connected, handle_disconnected,
  handle_failed, handle_client_connect_requested,
}
use go_simple_protocol_runti.Transport.Session.Steps.{
  find_session, store_session, with_session, mark_server, route_message, transport_message_handler,
  transport_event_handler, Input, message, transport_event, connect_request, disconnect_request,
  send_request, handler, run, dispatch_handshake_message, dispatch_connected, dispatch_disconnected,
  dispatch_failed, connect_client, disconnect, send,
}
use go_simple_protocol_runti.Transport.Session.Mapping.{state_of, sessions-cleanup}
use go_simple_protocol_runti.Transport.Session.Lifecycle.{
  Kind, untouched, dial, up, down, lost, next, kind, layer_kind, handshake_kind, is_ok, Follows,
  dial_Follows, up_Follows, down_Follows, lost-Follows, handshake_Follows,
}

find_session-state : (t l : Host) (o : Option SessionConn) → (find_session t l o).state ≡ state_of o
unfolding find_session
find_session-state t l none = refl
find_session-state t l (some sc) = ground arith

-- What `with_session` hands to its callback.
abbrev held : Host → Host → SessionLayer → Conn
held t l s = (find_session t l (lookup t s.sessions), s)

-- The state that a callback which follows `k` leaves for each transport host.
with_session-next :
    (k : Kind) (t l j : Host) (fn : Conn → Conn) (s : SessionLayer)
    → Follows k (held t l s) (fn (held t l s))
    → state_of (lookup j (with_session t l fn s).sessions)
      ≡ next (if t == j then k else untouched) (state_of (lookup j s.sessions))
unfolding with_session store_session next
with_session-next k t l j fn s f = ground (
  arith,
  f.state,
  f.sessions,
  find_session-state t l (lookup t s.sessions),
  lookup-insert t j (fn (held t l s)).0 (fn (held t l s)).1.sessions,
  host_beq_iff t j,
)

with_session-self :
    (k : Kind) (t l : Host) (fn : Conn → Conn) (s : SessionLayer)
    → Follows k (held t l s) (fn (held t l s))
    → (with_session t l fn s).self ≡ s.self
unfolding with_session store_session
with_session-self k t l fn s f = f.self

abbrev Step : Host → (Host → Kind) → SessionLayer → SessionLayer → Type 0
Step self k s s' =
    (s'.self ≡ s.self)
    × ((j : Host) → state_of (lookup j s'.sessions) ≡ next (k j) (state_of (lookup j s.sessions)))

with_session-Step :
    (k : Kind) (t l : Host) (fn : Conn → Conn) (s : SessionLayer)
    → Follows k (held t l s) (fn (held t l s))
    → Step s.self (λ j. if t == j then k else untouched) s (with_session t l fn s)
with_session-Step k t l fn s f =
    (with_session-self k t l fn s f, λ j. with_session-next k t l j fn s f)

nothing-Step :
    (k : Host → Kind) (s s' : SessionLayer)
    → ((j : Host) → k j ≡ untouched)
    → s'.self ≡ s.self
    → s'.sessions ≡ s.sessions
    → Step s.self k s s'
unfolding next
nothing-Step k s s' none_touched self sessions = (self, λ j. rw (none_touched j, sessions))

same_either_way : (b : Bool) (k : Kind) → (if b then k else k) ≡ k
same_either_way true k = refl
same_either_way false k = refl

cleanup-self : (h : Host) (s : SessionLayer) → (cleanup_server_mapping h s).self ≡ s.self
unfolding cleanup_server_mapping
cleanup-self h s = ground arith

route_message-Step :
    (m : SessionMessage) (s : SessionLayer)
    → Step s.self
        (λ j. if m.host == j then layer_kind m.layer m.msg else untouched)
        s
        (route_message m s)
unfolding route_message dispatch_handshake_message
route_message-Step m s = go m.layer refl
  where
    go :
        (x : LayerIdentifier)
        → m.layer ≡ x
        → Step s.self
            (λ j. if m.host == j then layer_kind m.layer m.msg else untouched)
            s
            (route_message m s)
    go application e =
        rw (e, route_message)
          (nothing-Step _ s (emit (deliver m) s) (λ j. same_either_way (m.host == j) untouched) refl
            refl)
    go (unknown_layer b) e =
        rw (e, route_message)
          (nothing-Step _ s s (λ j. same_either_way (m.host == j) untouched) refl refl)
    go session e =
        rw (e, route_message)
          (with_session-Step (handshake_kind (parse_handshake_payload m.msg)) m.host zero_host
            (λ c. handle_handshake_message m (mark_server c)) s
            (handshake_Follows m (held m.host zero_host s)))

transport_event_handler-Step :
    (e : TransportEvent) (s : SessionLayer)
    → Step s.self (λ j. kind s.self j (transport_event e)) s (transport_event_handler e s)
unfolding transport_event_handler dispatch_connected dispatch_disconnected dispatch_failed kind
transport_event_handler-Step (transport_connected h) s =
    with_session-Step (up (is_ok (encode_hello s.self))) h zero_host
      (λ c. handle_connected (mark_server c)) s (up_Follows (held h zero_host s))
transport_event_handler-Step (transport_disconnected h) s =
    with_session-Step down h zero_host handle_disconnected s (down_Follows (held h zero_host s))
transport_event_handler-Step (transport_failed h) s =
    with_session-Step lost h zero_host handle_failed s (lost-Follows (held h zero_host s))

handler-Step : (i : Input) (s : SessionLayer) → Step s.self (λ j. kind s.self j i) s (handler i s)
unfolding handler transport_message_handler connect_client disconnect send kind
handler-Step (message m) s = route_message-Step (deserialize_message m) s
handler-Step (transport_event e) s = transport_event_handler-Step e s
handler-Step (connect_request h) s =
    with_session-Step dial h h handle_client_connect_requested s (dial_Follows (held h h s))
handler-Step (disconnect_request h) s =
    nothing-Step _ s (disconnect h s) (λ j. refl) (cleanup-self h (emit (disconnects h) s))
      (sessions-cleanup h (emit (disconnects h) s))
handler-Step (send_request msg to) s = nothing-Step _ s (send msg to s) (λ j. refl) refl refl

-- One input changes the state of every session as the abstract machine says.
pub handler-next :
    (i : Input) (s : SessionLayer) (t : Host)
    → state_of (lookup t (handler i s).sessions)
      ≡ next (kind s.self t i) (state_of (lookup t s.sessions))
handler-next i s t = (handler-Step i s).1 t

abbrev pub next_all : Host → Host → List Input → SessionState → SessionState
next_all self t [] x = x
next_all self t (i ∷ is) x = next_all self t is (next (kind self t i) x)

-- Whatever a session layer receives, each of its sessions is in the state that the abstract machine
-- reaches on the same inputs.
pub run-next_all :
    (is : List Input) (s : SessionLayer) (t : Host)
    → state_of (lookup t (run is s).sessions)
      ≡ next_all s.self t is (state_of (lookup t s.sessions))
unfolding run
run-next_all [] s t = refl
run-next_all (i ∷ is) s t =
    run-next_all is (handler i s) t
    ∙ ap₂ (λ (self : Host) (x : SessionState). next_all self t is x) (handler-Step i s).0
        (handler-next i s t)

next_dead :
    (k : Kind) (x : SessionState)
    → k ≢ dial
    → (x ≡ failed) ⊎ (x ≡ closing)
    → (next k x ≡ failed) ⊎ (next k x ≡ closing)
unfolding next
next_dead k x other dead = ground arith

-- A session that failed or is closing comes back only by a connect request of this node: peers that
-- connect or send a Hello from the same transport host do not revive it.
dead_until_dialed :
    (is : List Input) (s : SessionLayer) (t : Host)
    → (state_of (lookup t s.sessions) ≡ failed) ⊎ (state_of (lookup t s.sessions) ≡ closing)
    → All (λ i. kind s.self t i ≢ dial) is
    → (state_of (lookup t (run is s).sessions) ≡ failed)
      ⊎ (state_of (lookup t (run is s).sessions) ≡ closing)
unfolding run
dead_until_dialed [] s t dead quiet = dead
dead_until_dialed (i ∷ is) s t dead (q, quiet) =
    dead_until_dialed is (handler i s) t
      (rw (handler-next i s t)
        (next_dead (kind s.self t i) (state_of (lookup t s.sessions)) q dead))
      (rw (handler-Step i s).0 quiet)
