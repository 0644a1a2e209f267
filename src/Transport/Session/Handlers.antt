-- ===== src/Transport/Session/Handlers.antt =====
-- The methods of a session of pkg/transport/session.go and the invariant of the mappings.
use go_simple_protocol_runti.Common.{ℕ, ◌≡◌, ◌≢◌, refl, List, some, inl, inr, Bool-cases}
use go_simple_protocol_runti.Errors.{
  Error, Result, ok, err, Result-cases, errors_is, version_mismatch,
}
use go_simple_protocol_runti.Transport.Host.{Host, host_eq}
use go_simple_protocol_runti.Transport.Handshake.{
  HandshakeType, hello, ack, SessionMessage, encode_hello, parse_handshake_payload,
}
use go_simple_protocol_runti.Transport.Session.{
  SessionState, idle, handshaking_client, handshaking_server, established, failed, closing,
  SessionConn, SessionLayer, connects, emit, Conn, handle_client_connect_requested,
  client_connected, handle_connected, handle_server_handshake, handle_client_handshake,
  parse_failed, parsed_handshake, handle_handshake_message, tear_down, handle_disconnected,
  handle_failed,
}
use go_simple_protocol_runti.Transport.Session.Mapping.{HeldInv}
use go_simple_protocol_runti.Transport.Session.Held.{
  HeldInv-emit, HeldInv-state, HeldInv-fields, HeldInv-establish, HeldInv-cleanup,
}

pub handle_client_connect_requested-HeldInv :
    (t : Host) (c : Conn) → HeldInv t c → HeldInv t (handle_client_connect_requested c)
unfolding handle_client_connect_requested
handle_client_connect_requested-HeldInv t (sc, s) v = go sc.state refl
  where
    start :
        sc.state ≢ established
        → HeldInv t (record sc { state = handshaking_client }, emit (connects sc.transport_host) s)
    start other = HeldInv-emit t _ _ s (HeldInv-state t sc _ s refl other v)

    go : (x : SessionState) → sc.state ≡ x → HeldInv t (handle_client_connect_requested (sc, s))
    go idle e = rw (e, handle_client_connect_requested) (start (λ f. cc))
    go failed e = rw (e, handle_client_connect_requested) (start (λ f. cc))
    go closing e = rw (e, handle_client_connect_requested) (start (λ f. cc))
    go handshaking_client e = rw (e, handle_client_connect_requested) v
    go handshaking_server e = rw (e, handle_client_connect_requested) v
    go established e = rw (e, handle_client_connect_requested) v

client_connected-HeldInv :
    (t : Host) (r : Result (List ℕ)) (sc : SessionConn) (s : SessionLayer)
    → sc.state ≢ established
    → HeldInv t (sc, s)
    → HeldInv t (client_connected r (sc, s))
unfolding client_connected
client_connected-HeldInv t (err x) sc s other v =
    HeldInv-emit t _ _ s (HeldInv-state t sc _ s refl other v)
client_connected-HeldInv t (ok p) sc s other v =
    HeldInv-establish t sc _ other (HeldInv-emit t sc _ s v)

pub handle_connected-HeldInv : (t : Host) (c : Conn) → HeldInv t c → HeldInv t (handle_connected c)
unfolding handle_connected
handle_connected-HeldInv t (sc, s) v = go sc.state refl
  where
    go : (x : SessionState) → sc.state ≡ x → HeldInv t (handle_connected (sc, s))
    go handshaking_client e =
        rw (e, handle_connected) (client_connected-HeldInv t (encode_hello s.self) sc s (λ f. cc) v)
    go idle e = rw (e, handle_connected) v
    go failed e = rw (e, handle_connected) v
    go closing e = rw (e, handle_connected) v
    go handshaking_server e = rw (e, handle_connected) v
    go established e = rw (e, handle_connected) v

handle_server_handshake-HeldInv :
    (t : Host) (ht : HandshakeType) (remote : Host) (sc : SessionConn) (s : SessionLayer)
    → sc.state ≢ established
    → HeldInv t (sc, s)
    → HeldInv t (handle_server_handshake ht remote (sc, s))
unfolding handle_server_handshake
handle_server_handshake-HeldInv t hello remote sc s other v =
    HeldInv-establish t (record sc { logical_host = remote }) _ other
      (HeldInv-emit t _ _ s (HeldInv-fields t sc _ s refl refl v))
handle_server_handshake-HeldInv t ack remote sc s other v = v

handle_client_handshake-HeldInv :
    (t : Host) (ht : HandshakeType) (remote : Host) (c : Conn)
    → HeldInv t c
    → HeldInv t (handle_client_handshake ht remote c)
unfolding handle_client_handshake
handle_client_handshake-HeldInv t hello remote c v = v
handle_client_handshake-HeldInv t ack remote c v = v

parsed_handshake-HeldInv :
    (t : Host) (ht : HandshakeType) (remote : Host) (c : Conn)
    → HeldInv t c
    → HeldInv t (parsed_handshake ht remote c)
unfolding parsed_handshake
parsed_handshake-HeldInv t ht remote (sc, s) v = go sc.state refl
  where
    go : (x : SessionState) → sc.state ≡ x → HeldInv t (parsed_handshake ht remote (sc, s))
    go handshaking_server e =
        rw (e, parsed_handshake) (handle_server_handshake-HeldInv t ht remote sc s (λ f. cc) v)
    go handshaking_client e =
        rw (e, parsed_handshake) (handle_client_handshake-HeldInv t ht remote (sc, s) v)
    go idle e = rw (e, parsed_handshake) v
    go failed e = rw (e, parsed_handshake) v
    go closing e = rw (e, parsed_handshake) v
    go established e = rw (e, parsed_handshake) v

parse_failed-HeldInv :
    (t : Host) (e : Error) (c : Conn) → HeldInv t c → HeldInv t (parse_failed e c)
unfolding parse_failed
parse_failed-HeldInv t e (sc, s) v =
    let w = HeldInv-fields t sc (record sc { last_err = some e }) s refl refl v in
    elim (Bool-cases (errors_is version_mismatch e)) [
      | inl m ↦ rw m (HeldInv-emit t _ _ _ (HeldInv-emit t _ _ s w))
      | inr m ↦ rw m w
    ]

pub handle_handshake_message-HeldInv :
    (t : Host) (msg : SessionMessage) (c : Conn)
    → HeldInv t c
    → HeldInv t (handle_handshake_message msg c)
unfolding handle_handshake_message
handle_handshake_message-HeldInv t msg c v = elim (Result-cases (parse_handshake_payload msg.msg)) [
  | inl ((ht, host), e) ↦ rw (e, handle_handshake_message) (parsed_handshake-HeldInv t ht host c v)
  | inr (x, e) ↦ rw (e, handle_handshake_message) (parse_failed-HeldInv t x c v)
]

pub handle_disconnected-HeldInv :
    (t : Host) (c : Conn) → HeldInv t c → HeldInv t (handle_disconnected c)
unfolding handle_disconnected tear_down
handle_disconnected-HeldInv t (sc, s) v = go sc.state refl
  where
    down : HeldInv t (tear_down (sc, s))
    down = HeldInv-emit t _ _ _ (HeldInv-cleanup t sc (record sc { state = closing }) s refl v)

    go : (x : SessionState) → sc.state ≡ x → HeldInv t (handle_disconnected (sc, s))
    go established e = rw (e, handle_disconnected) down
    go handshaking_client e = rw (e, handle_disconnected) down
    go handshaking_server e = rw (e, handle_disconnected) down
    go idle e = rw (e, handle_disconnected) (HeldInv-state t sc _ s refl (λ f. cc) v)
    go failed e = rw (e, handle_disconnected) (HeldInv-state t sc _ s refl (λ f. cc) v)
    go closing e = rw (e, handle_disconnected) (HeldInv-state t sc _ s refl (λ f. cc) v)

pub handle_failed-HeldInv : (t : Host) (c : Conn) → HeldInv t c → HeldInv t (handle_failed c)
unfolding handle_failed
handle_failed-HeldInv t (sc, s) v =
    HeldInv-emit t _ _ _ (HeldInv-cleanup t sc (record sc { state = failed }) s refl v)
