-- ===== src/Transport/Session/Reports.antt =====
-- What the session layer of pkg/transport/session.go reports upwards, and what it resolves a host to
-- after a disconnect.
use go_simple_protocol_runti.Common.{
  ℕ, ◌≡◌, ◌≢◌, refl, ap, List, [], ◌∷◌, Option, none, some, nat_eq, lookup, insert, lookup-insert,
  lookup-delete, delete, Option-cases, arith, beq_refl, inl, inr,
}
use go_simple_protocol_runti.Common.Int.{int_eq}
use go_simple_protocol_runti.Errors.{Error, errors_is, version_mismatch, sentinel, wrap}
use go_simple_protocol_runti.Transport.Host.{Host, host_eq, host_beq_iff, zero_host}
use go_simple_protocol_runti.Transport.Layer.{transport_connected, transport_disconnected}
use go_simple_protocol_runti.Transport.Handshake.{
  application, session, SessionMessage, deserialize_message, layer_byte, parse_handshake_payload,
  protocol_version,
}
use go_simple_protocol_runti.Transport.Session.{
  established, handshaking_server, closing, SessionConn, SessionLayer, event, deliver, disconnects,
  session_disconnected, session_version_mismatch, resolve_underlying_host, map_to_host,
  cleanup_server_mapping,
}
use go_simple_protocol_runti.Transport.Session.Steps.{handler, run, message, transport_event}
use go_simple_protocol_runti.Transport.Session.Peers.{lookup-insert_self}
use go_simple_protocol_runti.Transport.Session.Mapping.{Inv, state_of}

-- An application message is reported under the transport host that it came over. So a message of a
-- peer that connected to this node, whose transport host is not its own host, is delivered under a
-- host other than the logical one.
delivered_under_transport_host :
    (t l : Host) (body : List ℕ) (s : SessionLayer)
    → lookup t s.transport_to_logical ≡ some l
    → t ≢ l
    → let s' = handler (message (record { host = t; msg = layer_byte application ∷ body })) s in
      (m : SessionMessage) × (s'.log ≡ deliver m ∷ s.log)
      × (m.msg ≡ body)
      × (m.host ≡ t)
      × (m.host ≢ map_to_host t s)
unfolding handler deserialize_message map_to_host
delivered_under_transport_host t l body s mapped other =
    (record { host = t; layer = application; msg = body }, refl, refl, refl, rw mapped other)

abbrev accepted_session : Host → Option Error → SessionConn
accepted_session t last_err = record {
  logical_host = zero_host;
  transport_host = t;
  state = handshaking_server;
  last_err = last_err;
}

accepts :
    (t : Host) (s : SessionLayer)
    → lookup t s.sessions ≡ none
    → handler (transport_event (transport_connected t)) s
      ≡ record s { sessions = insert t (accepted_session t none) s.sessions }
unfolding handler
accepts t s unknown = ground arith

abbrev mismatch : Error
mismatch = wrap "got, expected" (sentinel version_mismatch)

refuses_version :
    (t : Host) (version : ℕ) (rest : List ℕ) (s : SessionLayer)
    → version ≢ protocol_version
    → lookup t s.sessions ≡ some (accepted_session t none)
    → handler (message (record { host = t; msg = layer_byte session ∷ 1 ∷ version ∷ rest })) s
      ≡ record s {
        sessions = insert t (accepted_session t (some mismatch)) s.sessions;
        log = disconnects t ∷ event (session_version_mismatch t 0) ∷ s.log;
      }
unfolding handler deserialize_message parse_handshake_payload errors_is
refuses_version t version rest s other waiting = ground arith

loses_accepted :
    (t : Host) (e : Option Error) (s : SessionLayer)
    → lookup t s.sessions ≡ some (accepted_session t e)
    → lookup t s.transport_to_logical ≡ none
    → handler (transport_event (transport_disconnected t)) s ≡ record s {
      sessions = insert t (record (accepted_session t e) { state = closing }) s.sessions;
      log = event (session_disconnected t) ∷ s.log;
    }
unfolding handler cleanup_server_mapping map_to_host
loses_accepted t e s waiting unmapped = ground arith

-- A peer's connection is accepted under a host that has no session and is not mapped, the peer's
-- Hello announces another version, and the connection that the node then asks to close is lost: no
-- session with the host is ever reported connected, but a version mismatch, and then a
-- disconnection, is. The mismatch's peer version is 0, whatever version the peer announced.
pub mismatch_reported_without_version :
    (t : Host) (version : ℕ) (rest : List ℕ) (s : SessionLayer)
    → version ≢ protocol_version
    → lookup t s.sessions ≡ none
    → lookup t s.transport_to_logical ≡ none
    → let s' =
        run
          (transport_event (transport_connected t)
            ∷ message (record { host = t; msg = layer_byte session ∷ 1 ∷ version ∷ rest })
            ∷ transport_event (transport_disconnected t)
            ∷ [])
          s in
      (s'.log
        ≡ event (session_disconnected t)
          ∷ disconnects t
          ∷ event (session_version_mismatch t 0)
          ∷ s.log)
      × (state_of (lookup t s'.sessions) ≡ closing)
      × (s'.transport_to_logical ≡ s.transport_to_logical)
unfolding run
mismatch_reported_without_version t version rest s other unknown unmapped =
    let s₁ = record s { sessions = insert t (accepted_session t none) s.sessions } in
    let s₂ = record s₁ {
      sessions = insert t (accepted_session t (some mismatch)) s₁.sessions;
      log = disconnects t ∷ event (session_version_mismatch t 0) ∷ s.log;
    } in
    let found₁ : lookup t s₁.sessions ≡ some (accepted_session t none) =
      lookup-insert_self t (accepted_session t none) s.sessions in
    let found₂ : lookup t s₂.sessions ≡ some (accepted_session t (some mismatch)) =
      lookup-insert_self t (accepted_session t (some mismatch)) s₁.sessions in
    rw (accepts t s unknown) (
      rw (refuses_version t version rest s₁ other found₁) (
        rw (loses_accepted t (some mismatch) s₂ found₂ unmapped) (
          refl,
          ap (λ (found : Option SessionConn). state_of found)
              (lookup-insert_self t
                (record (accepted_session t (some mismatch)) { state = closing }) s₂.sessions),
          refl,
        )))

mapped_session :
    (t l : Host) (s : SessionLayer)
    → Inv s
    → lookup t s.transport_to_logical ≡ some l
    → (sc : SessionConn) × (lookup t s.sessions ≡ some sc) × (sc.state ≡ established)
mapped_session t l s v e = elim (Option-cases (lookup t s.sessions)) [
  | inl absent ↦ absurd (ground (arith, v.mapped t l e))
  | inr (sc, known) ↦ (sc, known, ground (arith, v.mapped t l e))
]

peer_disconnects :
    (t l : Host) (sc : SessionConn) (s : SessionLayer)
    → lookup t s.sessions ≡ some sc
    → sc.state ≡ established
    → sc.transport_host ≡ t
    → lookup t s.transport_to_logical ≡ some l
    → handler (transport_event (transport_disconnected t)) s ≡ record s {
      sessions = insert t (record sc { state = closing }) s.sessions;
      transport_to_logical = delete t s.transport_to_logical;
      logical_to_transport = delete l s.logical_to_transport;
      log = event (session_disconnected l) ∷ s.log;
    }
unfolding handler cleanup_server_mapping map_to_host
peer_disconnects t l sc s known up same mapped = ground arith

-- Two transport hosts that announced the same logical host: when one of them disconnects, the
-- logical host resolves to itself again, although the other one's session is still established and
-- still mapped to it.
pub shadowed_peer_unreachable :
    (t u l : Host) (s : SessionLayer)
    → Inv s
    → lookup t s.transport_to_logical ≡ some l
    → lookup u s.transport_to_logical ≡ some l
    → t ≢ u
    → let s' = handler (transport_event (transport_disconnected t)) s in
      (resolve_underlying_host l s' ≡ l)
      × (lookup u s'.transport_to_logical ≡ some l)
      × (state_of (lookup u s'.sessions) ≡ established)
unfolding resolve_underlying_host
shadowed_peer_unreachable t u l s v first second other =
    let (sc, known, up) = mapped_session t l s v first in
    let down = peer_disconnects t l sc s known up (v.keyed t sc known) first in
    rw down (
      rw (lookup-delete l l s.logical_to_transport, beq_refl l),
      ground (arith, lookup-delete t u s.transport_to_logical, host_beq_iff t u),
      ground (
        arith,
        lookup-insert t u (record sc { state = closing }) s.sessions,
        host_beq_iff t u,
        v.mapped u l second,
      ),
    )
