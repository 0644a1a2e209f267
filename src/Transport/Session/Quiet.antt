-- ===== src/Transport/Session/Quiet.antt =====
-- pkg/transport/session.go: what the handler loop hands to the application, and that a handshake message
-- hands it nothing.
use go_simple_protocol_runti.Common.{ℕ, ◌≡◌, refl, ◌∙◌, List, [], ◌∷◌, Bool-cases, inl, inr, lookup}
use go_simple_protocol_runti.Errors.{Error, errors_is, version_mismatch, Result-cases}
use go_simple_protocol_runti.Transport.Host.{Host, host_eq, zero_host}
use go_simple_protocol_runti.Transport.Handshake.{
  HandshakeType, hello, ack, session, layer_byte, SessionMessage, parse_handshake_payload,
  deserialize_message,
}
use go_simple_protocol_runti.Transport.Session.{
  idle, handshaking_client, handshaking_server, SessionLayer, Output, deliver, Conn, establish,
  set_server_mapping, handle_server_handshake, handle_client_handshake, parse_failed,
  parsed_handshake, handle_handshake_message,
}
use go_simple_protocol_runti.Transport.Session.Steps.{
  handler, message, mark_server, with_session, find_session, store_session,
  dispatch_handshake_message,
}

-- The out channel of the session layer, with what comes after it.
abbrev pub from_session : List Output → List (List ℕ × Host) → List (List ℕ × Host)
from_session [] later = later
from_session (deliver m ∷ log) later = from_session log ((m.msg, m.host) ∷ later)
from_session (_ ∷ log) later = from_session log later

module _ (later : List (List ℕ × Host)) where
  abbrev handed : Conn → List (List ℕ × Host)
  handed c = from_session c.1.log later

  mark_server-quiet : (c : Conn) → handed (mark_server c) ≡ handed c
  unfolding mark_server
  mark_server-quiet (sc, s) =
      elim sc.state
        as (λ st.
          handed (elim st [ idle ↦ (record sc { state = handshaking_server }, s) | _ ↦ (sc, s) ])
          ≡ handed (sc, s)) [ idle ↦ refl | _ ↦ refl ]

  server_handshake-quiet :
      (ht : HandshakeType) (host : Host) (c : Conn)
      → handed (handle_server_handshake ht host c) ≡ handed c
  unfolding handle_server_handshake establish set_server_mapping
  server_handshake-quiet hello host (sc, s) = refl
  server_handshake-quiet ack host (sc, s) = refl

  client_handshake-quiet :
      (ht : HandshakeType) (host : Host) (c : Conn)
      → handed (handle_client_handshake ht host c) ≡ handed c
  unfolding handle_client_handshake
  client_handshake-quiet hello host c = refl
  client_handshake-quiet ack host c = refl

  parsed-quiet :
      (ht : HandshakeType) (host : Host) (c : Conn) → handed (parsed_handshake ht host c) ≡ handed c
  unfolding parsed_handshake
  parsed-quiet ht host (sc, s) =
      elim sc.state
        as (λ st.
          handed (elim st [
            | handshaking_server ↦ handle_server_handshake ht host (sc, s)
            | handshaking_client ↦ handle_client_handshake ht host (sc, s)
            | _ ↦ (sc, s)
          ])
          ≡ handed (sc, s)) [
            | handshaking_server ↦ server_handshake-quiet ht host (sc, s)
            | handshaking_client ↦ client_handshake-quiet ht host (sc, s)
            | _ ↦ refl
          ]

  failed-quiet : (e : Error) (c : Conn) → handed (parse_failed e c) ≡ handed c
  unfolding parse_failed
  failed-quiet e (sc, s) = elim (Bool-cases (errors_is version_mismatch e)) [
    | inl differs ↦ rw differs refl
    | inr other ↦ rw other refl
  ]

  handshake-quiet :
      (m : SessionMessage) (c : Conn) → handed (handle_handshake_message m c) ≡ handed c
  unfolding handle_handshake_message
  handshake-quiet m c = elim (Result-cases (parse_handshake_payload m.msg)) [
    | inl ((ht, host), e) ↦ rw (e, handle_handshake_message) (parsed-quiet ht host c)
    | inr (x, e) ↦ rw (e, handle_handshake_message) (failed-quiet x c)
  ]

  -- A session message that comes from the transport hands nothing to the application.
  pub session_message-quiet :
      (peer : Host) (body : List ℕ) (s : SessionLayer)
      → from_session
          (handler (message (record { host = peer; msg = layer_byte session ∷ body })) s).log
          later
        ≡ from_session s.log later
  unfolding handler dispatch_handshake_message with_session deserialize_message store_session
  session_message-quiet peer body s =
      let m : SessionMessage = record { host = peer; layer = session; msg = body } in
      let c : Conn = (find_session peer zero_host (lookup peer s.sessions), s) in
      handshake-quiet m (mark_server c) ∙ mark_server-quiet c
