-- ===== src/Transport/Session/Peers.antt =====
-- Two session layers of pkg/transport/session.go during a handshake.
use go_simple_protocol_runti.Common.{
  ℕ, ◌≤◌, ◌≡◌, refl, ap, ◌∙◌, List, [], ◌∷◌, length, none, some, nat_eq, Map, lookup, insert,
  lookup-insert, arith, beq_refl,
}
use go_simple_protocol_runti.Common.Int.{pos, int_eq, uint16}
use go_simple_protocol_runti.Errors.{ok}
use go_simple_protocol_runti.Transport.Host.{Host, new_host, host_eq, zero_host}
use go_simple_protocol_runti.Transport.Host.RoundTrip.{encoding}
use go_simple_protocol_runti.Transport.Layer.{transport_connected}
use go_simple_protocol_runti.Transport.Handshake.{
  hello, deserialize_message, serialize_message, encode_hello, encode_ack, parse_handshake_payload,
}
use go_simple_protocol_runti.Transport.Handshake.Format.{
  encode_hello-encoding, parse_handshake_payload-encode,
}
use go_simple_protocol_runti.Transport.Session.{
  SessionState, established, handshaking_client, handshaking_server, SessionConn, SessionLayer,
  event, sends, connects, session_connected, resolve_underlying_host, map_to_host,
}
use go_simple_protocol_runti.Transport.Session.Steps.{
  Input, handler, run, message, transport_event, connect_request,
}
use go_simple_protocol_runti.Transport.Session.Mapping.{state_of}

abbrev session_at : Host → Host → SessionState → SessionConn
session_at logical transport state = record {
  logical_host = logical;
  transport_host = transport;
  state = state;
  last_err = none;
}

abbrev dialed : Host → SessionLayer → SessionLayer
dialed b s = record s {
  sessions = insert b (session_at b b handshaking_client) s.sessions;
  log = connects b ∷ s.log;
}

abbrev accepted : Host → SessionLayer → SessionLayer
accepted e s = record s {
  sessions = insert e (session_at zero_host e handshaking_server) s.sessions;
}

-- The client's two inputs.
client_dials :
    (b : Host) (s : SessionLayer)
    → lookup b s.sessions ≡ none
    → handler (connect_request b) s ≡ dialed b s
unfolding handler
client_dials b s fresh = ground arith

pub lookup-insert_self {κ} :
    {V : Type κ} (h : Host) (v : V) (m : Map Host V) → lookup h (insert h v m) ≡ some v
lookup-insert_self h v m = rw (lookup-insert h h v m, beq_refl h)

client_connects :
    (b : Host) (p : List ℕ) (s : SessionLayer)
    → lookup b s.sessions ≡ some (session_at b b handshaking_client)
    → encode_hello s.self ≡ ok p
    → handler (transport_event (transport_connected b)) s ≡ record s {
      sessions = insert b (session_at b b established) s.sessions;
      transport_to_logical = insert b b s.transport_to_logical;
      logical_to_transport = insert b b s.logical_to_transport;
      log = event (session_connected b) ∷ sends (record { host = b; msg = 1 ∷ p }) b ∷ s.log;
    }
unfolding handler serialize_message
client_connects b p s dialing encodes = ground arith

-- The server's two inputs.
server_accepts :
    (e : Host) (s : SessionLayer)
    → lookup e s.sessions ≡ none
    → handler (transport_event (transport_connected e)) s ≡ accepted e s
unfolding handler
server_accepts e s fresh = ground arith

server_greeted :
    (e l : Host) (p : List ℕ) (s : SessionLayer)
    → lookup e s.sessions ≡ some (session_at zero_host e handshaking_server)
    → parse_handshake_payload p ≡ ok (hello, l)
    → handler (message (record { host = e; msg = 1 ∷ p })) s ≡ record s {
      sessions = insert e (session_at l e established) s.sessions;
      transport_to_logical = insert e l s.transport_to_logical;
      logical_to_transport = insert l e s.logical_to_transport;
      log =
          event (session_connected l) ∷ sends (record { host = e; msg = 1 ∷ encode_ack }) e ∷ s.log;
    }
unfolding handler serialize_message deserialize_message
server_greeted e l p s waiting parses = ground arith

-- The acknowledgement reaches a client that is established already, and only the log could tell.
client_acknowledged :
    (b l : Host) (s : SessionLayer)
    → lookup b s.sessions ≡ some (session_at l b established)
    → handler (message (record { host = b; msg = 1 ∷ encode_ack })) s
      ≡ record s { sessions = insert b (session_at l b established) s.sessions }
unfolding handler deserialize_message parse_handshake_payload encode_ack
client_acknowledged b l s up = ground arith

abbrev pub dialing_inputs : Host → List Input
dialing_inputs b = connect_request b ∷ transport_event (transport_connected b) ∷ []

abbrev pub accepting_inputs : Host → List ℕ → List Input
accepting_inputs e greeting =
    transport_event (transport_connected e) ∷ message (record { host = e; msg = greeting }) ∷ []

client_runs :
    (b : Host) (p : List ℕ) (s : SessionLayer)
    → lookup b s.sessions ≡ none
    → encode_hello s.self ≡ ok p
    → ((run (dialing_inputs b) s).log
        ≡ event (session_connected b)
          ∷ sends (record { host = b; msg = 1 ∷ p }) b
          ∷ connects b
          ∷ s.log)
      × (lookup b (run (dialing_inputs b) s).sessions ≡ some (session_at b b established))
unfolding run
client_runs b p s fresh encodes =
    rw
      (
        client_dials b s fresh,
        client_connects b p (dialed b s) (lookup-insert_self b _ s.sessions) encodes,
      )
      (refl, lookup-insert_self b _ _)

server_runs :
    (e l : Host) (p : List ℕ) (s : SessionLayer)
    → lookup e s.sessions ≡ none
    → parse_handshake_payload p ≡ ok (hello, l)
    → let s' = run (accepting_inputs e (1 ∷ p)) s in
      (s'.log
        ≡ event (session_connected l) ∷ sends (record { host = e; msg = 1 ∷ encode_ack }) e ∷ s.log)
      × (state_of (lookup e s'.sessions) ≡ established)
      × (resolve_underlying_host l s' ≡ e)
      × (map_to_host e s' ≡ l)
unfolding run resolve_underlying_host map_to_host
server_runs e l p s fresh parses =
    rw
      (
        server_accepts e s fresh,
        server_greeted e l p (accepted e s) (lookup-insert_self e _ s.sessions) parses,
      )
      (
        refl,
        rw (lookup-insert_self e (session_at l e established) _),
        rw (lookup-insert_self l e s.logical_to_transport),
        rw (lookup-insert_self e l s.transport_to_logical),
      )

same_port : (h : Host) → h.port ≡ pos (uint16 h.port) → new_host (pos (uint16 h.port)) h.ip ≡ h
same_port h e = ground arith

-- A node dials `b`, with which it has no session yet in any state, and the peer accepts the connection as
-- `e`, for which it has none either; the name of the dialing node's host has at most 65535 bytes and its
-- port is one of 16 bits. Then the Hello that the dialing side logs makes the peer's session established under the dialing node's own host, reported once and mapped
-- both ways; the answer changes nothing more than the log could tell on the dialing side, which
-- reports `b` once and is established too.
pub handshake_establishes :
    (b e : Host) (a s : SessionLayer)
    → lookup b a.sessions ≡ none
    → lookup e s.sessions ≡ none
    → length a.self.ip ≤ 0xffff
    → a.self.port ≡ pos (uint16 a.self.port)
    → (greeting : List ℕ) × (answer : List ℕ) × ((run (dialing_inputs b) a).log
        ≡ event (session_connected b)
          ∷ sends (record { host = b; msg = greeting }) b
          ∷ connects b
          ∷ a.log)
      × ((run (accepting_inputs e greeting) s).log
          ≡ event (session_connected a.self) ∷ sends (record { host = e; msg = answer }) e ∷ s.log)
      × (state_of (lookup e (run (accepting_inputs e greeting) s).sessions) ≡ established)
      × (resolve_underlying_host a.self (run (accepting_inputs e greeting) s) ≡ e)
      × (map_to_host e (run (accepting_inputs e greeting) s) ≡ a.self)
      × ((handler (message (record { host = b; msg = answer })) (run (dialing_inputs b) a)).log
          ≡ (run (dialing_inputs b) a).log)
      × (state_of (
            lookup b
              (handler
                (message (record { host = b; msg = answer }))
                (run (dialing_inputs b) a)).sessions)
          ≡ established)
handshake_establishes b e a s fresh fresh' small port =
    let p = 1 ∷ 1 ∷ encoding a.self in
    let sent = encode_hello-encoding a.self small in
    let parses : parse_handshake_payload p ≡ ok (hello, a.self) =
      (parse_handshake_payload-encode a.self p sent).0
      ∙ ap (λ (h : Host). ok (hello, h)) (same_port a.self port) in
    let (log, up) = client_runs b p a fresh sent in
    let (log', up', there, back) = server_runs e a.self p s fresh' parses in
    let quiet = client_acknowledged b b (run (dialing_inputs b) a) up in
    (
      1 ∷ p,
      1 ∷ encode_ack,
      log,
      log',
      up',
      there,
      back,
      ap (λ (x : SessionLayer). x.log) quiet,
      rw (quiet, lookup-insert_self b (session_at b b established) _),
    )
