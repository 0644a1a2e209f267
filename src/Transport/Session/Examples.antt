-- ===== src/Transport/Session/Examples.antt =====
-- Runs of pkg/transport/session.go on concrete inputs.
use go_simple_protocol_runti.Common.{ℕ, ◌≡◌, ◌≢◌, refl, List, [], ◌∷◌, some, lookup, insert, arith}
use go_simple_protocol_runti.Common.Int.{pos, uint16}
use go_simple_protocol_runti.Wire.{read_uint16, read_uint, read_full}
use go_simple_protocol_runti.Wire.Words.{le_value}
use go_simple_protocol_runti.Transport.Host.{Host, host_eq, new_host, read_host, read_host_name}
use go_simple_protocol_runti.Transport.Layer.{transport_connected, transport_disconnected}
use go_simple_protocol_runti.Transport.Handshake.{
  session, layer_byte, deserialize_message, take_header, parse_handshake_payload, parse_hello,
  parse_version,
}
use go_simple_protocol_runti.Transport.Session.{
  session_disconnected, closing, established, new_session_layer, session_connected,
  session_version_mismatch, event, sends, connects, disconnects, resolve_underlying_host,
  map_to_host, handle_connected, handle_handshake_message, parsed_handshake,
  handle_server_handshake, establish, set_server_mapping,
}
use go_simple_protocol_runti.Transport.Session.Steps.{
  Input, message, transport_event, handler, run, transport_event_handler, dispatch_connected,
  with_session, find_session, store_session, mark_server, transport_message_handler, route_message,
  dispatch_handshake_message,
}
use go_simple_protocol_runti.Transport.Session.Mapping.{state_of}
use go_simple_protocol_runti.Transport.Session.Invariant.{
  run_resolves, run-Inv, new_session_layer-Inv,
}
use go_simple_protocol_runti.Transport.Session.Refinement.{run-next_all, next_all}
use go_simple_protocol_runti.Transport.Session.Peers.{
  handshake_establishes, dialing_inputs, accepting_inputs,
}
use go_simple_protocol_runti.Transport.Session.Reports.{
  mismatch_reported_without_version, shadowed_peer_unreachable,
}

abbrev here : Host
here = new_host (pos 1) (104 ∷ [])

abbrev there : Host
there = new_host (pos 2) (104 ∷ [])

-- A transport host under which the listener sees a peer.
abbrev ephemeral : Host
ephemeral = new_host (pos 3) (104 ∷ [])

ephemeral-ne-here : ephemeral ≢ here
ephemeral-ne-here e = cc

handshake_establishes_example :
    (greeting : List ℕ) × (answer : List ℕ) × ((run
        (dialing_inputs there)
        (new_session_layer here)).log
      ≡ event (session_connected there)
        ∷ sends (record { host = there; msg = greeting }) there
        ∷ connects there
        ∷ [])
    × ((run (accepting_inputs ephemeral greeting) (new_session_layer there)).log
        ≡ event (session_connected here)
          ∷ sends (record { host = ephemeral; msg = answer }) ephemeral
          ∷ [])
    × (state_of (
          lookup ephemeral
            (run (accepting_inputs ephemeral greeting) (new_session_layer there)).sessions)
        ≡ established)
    × (resolve_underlying_host here
          (run (accepting_inputs ephemeral greeting) (new_session_layer there))
        ≡ ephemeral)
    × (map_to_host ephemeral (run (accepting_inputs ephemeral greeting) (new_session_layer there))
        ≡ here)
    × ((handler
          (message (record { host = there; msg = answer }))
          (run (dialing_inputs there) (new_session_layer here))).log
        ≡ (run (dialing_inputs there) (new_session_layer here)).log)
    × (state_of (
          lookup there
            (handler
              (message (record { host = there; msg = answer }))
              (run (dialing_inputs there) (new_session_layer here))).sessions)
        ≡ established)
unfolding new_session_layer lookup uint16
handshake_establishes_example =
    handshake_establishes there ephemeral (new_session_layer here) (new_session_layer there) refl
      refl (omega arith) refl

abbrev accepted : List Input
accepted =
    transport_event (transport_connected ephemeral)
    ∷ message (record { host = ephemeral; msg = 1 ∷ 1 ∷ 1 ∷ 1 ∷ 0 ∷ 104 ∷ 1 ∷ 0 ∷ [] })
    ∷ []

accepted_resolves :
    lookup here (run accepted (new_session_layer there)).logical_to_transport ≡ some ephemeral
unfolding run handler transport_event_handler dispatch_connected with_session find_session
    store_session mark_server handle_connected transport_message_handler route_message
    dispatch_handshake_message handle_handshake_message deserialize_message take_header
    parse_handshake_payload parse_hello parse_version read_host read_host_name read_uint16 read_uint
    read_full le_value parsed_handshake handle_server_handshake establish set_server_mapping lookup
    insert new_session_layer
accepted_resolves = refl

run_resolves_example :
    (lookup ephemeral (run accepted (new_session_layer there)).transport_to_logical ≡ some here)
    × (state_of (lookup ephemeral (run accepted (new_session_layer there)).sessions) ≡ established)
    × (resolve_underlying_host here (run accepted (new_session_layer there)) ≡ ephemeral)
run_resolves_example = run_resolves there accepted here ephemeral accepted_resolves

run-next_all_example :
    state_of (lookup ephemeral (run accepted (new_session_layer there)).sessions)
    ≡ next_all there ephemeral accepted
        (state_of (lookup ephemeral (new_session_layer there).sessions))
unfolding new_session_layer
run-next_all_example = run-next_all accepted (new_session_layer there) ephemeral

mismatch_reported_without_version_example :
    let s' =
      run
        (transport_event (transport_connected ephemeral)
          ∷ message (record { host = ephemeral; msg = layer_byte session ∷ 1 ∷ 9 ∷ [] })
          ∷ transport_event (transport_disconnected ephemeral)
          ∷ [])
        (new_session_layer there) in
    (s'.log
      ≡ event (session_disconnected ephemeral)
        ∷ disconnects ephemeral
        ∷ event (session_version_mismatch ephemeral 0)
        ∷ [])
    × (state_of (lookup ephemeral s'.sessions) ≡ closing)
    × (s'.transport_to_logical ≡ [])
unfolding new_session_layer lookup
mismatch_reported_without_version_example =
    mismatch_reported_without_version ephemeral 9 [] (new_session_layer there)
      (λ e. omega (arith, e)) refl refl

-- Two connections of one peer, each with its Hello.
abbrev twice : List Input
twice =
    transport_event (transport_connected ephemeral)
    ∷ message (record { host = ephemeral; msg = 1 ∷ 1 ∷ 1 ∷ 1 ∷ 0 ∷ 104 ∷ 9 ∷ 0 ∷ [] })
    ∷ transport_event (transport_connected here)
    ∷ message (record { host = here; msg = 1 ∷ 1 ∷ 1 ∷ 1 ∷ 0 ∷ 104 ∷ 9 ∷ 0 ∷ [] })
    ∷ []

abbrev announced : Host
announced = new_host (pos 9) (104 ∷ [])

first_is_mapped :
    lookup ephemeral (run twice (new_session_layer there)).transport_to_logical ≡ some announced
unfolding run handler transport_event_handler dispatch_connected with_session find_session
    store_session mark_server handle_connected transport_message_handler route_message
    dispatch_handshake_message handle_handshake_message deserialize_message take_header
    parse_handshake_payload parse_hello parse_version read_host read_host_name read_uint16 read_uint
    read_full le_value parsed_handshake handle_server_handshake establish set_server_mapping lookup
    insert new_session_layer
first_is_mapped = refl

second_is_mapped :
    lookup here (run twice (new_session_layer there)).transport_to_logical ≡ some announced
unfolding run handler transport_event_handler dispatch_connected with_session find_session
    store_session mark_server handle_connected transport_message_handler route_message
    dispatch_handshake_message handle_handshake_message deserialize_message take_header
    parse_handshake_payload parse_hello parse_version read_host read_host_name read_uint16 read_uint
    read_full le_value parsed_handshake handle_server_handshake establish set_server_mapping lookup
    insert new_session_layer
second_is_mapped = refl

shadowed_peer_unreachable_example :
    let s' =
      handler
        (transport_event (transport_disconnected ephemeral))
        (run twice (new_session_layer there)) in
    (resolve_underlying_host announced s' ≡ announced)
    × (lookup here s'.transport_to_logical ≡ some announced)
    × (state_of (lookup here s'.sessions) ≡ established)
shadowed_peer_unreachable_example =
    shadowed_peer_unreachable ephemeral here announced (run twice (new_session_layer there))
      (run-Inv twice (new_session_layer there) (new_session_layer-Inv there)) first_is_mapped
      second_is_mapped ephemeral-ne-here
