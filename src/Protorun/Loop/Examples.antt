-- ===== src/Protorun/Loop/Examples.antt =====
-- An event loop of pkg/protorun/protocol.go whose first message panics its handler.
use go_simple_protocol_runti.Common.{ℕ, ◌+◌, ◌≡◌, refl, List, [], ◌∷◌, true, none, some, nat_eq}
use go_simple_protocol_runti.Common.Int.{pos}
use go_simple_protocol_runti.Transport.Host.{Host, zero_host}
use go_simple_protocol_runti.Protorun.Loop.{
  Input, done, message_in, notification_in, ProtoProtocol, Loop, event_handler, UserCode,
}
use go_simple_protocol_runti.Protorun.Loop.Reports.{with_settled, settle_all, loop_survives_panics}

-- The user's state counts the calls; messages are numbers with their wire ids.
abbrev id_of : ℕ → ℕ
id_of m = m

abbrev careless : ℕ → Host → UserCode ℕ ℕ id_of
careless m from n = (n + 1, some 42)

abbrev careful : UserCode ℕ ℕ id_of
careful n = (n + 1, none)

abbrev proto : ProtoProtocol ℕ ℕ id_of
proto = record {
  strict = true;
  strict_handler_timeout = pos 5;
  handlers = (7, careless) ∷ [];
  timer_handlers = [];
  on_session_connected = none;
  on_session_disconnected = none;
  on_session_given_up = none;
  on_panic = none;
}

abbrev idle : Loop ℕ ℕ id_of
idle = record { user = 0; reports = []; watchdogs = 0; running = true }

abbrev inputs : List (Input ℕ ℕ id_of)
inputs =
    message_in 7 zero_host
    ∷ message_in 8 zero_host
    ∷ notification_in careful
    ∷ done
    ∷ notification_in careful
    ∷ []

loop_survives_panics_example :
    event_handler ℕ ℕ id_of proto inputs idle
    ≡ with_settled ℕ ℕ id_of idle (settle_all ℕ ℕ id_of proto inputs 0)
loop_survives_panics_example = loop_survives_panics ℕ ℕ id_of proto inputs idle refl
