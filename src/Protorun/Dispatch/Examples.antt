-- ===== src/Protorun/Dispatch/Examples.antt =====
-- Session events of pkg/protorun/runtime.go on a runtime with two protocols.
use go_simple_protocol_runti.Common.{◌≡◌, List, [], ◌∷◌, true}
use go_simple_protocol_runti.Common.Int.{ℤ, pos}
use go_simple_protocol_runti.Transport.Host.{host_eq}
use go_simple_protocol_runti.Transport.Session.{
  SessionEvent, session_connected, session_disconnected,
}
use go_simple_protocol_runti.Protorun.Dispatch.{ProtocolEvent, pump}
use go_simple_protocol_runti.Protorun.Dispatch.Reported.{
  live, appended, all_reports, all_retries, pump_tells_all,
}
use go_simple_protocol_runti.Protorun.Examples.{whole, table, peer}

abbrev boxes : List (List ProtocolEvent)
boxes = [] ∷ [] ∷ []

abbrev events : List (SessionEvent × ℤ)
events = (session_connected peer, pos 0) ∷ (session_disconnected peer, pos 0) ∷ []

pump_tells_all_example : pump whole events (live whole (table (pos 1)) boxes) ≡ (
  true,
  live whole
      (all_retries whole events (table (pos 1)))
      (appended (all_reports whole events (table (pos 1))) boxes),
)
pump_tells_all_example = pump_tells_all whole events (table (pos 1)) boxes
