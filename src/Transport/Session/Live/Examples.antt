-- ===== src/Transport/Session/Live/Examples.antt =====
-- Calls of a session layer of pkg/transport/session.go before and after Cancel.
use go_simple_protocol_runti.Common.{List, [], ◌∷◌, true, false}
use go_simple_protocol_runti.Common.Int.{pos}
use go_simple_protocol_runti.Transport.Host.{Host, new_host}
use go_simple_protocol_runti.Transport.Session.{new_session_layer}
use go_simple_protocol_runti.Transport.Session.Live.{
  Live, from_connect, from_send, out_events, context_done, Op, calls_connect, calls_send, cancels,
  turns,
}
use go_simple_protocol_runti.Transport.Layer.{transport_connected}

abbrev remote : Host
remote = new_host (pos 7001) []

abbrev live : Live
live = record {
  layer = new_session_layer (new_host (pos 7000) []);
  cancelled = false;
  handling = true;
  connect_chan = [];
  disconnect_chan = [];
  send_chan = [];
}

-- The event of the session that comes up after Cancel is given up, the Hello is not.
abbrev calls : List Op
calls =
    calls_send false (1 ∷ []) remote
    ∷ calls_connect false remote
    ∷ calls_send false (2 ∷ []) remote
    ∷ turns from_send []
    ∷ turns from_connect []
    ∷ cancels
    ∷ turns (out_events (transport_connected remote)) (false ∷ true ∷ [])
    ∷ calls_send false (3 ∷ []) remote
    ∷ turns context_done []
    ∷ turns from_send []
    ∷ []
