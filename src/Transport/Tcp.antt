-- ===== src/Transport/Tcp.antt =====
-- pkg/transport/tcp.go: the table of active connections and what the handler loop, the accept loop
-- and the connection handlers do to it, one step each. The network decides what a dial, a write or a
-- read comes to, so that is an argument. A net.Conn is a number, and none is nil; what is sent on the
-- channels and done to the connections is logged, newest first.
pub mod Balance
pub mod Delivery
use go_simple_protocol_runti.Common.{
  ℕ, List, [], ◌∷◌, ◌++◌, Bool, true, false, Option, none, some, if◌then◌else◌, ◌==◌, nat_eq, Map,
  lookup, insert, delete, nth,
}
use go_simple_protocol_runti.Errors.{Result, ok, err}
use go_simple_protocol_runti.Transport.Host.{Host, host_eq}
use go_simple_protocol_runti.Transport.Layer.{
  Message, TransportEvent, transport_connected, transport_disconnected, transport_failed,
}
use go_simple_protocol_runti.Transport.Frame.{encode_frame, decode_frames, frames, failed, stuck}

pub record TcpLayer : Type 0 where
  pub active_connections : Map Host ℕ
  -- the receive buffer of each connection handler
  pub recv_bufs : Map ℕ (List ℕ)
  -- the connections in the table of which Connected is still to be reported
  pub unreported : List (ℕ × Host)
  pub out_channel : List Message
  pub out_events : List TransportEvent
  pub written : List (ℕ × List ℕ)
  pub closed : List ℕ

unfoldable pub new_tcp_layer : TcpLayer
new_tcp_layer = record {
  active_connections = [];
  recv_bufs = [];
  unreported = [];
  out_channel = [];
  out_events = [];
  written = [];
  closed = [];
}

abbrev pub emit : TransportEvent → TcpLayer → TcpLayer
emit e t = record t { out_events = e ∷ t.out_events }

unfoldable pub add_active_conn : ℕ → Host → TcpLayer → TcpLayer
add_active_conn conn host t = record t {
  active_connections = insert host conn t.active_connections;
}

unfoldable pub get_active_conn : Host → TcpLayer → Option ℕ
get_active_conn host t = lookup host t.active_connections

unfoldable pub remove_active_conn : Host → TcpLayer → TcpLayer
remove_active_conn host t = elim (lookup host t.active_connections) [
  | none ↦ t
  | some _ ↦ record t { active_connections = delete host t.active_connections }
]

unfoldable pub disconnect : Host → TcpLayer → TcpLayer
unfolding get_active_conn remove_active_conn
disconnect host t = elim (get_active_conn host t) [
  | none ↦ t
  | some conn ↦
      emit (transport_disconnected host)
        (record (remove_active_conn host t) { closed = conn ∷ t.closed })
]

-- conn.Write of a whole frame, or its error.
unfoldable pub write_frame : ℕ → Host → List ℕ → Bool → TcpLayer → TcpLayer
unfolding disconnect
write_frame conn host frame true t = record t { written = (conn, frame) ∷ t.written }
write_frame conn host frame false t = disconnect host (emit (transport_failed host) t)

unfoldable pub send : Message → Host → Bool → TcpLayer → TcpLayer
unfolding get_active_conn disconnect write_frame
send message send_to wrote t = elim (get_active_conn send_to t) [
  | none ↦ t
  | some conn ↦ elim (encode_frame message.msg) [
    | err _ ↦ disconnect send_to (emit (transport_failed send_to) t)
    | ok frame ↦ write_frame conn send_to frame wrote t
  ]
]

-- What follows addActiveConn in connect and listenerHandler; the receive buffer of the handler that starts
-- for a new connection is empty.
unfoldable pub report_connected : ℕ → Host → TcpLayer → TcpLayer
report_connected conn host t =
    let t' = emit (transport_connected host) t in
    record t' { recv_bufs = insert conn [] t'.recv_bufs }

-- The same with nothing of another goroutine in between.
unfoldable pub start_handler : ℕ → Host → TcpLayer → TcpLayer
unfolding add_active_conn report_connected
start_handler conn host t = report_connected conn host (add_active_conn conn host t)

-- The two halves, between which other goroutines may run: a connection comes into the table, and the
-- k-th of those not yet reported is.
unfoldable pub register_conn : ℕ → Host → TcpLayer → TcpLayer
unfolding add_active_conn
register_conn conn host t = record (add_active_conn conn host t) {
  unreported = (conn, host) ∷ t.unreported;
}

unfoldable pub report_next : ℕ → TcpLayer → TcpLayer
unfolding report_connected
report_next k t = elim (nth k t.unreported) [
  | none ↦ t
  | some ((conn, host), rest) ↦ report_connected conn host (record t { unreported = rest })
]

-- What net.Dial returns: an error or a connection.
unfoldable pub connect : Host → Option ℕ → TcpLayer → TcpLayer
unfolding start_handler
connect host none t = emit (transport_failed host) t
connect host (some conn) t = start_handler conn host t

-- One connection that the listener accepted.
unfoldable pub accept : ℕ → Host → TcpLayer → TcpLayer
unfolding start_handler
accept conn remote t = start_handler conn remote t

-- What conn.Read returns.
pub data Read : Type 0 where
  timeout read_error : Read
  bytes : List ℕ → Read

unfoldable pub recv_buf : ℕ → TcpLayer → List ℕ
recv_buf conn t = elim (lookup conn t.recv_bufs) [ none ↦ [] | some kept ↦ kept ]

-- readFrames: the frames to deliver, or none on an error, and the layer after the call.
unfoldable pub read_frames : ℕ → Host → Read → TcpLayer → Option (List (List ℕ)) × TcpLayer
unfolding recv_buf
read_frames conn host timeout t = (some [], t)
read_frames conn host read_error t = (none, t)
read_frames conn host (bytes []) t = (some [], t)
read_frames conn host (bytes (b ∷ bs)) t = elim (decode_frames (recv_buf conn t ++ (b ∷ bs))) [
  | frames fs rest ↦ (some fs, record t { recv_bufs = insert conn rest t.recv_bufs })
  | failed ↦ (none, emit (transport_failed host) t)
  | stuck ↦ (none, t)
]

unfoldable pub deliver_all : Host → List (List ℕ) → TcpLayer → TcpLayer
deliver_all host [] t = t
deliver_all host (f ∷ fs) t =
    deliver_all host fs (record t { out_channel = record { host = host; msg = f } ∷ t.out_channel })

-- One round of the handler of `conn`, which was started for `host`.
unfoldable pub connection_round : ℕ → Host → Read → TcpLayer → TcpLayer
unfolding read_frames deliver_all disconnect
connection_round conn host r t =
    let (fs, t') = read_frames conn host r t in
    elim fs [ none ↦ disconnect host t' | some gs ↦ deliver_all host gs t' ]

unfoldable pub close_all : Map Host ℕ → List ℕ → List ℕ
close_all [] closed = closed
close_all ((host, conn) ∷ rest) closed = close_all rest (conn ∷ closed)

unfoldable pub close_on_ctx_done : TcpLayer → TcpLayer
unfolding close_all
close_on_ctx_done t = record t {
  active_connections = [];
  closed = close_all t.active_connections t.closed;
}

-- The steps of the layer's goroutines.
pub data Input : Type 0 where
  disconnect_request : Host → Input
  connect_request : Host → Option ℕ → Input
  send_request : Message → Host → Bool → Input
  accepted : ℕ → Host → Input
  registers : ℕ → Host → Input
  reports : ℕ → Input
  read : ℕ → Host → Read → Input
  cancelled : Input

unfoldable pub step : Input → TcpLayer → TcpLayer
step (disconnect_request h) t = disconnect h t
step (connect_request h dialed) t = connect h dialed t
step (send_request m h wrote) t = send m h wrote t
step (accepted conn h) t = accept conn h t
step (registers conn h) t = register_conn conn h t
step (reports k) t = report_next k t
step (read conn h r) t = connection_round conn h r t
step cancelled t = close_on_ctx_done t

unfoldable pub run : List Input → TcpLayer → TcpLayer
run [] t = t
run (i ∷ is) t = run is (step i t)
