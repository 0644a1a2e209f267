-- ===== src/Transport/Tcp/Balance.antt =====
-- The events of the TCP layer of pkg/transport/tcp.go against its table of connections.
use go_simple_protocol_runti.Common.{
  ℕ, zero, suc, ap, nth, put_back, ◌+◌, ◌≤◌, ◌≡◌, List, [], ◌∷◌, Bool, Option, none, some, inl, inr,
  if◌then◌else◌, ◌==◌, lookup, insert, lookup-insert, lookup-delete, arith, Option-cases,
}
use go_simple_protocol_runti.Transport.Host.{Host, host_eq, host_beq_iff}
use go_simple_protocol_runti.Transport.Layer.{
  Message, TransportEvent, transport_connected, transport_disconnected, transport_failed,
}
use go_simple_protocol_runti.Transport.Tcp.{
  TcpLayer, new_tcp_layer, emit, disconnect, write_frame, send, start_handler, connect, accept,
  Read, timeout, read_error, bytes, read_frames, deliver_all, connection_round, close_on_ctx_done,
  Input, disconnect_request, connect_request, send_request, accepted, registers, reports, read,
  cancelled, report_connected, register_conn, report_next, step, run,
}

-- How often a host was reported connected and disconnected.
abbrev pub connected_count : Host → List TransportEvent → ℕ
connected_count h [] = 0
connected_count h (transport_connected j ∷ es) = (if j == h then 1 else 0) + connected_count h es
connected_count h (transport_disconnected j ∷ es) = connected_count h es
connected_count h (transport_failed j ∷ es) = connected_count h es

abbrev pub disconnected_count : Host → List TransportEvent → ℕ
disconnected_count h [] = 0
disconnected_count h (transport_connected j ∷ es) = disconnected_count h es
disconnected_count h (transport_disconnected j ∷ es) =
    (if j == h then 1 else 0) + disconnected_count h es
disconnected_count h (transport_failed j ∷ es) = disconnected_count h es

abbrev pub is_active : Option ℕ → ℕ
is_active none = 0
is_active (some conn) = 1

-- The connections of a host that are in the table or were, and are still to be reported connected.
abbrev pub unreported_count : Host → List (ℕ × Host) → ℕ
unreported_count h [] = 0
unreported_count h ((conn, j) ∷ rest) = (if j == h then 1 else 0) + unreported_count h rest

-- What is active now and what was given up were reported connected or will be, each time anew.
abbrev pub Balanced : Host → TcpLayer → Type 0
Balanced h t =
    disconnected_count h t.out_events + is_active (lookup h t.active_connections)
    ≤ connected_count h t.out_events + unreported_count h t.unreported

disconnect-Balanced : (j h : Host) (t : TcpLayer) → Balanced h t → Balanced h (disconnect j t)
unfolding disconnect
disconnect-Balanced j h t v =
    ground (arith, lookup-delete j h t.active_connections, host_beq_iff j h)

start_handler-Balanced :
    (conn : ℕ) (j h : Host) (t : TcpLayer) → Balanced h t → Balanced h (start_handler conn j t)
unfolding start_handler report_connected
start_handler-Balanced conn j h t v =
    ground (arith, lookup-insert j h conn t.active_connections, host_beq_iff j h)

register_conn-Balanced :
    (conn : ℕ) (j h : Host) (t : TcpLayer) → Balanced h t → Balanced h (register_conn conn j t)
unfolding register_conn
register_conn-Balanced conn j h t v =
    ground (arith, lookup-insert j h conn t.active_connections, host_beq_iff j h)

nth-unreported :
    (h : Host) (k : ℕ) (conns rest : List (ℕ × Host)) (x : ℕ × Host)
    → ◌≡◌ {A = Option ((ℕ × Host) × List (ℕ × Host))} (nth k conns) (some (x, rest))
    → unreported_count h conns ≡ (if x.1 == h then 1 else 0) + unreported_count h rest
nth-unreported h k [] rest x e = cc
nth-unreported h zero (c ∷ conns) rest x e =
    let same : ◌≡◌ {A = (ℕ × Host) × List (ℕ × Host)} (c, conns) (x, rest) = cc in
    ap
      (λ (t : (ℕ × Host) × List (ℕ × Host)). (if t.0.1 == h then 1 else 0) + unreported_count h t.1)
      same
nth-unreported h (suc k) (c ∷ conns) rest x e =
    let (r, taken, others) = put_back c x rest (nth k conns) e in
    rw others (omega (arith, nth-unreported h k conns r x taken))

report_next-Balanced :
    (k : ℕ) (h : Host) (t : TcpLayer) → Balanced h t → Balanced h (report_next k t)
unfolding report_next report_connected
report_next-Balanced k h t v = elim (Option-cases (nth k t.unreported)) [
  | inl e ↦ rw (e, report_next) v
  | inr (((conn, j), rest), e) ↦
      rw (e, report_next) (omega (arith, nth-unreported h k t.unreported rest (conn, j) e, v))
]

failed-Balanced :
    (j h : Host) (t : TcpLayer) → Balanced h t → Balanced h (emit (transport_failed j) t)
failed-Balanced j h t v = v

send-Balanced :
    (m : Message) (j h : Host) (wrote : Bool) (t : TcpLayer)
    → Balanced h t
    → Balanced h (send m j wrote t)
unfolding send write_frame
send-Balanced m j h wrote t v =
    ground (arith, disconnect-Balanced j h (emit (transport_failed j) t))

deliver_all-Balanced :
    (j h : Host) (fs : List (List ℕ)) (t : TcpLayer)
    → Balanced h t
    → Balanced h (deliver_all j fs t)
unfolding deliver_all
deliver_all-Balanced j h [] t v = v
deliver_all-Balanced j h (f ∷ fs) t v =
    deliver_all-Balanced j h fs
      (record t { out_channel = record { host = j; msg = f } ∷ t.out_channel }) v

read_frames-Balanced :
    (conn : ℕ) (j h : Host) (r : Read) (t : TcpLayer)
    → Balanced h t
    → Balanced h (read_frames conn j r t).1
unfolding read_frames
read_frames-Balanced conn j h timeout t v = v
read_frames-Balanced conn j h read_error t v = v
read_frames-Balanced conn j h (bytes []) t v = v
read_frames-Balanced conn j h (bytes (b ∷ bs)) t v = ground arith

connection_round-Balanced :
    (conn : ℕ) (j h : Host) (r : Read) (t : TcpLayer)
    → Balanced h t
    → Balanced h (connection_round conn j r t)
unfolding connection_round
connection_round-Balanced conn j h r t v = elim (Option-cases (read_frames conn j r t).0) [
  | inl e ↦
      rw (e, connection_round) (disconnect-Balanced j h _ (read_frames-Balanced conn j h r t v))
  | inr (fs, e) ↦
      rw (e, connection_round) (deliver_all-Balanced j h fs _ (read_frames-Balanced conn j h r t v))
]

step-Balanced : (i : Input) (h : Host) (t : TcpLayer) → Balanced h t → Balanced h (step i t)
unfolding step connect accept close_on_ctx_done lookup
step-Balanced (disconnect_request j) h t v = disconnect-Balanced j h t v
step-Balanced (connect_request j none) h t v = v
step-Balanced (connect_request j (some conn)) h t v = start_handler-Balanced conn j h t v
step-Balanced (send_request m j wrote) h t v = send-Balanced m j h wrote t v
step-Balanced (accepted conn j) h t v = start_handler-Balanced conn j h t v
step-Balanced (registers conn j) h t v = register_conn-Balanced conn j h t v
step-Balanced (reports k) h t v = report_next-Balanced k h t v
step-Balanced (read conn j r) h t v = connection_round-Balanced conn j h r t v
step-Balanced cancelled h t v = omega arith

run-Balanced : (is : List Input) (h : Host) (t : TcpLayer) → Balanced h t → Balanced h (run is t)
unfolding run
run-Balanced [] h t v = v
run-Balanced (i ∷ is) h t v = run-Balanced is h (step i t) (step-Balanced i h t v)

-- Whatever the network and the callers do, also between the moment a connection comes into the table and
-- the report of it: how often a host was reported disconnected, and one more while it has an active
-- connection, is at most how often it was reported connected and the reports of it still to come.
pub run_balanced :
    (is : List Input) (h : Host)
    → disconnected_count h (run is new_tcp_layer).out_events
        + is_active (lookup h (run is new_tcp_layer).active_connections)
      ≤ connected_count h (run is new_tcp_layer).out_events
        + unreported_count h (run is new_tcp_layer).unreported
unfolding new_tcp_layer lookup
run_balanced is h = run-Balanced is h new_tcp_layer (omega arith)

-- A connection that replaces another under the same host leaves the old one open and out of the
-- table; when the old one's handler then meets a read error, it closes the new connection and
-- reports the host disconnected.
pub stale_handler_closes_successor :
    (old new : ℕ) (h : Host) (t : TcpLayer)
    → lookup h t.active_connections ≡ some old
    → let replaced = step (connect_request h (some new)) t in
      let ended = step (read old h read_error) replaced in
      (replaced.closed ≡ t.closed)
      × (lookup h replaced.active_connections ≡ some new)
      × (ended.closed ≡ new ∷ t.closed)
      × (lookup h ended.active_connections ≡ none)
      × (ended.out_events ≡ transport_disconnected h ∷ transport_connected h ∷ t.out_events)
unfolding step connect start_handler report_connected connection_round read_frames disconnect
stale_handler_closes_successor old new h t active = ground (
  arith,
  lookup-insert h h new t.active_connections,
  lookup-delete h h (insert h new t.active_connections),
  host_beq_iff h h,
)
