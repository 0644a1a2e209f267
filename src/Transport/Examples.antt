-- ===== src/Transport/Examples.antt =====
-- Runs of pkg/transport/host.go, tcp.go and the handshake formats on concrete inputs.
use mathlib.Core.List.{flatten}
use go_simple_protocol_runti.Common.{
  ℕ, ◌+◌, ◌≡◌, ◌≤◌, refl, List, [], ◌∷◌, ◌++◌, none, some, lookup, All, arith,
}
use go_simple_protocol_runti.Common.Int.{pos, uint16}
use go_simple_protocol_runti.Errors.{ok}
use go_simple_protocol_runti.Wire.Words.{le_bytes}
use go_simple_protocol_runti.Transport.Host.{Host, host_eq, new_host, read_host}
use go_simple_protocol_runti.Transport.Host.RoundTrip.{encoding, read_host-encoding}
use go_simple_protocol_runti.Transport.Layer.{transport_connected, transport_disconnected}
use go_simple_protocol_runti.Transport.Frame.{encode_frame, put_uint32}
use go_simple_protocol_runti.Transport.Frame.Reads.{IsSmall}
use go_simple_protocol_runti.Transport.Tcp.{
  TcpLayer, new_tcp_layer, Input, accepted, registers, reports, disconnect_request, read,
  read_error, connect_request, step, run, send, write_frame, get_active_conn,
}
use go_simple_protocol_runti.Transport.Tcp.Balance.{
  run_balanced, stale_handler_closes_successor, connected_count, disconnected_count, is_active,
  unreported_count,
}
use go_simple_protocol_runti.Transport.Tcp.Delivery.{
  sends_are_delivered, sends, reads, push, stream_of,
}

abbrev peer : Host
peer = new_host (pos 8080) (104 ∷ [])

read_host-encoding_example :
    read_host (encoding peer ++ (9 ∷ [])) ≡ ok (new_host (pos (uint16 peer.port)) peer.ip, 9 ∷ [])
read_host-encoding_example = read_host-encoding peer (9 ∷ []) (omega arith)

abbrev payloads : List (List ℕ)
payloads = (7 ∷ 8 ∷ []) ∷ [] ∷ []

-- The same bytes, cut inside the first length and inside the first payload.
abbrev cuts : List (List ℕ)
cuts = (0 ∷ 0 ∷ 0 ∷ []) ∷ (2 ∷ 7 ∷ []) ∷ (8 ∷ 0 ∷ 0 ∷ 0 ∷ 0 ∷ []) ∷ []

payloads-IsSmall : All IsSmall payloads
payloads-IsSmall = (omega arith, (omega arith, tt))

abbrev sender : TcpLayer
sender = record {
  active_connections = (peer, 3) ∷ [];
  recv_bufs = [];
  unreported = [];
  out_channel = [];
  out_events = [];
  written = [];
  closed = [];
}

peer_is_active : lookup peer sender.active_connections ≡ some 3
unfolding lookup
peer_is_active = refl

cuts_are_written : flatten cuts ≡ stream_of 3 (run (sends peer payloads) sender).written
unfolding flatten run step send write_frame get_active_conn lookup encode_frame put_uint32 le_bytes
cuts_are_written = refl

sends_are_delivered_example :
    (run (accepted 4 peer ∷ reads 4 peer cuts) (run [] sender)).out_channel
    ≡ push peer payloads (run [] sender).out_channel
sends_are_delivered_example =
    sends_are_delivered payloads cuts peer peer 3 4 sender (run [] sender) peer_is_active refl
      payloads-IsSmall cuts_are_written

-- A disconnect request that comes before the report of the connection.
abbrev window : List Input
window = registers 4 peer ∷ disconnect_request peer ∷ registers 5 peer ∷ reports 1 ∷ []

run_balanced_example :
    disconnected_count peer (run window new_tcp_layer).out_events
      + is_active (lookup peer (run window new_tcp_layer).active_connections)
    ≤ connected_count peer (run window new_tcp_layer).out_events
      + unreported_count peer (run window new_tcp_layer).unreported
run_balanced_example = run_balanced window peer

stale_handler_closes_successor_example :
    let replaced = step (connect_request peer (some 5)) sender in
    let ended = step (read 3 peer read_error) replaced in
    (replaced.closed ≡ sender.closed)
    × (lookup peer replaced.active_connections ≡ some 5)
    × (ended.closed ≡ 5 ∷ sender.closed)
    × (lookup peer ended.active_connections ≡ none)
    × (ended.out_events
        ≡ transport_disconnected peer ∷ transport_connected peer ∷ sender.out_events)
stale_handler_closes_successor_example =
    stale_handler_closes_successor 3 5 peer sender peer_is_active
