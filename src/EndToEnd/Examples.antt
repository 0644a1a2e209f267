-- ===== src/EndToEnd/Examples.antt =====
-- One message between two nodes, after the acknowledgement of their handshake, read in two pieces.
use mathlib.Core.List.{flatten}
use go_simple_protocol_runti.Common.{
  ℕ, ◌≡◌, refl, List, [], ◌∷◌, false, some, lookup, nat_eq, arith,
}
use go_simple_protocol_runti.Common.Int.{pos}
use go_simple_protocol_runti.Wire.{write_uint64}
use go_simple_protocol_runti.Wire.Words.{le_bytes}
use go_simple_protocol_runti.Transport.Host.{Host, host_eq, new_host}
use go_simple_protocol_runti.Transport.Handshake.{serialize_message}
use go_simple_protocol_runti.Transport.Session.{new_session_layer, resolve_underlying_host}
use go_simple_protocol_runti.Transport.Session.Steps
use go_simple_protocol_runti.Transport.Session.Steps.{handler}
use go_simple_protocol_runti.Transport.Frame.{encode_frame, put_uint32}
use go_simple_protocol_runti.Transport.Tcp
use go_simple_protocol_runti.Transport.Tcp.Delivery
use go_simple_protocol_runti.Transport.Tcp.{TcpLayer, new_tcp_layer}
use go_simple_protocol_runti.Protorun.Messages.{send_message}
use go_simple_protocol_runti.Protorun.Messages.Examples.{
  wire_id_of, byte_codec, owned, is_owned, has_codec,
}
use go_simple_protocol_runti.EndToEnd.{Parcel, deposit_all}
use go_simple_protocol_runti.EndToEnd.Delivered.{transmitted, handled_by, sends_reach_mailboxes}

abbrev server : Host
server = new_host (pos 7001) []

abbrev client : Host
client = new_host (pos 50000) []

abbrev parcel : Parcel ℕ wire_id_of
parcel = record { msg = 9; payload = 9 ∷ []; owner = 1 }

-- The client's connection to the server is number 3.
abbrev client_layer : TcpLayer
client_layer = record {
  active_connections = (server, 3) ∷ [];
  recv_bufs = [];
  unreported = [];
  out_channel = [];
  out_events = [];
  written = [];
  closed = [];
}

abbrev first_piece : List ℕ
first_piece = 0 ∷ 0 ∷ 0 ∷ 2 ∷ 1 ∷ 2 ∷ 0 ∷ 0 ∷ []

abbrev second_piece : List ℕ
second_piece = 0 ∷ 10 ∷ 0 ∷ 7 ∷ 0 ∷ 0 ∷ 0 ∷ 0 ∷ 0 ∷ 0 ∷ 0 ∷ 9 ∷ []

resolved : resolve_underlying_host server (new_session_layer client) ≡ server
unfolding resolve_underlying_host new_session_layer lookup
resolved = refl

connected : lookup server client_layer.active_connections ≡ some 3
unfolding lookup
connected = refl

pieces :
    flatten (first_piece ∷ second_piece ∷ [])
    ≡ Delivery.stream_of 3
        (transmitted ℕ wire_id_of
          ((2 ∷ []) ∷ [])
          (parcel ∷ [])
          server
          server
          (owned false)
          (new_session_layer client)
          client_layer).written
unfolding Tcp.run Tcp.step Tcp.send Tcp.write_frame Tcp.get_active_conn lookup encode_frame
    put_uint32 Steps.run handler Steps.send serialize_message resolve_underlying_host
    new_session_layer send_message write_uint64 le_bytes flatten
pieces = refl

sends_reach_mailboxes_example :
    handled_by ℕ wire_id_of client 4
      (first_piece ∷ second_piece ∷ [])
      (owned false)
      (new_session_layer server)
      new_tcp_layer
    ≡ deposit_all ℕ wire_id_of (parcel ∷ []) client (owned false)
unfolding new_session_layer new_tcp_layer write_uint64 le_bytes
sends_reach_mailboxes_example =
    sends_reach_mailboxes ℕ wire_id_of ((2 ∷ []) ∷ []) (first_piece ∷ second_piece ∷ [])
      (parcel ∷ []) server server client 3 4 (owned false) (owned false) (new_session_layer client)
      (new_session_layer server) client_layer new_tcp_layer
      ((1, byte_codec, is_owned, has_codec, refl), tt)
      ((byte_codec, omega arith, is_owned, has_codec, refl), tt) (omega arith, (omega arith, tt))
      refl refl refl refl refl resolved connected refl pieces
