-- ===== src/EndToEnd.antt =====
-- From ProtocolContext.Send on one node to the mailboxes of another: pkg/protorun/message.go, the session
-- layer and the TCP layer of pkg/transport on both sides, and processMessage of pkg/protorun/runtime.go. Each
-- layer takes from a channel what the one before put there, in that order; the logs of the layers, which
-- are newest first, are the channels' contents.
pub mod Sender
pub mod Receiver
pub mod Delivered
pub mod Examples
use go_simple_protocol_runti.Common.{ℕ, List, [], ◌∷◌, ◌++◌, false, true, map}
use go_simple_protocol_runti.Transport.Host.{Host}
use go_simple_protocol_runti.Transport.Layer.{Message}
use go_simple_protocol_runti.Transport.Session
use go_simple_protocol_runti.Transport.Session.{
  Output, event, deliver, connects, disconnects, sends,
}
use go_simple_protocol_runti.Transport.Session.Steps
use go_simple_protocol_runti.Transport.Tcp
use go_simple_protocol_runti.Wire.{write_uint64}
use go_simple_protocol_runti.Protorun.Messages.{
  Runtime, Mailbox, at_protocol, send_message, process_message,
}

-- sendChan of the session layer.
abbrev pub to_session : List (List ℕ × Host) → List Steps.Input → List Steps.Input
to_session [] later = later
to_session ((buffer, h) ∷ sent) later = to_session sent (Steps.send_request buffer h ∷ later)

-- The calls of transport.Send, with writes that succeed.
abbrev pub to_transport : List Output → List Tcp.Input → List Tcp.Input
to_transport [] later = later
to_transport (sends m h ∷ log) later = to_transport log (Tcp.send_request m h true ∷ later)
to_transport (_ ∷ log) later = to_transport log later

-- The out channel of the transport.
abbrev pub from_transport : List Message → List Steps.Input → List Steps.Input
from_transport [] later = later
from_transport (m ∷ out) later = from_transport out (Steps.message m ∷ later)

module _ (Msg : Type 0) (wire_id_of : Msg → ℕ) where
  abbrev pub R : Type 0
  R = Runtime Msg wire_id_of

  -- A message, its encoding, and the protocol that owns its type on the receiving node.
  pub record Parcel : Type 0 where
    pub msg : Msg
    pub payload : List ℕ
    pub owner : ℕ

  abbrev pub buffer_of : Parcel → List ℕ
  buffer_of x = write_uint64 [] (wire_id_of x.msg) ++ x.payload

  abbrev pub send_all : List Parcel → Host → R → R
  send_all [] to r = r
  send_all (x ∷ xs) to r = send_all xs to (send_message Msg wire_id_of x.msg to r).1

  abbrev pub process_all : List (List ℕ × Host) → R → R
  process_all [] r = r
  process_all ((buffer, from) ∷ rest) r =
      process_all rest (process_message Msg wire_id_of false buffer from r).1

  -- The runtime with the messages at the end of the mailboxes of their owners.
  abbrev pub deposit_all : List Parcel → Host → R → R
  deposit_all [] from r = r
  deposit_all (x ∷ xs) from r = deposit_all xs from (
      at_protocol Msg wire_id_of x.owner
        (λ v. record v {
          message_channel = v.message_channel ++ (record { msg = x.msg; from = from } ∷ []);
        })
        r)
