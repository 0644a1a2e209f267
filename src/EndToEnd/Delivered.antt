-- ===== src/EndToEnd/Delivered.antt =====
-- Send on one node to the mailboxes of another, through every layer in between.
use go_simple_protocol_runti.Common.{
  ℕ, ◌≡◌, refl, sym, ap, ◌∙◌, List, [], ◌∷◌, ◌++◌, map, false, some, nat_eq, lookup, All,
}
use mathlib.Core.List.{flatten, append-nil}
use go_simple_protocol_runti.Transport.Host.{Host, host_eq}
use go_simple_protocol_runti.Transport.Layer.{Message}
use go_simple_protocol_runti.Transport.Session.{SessionLayer, resolve_underlying_host}
use go_simple_protocol_runti.Transport.Session.Steps
use go_simple_protocol_runti.Transport.Session.Quiet.{from_session}
use go_simple_protocol_runti.Transport.Tcp
use go_simple_protocol_runti.Transport.Tcp.{TcpLayer}
use go_simple_protocol_runti.Transport.Tcp.Delivery
use go_simple_protocol_runti.Transport.Tcp.Delivery.{stream_of, reads, push, sends_are_delivered}
use go_simple_protocol_runti.Transport.Frame.Reads.{IsSmall}
use go_simple_protocol_runti.EndToEnd.{
  R, Parcel, buffer_of, send_all, process_all, deposit_all, to_session, to_transport,
  from_transport,
}
use go_simple_protocol_runti.EndToEnd.Sender.{app_payload, Sendable, sent_on_wire, run-append_sends}
use go_simple_protocol_runti.EndToEnd.Receiver.{
  session_payload_of, messages, Receivable, from_transport-push, handshakes_quiet,
  process_all-deposit_all,
}

abbrev from_peer : Host → List ℕ → List ℕ × Host
from_peer peer b = (b, peer)

module _ (Msg : Type 0) (wire_id_of : Msg → ℕ) where
  -- The frames of the parcels, after those of the session layer.
  abbrev frames_of : List (List ℕ) → List (Parcel Msg wire_id_of) → List (List ℕ)
  frames_of bodies xs =
      map session_payload_of bodies ++ map app_payload (map (λ x. buffer_of Msg wire_id_of x) xs)

  -- The sending node's transport after a run of Sends, on the connection on which its session layer has
  -- written `bodies`.
  abbrev pub transmitted :
      List (List ℕ)
      → List (Parcel Msg wire_id_of)
      → Host
      → Host
      → R Msg wire_id_of
      → SessionLayer
      → TcpLayer
      → TcpLayer
  transmitted bodies xs to u r s t =
      Tcp.run
        (to_transport (Steps.run (to_session (send_all Msg wire_id_of xs to r).sent []) s).log [])
        (Tcp.run (Delivery.sends u (map session_payload_of bodies)) t)

  -- The receiving node's runtime, after it has processed what its session layer made of what its
  -- transport read.
  abbrev pub handled_by :
      Host → ℕ → List (List ℕ) → R Msg wire_id_of → SessionLayer → TcpLayer → R Msg wire_id_of
  handled_by peer conn chunks r s t =
      process_all Msg wire_id_of
        (from_session
          (Steps.run
            (from_transport
              (Tcp.run (Tcp.accepted conn peer ∷ reads conn peer chunks) t).out_channel [])
            s).log
          [])
        r

  map-map :
      (xs : List (Parcel Msg wire_id_of))
      → map (λ x. app_payload (buffer_of Msg wire_id_of x)) xs
        ≡ map app_payload (map (λ x. buffer_of Msg wire_id_of x) xs)
  map-map [] = refl
  map-map (x ∷ xs) = ap (◌∷◌ (app_payload (buffer_of Msg wire_id_of x))) (map-map xs)

  addressed :
      (peer : Host) (xs : List (Parcel Msg wire_id_of))
      → map (from_peer peer) (map (λ x. buffer_of Msg wire_id_of x) xs)
        ≡ map (λ x. from_peer peer (buffer_of Msg wire_id_of x)) xs
  addressed peer [] = refl
  addressed peer (x ∷ xs) =
      ap (◌∷◌ (from_peer peer (buffer_of Msg wire_id_of x))) (addressed peer xs)

  transmitted_lem :
      (bodies : List (List ℕ)) (xs : List (Parcel Msg wire_id_of)) (to u : Host)
      (r : R Msg wire_id_of) (s : SessionLayer) (t : TcpLayer)
      → All (Sendable Msg wire_id_of r) xs
      → r.sent ≡ []
      → s.log ≡ []
      → resolve_underlying_host to s ≡ u
      → transmitted bodies xs to u r s t ≡ Tcp.run (Delivery.sends u (frames_of bodies xs)) t
  transmitted_lem bodies xs to u r s t fine no_sent no_log known =
      let t' = Tcp.run (Delivery.sends u (map session_payload_of bodies)) t in
      sent_on_wire Msg wire_id_of xs to u r s t' fine no_sent no_log known
      ∙ ap (λ (ps : List (List ℕ)). Tcp.run (Delivery.sends u ps) t') (map-map xs)
      ∙ sym (
          run-append_sends u (map session_payload_of bodies)
            (map app_payload (map (λ x. buffer_of Msg wire_id_of x) xs)) t)

  -- A node sends messages to a host over an established connection, on which only its session layer has
  -- written before; another node accepts that connection, and its reads return the bytes, cut anywhere.
  -- If the frames are within the limit, the sender's codecs encode the messages as the receiver's decode
  -- them, and the receiver's runtime is not cancelled, then what the receiver handles adds exactly these
  -- messages to the mailboxes of the protocols that own their types, in the order of the Sends, each
  -- under the host of the connection.
  pub sends_reach_mailboxes :
      (bodies chunks : List (List ℕ)) (xs : List (Parcel Msg wire_id_of)) (to u peer : Host)
      (conn conn' : ℕ) (r r' : R Msg wire_id_of) (s s' : SessionLayer) (t t' : TcpLayer)
      → All (Sendable Msg wire_id_of r) xs
      → All (Receivable Msg wire_id_of r') xs
      → All IsSmall (frames_of bodies xs)
      → r.sent ≡ []
      → r'.cancelled ≡ false
      → s.log ≡ []
      → s'.log ≡ []
      → t'.out_channel ≡ []
      → resolve_underlying_host to s ≡ u
      → lookup u t.active_connections ≡ some conn
      → stream_of conn t.written ≡ []
      → flatten chunks ≡ stream_of conn (transmitted bodies xs to u r s t).written
      → handled_by peer conn' chunks r' s' t' ≡ deposit_all Msg wire_id_of xs peer r'
  sends_reach_mailboxes bodies chunks xs to u peer conn conn' r r' s s' t t' out into small no_sent
        live no_log no_log' no_out known active fresh cuts =
      let written = transmitted_lem bodies xs to u r s t out no_sent no_log known in
      let arrived =
        sends_are_delivered (frames_of bodies xs) chunks u peer conn conn' t t' active fresh small
          (cuts ∙ ap (λ (q : TcpLayer). stream_of conn q.written) written) in
      let frames = frames_of bodies xs in
      let buffers = map (λ (x : Parcel Msg wire_id_of). buffer_of Msg wire_id_of x) xs in
      let inputs : from_transport
            (Tcp.run (Tcp.accepted conn' peer ∷ reads conn' peer chunks) t').out_channel []
          ≡ messages peer frames =
        ap (λ (o : List Message). from_transport o []) (arrived ∙ ap (push peer frames) no_out)
        ∙ from_transport-push peer frames [] []
        ∙ append-nil (messages peer frames) in
      let buffered : from_session (Steps.run (messages peer frames) s').log []
          ≡ map (λ (x : Parcel Msg wire_id_of). (buffer_of Msg wire_id_of x, peer)) xs =
        handshakes_quiet peer bodies buffers s'
        ∙ ap (λ log. from_session log (map (λ (b : List ℕ). (b, peer)) buffers)) no_log'
        ∙ addressed peer xs in
      ap
        (λ (is : List Steps.Input).
          process_all Msg wire_id_of (from_session (Steps.run is s').log []) r')
        inputs
      ∙ ap (λ (bs : List (List ℕ × Host)). process_all Msg wire_id_of bs r') buffered
      ∙ process_all-deposit_all Msg wire_id_of xs peer r' into live
