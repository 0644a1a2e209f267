-- ===== src/EndToEnd/Sender.antt =====
-- The sending node: pkg/protorun/message.go, then send of pkg/transport/session.go, then sendMessage of
-- pkg/transport/tcp.go.
use go_simple_protocol_runti.Common.{
  ℕ, ◌≡◌, refl, ap, ◌∙◌, List, [], ◌∷◌, ◌++◌, map, true, some, nat_eq, lookup, All,
}
use mathlib.Core.List.{append-nil}
use go_simple_protocol_runti.Errors.{ok}
use go_simple_protocol_runti.Transport.Host.{Host}
use go_simple_protocol_runti.Transport.Layer.{Message}
use go_simple_protocol_runti.Transport.Handshake.{application, layer_byte, serialize_message}
use go_simple_protocol_runti.Transport.Session.{SessionLayer, sends, emit, resolve_underlying_host}
use go_simple_protocol_runti.Transport.Session.Steps
use go_simple_protocol_runti.Transport.Session.Steps.{handler}
use go_simple_protocol_runti.Transport.Tcp
use go_simple_protocol_runti.Transport.Tcp.{TcpLayer}
use go_simple_protocol_runti.Transport.Tcp.Delivery
use go_simple_protocol_runti.Protorun.Messages.{Codec, send_message}
use go_simple_protocol_runti.Protorun.Messages.Paths.{send_message_lem}
use go_simple_protocol_runti.EndToEnd.{R, Parcel, buffer_of, send_all, to_session, to_transport}

-- A TCP layer looks only at the bytes of a message, not at its host.
host_ignored :
    (a h : Host) (p : List ℕ) (t : TcpLayer)
    → Tcp.step (Tcp.send_request (record { host = a; msg = p }) h true) t
      ≡ Tcp.step (Tcp.send_request (record { host = h; msg = p }) h true) t
unfolding Tcp.step Tcp.send
host_ignored a h p t = refl

pub run-append_sends :
    (h : Host) (ps qs : List (List ℕ)) (t : TcpLayer)
    → Tcp.run (Delivery.sends h (ps ++ qs)) t
      ≡ Tcp.run (Delivery.sends h qs) (Tcp.run (Delivery.sends h ps) t)
unfolding Tcp.run
run-append_sends h [] qs t = refl
run-append_sends h (p ∷ ps) qs t =
    run-append_sends h ps qs (Tcp.step (Tcp.send_request (record { host = h; msg = p }) h true) t)

-- The payload of a frame that carries application data.
abbrev pub app_payload : List ℕ → List ℕ
app_payload buffer = layer_byte application ∷ buffer

module _ (Msg : Type 0) (wire_id_of : Msg → ℕ) where
  abbrev Px : Type 0
  Px = Parcel Msg wire_id_of

  abbrev buf : Px → List ℕ
  buf x = buffer_of Msg wire_id_of x

  -- The runtime knows the type of the message and encodes it as the parcel says.
  abbrev pub Sendable : R Msg wire_id_of → Px → Type 0
  Sendable r x =
      (p : ℕ) × (c : Codec Msg wire_id_of) × (lookup (wire_id_of x.msg) r.registry ≡ some p)
      × (lookup (wire_id_of x.msg) (r.protocols p).codecs ≡ some c)
      × (c.marshal x.msg ≡ ok x.payload)

  send_all-to_session :
      (xs : List Px) (to : Host) (r : R Msg wire_id_of) (later : List Steps.Input)
      → All (Sendable r) xs
      → to_session (send_all Msg wire_id_of xs to r).sent later
        ≡ to_session r.sent (map (λ x. Steps.send_request (buf x) to) xs ++ later)
  send_all-to_session [] to r later h = refl
  send_all-to_session (x ∷ xs) to r later ((p, c, own, has, out), h) =
      let r' : R Msg wire_id_of = record r { sent = (buf x, to) ∷ r.sent } in
      let sent : (send_message Msg wire_id_of x.msg to r).1 ≡ r' =
        ap (λ q. q.1) (send_message_lem Msg wire_id_of r x.msg to p c x.payload own has out) in
      ap (λ (q : R Msg wire_id_of). to_session (send_all Msg wire_id_of xs to q).sent later) sent
      ∙ send_all-to_session xs to r' later h

  app_message : Host → Px → Message
  app_message to x = record { host = to; msg = app_payload (buf x) }

  session_sends :
      (xs : List Px) (to u : Host) (s : SessionLayer) (later : List Tcp.Input)
      → resolve_underlying_host to s ≡ u
      → to_transport (Steps.run (map (λ x. Steps.send_request (buf x) to) xs) s).log later
        ≡ to_transport s.log (map (λ x. Tcp.send_request (app_message to x) u true) xs ++ later)
  unfolding Steps.run handler Steps.send serialize_message resolve_underlying_host app_message
  session_sends [] to u s later known = refl
  session_sends (x ∷ xs) to u s later known =
      let s' = emit (sends (app_message to x) u) s in
      let sent : Steps.send (buf x) to s ≡ s' =
        ap (λ (h : Host). emit (sends (app_message to x) h) s) known in
      ap
        (λ (q : SessionLayer).
          to_transport (Steps.run (map (λ x'. Steps.send_request (buf x') to) xs) q).log later)
        sent
      ∙ session_sends xs to u s' later known

  tcp_sends :
      (xs : List Px) (to u : Host) (t : TcpLayer)
      → Tcp.run (map (λ x. Tcp.send_request (app_message to x) u true) xs) t
        ≡ Tcp.run (Delivery.sends u (map (λ x. app_payload (buf x)) xs)) t
  unfolding Tcp.run app_message
  tcp_sends [] to u t = refl
  tcp_sends (x ∷ xs) to u t =
      ap (Tcp.run (map (λ x'. Tcp.send_request (app_message to x') u true) xs))
        (host_ignored to u (app_payload (buf x)) t)
      ∙ tcp_sends xs to u
          (Tcp.step (Tcp.send_request (record { host = u; msg = app_payload (buf x) }) u true) t)

  -- What the calls of Send make the transport do.
  pub sent_on_wire :
      (xs : List Px) (to u : Host) (r : R Msg wire_id_of) (s : SessionLayer) (t : TcpLayer)
      → All (Sendable r) xs
      → r.sent ≡ []
      → s.log ≡ []
      → resolve_underlying_host to s ≡ u
      → Tcp.run
          (to_transport (Steps.run (to_session (send_all Msg wire_id_of xs to r).sent []) s).log [])
          t
        ≡ Tcp.run (Delivery.sends u (map (λ x. app_payload (buf x)) xs)) t
  sent_on_wire xs to u r s t fine no_sent no_log known =
      let requests = map (λ (x : Px). Steps.send_request (buf x) to) xs in
      let calls = map (λ (x : Px). Tcp.send_request (app_message to x) u true) xs in
      let into : to_session (send_all Msg wire_id_of xs to r).sent [] ≡ requests =
        send_all-to_session xs to r [] fine ∙ rw no_sent (append-nil requests) in
      let out : to_transport (Steps.run requests s).log [] ≡ calls =
        session_sends xs to u s [] known ∙ rw no_log (append-nil calls) in
      ap (λ (is : List Steps.Input). Tcp.run (to_transport (Steps.run is s).log []) t) into
      ∙ ap (λ (is : List Tcp.Input). Tcp.run is t) out
      ∙ tcp_sends xs to u t
