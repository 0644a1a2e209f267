-- ===== src/EndToEnd/Receiver.antt =====
-- The receiving node: the handler loop of pkg/transport/session.go, then processMessage of
-- pkg/protorun/runtime.go.
use go_simple_protocol_runti.Common.{
  ℕ, ◌≡◌, ◌<◌, ◌^◌, refl, ap, ◌∙◌, List, [], ◌∷◌, ◌++◌, map, false, some, nat_eq, lookup, All,
  arith,
}
use mathlib.Core.List.{append-nil}
use go_simple_protocol_runti.Errors.{ok}
use go_simple_protocol_runti.Transport.Host.{Host}
use go_simple_protocol_runti.Transport.Layer.{Message}
use go_simple_protocol_runti.Transport.Handshake.{
  application, session, layer_byte, take_header, deserialize_message,
}
use go_simple_protocol_runti.Transport.Session.{deliver, SessionLayer, emit}
use go_simple_protocol_runti.Transport.Session.Steps
use go_simple_protocol_runti.Transport.Session.Steps.{
  handler, transport_message_handler, route_message, dispatch_handshake_message, with_session,
}
use go_simple_protocol_runti.Transport.Session.Quiet.{from_session, session_message-quiet}
use go_simple_protocol_runti.Transport.Tcp.Delivery.{push}
use go_simple_protocol_runti.Protorun.Messages.{Codec, at_protocol}
use go_simple_protocol_runti.Protorun.Messages.Paths.{process_message_lem}
use go_simple_protocol_runti.EndToEnd.{
  R, Parcel, buffer_of, process_all, deposit_all, from_transport,
}
use go_simple_protocol_runti.EndToEnd.Sender.{app_payload}

pub from_transport-push :
    (peer : Host) (ps : List (List ℕ)) (out : List Message) (later : List Steps.Input)
    → from_transport (push peer ps out) later
      ≡ from_transport out (map (λ p. Steps.message (record { host = peer; msg = p })) ps ++ later)
from_transport-push peer [] out later = refl
from_transport-push peer (p ∷ ps) out later =
    from_transport-push peer ps (record { host = peer; msg = p } ∷ out) later

app_delivered :
    (peer : Host) (buffer : List ℕ) (s : SessionLayer)
    → handler (Steps.message (record { host = peer; msg = app_payload buffer })) s
      ≡ emit (deliver (record { host = peer; layer = application; msg = buffer })) s
unfolding handler transport_message_handler route_message deserialize_message take_header
app_delivered peer buffer s = refl

-- The payload of a frame of the session layer.
abbrev pub session_payload_of : List ℕ → List ℕ
session_payload_of body = layer_byte session ∷ body

abbrev pub messages : Host → List (List ℕ) → List Steps.Input
messages peer = map (λ p. Steps.message (record { host = peer; msg = p }))

pub handshakes_quiet :
    (peer : Host) (bodies buffers : List (List ℕ)) (s : SessionLayer)
    → from_session
        (Steps.run (messages peer (map session_payload_of bodies ++ map app_payload buffers)) s).log
        []
      ≡ from_session s.log (map (λ b. (b, peer)) buffers)
unfolding Steps.run
handshakes_quiet peer [] buffers s = apps buffers s [] ∙ ap (from_session s.log) (append-nil _)
  where
    apps :
        (bs : List (List ℕ)) (s' : SessionLayer) (later : List (List ℕ × Host))
        → from_session (Steps.run (messages peer (map app_payload bs)) s').log later
          ≡ from_session s'.log (map (λ b. (b, peer)) bs ++ later)
    apps [] s' later = refl
    apps (b ∷ bs) s' later =
        ap
          (λ (q : SessionLayer).
            from_session (Steps.run (messages peer (map app_payload bs)) q).log later)
          (app_delivered peer b s')
        ∙ apps bs (emit (deliver (record { host = peer; layer = application; msg = b })) s') later
handshakes_quiet peer (body ∷ bodies) buffers s =
    let s' = handler (Steps.message (record { host = peer; msg = session_payload_of body })) s in
    handshakes_quiet peer bodies buffers s'
    ∙ session_message-quiet (map (λ b. (b, peer)) buffers) peer body s

module _ (Msg : Type 0) (wire_id_of : Msg → ℕ) where
  -- The runtime routes the wire id to the parcel's owner, who has a codec that decodes the payload.
  abbrev pub Receivable : R Msg wire_id_of → Parcel Msg wire_id_of → Type 0
  Receivable r x =
      (c : Codec Msg wire_id_of) × (wire_id_of x.msg < 2 ^ 64)
      × (lookup (wire_id_of x.msg) r.registry ≡ some x.owner)
      × (lookup (wire_id_of x.msg) (r.protocols x.owner).codecs ≡ some c)
      × (c.unmarshal x.payload ≡ ok x.msg)

  -- A message in one mailbox leaves every route as it was.
  at_protocol-Receivable :
      (xs : List (Parcel Msg wire_id_of)) (p : ℕ) (m : Msg) (from : Host) (r : R Msg wire_id_of)
      → All (Receivable r) xs
      → All
          (Receivable (
            at_protocol Msg wire_id_of p
              (λ v. record v {
                message_channel = v.message_channel ++ (record { msg = m; from = from } ∷ []);
              })
              r))
          xs
  unfolding at_protocol
  at_protocol-Receivable [] p m from r h = tt
  at_protocol-Receivable (x ∷ xs) p m from r ((c, bound, own, has, into), h) =
      ((c, bound, own, ground arith, into), at_protocol-Receivable xs p m from r h)

  pub process_all-deposit_all :
      (xs : List (Parcel Msg wire_id_of)) (from : Host) (r : R Msg wire_id_of)
      → All (Receivable r) xs
      → r.cancelled ≡ false
      → process_all Msg wire_id_of (map (λ x. (buffer_of Msg wire_id_of x, from)) xs) r
        ≡ deposit_all Msg wire_id_of xs from r
  unfolding at_protocol
  process_all-deposit_all [] from r h on = refl
  process_all-deposit_all (x ∷ xs) from r ((c, bound, own, has, into), h) on =
      let r' =
        at_protocol Msg wire_id_of x.owner
          (λ v. record v {
            message_channel = v.message_channel ++ (record { msg = x.msg; from = from } ∷ []);
          })
          r in
      let rest = map (λ (y : Parcel Msg wire_id_of). (buffer_of Msg wire_id_of y, from)) xs in
      ap (λ q. process_all Msg wire_id_of rest q.1)
        (process_message_lem Msg wire_id_of r (wire_id_of x.msg) x.msg from x.owner c x.payload
          bound own has into on)
      ∙ process_all-deposit_all xs from r' (at_protocol-Receivable xs x.owner x.msg from r h) on
