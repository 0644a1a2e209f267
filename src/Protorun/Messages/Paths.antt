-- ===== src/Protorun/Messages/Paths.antt =====
-- pkg/protorun/message.go and processMessage of runtime.go: from Send on one runtime to a mailbox on
-- another.
use go_simple_protocol_runti.Common.{
  ℕ, ◌<◌, ◌^◌, ◌≡◌, List, [], ◌∷◌, ◌++◌, false, none, some, nat_eq, lookup, arith,
}
use go_simple_protocol_runti.Errors.{ok}
use go_simple_protocol_runti.Wire.{read_uint64, write_uint64}
use go_simple_protocol_runti.Wire.RoundTrip.{read_uint-append}
use go_simple_protocol_runti.Transport.Host.{Host}
use go_simple_protocol_runti.Protorun.Messages.{
  Codec, Runtime, dispatched, at_protocol, send_message, push_message, process_message,
}

module _ (Msg : Type 0) (wire_id_of : Msg → ℕ) where
  abbrev R : Type 0
  R = Runtime Msg wire_id_of

  header :
      (w : ℕ) (payload : List ℕ)
      → w < 2 ^ 64
      → read_uint64 (write_uint64 [] w ++ payload) ≡ ok (w, payload)
  unfolding read_uint64 write_uint64
  header w payload h = read_uint-append 8 w payload (omega arith)

  pub send_message_lem :
      (r : R) (m : Msg) (to : Host) (p : ℕ) (c : Codec Msg wire_id_of) (payload : List ℕ)
      → lookup (wire_id_of m) r.registry ≡ some p
      → lookup (wire_id_of m) (r.protocols p).codecs ≡ some c
      → c.marshal m ≡ ok payload
      → send_message Msg wire_id_of m to r
        ≡ (none, record r { sent = (write_uint64 [] (wire_id_of m) ++ payload, to) ∷ r.sent })
  unfolding send_message
  send_message_lem r m to p c payload own has out = ground arith

  pub process_message_lem :
      (r : R) (w : ℕ) (m : Msg) (from : Host) (p : ℕ) (c : Codec Msg wire_id_of) (payload : List ℕ)
      → w < 2 ^ 64
      → lookup w r.registry ≡ some p
      → lookup w (r.protocols p).codecs ≡ some c
      → c.unmarshal payload ≡ ok m
      → r.cancelled ≡ false
      → process_message Msg wire_id_of false (write_uint64 [] w ++ payload) from r ≡ (
        dispatched,
        at_protocol Msg wire_id_of p
            (λ v. record v {
              message_channel = v.message_channel ++ (record { msg = m; from = from } ∷ []);
            })
            r,
      )
  unfolding process_message push_message at_protocol
  process_message_lem r w m from p c payload bound own has into on =
      let h = header w payload bound in ground arith

  -- Let a runtime own the type of a message and marshal it, and let another one know the wire id too,
  -- with a codec that unmarshals the payload. Then Send succeeds and hands one buffer to the session
  -- layer, and that buffer, when the other runtime processes it, is dispatched: exactly the mailbox
  -- of the protocol that owns the wire id there grows, by the message and its sender.
  sent_is_dispatched :
      (r r' : R) (m m' : Msg) (to from : Host) (p p' : ℕ) (c c' : Codec Msg wire_id_of)
      (payload : List ℕ)
      → wire_id_of m < 2 ^ 64
      → lookup (wire_id_of m) r.registry ≡ some p
      → lookup (wire_id_of m) (r.protocols p).codecs ≡ some c
      → c.marshal m ≡ ok payload
      → lookup (wire_id_of m) r'.registry ≡ some p'
      → lookup (wire_id_of m) (r'.protocols p').codecs ≡ some c'
      → c'.unmarshal payload ≡ ok m'
      → r'.cancelled ≡ false
      → (buffer : List ℕ) × (send_message Msg wire_id_of m to r
          ≡ (none, record r { sent = (buffer, to) ∷ r.sent }))
        × (process_message Msg wire_id_of false buffer from r' ≡ (
          dispatched,
          at_protocol Msg wire_id_of p'
              (λ v. record v {
                message_channel = v.message_channel ++ (record { msg = m'; from = from } ∷ []);
              })
              r',
        ))
  sent_is_dispatched r r' m m' to from p p' c c' payload bound own has out own' has' into on = (
    write_uint64 [] (wire_id_of m) ++ payload,
    send_message_lem r m to p c payload own has out,
    process_message_lem r' (wire_id_of m) m' from p' c' payload bound own' has' into on,
  )
