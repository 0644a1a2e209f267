-- ===== src/Transport/Handshake/Format.antt =====
-- The handshake payloads of pkg/transport/session.go as the other side reads them.
use mathlib.Core.List.{append-nil}
use go_simple_protocol_runti.Common.{
  ℕ, ◌≤◌, ◌≡◌, ◌≢◌, ◌↔◌, refl, sym, ◌∙◌, List, [], ◌∷◌, length, arith, true, ◌⊎◌, inl, inr, nat_eq,
}
use go_simple_protocol_runti.Common.Int.{pos, uint16}
use go_simple_protocol_runti.Errors.{Error, ok, err, version_mismatch, errors_is, Result-cases}
use go_simple_protocol_runti.Transport.Host.{Host, new_host, zero_host, write_host, read_host}
use go_simple_protocol_runti.Transport.Host.RoundTrip.{
  encoding, write_host-encoding, read_host-encoding, read_host-ne-mismatch,
}
use go_simple_protocol_runti.Transport.Handshake.{
  application, session, hello, ack, SessionMessage, encode_hello, encode_ack,
  parse_handshake_payload, parse_hello, parse_version, deserialize_message, serialize_message,
  protocol_version,
}

pub encode_hello-encoding :
    (h : Host) → length h.ip ≤ 0xffff → encode_hello h ≡ ok (1 ∷ 1 ∷ encoding h)
unfolding encode_hello
encode_hello-encoding h small = rw (write_host-encoding (1 ∷ 1 ∷ []) h small)

encode_hello-small :
    (h : Host) (payload : List ℕ) → encode_hello h ≡ ok payload → length h.ip ≤ 0xffff
unfolding encode_hello write_host
encode_hello-small h payload sent = ground arith

-- The peer reads the Hello's host as it was sent, except that only the low 16 bits of the port
-- travel; an Ack is read as an Ack, whose host is the zero host.
pub parse_handshake_payload-encode :
    (h : Host) (payload : List ℕ)
    → encode_hello h ≡ ok payload
    → (parse_handshake_payload payload ≡ ok (hello, new_host (pos (uint16 h.port)) h.ip))
      × (parse_handshake_payload encode_ack ≡ ok (ack, zero_host))
unfolding parse_handshake_payload encode_ack parse_hello parse_version
parse_handshake_payload-encode h payload sent =
    let small : length h.ip ≤ 0xffff = encode_hello-small h payload sent in
    let bytes : ok (1 ∷ 1 ∷ encoding h) ≡ ok payload = sym (encode_hello-encoding h small) ∙ sent in
    let same : 1 ∷ 1 ∷ encoding h ≡ payload = ground arith in
    let back = rw append-nil at (read_host-encoding h [] small) in (rw (← same) (rw back), refl)

-- Exactly the Hellos whose version byte is not this build's are reported as version mismatches.
parse_handshake_payload-mismatch :
    (payload : List ℕ) (e : Error)
    → parse_handshake_payload payload ≡ err e
    → (errors_is version_mismatch e ≡ true) ↔ (
        (version : ℕ) × (rest : List ℕ) × (payload ≡ 1 ∷ version ∷ rest)
        × (version ≢ protocol_version))
unfolding parse_handshake_payload errors_is parse_hello parse_version
parse_handshake_payload-mismatch [] e h = (λ m. ground arith, λ w. ground arith)
parse_handshake_payload-mismatch (t ∷ []) e h = (λ m. ground arith, λ w. ground arith)
parse_handshake_payload-mismatch (t ∷ v ∷ rest) e h = elim (Result-cases (read_host rest)) [
  | inl (p, good) ↦ (λ m. (v, rest, ground arith, ground arith), λ w. ground arith)
  | inr (x, bad) ↦ (
    λ m. (
      v,
      rest,
      ground (arith, read_host-ne-mismatch rest x bad),
      ground (arith, read_host-ne-mismatch rest x bad),
    ),
    λ w. ground arith,
  )
]

-- A message comes out of the other side's session layer under the layer that it was sent on.
deserialize_message-serialize_message :
    (m : SessionMessage)
    → (m.layer ≡ application) ⊎ (m.layer ≡ session)
    → deserialize_message (serialize_message m) ≡ m
unfolding deserialize_message serialize_message
deserialize_message-serialize_message m known = ground arith
