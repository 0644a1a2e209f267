-- ===== src/Gossip/Codec.antt =====
-- cmd/gossip/gossip/messages.go: the codec of a gossip message.
use go_simple_protocol_runti.Common.{
  ℕ, ◌^◌, ◌<◌, ◌≡◌, refl, sym, ap, subst, ◌∙◌, List, [], ◌++◌, length, All,
}
use mathlib.Core.List.{append_assoc}
use go_simple_protocol_runti.Errors.{Result, ok, ◌>>=◌, or_wrap, >>=-eq-ok}
use go_simple_protocol_runti.Wire.{write_uint64, read_uint, read_uint64, write_bytes, read_bytes}
use go_simple_protocol_runti.Wire.Words.{IsByte, le_bytes}
use go_simple_protocol_runti.Wire.RoundTrip.{
  write_bytes_lem, read_uint-append, read_uint-eq-ok, read_bytes-write_bytes, read_bytes-eq-ok,
  wrapped,
}
use go_simple_protocol_runti.Gossip.{Message}

-- Neither write fails on a bytes.Buffer.
unfoldable pub marshal : Message → List ℕ
marshal m = write_bytes (write_uint64 [] m.id) m.payload

unfoldable pub unmarshal : List ℕ → Result Message
unmarshal encoded = do
  (id, r) ← or_wrap "gossip codec: read id" (read_uint64 encoded)
  (payload, rest) ← or_wrap "gossip codec: read payload" (read_bytes r)
  ok (record { id = id; payload = payload })

marshal_lem :
    (m : Message) (rest : List ℕ)
    → length m.payload < 2 ^ 32
    → marshal m ++ rest ≡ le_bytes 8 m.id ++ (write_bytes [] m.payload ++ rest)
unfolding marshal write_uint64
marshal_lem m rest fits =
    rw
      (
        write_bytes_lem (le_bytes 8 m.id) m.payload fits,
        write_bytes_lem [] m.payload fits,
        append_assoc (le_bytes 8 m.id) (le_bytes 4 (length m.payload) ++ m.payload) rest,
      )
      refl

-- A gossip message whose payload is shorter than 2^32 bytes and whose id is a uint64 is decoded from
-- its encoding, whatever bytes follow.
pub unmarshal-marshal :
    (m : Message) (rest : List ℕ)
    → m.id < 2 ^ 64
    → length m.payload < 2 ^ 32
    → unmarshal (marshal m ++ rest) ≡ ok m
unfolding unmarshal read_uint64
unmarshal-marshal m rest wide fits =
    rw
      (
        marshal_lem m rest fits,
        read_uint-append 8 m.id (write_bytes [] m.payload ++ rest) wide,
        read_bytes-write_bytes m.payload rest fits,
      )
      refl

-- What is decoded as a gossip message is the encoding of that message and bytes that are ignored.
pub unmarshal-eq-ok :
    (m : Message) (encoded : List ℕ)
    → All IsByte encoded
    → unmarshal encoded ≡ ok m
    → (rest : List ℕ) × (encoded ≡ marshal m ++ rest)
unfolding unmarshal read_uint64
unmarshal-eq-ok m encoded bytes e =
    let (p, prefix, body) = >>=-eq-ok (or_wrap "gossip codec: read id" (read_uint 8 encoded)) _ e in
    let first = wrapped "gossip codec: read id" (read_uint 8 encoded) p prefix in
    let (split, wide, left) = read_uint-eq-ok 8 p.0 encoded p.1 bytes first in
    let (q, tail, done) =
      >>=-eq-ok (or_wrap "gossip codec: read payload" (read_bytes p.1)) _ body in
    let second = wrapped "gossip codec: read payload" (read_bytes p.1) q tail in
    let (split', fits) = read_bytes-eq-ok p.1 q.0 q.1 left second in
    let decoded : Message = record { id = p.0; payload = q.0 } in
    let same : decoded ≡ m = cc in
    let whole = split ∙ ap (◌++◌ (le_bytes 8 p.0)) split' ∙ sym (marshal_lem decoded q.1 fits) in
    (q.1, subst (λ (x : Message). encoded ≡ marshal x ++ q.1) same whole)
