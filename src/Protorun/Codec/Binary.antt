-- ===== src/Protorun/Codec/Binary.antt =====
-- pkg/protorun/codec.go: BinaryCodec on structs of unsigned fields, and the adapter around a codec.
use go_simple_protocol_runti.Common.{
  ℕ, ◌^◌, ◌<◌, ◌≡◌, refl, sym, ap, ◌∙◌, List, [], ◌∷◌, ◌++◌, length, take, drop, true, Option, some,
  if◌then◌else◌, ◌==◌, nat_eq, length-append, take-length_append, drop-length_append, arith,
}
use go_simple_protocol_runti.Errors.{ok, err, wrap, sentinel, eof, unexpected_eof}
use go_simple_protocol_runti.Wire.{read_full}
use go_simple_protocol_runti.Wire.RoundTrip.{read_full-append}
use go_simple_protocol_runti.Wire.Words.{le_bytes, length-le_bytes, le_value-le_bytes}
use go_simple_protocol_runti.Protorun.Codec.{
  encode_fields, decode_fields, total, binary_marshal, binary_unmarshal, TypedCodec,
  adapter_marshal, adapter_unmarshal,
}

-- There is a value for each field, and it fits in the field's bytes.
abbrev Fits : List ℕ → List ℕ → Type 0
Fits [] [] = Unit {0}
Fits [] (v ∷ values) = ⊥
Fits (w ∷ widths) [] = ⊥
Fits (w ∷ widths) (v ∷ values) = (v < 256 ^ w) × Fits widths values

length-encode_fields :
    (widths values : List ℕ)
    → Fits widths values
    → length (encode_fields widths values) ≡ total widths
unfolding encode_fields
length-encode_fields [] [] h = refl
length-encode_fields [] (v ∷ values) h = absurd h
length-encode_fields (w ∷ widths) [] h = absurd h
length-encode_fields (w ∷ widths) (v ∷ values) h = omega (
  arith,
  length-append (le_bytes w v) (encode_fields widths values),
  length-le_bytes w v,
  length-encode_fields widths values h.1,
)

take_first : (w v : ℕ) (rest : List ℕ) → take w (le_bytes w v ++ rest) ≡ le_bytes w v
take_first w v rest =
    ap (λ (n : ℕ). take n (le_bytes w v ++ rest)) (sym (length-le_bytes w v))
    ∙ take-length_append (le_bytes w v) rest

drop_first : (w v : ℕ) (rest : List ℕ) → drop w (le_bytes w v ++ rest) ≡ rest
drop_first w v rest =
    ap (λ (n : ℕ). drop n (le_bytes w v ++ rest)) (sym (length-le_bytes w v))
    ∙ drop-length_append (le_bytes w v) rest

decode_fields-encode_fields :
    (widths values : List ℕ)
    → Fits widths values
    → decode_fields widths (encode_fields widths values) ≡ values
unfolding encode_fields decode_fields
decode_fields-encode_fields [] [] h = refl
decode_fields-encode_fields [] (v ∷ values) h = absurd h
decode_fields-encode_fields (w ∷ widths) [] h = absurd h
decode_fields-encode_fields (w ∷ widths) (v ∷ values) h =
    let rest = encode_fields widths values in
    rw
      (
        take_first w v rest,
        drop_first w v rest,
        le_value-le_bytes w v h.0,
        decode_fields-encode_fields widths values h.1,
      )
      refl

read_full-short :
    (n : ℕ) (r : List ℕ)
    → length r < n
    → read_full n r ≡ err (sentinel (if length r == 0 then eof else unexpected_eof))
unfolding read_full
read_full-short n r less = ground arith

-- BinaryCodec decodes the struct that it encoded, whatever bytes follow, if every field's value fits in
-- its width; and an input that is shorter than the struct is an io.EOF if it is empty and an io.ErrUnexpectedEOF
-- otherwise.
pub binary_unmarshal-marshal :
    (widths values rest : List ℕ)
    → Fits widths values
    → (encoded : List ℕ) × (binary_marshal widths values ≡ ok encoded)
      × (length encoded ≡ total widths)
      × (binary_unmarshal true widths (encoded ++ rest) ≡ ok values)
      × ((short : List ℕ)
          → length short < total widths
          → binary_unmarshal true widths short
            ≡ err (
                wrap "BinaryCodec.Unmarshal"
                  (sentinel (if length short == 0 then eof else unexpected_eof))))
unfolding binary_marshal binary_unmarshal
binary_unmarshal-marshal widths values rest fits =
    let size = length-encode_fields widths values fits in
    (
      encode_fields widths values,
      refl,
      size,
      rw
          (
            read_full-append (total widths) (encode_fields widths values) rest size,
            decode_fields-encode_fields widths values fits,
          )
          refl,
      λ (short : List ℕ). λ less. rw (read_full-short (total widths) short less) refl,
    )

-- The adapter round trip: what a typed codec decodes from its own encoding, the adapter decodes as the
-- same message.
adapter_unmarshal-marshal {ℓ κ} :
    (Message : Type ℓ) (M : Type κ) (assert_type : Message → Option M) (embed : M → Message)
    (c : TypedCodec Message M) (m : M) (encoded : List ℕ)
    → assert_type (embed m) ≡ some m
    → c.marshal_typed m ≡ ok encoded
    → c.unmarshal_typed encoded ≡ ok m
    → (adapter_marshal Message M assert_type c (embed m) ≡ ok encoded)
      × (adapter_unmarshal Message M embed c encoded ≡ ok (embed m))
unfolding adapter_marshal adapter_unmarshal
adapter_unmarshal-marshal Message M assert_type embed c m encoded typed out into =
    (rw (typed, adapter_marshal) out, rw (into, adapter_unmarshal) refl)
