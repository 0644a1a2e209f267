-- ===== src/Protorun/Codec/Examples.antt =====
-- The wire ids and the encoding of the messages of cmd/pingpong/protocol/messages.go.
use go_simple_protocol_runti.Common.{
  ℕ, ◌<◌, ◌≡◌, refl, List, [], ◌∷◌, ◌++◌, length, true, none, some, if◌then◌else◌, ◌==◌, nat_eq,
  map, arith,
}
use go_simple_protocol_runti.Errors.{ok, err, wrap, sentinel, eof, unexpected_eof}
use go_simple_protocol_runti.Protorun.Codec.{
  GoType, Value, hash_string, fnv_write, wire_id, wire_ids_of, total, binary_marshal,
  binary_unmarshal,
}
use go_simple_protocol_runti.Protorun.Codec.Ids.{wire_ids_of-agree}
use go_simple_protocol_runti.Protorun.Codec.Binary.{binary_unmarshal-marshal}

-- *p.Ping, which has no WireName, and *p.Pong, which has
abbrev ping_type : GoType
ping_type = record {
  identity = 1;
  name = 42 ∷ 112 ∷ 46 ∷ 80 ∷ [];
  wire_name = none;
  zero_content = some 0;
}

abbrev pong_type : GoType
pong_type = record {
  identity = 2;
  name = 42 ∷ 112 ∷ 46 ∷ 81 ∷ [];
  wire_name = some (λ (content : ℕ). 97 ∷ []);
  zero_content = some 0;
}

abbrev ping : ℕ → Value
ping seq = record { type_of = ping_type; content = seq }

abbrev pong : ℕ → Value
pong seq = record { type_of = pong_type; content = seq }

-- The published FNV-1a value of "a".
hash_of_a : hash_string (97 ∷ []) ≡ 12638187200555641996
unfolding hash_string fnv_write
hash_of_a = refl

abbrev types : ℕ → GoType
types t = if t == 1 then ping_type else pong_type

abbrev rally : List Value
rally = ping 1 ∷ pong 1 ∷ ping 2 ∷ []

wire_ids_of-agree_example :
    map some (wire_ids_of rally []).0 ≡ map (λ (m : Value). wire_id m.type_of) rally
wire_ids_of-agree_example =
    wire_ids_of-agree types rally
      ((refl, (0, refl, refl)), ((refl, (0, refl, refl)), ((refl, (0, refl, refl)), tt)))

binary_unmarshal-marshal_example :
    (encoded : List ℕ) × (binary_marshal (8 ∷ []) (300 ∷ []) ≡ ok encoded)
    × (length encoded ≡ total (8 ∷ []))
    × (binary_unmarshal true (8 ∷ []) (encoded ++ (1 ∷ [])) ≡ ok (300 ∷ []))
    × ((short : List ℕ)
        → length short < total (8 ∷ [])
        → binary_unmarshal true (8 ∷ []) short
          ≡ err (
              wrap "BinaryCodec.Unmarshal"
                (sentinel (if length short == 0 then eof else unexpected_eof))))
binary_unmarshal-marshal_example =
    binary_unmarshal-marshal (8 ∷ []) (300 ∷ []) (1 ∷ []) (omega arith, tt)
