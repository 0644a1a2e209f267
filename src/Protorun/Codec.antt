-- ===== src/Protorun/Codec.antt =====
-- pkg/protorun/codec.go: wire ids, and the codecs behind the codec interface. What reflection tells of a
-- type is data here: its identity, its String, its WireName method and the value that WireID probes. hash/fnv's FNV-1a of 64 bits
-- is written out. A Go string is the list of its bytes.
pub mod Ids
pub mod Binary
pub mod Examples
use go_simple_protocol_runti.Common.{
  ℕ, zero, suc, ◌+◌, ◌*◌, ◌%◌, ◌^◌, List, [], ◌∷◌, ◌++◌, take, drop, Bool, true, false, not, Option,
  none, some, if◌then◌else◌, ◌==◌, nat_eq, Map, lookup, insert,
}
use Prim.Native.Nat.{bit_xor}
use go_simple_protocol_runti.Errors.{Result, ok, err, ◌>>=◌, message, wrap, or_wrap}
use go_simple_protocol_runti.Wire.{read_full}
use go_simple_protocol_runti.Wire.Words.{le_bytes, le_value}

abbrev pub fnv_offset : ℕ
fnv_offset = 14695981039346656037

abbrev fnv_prime : ℕ
fnv_prime = 1099511628211

-- One byte of fnv.New64a().Write.
abbrev pub fnv_step : ℕ → ℕ → ℕ
fnv_step h b = bit_xor h b * fnv_prime % 2 ^ 64

unfoldable pub fnv_write : ℕ → List ℕ → ℕ
fnv_write h [] = h
fnv_write h (b ∷ bs) = fnv_write (fnv_step h b) bs

unfoldable pub hash_string : List ℕ → ℕ
unfolding fnv_write
hash_string s = fnv_write fnv_offset s

-- A reflect.Type. `wire_name` is the method WireName, on the content of a value, where the type has it.
-- `zero_content` is that of a fresh value, a new element for a pointer type; an interface has none.
pub record GoType : Type 0 where
  pub identity : ℕ
  pub name : List ℕ
  pub wire_name : Option (ℕ → List ℕ)
  pub zero_content : Option ℕ

-- A value: its dynamic type and its content.
pub record Value : Type 0 where
  pub type_of : GoType
  pub content : ℕ

-- What WireName() answers, or the name of the type.
abbrev pub name_of : Value → List ℕ
name_of v = elim v.type_of.wire_name [
  | some wire_name ↦ wire_name v.content
  | none ↦ v.type_of.name
]

abbrev pub hash_of : Value → ℕ
hash_of v = hash_string (name_of v)

-- WireID[T], which probes a fresh value of T; `none` is its panic.
unfoldable pub wire_id : GoType → Option ℕ
wire_id t = elim t.zero_content [
  | none ↦ none
  | some content ↦ some (hash_of (record { type_of = t; content = content }))
]

-- wireIDOf, with the cache by the identity of the type.
unfoldable pub wire_id_of : Value → Map ℕ ℕ → ℕ × Map ℕ ℕ
wire_id_of m cache = elim (lookup m.type_of.identity cache) [
  | some cached ↦ (cached, cache)
  | none ↦ elim m.type_of.wire_name [
    | some wire_name ↦
        let id = hash_string (wire_name m.content) in (id, insert m.type_of.identity id cache)
    | none ↦
        (hash_string m.type_of.name, insert m.type_of.identity (hash_string m.type_of.name) cache)
  ]
]

unfoldable pub wire_ids_of : List Value → Map ℕ ℕ → List ℕ × Map ℕ ℕ
wire_ids_of [] cache = ([], cache)
wire_ids_of (m ∷ ms) cache =
    let (id, cache') = wire_id_of m cache in
    let (ids, cache'') = wire_ids_of ms cache' in (id ∷ ids, cache'')

module _ {ℓ κ} (Message : Type ℓ) (M : Type κ) where
  -- Codec[M]
  pub record TypedCodec : Type (ℓ ⊔ κ) where
    pub marshal_typed : M → Result (List ℕ)
    pub unmarshal_typed : List ℕ → Result M

  -- codecAdapter: `assert_type` is the type assertion `m.(M)`, `embed` the conversion to the interface.
  unfoldable pub adapter_marshal : (Message → Option M) → TypedCodec → Message → Result (List ℕ)
  adapter_marshal assert_type c m = elim (assert_type m) [
    | none ↦ err (message "protorun: codec mismatch: expected %T, got %T")
    | some typed ↦ c.marshal_typed typed
  ]

  unfoldable pub adapter_unmarshal : (M → Message) → TypedCodec → List ℕ → Result Message
  adapter_unmarshal embed c encoded = do m ← c.unmarshal_typed encoded; ok (embed m)

-- A struct of unsigned fields is the widths of its fields in bytes, and their values.
unfoldable pub encode_fields : List ℕ → List ℕ → List ℕ
encode_fields [] values = []
encode_fields (w ∷ widths) [] = []
encode_fields (w ∷ widths) (v ∷ values) = le_bytes w v ++ encode_fields widths values

unfoldable pub decode_fields : List ℕ → List ℕ → List ℕ
decode_fields [] bs = []
decode_fields (w ∷ widths) bs = le_value (take w bs) ∷ decode_fields widths (drop w bs)

abbrev pub total : List ℕ → ℕ
total [] = 0
total (w ∷ widths) = w + total widths

-- BinaryCodec.Marshal: binary.Write of a pointer to such a struct into a bytes.Buffer.
unfoldable pub binary_marshal : List ℕ → List ℕ → Result (List ℕ)
unfolding encode_fields
binary_marshal widths values = ok (encode_fields widths values)

-- BinaryCodec.Unmarshal: binary.Read reads the size of the struct with io.ReadFull.
unfoldable pub binary_unmarshal : Bool → List ℕ → List ℕ → Result (List ℕ)
unfolding decode_fields
binary_unmarshal is_pointer widths encoded =
    if not is_pointer then err (message "BinaryCodec[M]: M must be a pointer type, got %T") else do
      (bs, rest) ← or_wrap "BinaryCodec.Unmarshal" (read_full (total widths) encoded)
      ok (decode_fields widths bs)
