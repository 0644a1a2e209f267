-- ===== src/Protorun/Codec/Ids.antt =====
-- pkg/protorun/codec.go: the cached wire ids of the send path against WireID, which the registrations use.
use go_simple_protocol_runti.Common.{
  ℕ, ◌≡◌, refl, sym, ap, ◌∙◌, List, [], ◌∷◌, none, some, nat_eq, nat_beq_iff, Map, lookup, insert,
  lookup-insert, All, map, inl, inr, Option-cases, arith,
}
use go_simple_protocol_runti.Protorun.Codec.{
  hash_string, GoType, Value, name_of, hash_of, wire_id, wire_id_of, wire_ids_of,
}

-- What a cache holds is the id that every value of the type has.
abbrev Caches : (ℕ → ℕ) → Map ℕ ℕ → Type 0
Caches id_of cache = (t id : ℕ) → lookup t cache ≡ some id → id ≡ id_of t

-- A call on a type that is not cached yet computes the hash and stores it.
wire_id_of-miss :
    (m : Value) (cache : Map ℕ ℕ)
    → lookup m.type_of.identity cache ≡ none
    → wire_id_of m cache ≡ (hash_of m, insert m.type_of.identity (hash_of m) cache)
unfolding wire_id_of
wire_id_of-miss m cache absent = ground arith

wire_id_of-hit :
    (m : Value) (cache : Map ℕ ℕ) (id : ℕ)
    → lookup m.type_of.identity cache ≡ some id
    → wire_id_of m cache ≡ (id, cache)
unfolding wire_id_of
wire_id_of-hit m cache id found = rw (found, wire_id_of) refl

call-Caches :
    (id_of : ℕ → ℕ) (m : Value) (cache : Map ℕ ℕ)
    → hash_of m ≡ id_of m.type_of.identity
    → Caches id_of cache
    → ((wire_id_of m cache).0 ≡ hash_of m) × Caches id_of (wire_id_of m cache).1
call-Caches id_of m cache constant held = elim (Option-cases (lookup m.type_of.identity cache)) [
  | inl absent ↦ rw (wire_id_of-miss m cache absent) (
    refl,
    λ (t : ℕ). λ (id : ℕ). λ found. ground (
      arith,
      lookup-insert m.type_of.identity t (hash_of m) cache,
      nat_beq_iff m.type_of.identity t,
      held t id,
    ),
  )
  | inr (id, found) ↦
      rw (wire_id_of-hit m cache id found) (held m.type_of.identity id found ∙ sym constant, held)
]

calls-agree :
    (id_of : ℕ → ℕ) (ms : List Value) (cache : Map ℕ ℕ)
    → All (λ (m : Value). hash_of m ≡ id_of m.type_of.identity) ms
    → Caches id_of cache
    → (wire_ids_of ms cache).0 ≡ map hash_of ms
unfolding wire_ids_of
calls-agree id_of [] cache constant held = refl
calls-agree id_of (m ∷ ms) cache constant held =
    let (first, held') = call-Caches id_of m cache constant.0 held in
    let rest = calls-agree id_of ms (wire_id_of m cache).1 constant.1 held' in rw (first, rest) refl

-- WireName answers for this value what it answers for the fresh value that WireID probes, which there is:
-- the type of a message is no interface.
abbrev pub IsFrozen : Value → Type 0
IsFrozen m =
    (content : ℕ) × (m.type_of.zero_content ≡ some content)
    × (name_of m ≡ name_of (record { type_of = m.type_of; content = content }))

-- The id under which WireID registers the type that has this identity.
abbrev registered_as : (ℕ → GoType) → ℕ → ℕ
registered_as types t = elim (types t).zero_content [
  | none ↦ 0
  | some content ↦ hash_of (record { type_of = types t; content = content })
]

frozen-registered :
    (types : ℕ → GoType) (m : Value)
    → types m.type_of.identity ≡ m.type_of
    → IsFrozen m
    → (hash_of m ≡ registered_as types m.type_of.identity) × (wire_id m.type_of ≡ some (hash_of m))
unfolding wire_id
frozen-registered types m known (content, fresh, named) = (
  ap hash_string named ∙ sym (ap id_of known ∙ probed),
  rw fresh (ap (λ (name : List ℕ). some (hash_string name)) (sym named)),
)
  where
    id_of : GoType → ℕ
    id_of t = elim t.zero_content [
      | none ↦ 0
      | some c ↦ hash_of (record { type_of = t; content = c })
    ]

    probed : id_of m.type_of ≡ hash_of (record { type_of = m.type_of; content = content })
    probed = rw (fresh, id_of) refl

all-registered :
    (types : ℕ → GoType) (ms : List Value)
    → All (λ (m : Value). (types m.type_of.identity ≡ m.type_of) × IsFrozen m) ms
    → All (λ (m : Value). hash_of m ≡ registered_as types m.type_of.identity) ms
      × (map some (map hash_of ms) ≡ map (λ (m : Value). wire_id m.type_of) ms)
all-registered types [] h = (tt, refl)
all-registered types (m ∷ ms) h =
    let (same, id) = frozen-registered types m h.0.0 h.0.1 in
    let (later, ids) = all-registered types ms h.1 in ((same, later), rw (id, ids) refl)

-- For any sequence of messages, where values of one reflect.Type have one type, and where WireName, if a
-- type has it, answers for the message what it answers for a fresh value: the ids that the send path
-- computes with its cache, from an empty one, are those under which WireID registers their types.
pub wire_ids_of-agree :
    (types : ℕ → GoType) (ms : List Value)
    → All (λ (m : Value). (types m.type_of.identity ≡ m.type_of) × IsFrozen m) ms
    → map some (wire_ids_of ms []).0 ≡ map (λ (m : Value). wire_id m.type_of) ms
unfolding lookup
wire_ids_of-agree types ms frozen =
    let (constant, registered) = all-registered types ms frozen in
    let sent =
      calls-agree (registered_as types) ms [] constant
        (λ (t : ℕ). λ (id : ℕ). λ found. absurd cc) in
    ap (map some) sent ∙ registered
