-- ===== src/Protorun/Messages/Registered.antt =====
-- registerCodec and registerHandler of pkg/protorun/protocol.go: who owns a wire id and its codec.
use go_simple_protocol_runti.Common.{
  ℕ, ◌≡◌, ◌≢◌, refl, subst, List, [], ◌∷◌, Bool, true, false, Option, none, some, if◌then◌else◌,
  ◌==◌, nat_eq, nat_beq_iff, beq_refl, lookup, insert, lookup-insert, inl, inr, arith,
}
use go_simple_protocol_runti.Errors.{Result-cases}
use go_simple_protocol_runti.Wire.{read_uint64}
use go_simple_protocol_runti.Transport.Host.{Host}
use go_simple_protocol_runti.Protorun.Messages.{
  Codec, Mailbox, Runtime, dropped_codec_race, at_protocol, require_register_phase_panics,
  register_codec, register_handler, process_message,
}

module _ (Msg : Type 0) (wire_id_of : Msg → ℕ) where
  abbrev R : Type 0
  R = Runtime Msg wire_id_of

  pub data Setup : Type 0 where
    codec : ℕ → ℕ → Codec Msg wire_id_of → Setup
    handler : ℕ → ℕ → ℕ → Setup

  unfoldable pub set_up_one : Setup → R → Option R
  set_up_one (codec p w c) r = register_codec Msg wire_id_of p w c r
  set_up_one (handler p w fn) r = register_handler Msg wire_id_of p w fn r

  -- The registrations of the protocols' Start methods, until one panics.
  unfoldable pub set_up : List Setup → R → Option R
  set_up [] r = some r
  set_up (c ∷ cs) r = elim (set_up_one c r) [ none ↦ none | some r' ↦ set_up cs r' ]

  -- Whether the owner of wire id `w` lacks its codec.
  lacks : Option (Codec Msg wire_id_of) → Bool
  lacks none = true
  lacks (some _) = false

  race_in : ℕ → (ℕ → Mailbox Msg wire_id_of) → Option ℕ → Bool
  unfolding lacks
  race_in w protocols none = false
  race_in w protocols (some p) = lacks (lookup w (protocols p).codecs)

  abbrev races : ℕ → R → Bool
  races w r = race_in w r.protocols (lookup w r.registry)

  abbrev NoRace : R → Type 0
  NoRace r = (w : ℕ) → races w r ≡ false

  with_codec : ℕ → ℕ → Codec Msg wire_id_of → R → R
  with_codec p w c r =
      record (at_protocol Msg wire_id_of p (λ v. record v { codecs = insert w c v.codecs }) r) {
        registry = insert w p r.registry;
      }

  with_handler : ℕ → ℕ → ℕ → R → R
  with_handler p w fn r =
      at_protocol Msg wire_id_of p (λ v. record v { handlers = insert w fn v.handlers }) r

  register_codec-eq-some :
      (p w : ℕ) (c : Codec Msg wire_id_of) (r r' : R)
      → register_codec Msg wire_id_of p w c r ≡ some r'
      → with_codec p w c r ≡ r'
  unfolding register_codec with_codec at_protocol
  register_codec-eq-some p w c r r' e = ground arith

  register_handler-eq-some :
      (p w fn : ℕ) (r r' : R)
      → register_handler Msg wire_id_of p w fn r ≡ some r'
      → with_handler p w fn r ≡ r'
  unfolding register_handler with_handler at_protocol
  register_handler-eq-some p w fn r r' e = ground arith

  with_codec-NoRace :
      (p w : ℕ) (c : Codec Msg wire_id_of) (r : R) → NoRace r → NoRace (with_codec p w c r)
  unfolding with_codec at_protocol race_in
  with_codec-NoRace p w c r h v =
      let old = h v in
      ground (
        arith,
        lookup-insert w v p r.registry,
        nat_beq_iff w v,
        lookup-insert w v c (r.protocols p).codecs,
        beq_refl p,
        other_owner,
      )
    where
      other_owner :
          (q : ℕ)
          → lookup v (insert w c (r.protocols q).codecs)
            ≡ (if w == v then some c else lookup v (r.protocols q).codecs)
      other_owner q = lookup-insert w v c (r.protocols q).codecs

  with_handler-NoRace : (p w fn : ℕ) (r : R) → NoRace r → NoRace (with_handler p w fn r)
  unfolding with_handler at_protocol race_in
  with_handler-NoRace p w fn r h v = let old = h v in ground arith

  set_up_one-NoRace : (c : Setup) (r r' : R) → set_up_one c r ≡ some r' → NoRace r → NoRace r'
  unfolding set_up_one
  set_up_one-NoRace (codec p w c) r r' e h =
      subst (λ (q : R). NoRace q) (register_codec-eq-some p w c r r' e)
        (with_codec-NoRace p w c r h)
  set_up_one-NoRace (handler p w fn) r r' e h =
      subst (λ (q : R). NoRace q) (register_handler-eq-some p w fn r r' e)
        (with_handler-NoRace p w fn r h)

  first_of :
      (c : Setup) (cs : List Setup) (r r' : R)
      → set_up (c ∷ cs) r ≡ some r'
      → (q : R) × (set_up_one c r ≡ some q) × (set_up cs q ≡ some r')
  unfolding set_up
  first_of c cs r r' e = go (set_up_one c r) refl e
    where
      go :
          (o : Option R)
          → set_up_one c r ≡ o
          → (elim o [ none ↦ none | some q ↦ set_up cs q ]) ≡ some r'
          → (q : R) × (set_up_one c r ≡ some q) × (set_up cs q ≡ some r')
      go none made e = cc
      go (some q) made e = (q, made, e)

  set_up-NoRace : (cs : List Setup) (r r' : R) → set_up cs r ≡ some r' → NoRace r → NoRace r'
  unfolding set_up
  set_up-NoRace [] r r' e h = subst (λ (q : R). NoRace q) (the_same e) h
    where
      the_same : some r ≡ some r' → r ≡ r'
      the_same e = cc
  set_up-NoRace (c ∷ cs) r r' e h =
      let (q, made, more) = first_of c cs r r' e in
      set_up-NoRace cs q r' more (set_up_one-NoRace c r q made h)

  -- When all registrations of a runtime with an empty codec registry go through, no buffer is ever
  -- dropped because its wire id has an owner that has no codec for it.
  pub no_codec_race :
      (cs : List Setup) (r r' : R) (wins : Bool) (buffer : List ℕ) (from : Host)
      → r.registry ≡ []
      → set_up cs r ≡ some r'
      → (process_message Msg wire_id_of wins buffer from r').0 ≢ dropped_codec_race
  unfolding process_message lookup race_in
  no_codec_race cs r r' wins buffer from empty e raced =
      let none_races = set_up-NoRace cs r r' e (λ w. ground arith) in
      elim (Result-cases (read_uint64 buffer)) [
        | inl (header, read) ↦ let fine = none_races header.0 in ground arith
        | inr (e, read) ↦ ground arith
      ]

  -- In strict mode, once a codec for a wire id has been registered, no further registration of that
  -- wire id goes through.
  strict_refuses_second_codec :
      (p q w : ℕ) (c d : Codec Msg wire_id_of) (r r' : R)
      → r.strict ≡ true
      → register_codec Msg wire_id_of p w c r ≡ some r'
      → register_codec Msg wire_id_of q w d r' ≡ none
  unfolding register_codec require_register_phase_panics at_protocol with_codec
  strict_refuses_second_codec p q w c d r r' on e =
      let made = register_codec-eq-some p w c r r' e in
      let owned = lookup-insert w w p r.registry in ground (arith, beq_refl w)

  -- Without strict mode a second protocol's registration of the wire id goes through in silence, and
  -- the wire id then belongs to the second protocol.
  second_codec_takes_over :
      (p q w : ℕ) (c d : Codec Msg wire_id_of) (r r' : R)
      → r.strict ≡ false
      → register_codec Msg wire_id_of p w c r ≡ some r'
      → (r'' : R) × (register_codec Msg wire_id_of q w d r' ≡ some r'')
        × (lookup w r'.registry ≡ some p)
        × (lookup w r''.registry ≡ some q)
  unfolding register_codec require_register_phase_panics at_protocol with_codec
  second_codec_takes_over p q w c d r r' off e =
      let made = register_codec-eq-some p w c r r' e in
      (
        with_codec q w d r',
        ground arith,
        ground (arith, lookup-insert w w p r.registry, beq_refl w),
        rw (lookup-insert w w q r'.registry, beq_refl w) refl,
      )
