-- ===== src/Protorun/Messages.antt =====
-- The way of a message through the runtime: pkg/protorun/codec_registry.go, message.go
-- (sendMessage), runtime.go (processMessage) and protocol.go (registerCodec, registerHandler,
-- handleMessage). A protocol and a handler are pointers in the source and numbers here. `sent` logs
-- sessionLayer.Send. wireIDOf hashes the name of a Go type: it is the parameter `wire_id_of`.
pub mod Paths
pub mod Registered
pub mod Examples
use go_simple_protocol_runti.Common.{
  ℕ, List, [], ◌∷◌, ◌++◌, Bool, true, false, not, ◌&&◌, Option, none, some, if◌then◌else◌, ◌==◌,
  nat_eq, ltb, Map, lookup, insert,
}
use go_simple_protocol_runti.Errors.{Error, Result, ok, err, sentinel, message, wrap, no_codec}
use go_simple_protocol_runti.Wire.{read_uint64, write_uint64}
use go_simple_protocol_runti.Transport.Host.{Host}

-- protoPhase, in its order.
pub data Phase : Type 0 where
  unstarted registering registered initializing running phase_cancelled : Phase

abbrev is_registering : Phase → Bool
is_registering registering = true
is_registering _ = false

-- What processMessage counts.
pub data Outcome : Type 0 where
  dropped_header dropped_unknown_id dropped_codec_race dropped_decode_error dispatched : Outcome

module _ (Msg : Type 0) (wire_id_of : Msg → ℕ) where
  pub record Codec : Type 0 where
    pub marshal : Msg → Result (List ℕ)
    pub unmarshal : List ℕ → Result Msg

  pub record Envelope : Type 0 where
    pub msg : Msg
    pub from : Host

  -- `handled` logs the handlers that ran, last first.
  pub record Mailbox : Type 0 where
    pub phase : Phase
    pub codecs : Map ℕ Codec
    pub handlers : Map ℕ ℕ
    pub message_channel : List Envelope
    pub handled : List (ℕ × Envelope)

  pub record Runtime : Type 0 where
    pub strict : Bool
    pub cancelled : Bool
    pub registry : Map ℕ ℕ
    pub protocols : ℕ → Mailbox
    pub sent : List (List ℕ × Host)

  unfoldable pub at_protocol : ℕ → (Mailbox → Mailbox) → Runtime → Runtime
  at_protocol p f r = record r {
    protocols = λ q. if p == q then f (r.protocols q) else r.protocols q;
  }

  -- protoProtocol.requireRegisterPhase: whether it panics.
  unfoldable pub require_register_phase_panics : ℕ → Runtime → Bool
  require_register_phase_panics p r = r.strict && not (is_registering (r.protocols p).phase)

  -- protocolContext.registerCodec; `none` is a panic of strict mode.
  unfoldable pub register_codec : ℕ → ℕ → Codec → Runtime → Option Runtime
  unfolding require_register_phase_panics at_protocol
  register_codec p wire_id c r =
      if require_register_phase_panics p r
      then none
      else if r.strict && (elim (lookup wire_id r.registry) [ none ↦ false | some _ ↦ true ])
      then none
      else some (record (at_protocol p (λ v. record v { codecs = insert wire_id c v.codecs }) r) {
        registry = insert wire_id p r.registry;
      })

  -- protocolContext.registerHandler
  unfoldable pub register_handler : ℕ → ℕ → ℕ → Runtime → Option Runtime
  unfolding require_register_phase_panics at_protocol
  register_handler p wire_id fn r =
      if require_register_phase_panics p r
      then none
      else if r.strict
          && (elim (lookup wire_id (r.protocols p).handlers) [ none ↦ false | some _ ↦ true ])
      then none
      else some (at_protocol p (λ v. record v { handlers = insert wire_id fn v.handlers }) r)

  -- Runtime.sendMessage; `none` is the nil error.
  unfoldable pub send_message : Msg → Host → Runtime → Option Error × Runtime
  send_message msg send_to r =
      let wire_id = wire_id_of msg in
      elim (lookup wire_id r.registry) [
        | none ↦ (some (wrap "%T (wireID=%#x)" (sentinel no_codec)), r)
        | some p ↦ elim (lookup wire_id (r.protocols p).codecs) [
          | none ↦ (some (message "sendMessage: codec lookup raced"), r)
          | some c ↦ elim (c.marshal msg) [
            | err e ↦ (some e, r)
            | ok payload ↦
                (none, record r { sent = (write_uint64 [] wire_id ++ payload, send_to) ∷ r.sent })
          ]
        ]
      ]

  -- `case protocol.messageChannel <- envelope` or `case <-ctx.Done()`, which `wins` chooses from once
  -- the runtime is over.
  unfoldable pub push_message : Bool → ℕ → Envelope → Runtime → Runtime
  unfolding at_protocol
  push_message wins p envelope r =
      if r.cancelled && not wins
      then r
      else at_protocol p (λ v. record v { message_channel = v.message_channel ++ (envelope ∷ []) })
          r

  -- Runtime.processMessage
  unfoldable pub process_message : Bool → List ℕ → Host → Runtime → Outcome × Runtime
  unfolding push_message
  process_message wins buffer from r = elim (read_uint64 buffer) [
    | err e ↦ (dropped_header, r)
    | ok header ↦ elim (lookup header.0 r.registry) [
      | none ↦ (dropped_unknown_id, r)
      | some p ↦ elim (lookup header.0 (r.protocols p).codecs) [
        | none ↦ (dropped_codec_race, r)
        | some c ↦ elim (c.unmarshal header.1) [
          | err e ↦ (dropped_decode_error, r)
          | ok m ↦ (dispatched, push_message wins p (record { msg = m; from = from }) r)
        ]
      ]
    ]
  ]

  -- protoProtocol.handleMessage, on the oldest message of the mailbox
  unfoldable pub handle_message : Mailbox → Mailbox
  handle_message v = elim v.message_channel [
    | [] ↦ v
    | envelope ∷ rest ↦ elim (lookup (wire_id_of envelope.msg) v.handlers) [
      | none ↦ record v { message_channel = rest }
      | some h ↦ record v { message_channel = rest; handled = (h, envelope) ∷ v.handled }
    ]
  ]
