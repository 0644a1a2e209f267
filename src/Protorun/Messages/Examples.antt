-- ===== src/Protorun/Messages/Examples.antt =====
-- Messages of pkg/protorun/message.go that are numbers: one byte as payload, with wire id 7.
use go_simple_protocol_runti.Common.{
  ℕ, ◌≡◌, ◌≢◌, refl, List, [], ◌∷◌, Bool, false, some, if◌then◌else◌, ◌==◌, nat_eq, lookup, insert,
}
use go_simple_protocol_runti.Common.Int.{pos}
use go_simple_protocol_runti.Errors.{Result, ok, err, message}
use go_simple_protocol_runti.Transport.Host.{Host, new_host}
use go_simple_protocol_runti.Protorun.Messages.{
  registering, Codec, Mailbox, Runtime, dropped_codec_race, at_protocol, register_codec,
  require_register_phase_panics, process_message,
}
use go_simple_protocol_runti.Protorun.Messages.Registered.{codec, set_up, set_up_one, no_codec_race}

abbrev pub wire_id_of : ℕ → ℕ
wire_id_of m = 7

abbrev pub from_payload : List ℕ → Result ℕ
from_payload [] = err (message "empty")
from_payload (b ∷ bs) = ok b

abbrev pub byte_codec : Codec ℕ wire_id_of
byte_codec = record { marshal = λ m. ok (m ∷ []); unmarshal = from_payload }

abbrev pub mailbox : Mailbox ℕ wire_id_of
mailbox = record {
  phase = registering;
  codecs = [];
  handlers = [];
  message_channel = [];
  handled = [];
}

abbrev fresh : Bool → Runtime ℕ wire_id_of
fresh strict = record {
  strict = strict;
  cancelled = false;
  registry = [];
  protocols = λ p. mailbox;
  sent = [];
}

abbrev pub owned : Bool → Runtime ℕ wire_id_of
owned strict = record {
  strict = strict;
  cancelled = false;
  registry = (7, 1) ∷ [];
  protocols = λ q. if 1 == q then record mailbox { codecs = (7, byte_codec) ∷ [] } else mailbox;
  sent = [];
}

abbrev sender_host : Host
sender_host = new_host (pos 1) []

pub is_owned : lookup 7 (owned false).registry ≡ some 1
unfolding lookup
is_owned = refl

pub has_codec : lookup 7 ((owned false).protocols 1).codecs ≡ some byte_codec
unfolding lookup
has_codec = refl

sets_up : set_up ℕ wire_id_of (codec 1 7 byte_codec ∷ []) (fresh false) ≡ some (owned false)
unfolding set_up set_up_one register_codec require_register_phase_panics at_protocol lookup insert
sets_up = refl

no_codec_race_example :
    (process_message ℕ wire_id_of false (7 ∷ 0 ∷ []) sender_host (owned false)).0
    ≢ dropped_codec_race
no_codec_race_example =
    no_codec_race ℕ wire_id_of (codec 1 7 byte_codec ∷ []) (fresh false) (owned false) false
      (7 ∷ 0 ∷ []) sender_host refl sets_up
