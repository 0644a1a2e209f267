-- ===== src/Transport/Handshake.antt =====
-- The handshake payloads and the layer byte of pkg/transport/session.go.
pub mod Format
use go_simple_protocol_runti.Common.{
  ℕ, ◌≡◌, List, [], ◌∷◌, ◌++◌, Bool, Option, none, some, if◌then◌else◌, ◌==◌, nat_eq, length,
}
use go_simple_protocol_runti.Errors.{
  Error, Result, ok, err, ◌>>=◌, message, wrap, sentinel, eof, version_mismatch, or_wrap,
}
use go_simple_protocol_runti.Transport.Layer.{Message}
use go_simple_protocol_runti.Transport.Host.{Host, zero_host, write_host, read_host}

-- LayerIdentifier: its two constants, and any other value that arrives as a byte.
pub data LayerIdentifier : Type 0 where
  application session : LayerIdentifier
  unknown_layer : ℕ → LayerIdentifier

abbrev pub layer_byte : LayerIdentifier → ℕ
layer_byte application = 0
layer_byte session = 1
layer_byte (unknown_layer b) = b

abbrev pub layer_of_byte : ℕ → LayerIdentifier
layer_of_byte b = if b == 0 then application else if b == 1 then session else unknown_layer b

-- HandshakeType: iota + 1.
pub data HandshakeType : Type 0 where
  hello ack : HandshakeType

abbrev pub handshake_byte : HandshakeType → ℕ
handshake_byte hello = 1
handshake_byte ack = 2

abbrev pub protocol_version : ℕ
protocol_version = 1

pub record SessionMessage : Type 0 where
  pub host : Host
  pub layer : LayerIdentifier
  pub msg : List ℕ

unfoldable pub encode_hello : Host → Result (List ℕ)
encode_hello h = or_wrap "encodeHello" (write_host (handshake_byte hello ∷ protocol_version ∷ []) h)

unfoldable pub encode_ack : List ℕ
encode_ack = handshake_byte ack ∷ []

unfoldable pub parse_version : List ℕ → Result (ℕ × List ℕ)
parse_version [] = err (wrap "HandshakeHello: read version" (sentinel eof))
parse_version (version ∷ rest) = ok (version, rest)

unfoldable pub parse_hello : List ℕ → Result (HandshakeType × Host)
unfolding parse_version
parse_hello buf = do
  (version, rest) ← parse_version buf
  if version == protocol_version
      then (do (host, _) ← or_wrap "HandshakeHello" (read_host rest); ok (hello, host))
      else err (wrap "got, expected" (sentinel version_mismatch))

unfoldable pub parse_handshake_payload : List ℕ → Result (HandshakeType × Host)
unfolding parse_hello
parse_handshake_payload [] = err (message "handshake payload empty")
parse_handshake_payload (msg_type ∷ buf) =
    if msg_type == handshake_byte hello
    then parse_hello buf
    else if msg_type == handshake_byte ack
    then ok (ack, zero_host)
    else err (message "unknown handshake type")

-- An empty payload counts as application data; otherwise the first byte names the layer.
unfoldable pub take_header : Host → List ℕ → SessionMessage
take_header h [] = record { host = h; layer = application; msg = [] }
take_header h (header ∷ rest) = record { host = h; layer = layer_of_byte header; msg = rest }

unfoldable pub deserialize_message : Message → SessionMessage
unfolding take_header
deserialize_message m = take_header m.host m.msg

unfoldable pub serialize_message : SessionMessage → Message
serialize_message m = record { host = m.host; msg = layer_byte m.layer ∷ m.msg }
