-- ===== src/Protorun/Options.antt =====
-- The options of a runtime: WithStrict and WithStrictHandlerTimeout of pkg/protorun/strict.go,
-- WithDefaultRequestTimeout of ipc.go, WithChannelBuffer, WithTransport and New of runtime.go, with what
-- SendRequestWithTimeout, newProtoProtocol and strictWatchdog make of them. Durations are nanoseconds.
-- The layers are numbers.
pub mod Effects
use go_simple_protocol_runti.Common.{
  ℕ, zero, suc, List, [], ◌∷◌, Bool, true, false, ◌&&◌, Option, none, some, if◌then◌else◌,
}
use go_simple_protocol_runti.Common.Int.{ℤ, pos, negsuc, int_beq, int_eq}
use go_simple_protocol_runti.Protorun.Loop.{is_positive}

pub record Options : Type 0 where
  pub strict : Bool
  pub strict_handler_timeout : ℤ
  proto_channel_buffer : ℤ
  default_request_timeout : ℤ
  network_layer : Option ℕ
  session_layer : Option ℕ

-- 5 seconds, 30 seconds, and 16 places
abbrev default_strict_handler_timeout : ℤ
default_strict_handler_timeout = pos 5000000000

abbrev default_request_timeout_value : ℤ
default_request_timeout_value = pos 30000000000

abbrev default_proto_channel_buffer : ℤ
default_proto_channel_buffer = pos 16

abbrev Setting : Type 0
Setting = Options → Options

unfoldable pub with_strict : Bool → Setting
with_strict strict r = record r {
  strict = strict;
  strict_handler_timeout =
      if int_beq r.strict_handler_timeout (pos 0)
      then default_strict_handler_timeout
      else r.strict_handler_timeout;
}

unfoldable pub with_strict_handler_timeout : ℤ → Setting
with_strict_handler_timeout d r = record r { strict_handler_timeout = d }

unfoldable with_default_request_timeout : ℤ → Setting
with_default_request_timeout d r =
    if is_positive d then record r { default_request_timeout = d } else r

unfoldable with_channel_buffer : ℤ → Setting
with_channel_buffer n r = if is_positive n then record r { proto_channel_buffer = n } else r

unfoldable with_transport : Option ℕ → Option ℕ → Setting
with_transport layer session r = record r {
  network_layer = elim layer [ none ↦ r.network_layer | some l ↦ some l ];
  session_layer = elim session [ none ↦ r.session_layer | some s ↦ some s ];
}

abbrev zero_options : Options
zero_options = record {
  strict = false;
  strict_handler_timeout = pos 0;
  proto_channel_buffer = pos 0;
  default_request_timeout = pos 0;
  network_layer = none;
  session_layer = none;
}

-- The loop over the options in New, on a runtime whose fields they set are zero.
unfoldable apply_all : List Setting → Setting
apply_all [] r = r
apply_all (opt ∷ opts) r = apply_all opts (opt r)

unfoldable pub new : List Setting → Options
unfolding apply_all
new opts = apply_all opts zero_options

-- The timeout of SendRequestWithTimeout; SendRequest passes 0.
unfoldable pub request_timeout : ℤ → Options → ℤ
request_timeout timeout r =
    if is_positive timeout
    then timeout
    else if is_positive r.default_request_timeout
    then r.default_request_timeout
    else default_request_timeout_value

-- The capacity of a protocol's channels, in newProtoProtocol.
unfoldable pub channel_capacity : Options → ℤ
channel_capacity r =
    if is_positive r.proto_channel_buffer
    then r.proto_channel_buffer
    else default_proto_channel_buffer

-- Whether strictWatchdog arms a timer.
unfoldable pub watchdog_armed : Options → Bool
watchdog_armed r = r.strict && is_positive r.strict_handler_timeout
