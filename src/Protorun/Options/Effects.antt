-- ===== src/Protorun/Options/Effects.antt =====
-- pkg/protorun: what the options of a runtime amount to.
use go_simple_protocol_runti.Common.{ℕ, ◌≡◌, refl, true, false, arith}
use go_simple_protocol_runti.Common.Int.{ℤ, pos, negsuc, int_eq}
use go_simple_protocol_runti.Protorun.Loop.{is_positive}
use go_simple_protocol_runti.Protorun.Options.{
  Options, with_strict, with_strict_handler_timeout, request_timeout, channel_capacity,
  watchdog_armed,
}

-- Whatever options a runtime was made with, a request waits for a positive time and the channels of a
-- protocol have places. Strict mode turned on with no timeout set arms the watchdog, and so does a timeout
-- of 0, meant to turn it off, if it is set before strict mode is turned on; set afterwards, or negative in
-- either order, it turns the watchdog off.
options_have_effect :
    (r : Options) (timeout : ℤ) (n : ℕ)
    → (is_positive (request_timeout timeout r) ≡ true)
      × (is_positive (channel_capacity r) ≡ true)
      × (watchdog_armed (with_strict true (with_strict_handler_timeout (pos 0) r)) ≡ true)
      × (watchdog_armed (with_strict_handler_timeout (pos 0) (with_strict true r)) ≡ false)
      × (watchdog_armed (with_strict true (with_strict_handler_timeout (negsuc n) r)) ≡ false)
unfolding request_timeout channel_capacity watchdog_armed with_strict with_strict_handler_timeout
options_have_effect r timeout n = (ground arith, ground arith, refl, refl, refl)
