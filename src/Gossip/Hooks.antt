-- ===== src/Gossip/Hooks.antt =====
-- cmd/gossip/gossip/protocol.go around the handlers: New and EnablePeriodic, what Start registers and Init
-- calls, and the two ways to a broadcast, a request and the tick of the periodic timer.
use go_simple_protocol_runti.Common.{
  ℕ, ◌≡◌, List, [], ◌∷◌, Bool, true, false, not, ◌&&◌, ◌||◌, if◌then◌else◌, nat_eq, arith,
}
use go_simple_protocol_runti.Common.Int.{ℤ, pos}
use go_simple_protocol_runti.Protorun.Loop.{is_positive}
use go_simple_protocol_runti.Gossip.{Protocol, disseminate}

-- The fields that only the periodic broadcast uses; a payload function is there or nil.
pub record Periodic : Type 0 where
  interval : ℤ
  has_payload : Bool

unfoldable pub new : Protocol × Periodic
new = (
  record { seen = []; view = []; delivered = []; sent = [] },
  record { interval = pos 0; has_payload = false },
)

unfoldable enable_periodic : ℤ → Bool → Periodic → Periodic
enable_periodic interval payload p =
    if not (is_positive interval) || not payload
    then p
    else record { interval = interval; has_payload = payload }

unfoldable periodic_enabled : Periodic → Bool
periodic_enabled p = is_positive p.interval && p.has_payload

-- What Start registers, in order.
pub data Registration : Type 0 where
  codec handler view_subscription broadcast_handler tick_handler : Registration

unfoldable pub start : Periodic → List Registration
unfolding periodic_enabled
start p =
    codec
    ∷ handler
    ∷ view_subscription
    ∷ broadcast_handler
    ∷ (if periodic_enabled p then tick_handler ∷ [] else [])

-- What Init calls, in order.
pub data InitCall : Type 0 where
  request_view : InitCall
  setup_periodic_timer : ℤ → InitCall

unfoldable pub init : Periodic → List InitCall
unfolding periodic_enabled
init p = request_view ∷ (if periodic_enabled p then setup_periodic_timer p.interval ∷ [] else [])

-- handleBroadcast, with the replies given, last first: a reply holds nothing.
unfoldable handle_broadcast : ℕ → List ℕ → Protocol × List (Unit {0}) → Protocol × List (Unit {0})
unfolding disseminate
handle_broadcast id payload (p, acks) = (disseminate id payload p, tt ∷ acks)

-- handlePeriodicTick, with the payload that the function returned.
unfoldable handle_periodic_tick : ℕ → List ℕ → Protocol → Protocol
unfolding disseminate
handle_periodic_tick id payload p = disseminate id payload p

abbrev arms_timer : List InitCall → Bool
arms_timer [] = false
arms_timer (request_view ∷ calls) = arms_timer calls
arms_timer (setup_periodic_timer d ∷ calls) = is_positive d || arms_timer calls

abbrev handles_ticks : List Registration → Bool
handles_ticks [] = false
handles_ticks (tick_handler ∷ rs) = true
handles_ticks (_ ∷ rs) = handles_ticks rs

-- However EnablePeriodic was called, Init arms a timer, with a positive interval, exactly if Start has
-- registered its handler.
ticks_are_handled :
    (interval : ℤ) (payload : Bool) (p : Periodic)
    → arms_timer (init (enable_periodic interval payload p))
      ≡ handles_ticks (start (enable_periodic interval payload p))
unfolding init start periodic_enabled
ticks_are_handled interval payload p = ground arith
