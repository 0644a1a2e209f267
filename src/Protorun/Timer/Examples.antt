-- ===== src/Protorun/Timer/Examples.antt =====
-- Two protocols that use one TimerID of pkg/protorun/timer.go.
use go_simple_protocol_runti.Common.{◌≡◌, refl, List, [], ◌∷◌, lookup, Member, here}
use go_simple_protocol_runti.Common.Int.{pos, int_eq}
use go_simple_protocol_runti.Protorun.Timer.{
  Scheduled, Timers, Call, sets, expires, calls_back, run, step, setup_timer, stop_existing,
  timer_callback, expire, call_back, find, stop, cancel_timer,
}
use go_simple_protocol_runti.Protorun.Timer.Table.{
  InTime, one_timer_for_an_id, late_callback_hides_timer,
}

abbrev idle : Timers
idle = record {
  ongoing_timers = [];
  ongoing_periodic_timers = [];
  pending = [];
  firing = [];
  periodic = [];
  next_id = 0;
  fired = [];
}

abbrev calls : List Call
calls = sets 1 (pos 7) ∷ expires 0 ∷ sets 1 (pos 5) ∷ calls_back 0 ∷ []

abbrev mine : Scheduled
mine = record { id = 1; owner = 1; timer_id = pos 5 }

abbrev theirs : Scheduled
theirs = record { id = 2; owner = 2; timer_id = pos 5 }

mine_is_pending : Member mine (run calls idle).pending
unfolding run step setup_timer stop_existing lookup expire call_back find stop timer_callback
mine_is_pending = here refl

in_time : InTime calls idle
unfolding run step setup_timer stop_existing lookup expire call_back find stop timer_callback
in_time = (tt, ((refl, tt), tt))

one_timer_for_an_id_example : mine.id ≡ mine.id
one_timer_for_an_id_example =
    one_timer_for_an_id calls idle mine mine refl refl in_time mine_is_pending mine_is_pending refl

late_callback_hides_timer_example :
    Member theirs
      (cancel_timer
        (pos 5)
        (timer_callback 1 (pos 5) (setup_timer 2 (pos 5) (run calls idle)))).pending
unfolding run step setup_timer call_back expire
late_callback_hides_timer_example = late_callback_hides_timer (run calls idle) 2 1 (pos 5)
