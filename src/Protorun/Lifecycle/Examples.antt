-- ===== src/Protorun/Lifecycle/Examples.antt =====
-- A runtime of pkg/protorun with a protocol that keeps to the phases and one whose Start sends.
use go_simple_protocol_runti.Common.{
  ◌+◌, ◌≡◌, refl, List, [], ◌∷◌, Bool, true, false, ◌&&◌, if◌then◌else◌, All, length,
}
use go_simple_protocol_runti.Protorun.Messages.{running}
use go_simple_protocol_runti.Protorun.Lifecycle.{
  registration, active, periodic_timer, Body, Protocol,
}
use go_simple_protocol_runti.Protorun.Lifecycle.Runs.{
  new, timers_set, start, started, unwound, waits_no_more,
}
use go_simple_protocol_runti.Protorun.Lifecycle.Hooks.{all_return, log_hooks, all_in}
use go_simple_protocol_runti.Protorun.Lifecycle.Strict.{
  register_all, Belongs, start_runs_hooks, strict_calls_belong,
}
use go_simple_protocol_runti.Protorun.Lifecycle.Joined.{
  Op, registers, starts, cancels, ends, sets_periodic, ticker_stops, step, run, end_loops,
  cancel_waits_for_loops,
}

abbrev body : Bool → Body
body false = record { calls = registration ∷ registration ∷ []; panics = false }
body true = record { calls = active ∷ periodic_timer ∷ []; panics = false }

abbrev orderly : Protocol
orderly = record { start_body = body false; init_body = body true }

abbrev hasty : Protocol
hasty = record { start_body = body true; init_body = body true }

start_runs_hooks_example :
    ((start (register_all (orderly ∷ orderly ∷ []) (new true true true))).0 ≡ (
      if all_return true false (orderly ∷ orderly ∷ [])
        && all_return true true (orderly ∷ orderly ∷ [])
      then started
      else unwound))
    × ((all_return true false (orderly ∷ orderly ∷ [])
            && all_return true true (orderly ∷ orderly ∷ []))
          ≡ true
        → ((start (register_all (orderly ∷ orderly ∷ []) (new true true true))).1.protocols
            ≡ all_in true running (orderly ∷ orderly ∷ []))
          × ((start (register_all (orderly ∷ orderly ∷ []) (new true true true))).1.made
              ≡ log_hooks true 0
                  (orderly ∷ orderly ∷ [])
                  (log_hooks false 0 (orderly ∷ orderly ∷ []) []))
          × ((start (register_all (orderly ∷ orderly ∷ []) (new true true true))).1.wait_group
              ≡ (length (orderly ∷ orderly ∷ [])
                  + timers_set
                      (start (register_all (orderly ∷ orderly ∷ []) (new true true true))).1.made)
                + 2))
start_runs_hooks_example = start_runs_hooks true (orderly ∷ orderly ∷ [])

abbrev history : List Op
history =
    registers orderly
    ∷ registers hasty
    ∷ starts
    ∷ sets_periodic
    ∷ starts
    ∷ ticker_stops
    ∷ cancels
    ∷ ends
    ∷ starts
    ∷ []

strict_calls_belong_example : All Belongs (run history (new true true true)).made
unfolding new
strict_calls_belong_example = strict_calls_belong history (new true true true) refl tt

cancel_waits_for_loops_example :
    ((run history (new true true true)).wait_group ≡ (run history (new true true true)).loops)
    × (waits_no_more (
          end_loops
            (run history (new true true true)).loops
            (step cancels (run history (new true true true))))
        ≡ true)
cancel_waits_for_loops_example = cancel_waits_for_loops history true true true
