-- ===== src/Protorun/Lifecycle/Joined.antt =====
-- pkg/protorun/runtime.go and shutdown.go: Cancel waits for the goroutines that were started, and for no
-- others.
use go_simple_protocol_runti.Common.{
  ℕ, zero, suc, ◌≡◌, refl, List, [], ◌∷◌, Bool, true, nat_eq, arith,
}
use go_simple_protocol_runti.Protorun.Lifecycle.{Protocol}
use go_simple_protocol_runti.Protorun.Lifecycle.Runs.{
  Runtime, new, register, wg_add, go_loops, start_protocols, init_protocols, start_session_events,
  go_tickers, set_periodic_timer, ticker_ends, start, cancel, loop_ends, waits_no_more,
}

-- The operations on a runtime, in any order.
pub data Op : Type 0 where
  registers : Protocol → Op
  starts : Op
  cancels : Op
  ends : Op
  sets_periodic : Op
  ticker_stops : Op

abbrev pub step : Op → Runtime → Runtime
step (registers p) r = register p r
step starts r = (start r).1
step cancels r = (cancel {S = Unit {0}} (λ s. s) (λ s. s) (r, tt)).0
step ends r = loop_ends r
step sets_periodic r = set_periodic_timer r
step ticker_stops r = ticker_ends r

abbrev pub run : List Op → Runtime → Runtime
run [] r = r
run (o ∷ os) r = run os (step o r)

abbrev pub end_loops : ℕ → Runtime → Runtime
end_loops zero r = r
end_loops (suc n) r = end_loops n (loop_ends r)

start-joined : (r : Runtime) → r.wait_group ≡ r.loops → (start r).1.wait_group ≡ (start r).1.loops
unfolding start start_protocols init_protocols start_session_events wg_add go_loops go_tickers
start-joined r joined = ground arith

step-joined :
    (o : Op) (r : Runtime) → r.wait_group ≡ r.loops → (step o r).wait_group ≡ (step o r).loops
unfolding register cancel loop_ends set_periodic_timer ticker_ends
step-joined (registers p) r joined = joined
step-joined starts r joined = start-joined r joined
step-joined cancels r joined = joined
step-joined ends r joined = ground arith
step-joined sets_periodic r joined = ground arith
step-joined ticker_stops r joined = ground arith

run-joined :
    (os : List Op) (r : Runtime) → r.wait_group ≡ r.loops → (run os r).wait_group ≡ (run os r).loops
run-joined [] r joined = joined
run-joined (o ∷ os) r joined = run-joined os (step o r) (step-joined o r joined)

end_loops-drains :
    (n : ℕ) (r : Runtime)
    → r.cancelled ≡ true
    → r.loops ≡ n
    → r.wait_group ≡ n
    → (end_loops n r).wait_group ≡ 0
unfolding loop_ends
end_loops-drains zero r over some_loops count = count
end_loops-drains (suc n) r over some_loops count =
    end_loops-drains n (loop_ends r) (ground arith) (ground arith) (ground arith)

-- After any registrations, starts, cancellations, periodic timers that hooks or handlers set up and ends
-- of goroutines on a new runtime, however a Start or an Init panics, the wait group counts exactly the
-- goroutines that run, those of periodic timers among them; so once Cancel has cancelled the context
-- and each of them has returned, Cancel's wait is over.
pub cancel_waits_for_loops :
    (os : List Op) (strict network session : Bool)
    → ((run os (new strict network session)).wait_group
        ≡ (run os (new strict network session)).loops)
      × (waits_no_more (
            end_loops
              (run os (new strict network session)).loops
              (step cancels (run os (new strict network session))))
          ≡ true)
unfolding new waits_no_more cancel
cancel_waits_for_loops os strict network session =
    let r = run os (new strict network session) in
    let joined = run-joined os (new strict network session) refl in
    let drained = end_loops-drains r.loops (step cancels r) refl refl joined in
    (joined, ground arith)
