-- ===== src/Protorun/Lifecycle/Runs.antt =====
-- The life of a runtime: New, Register, start, startProtocols, initProtocols, startSessionEvents, Cancel and
-- Run of pkg/protorun/runtime.go, and shutdown.go. `loops` counts the goroutines of the wait group that
-- have not ended, and `tickers` those of periodic timers among them. The timers and the retries, which Cancel stops too, are an argument of it.
use go_simple_protocol_runti.Common.{
  ℕ, zero, suc, ◌+◌, ◌-◌, List, [], ◌∷◌, ◌++◌, Bool, true, false, not, ◌&&◌, Option, none, some,
  if◌then◌else◌, ltb, ◌==◌, nat_eq,
}
use go_simple_protocol_runti.Common.Int.{ℤ, pos, negsuc}
use go_simple_protocol_runti.Errors.{
  Sentinel, no_network_layer, no_session_layer, already_cancelled, shutdown_timeout,
}
use go_simple_protocol_runti.Protorun.Messages.{unstarted, phase_cancelled}
use go_simple_protocol_runti.Protorun.Lifecycle.{
  registration, active, unguarded, periodic_timer, Protocol, ProtoProtocol, Made, hook_all,
  start_protocol, init_protocol,
}

pub record Runtime : Type 0 where
  pub strict : Bool
  pub has_network_layer : Bool
  pub has_session_layer : Bool
  pub cancelled : Bool
  pub session_cancelled : Bool
  pub network_cancelled : Bool
  pub protocols : List ProtoProtocol
  pub wait_group : ℕ
  pub loops : ℕ
  pub tickers : ℕ
  pub made : List Made

unfoldable pub new : Bool → Bool → Bool → Runtime
new strict network session = record {
  strict = strict;
  has_network_layer = network;
  has_session_layer = session;
  cancelled = false;
  session_cancelled = false;
  network_cancelled = false;
  protocols = [];
  wait_group = 0;
  loops = 0;
  tickers = 0;
  made = [];
}

-- Register: newProtoProtocol and registerProtocol.
unfoldable pub register : Protocol → Runtime → Runtime
register impl r = record r {
  protocols =
      r.protocols
      ++ (record { protocol = impl; bound = true; has_context = false; phase = unstarted } ∷ []);
}

-- wg.Add(n)
unfoldable pub wg_add : ℕ → Runtime → Runtime
wg_add n r = record r { wait_group = r.wait_group + n }

-- n goroutines, each of which ends with wg.Done().
unfoldable pub go_loops : ℕ → Runtime → Runtime
go_loops n r = record r { loops = r.loops + n }

-- The goroutine of a periodic timer: setupPeriodicTimer's wg.Go.
unfoldable pub go_tickers : ℕ → Runtime → Runtime
go_tickers n r = record r {
  wait_group = r.wait_group + n;
  loops = r.loops + n;
  tickers = r.tickers + n;
}

-- The periodic timers that the logged calls set up.
unfoldable pub timers_set : List Made → ℕ
timers_set [] = 0
timers_set (m ∷ made) =
    (elim m.call [ registration ↦ 0 | active ↦ 0 | unguarded ↦ 0 | periodic_timer ↦ 1 ])
    + timers_set made

-- Whether a Start panicked. The log only grows: what the hooks add to it are their own calls.
unfoldable pub start_protocols : Runtime → Bool × Runtime
unfolding hook_all start_protocol wg_add go_loops go_tickers timers_set
start_protocols r =
    let progress = hook_all (start_protocol r.strict) 0 r.protocols r.made in
    (
      progress.panicked,
      go_loops progress.returned (
          wg_add progress.returned (
            go_tickers (timers_set progress.made - timers_set r.made)
              (record r { protocols = progress.protocols; made = progress.made }))),
    )

unfoldable pub init_protocols : Runtime → Bool × Runtime
unfolding hook_all init_protocol go_tickers timers_set
init_protocols r =
    let progress = hook_all (init_protocol r.strict) 0 r.protocols r.made in
    (
      progress.panicked,
      go_tickers (timers_set progress.made - timers_set r.made)
          (record r { protocols = progress.protocols; made = progress.made }),
    )

unfoldable pub start_session_events : Runtime → Runtime
unfolding wg_add go_loops
start_session_events r = if r.has_session_layer then go_loops 1 (wg_add 1 r) else r

pub data Started : Type 0 where
  refused_with : Sentinel → Started
  unwound : Started
  started : Started

-- Runtime.start; `unwound` is a panic that leaves it.
unfoldable pub start : Runtime → Started × Runtime
unfolding start_protocols init_protocols start_session_events wg_add go_loops
start r =
    let (start_panics, r₁) = start_protocols r in
    let (init_panics, r₂) = init_protocols r₁ in
    if not r.has_network_layer
    then (refused_with no_network_layer, r)
    else if not r.has_session_layer
    then (refused_with no_session_layer, r)
    else if r.cancelled
    then (refused_with already_cancelled, r)
    else if start_panics
    then (unwound, r₁)
    else if init_panics
    then (unwound, r₂)
    else (started, go_loops 1 (wg_add 1 (start_session_events r₂)))

-- SetupPeriodicTimer by a handler.
unfoldable pub set_periodic_timer : Runtime → Runtime
unfolding go_tickers
set_periodic_timer r = go_tickers 1 r

-- CancelTimer, or another periodic timer with the same id, ends the goroutine of a periodic timer.
unfoldable pub ticker_ends : Runtime → Runtime
ticker_ends r =
    if not r.cancelled && ltb 0 r.tickers
    then record r { wait_group = r.wait_group - 1; loops = r.loops - 1; tickers = r.tickers - 1 }
    else r

unfoldable cancel_phases : List ProtoProtocol → List ProtoProtocol
cancel_phases [] = []
cancel_phases (p ∷ ps) = record p { phase = phase_cancelled } ∷ cancel_phases ps

-- Cancel up to wg.Wait.
unfoldable pub cancel {ℓ} : {S : Type ℓ} → (S → S) → (S → S) → Runtime × S → Runtime × S
unfolding cancel_phases
cancel stop_timers retry_teardown (r, s) = (
  record r {
    protocols = cancel_phases r.protocols;
    cancelled = true;
    session_cancelled = if r.has_session_layer then true else r.session_cancelled;
    network_cancelled = if r.has_network_layer then true else r.network_cancelled;
  },
  retry_teardown (stop_timers s),
)

-- A goroutine of the wait group that sees ctx.Done and returns.
unfoldable pub loop_ends : Runtime → Runtime
loop_ends r =
    if r.cancelled && ltb 0 r.loops
    then record r { wait_group = r.wait_group - 1; loops = r.loops - 1 }
    else r

-- Whether wg.Wait returns.
unfoldable pub waits_no_more : Runtime → Bool
waits_no_more r = r.wait_group == 0

-- 30 seconds, in nanoseconds.
abbrev default_shutdown_timeout : ℕ
default_shutdown_timeout = 30000000000

unfoldable effective_timeout : ℤ → ℕ
effective_timeout (pos zero) = default_shutdown_timeout
effective_timeout (pos (suc n)) = suc n
effective_timeout (negsuc n) = default_shutdown_timeout

-- Shutdown, when its Cancel returns after `done_after` nanoseconds, or never; `tie` is the choice of the
-- select when both are ready at once. `none` is the nil error.
unfoldable pub shutdown : Bool → Option ℕ → ℤ → Option Sentinel
unfolding effective_timeout
shutdown tie none timeout = some shutdown_timeout
shutdown tie (some done_after) timeout =
    if ltb done_after (effective_timeout timeout)
    then none
    else if tie && (done_after == effective_timeout timeout)
    then none
    else some shutdown_timeout
