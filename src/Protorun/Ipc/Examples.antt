-- ===== src/Protorun/Ipc/Examples.antt =====
-- A request of pkg/protorun/ipc.go that is taken by its handler and runs out of time.
use go_simple_protocol_runti.Common.{
  ℕ, ◌+◌, ◌≡◌, refl, List, [], ◌∷◌, length, Bool, true, false, lookup, insert,
}
use go_simple_protocol_runti.Protorun.Ipc.{
  System, new_system, new_proto, at_protocol, register_request_handler, send_request,
  register_pending, push_request, take_request, run_handler, timeout_fires,
}
use go_simple_protocol_runti.Protorun.Ipc.Steps.{Call, registers, sends, takes_request, step, run}
use go_simple_protocol_runti.Protorun.Ipc.Proto.{times_called, waiting, handed_out}
use go_simple_protocol_runti.Protorun.Ipc.Once.{callbacks_run_once}
use go_simple_protocol_runti.Protorun.Ipc.Answered.{token_of}
use go_simple_protocol_runti.Protorun.Ipc.Completes.{drain, every_request_completes}

abbrev accepts : ℕ → ℕ → Bool
accepts h req = true

-- Protocol 1 handles wire id 7, protocol 2 asks.
abbrev calls : List (Call ℕ ℕ accepts)
calls = registers 7 1 0 ∷ sends false 2 7 5 ∷ takes_request false 1 ∷ []

abbrev asked : System ℕ ℕ accepts
asked = run ℕ ℕ accepts calls (new_system ℕ ℕ accepts)

runtime_lives : asked.cancelled ≡ false
unfolding run step new_system register_request_handler send_request lookup insert register_pending
    at_protocol push_request take_request run_handler new_proto
runtime_lives = refl

first_is_handed_out : handed_out ℕ ℕ accepts 1 (asked.protocols 2) ≡ 1
unfolding run step new_system register_request_handler send_request lookup insert register_pending
    at_protocol push_request take_request run_handler new_proto
first_is_handed_out = refl

every_request_completes_example :
    let s = timeout_fires ℕ ℕ accepts false (token_of 2 1) asked in
    times_called ℕ ℕ accepts 1
      (drain ℕ ℕ accepts (length (s.protocols 2).reply_events) (s.protocols 2)).called
    ≡ 1
every_request_completes_example =
    every_request_completes ℕ ℕ accepts calls false 2 1 runtime_lives first_is_handed_out

callbacks_run_once_example :
    times_called ℕ ℕ accepts 1 (asked.protocols 2).called
      + waiting ℕ ℕ accepts 1 (asked.protocols 2)
    ≡ handed_out ℕ ℕ accepts 1 (asked.protocols 2)
callbacks_run_once_example = callbacks_run_once ℕ ℕ accepts calls 2 1
