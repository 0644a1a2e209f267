-- ===== src/Protorun/Ipc/Steps.antt =====
-- The calls and events of pkg/protorun/ipc.go as one sequence of steps.
use Prim.Native.String.{String}
use go_simple_protocol_runti.Common.{ℕ, List, [], ◌∷◌, Bool, true}
use go_simple_protocol_runti.Errors.{Error}
use go_simple_protocol_runti.Protorun.Ipc.{
  ReplyToken, System, at_protocol, take_reply, register_request_handler, send_request,
  timeout_fires, take_request, reply, fail, handler_panics,
}

module _ (Req Rep : Type 0) (accepts : ℕ → Req → Bool) where
  pub data Call : Type 0 where
    registers : ℕ → ℕ → ℕ → Call
    sends : Bool → ℕ → ℕ → Req → Call
    times_out : Bool → ReplyToken → Call
    takes_request : Bool → ℕ → Call
    takes_reply : ℕ → Call
    replies : Bool → ℕ → Rep → Call
    fails : Bool → ℕ → Error → Call
    panics : Bool → ℕ → String → Call
    cancels : Call

  unfoldable pub step : Call → System Req Rep accepts → System Req Rep accepts
  step (registers w p h) s = register_request_handler Req Rep accepts w p h s
  step (sends wins p w req) s = send_request Req Rep accepts wins p w req s
  step (times_out wins token) s = timeout_fires Req Rep accepts wins token s
  step (takes_request wins p) s = take_request Req Rep accepts wins p s
  step (takes_reply p) s = at_protocol Req Rep accepts p (take_reply Req Rep accepts) s
  step (replies wins k rep) s = reply Req Rep accepts wins k rep s
  step (fails wins k e) s = fail Req Rep accepts wins k e s
  step (panics wins k m) s = handler_panics Req Rep accepts wins k m s
  step cancels s = record s { cancelled = true }

  unfoldable pub run : List Call → System Req Rep accepts → System Req Rep accepts
  run [] s = s
  run (c ∷ cs) s = run cs (step c s)
