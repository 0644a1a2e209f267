-- ===== src/Transport/Session/Live/Refines.antt =====
-- pkg/transport/session.go: what the goroutines around the handler loop make of the calls.
use go_simple_protocol_runti.Common.{ℕ, ◌≡◌, List, [], ◌∷◌, ◌++◌, not, ◌&&◌, if◌then◌else◌}
use go_simple_protocol_runti.Transport.Host.{Host}
use go_simple_protocol_runti.Transport.Session.Steps.{Input, send_request, run}
use go_simple_protocol_runti.Transport.Session.Live.{
  Live, taken, Op, calls_send, turns, step, run_ops,
}
use go_simple_protocol_runti.Transport.Session.Live.Thinned.{Follows}

-- The inputs that the handler loop takes in a run.
abbrev pub inputs_of : List Op → Live → List Input
inputs_of [] v = []
inputs_of (turns r wins ∷ os) v =
    let rest = inputs_of os (step (turns r wins) v) in
    if v.handling then taken r v ++ rest else rest
inputs_of (o ∷ os) v = inputs_of os (step o v)

-- The payloads that calls of Send put on the channel, and those that the loop takes from it.
abbrev pub accepted : List Op → Live → List (List ℕ × Host)
accepted [] v = []
accepted (calls_send wins msg h ∷ os) v =
    let rest = accepted os (step (calls_send wins msg h) v) in
    if v.cancelled && not wins then rest else (msg, h) ∷ rest
accepted (o ∷ os) v = accepted os (step o v)

abbrev pub sent_by : List Input → List (List ℕ × Host)
sent_by [] = []
sent_by (send_request msg h ∷ is) = (msg, h) ∷ sent_by is
sent_by (_ ∷ is) = sent_by is

abbrev Sends : List Op → Live → Type 0
Sends os v = sent_by (inputs_of os v) ++ (run_ops os v).send_chan ≡ v.send_chan ++ accepted os v

-- The claim for one list of operations from one state.
abbrev Refined : List Op → Live → Type 0
Refined os v =
    Follows (run_ops os v).cancelled (run_ops os v).layer (run (inputs_of os v) v.layer)
    × Sends os v
