-- ===== src/Transport/Session/Live.antt =====
-- pkg/transport/session.go: Connect, Disconnect, Send and Cancel, which any goroutine may call, and the
-- select of `handler`, which takes what they put on the channels. Once the context is over, `wins` says
-- whether a select takes the channel all the same. A channel is a queue without a bound.
mod Thinned
pub mod Refines
pub mod Examples
use go_simple_protocol_runti.Common.{
  ℕ, ◌≡◌, refl, sym, ap, ◌∙◌, List, [], ◌∷◌, ◌++◌, Bool, true, false, not, ◌&&◌, if◌then◌else◌,
  Bool-cases, inl, inr, arith,
}
use mathlib.Core.List.{append-nil, append_assoc}
use go_simple_protocol_runti.Transport.Host.{Host}
use go_simple_protocol_runti.Transport.Layer.{Message, TransportEvent}
use go_simple_protocol_runti.Transport.Session.{
  SessionLayer, Output, event, deliver, connects, disconnects, sends,
}
use go_simple_protocol_runti.Transport.Session.Steps.{
  Input, message, transport_event, connect_request, disconnect_request, send_request, handler, run,
}

pub record Live : Type 0 where
  pub layer : SessionLayer
  pub cancelled : Bool
  pub handling : Bool
  pub connect_chan : List Host
  pub disconnect_chan : List Host
  pub send_chan : List (List ℕ × Host)

unfoldable pub connect : Bool → Host → Live → Live
connect wins host v =
    if v.cancelled && not wins then v else record v { connect_chan = v.connect_chan ++ (host ∷ []) }

unfoldable pub disconnect : Bool → Host → Live → Live
disconnect wins host v =
    if v.cancelled && not wins
    then v
    else record v { disconnect_chan = v.disconnect_chan ++ (host ∷ []) }

unfoldable pub send : Bool → List ℕ → Host → Live → Live
send wins msg send_to v =
    if v.cancelled && not wins
    then v
    else record v { send_chan = v.send_chan ++ ((msg, send_to) ∷ []) }

unfoldable pub cancel : Live → Live
cancel v = record v { cancelled = true }

-- What the select of `handler` finds ready; a channel that is empty is not.
pub data Ready : Type 0 where
  context_done from_connect from_disconnect from_send : Ready
  out_channel : Message → Ready
  out_events : TransportEvent → Ready

-- The input that the select takes, if it takes one.
abbrev pub taken : Ready → Live → List Input
taken context_done v = []
taken from_connect v = elim v.connect_chan [ [] ↦ [] | h ∷ rest ↦ connect_request h ∷ [] ]
taken from_disconnect v = elim v.disconnect_chan [ [] ↦ [] | h ∷ rest ↦ disconnect_request h ∷ [] ]
taken from_send v = elim v.send_chan [ [] ↦ [] | m ∷ rest ↦ send_request m.0 m.1 ∷ [] ]
taken (out_channel m) v = message m ∷ []
taken (out_events e) v = transport_event e ∷ []

abbrev pub tail {ℓ} : {A : Type ℓ} → List A → List A
tail [] = []
tail (x ∷ xs) = xs

-- Whether an output goes onto a channel of the session layer, which its context guards. The calls of the
-- transport layer are guarded by that layer's own context.
abbrev pub is_guarded : Output → Bool
is_guarded (event e) = true
is_guarded (deliver m) = true
is_guarded (connects h) = false
is_guarded (disconnects h) = false
is_guarded (sends m h) = false

-- What of the outputs of a turn goes out. Once the context is over, emitEvent and the delivery of a message
-- give up an output of which `wins` says that the select does not take the channel.
unfoldable pub go_out : Bool → List Bool → List Output → List Output
go_out over wins [] = []
go_out over [] (o ∷ os) = o ∷ go_out over [] os
go_out over (w ∷ wins) (o ∷ os) =
    let rest = go_out over wins os in if over && (is_guarded o && not w) then rest else o ∷ rest

-- The handling of the inputs that a turn takes: its outputs are those that the handler makes from an empty
-- log, and some of them may be given up.
unfoldable pub take_in : List Bool → List Input → Live → SessionLayer
unfolding go_out run
take_in wins is v =
    let s = run is (record v.layer { log = [] }) in
    record s { log = go_out v.cancelled wins s.log ++ v.layer.log }

-- One turn of the loop of `handler`. A Cancel in the middle of a turn is one before the turn: a select may
-- still take its input.
unfoldable pub turn : Ready → List Bool → Live → Live
unfolding take_in
turn context_done wins v = if v.cancelled then record v { handling = false } else v
turn from_connect wins v = record v {
  layer = take_in wins (taken from_connect v) v;
  connect_chan = tail v.connect_chan;
}
turn from_disconnect wins v = record v {
  layer = take_in wins (taken from_disconnect v) v;
  disconnect_chan = tail v.disconnect_chan;
}
turn from_send wins v = record v {
  layer = take_in wins (taken from_send v) v;
  send_chan = tail v.send_chan;
}
turn (out_channel m) wins v = record v { layer = take_in wins (taken (out_channel m) v) v }
turn (out_events e) wins v = record v { layer = take_in wins (taken (out_events e) v) v }

pub data Op : Type 0 where
  calls_connect calls_disconnect : Bool → Host → Op
  calls_send : Bool → List ℕ → Host → Op
  cancels : Op
  turns : Ready → List Bool → Op

unfoldable pub step : Op → Live → Live
unfolding connect disconnect send cancel turn
step (calls_connect wins h) v = connect wins h v
step (calls_disconnect wins h) v = disconnect wins h v
step (calls_send wins msg h) v = send wins msg h v
step cancels v = cancel v
step (turns r wins) v = if v.handling then turn r wins v else v

unfoldable pub run_ops : List Op → Live → Live
run_ops [] v = v
run_ops (o ∷ os) v = run_ops os (step o v)
