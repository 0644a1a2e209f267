-- ===== src/Protorun/Ipc/Once.antt =====
-- pkg/protorun/ipc.go and protocol.go: how often the callback of a request runs.
use go_simple_protocol_runti.Common.{
  ℕ, suc, ◌+◌, ◌≡◌, refl, List, [], ◌∷◌, Bool, true, false, not, ◌&&◌, Option, none, some,
  if◌then◌else◌, ◌==◌, nat_eq, lookup, insert, Option-cases, Bool-cases, inl, inr,
}
use go_simple_protocol_runti.Errors.{
  Error, sentinel, message, wrap, wrap_both, no_request_handler, request_timeout, responder_failed,
  handler_panicked,
}
use go_simple_protocol_runti.Protorun.Ipc.{
  ReplyToken, InboundRequest, InboundReply, RequestRoute, ProtoProtocol, System, new_system,
  at_protocol, push_reply, push_request, register_pending, take_reply, deliver_reply, is_armed,
  register_request_handler, send_request, timeout_fires, run_handler, take_request, respond, reply,
  fail, handler_panics, disarm,
}
use go_simple_protocol_runti.Protorun.Ipc.Steps.{
  Call, registers, sends, times_out, takes_request, takes_reply, replies, fails, panics, cancels,
  step, run,
}
use go_simple_protocol_runti.Protorun.Ipc.Proto.{
  Once, times_called, waiting, handed_out, new_proto-Once, register_pending-Once, take_reply-Once,
}

module _ (Req Rep : Type 0) (accepts : ℕ → Req → Bool) where
  abbrev S : Type 0
  S = System Req Rep accepts

  abbrev P : Type 0
  P = ProtoProtocol Req Rep accepts

  -- Every protocol's accounts balance.
  abbrev pub AllOnce : S → Type 0
  AllOnce s = (p : ℕ) → Once Req Rep accepts (s.protocols p)

  pub at_protocol-AllOnce :
      (p : ℕ) (f : P → P) (s : S)
      → ((v : P) → Once Req Rep accepts v → Once Req Rep accepts (f v))
      → AllOnce s
      → AllOnce (at_protocol Req Rep accepts p f s)
  unfolding at_protocol
  at_protocol-AllOnce p f s keep h q = elim (Bool-cases (p == q)) [
    | inl same ↦ rw same (keep (s.protocols q) (h q))
    | inr other ↦ rw other (h q)
  ]

  deliver_reply-AllOnce :
      (wins : Bool) (t : ReplyToken) (rep : Option Rep) (e : Option Error) (s : S)
      → AllOnce s
      → AllOnce (deliver_reply Req Rep accepts wins t rep e s)
  unfolding deliver_reply push_reply
  deliver_reply-AllOnce wins t rep e s h = go (s.cancelled && not wins)
    where
      c : InboundReply Req Rep accepts
      c = record { request_id = t.request_id; rep = rep; err = e }

      go :
          (b : Bool)
          → AllOnce (
              if b
              then s
              else at_protocol Req Rep accepts t.requester (push_reply Req Rep accepts c) s)
      go true = h
      go false = at_protocol-AllOnce t.requester (push_reply Req Rep accepts c) s (λ v w. w) h

  send_request-AllOnce :
      (wins : Bool) (p w : ℕ) (req : Req) (s : S)
      → AllOnce s
      → AllOnce (send_request Req Rep accepts wins p w req s)
  unfolding send_request push_request
  send_request-AllOnce wins p w req s h = go (lookup w s.request_routes) refl
    where
      t : ReplyToken
      t = record { requester = p; request_id = suc (s.protocols p).next_request_id }

      s₁ : S
      s₁ = at_protocol Req Rep accepts p (register_pending Req Rep accepts w) s

      registered : AllOnce s₁
      registered =
          at_protocol-AllOnce p (register_pending Req Rep accepts w) s
            (register_pending-Once Req Rep accepts w) h

      go :
          (o : Option (RequestRoute Req Rep accepts))
          → lookup w s.request_routes ≡ o
          → AllOnce (send_request Req Rep accepts wins p w req s)
      go none e =
          rw (e, send_request)
            (deliver_reply-AllOnce wins t none (some (sentinel no_request_handler)) s₁ registered)
      go (some route) e = rw (e, send_request) (branch (s₁.cancelled && not wins))
        where
          s₂ : S
          s₂ = record s₁ { timeouts = t ∷ s₁.timeouts }

          event : InboundRequest Req Rep accepts
          event = record { req = req; token = t; handler = route.handler }

          branch :
              (b : Bool)
              → AllOnce (
                  if b
                  then s₂
                  else at_protocol Req Rep accepts route.proto
                      (push_request Req Rep accepts event)
                      s₂)
          branch true = registered
          branch false =
              at_protocol-AllOnce route.proto (push_request Req Rep accepts event) s₂ (λ v u. u)
                registered

  pub timeout_fires-AllOnce :
      (wins : Bool) (t : ReplyToken) (s : S)
      → AllOnce s
      → AllOnce (timeout_fires Req Rep accepts wins t s)
  unfolding timeout_fires
  timeout_fires-AllOnce wins t s h = elim (Bool-cases (is_armed t s.timeouts)) [
    | inl armed ↦
        rw (armed, timeout_fires)
          (deliver_reply-AllOnce wins t none (some (sentinel request_timeout))
            (record s { timeouts = disarm t s.timeouts }) h)
    | inr not_armed ↦ rw (not_armed, timeout_fires) h
  ]

  run_handler-AllOnce :
      (wins : Bool) (event : InboundRequest Req Rep accepts) (s : S)
      → AllOnce s
      → AllOnce (run_handler Req Rep accepts wins event s)
  unfolding run_handler
  run_handler-AllOnce wins event s h = elim (Bool-cases (accepts event.handler event.req)) [
    | inl typed ↦ rw (typed, run_handler) h
    | inr mismatch ↦
        rw (mismatch, run_handler)
          (deliver_reply-AllOnce wins event.token none
            (some (message "protorun: request type mismatch")) s h)
  ]

  take_request-AllOnce :
      (wins : Bool) (p : ℕ) (s : S) → AllOnce s → AllOnce (take_request Req Rep accepts wins p s)
  unfolding take_request
  take_request-AllOnce wins p s h = go (s.protocols p).request_events refl
    where
      go :
          (l : List (InboundRequest Req Rep accepts))
          → (s.protocols p).request_events ≡ l
          → AllOnce (take_request Req Rep accepts wins p s)
      go [] e = rw (e, take_request) h
      go (event ∷ rest) e =
          rw (e, take_request)
            (run_handler-AllOnce wins event
              (at_protocol Req Rep accepts p (λ v. record v { request_events = rest }) s)
              (at_protocol-AllOnce p (λ v. record v { request_events = rest }) s (λ v u. u) h))

  respond-AllOnce :
      (wins : Bool) (k : ℕ) (rep : Option Rep) (e : Option Error) (s : S)
      → AllOnce s
      → AllOnce (respond Req Rep accepts wins k rep e s)
  unfolding respond
  respond-AllOnce wins k rep e s h = elim (Option-cases (lookup k s.responders)) [
    | inl unknown ↦ rw (unknown, respond) h
    | inr (r, known) ↦ elim (Bool-cases r.done) [
      | inl done ↦ rw (known, done, respond) h
      | inr open_still ↦
          rw (known, open_still, respond)
            (deliver_reply-AllOnce wins r.token rep e
              (record s { responders = insert k (record r { done = true }) s.responders }) h)
    ]
  ]

  pub step-AllOnce :
      (c : Call Req Rep accepts) (s : S) → AllOnce s → AllOnce (step Req Rep accepts c s)
  unfolding step reply fail handler_panics register_request_handler
  step-AllOnce (registers w p k) s h = h
  step-AllOnce (sends wins p w req) s h = send_request-AllOnce wins p w req s h
  step-AllOnce (times_out wins t) s h = timeout_fires-AllOnce wins t s h
  step-AllOnce (takes_request wins p) s h = take_request-AllOnce wins p s h
  step-AllOnce (takes_reply p) s h =
      at_protocol-AllOnce p (take_reply Req Rep accepts) s (take_reply-Once Req Rep accepts) h
  step-AllOnce (replies wins k rep) s h = respond-AllOnce wins k (some rep) none s h
  step-AllOnce (fails wins k e) s h =
      respond-AllOnce wins k none (some (wrap_both (sentinel responder_failed) e)) s h
  step-AllOnce (panics wins k m) s h =
      respond-AllOnce wins k none
        (some (wrap_both (sentinel responder_failed) (wrap m (sentinel handler_panicked)))) s h
  step-AllOnce cancels s h = h

  pub run-AllOnce :
      (cs : List (Call Req Rep accepts)) (s : S) → AllOnce s → AllOnce (run Req Rep accepts cs s)
  unfolding run
  run-AllOnce [] s h = h
  run-AllOnce (c ∷ cs) s h = run-AllOnce cs (step Req Rep accepts c s) (step-AllOnce c s h)

  pub new_system-AllOnce : AllOnce (new_system Req Rep accepts)
  unfolding new_system
  new_system-AllOnce p = new_proto-Once Req Rep accepts

  -- From a new system, after any sequence of calls and events, timeouts, panics and a shutdown
  -- included: a request id that its protocol has handed out is either waiting and its callback has
  -- not run, or its callback has run exactly once; an id that was not handed out has done neither.
  pub callbacks_run_once :
      (cs : List (Call Req Rep accepts)) (p id : ℕ)
      → let v = (run Req Rep accepts cs (new_system Req Rep accepts)).protocols p in
        times_called Req Rep accepts id v.called + waiting Req Rep accepts id v
        ≡ handed_out Req Rep accepts id v
  callbacks_run_once cs p id = run-AllOnce cs (new_system Req Rep accepts) new_system-AllOnce p id
