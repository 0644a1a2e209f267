-- ===== src/Protorun/Ipc/Completes.antt =====
-- pkg/protorun/ipc.go and protocol.go: how a request ends.
use go_simple_protocol_runti.Common.{
  ℕ, zero, suc, ◌≡◌, refl, sym, ◌∙◌, List, [], ◌∷◌, length, Bool, true, false, Option, none, some,
  if◌then◌else◌, ◌==◌, nat_eq, nat_beq_iff, lookup, lookup-delete, arith, Bool-cases, ◌⊎◌, inl, inr,
}
use go_simple_protocol_runti.Errors.{
  Error, sentinel, wrap, wrap_both, request_timeout, responder_failed, handler_panicked,
}
use go_simple_protocol_runti.Protorun.Ipc.{
  ReplyToken, InboundReply, ProtoProtocol, System, new_system, new_proto, at_protocol, handle_reply,
  take_reply, is_armed, register_request_handler, timeout_fires, reply, fail, handler_panics,
  disarm, deliver_reply, push_reply,
}
use go_simple_protocol_runti.Protorun.Ipc.Steps.{
  Call, registers, sends, times_out, takes_request, takes_reply, replies, fails, panics, cancels,
  step, run,
}
use go_simple_protocol_runti.Protorun.Ipc.Proto.{
  Once, times_called, waiting, handed_out, take_reply-Once,
}
use go_simple_protocol_runti.Protorun.Ipc.Once.{
  run-AllOnce, new_system-AllOnce, timeout_fires-AllOnce,
}
use go_simple_protocol_runti.Protorun.Ipc.Answered.{
  token_of, queued, Answered, send_request-Answered, timeout_fires-Answered, take_request-Answered,
  respond-Answered, is_armed-disarm,
}

module _ (Req Rep : Type 0) (accepts : ℕ → Req → Bool) where
  abbrev S : Type 0
  S = System Req Rep accepts

  abbrev P : Type 0
  P = ProtoProtocol Req Rep accepts

  take_reply-head :
      (v : P) (c : InboundReply Req Rep accepts) (rest : List (InboundReply Req Rep accepts))
      → v.reply_events ≡ c ∷ rest
      → take_reply Req Rep accepts v
        ≡ handle_reply Req Rep accepts c (record v { reply_events = rest })
  unfolding take_reply
  take_reply-head v c rest e = ground arith

  take_reply-nil : (v : P) → v.reply_events ≡ [] → take_reply Req Rep accepts v ≡ v
  unfolding take_reply
  take_reply-nil v e = ground arith

  handle_reply_events :
      (c : InboundReply Req Rep accepts) (v : P)
      → (handle_reply Req Rep accepts c v).reply_events ≡ v.reply_events
  unfolding handle_reply
  handle_reply_events c v = ground arith

  handle_reply_ends :
      (c : InboundReply Req Rep accepts) (v : P) (id : ℕ)
      → waiting Req Rep accepts id (handle_reply Req Rep accepts c v)
        ≡ (if c.request_id == id then 0 else waiting Req Rep accepts id v)
  unfolding handle_reply
  handle_reply_ends c v id =
      ground (arith, lookup-delete c.request_id id v.pending, nat_beq_iff c.request_id id)

  -- Taking the oldest reply ends the request it answers and leaves the others.
  take_reply-cons :
      (v : P) (c : InboundReply Req Rep accepts) (rest : List (InboundReply Req Rep accepts))
      (id : ℕ)
      → v.reply_events ≡ c ∷ rest
      → ((take_reply Req Rep accepts v).reply_events ≡ rest)
        × (waiting Req Rep accepts id (take_reply Req Rep accepts v)
            ≡ (if c.request_id == id then 0 else waiting Req Rep accepts id v))
  take_reply-cons v c rest id e = rw (take_reply-head v c rest e) (
    handle_reply_events c (record v { reply_events = rest }),
    handle_reply_ends c (record v { reply_events = rest }) id,
  )

  -- Taking a reply drops no answer that is still waited for.
  take_reply_keeps :
      (v : P) (id : ℕ)
      → waiting Req Rep accepts id (take_reply Req Rep accepts v) ≡ 1
      → (waiting Req Rep accepts id v ≡ 1)
        × (queued Req Rep accepts id (take_reply Req Rep accepts v).reply_events
            ≡ queued Req Rep accepts id v.reply_events)
  unfolding queued
  take_reply_keeps v id = go v.reply_events refl
    where
      go :
          (l : List (InboundReply Req Rep accepts))
          → v.reply_events ≡ l
          → waiting Req Rep accepts id (take_reply Req Rep accepts v) ≡ 1
          → (waiting Req Rep accepts id v ≡ 1)
            × (queued Req Rep accepts id (take_reply Req Rep accepts v).reply_events
                ≡ queued Req Rep accepts id v.reply_events)
      go [] e = rw (take_reply-nil v e) (λ w. (w, refl))
      go (c ∷ rest) e =
          λ w. let (events, left) = take_reply-cons v c rest id e in (ground arith, ground arith)

  step-Answered :
      (c : Call Req Rep accepts) (s : S)
      → Answered Req Rep accepts s
      → Answered Req Rep accepts (step Req Rep accepts c s)
  unfolding step reply fail handler_panics register_request_handler at_protocol
  step-Answered (registers w p k) s h = h
  step-Answered (sends wins p w req) s h = send_request-Answered Req Rep accepts wins p w req s h
  step-Answered (times_out wins t) s h = timeout_fires-Answered Req Rep accepts wins t s h
  step-Answered (takes_request wins p) s h = take_request-Answered Req Rep accepts wins p s h
  step-Answered (takes_reply p) s h = λ q id. elim (Bool-cases (p == q)) [
    | inl here ↦
        rw here (λ w. let (w', same) = take_reply_keeps (s.protocols q) id w in rw same (h q id w'))
    | inr other ↦ rw other (h q id)
  ]
  step-Answered (replies wins k rep) s h =
      respond-Answered Req Rep accepts wins k (some rep) none s h
  step-Answered (fails wins k e) s h =
      respond-Answered Req Rep accepts wins k none (some (wrap_both (sentinel responder_failed) e))
        s h
  step-Answered (panics wins k m) s h =
      respond-Answered Req Rep accepts wins k none
        (some (wrap_both (sentinel responder_failed) (wrap m (sentinel handler_panicked)))) s h
  step-Answered cancels s h = λ p id w. refl

  run-Answered :
      (cs : List (Call Req Rep accepts)) (s : S)
      → Answered Req Rep accepts s
      → Answered Req Rep accepts (run Req Rep accepts cs s)
  unfolding run
  run-Answered [] s h = h
  run-Answered (c ∷ cs) s h = run-Answered cs (step Req Rep accepts c s) (step-Answered c s h)

  new_system-Answered : Answered Req Rep accepts (new_system Req Rep accepts)
  unfolding new_system new_proto lookup
  new_system-Answered p id w = ground arith

  -- The event loop takes `n` replies.
  unfoldable pub drain : ℕ → P → P
  drain zero v = v
  drain (suc n) v = drain n (take_reply Req Rep accepts v)

  drain-Once : (n : ℕ) (v : P) → Once Req Rep accepts v → Once Req Rep accepts (drain n v)
  unfolding drain
  drain-Once zero v h = h
  drain-Once (suc n) v h =
      drain-Once n (take_reply Req Rep accepts v) (take_reply-Once Req Rep accepts v h)

  waiting_cases :
      (v : P) (id : ℕ) → (waiting Req Rep accepts id v ≡ 0) ⊎ (waiting Req Rep accepts id v ≡ 1)
  waiting_cases v id = ground arith

  drain_ends :
      (l : List (InboundReply Req Rep accepts)) (v : P) (id : ℕ)
      → v.reply_events ≡ l
      → (waiting Req Rep accepts id v ≡ 1 → queued Req Rep accepts id l ≡ true)
      → waiting Req Rep accepts id (drain (length l) v) ≡ 0
  unfolding drain queued
  drain_ends [] v id e h = elim (waiting_cases v id) [
    | inl done ↦ done
    | inr waits ↦ let queue = h waits in ground arith
  ]
  drain_ends (c ∷ rest) v id e h =
      let (events, left) = take_reply-cons v c rest id e in
      drain_ends rest (take_reply Req Rep accepts v) id events
        (λ w. let w' = sym left ∙ w in ground (arith, h))

  -- A delivery changes mailboxes only.
  deliver_reply_keeps :
      (wins : Bool) (t : ReplyToken) (rep : Option Rep) (e : Option Error) (s : S) (p : ℕ)
      → let s' = deliver_reply Req Rep accepts wins t rep e s in
        (s'.cancelled ≡ s.cancelled)
        × (s'.timeouts ≡ s.timeouts)
        × ((s'.protocols p).next_request_id ≡ (s.protocols p).next_request_id)
  unfolding deliver_reply at_protocol push_reply
  deliver_reply_keeps wins t rep e s p = ground arith

  timeout_fires_keeps :
      (wins : Bool) (t : ReplyToken) (s : S) (p : ℕ)
      → let s' = timeout_fires Req Rep accepts wins t s in
        (s'.cancelled ≡ s.cancelled)
        × (is_armed t s'.timeouts ≡ false)
        × ((s'.protocols p).next_request_id ≡ (s.protocols p).next_request_id)
  unfolding timeout_fires
  timeout_fires_keeps wins t s p = elim (Bool-cases (is_armed t s.timeouts)) [
    | inl armed ↦
        let (c, ts, n) =
          deliver_reply_keeps wins t none (some (sentinel request_timeout))
            (record s { timeouts = disarm t s.timeouts }) p in
        rw (armed, timeout_fires)
          (
            c,
            rw (ts, is_armed-disarm t t s.timeouts)
                (ground (
                  arith,
                  nat_beq_iff t.requester t.requester,
                  nat_beq_iff t.request_id t.request_id,
                )),
            n,
          )
    | inr not_armed ↦ rw (not_armed, timeout_fires) (refl, not_armed, refl)
  ]

  drain_next : (n : ℕ) (v : P) → (drain n v).next_request_id ≡ v.next_request_id
  unfolding drain
  drain_next zero v = refl
  drain_next (suc n) v = drain_next n (take_reply Req Rep accepts v) ∙ next v
    where
      next : (v : P) → (take_reply Req Rep accepts v).next_request_id ≡ v.next_request_id
      next v = unfold take_reply handle_reply in ground arith

  -- Once its timeout has run, what still waits for a reply has it in the mailbox.
  timed_out_is_queued :
      (wins : Bool) (p id : ℕ) (s : S)
      → s.cancelled ≡ false
      → Answered Req Rep accepts s
      → let s' = timeout_fires Req Rep accepts wins (token_of p id) s in
        (waiting Req Rep accepts id (s'.protocols p) ≡ 1
          → queued Req Rep accepts id (s'.protocols p).reply_events ≡ true)
  timed_out_is_queued wins p id s on h w =
      let (c, gone, n) = timeout_fires_keeps wins (token_of p id) s p in
      let answer = timeout_fires-Answered Req Rep accepts wins (token_of p id) s h p id w in
      ground arith

  -- As long as the runtime is not cancelled, no request is lost: take any request id that a protocol
  -- of a new system has handed out after any sequence of calls and events. When the time of that
  -- request runs out and the protocol's event loop then takes all that is in its mailbox, the
  -- request's callback has run exactly once.
  pub every_request_completes :
      (cs : List (Call Req Rep accepts)) (wins : Bool) (p id : ℕ)
      → (run Req Rep accepts cs (new_system Req Rep accepts)).cancelled ≡ false
      → handed_out Req Rep accepts id
          ((run Req Rep accepts cs (new_system Req Rep accepts)).protocols p)
        ≡ 1
      → let s =
          timeout_fires Req Rep accepts wins
            (token_of p id)
            (run Req Rep accepts cs (new_system Req Rep accepts)) in
        times_called Req Rep accepts id
          (drain (length (s.protocols p).reply_events) (s.protocols p)).called
        ≡ 1
  every_request_completes cs wins p id on issued =
      let s₀ = run Req Rep accepts cs (new_system Req Rep accepts) in
      let s₁ = timeout_fires Req Rep accepts wins (token_of p id) s₀ in
      let v = s₁.protocols p in
      let n = length v.reply_events in
      let (c, gone, next) = timeout_fires_keeps wins (token_of p id) s₀ p in
      let once =
        drain-Once n v
          (timeout_fires-AllOnce Req Rep accepts wins (token_of p id) s₀
            (run-AllOnce Req Rep accepts cs (new_system Req Rep accepts)
              (new_system-AllOnce Req Rep accepts))
            p)
          id in
      let ended = drain_ends v.reply_events v id refl (
        timed_out_is_queued wins p id s₀ on
          (run-Answered cs (new_system Req Rep accepts) new_system-Answered)) in
      let same = drain_next n v ∙ next in ground arith
