-- ===== src/Protorun/Ipc/Answered.antt =====
-- pkg/protorun/ipc.go: the answers that are on their way to the requests that wait.
use go_simple_protocol_runti.Common.{
  ℕ, suc, ◌≡◌, refl, sym, ◌∙◌, List, [], ◌∷◌, ◌++◌, Bool, true, false, not, ◌&&◌, ◌||◌, Option,
  none, some, if◌then◌else◌, ◌==◌, nat_eq, nat_beq_iff, lookup, insert, lookup-insert, arith,
  Option-cases, Bool-cases, inl, inr,
}
use go_simple_protocol_runti.Errors.{Error, sentinel, message, no_request_handler, request_timeout}
use go_simple_protocol_runti.Protorun.Ipc.{
  ReplyToken, token_beq, InboundRequest, InboundReply, RequestRoute, ProtoProtocol, System,
  at_protocol, push_reply, push_request, register_pending, deliver_reply, is_armed, send_request,
  timeout_fires, run_handler, take_request, respond, disarm,
}
use go_simple_protocol_runti.Protorun.Ipc.Proto.{waiting}

abbrev pub token_of : ℕ → ℕ → ReplyToken
token_of p id = record { requester = p; request_id = id }

pub is_armed-disarm :
    (t u : ReplyToken) (ts : List ReplyToken)
    → is_armed u (disarm t ts) ≡ (if token_beq t u then false else is_armed u ts)
unfolding is_armed disarm
is_armed-disarm t u [] = ground arith
is_armed-disarm t u (w ∷ ts) = ground (
  arith,
  is_armed-disarm t u ts,
  nat_beq_iff t.requester w.requester,
  nat_beq_iff t.request_id w.request_id,
  nat_beq_iff t.requester u.requester,
  nat_beq_iff t.request_id u.request_id,
  nat_beq_iff u.requester w.requester,
  nat_beq_iff u.request_id w.request_id,
)

module _ (Req Rep : Type 0) (accepts : ℕ → Req → Bool) where
  abbrev S : Type 0
  S = System Req Rep accepts

  abbrev P : Type 0
  P = ProtoProtocol Req Rep accepts

  unfoldable pub queued : ℕ → List (InboundReply Req Rep accepts) → Bool
  queued id [] = false
  queued id (c ∷ cs) = (c.request_id == id) || queued id cs

  queued-append :
      (id : ℕ) (cs : List (InboundReply Req Rep accepts)) (c : InboundReply Req Rep accepts)
      → queued id (cs ++ (c ∷ [])) ≡ (queued id cs || (c.request_id == id))
  unfolding queued
  queued-append id [] c = ground arith
  queued-append id (d ∷ cs) c = ground (arith, queued-append id cs c)

  -- Whether an answer to request `id` of protocol `p` is on its way, or the runtime is over.
  abbrev pub answers : ℕ → ℕ → S → Bool
  answers p id s =
      s.cancelled || (is_armed (token_of p id) s.timeouts || queued id (s.protocols p).reply_events)

  abbrev pub Answered : S → Type 0
  Answered s = (p id : ℕ) → waiting Req Rep accepts id (s.protocols p) ≡ 1 → answers p id s ≡ true

  -- The same for all but one request.
  abbrev AnsweredBut : ReplyToken → S → Type 0
  AnsweredBut t s =
      (p id : ℕ)
      → waiting Req Rep accepts id (s.protocols p) ≡ 1
      → (token_beq t (token_of p id) || answers p id s) ≡ true

  Answered-but : (t : ReplyToken) (s : S) → Answered s → AnsweredBut t s
  Answered-but t s h p id w = let old = h p id w in ground arith

  push_reply-Answered :
      (t : ReplyToken) (rep : Option Rep) (e : Option Error) (s : S)
      → AnsweredBut t s
      → Answered (
          at_protocol Req Rep accepts t.requester
            (push_reply Req Rep accepts (record { request_id = t.request_id; rep = rep; err = e }))
            s)
  unfolding push_reply at_protocol
  push_reply-Answered t rep e s h p id = elim (Bool-cases (t.requester == p)) [
    | inl same ↦ rw same (λ w. ground (
      arith,
      h p id w,
      queued-append id (s.protocols p).reply_events
          (record { request_id = t.request_id; rep = rep; err = e }),
    ))
    | inr other ↦ rw other (λ w. ground (arith, h p id w))
  ]

  deliver_reply-Answered :
      (wins : Bool) (t : ReplyToken) (rep : Option Rep) (e : Option Error) (s : S)
      → AnsweredBut t s
      → Answered (deliver_reply Req Rep accepts wins t rep e s)
  unfolding deliver_reply
  deliver_reply-Answered wins t rep e s h = go (s.cancelled && not wins) refl
    where
      c : InboundReply Req Rep accepts
      c = record { request_id = t.request_id; rep = rep; err = e }

      go :
          (b : Bool)
          → (s.cancelled && not wins) ≡ b
          → Answered (
              if b
              then s
              else at_protocol Req Rep accepts t.requester (push_reply Req Rep accepts c) s)
      go true over = λ p id w. ground arith
      go false on = push_reply-Answered t rep e s h

  -- A change of one protocol that keeps what waits and the answers.
  at_protocol-Answered :
      (p : ℕ) (f : P → P) (s : S)
      → ((v : P) (id : ℕ)
          → (waiting Req Rep accepts id (f v) ≡ waiting Req Rep accepts id v)
            × (queued id (f v).reply_events ≡ queued id v.reply_events))
      → Answered s
      → Answered (at_protocol Req Rep accepts p f s)
  unfolding at_protocol
  at_protocol-Answered p f s same h q id = elim (Bool-cases (p == q)) [
    | inl here ↦ rw here (λ w. let (e, r) = same (s.protocols q) id in rw r (h q id (sym e ∙ w)))
    | inr other ↦ rw other (h q id)
  ]

  register_pending-Answered :
      (w p : ℕ) (s : S)
      → Answered s
      → AnsweredBut
          (token_of p (suc (s.protocols p).next_request_id))
          (at_protocol Req Rep accepts p (register_pending Req Rep accepts w) s)
  unfolding at_protocol register_pending
  register_pending-Answered w p s h q id = elim (Bool-cases (p == q)) [
    | inl here ↦ rw here (λ u. ground (
      arith,
      h q id,
      nat_beq_iff p q,
      nat_beq_iff (suc (s.protocols q).next_request_id) id,
      lookup-insert (suc (s.protocols q).next_request_id) id (record { wire_id = w })
          (s.protocols q).pending,
    ))
    | inr other ↦ rw other (λ u. ground (arith, h q id u))
  ]

  pub send_request-Answered :
      (wins : Bool) (p w : ℕ) (req : Req) (s : S)
      → Answered s
      → Answered (send_request Req Rep accepts wins p w req s)
  unfolding send_request push_request is_armed
  send_request-Answered wins p w req s h = go (lookup w s.request_routes) refl
    where
      t : ReplyToken
      t = token_of p (suc (s.protocols p).next_request_id)

      s₁ : S
      s₁ = at_protocol Req Rep accepts p (register_pending Req Rep accepts w) s

      s₂ : S
      s₂ = record s₁ { timeouts = t ∷ s₁.timeouts }

      armed : Answered s₂
      armed q id u =
          let old = register_pending-Answered w p s h q id u in
          ground (
            arith,
            nat_beq_iff p q,
            nat_beq_iff q p,
            nat_beq_iff (suc (s.protocols p).next_request_id) id,
            nat_beq_iff id (suc (s.protocols p).next_request_id),
          )

      go :
          (o : Option (RequestRoute Req Rep accepts))
          → lookup w s.request_routes ≡ o
          → Answered (send_request Req Rep accepts wins p w req s)
      go none e =
          rw (e, send_request)
            (deliver_reply-Answered wins t none (some (sentinel no_request_handler)) s₁
              (register_pending-Answered w p s h))
      go (some route) e = rw (e, send_request) (branch (s₁.cancelled && not wins))
        where
          event : InboundRequest Req Rep accepts
          event = record { req = req; token = t; handler = route.handler }

          branch :
              (b : Bool)
              → Answered (
                  if b
                  then s₂
                  else at_protocol Req Rep accepts route.proto
                      (push_request Req Rep accepts event)
                      s₂)
          branch true = armed
          branch false =
              at_protocol-Answered route.proto (push_request Req Rep accepts event) s₂
                (λ v id. (refl, refl)) armed

  pub timeout_fires-Answered :
      (wins : Bool) (t : ReplyToken) (s : S)
      → Answered s
      → Answered (timeout_fires Req Rep accepts wins t s)
  unfolding timeout_fires
  timeout_fires-Answered wins t s h = elim (Bool-cases (is_armed t s.timeouts)) [
    | inl armed ↦
        rw (armed, timeout_fires)
          (deliver_reply-Answered wins t none (some (sentinel request_timeout))
            (record s { timeouts = disarm t s.timeouts })
            (λ p id w. ground (arith, h p id w, is_armed-disarm t (token_of p id) s.timeouts)))
    | inr not_armed ↦ rw (not_armed, timeout_fires) h
  ]

  run_handler-Answered :
      (wins : Bool) (event : InboundRequest Req Rep accepts) (s : S)
      → Answered s
      → Answered (run_handler Req Rep accepts wins event s)
  unfolding run_handler
  run_handler-Answered wins event s h = elim (Bool-cases (accepts event.handler event.req)) [
    | inl typed ↦ rw (typed, run_handler) h
    | inr mismatch ↦
        rw (mismatch, run_handler)
          (deliver_reply-Answered wins event.token none
            (some (message "protorun: request type mismatch")) s (Answered-but event.token s h))
  ]

  pub take_request-Answered :
      (wins : Bool) (p : ℕ) (s : S) → Answered s → Answered (take_request Req Rep accepts wins p s)
  unfolding take_request
  take_request-Answered wins p s h = go (s.protocols p).request_events refl
    where
      go :
          (l : List (InboundRequest Req Rep accepts))
          → (s.protocols p).request_events ≡ l
          → Answered (take_request Req Rep accepts wins p s)
      go [] e = rw (e, take_request) h
      go (event ∷ rest) e =
          rw (e, take_request)
            (run_handler-Answered wins event
              (at_protocol Req Rep accepts p (λ v. record v { request_events = rest }) s)
              (at_protocol-Answered p (λ v. record v { request_events = rest }) s
                (λ v id. (refl, refl)) h))

  pub respond-Answered :
      (wins : Bool) (k : ℕ) (rep : Option Rep) (e : Option Error) (s : S)
      → Answered s
      → Answered (respond Req Rep accepts wins k rep e s)
  unfolding respond
  respond-Answered wins k rep e s h = elim (Option-cases (lookup k s.responders)) [
    | inl unknown ↦ rw (unknown, respond) h
    | inr (r, known) ↦ elim (Bool-cases r.done) [
      | inl done ↦ rw (known, done, respond) h
      | inr open_still ↦
          rw (known, open_still, respond)
            (deliver_reply-Answered wins r.token rep e
              (record s { responders = insert k (record r { done = true }) s.responders })
              (Answered-but r.token s h))
    ]
  ]
