-- ===== src/Protorun/Ipc.antt =====
-- pkg/protorun/ipc.go with its ends in runtime.go (deliverReply, sendRequest) and protocol.go
-- (deliverReply): requests between the protocols of one runtime. A protocol, a handler and a
-- responder are pointers in the source and numbers here. A mailbox is a queue: a send that blocks on
-- a full channel is the same step taken later. Once the runtime's context is over, a guarded send may
-- go either way: `wins` says whether the channel was chosen.
pub mod Steps
pub mod Typed
pub mod Proto
pub mod Once
pub mod Answered
pub mod Completes
pub mod Examples
use Prim.Native.String.{String}
use go_simple_protocol_runti.Common.{
  ℕ, zero, suc, List, [], ◌∷◌, ◌++◌, Bool, true, false, not, ◌&&◌, ◌||◌, Option, none, some,
  if◌then◌else◌, ◌==◌, nat_eq, nat_beq, Map, lookup, insert, delete,
}
use go_simple_protocol_runti.Errors.{
  Error, sentinel, message, wrap, wrap_both, errors_is, no_request_handler, request_timeout,
  responder_failed, handler_panicked,
}

pub record ReplyToken : Type 0 where
  pub requester : ℕ
  pub request_id : ℕ

abbrev pub token_beq : ReplyToken → ReplyToken → Bool
token_beq a b = nat_beq a.requester b.requester && nat_beq a.request_id b.request_id

-- Tokens of the time.AfterFunc timeouts that have still to run.
unfoldable pub is_armed : ReplyToken → List ReplyToken → Bool
is_armed t [] = false
is_armed t (u ∷ us) = token_beq t u || is_armed t us

unfoldable pub disarm : ReplyToken → List ReplyToken → List ReplyToken
disarm t [] = []
disarm t (u ∷ us) = if token_beq t u then disarm t us else u ∷ disarm t us

-- The "result" attribute of a completed request.
pub data ResultLabel : Type 0 where
  success timeout no_handler panicked failed other : ResultLabel

unfoldable pub reply_result_label : Option Error → ResultLabel
reply_result_label none = success
reply_result_label (some e) =
    if errors_is request_timeout e
    then timeout
    else if errors_is no_request_handler e
    then no_handler
    else if errors_is handler_panicked e
    then panicked
    else if errors_is responder_failed e
    then failed
    else other

-- `Rep` is the type of replies; `accepts h q` says whether request `q` has the type that handler `h`
-- was registered for.
module _ (Req Rep : Type 0) (accepts : ℕ → Req → Bool) where
  pub record InboundRequest : Type 0 where
    pub req : Req
    pub token : ReplyToken
    pub handler : ℕ

  pub record InboundReply : Type 0 where
    pub request_id : ℕ
    pub rep : Option Rep
    pub err : Option Error

  pub record PendingRequest : Type 0 where
    pub wire_id : ℕ

  pub record RequestRoute : Type 0 where
    pub proto : ℕ
    pub handler : ℕ

  pub record Responder : Type 0 where
    pub token : ReplyToken
    pub done : Bool

  -- A protocol's end of the IPC. `called` logs the callbacks that ran, last first, each with its
  -- request's id and what it was given.
  pub record ProtoProtocol : Type 0 where
    pub next_request_id : ℕ
    pub pending : Map ℕ PendingRequest
    pub request_events : List InboundRequest
    pub reply_events : List InboundReply
    pub called : List InboundReply

  pub record System : Type 0 where
    pub request_routes : Map ℕ RequestRoute
    pub protocols : ℕ → ProtoProtocol
    pub timeouts : List ReplyToken
    pub responders : Map ℕ Responder
    pub next_responder : ℕ
    pub cancelled : Bool

  unfoldable pub new_proto : ProtoProtocol
  new_proto = record {
    next_request_id = 0;
    pending = [];
    request_events = [];
    reply_events = [];
    called = [];
  }

  unfoldable pub new_system : System
  unfolding new_proto
  new_system = record {
    request_routes = [];
    protocols = λ p. new_proto;
    timeouts = [];
    responders = [];
    next_responder = 0;
    cancelled = false;
  }

  -- Changes protocol `p`.
  unfoldable pub at_protocol : ℕ → (ProtoProtocol → ProtoProtocol) → System → System
  at_protocol p f s = record s {
    protocols = λ q. if p == q then f (s.protocols q) else s.protocols q;
  }

  unfoldable pub push_reply : InboundReply → ProtoProtocol → ProtoProtocol
  push_reply rep p = record p { reply_events = p.reply_events ++ (rep ∷ []) }

  unfoldable pub push_request : InboundRequest → ProtoProtocol → ProtoProtocol
  push_request req p = record p { request_events = p.request_events ++ (req ∷ []) }

  -- Takes the next request id and registers the pending entry.
  unfoldable pub register_pending : ℕ → ProtoProtocol → ProtoProtocol
  register_pending wire_id p = record p {
    next_request_id = suc p.next_request_id;
    pending = insert (suc p.next_request_id) (record { wire_id = wire_id }) p.pending;
  }

  -- protoProtocol.deliverReply
  unfoldable pub handle_reply : InboundReply → ProtoProtocol → ProtoProtocol
  handle_reply rep p = elim (lookup rep.request_id p.pending) [
    | none ↦ p
    | some _ ↦ record p { pending = delete rep.request_id p.pending; called = rep ∷ p.called }
  ]

  -- The event loop takes the oldest reply.
  unfoldable pub take_reply : ProtoProtocol → ProtoProtocol
  unfolding handle_reply
  take_reply p = elim p.reply_events [
    | [] ↦ p
    | rep ∷ rest ↦ handle_reply rep (record p { reply_events = rest })
  ]

  -- Runtime.deliverReply
  unfoldable pub deliver_reply : Bool → ReplyToken → Option Rep → Option Error → System → System
  unfolding at_protocol push_reply
  deliver_reply wins token rep err s =
      if s.cancelled && not wins
      then s
      else at_protocol token.requester
          (push_reply (record { request_id = token.request_id; rep = rep; err = err })) s

  -- ipcRouter.RegisterRequestRoute: the route that was there, and the new table.
  unfoldable pub register_request_route : ℕ → ℕ → ℕ → System → Option RequestRoute × System
  register_request_route wire_id proto handler s = (
    lookup wire_id s.request_routes,
    record s {
      request_routes =
          insert wire_id (record { proto = proto; handler = handler }) s.request_routes;
    },
  )

  -- protocolContext.registerRequestHandler in the registering phase. What was there is only logged, or
  -- in strict mode makes it panic, when the route has been replaced already.
  unfoldable pub register_request_handler : ℕ → ℕ → ℕ → System → System
  unfolding register_request_route
  register_request_handler wire_id proto handler s =
      (register_request_route wire_id proto handler s).1

  unfoldable pub send_request : Bool → ℕ → ℕ → Req → System → System
  unfolding at_protocol register_pending deliver_reply push_request
  send_request wins requester wire_id req s =
      let id = suc (s.protocols requester).next_request_id in
      let token : ReplyToken = record { requester = requester; request_id = id } in
      let s₁ = at_protocol requester (register_pending wire_id) s in
      elim (lookup wire_id s.request_routes) [
        | none ↦ deliver_reply wins token none (some (sentinel no_request_handler)) s₁
        | some route ↦
            let s₂ = record s₁ { timeouts = token ∷ s₁.timeouts } in
            if s₂.cancelled && not wins
            then s₂
            else at_protocol route.proto
                (push_request (record { req = req; token = token; handler = route.handler })) s₂
      ]

  -- The callback of a request's time.AfterFunc.
  unfoldable pub timeout_fires : Bool → ReplyToken → System → System
  unfolding is_armed disarm deliver_reply
  timeout_fires wins token s =
      if is_armed token s.timeouts
      then deliver_reply wins token none (some (sentinel request_timeout))
          (record s { timeouts = disarm token s.timeouts })
      else s

  -- The closure that RegisterRequestHandler installs, up to the call of the user's function: what
  -- that does with its responder are the calls below.
  unfoldable pub run_handler : Bool → InboundRequest → System → System
  unfolding deliver_reply
  run_handler wins event s =
      if not (accepts event.handler event.req)
      then deliver_reply wins event.token none (some (message "protorun: request type mismatch")) s
      else record s {
        responders =
            insert s.next_responder (record { token = event.token; done = false }) s.responders;
        next_responder = suc s.next_responder;
      }

  -- The event loop of `p` takes the oldest request.
  unfoldable pub take_request : Bool → ℕ → System → System
  unfolding run_handler at_protocol
  take_request wins p s = elim (s.protocols p).request_events [
    | [] ↦ s
    | event ∷ rest ↦
        run_handler wins event (at_protocol p (λ v. record v { request_events = rest }) s)
  ]

  -- responder.Reply and responder.Fail, which differ in what they deliver.
  unfoldable pub respond : Bool → ℕ → Option Rep → Option Error → System → System
  unfolding deliver_reply
  respond wins k rep err s = elim (lookup k s.responders) [
    | none ↦ s
    | some r ↦
        if r.done
        then s
        else deliver_reply wins r.token rep err
            (record s { responders = insert k (record r { done = true }) s.responders })
  ]

  unfoldable pub reply : Bool → ℕ → Rep → System → System
  unfolding respond
  reply wins k rep s = respond wins k (some rep) none s

  unfoldable pub fail : Bool → ℕ → Error → System → System
  unfolding respond
  fail wins k e s = respond wins k none (some (wrap_both (sentinel responder_failed) e)) s

  -- The recover of the handler's closure.
  unfoldable pub handler_panics : Bool → ℕ → String → System → System
  unfolding fail
  handler_panics wins k recovered s = fail wins k (wrap recovered (sentinel handler_panicked)) s
