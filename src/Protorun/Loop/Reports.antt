-- ===== src/Protorun/Loop/Reports.antt =====
-- pkg/protorun/protocol.go: an event loop outlives the panics of its handlers.
use go_simple_protocol_runti.Common.{
  ℕ, ◌≡◌, refl, sym, ap, ◌∙◌, List, [], ◌∷◌, ◌++◌, Bool, true, false, Option, none, some, nat_eq,
  lookup, arith,
}
use mathlib.Core.List.{append_assoc}
use go_simple_protocol_runti.Transport.Host.{Host}
use go_simple_protocol_runti.Protorun.Loop.{
  Where, in_session_event, in_request, in_reply, in_notification, in_message, in_timer, UserCode,
  Input, done, message_in, timer_in, session_in, request_in, reply_in, notification_in,
  ProtoProtocol, Loop, report_panic, recover, arm, stop_watchdog, safe_call, deliver_session_event,
  handle_message, handle_timer, turn, event_handler,
}

module _ (U : Type 0) (Msg : Type 0) (wire_id_of : Msg → ℕ) where
  abbrev pub Proto : Type 0
  Proto = ProtoProtocol U Msg wire_id_of

  abbrev pub In : Type 0
  In = Input U Msg wire_id_of

  abbrev State : Type 0
  State = Loop U Msg wire_id_of

  abbrev Code : Type 0
  Code = UserCode U Msg wire_id_of

  -- The user code that an input calls, if there is any.
  abbrev code_of : Proto → In → Option (Where × Code)
  code_of p done = none
  code_of p (message_in msg from) = elim (lookup (wire_id_of msg) p.handlers) [
    | none ↦ none
    | some h ↦ some (in_message, h msg from)
  ]
  code_of p (timer_in id) = elim (lookup id p.timer_handlers) [
    | none ↦ none
    | some h ↦ some (in_timer, h)
  ]
  code_of p (session_in ev) = some (in_session_event, deliver_session_event U Msg wire_id_of p ev)
  code_of p (request_in fn) = some (in_request, fn)
  code_of p (reply_in fn) = some (in_reply, fn)
  code_of p (notification_in fn) = some (in_notification, fn)

  -- The state that a call leaves, with what OnPanic did to it, and the panic to report.
  abbrev settle : Proto → Where → Code → U → U × List (Where × ℕ)
  settle p w fn u = elim (fn u).1 [
    | none ↦ ((fn u).0, [])
    | some rec ↦ (
      elim p.on_panic [ none ↦ (fn u).0 | some handler ↦ (handler w rec (fn u).0).0 ],
      (w, rec) ∷ [],
    )
  ]

  abbrev Settled : Type 0
  Settled = U × (List (Where × ℕ) × Bool)

  -- A call that there may be, and then the rest.
  abbrev settle_then : Proto → (U → Settled) → Option (Where × Code) → U → Settled
  settle_then p rest none u = rest u
  settle_then p rest (some (w, fn)) u =
      let (u', panics) = settle p w fn u in
      let (u'', (later, all)) = rest u' in (u'', (later ++ panics, all))

  -- All inputs up to `done` in turn: the user's state, the panics, last first, and whether all were taken.
  abbrev pub settle_all : Proto → List In → U → Settled
  settle_all p [] u = (u, ([], true))
  settle_all p (done ∷ inputs) u = (u, ([], false))
  settle_all p (input ∷ inputs) u = settle_then p (settle_all p inputs) (code_of p input) u

  -- The loop with what some inputs did.
  abbrev pub with_settled : State → Settled → State
  with_settled l (u, (panics, all)) = record l {
    user = u;
    reports = panics ++ l.reports;
    running = all;
  }

  abbrev pub called : Proto → Option (Where × Code) → State → State
  called p none l = l
  called p (some (w, fn)) l = safe_call U Msg wire_id_of p w fn l

  abbrev pub taken : Proto → In → State → State
  taken p done l = record l { running = false }
  taken p input l = called p (code_of p input) l

  safe_call_lem :
      (p : Proto) (w : Where) (fn : Code) (l : State)
      → safe_call U Msg wire_id_of p w fn l ≡ record l {
        user = (settle p w fn l.user).0;
        reports = (settle p w fn l.user).1 ++ l.reports;
      }
  unfolding safe_call arm stop_watchdog recover report_panic
  safe_call_lem p w fn l = ground arith

  -- A turn of the loop calls the input's code, or does nothing.
  turn_lem :
      (p : Proto) (input : In) (l : State) → turn U Msg wire_id_of p input l ≡ taken p input l
  unfolding turn handle_message handle_timer
  turn_lem p done l = refl
  turn_lem p (message_in msg from) l = go (lookup (wire_id_of msg) p.handlers)
    where
      go :
          (found : Option (Msg → Host → Code))
          → elim found [
            | none ↦ l
            | some h ↦ safe_call U Msg wire_id_of p in_message (h msg from) l
          ]
            ≡ called p (elim found [ none ↦ none | some h ↦ some (in_message, h msg from) ]) l
      go none = refl
      go (some h) = refl
  turn_lem p (timer_in id) l = go (lookup id p.timer_handlers)
    where
      go :
          (found : Option Code)
          → elim found [ none ↦ l | some h ↦ safe_call U Msg wire_id_of p in_timer h l ]
            ≡ called p (elim found [ none ↦ none | some h ↦ some (in_timer, h) ]) l
      go none = refl
      go (some h) = refl
  turn_lem p (session_in ev) l = refl
  turn_lem p (request_in fn) l = refl
  turn_lem p (reply_in fn) l = refl
  turn_lem p (notification_in fn) l = refl

  stopped :
      (p : Proto) (inputs : List In) (l : State)
      → l.running ≡ false
      → event_handler U Msg wire_id_of p inputs l ≡ l
  unfolding event_handler
  stopped p [] l over = refl
  stopped p (input ∷ inputs) l over = ground arith

  opened :
      (p : Proto) (input : In) (inputs : List In) (l : State)
      → l.running ≡ true
      → event_handler U Msg wire_id_of p (input ∷ inputs) l
        ≡ event_handler U Msg wire_id_of p inputs (taken p input l)
  unfolding event_handler
  opened p input inputs l runs =
      let turned = ap (event_handler U Msg wire_id_of p inputs) (turn_lem p input l) in ground arith

  go_on :
      (p : Proto) (inputs : List In)
      → ((l : State)
          → l.running ≡ true
          → event_handler U Msg wire_id_of p inputs l ≡ with_settled l (settle_all p inputs l.user))
      → (o : Option (Where × Code)) (l : State) → l.running ≡ true
      → event_handler U Msg wire_id_of p inputs (called p o l)
        ≡ with_settled l (settle_then p (settle_all p inputs) o l.user)
  go_on p inputs later none l runs = later l runs
  go_on p inputs later (some (w, fn)) l runs =
      let (u, panics) = settle p w fn l.user in
      let S = settle_all p inputs u in
      rw (safe_call_lem p w fn l) (
        later (record l { user = u; reports = panics ++ l.reports }) runs
        ∙ ap
            (λ (reports : List (Where × ℕ)). record l {
              user = S.0;
              reports = reports;
              running = S.1.1;
            })
            (sym (append_assoc S.1.0 panics l.reports)))

  -- A running event loop takes its inputs in turn until its context is done, and nothing after that. Each
  -- input calls the handler there is for it on the state that the calls before it left, whether they
  -- panicked or not. The reports that it adds are the panics of these calls, each once, in their order; no
  -- watchdog stays armed, and only `done` ends the loop.
  pub loop_survives_panics :
      (p : Proto) (inputs : List In) (l : State)
      → l.running ≡ true
      → event_handler U Msg wire_id_of p inputs l ≡ with_settled l (settle_all p inputs l.user)
  unfolding event_handler
  loop_survives_panics p [] l runs = ground arith
  loop_survives_panics p (done ∷ inputs) l runs =
      opened p done inputs l runs ∙ stopped p inputs (record l { running = false }) refl
  loop_survives_panics p (message_in msg from ∷ inputs) l runs =
      opened p (message_in msg from) inputs l runs
      ∙ go_on p inputs (loop_survives_panics p inputs) (code_of p (message_in msg from)) l runs
  loop_survives_panics p (timer_in id ∷ inputs) l runs =
      opened p (timer_in id) inputs l runs
      ∙ go_on p inputs (loop_survives_panics p inputs) (code_of p (timer_in id)) l runs
  loop_survives_panics p (session_in ev ∷ inputs) l runs =
      opened p (session_in ev) inputs l runs
      ∙ go_on p inputs (loop_survives_panics p inputs) (code_of p (session_in ev)) l runs
  loop_survives_panics p (request_in fn ∷ inputs) l runs =
      opened p (request_in fn) inputs l runs
      ∙ go_on p inputs (loop_survives_panics p inputs) (some (in_request, fn)) l runs
  loop_survives_panics p (reply_in fn ∷ inputs) l runs =
      opened p (reply_in fn) inputs l runs
      ∙ go_on p inputs (loop_survives_panics p inputs) (some (in_reply, fn)) l runs
  loop_survives_panics p (notification_in fn ∷ inputs) l runs =
      opened p (notification_in fn) inputs l runs
      ∙ go_on p inputs (loop_survives_panics p inputs) (some (in_notification, fn)) l runs
