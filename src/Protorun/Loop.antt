-- ===== src/Protorun/Loop.antt =====
-- The event loop of a protocol: eventHandler, handleMessage, handleTimer, safeCall, reportPanic and
-- deliverSessionEvent of pkg/protorun/protocol.go, and strictWatchdog of strict.go. User code takes the
-- user's state to a new one and may panic; a channel's closures come with the input. A watchdog is armed
-- when a handler starts and stopped when it ends; `watchdogs` counts those armed and not stopped.
pub mod Reports
pub mod Examples
use go_simple_protocol_runti.Common.{
  ℕ, suc, ◌+◌, ◌-◌, List, [], ◌∷◌, Bool, true, false, ◌&&◌, Option, none, some, if◌then◌else◌, ltb,
  ◌==◌, nat_eq, Map, lookup,
}
use go_simple_protocol_runti.Common.Int.{ℤ, pos, negsuc}
use go_simple_protocol_runti.Transport.Host.{Host}

-- The `where` of a report.
pub data Where : Type 0 where
  in_session_event in_request in_reply in_notification in_message in_timer : Where

abbrev pub is_positive : ℤ → Bool
is_positive (pos n) = ltb 0 n
is_positive (negsuc n) = false

module _ (U : Type 0) (Msg : Type 0) (wire_id_of : Msg → ℕ) where
  -- A call of user code: the state after it, and the value it panicked with, if it did.
  abbrev pub UserCode : Type 0
  UserCode = U → U × Option ℕ

  -- A session event, with the methods that the protocol need not have.
  pub data SessionEvent : Type 0 where
    connected disconnected : Host → SessionEvent
    given_up : Host → ℕ → SessionEvent

  pub data Input : Type 0 where
    done : Input
    message_in : Msg → Host → Input
    timer_in : ℕ → Input
    session_in : SessionEvent → Input
    request_in reply_in notification_in : UserCode → Input

  pub record ProtoProtocol : Type 0 where
    pub strict : Bool
    pub strict_handler_timeout : ℤ
    pub handlers : Map ℕ (Msg → Host → UserCode)
    pub timer_handlers : Map ℕ UserCode
    pub on_session_connected : Option (Host → UserCode)
    pub on_session_disconnected : Option (Host → UserCode)
    pub on_session_given_up : Option (Host → ℕ → UserCode)
    -- PanicHandler.OnPanic; a panic in it is swallowed
    pub on_panic : Option (Where → ℕ → UserCode)

  -- `reports` logs what reportPanic logged, last first.
  pub record Loop : Type 0 where
    pub user : U
    pub reports : List (Where × ℕ)
    pub watchdogs : ℕ
    pub running : Bool

  -- strictWatchdog: whether one is armed.
  unfoldable strict_watchdog : ProtoProtocol → Bool
  strict_watchdog p = p.strict && is_positive p.strict_handler_timeout

  unfoldable pub report_panic : ProtoProtocol → Where → ℕ → Loop → Loop
  report_panic p where_ rec l =
      let logged = (where_, rec) ∷ l.reports in
      elim p.on_panic [
        | none ↦ record l { reports = logged }
        | some handler ↦ record l { reports = logged; user = (handler where_ rec l.user).0 }
      ]

  unfoldable pub recover : ProtoProtocol → Where → Option ℕ → Loop → Loop
  unfolding report_panic
  recover p where_ none l = l
  recover p where_ (some rec) l = report_panic p where_ rec l

  unfoldable pub arm : ProtoProtocol → Loop → Loop
  unfolding strict_watchdog
  arm p l = if strict_watchdog p then record l { watchdogs = suc l.watchdogs } else l

  unfoldable pub stop_watchdog : ProtoProtocol → Loop → Loop
  unfolding strict_watchdog
  stop_watchdog p l = if strict_watchdog p then record l { watchdogs = l.watchdogs - 1 } else l

  unfoldable pub safe_call : ProtoProtocol → Where → UserCode → Loop → Loop
  unfolding arm stop_watchdog recover
  safe_call p where_ fn l =
      let armed = arm p l in
      let (user, rec) = fn armed.user in
      stop_watchdog p (recover p where_ rec (record armed { user = user }))

  -- The user code that deliverSessionEvent calls.
  unfoldable pub deliver_session_event : ProtoProtocol → SessionEvent → UserCode
  deliver_session_event p (connected h) u = elim p.on_session_connected [
    | none ↦ (u, none)
    | some handler ↦ handler h u
  ]
  deliver_session_event p (disconnected h) u = elim p.on_session_disconnected [
    | none ↦ (u, none)
    | some handler ↦ handler h u
  ]
  deliver_session_event p (given_up h attempts) u = elim p.on_session_given_up [
    | none ↦ (u, none)
    | some handler ↦ handler h attempts u
  ]

  unfoldable pub handle_message : ProtoProtocol → Msg → Host → Loop → Loop
  unfolding safe_call
  handle_message p msg from l = elim (lookup (wire_id_of msg) p.handlers) [
    | none ↦ l
    | some h ↦ safe_call p in_message (h msg from) l
  ]

  unfoldable pub handle_timer : ProtoProtocol → ℕ → Loop → Loop
  unfolding safe_call
  handle_timer p id l = elim (lookup id p.timer_handlers) [
    | none ↦ l
    | some h ↦ safe_call p in_timer h l
  ]

  -- One turn of the select.
  unfoldable pub turn : ProtoProtocol → Input → Loop → Loop
  unfolding handle_message handle_timer safe_call deliver_session_event
  turn p done l = record l { running = false }
  turn p (message_in msg from) l = handle_message p msg from l
  turn p (timer_in id) l = handle_timer p id l
  turn p (session_in ev) l = safe_call p in_session_event (deliver_session_event p ev) l
  turn p (request_in fn) l = safe_call p in_request fn l
  turn p (reply_in fn) l = safe_call p in_reply fn l
  turn p (notification_in fn) l = safe_call p in_notification fn l

  -- eventHandler, on the inputs in the order in which the select takes them.
  unfoldable pub event_handler : ProtoProtocol → List Input → Loop → Loop
  unfolding turn
  event_handler p [] l = l
  event_handler p (input ∷ inputs) l =
      let next = turn p input l in
      let rest = event_handler p inputs next in if l.running then rest else l
