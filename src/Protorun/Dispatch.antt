-- ===== src/Protorun/Dispatch.antt =====
-- pkg/protorun/runtime.go, dispatchSessionEvent and fanoutSessionEvent: what the protocols of a
-- runtime learn of its sessions. `budget` is how many of the guarded sends to a mailbox the
-- runtime's context still lets through, `none` for all of them.
pub mod Reported
pub mod Examples
use go_simple_protocol_runti.Common.{
  ℕ, zero, suc, List, [], ◌∷◌, ◌++◌, Bool, true, false, Option, none, some, if◌then◌else◌,
}
use go_simple_protocol_runti.Transport.Host.{Host}
use go_simple_protocol_runti.Transport.Session.{
  SessionEvent, session_connected, session_disconnected, session_failed, session_version_mismatch,
}
use go_simple_protocol_runti.Protorun.Floats.{Floats}
use go_simple_protocol_runti.Protorun.Retry.{
  Retries, on_session_up_for_retry, on_session_down_for_retry,
}

-- The runtime's sessionEvent, one constructor for each kind.
pub data ProtocolEvent : Type 0 where
  connected_event disconnected_event : Host → ProtocolEvent
  given_up_event : Host → ℕ → ProtocolEvent

-- Whether the fan-out reached all mailboxes, the budget that is left, and the mailboxes.
unfoldable pub fanout_session_event :
    ProtocolEvent
    → Option ℕ
    → List (List ProtocolEvent)
    → Bool × Option ℕ × List (List ProtocolEvent)
fanout_session_event ev budget [] = (true, budget, [])
fanout_session_event ev none (box ∷ boxes) =
    let (fine, left, boxes') = fanout_session_event ev none boxes in
    (fine, left, (box ++ (ev ∷ [])) ∷ boxes')
fanout_session_event ev (some zero) (box ∷ boxes) = (false, some zero, box ∷ boxes)
fanout_session_event ev (some (suc n)) (box ∷ boxes) =
    let (fine, left, boxes') = fanout_session_event ev (some n) boxes in
    (fine, left, (box ++ (ev ∷ [])) ∷ boxes')

module _ (F : Floats) where
  open F use {Float}

  -- `mailboxes` holds a sessionEvents channel for each protocol.
  pub record Dispatcher : Type 0 where
    pub retries : Retries F
    pub budget : Option ℕ
    pub mailboxes : List (List ProtocolEvent)

  unfoldable pub fan_out : ProtocolEvent → Dispatcher → Bool × Dispatcher
  unfolding fanout_session_event
  fan_out ev d =
      let (fine, left, boxes) = fanout_session_event ev d.budget d.mailboxes in
      (fine, record d { budget = left; mailboxes = boxes })

  -- `random` is what rand.Float64 returns if a backoff is scheduled.
  unfoldable pub dispatch_session_event : SessionEvent → Float → Dispatcher → Bool × Dispatcher
  unfolding fan_out
  dispatch_session_event (session_connected host) random d =
      fan_out (connected_event host)
        (record d { retries = (on_session_up_for_retry F host d.retries).1 })
  dispatch_session_event (session_disconnected host) random d =
      let (give_up, attempts, retries) = on_session_down_for_retry F host random d.retries in
      let d₁ : Dispatcher = record d { retries = retries } in
      if give_up
      then (let (fine, d₂) = fan_out (given_up_event host attempts) d₁ in
          if fine then fan_out (disconnected_event host) d₂ else (false, d₂))
      else fan_out (disconnected_event host) d₁
  dispatch_session_event (session_failed host) random d =
      let (give_up, attempts, retries) = on_session_down_for_retry F host random d.retries in
      let d₁ : Dispatcher = record d { retries = retries } in
      if give_up then fan_out (given_up_event host attempts) d₁ else (true, d₁)
  dispatch_session_event (session_version_mismatch host version) random d = (true, d)

  -- The event pump of startSessionEvents, which stops at the first cut.
  unfoldable pub pump : List (SessionEvent × Float) → Dispatcher → Bool × Dispatcher
  pump [] d = (true, d)
  pump ((ev, random) ∷ evs) d =
      let (fine, d') = dispatch_session_event ev random d in
      let later = pump evs d' in if fine then later else (false, d')
