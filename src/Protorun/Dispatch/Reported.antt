-- ===== src/Protorun/Dispatch/Reported.antt =====
-- What dispatchSessionEvent of pkg/protorun/runtime.go tells the protocols, against an independent
-- account of the reports.
use mathlib.Core.List.{append-nil, append_assoc}
use go_simple_protocol_runti.Common.{
  ℕ, suc, ◌≡◌, refl, List, [], ◌∷◌, ◌++◌, Bool, true, false, Option, none, some, if◌then◌else◌,
  lookup, arith,
}
use go_simple_protocol_runti.Transport.Host.{Host, host_eq}
use go_simple_protocol_runti.Transport.Session.{
  SessionEvent, session_connected, session_disconnected, session_failed, session_version_mismatch,
}
use go_simple_protocol_runti.Protorun.Floats.{Floats}
use go_simple_protocol_runti.Protorun.Retry.{
  Retries, exhausted, on_session_up_for_retry, on_session_down_for_retry,
}
use go_simple_protocol_runti.Protorun.Dispatch.{
  ProtocolEvent, connected_event, disconnected_event, given_up_event, fanout_session_event,
  Dispatcher, fan_out, dispatch_session_event, pump,
}

abbrev pub appended : List ProtocolEvent → List (List ProtocolEvent) → List (List ProtocolEvent)
appended evs [] = []
appended evs (box ∷ boxes) = (box ++ evs) ∷ appended evs boxes

appended-nil : (boxes : List (List ProtocolEvent)) → appended [] boxes ≡ boxes
appended-nil [] = refl
appended-nil (box ∷ boxes) = ground (arith, append-nil box, appended-nil boxes)

appended-append :
    (evs more : List ProtocolEvent) (boxes : List (List ProtocolEvent))
    → appended more (appended evs boxes) ≡ appended (evs ++ more) boxes
appended-append evs more [] = refl
appended-append evs more (box ∷ boxes) =
    ground (arith, append_assoc box evs more, appended-append evs more boxes)

-- Without a cut, each mailbox gets the event.
fanout_all :
    (ev : ProtocolEvent) (boxes : List (List ProtocolEvent))
    → fanout_session_event ev none boxes ≡ (true, none, appended (ev ∷ []) boxes)
unfolding fanout_session_event
fanout_all ev [] = refl
fanout_all ev (box ∷ boxes) = rw (fanout_all ev boxes) refl

module _ (F : Floats) where
  open F use {Float}

  -- The entries of the retry table that a failure of `host` uses up.
  unfoldable pub gives_up : Host → Retries F → Option ℕ
  gives_up host r = elim (lookup host r.connection_retries) [
    | none ↦ none
    | some st ↦
        if exhausted st.policy.max_attempts (suc st.attempt) then some (suc st.attempt) else none
  ]

  abbrev pub given_up_reports : Host → Option ℕ → List ProtocolEvent
  given_up_reports host none = []
  given_up_reports host (some attempts) = given_up_event host attempts ∷ []

  -- What a session event means to the protocols, given the retry table it meets.
  abbrev pub reports : SessionEvent → Retries F → List ProtocolEvent
  reports (session_connected host) r = connected_event host ∷ []
  reports (session_disconnected host) r =
      given_up_reports host (gives_up host r) ++ (disconnected_event host ∷ [])
  reports (session_failed host) r = given_up_reports host (gives_up host r)
  reports (session_version_mismatch host version) r = []

  -- The retry table after the event.
  abbrev pub retries_after : SessionEvent → Float → Retries F → Retries F
  retries_after (session_connected host) random r = (on_session_up_for_retry F host r).1
  retries_after (session_disconnected host) random r = (on_session_down_for_retry F host random r).2
  retries_after (session_failed host) random r = (on_session_down_for_retry F host random r).2
  retries_after (session_version_mismatch host version) random r = r

  -- A runtime that is not shut down.
  abbrev pub live : Retries F → List (List ProtocolEvent) → Dispatcher F
  live r boxes = record { retries = r; budget = none; mailboxes = boxes }

  fan_out-live :
      (ev : ProtocolEvent) (r : Retries F) (boxes : List (List ProtocolEvent))
      → fan_out F ev (live r boxes) ≡ (true, live r (appended (ev ∷ []) boxes))
  unfolding fan_out
  fan_out-live ev r boxes = rw (fanout_all ev boxes) refl

  down_gives_up :
      (host : Host) (random : Float) (r : Retries F)
      → gives_up host r ≡ (
          if (on_session_down_for_retry F host random r).0
          then some (on_session_down_for_retry F host random r).1
          else none)
  unfolding on_session_down_for_retry gives_up
  down_gives_up host random r = ground arith

  -- The two arms of a lost and of a failed session, for any answer of the retry table.
  lost_reports :
      (host : Host) (gave_up : Bool) (n : ℕ) (r : Retries F) (boxes : List (List ProtocolEvent))
      → (if gave_up
          then (let (fine, d₂) = fan_out F (given_up_event host n) (live r boxes) in
              if fine then fan_out F (disconnected_event host) d₂ else (false, d₂))
          else fan_out F (disconnected_event host) (live r boxes))
        ≡ (
          true,
          live r (
              appended
                (given_up_reports host (if gave_up then some n else none)
                  ++ (disconnected_event host ∷ []))
                boxes),
        )
  lost_reports host true n r boxes =
      rw
        (
          fan_out-live (given_up_event host n) r boxes,
          fan_out-live (disconnected_event host) r (appended (given_up_event host n ∷ []) boxes),
          appended-append (given_up_event host n ∷ []) (disconnected_event host ∷ []) boxes,
        )
        refl
  lost_reports host false n r boxes = fan_out-live (disconnected_event host) r boxes

  failed_reports :
      (host : Host) (gave_up : Bool) (n : ℕ) (r : Retries F) (boxes : List (List ProtocolEvent))
      → (if gave_up then fan_out F (given_up_event host n) (live r boxes) else (true, live r boxes))
        ≡ (true, live r (appended (given_up_reports host (if gave_up then some n else none)) boxes))
  failed_reports host true n r boxes = fan_out-live (given_up_event host n) r boxes
  failed_reports host false n r boxes = rw (appended-nil boxes) refl

  -- One session event on a runtime that is not shut down: all mailboxes grow by its reports.
  every_protocol_is_told :
      (ev : SessionEvent) (random : Float) (r : Retries F) (boxes : List (List ProtocolEvent))
      → dispatch_session_event F ev random (live r boxes)
        ≡ (true, live (retries_after ev random r) (appended (reports ev r) boxes))
  unfolding dispatch_session_event
  every_protocol_is_told (session_connected host) random r boxes =
      fan_out-live (connected_event host) ((on_session_up_for_retry F host r).1) boxes
  every_protocol_is_told (session_disconnected host) random r boxes =
      let (gave_up, n, r') = on_session_down_for_retry F host random r in
      rw (down_gives_up host random r) (lost_reports host gave_up n r' boxes)
  every_protocol_is_told (session_failed host) random r boxes =
      let (gave_up, n, r') = on_session_down_for_retry F host random r in
      rw (down_gives_up host random r) (failed_reports host gave_up n r' boxes)
  every_protocol_is_told (session_version_mismatch host version) random r boxes =
      rw (appended-nil boxes) refl

  pub all_reports : List (SessionEvent × Float) → Retries F → List ProtocolEvent
  all_reports [] r = []
  all_reports ((ev, random) ∷ evs) r = reports ev r ++ all_reports evs (retries_after ev random r)

  pub all_retries : List (SessionEvent × Float) → Retries F → Retries F
  all_retries [] r = r
  all_retries ((ev, random) ∷ evs) r = all_retries evs (retries_after ev random r)

  -- While a runtime is not shut down, the event pump on any sequence of session events goes on to
  -- the end, and all mailboxes grow by the same reports, in the order of the events. The reports
  -- are: a connection; or a disconnection, after a give-up with its attempts when the loss exhausts
  -- the retry policy of a host that is tracked; a failed session is reported by such a give-up
  -- alone or not at all; a version mismatch is not reported.
  pub pump_tells_all :
      (evs : List (SessionEvent × Float)) (r : Retries F) (boxes : List (List ProtocolEvent))
      → pump F evs (live r boxes)
        ≡ (true, live (all_retries evs r) (appended (all_reports evs r) boxes))
  unfolding pump all_reports all_retries
  pump_tells_all [] r boxes = rw (appended-nil boxes) refl
  pump_tells_all ((ev, random) ∷ evs) r boxes =
      rw
        (
          every_protocol_is_told ev random r boxes,
          pump_tells_all evs (retries_after ev random r) (appended (reports ev r) boxes),
          appended-append (reports ev r) (all_reports evs (retries_after ev random r)) boxes,
        )
        refl

  -- A session that fails while its host has no retry entry, as after a plain Connect, is reported to
  -- no protocol: the event changes nothing.
  failure_without_retry_is_silent :
      (host : Host) (random : Float) (d : Dispatcher F)
      → lookup host d.retries.connection_retries ≡ none
      → dispatch_session_event F (session_failed host) random d ≡ (true, d)
  unfolding dispatch_session_event on_session_down_for_retry
  failure_without_retry_is_silent host random d untracked = ground arith
