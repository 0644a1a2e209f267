-- ===== src/Protorun/Retry/Runs.antt =====
-- pkg/protorun/retry.go: the retry table under any sequence of calls and timers.
use go_simple_protocol_runti.Common.{
  subst, not, Member, here, there, ℕ, suc, ◌≡◌, ◌≢◌, refl, sym, List, [], ◌∷◌, Bool, true, false,
  Option, none, some, ◌⊎◌, inl, inr, if◌then◌else◌, nat_eq, Map, lookup, insert, lookup-insert,
  lookup-delete, beq_refl, All, arith, Option-cases, Bool-cases,
}
use go_simple_protocol_runti.Errors.{Error, sentinel, no_session_layer, context_canceled}
use go_simple_protocol_runti.Transport.Host.{Host, host_eq, host_beq_iff}
use go_simple_protocol_runti.Protorun.Floats.{Floats}
use go_simple_protocol_runti.Protorun.Retry.{
  RetryState, Armed, Retries, exhausted, connect, connect_with_retry, stop_timer, stop_pending,
  forget, on_session_up_for_retry, on_session_down_for_retry, timer_fires, stop_retry_for,
  disconnect, retry_teardown, stop_all, with_defaults,
}
use go_simple_protocol_runti.Protorun.Retry.Tracking.{
  timer_of, IsOwned, Inv, All-stop_timer, All-map, forget-Inv, schedule-Inv,
}

module _ (F : Floats) where
  open F use {Float}

  -- `expire` is a timer that goes off: its callback runs, and it is armed no longer. `fires_late` is
  -- a callback that was already on its way when the timer was stopped.
  pub data Call : Type 0 where
    dial up stops fires_late : Host → Call
    down : Host → Float → Call
    expire : ℕ → Host → Call
    teardown cancel : Call

  unfoldable pub step : Call → Retries F → Retries F
  step (dial h) r = (connect_with_retry F h r).1
  step (up h) r = (on_session_up_for_retry F h r).1
  step (stops h) r = (disconnect F h r).1
  step (fires_late h) r = timer_fires F h r
  step (down h x) r = (on_session_down_for_retry F h x r).2
  step (expire id h) r = timer_fires F h (record r { armed = stop_timer F id r.armed })
  step teardown r = retry_teardown F r
  step cancel r = record r { cancelled = true }

  unfoldable pub run : List Call → Retries F → Retries F
  run [] r = r
  run (c ∷ cs) r = run cs (step c r)

  connect-Inv : (h : Host) (r : Retries F) → Inv F r → Inv F (connect F h r).1
  unfolding connect
  connect-Inv h r v = elim (Bool-cases r.has_session_layer) [
    | inr no_layer ↦ rw (no_layer, connect) v
    | inl layer ↦ elim (Bool-cases r.cancelled) [
      | inl over ↦ rw (layer, over, connect) v
      | inr on ↦ rw (layer, on, connect) v
    ]
  ]

  connect_with_retry-Inv : (h : Host) (r : Retries F) → Inv F r → Inv F (connect_with_retry F h r).1
  unfolding connect_with_retry
  connect_with_retry-Inv h r v = elim (Option-cases (lookup h r.connection_retries)) [
    | inr (st, known) ↦ rw (known, connect_with_retry) v
    | inl fresh ↦
        let st : RetryState F = record {
          policy = with_defaults F r.retry_policy;
          attempt = 0;
          timer = none;
        } in
        rw (fresh, connect_with_retry)
          (connect-Inv h (record r { connection_retries = insert h st r.connection_retries })
            (All-map F r.armed
              (λ a w.
                ground
                  (arith, host_beq_iff h a.host, lookup-insert h a.host st r.connection_retries))
              v))
  ]

  stop_retry_for-Inv : (h : Host) (r : Retries F) → Inv F r → Inv F (stop_retry_for F h r)
  unfolding stop_retry_for
  stop_retry_for-Inv h r v = elim (Option-cases (lookup h r.connection_retries)) [
    | inl none_there ↦ rw (none_there, stop_retry_for) v
    | inr (st, known) ↦ rw (known, stop_retry_for) (forget-Inv F h st r known v)
  ]

  disconnect-Inv : (h : Host) (r : Retries F) → Inv F r → Inv F (disconnect F h r).1
  unfolding disconnect
  disconnect-Inv h r v = go r.has_session_layer r.cancelled (stop_retry_for-Inv h r v)
    where
      go :
          (b c : Bool)
          → Inv F (stop_retry_for F h r)
          → let r' = stop_retry_for F h r in
            let q : Option Error × Retries F =
              if not b
              then (some (sentinel no_session_layer), r)
              else if c
              then (some (sentinel context_canceled), r')
              else (none, record r' { disconnects = h ∷ r'.disconnects }) in
            Inv F q.1
      go false c w = v
      go true true w = w
      go true false w = w

  on_session_up_for_retry-Inv :
      (h : Host) (r : Retries F) → Inv F r → Inv F (on_session_up_for_retry F h r).1
  unfolding on_session_up_for_retry
  on_session_up_for_retry-Inv h r v = elim (Option-cases (lookup h r.connection_retries)) [
    | inl none_there ↦ rw (none_there, on_session_up_for_retry) v
    | inr (st, known) ↦ rw (known, on_session_up_for_retry) (forget-Inv F h st r known v)
  ]

  on_session_down_for_retry-Inv :
      (h : Host) (x : Float) (r : Retries F) → Inv F r → Inv F (on_session_down_for_retry F h x r).2
  unfolding on_session_down_for_retry
  on_session_down_for_retry-Inv h x r v = elim (Option-cases (lookup h r.connection_retries)) [
    | inl none_there ↦ rw (none_there, on_session_down_for_retry) v
    | inr (st, known) ↦ elim (Bool-cases (exhausted st.policy.max_attempts (suc st.attempt))) [
      | inl done ↦ rw (known, done, on_session_down_for_retry) (forget-Inv F h st r known v)
      | inr more ↦
          rw (known, more, on_session_down_for_retry)
            (schedule-Inv F h st (suc st.attempt) x r known v)
    ]
  ]

  timer_fires-lem :
      (h : Host) (r : Retries F) → (timer_fires F h r ≡ r) ⊎ (timer_fires F h r ≡ (connect F h r).1)
  unfolding timer_fires
  timer_fires-lem h r = elim (Option-cases (lookup h r.connection_retries)) [
    | inl none_there ↦ inl (rw (none_there, timer_fires) refl)
    | inr (st, known) ↦ elim (Bool-cases r.cancelled) [
      | inl over ↦ inl (rw (known, over, timer_fires) refl)
      | inr on ↦ inr (rw (known, on, timer_fires) refl)
    ]
  ]

  timer_fires-Inv : (h : Host) (r : Retries F) → Inv F r → Inv F (timer_fires F h r)
  timer_fires-Inv h r v = elim (timer_fires-lem h r) [
    | inl e ↦ subst (λ (q : Retries F). Inv F q) (sym e) v
    | inr e ↦ subst (λ (q : Retries F). Inv F q) (sym e) (connect-Inv h r v)
  ]

  IsOwned-by_rest :
      (h : Host) (st : RetryState F) (m : Map Host (RetryState F)) (b : ℕ) (a : Armed F)
      → st.timer ≢ some a.id
      → IsOwned F ((h, st) ∷ m) b a
      → IsOwned F m b a
  unfolding lookup
  IsOwned-by_rest h st m b a other v = ground arith

  -- Stopping the timer of every entry leaves none armed.
  stop_all-empty :
      (b : ℕ) (m : Map Host (RetryState F)) (pending : List (Armed F))
      → All (IsOwned F m b) pending
      → stop_all F m pending ≡ []
  unfolding stop_all lookup
  stop_all-empty b [] [] v = refl
  stop_all-empty b [] (a ∷ pending) v = absurd (no_owner a v.0.0)
    where
      no_owner : (a : Armed F) → timer_of F (lookup a.host []) ≡ some a.id → ⊥
      no_owner a e = cc
  stop_all-empty b ((h, st) ∷ m) pending v = elim (Option-cases st.timer) [
    | inl e ↦
        rw (e, stop_pending)
          (stop_all-empty b m pending
            (All-map F pending (λ a w. IsOwned-by_rest h st m b a (λ t. ground arith) w) v))
    | inr (id, e) ↦
        rw (e, stop_pending)
          (stop_all-empty b m (stop_timer F id pending) (
            All-stop_timer F id pending
              (λ a other w. IsOwned-by_rest h st m b a (λ t. ground arith) w) v))
  ]

  retry_teardown-Inv : (r : Retries F) → Inv F r → Inv F (retry_teardown F r)
  unfolding retry_teardown
  retry_teardown-Inv r v = rw (stop_all-empty r.next_timer r.connection_retries r.armed v) tt

  step-Inv : (c : Call) (r : Retries F) → Inv F r → Inv F (step c r)
  unfolding step
  step-Inv (dial h) r v = connect_with_retry-Inv h r v
  step-Inv (up h) r v = on_session_up_for_retry-Inv h r v
  step-Inv (stops h) r v = disconnect-Inv h r v
  step-Inv (fires_late h) r v = timer_fires-Inv h r v
  step-Inv (down h x) r v = on_session_down_for_retry-Inv h x r v
  step-Inv (expire id h) r v =
      timer_fires-Inv h (record r { armed = stop_timer F id r.armed })
        (All-stop_timer F id r.armed (λ a other w. w) v)
  step-Inv teardown r v = retry_teardown-Inv r v
  step-Inv cancel r v = v

  run-Inv : (cs : List Call) (r : Retries F) → Inv F r → Inv F (run cs r)
  unfolding run
  run-Inv [] r v = v
  run-Inv (c ∷ cs) r v = run-Inv cs (step c r) (step-Inv c r v)

  All-Member :
      (a : Armed F) (P : Armed F → Type 0) (pending : List (Armed F))
      → Member a pending
      → All P pending
      → P a
  All-Member a P [] m h = elim m [ ]
  All-Member a P (b ∷ pending) (here e) h = subst P (sym e) h.0
  All-Member a P (b ∷ pending) (there m) h = All-Member a P pending m h.1

  entry_of :
      (o : Option (RetryState F)) (id : ℕ)
      → timer_of F o ≡ some id
      → (st : RetryState F) × (o ≡ some st) × (st.timer ≡ some id)
  entry_of none id e = absurd (the_none e)
    where
      the_none : none ≡ some id → ⊥
      the_none e = cc
  entry_of (some st) id e = (st, refl, e)

  -- Whatever sequence of dials, session reports, disconnects, teardowns and timers that go off in
  -- time or late starts from a table with no timer armed: each armed timer is the one that the entry
  -- of its host names, so a host that is not tracked has no timer armed.
  pub run_owns_timers :
      (cs : List Call) (r : Retries F) (a : Armed F)
      → r.armed ≡ []
      → Member a (run cs r).armed
      → (st : RetryState F) × (lookup a.host (run cs r).connection_retries ≡ some st)
        × (st.timer ≡ some a.id)
  run_owns_timers cs r a idle m =
      let owned =
        All-Member a (IsOwned F (run cs r).connection_retries (run cs r).next_timer)
          (run cs r).armed m (run-Inv cs r (rw idle tt)) in
      entry_of (lookup a.host (run cs r).connection_retries) a.id owned.0

  -- After any sequence of calls and timers on a table with no timer armed, a teardown leaves no
  -- timer armed and no host tracked; a timer callback that still comes in then changes nothing.
  pub teardown_is_quiet :
      (cs : List Call) (r : Retries F) (h : Host)
      → r.armed ≡ []
      → let r' = retry_teardown F (run cs r) in
        (r'.armed ≡ []) × (r'.connection_retries ≡ []) × (timer_fires F h r' ≡ r')
  unfolding retry_teardown timer_fires lookup
  teardown_is_quiet cs r h idle = (
    stop_all-empty (run cs r).next_timer (run cs r).connection_retries (run cs r).armed
        (run-Inv cs r (rw idle tt)),
    refl,
    refl,
  )

  up_forgets :
      (h : Host) (r : Retries F)
      → lookup h (on_session_up_for_retry F h r).1.connection_retries ≡ none
  unfolding on_session_up_for_retry forget
  up_forgets h r = elim (Option-cases (lookup h r.connection_retries)) [
    | inl none_there ↦ rw (none_there, on_session_up_for_retry) none_there
    | inr (st, known) ↦
        rw (known, on_session_up_for_retry)
          (rw (lookup-delete h h r.connection_retries, beq_refl h) refl)
  ]

  -- A session that comes up makes the runtime forget the host: a later loss of that session arms no
  -- timer, gives nothing up and dials nothing.
  pub no_retry_after_up :
      (h : Host) (x : Float) (r : Retries F)
      → let r' = (on_session_up_for_retry F h r).1 in
        on_session_down_for_retry F h x r' ≡ (false, 0, r')
  unfolding on_session_down_for_retry
  no_retry_after_up h x r = rw (on_session_down_for_retry, up_forgets h r) refl
