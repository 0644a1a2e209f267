-- ===== src/Protorun/Retry/Tracking.antt =====
-- pkg/protorun/retry.go: the timers of the retry table and the entries that own them.
use go_simple_protocol_runti.Common.{
  ℕ, suc, ◌≤◌, ◌<◌, ◌≡◌, ◌≢◌, List, [], ◌∷◌, false, Option, none, some, inl, inr, ◌==◌, nat_eq,
  nat_beq_iff, Map, lookup, insert, delete, lookup-insert, lookup-delete, beq_refl, All, arith,
  Option-cases, Bool-cases,
}
use go_simple_protocol_runti.Transport.Host.{Host, host_eq, host_beq_iff}
use go_simple_protocol_runti.Protorun.Floats.{Floats}
use go_simple_protocol_runti.Protorun.Retry.{
  RetryState, Armed, Retries, stop_timer, stop_pending, forget, schedule,
}

module _ (F : Floats) where
  open F use {Float}

  abbrev pub timer_of : Option (RetryState F) → Option ℕ
  timer_of none = none
  timer_of (some st) = st.timer

  -- An armed timer is the one that the entry of its host names, and its number has been given out.
  abbrev pub IsOwned : Map Host (RetryState F) → ℕ → Armed F → Type 0
  IsOwned m bound a = (timer_of (lookup a.host m) ≡ some a.id) × (a.id < bound)

  abbrev pub Inv : Retries F → Type 0
  Inv r = All (IsOwned r.connection_retries r.next_timer) r.armed

  pub All-stop_timer {κ ι} :
      {P : Armed F → Type κ} {Q : Armed F → Type ι} (id : ℕ) (as' : List (Armed F))
      → ((a : Armed F) → a.id ≢ id → P a → Q a)
      → All P as'
      → All Q (stop_timer F id as')
  unfolding stop_timer
  All-stop_timer id [] keep h = tt
  All-stop_timer id (a ∷ as') keep h = elim (Bool-cases (a.id == id)) [
    | inl same ↦ rw same (All-stop_timer id as' keep h.1)
    | inr other ↦
        rw other
          (keep a (λ e. ground (arith, nat_beq_iff a.id id)) h.0, All-stop_timer id as' keep h.1)
  ]

  pub All-map {κ ι} :
      {P : Armed F → Type κ} {Q : Armed F → Type ι} (as' : List (Armed F))
      → ((a : Armed F) → P a → Q a)
      → All P as'
      → All Q as'
  All-map [] keep h = tt
  All-map (a ∷ as') keep h = (keep a h.0, All-map as' keep h.1)

  -- Changing the entry of `host` and stopping the timer that it named keeps the rest owned.
  All-stop_pending :
      (host : Host) (st : RetryState F) (m m' : Map Host (RetryState F)) (b b' : ℕ)
      (as' : List (Armed F))
      → lookup host m ≡ some st
      → ((j : Host) → (host == j) ≡ false → lookup j m' ≡ lookup j m)
      → b ≤ b'
      → All (IsOwned m b) as'
      → All (IsOwned m' b') (stop_pending F st.timer as')
  unfolding stop_pending
  All-stop_pending host st m m' b b' as' known same le h = elim (Option-cases st.timer) [
    | inl e ↦
        rw (e, stop_pending)
          (All-map as' (λ a v. ground (arith, host_beq_iff host a.host, same a.host)) h)
    | inr (id, e) ↦
        rw (e, stop_pending)
          (All-stop_timer id as'
            (λ a other v. ground (arith, host_beq_iff host a.host, same a.host)) h)
  ]

  pub forget-Inv :
      (host : Host) (st : RetryState F) (r : Retries F)
      → lookup host r.connection_retries ≡ some st
      → Inv r
      → Inv (forget F host st r)
  unfolding forget
  forget-Inv host st r known v =
      All-stop_pending host st r.connection_retries (delete host r.connection_retries) r.next_timer
        r.next_timer r.armed known
        (λ j other. rw (lookup-delete host j r.connection_retries, other)) (omega arith) v

  pub schedule-Inv :
      (host : Host) (st : RetryState F) (n : ℕ) (x : Float) (r : Retries F)
      → lookup host r.connection_retries ≡ some st
      → Inv r
      → Inv (schedule F host st n x r)
  unfolding schedule
  schedule-Inv host st n x r known v =
      let st' = record st { attempt = n; timer = some r.next_timer } in
      let m' = insert host st' r.connection_retries in
      (
        (rw (lookup-insert host host st' r.connection_retries, beq_refl host), omega arith),
        All-stop_pending host st r.connection_retries m' r.next_timer (suc r.next_timer) r.armed
            known (λ j other. rw (lookup-insert host j st' r.connection_retries, other))
            (omega arith) v,
      )
