-- ===== src/Protorun/Retry/Attempts.antt =====
-- pkg/protorun/retry.go: the attempts of a host that keeps failing.
use go_simple_protocol_runti.Common.{
  ℕ, suc, ◌+◌, ◌≤◌, ◌<◌, ◌≡◌, refl, ap, subst, ◌∙◌, List, [], ◌∷◌, length, true, false, none, some,
  ◌⊎◌, if◌then◌else◌, lookup, lookup-insert, lookup-delete, beq_refl, arith,
}
use native.Mathlib.Nat.{add-zero, add-suc, suc-add}
use go_simple_protocol_runti.Common.Int.{ℤ, pos, negsuc}
use go_simple_protocol_runti.Transport.Host.{Host, host_eq}
use go_simple_protocol_runti.Protorun.Floats.{Floats}
use go_simple_protocol_runti.Protorun.Retry.{
  RetryState, Retries, exhausted, with_defaults, connect, connect_with_retry,
  on_session_down_for_retry,
}

module _ (F : Floats) where
  open F use {Float}

  -- Failures of one host in a row, each with the random number of its jitter: how often the policy
  -- gave up, and the table that is left.
  unfoldable pub failures : Host → List Float → Retries F → ℕ × Retries F
  failures host [] r = (0, r)
  failures host (x ∷ xs) r =
      let (gave_up, _, r') = on_session_down_for_retry F host x r in
      let (more, r'') = failures host xs r' in ((if gave_up then 1 else 0) + more, r'')

  abbrev TracksAt : Host → ℤ → ℕ → Retries F → Type 0
  TracksAt host max attempt r =
      (st : RetryState F) × (lookup host r.connection_retries ≡ some st)
      × (st.policy.max_attempts ≡ max)
      × (st.attempt ≡ attempt)

  down_goes_on :
      (host : Host) (x : Float) (max : ℤ) (a : ℕ) (r : Retries F)
      → TracksAt host max a r
      → exhausted max (suc a) ≡ false
      → ((on_session_down_for_retry F host x r).0 ≡ false)
        × TracksAt host max (suc a) (on_session_down_for_retry F host x r).2
  unfolding on_session_down_for_retry
  down_goes_on host x max a r (st, tracked, m, n) more = (
    ground arith,
    (
      record st { attempt = suc st.attempt; timer = some r.next_timer },
      ground (
        arith,
        lookup-insert host host (record st { attempt = suc st.attempt; timer = some r.next_timer })
            r.connection_retries,
        beq_refl host,
      ),
      m,
      ap suc n,
    ),
  )

  down_gives_up :
      (host : Host) (x : Float) (max : ℤ) (a : ℕ) (r : Retries F)
      → TracksAt host max a r
      → exhausted max (suc a) ≡ true
      → ((on_session_down_for_retry F host x r).0 ≡ true)
        × ((on_session_down_for_retry F host x r).1 ≡ suc a)
        × (lookup host (on_session_down_for_retry F host x r).2.connection_retries ≡ none)
  unfolding on_session_down_for_retry
  down_gives_up host x max a r (st, tracked, m, n) done =
      ground (arith, lookup-delete host host r.connection_retries, beq_refl host)

  exhausted_below : (n a : ℕ) → a < suc n → exhausted (pos (suc n)) a ≡ false
  exhausted_below n a h = ground arith

  -- As long as no failure exhausts the policy, nothing is given up and the attempts are counted.
  failures_go_on :
      (host : Host) (max : ℤ) (xs : List Float) (a : ℕ) (r : Retries F)
      → TracksAt host max a r
      → ((k : ℕ) → k ≤ a + length xs → exhausted max k ≡ false)
      → ((failures host xs r).0 ≡ 0) × TracksAt host max (a + length xs) (failures host xs r).1
  unfolding failures
  failures_go_on host max [] a r t below = (refl, rw add-zero t)
  failures_go_on host max (x ∷ xs) a r t below =
      let (quiet, t') = down_goes_on host x max a r t (below (suc a) (omega arith)) in
      let r' = (on_session_down_for_retry F host x r).2 in
      let (later, t'') = failures_go_on host max xs (suc a) r' t' (λ k h. below k (omega arith)) in
      (rw quiet (omega (arith, later)), rw (add-suc a (length xs), ← suc-add a (length xs)) t'')

  connect_with_retry_tracks :
      (host : Host) (r : Retries F)
      → lookup host r.connection_retries ≡ none
      → TracksAt host r.retry_policy.max_attempts 0 (connect_with_retry F host r).1
  unfolding connect_with_retry connect with_defaults
  connect_with_retry_tracks host r fresh = (
    record { policy = with_defaults F r.retry_policy; attempt = 0; timer = none },
    ground (
      arith,
      lookup-insert host host
          (record { policy = with_defaults F r.retry_policy; attempt = 0; timer = none })
          r.connection_retries,
      beq_refl host,
    ),
    refl,
    refl,
  )

  -- With MaxAttempts = n + 1, a host that is newly dialed survives n failures in a row without a
  -- give-up and is still tracked; the next failure gives up, reports n + 1 attempts, and the host is
  -- tracked no longer.
  pub gives_up_at_max_attempts :
      (host : Host) (n : ℕ) (xs : List Float) (x : Float) (r : Retries F)
      → lookup host r.connection_retries ≡ none
      → r.retry_policy.max_attempts ≡ pos (suc n)
      → length xs ≡ n
      → let (gave_up, r') = failures host xs (connect_with_retry F host r).1 in
        let (last, attempts, r'') = on_session_down_for_retry F host x r' in
        (gave_up ≡ 0)
        × ((st : RetryState F) × (lookup host r'.connection_retries ≡ some st) × (st.attempt ≡ n))
        × (last ≡ true)
        × (attempts ≡ suc n)
        × (lookup host r''.connection_retries ≡ none)
  gives_up_at_max_attempts host n xs x r fresh bounded size =
      let t =
        subst (λ (m : ℤ). TracksAt host m 0 (connect_with_retry F host r).1) bounded
          (connect_with_retry_tracks host r fresh) in
      let r₁ = (connect_with_retry F host r).1 in
      let (quiet, t') =
        failures_go_on host (pos (suc n)) xs 0 r₁ t (λ k h. exhausted_below n k (omega arith)) in
      let (st, tracked, m, count) = t' in
      let at_n : 0 + length xs ≡ n = omega arith in
      let (last, attempts, gone) =
        down_gives_up host x (pos (suc n)) n (failures host xs r₁).1 (st, tracked, m, count ∙ at_n)
          (ground arith) in
      (quiet, (st, tracked, count ∙ at_n), last, attempts, gone)

  -- With MaxAttempts at zero or below, no number of failures in a row gives up.
  never_gives_up_unbounded :
      (host : Host) (xs : List Float) (r : Retries F)
      → lookup host r.connection_retries ≡ none
      → (r.retry_policy.max_attempts ≡ pos 0) ⊎ ((m : ℕ) × (r.retry_policy.max_attempts ≡ negsuc m))
      → ((failures host xs (connect_with_retry F host r).1).0 ≡ 0)
        × ((st : RetryState F) × (lookup host
                (failures host xs (connect_with_retry F host r).1).1.connection_retries
              ≡ some st)
            × (st.attempt ≡ length xs))
  never_gives_up_unbounded host xs r fresh unbounded =
      let (quiet, (st, tracked, m, count)) =
        failures_go_on host r.retry_policy.max_attempts xs 0 (connect_with_retry F host r).1
          (connect_with_retry_tracks host r fresh) (λ k h. ground arith) in
      (quiet, (st, tracked, count ∙ omega arith))
