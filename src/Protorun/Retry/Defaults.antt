-- ===== src/Protorun/Retry/Defaults.antt =====
-- RetryPolicy.withDefaults of pkg/protorun/retry.go.
use go_simple_protocol_runti.Common.{◌≡◌, refl, true, if◌then◌else◌, Bool-cases, inl, inr}
use go_simple_protocol_runti.Common.Int.{ℤ, pos}
use go_simple_protocol_runti.Protorun.Floats.{Floats}
use go_simple_protocol_runti.Protorun.Retry.{
  RetryPolicy, with_defaults, default_jitter, is_positive,
}

module _ (F : Floats) where
  open F use {Float, of_int, lt, le}

  initial_again :
      (a : ℤ) (n : ℤ)
      → is_positive n ≡ true
      → let d = if is_positive a then a else n in (if is_positive d then d else n) ≡ d
  initial_again a n h = elim (Bool-cases (is_positive a)) [
    | inl p ↦ rw (p, p) refl
    | inr p ↦ rw (p, h) refl
  ]

  multiplier_again :
      (m : Float)
      → let d = if le m (of_int (pos 1)) then of_int (pos 2) else m in
        (if le d (of_int (pos 1)) then of_int (pos 2) else d) ≡ d
  multiplier_again m = elim (Bool-cases (le m (of_int (pos 1)))) [
    | inl p ↦ rw (p, F.two-le-one) refl
    | inr p ↦ rw (p, p) refl
  ]

  jitter_again : (j : Float) → default_jitter F (default_jitter F j) ≡ default_jitter F j
  unfolding default_jitter
  jitter_again j = elim (Bool-cases (lt j (of_int (pos 0)))) [
    | inl low ↦ rw (low, F.one-lt-zero, F.zero-lt-zero, F.one-lt-zero) refl
    | inr some_jitter ↦ elim (Bool-cases (lt (of_int (pos 1)) j)) [
      | inl high ↦ rw (some_jitter, high, F.one-lt-zero, F.one-lt-one) refl
      | inr fits ↦ rw (some_jitter, fits, some_jitter, fits) refl
    ]
  ]

  -- A policy to which the defaults have been applied is left as it is by applying them again: each
  -- default that withDefaults puts in is a value that it accepts.
  with_defaults-with_defaults :
      (p : RetryPolicy F) → with_defaults F (with_defaults F p) ≡ with_defaults F p
  unfolding with_defaults
  with_defaults-with_defaults p =
      rw
        (
          initial_again p.initial (pos 100_000_000) refl,
          initial_again p.max (pos 30_000_000_000) refl,
          multiplier_again p.multiplier,
          jitter_again p.jitter,
        )
        refl
