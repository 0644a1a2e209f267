-- ===== src/Protorun/Retry.antt =====
-- pkg/protorun/retry.go: the backoff policy and the table of hosts that the runtime keeps dialing.
-- A time.Timer is a number; `armed` holds those whose callback has still to run, with their host and
-- delay. The callback itself is `timer_fires`, which may also run after a Stop that came too late.
pub mod Defaults
pub mod Attempts
pub mod Tracking
pub mod Runs
use go_simple_protocol_runti.Common.{
  ℕ, zero, suc, ◌+◌, ◌-◌, List, [], ◌∷◌, Bool, true, false, not, Option, none, some, if◌then◌else◌,
  ◌==◌, nat_eq, leb, Map, lookup, insert, delete,
}
use go_simple_protocol_runti.Common.Int.{ℤ, pos, negsuc}
use go_simple_protocol_runti.Errors.{
  Error, Result, ok, err, sentinel, no_session_layer, context_canceled,
}
use go_simple_protocol_runti.Transport.Host.{Host, host_eq}
use go_simple_protocol_runti.Protorun.Floats.{Floats}

abbrev is_positive : ℤ → Bool
is_positive (pos zero) = false
is_positive (pos (suc n)) = true
is_positive (negsuc n) = false

-- `MaxAttempts > 0 && attempt >= MaxAttempts`
abbrev pub exhausted : ℤ → ℕ → Bool
exhausted (pos zero) attempt = false
exhausted (pos (suc n)) attempt = leb (suc n) attempt
exhausted (negsuc n) attempt = false

module _ (F : Floats) where
  open F use {Float, of_int, truncate, add, sub, mul, div, pow, lt, le}

  -- Durations are nanoseconds.
  pub record RetryPolicy : Type 0 where
    pub initial : ℤ
    pub max : ℤ
    pub multiplier : Float
    pub max_attempts : ℤ
    pub jitter : Float

  default_jitter : Float → Float
  default_jitter j =
      let j' = if lt j (of_int (pos 0)) then of_int (pos 0) else j in
      if lt (of_int (pos 1)) j' then of_int (pos 1) else j'

  unfoldable pub with_defaults : RetryPolicy → RetryPolicy
  unfolding default_jitter
  with_defaults p = record {
    initial = if is_positive p.initial then p.initial else pos 100_000_000;
    max = if is_positive p.max then p.max else pos 30_000_000_000;
    multiplier = if le p.multiplier (of_int (pos 1)) then of_int (pos 2) else p.multiplier;
    max_attempts = p.max_attempts;
    jitter = default_jitter p.jitter;
  }

  -- `random` is what rand.Float64 returns.
  unfoldable pub next_delay : RetryPolicy → ℕ → Float → ℤ
  next_delay p attempt random =
      let d = mul (of_int p.initial) (pow p.multiplier (of_int (pos attempt))) in
      let capped = if lt (of_int p.max) d then of_int p.max else d in
      let factor =
        add (sub (of_int (pos 1)) (div p.jitter (of_int (pos 2)))) (mul random p.jitter) in
      truncate (if lt (of_int (pos 0)) p.jitter then mul capped factor else capped)

  pub record RetryState : Type 0 where
    pub policy : RetryPolicy
    pub attempt : ℕ
    pub timer : Option ℕ

  pub record Armed : Type 0 where
    pub id : ℕ
    pub host : Host
    pub delay : ℤ

  -- The part of Runtime that retries use. `connects` logs sessionLayer.Connect, `disconnects`
  -- sessionLayer.Disconnect.
  pub record Retries : Type 0 where
    pub retry_policy : RetryPolicy
    pub connection_retries : Map Host RetryState
    pub armed : List Armed
    pub next_timer : ℕ
    pub has_session_layer : Bool
    pub cancelled : Bool
    pub connects : List Host
    pub disconnects : List Host

  unfoldable pub stop_timer : ℕ → List Armed → List Armed
  stop_timer id [] = []
  stop_timer id (a ∷ pending) =
      if a.id == id then stop_timer id pending else a ∷ stop_timer id pending

  -- `if st.timer != nil { st.timer.Stop() }`
  unfoldable pub stop_pending : Option ℕ → List Armed → List Armed
  unfolding stop_timer
  stop_pending none pending = pending
  stop_pending (some id) pending = stop_timer id pending

  -- Runtime.connect and Runtime.disconnect; `none` is the nil error.
  unfoldable pub connect : Host → Retries → Option Error × Retries
  connect host r =
      if not r.has_session_layer
      then (some (sentinel no_session_layer), r)
      else if r.cancelled
      then (some (sentinel context_canceled), r)
      else (none, record r { connects = host ∷ r.connects })

  unfoldable pub connect_with_retry : Host → Retries → Option Error × Retries
  unfolding connect with_defaults
  connect_with_retry host r = elim (lookup host r.connection_retries) [
    | some _ ↦ (none, r)
    | none ↦ connect host (record r {
      connection_retries =
          insert host (record { policy = with_defaults r.retry_policy; attempt = 0; timer = none })
            r.connection_retries;
    })
  ]

  -- Stops the timer of a host's entry and removes the entry.
  unfoldable pub forget : Host → RetryState → Retries → Retries
  unfolding stop_pending
  forget host st r = record r {
    connection_retries = delete host r.connection_retries;
    armed = stop_pending st.timer r.armed;
  }

  unfoldable pub on_session_up_for_retry : Host → Retries → Bool × Retries
  unfolding forget
  on_session_up_for_retry host r = elim (lookup host r.connection_retries) [
    | none ↦ (false, r)
    | some st ↦ (true, forget host st r)
  ]

  -- Arms the next backoff timer of a host that has failed `attempt` times.
  unfoldable pub schedule : Host → RetryState → ℕ → Float → Retries → Retries
  unfolding stop_pending next_delay
  schedule host st attempt random r = record r {
    connection_retries =
        insert host (record st { attempt = attempt; timer = some r.next_timer })
          r.connection_retries;
    armed =
        record { id = r.next_timer; host = host; delay = next_delay st.policy (attempt - 1) random }
        ∷ stop_pending st.timer r.armed;
    next_timer = suc r.next_timer;
  }

  -- Whether the policy gave up, after how many attempts, and the table that is left.
  unfoldable pub on_session_down_for_retry : Host → Float → Retries → Bool × ℕ × Retries
  unfolding forget schedule
  on_session_down_for_retry host random r = elim (lookup host r.connection_retries) [
    | none ↦ (false, 0, r)
    | some st ↦
        if exhausted st.policy.max_attempts (suc st.attempt)
        then (true, suc st.attempt, forget host st r)
        else (false, 0, schedule host st (suc st.attempt) random r)
  ]

  -- The callback of a backoff timer.
  unfoldable pub timer_fires : Host → Retries → Retries
  unfolding connect
  timer_fires host r = elim (lookup host r.connection_retries) [
    | none ↦ r
    | some _ ↦ if r.cancelled then r else (connect host r).1
  ]

  unfoldable pub stop_retry_for : Host → Retries → Retries
  unfolding forget
  stop_retry_for host r = elim (lookup host r.connection_retries) [
    | none ↦ r
    | some st ↦ forget host st r
  ]

  unfoldable pub disconnect : Host → Retries → Option Error × Retries
  unfolding stop_retry_for
  disconnect host r =
      let r' = stop_retry_for host r in
      if not r.has_session_layer
      then (some (sentinel no_session_layer), r)
      else if r.cancelled
      then (some (sentinel context_canceled), r')
      else (none, record r' { disconnects = host ∷ r'.disconnects })

  unfoldable pub stop_all : Map Host RetryState → List Armed → List Armed
  unfolding stop_pending
  stop_all [] pending = pending
  stop_all ((host, st) ∷ rest) pending = stop_all rest (stop_pending st.timer pending)

  unfoldable pub retry_teardown : Retries → Retries
  unfolding stop_all
  retry_teardown r = record r {
    connection_retries = [];
    armed = stop_all r.connection_retries r.armed;
  }
