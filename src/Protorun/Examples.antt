-- ===== src/Protorun/Examples.antt =====
-- Runs of pkg/protorun/retry.go, and options of a runtime, on concrete inputs.
use go_simple_protocol_runti.Common.{
  ◌≡◌, refl, List, [], ◌∷◌, Bool, true, false, none, some, lookup, insert, ltb, not, Member, here,
}
use go_simple_protocol_runti.Common.Int.{ℤ, pos, negsuc, int_eq}
use go_simple_protocol_runti.Transport.Host.{Host, host_eq, new_host}
use go_simple_protocol_runti.Protorun.Floats.{Floats}
use go_simple_protocol_runti.Protorun.Retry.{
  RetryPolicy, RetryState, Retries, Armed, connect, connect_with_retry, with_defaults,
  on_session_up_for_retry, on_session_down_for_retry, timer_fires, retry_teardown,
}
use go_simple_protocol_runti.Protorun.Retry.Attempts.{failures, gives_up_at_max_attempts}
use go_simple_protocol_runti.Protorun.Retry.Runs.{
  Call, dial, run, run_owns_timers, teardown_is_quiet, no_retry_after_up, step, down,
}

abbrev less : ℤ → ℤ → Bool
less (pos a) (pos b) = ltb a b
less (pos a) (negsuc b) = false
less (negsuc a) (pos b) = true
less (negsuc a) (negsuc b) = ltb b a

abbrev first : ℤ → ℤ → ℤ
first a b = a

-- Whole numbers in place of the floats; the delays are not at issue.
abbrev pub whole : Floats
whole = record {
  Float = ℤ;
  of_int = λ a. a;
  truncate = λ a. a;
  add = first;
  sub = first;
  mul = first;
  div = first;
  pow = first;
  lt = less;
  le = λ a b. not (less b a);
  two-le-one = refl;
  zero-lt-zero = refl;
  one-lt-zero = refl;
  one-lt-one = refl;
}

abbrev pub peer : Host
peer = new_host (pos 8080) (104 ∷ [])

abbrev pub policy : ℤ → RetryPolicy whole
policy n = record {
  initial = pos 100;
  max = pos 1000;
  multiplier = pos 2;
  max_attempts = n;
  jitter = pos 0;
}

abbrev pub table : ℤ → Retries whole
table n = record {
  retry_policy = policy n;
  connection_retries = [];
  armed = [];
  next_timer = 0;
  has_session_layer = true;
  cancelled = false;
  connects = [];
  disconnects = [];
}

nothing_tracked : (n : ℤ) → lookup peer (table n).connection_retries ≡ none
unfolding lookup
nothing_tracked n = refl

gives_up_at_max_attempts_example :
    let (gave_up, r') =
      failures whole peer (pos 0 ∷ pos 0 ∷ []) (connect_with_retry whole peer (table (pos 3))).1 in
    let (last, attempts, r'') = on_session_down_for_retry whole peer (pos 0) r' in
    (gave_up ≡ 0)
    × ((st : RetryState whole) × (lookup peer r'.connection_retries ≡ some st) × (st.attempt ≡ 2))
    × (last ≡ true)
    × (attempts ≡ 3)
    × (lookup peer r''.connection_retries ≡ none)
gives_up_at_max_attempts_example =
    gives_up_at_max_attempts whole peer 2 (pos 0 ∷ pos 0 ∷ []) (pos 0) (table (pos 3))
      (nothing_tracked (pos 3)) refl refl

abbrev one_loss : List (Call whole)
one_loss = dial peer ∷ down peer (pos 0) ∷ []

abbrev backoff : Armed whole
backoff = record { id = 0; host = peer; delay = pos 100 }

backoff_is_armed : Member backoff (run whole one_loss (table (pos 3))).armed
unfolding run step connect_with_retry connect with_defaults lookup insert on_session_down_for_retry
backoff_is_armed = here refl

run_owns_timers_example :
    (st : RetryState whole) × (lookup peer (run whole one_loss (table (pos 3))).connection_retries
      ≡ some st)
    × (st.timer ≡ some 0)
run_owns_timers_example =
    run_owns_timers whole one_loss (table (pos 3)) backoff refl backoff_is_armed

teardown_is_quiet_example :
    let r' = retry_teardown whole (run whole one_loss (table (pos 3))) in
    (r'.armed ≡ []) × (r'.connection_retries ≡ []) × (timer_fires whole peer r' ≡ r')
teardown_is_quiet_example = teardown_is_quiet whole one_loss (table (pos 3)) peer refl

no_retry_after_up_example :
    let r' = (on_session_up_for_retry whole peer (run whole one_loss (table (pos 3)))).1 in
    on_session_down_for_retry whole peer (pos 0) r' ≡ (false, 0, r')
no_retry_after_up_example =
    no_retry_after_up whole peer (pos 0) (run whole one_loss (table (pos 3)))
