-- ===== src/Errors.antt =====
-- Go's `error` values as the program builds them: sentinels, messages, and the wrapping of
-- fmt.Errorf ("%w"). `errors_is` is errors.Is, which walks what is wrapped.
use Prim.Native.String.{String}
use go_simple_protocol_runti.Common.{ℕ, Bool, false, ◌||◌, ◌==◌, nat_eq, ◌≡◌, refl, ◌⊎◌, inl, inr}

-- io.EOF, io.ErrUnexpectedEOF, and the sentinel errors of pkg/transport and pkg/protorun.
pub data Sentinel : Type 0 where
  eof unexpected_eof version_mismatch : Sentinel
  no_session_layer no_network_layer already_cancelled no_codec : Sentinel
  no_request_handler request_timeout responder_failed handler_panicked : Sentinel
  context_canceled shutdown_timeout : Sentinel

-- A number for each sentinel: two sentinels are the same value when their numbers are.
abbrev pub sentinel_code : Sentinel → ℕ
sentinel_code eof = 0
sentinel_code unexpected_eof = 1
sentinel_code version_mismatch = 2
sentinel_code no_session_layer = 3
sentinel_code no_network_layer = 4
sentinel_code already_cancelled = 5
sentinel_code no_codec = 6
sentinel_code no_request_handler = 7
sentinel_code request_timeout = 8
sentinel_code responder_failed = 9
sentinel_code handler_panicked = 10
sentinel_code context_canceled = 11
sentinel_code shutdown_timeout = 12

pub data Error : Type 0 where
  sentinel : Sentinel → Error
  -- fmt.Errorf with no %w
  message : String → Error
  -- fmt.Errorf("...: %w", err)
  wrap : String → Error → Error
  -- fmt.Errorf("%w: %w", a, b)
  wrap_both : Error → Error → Error

unfoldable pub errors_is : Sentinel → Error → Bool
errors_is s (sentinel t) = sentinel_code s == sentinel_code t
errors_is s (message m) = false
errors_is s (wrap m e) = errors_is s e
errors_is s (wrap_both a b) = errors_is s a || errors_is s b

-- A (value, error) pair whose value is read only when the error is nil.
pub data Result {ℓ} (A : Type ℓ) : Type ℓ where
  ok : A → Result A
  err : Error → Result A

-- Goes on with the value, or returns the error early.
infixl 5 ◌>>=◌
abbrev pub ◌>>=◌ {ℓ κ} : {V : Type ℓ} {W : Type κ} → Result V → (V → Result W) → Result W
err failure >>= next = err failure
ok value >>= next = next value

-- `return fmt.Errorf("...: %w", err)`
abbrev pub or_wrap {ℓ} : {A : Type ℓ} → String → Result A → Result A
or_wrap m (ok a) = ok a
or_wrap m (err e) = err (wrap m e)

-- Inversion of a successful bind.
pub >>=-eq-ok {ℓ κ} :
    {V : Type ℓ} {W : Type κ} (result : Result V) (next : V → Result W) {last : W}
    → (result >>= next) ≡ ok last
    → (value : V) × (result ≡ ok value) × (next value ≡ ok last)
>>=-eq-ok (err failure) next e = cc
>>=-eq-ok (ok value) next e = (value, refl, e)

pub Result-cases {ℓ} :
    {A : Type ℓ} (r : Result A) → ((a : A) × (r ≡ ok a)) ⊎ ((e : Error) × (r ≡ err e))
Result-cases (ok a) = inl (a, refl)
Result-cases (err e) = inr (e, refl)
