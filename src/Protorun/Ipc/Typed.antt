-- ===== src/Protorun/Ipc/Typed.antt =====
-- The typed ends of pkg/protorun/ipc.go: the callback that SendRequestWithTimeout wraps around onReply, and
-- the handler that SubscribeNotification wraps around fn. `assert_type` is the type assertion on a value
-- behind the interface; what onReply is called with is a value or an error.
use go_simple_protocol_runti.Common.{◌≡◌, true, Option, none, some, arith}
use go_simple_protocol_runti.Errors.{Error, Result, ok, err, message, Sentinel, errors_is}

module _ {ℓ κ} {Reply : Type ℓ} {Rep : Type κ} (assert_type : Reply → Option Rep) where
  -- `rep` is nil, which no assertion accepts, or a reply.
  unfoldable pub wrapped : Option Reply → Option Error → Result Rep
  wrapped rep (some e) = err e
  wrapped none none = err (message "protorun: reply type mismatch: expected %T, got %T")
  wrapped (some rep) none = elim (assert_type rep) [
    | some typed ↦ ok typed
    | none ↦ err (message "protorun: reply type mismatch: expected %T, got %T")
  ]

  -- The value that fn is called with, if it is called.
  unfoldable notified : Reply → Option Rep
  notified raw = assert_type raw

  -- An error that onReply gets and that errors.Is matches with a sentinel is the error that the
  -- framework delivered.
  wrapped_lem :
      (rep : Option Reply) (e : Option Error) (s : Sentinel) (x : Error)
      → wrapped rep e ≡ err x
      → errors_is s x ≡ true
      → e ≡ some x
  unfolding wrapped errors_is
  wrapped_lem rep (some e) s x failed matches = cc
  wrapped_lem none none s x failed matches = absurd (ground arith)
  wrapped_lem (some rep) none s x failed matches = absurd (ground arith)
