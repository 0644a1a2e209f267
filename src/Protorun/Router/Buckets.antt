-- ===== src/Protorun/Router/Buckets.antt =====
-- pkg/protorun/ipc_router.go: the router as a function from a wire id and a protocol to a handler.
use go_simple_protocol_runti.Common.{
  ℕ, ◌≡◌, ◌≢◌, refl, [], ◌∷◌, length, ◌&&◌, Option, none, some, if◌then◌else◌, ◌==◌, nat_eq,
  nat_beq_iff, Map, lookup, insert, delete, lookup-insert, lookup-delete, inl, inr, arith,
  Option-cases, Bool-cases,
}
use go_simple_protocol_runti.Protorun.Router.{Router, snapshot_subscribers, subscribe, unsubscribe}

-- The handler that protocol `p` has for notifications of wire id `w`.
unfoldable pub handler_of : ℕ → ℕ → Router → Option ℕ
unfolding snapshot_subscribers
handler_of w p r = lookup p (snapshot_subscribers w r)

pub handler_of-subscribe :
    (w p fn v q : ℕ) (r : Router)
    → handler_of v q (subscribe w p fn r)
      ≡ (if (w == v) && (p == q) then some fn else handler_of v q r)
unfolding handler_of subscribe snapshot_subscribers
handler_of-subscribe w p fn v q r = elim (Bool-cases (w == v)) [
  | inl same ↦
      let here : w ≡ v = ground (arith, nat_beq_iff w v) in
      ground (
        arith,
        here,
        lookup-insert w v (insert p fn (snapshot_subscribers w r)) r,
        lookup-insert p q fn (snapshot_subscribers w r),
      )
  | inr other ↦ ground (arith, lookup-insert w v (insert p fn (snapshot_subscribers w r)) r)
]

lookup_empty : (q : ℕ) (m : Map ℕ ℕ) → length m ≡ 0 → lookup q m ≡ none
unfolding lookup
lookup_empty q [] e = refl
lookup_empty q (x ∷ m) e = absurd (omega (arith, e))

abbrev no_subs : Map ℕ ℕ
no_subs = []

insert-ne-nil : (p fn : ℕ) (m : Map ℕ ℕ) → insert p fn m ≢ []
unfolding insert
insert-ne-nil p fn [] e = cc
insert-ne-nil p fn ((q, g) ∷ m) e = ground arith

pub handler_of-unsubscribe :
    (w p v q : ℕ) (r : Router)
    → handler_of v q (unsubscribe w p r) ≡ (if (w == v) && (p == q) then none else handler_of v q r)
unfolding handler_of unsubscribe snapshot_subscribers
handler_of-unsubscribe w p v q r = elim (Option-cases (lookup w r)) [
  | inl no_bucket ↦ ground (arith, nat_beq_iff w v, lookup_nil q)
  | inr (subs, bucket) ↦ ground (
    arith,
    nat_beq_iff w v,
    lookup_nil q,
    lookup-delete w v r,
    lookup-delete p q subs,
    lookup-insert w v (delete p subs) r,
    lookup_empty q (delete p subs),
  )
]
  where
    lookup_nil : (q : ℕ) → lookup q no_subs ≡ none
    lookup_nil q = lookup_empty q [] refl

-- No bucket of the table is empty.
abbrev pub NoEmpty : Router → Type 0
NoEmpty r = (w : ℕ) → lookup w r ≢ some []

pub subscribe-NoEmpty : (w p fn : ℕ) (r : Router) → NoEmpty r → NoEmpty (subscribe w p fn r)
unfolding subscribe
subscribe-NoEmpty w p fn r h v e = ground (
  arith,
  h v,
  lookup-insert w v (insert p fn (snapshot_subscribers w r)) r,
  insert-ne-nil p fn (snapshot_subscribers w r),
)

pub unsubscribe-NoEmpty : (w p : ℕ) (r : Router) → NoEmpty r → NoEmpty (unsubscribe w p r)
unfolding unsubscribe
unsubscribe-NoEmpty w p r h v = elim (Option-cases (lookup w r)) [
  | inl no_bucket ↦ rw (no_bucket, unsubscribe) (h v)
  | inr (subs, bucket) ↦ elim (Bool-cases (length (delete p subs) == 0)) [
    | inl drained ↦
        rw (bucket, drained, unsubscribe) (λ e. ground (arith, h v, lookup-delete w v r))
    | inr left ↦
        rw (bucket, left, unsubscribe)
          (λ e. ground (arith, h v, lookup-insert w v (delete p subs) r))
  ]
]
