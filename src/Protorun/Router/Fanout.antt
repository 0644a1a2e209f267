-- ===== src/Protorun/Router/Fanout.antt =====
-- pkg/protorun/ipc_router.go: the router against its specification, and the fan-out.
use go_simple_protocol_runti.Common.{
  ℕ, ◌≡◌, ◌≢◌, refl, sym, subst, ap, ◌∙◌, List, [], ◌∷◌, ◌++◌, length, ◌&&◌, Option, none, some,
  if◌then◌else◌, ◌==◌, nat_eq, nat_beq_iff, Map, lookup, insert, delete, lookup-insert,
  lookup-delete, inl, inr, arith, Option-cases, Bool-cases,
}
use mathlib.Core.List.{append-nil}
use go_simple_protocol_runti.Protorun.Router.{
  Router, snapshot_subscribers, subscribe, unsubscribe, Mailboxes, publish_to, publish, Operation,
  subscribes, unsubscribes, run,
}
use go_simple_protocol_runti.Protorun.Router.Buckets.{
  handler_of, handler_of-subscribe, handler_of-unsubscribe, NoEmpty, subscribe-NoEmpty,
  unsubscribe-NoEmpty,
}

-- The specification: a table from a wire id and a protocol to a handler.
abbrev pub Table : Type 0
Table = ℕ → ℕ → Option ℕ

abbrev pub spec : List Operation → Table → Table
spec [] t = t
spec (subscribes w p fn ∷ ops) t = spec ops (λ v q. if (w == v) && (p == q) then some fn else t v q)
spec (unsubscribes w p ∷ ops) t = spec ops (λ v q. if (w == v) && (p == q) then none else t v q)

refines :
    (ops : List Operation) (r : Router) (t : Table)
    → ((v q : ℕ) → handler_of v q r ≡ t v q)
    → NoEmpty r
    → ((v q : ℕ) → handler_of v q (run ops r) ≡ spec ops t v q) × NoEmpty (run ops r)
unfolding run
refines [] r t same h = (same, h)
refines (subscribes w p fn ∷ ops) r t same h =
    refines ops (subscribe w p fn r) (λ v q. if (w == v) && (p == q) then some fn else t v q)
      (λ v q. rw (handler_of-subscribe w p fn v q r, same v q) refl) (subscribe-NoEmpty w p fn r h)
refines (unsubscribes w p ∷ ops) r t same h =
    refines ops (unsubscribe w p r) (λ v q. if (w == v) && (p == q) then none else t v q)
      (λ v q. rw (handler_of-unsubscribe w p v q r, same v q) refl) (unsubscribe-NoEmpty w p r h)

-- After any subscriptions and unsubscriptions of a new router: it gives for each wire id and protocol
-- the handler of the last subscription that was not followed by an unsubscription, and it holds no
-- empty bucket.
pub router_refines_table :
    (ops : List Operation) (v q w : ℕ)
    → (handler_of v q (run ops []) ≡ spec ops (λ v' q'. none) v q)
      × (lookup w (run ops []) ≢ some [])
router_refines_table ops v q w =
    let (same, h) = refines ops [] (λ v' q'. none) empty_table no_bucket in (same v q, h w)
  where
    empty_table : (v q : ℕ) → handler_of v q [] ≡ none
    empty_table v q = unfold handler_of snapshot_subscribers lookup in refl

    no_bucket : NoEmpty []
    no_bucket w e = unfold lookup in cc

-- A table with one entry for a key.
abbrev pub Distinct {ℓ} : {V : Type ℓ} → Map ℕ V → Type ℓ
Distinct [] = Unit
Distinct ((k, v) ∷ m) = (lookup k m ≡ none) × Distinct m

insert-Distinct : (k v : ℕ) (m : Map ℕ ℕ) → Distinct m → Distinct (insert k v m)
unfolding insert
insert-Distinct k v [] h = (unfold lookup in refl, tt)
insert-Distinct k v ((j, u) ∷ m) h = elim (Bool-cases (j == k)) [
  | inl same ↦ rw same (ground (arith, nat_beq_iff j k), h.1)
  | inr other ↦ rw other (
    ground (arith, lookup-insert k j v m, nat_beq_iff j k, nat_beq_iff k j),
    insert-Distinct k v m h.1,
  )
]

delete-Distinct : (k : ℕ) (m : Map ℕ ℕ) → Distinct m → Distinct (delete k m)
unfolding delete
delete-Distinct k [] h = tt
delete-Distinct k ((j, u) ∷ m) h = elim (Bool-cases (j == k)) [
  | inl same ↦ rw same (delete-Distinct k m h.1)
  | inr other ↦ rw other (ground (arith, lookup-delete k j m), delete-Distinct k m h.1)
]

-- What a fan-out over `subs` adds to the mailbox of `q`.
abbrev pub delivered : ℕ → Option ℕ → List (ℕ × ℕ)
delivered n none = []
delivered n (some fn) = (n, fn) ∷ []

publish_to_all :
    (n : ℕ) (subs : Map ℕ ℕ) (boxes : Mailboxes) (q : ℕ)
    → Distinct subs
    → publish_to none n subs boxes q ≡ boxes q ++ delivered n (lookup q subs)
unfolding publish_to lookup
publish_to_all n [] boxes q h = sym (append-nil (boxes q))
publish_to_all n ((p, fn) ∷ subs) boxes q h =
    let boxes' : Mailboxes = λ q'. if p == q' then boxes q' ++ ((n, fn) ∷ []) else boxes q' in
    let rest = publish_to_all n subs boxes' q h.1 in
    elim (Bool-cases (p == q)) [
      | inl same ↦
          let at_p : p ≡ q = ground (arith, nat_beq_iff p q) in
          let others : lookup q subs ≡ none = ground arith in
          rest ∙ rw (same, others) (append-nil (boxes q ++ ((n, fn) ∷ [])))
      | inr other ↦ rest ∙ rw other refl
    ]

AllDistinct : Router → Type 0
AllDistinct r = (w : ℕ) → Distinct (snapshot_subscribers w r)

bucket_Distinct :
    (w : ℕ) (r : Router) (subs : Map ℕ ℕ) → AllDistinct r → lookup w r ≡ some subs → Distinct subs
unfolding AllDistinct snapshot_subscribers
bucket_Distinct w r subs h e = subst (λ (o : Option (Map ℕ ℕ)). Distinct (bucket_of o)) e (h w)
  where
    bucket_of : Option (Map ℕ ℕ) → Map ℕ ℕ
    bucket_of o = elim o [ none ↦ [] | some s ↦ s ]

subscribe-AllDistinct : (w p fn : ℕ) (r : Router) → AllDistinct r → AllDistinct (subscribe w p fn r)
unfolding subscribe snapshot_subscribers AllDistinct
subscribe-AllDistinct w p fn r h v =
    rw (snapshot_subscribers, lookup-insert w v (insert p fn (snapshot_subscribers w r)) r)
      (elim (Bool-cases (w == v)) [
        | inl same ↦ rw same (insert-Distinct p fn (snapshot_subscribers w r) (h w))
        | inr other ↦ rw other (h v)
      ])

unsubscribe-AllDistinct : (w p : ℕ) (r : Router) → AllDistinct r → AllDistinct (unsubscribe w p r)
unfolding unsubscribe snapshot_subscribers AllDistinct
unsubscribe-AllDistinct w p r h v = elim (Option-cases (lookup w r)) [
  | inl no_bucket ↦ rw (no_bucket, unsubscribe) (h v)
  | inr (subs, bucket) ↦
      let own = bucket_Distinct w r subs h bucket in
      elim (Bool-cases (length (delete p subs) == 0)) [
        | inl drained ↦
            rw (bucket, drained, unsubscribe, snapshot_subscribers, lookup-delete w v r)
              (elim (Bool-cases (w == v)) [ inl same ↦ rw same tt | inr other ↦ rw other (h v) ])
        | inr left ↦
            rw
              (bucket, left, unsubscribe, snapshot_subscribers, lookup-insert w v (delete p subs) r)
              (elim (Bool-cases (w == v)) [
                | inl same ↦ rw same (delete-Distinct p subs own)
                | inr other ↦ rw other (h v)
              ])
      ]
]

run-AllDistinct : (ops : List Operation) (r : Router) → AllDistinct r → AllDistinct (run ops r)
unfolding run
run-AllDistinct [] r h = h
run-AllDistinct (subscribes w p fn ∷ ops) r h =
    run-AllDistinct ops (subscribe w p fn r) (subscribe-AllDistinct w p fn r h)
run-AllDistinct (unsubscribes w p ∷ ops) r h =
    run-AllDistinct ops (unsubscribe w p r) (unsubscribe-AllDistinct w p r h)

-- Whatever was subscribed and unsubscribed on a new router, a notification that is published on a
-- runtime that is not shut down reaches each protocol exactly once if the specification has a handler
-- for it, with that handler, and no other protocol's mailbox.
pub publish_reaches_subscribers :
    (ops : List Operation) (wire_id n q : ℕ) (boxes : Mailboxes)
    → publish none wire_id n (run ops []) boxes q
      ≡ boxes q ++ delivered n (spec ops (λ v' q'. none) wire_id q)
unfolding publish AllDistinct
publish_reaches_subscribers ops wire_id n q boxes =
    publish_to_all n (snapshot_subscribers wire_id (run ops [])) boxes q
      (run-AllDistinct ops [] empty_Distinct wire_id)
    ∙ ap (λ (o : Option ℕ). boxes q ++ delivered n o)
        (unfold handler_of in (router_refines_table ops wire_id q 0).0)
  where
    empty_Distinct : AllDistinct []
    empty_Distinct w = unfold snapshot_subscribers lookup AllDistinct in tt
