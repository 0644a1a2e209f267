-- ===== src/Protorun/Router.antt =====
-- pkg/protorun/ipc_router.go, the notification side, with publishNotification of runtime.go. A
-- protocol, a handler and a notification are numbers. `budget` is how many of the guarded sends the
-- runtime's context still lets through, `none` for all of them. Go iterates over a map in no fixed
-- order: the snapshot here is in the order of the table.
pub mod Buckets
pub mod Fanout
pub mod Examples
use go_simple_protocol_runti.Common.{
  ℕ, zero, suc, List, [], ◌∷◌, ◌++◌, length, Bool, true, false, Option, none, some, if◌then◌else◌,
  ◌==◌, nat_eq, Map, lookup, insert, delete,
}

-- notificationFanout: for a wire id, the handler of each subscribed protocol.
abbrev pub Router : Type 0
Router = Map ℕ (Map ℕ ℕ)

unfoldable pub snapshot_subscribers : ℕ → Router → Map ℕ ℕ
snapshot_subscribers wire_id r = elim (lookup wire_id r) [ none ↦ [] | some subs ↦ subs ]

unfoldable pub subscribe : ℕ → ℕ → ℕ → Router → Router
unfolding snapshot_subscribers
subscribe wire_id proto fn r = insert wire_id (insert proto fn (snapshot_subscribers wire_id r)) r

unfoldable pub unsubscribe : ℕ → ℕ → Router → Router
unsubscribe wire_id proto r = elim (lookup wire_id r) [
  | none ↦ r
  | some subs ↦
      let left = delete proto subs in
      if length left == 0 then delete wire_id r else insert wire_id left r
]

-- The notificationEvents channel of each protocol: a notification and the handler it carries.
abbrev pub Mailboxes : Type 0
Mailboxes = ℕ → List (ℕ × ℕ)

unfoldable pub publish_to : Option ℕ → ℕ → Map ℕ ℕ → Mailboxes → Mailboxes
publish_to budget n [] boxes = boxes
publish_to none n ((proto, fn) ∷ subs) boxes =
    publish_to none n subs (λ q. if proto == q then boxes q ++ ((n, fn) ∷ []) else boxes q)
publish_to (some zero) n ((proto, fn) ∷ subs) boxes = boxes
publish_to (some (suc k)) n ((proto, fn) ∷ subs) boxes =
    publish_to (some k) n subs (λ q. if proto == q then boxes q ++ ((n, fn) ∷ []) else boxes q)

-- publishNotification
unfoldable pub publish : Option ℕ → ℕ → ℕ → Router → Mailboxes → Mailboxes
unfolding publish_to snapshot_subscribers
publish budget wire_id n r boxes = publish_to budget n (snapshot_subscribers wire_id r) boxes

pub data Operation : Type 0 where
  subscribes : ℕ → ℕ → ℕ → Operation
  unsubscribes : ℕ → ℕ → Operation

unfoldable pub run : List Operation → Router → Router
unfolding subscribe unsubscribe
run [] r = r
run (subscribes w p fn ∷ ops) r = run ops (subscribe w p fn r)
run (unsubscribes w p ∷ ops) r = run ops (unsubscribe w p r)
