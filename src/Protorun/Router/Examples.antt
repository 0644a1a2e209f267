-- ===== src/Protorun/Router/Examples.antt =====
-- Two subscribers of pkg/protorun/ipc_router.go, one of which leaves.
use go_simple_protocol_runti.Common.{◌≡◌, ◌≢◌, List, [], ◌∷◌, ◌++◌, none, some, lookup, nat_eq}
use go_simple_protocol_runti.Protorun.Router.{
  Operation, subscribes, unsubscribes, run, publish, Mailboxes,
}
use go_simple_protocol_runti.Protorun.Router.Buckets.{handler_of}
use go_simple_protocol_runti.Protorun.Router.Fanout.{
  spec, delivered, router_refines_table, publish_reaches_subscribers,
}

abbrev operations : List Operation
operations = subscribes 7 1 10 ∷ subscribes 7 2 20 ∷ unsubscribes 7 1 ∷ []

abbrev empty_boxes : Mailboxes
empty_boxes q = []

router_refines_table_example :
    (handler_of 7 2 (run operations []) ≡ spec operations (λ v q. none) 7 2)
    × (lookup 7 (run operations []) ≢ some [])
router_refines_table_example = router_refines_table operations 7 2 7

publish_reaches_subscribers_example :
    publish none 7 3 (run operations []) empty_boxes 2
    ≡ empty_boxes 2 ++ delivered 3 (spec operations (λ v q. none) 7 2)
publish_reaches_subscribers_example = publish_reaches_subscribers operations 7 3 2 empty_boxes
