-- ===== src/Membership/Examples.antt =====
-- A membership protocol of cmd/gossip/membership/protocol.go with one peer, which meets a second.
use go_simple_protocol_runti.Common.{◌≡◌, refl, List, [], ◌∷◌, true, false, some, lookup}
use go_simple_protocol_runti.Common.Int.{pos}
use go_simple_protocol_runti.Transport.Host.{Host, host_eq, new_host}
use go_simple_protocol_runti.Gossip
use go_simple_protocol_runti.Gossip.{contains, handle_initial_view, handle_view_changed}
use go_simple_protocol_runti.Membership.{
  Protocol, Event, up, down, step, run, appeared, hosts, handle_get_view,
}
use go_simple_protocol_runti.Membership.View.{
  has_peer, Agrees, all_handled, handle_all, view_from_reply, late_reply_loses_peer,
}

abbrev first_peer : Host
first_peer = new_host (pos 7001) (10 ∷ [])

abbrev second_peer : Host
second_peer = new_host (pos 7002) (10 ∷ [])

abbrev one_session : Protocol
one_session = record { contacts = []; view = (first_peer, tt) ∷ []; published = [] }

abbrev fresh_gossip : Gossip.Protocol
fresh_gossip = record { seen = []; view = []; delivered = []; sent = [] }

abbrev changes : List Event
changes = up second_peer ∷ up first_peer ∷ down first_peer ∷ []

view_from_reply_example :
    Agrees
      (handle_all
        (run changes (all_handled one_session)).published
        (handle_initial_view (some (first_peer ∷ [])) fresh_gossip))
      (run changes (all_handled one_session))
unfolding handle_get_view hosts
view_from_reply_example =
    view_from_reply changes one_session fresh_gossip (first_peer ∷ []) (λ h. refl)

late_reply_loses_peer_example :
    let joined = step (up second_peer) (all_handled one_session) in
    (joined.published ≡ appeared second_peer ∷ [])
    × (contains second_peer
          (handle_initial_view
            (some (first_peer ∷ []))
            (handle_all joined.published fresh_gossip)).view
        ≡ false)
    × (has_peer second_peer joined ≡ true)
    × (contains second_peer
          (handle_all joined.published
            (handle_initial_view (some (first_peer ∷ [])) fresh_gossip)).view
        ≡ true)
unfolding handle_get_view hosts lookup
late_reply_loses_peer_example =
    late_reply_loses_peer second_peer one_session fresh_gossip (first_peer ∷ []) refl (λ h. refl)
