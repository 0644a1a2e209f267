-- ===== src/Membership/View.antt =====
-- cmd/gossip/membership/protocol.go together with cmd/gossip/gossip/protocol.go: the gossip protocol's
-- view is built from the reply to a GetView and from ViewChanged notifications, which travel to it on
-- two separate channels.
use go_simple_protocol_runti.Common.{
  ◌≡◌, refl, ap, ◌∙◌, List, [], ◌∷◌, ◌++◌, Bool, true, false, not, ◌&&◌, ◌||◌, none, some, ◌==◌,
  Map, lookup, lookup-insert, lookup-delete, arith, sym, Option-cases, inl, inr,
}
use go_simple_protocol_runti.Transport.Host.{Host, host_eq, host_beq_iff}
use go_simple_protocol_runti.Membership.{
  Protocol, ViewChanged, appeared, vanished, on_session_connected, on_session_disconnected, hosts,
  handle_get_view, Event, up, down, step, run,
}
use go_simple_protocol_runti.Gossip
use go_simple_protocol_runti.Gossip.{contains, excluding, handle_view_changed, handle_initial_view}

abbrev pub has_peer : Host → Protocol → Bool
has_peer h m = elim (lookup h m.view) [ none ↦ false | some _ ↦ true ]

-- The gossip protocol's view holds exactly the hosts of the membership view.
abbrev pub Agrees : Gossip.Protocol → Protocol → Type 0
Agrees p m = (h : Host) → contains h p.view ≡ has_peer h m

-- The gossip protocol handles what was published, which is logged last first, in order.
abbrev pub handle_all : List ViewChanged → Gossip.Protocol → Gossip.Protocol
handle_all [] p = p
handle_all (ev ∷ earlier) p = handle_view_changed ev (handle_all earlier p)

-- A membership protocol of which every earlier notification has been handled.
abbrev pub all_handled : Protocol → Protocol
all_handled m = record m { published = [] }

contains-append :
    (h : Host) (xs ys : List Host) → contains h (xs ++ ys) ≡ (contains h xs || contains h ys)
unfolding contains
contains-append h [] ys = refl
contains-append h (x ∷ xs) ys = ground (arith, contains-append h xs ys)

contains-excluding :
    (h gone : Host) (view : List Host)
    → contains h (excluding view gone) ≡ (not (gone == h) && contains h view)
unfolding contains excluding
contains-excluding h gone [] = ground arith
contains-excluding h gone (x ∷ view) = ground (
  arith,
  contains-excluding h gone view,
  host_beq_iff x gone,
  host_beq_iff x h,
  host_beq_iff gone h,
)

contains-hosts :
    (h : Host) (view : Map Host (Unit {0}))
    → contains h (hosts view) ≡ elim (lookup h view) [ none ↦ false | some _ ↦ true ]
unfolding contains hosts lookup
contains-hosts h [] = refl
contains-hosts h ((x, _) ∷ view) = ground (arith, contains-hosts h view)

added_follows :
    (g h : Host) (p : Gossip.Protocol)
    → contains g (handle_view_changed (appeared h) p).view ≡ ((h == g) || contains g p.view)
unfolding handle_view_changed contains
added_follows g h p = ground (arith, contains-append g p.view (h ∷ []), host_beq_iff h g)

removed_follows :
    (g h : Host) (p : Gossip.Protocol)
    → contains g (handle_view_changed (vanished h) p).view ≡ (not (h == g) && contains g p.view)
unfolding handle_view_changed
removed_follows g h p = contains-excluding g h p.view

-- What a session event does to the membership view.
up_lem : (g h : Host) (m : Protocol) → has_peer g (step (up h) m) ≡ ((h == g) || has_peer g m)
unfolding step on_session_connected
up_lem g h m = ground (arith, lookup-insert h g tt m.view, host_beq_iff h g)

down_lem :
    (g h : Host) (m : Protocol) → has_peer g (step (down h) m) ≡ (not (h == g) && has_peer g m)
unfolding step on_session_disconnected
down_lem g h m = ground (arith, lookup-delete h g m.view, host_beq_iff h g)

same_peer : (h g : Host) (m : Protocol) → (h == g) ≡ true → has_peer h m ≡ has_peer g m
same_peer h g m e = ap (λ (x : Host). has_peer x m) ((host_beq_iff h g).0 e)

up-Agrees :
    (h : Host) (m : Protocol) (p : Gossip.Protocol)
    → Agrees (handle_all m.published p) m
    → Agrees (handle_all (step (up h) m).published p) (step (up h) m)
unfolding step on_session_connected
up-Agrees h m p agrees g = elim (Option-cases (lookup h m.view)) [
  | inl absent ↦
      ap (λ (log : List ViewChanged). contains g (handle_all log p).view) (published_up absent)
      ∙ added_follows g h (handle_all m.published p)
      ∙ rw (agrees g) (sym (up_lem g h m))
  | inr (u, present) ↦
      ap (λ (log : List ViewChanged). contains g (handle_all log p).view) (published_none present)
      ∙ agrees g
      ∙ sym (up_lem g h m ∙ ground (arith, same_peer h g m))
]
  where
    published_up : lookup h m.view ≡ none → (step (up h) m).published ≡ appeared h ∷ m.published
    published_up absent = ground arith

    published_none :
        {u : Unit {0}} → lookup h m.view ≡ some u → (step (up h) m).published ≡ m.published
    published_none present = ground arith

down-Agrees :
    (h : Host) (m : Protocol) (p : Gossip.Protocol)
    → Agrees (handle_all m.published p) m
    → Agrees (handle_all (step (down h) m).published p) (step (down h) m)
unfolding step on_session_disconnected
down-Agrees h m p agrees g = elim (Option-cases (lookup h m.view)) [
  | inl absent ↦
      ap (λ (log : List ViewChanged). contains g (handle_all log p).view) (published_none absent)
      ∙ agrees g
      ∙ sym (down_lem g h m ∙ ground (arith, same_peer h g m))
  | inr (u, present) ↦
      ap (λ (log : List ViewChanged). contains g (handle_all log p).view) (published_down present)
      ∙ removed_follows g h (handle_all m.published p)
      ∙ rw (agrees g) (sym (down_lem g h m))
]
  where
    published_down :
        {u : Unit {0}}
        → lookup h m.view ≡ some u
        → (step (down h) m).published ≡ vanished h ∷ m.published
    published_down present = ground arith

    published_none : lookup h m.view ≡ none → (step (down h) m).published ≡ m.published
    published_none absent = ground arith

-- If the gossip view holds the hosts of the membership view once everything published so far has been
-- handled, then it holds them again once everything that the session events publish has been handled too.
view_follows_membership :
    (es : List Event) (m : Protocol) (p : Gossip.Protocol)
    → Agrees (handle_all m.published p) m
    → Agrees (handle_all (run es m).published p) (run es m)
unfolding run
view_follows_membership [] m p agrees = agrees
view_follows_membership (up h ∷ es) m p agrees =
    view_follows_membership es (step (up h) m) p (up-Agrees h m p agrees)
view_follows_membership (down h ∷ es) m p agrees =
    view_follows_membership es (step (down h) m) p (down-Agrees h m p agrees)

-- The reply to a GetView, with its hosts in any order, sets the gossip view to the membership view.
initial_view-Agrees :
    (m : Protocol) (p : Gossip.Protocol) (peers : List Host)
    → ((h : Host) → contains h peers ≡ contains h (handle_get_view m))
    → Agrees (handle_initial_view (some peers) p) m
unfolding handle_initial_view handle_get_view
initial_view-Agrees m p peers listed h = listed h ∙ contains-hosts h m.view

-- If the gossip protocol handles the reply to its GetView, whose hosts come in any order, and then in
-- order every notification that the membership protocol publishes in the session events after that
-- reply, its view holds exactly the hosts of the membership view, whatever either view was before.
pub view_from_reply :
    (es : List Event) (m : Protocol) (p : Gossip.Protocol) (peers : List Host)
    → ((h : Host) → contains h peers ≡ contains h (handle_get_view m))
    → Agrees
        (handle_all (run es (all_handled m)).published (handle_initial_view (some peers) p))
        (run es (all_handled m))
unfolding handle_get_view
view_from_reply es m p peers listed =
    view_follows_membership es (all_handled m) (handle_initial_view (some peers) p)
      (initial_view-Agrees m p peers listed)

-- The order of the two channels matters. The membership protocol answers a GetView, then a session
-- with a new peer comes up, and the gossip protocol handles what is published of it before the reply,
-- whose hosts come in any order: its view then lacks the peer, which the membership view has, while in
-- the other order its view has the peer.
pub late_reply_loses_peer :
    (h : Host) (m : Protocol) (p : Gossip.Protocol) (peers : List Host)
    → has_peer h m ≡ false
    → ((g : Host) → contains g peers ≡ contains g (handle_get_view m))
    → let joined = step (up h) (all_handled m) in
      (joined.published ≡ appeared h ∷ [])
      × (contains h (handle_initial_view (some peers) (handle_all joined.published p)).view ≡ false)
      × (has_peer h joined ≡ true)
      × (contains h (handle_all joined.published (handle_initial_view (some peers) p)).view ≡ true)
unfolding handle_get_view run
late_reply_loses_peer h m p peers absent listed =
    let joined = step (up h) (all_handled m) in
    let now : has_peer h joined ≡ true =
      up_lem h h (all_handled m) ∙ ground (arith, host_beq_iff h h) in
    (
      published_now,
      initial_view-Agrees m (handle_all joined.published p) peers listed h ∙ absent,
      now,
      view_follows_membership (up h ∷ []) (all_handled m) (handle_initial_view (some peers) p)
            (initial_view-Agrees m p peers listed) h
          ∙ now,
    )
  where
    published_now : (step (up h) (all_handled m)).published ≡ appeared h ∷ []
    published_now = unfold step in unfold on_session_connected in ground arith
