-- ===== src/Gossip/Delivery.antt =====
-- cmd/gossip/gossip/protocol.go: deliveries of a message and where it is sent on to.
use go_simple_protocol_runti.Common.{
  ℕ, ◌+◌, ◌≡◌, refl, ap, ◌∙◌, List, [], ◌∷◌, Bool, false, not, ◌&&◌, ◌||◌, if◌then◌else◌, ◌==◌,
  nat_eq, nat_beq_iff, inl, inr, Bool-cases, arith,
}
use go_simple_protocol_runti.Transport.Host.{Host, host_eq, host_beq_iff}
use go_simple_protocol_runti.Gossip.{
  Message, Protocol, is_seen, excluding, fanout, spread, disseminate, handle_inbound,
  handle_initial_view, handle_view_changed, Event, broadcasts, inbound, initial_view, view_changed,
  step, run,
}

-- How often a message with this id is among those delivered.
abbrev pub times : ℕ → List Message → ℕ
times id [] = 0
times id (m ∷ ms) = (if m.id == id then 1 else 0) + times id ms

-- Whether one of the events brings a message with this id.
abbrev pub brings : ℕ → List Event → Bool
brings id [] = false
brings id (broadcasts i payload ∷ es) = (i == id) || brings id es
brings id (inbound msg sender ∷ es) = (msg.id == id) || brings id es
brings id (initial_view peers ∷ es) = brings id es
brings id (view_changed ev ∷ es) = brings id es

-- Whether a broadcast of this node mints this id.
abbrev pub mints : ℕ → List Event → Bool
mints id [] = false
mints id (broadcasts i payload ∷ es) = (i == id) || mints id es
mints id (inbound msg sender ∷ es) = mints id es
mints id (initial_view peers ∷ es) = mints id es
mints id (view_changed ev ∷ es) = mints id es

fanout_keeps :
    (msg : Message) (peers : List Host) (p : Protocol)
    → ((fanout msg peers p).seen ≡ p.seen) × ((fanout msg peers p).delivered ≡ p.delivered)
unfolding fanout
fanout_keeps msg [] p = (refl, refl)
fanout_keeps msg (peer ∷ peers) p =
    fanout_keeps msg peers (record p { sent = (msg, peer) ∷ p.sent })

spread_delivers :
    (msg : Message) (peers : List Host) (p : Protocol)
    → ((spread msg peers p).seen ≡ msg.id ∷ p.seen)
      × ((spread msg peers p).delivered ≡ msg ∷ p.delivered)
unfolding spread
spread_delivers msg peers p =
    fanout_keeps msg peers (record p { seen = msg.id ∷ p.seen; delivered = msg ∷ p.delivered })

-- The deliveries that a step adds for an id that it does not mint.
step_delivers :
    (id : ℕ) (e : Event) (p : Protocol)
    → mints id (e ∷ []) ≡ false
    → (times id (step e p).delivered
        ≡ times id p.delivered + (if brings id (e ∷ []) && not (is_seen id p.seen) then 1 else 0))
      × (is_seen id (step e p).seen ≡ (brings id (e ∷ []) || is_seen id p.seen))
unfolding step disseminate handle_inbound handle_initial_view handle_view_changed is_seen
step_delivers id (broadcasts i payload) p minted =
    let msg : Message = record { id = i; payload = payload } in
    let (s, d) = spread_delivers msg p.view p in (rw d (ground arith), rw s (ground arith))
step_delivers id (inbound msg sender) p minted = elim (Bool-cases (is_seen msg.id p.seen)) [
  | inl dup ↦
      let same : handle_inbound msg sender p ≡ p = rw (dup, handle_inbound) refl in
      (
        rw same (ground (arith, nat_beq_iff msg.id id)),
        rw same (ground (arith, nat_beq_iff msg.id id)),
      )
  | inr new ↦
      let taken : handle_inbound msg sender p ≡ spread msg (excluding p.view sender) p =
        rw (new, handle_inbound) refl in
      let (s, d) = spread_delivers msg (excluding p.view sender) p in
      (
        rw (taken, d) (ground (arith, nat_beq_iff msg.id id)),
        rw (taken, s) (ground (arith, nat_beq_iff msg.id id)),
      )
]
step_delivers id (initial_view peers) p minted = (ground arith, ground arith)
step_delivers id (view_changed ev) p minted = (ground arith, ground arith)

brings-cons :
    (id : ℕ) (e : Event) (es : List Event)
    → brings id (e ∷ es) ≡ (brings id (e ∷ []) || brings id es)
brings-cons id (broadcasts i payload) es = ground arith
brings-cons id (inbound msg sender) es = ground arith
brings-cons id (initial_view peers) es = refl
brings-cons id (view_changed ev) es = refl

mints-cons :
    (id : ℕ) (e : Event) (es : List Event) → mints id (e ∷ es) ≡ (mints id (e ∷ []) || mints id es)
mints-cons id (broadcasts i payload) es = ground arith
mints-cons id (inbound msg sender) es = refl
mints-cons id (initial_view peers) es = refl
mints-cons id (view_changed ev) es = refl

-- An id that this node mints for none of its own broadcasts in a sequence of events is delivered
-- exactly once if one of the events brings it and it was not seen before, however many copies come
-- in, and otherwise not at all.
pub delivered_once :
    (id : ℕ) (es : List Event) (p : Protocol)
    → mints id es ≡ false
    → times id (run es p).delivered
      ≡ times id p.delivered + (if brings id es && not (is_seen id p.seen) then 1 else 0)
unfolding run
delivered_once id [] p minted = omega arith
delivered_once id (e ∷ es) p minted =
    let split = mints-cons id e es in
    let here : mints id (e ∷ []) ≡ false = ground arith in
    let later : mints id es ≡ false = ground arith in
    let (d, s) = step_delivers id e p here in
    let rest = delivered_once id es (step e p) later in
    let parts = brings-cons id e es in ground arith

-- How many messages were sent to a host, and how often a view has it.
abbrev pub copies : Host → List (Message × Host) → ℕ
copies h [] = 0
copies h ((m, peer) ∷ rest) = (if peer == h then 1 else 0) + copies h rest

abbrev occurrences : Host → List Host → ℕ
occurrences h [] = 0
occurrences h (peer ∷ rest) = (if peer == h then 1 else 0) + occurrences h rest

fanout-copies :
    (h : Host) (msg : Message) (peers : List Host) (p : Protocol)
    → copies h (fanout msg peers p).sent ≡ copies h p.sent + occurrences h peers
unfolding fanout
fanout-copies h msg [] p = omega arith
fanout-copies h msg (peer ∷ peers) p =
    let rest = fanout-copies h msg peers (record p { sent = (msg, peer) ∷ p.sent }) in
    omega (arith, rest)

occurrences-excluding :
    (h sender : Host) (view : List Host)
    → occurrences h (excluding view sender) ≡ (if h == sender then 0 else occurrences h view)
unfolding excluding
occurrences-excluding h sender [] = ground arith
occurrences-excluding h sender (peer ∷ view) = ground (
  arith,
  occurrences-excluding h sender view,
  host_beq_iff peer sender,
  host_beq_iff peer h,
  host_beq_iff h sender,
)

-- A message whose id is new goes to every host of the view, once for each time the view has it, but
-- not back to the host that it came from; a message whose id has been seen goes nowhere.
handle_inbound_forwards :
    (msg : Message) (sender h : Host) (p : Protocol)
    → copies h (handle_inbound msg sender p).sent
      ≡ copies h p.sent
        + (if is_seen msg.id p.seen || (h == sender) then 0 else occurrences h p.view)
unfolding spread handle_inbound
handle_inbound_forwards msg sender h p = elim (Bool-cases (is_seen msg.id p.seen)) [
  | inl dup ↦ rw (dup, handle_inbound) (omega arith)
  | inr new ↦
      rw (new, handle_inbound)
        (fanout-copies h msg (excluding p.view sender)
            (record p { seen = msg.id ∷ p.seen; delivered = msg ∷ p.delivered })
          ∙ ap (λ (n : ℕ). copies h p.sent + n) (occurrences-excluding h sender p.view))
]
