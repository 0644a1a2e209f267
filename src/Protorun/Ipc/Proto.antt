-- ===== src/Protorun/Ipc/Proto.antt =====
-- One protocol's account of its request ids: those that wait and those whose callback has run.
use go_simple_protocol_runti.Common.{
  ℕ, zero, suc, ◌+◌, ◌≡◌, refl, List, [], ◌∷◌, Bool, none, some, if◌then◌else◌, ◌==◌, nat_eq,
  nat_beq_iff, leb, lookup, lookup-insert, lookup-delete, arith,
}
use go_simple_protocol_runti.Protorun.Ipc.{
  InboundReply, ProtoProtocol, new_proto, register_pending, handle_reply, take_reply,
}

module _ (Req Rep : Type 0) (accepts : ℕ → Req → Bool) where
  abbrev P : Type 0
  P = ProtoProtocol Req Rep accepts

  -- How often the callback of request `id` ran.
  unfoldable pub times_called : ℕ → List (InboundReply Req Rep accepts) → ℕ
  times_called id [] = 0
  times_called id (c ∷ cs) = (if c.request_id == id then 1 else 0) + times_called id cs

  abbrev pub waiting : ℕ → P → ℕ
  waiting id p = elim (lookup id p.pending) [ none ↦ 0 | some _ ↦ 1 ]

  abbrev pub handed_out : ℕ → P → ℕ
  handed_out id p = if leb id p.next_request_id then (elim id [ zero ↦ 0 | suc _ ↦ 1 ]) else 0

  abbrev pub Once : P → Type 0
  Once p = (id : ℕ) → times_called id p.called + waiting id p ≡ handed_out id p

  pub new_proto-Once : Once (new_proto Req Rep accepts)
  unfolding new_proto times_called lookup
  new_proto-Once zero = refl
  new_proto-Once (suc n) = ground arith

  pub register_pending-Once : (w : ℕ) (p : P) → Once p → Once (register_pending Req Rep accepts w p)
  unfolding register_pending
  register_pending-Once w p h zero =
      let old = h zero in
      ground (
        arith,
        lookup-insert (suc p.next_request_id) zero (record { wire_id = w }) p.pending,
        nat_beq_iff (suc p.next_request_id) zero,
      )
  register_pending-Once w p h (suc id) =
      let old = h (suc id) in
      ground (
        arith,
        lookup-insert (suc p.next_request_id) (suc id) (record { wire_id = w }) p.pending,
        nat_beq_iff (suc p.next_request_id) (suc id),
      )

  pub handle_reply-Once :
      (c : InboundReply Req Rep accepts) (p : P) → Once p → Once (handle_reply Req Rep accepts c p)
  unfolding handle_reply times_called
  handle_reply-Once c p h id =
      let old = h id in
      ground (arith, lookup-delete c.request_id id p.pending, nat_beq_iff c.request_id id)

  pub take_reply-Once : (p : P) → Once p → Once (take_reply Req Rep accepts p)
  unfolding take_reply
  take_reply-Once p h = go p.reply_events refl
    where
      go :
          (l : List (InboundReply Req Rep accepts))
          → p.reply_events ≡ l
          → Once (take_reply Req Rep accepts p)
      go [] e = rw (e, take_reply) h
      go (c ∷ rest) e =
          rw (e, take_reply) (handle_reply-Once c (record p { reply_events = rest }) h)
