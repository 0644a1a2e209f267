-- ===== src/Transport/Session/Mapping.antt =====
-- The two host mappings of pkg/transport/session.go and their invariant.
use go_simple_protocol_runti.Common.{
  ◌≡◌, ◌≢◌, false, Option, none, some, inl, inr, if◌then◌else◌, ◌==◌, lookup, lookup-insert,
  lookup-delete, Option-cases, arith,
}
use go_simple_protocol_runti.Transport.Host.{Host, host_eq, host_beq_iff}
use go_simple_protocol_runti.Transport.Session.{
  SessionState, idle, established, SessionConn, SessionLayer, Conn, set_server_mapping,
  cleanup_server_mapping,
}

-- A reverse entry always has its forward entry.
abbrev pub Agree : SessionLayer → Type 0
Agree s =
    (l t : Host)
    → lookup l s.logical_to_transport ≡ some t
    → lookup t s.transport_to_logical ≡ some l

pub transport_to_logical-set :
    (t l j : Host) (s : SessionLayer)
    → lookup j (set_server_mapping t l s).transport_to_logical
      ≡ (if t == j then some l else lookup j s.transport_to_logical)
unfolding set_server_mapping
transport_to_logical-set t l j s = lookup-insert t j l s.transport_to_logical

pub transport_to_logical-cleanup :
    (h j : Host) (s : SessionLayer)
    → lookup j (cleanup_server_mapping h s).transport_to_logical
      ≡ (if h == j then none else lookup j s.transport_to_logical)
unfolding cleanup_server_mapping
transport_to_logical-cleanup h j s =
    ground (arith, lookup-delete h j s.transport_to_logical, host_beq_iff h j)

pub sessions-cleanup :
    (h : Host) (s : SessionLayer) → (cleanup_server_mapping h s).sessions ≡ s.sessions
unfolding cleanup_server_mapping
sessions-cleanup h s = ground arith

-- Recording a host that was not mapped keeps the mappings in agreement.
pub set_server_mapping-Agree :
    (t l : Host) (s : SessionLayer)
    → lookup t s.transport_to_logical ≡ none
    → Agree s
    → Agree (set_server_mapping t l s)
unfolding set_server_mapping
set_server_mapping-Agree t l s fresh agree l' t' e = ground (
  arith,
  lookup-insert l l' t s.logical_to_transport,
  lookup-insert t t' l s.transport_to_logical,
  host_beq_iff l l',
  host_beq_iff t t',
  agree l' t',
)

pub cleanup_server_mapping-Agree :
    (h : Host) (s : SessionLayer) → Agree s → Agree (cleanup_server_mapping h s)
unfolding cleanup_server_mapping
cleanup_server_mapping-Agree h s agree l' t' e =
    elim (Option-cases (lookup h s.transport_to_logical)) [
      | inl unmapped ↦ ground (arith, agree l' t')
      | inr (l, mapped) ↦ ground (
        arith,
        lookup-delete l l' s.logical_to_transport,
        lookup-delete h t' s.transport_to_logical,
        host_beq_iff l l',
        host_beq_iff h t',
        agree l' t',
      )
    ]

abbrev pub state_of : Option SessionConn → SessionState
state_of none = idle
state_of (some sc) = sc.state

-- What the session layer maintains between two inputs.
pub record Inv (s : SessionLayer) : Type 0 where
  pub keyed : (t : Host) (sc : SessionConn) → lookup t s.sessions ≡ some sc → sc.transport_host ≡ t
  pub mapped :
      (t l : Host)
      → lookup t s.transport_to_logical ≡ some l
      → state_of (lookup t s.sessions) ≡ established
  pub agree : Agree s

-- The same while the session of `t` is out of the table, in the hands of a callback.
pub record HeldInv (t : Host) (c : Conn) : Type 0 where
  pub own : c.0.transport_host ≡ t
  pub keyed :
      (j : Host) (sc : SessionConn) → lookup j c.1.sessions ≡ some sc → sc.transport_host ≡ j
  pub held : (l : Host) → lookup t c.1.transport_to_logical ≡ some l → c.0.state ≡ established
  pub others :
      (j l : Host)
      → (t == j) ≡ false
      → lookup j c.1.transport_to_logical ≡ some l
      → state_of (lookup j c.1.sessions) ≡ established
  pub agree : Agree c.1

-- A session that is not established is not mapped.
pub HeldInv-unmapped :
    (t : Host) (c : Conn)
    → HeldInv t c
    → c.0.state ≢ established
    → lookup t c.1.transport_to_logical ≡ none
HeldInv-unmapped t c v other = elim (Option-cases (lookup t c.1.transport_to_logical)) [
  | inl e ↦ e
  | inr (l, e) ↦ absurd (other (v.held l e))
]
