-- ===== src/Transport/Session/Held.antt =====
-- The session that withSession of pkg/transport/session.go hands out, and the invariant of the mappings.
use go_simple_protocol_runti.Common.{◌≡◌, ◌≢◌, refl, ◌∙◌, lookup-insert, arith}
use go_simple_protocol_runti.Transport.Host.{Host, host_eq, host_beq_iff}
use go_simple_protocol_runti.Transport.Session.{
  established, SessionConn, SessionLayer, Output, emit, cleanup_server_mapping, establish,
}
use go_simple_protocol_runti.Transport.Session.Mapping.{
  HeldInv, HeldInv-unmapped, transport_to_logical-cleanup, sessions-cleanup,
  set_server_mapping-Agree, cleanup_server_mapping-Agree,
}

-- What only writes the log, or the fields of a session that is not mapped, keeps it.
pub HeldInv-emit :
    (t : Host) (sc : SessionConn) (o : Output) (s : SessionLayer)
    → HeldInv t (sc, s)
    → HeldInv t (sc, emit o s)
HeldInv-emit t sc o s v = record {
  own = v.own;
  keyed = v.keyed;
  held = v.held;
  others = v.others;
  agree = v.agree;
}

pub HeldInv-state :
    (t : Host) (sc sc' : SessionConn) (s : SessionLayer)
    → sc'.transport_host ≡ sc.transport_host
    → sc.state ≢ established
    → HeldInv t (sc, s)
    → HeldInv t (sc', s)
HeldInv-state t sc sc' s same other v = record {
  own = same ∙ v.own;
  keyed = v.keyed;
  held = λ l e. absurd (other (v.held l e));
  others = v.others;
  agree = v.agree;
}

-- A change that leaves the transport host and the state alone.
pub HeldInv-fields :
    (t : Host) (sc sc' : SessionConn) (s : SessionLayer)
    → sc'.transport_host ≡ sc.transport_host
    → sc'.state ≡ sc.state
    → HeldInv t (sc, s)
    → HeldInv t (sc', s)
HeldInv-fields t sc sc' s same kept v = record {
  own = same ∙ v.own;
  keyed = v.keyed;
  held = λ l e. kept ∙ v.held l e;
  others = v.others;
  agree = v.agree;
}

pub HeldInv-establish :
    (t : Host) (sc : SessionConn) (s : SessionLayer)
    → sc.state ≢ established
    → HeldInv t (sc, s)
    → HeldInv t (establish (sc, s))
unfolding establish
HeldInv-establish t sc s other v =
    let host : sc.transport_host ≡ t = v.own in
    let fresh = HeldInv-unmapped t (sc, s) v other in
    record {
      own = v.own;
      keyed = v.keyed;
      held = λ l e. refl;
      others = λ j l ne e. ground (
        arith,
        lookup-insert sc.transport_host j sc.logical_host s.transport_to_logical,
        v.others j l,
      );
      agree = set_server_mapping-Agree sc.transport_host sc.logical_host s (rw host fresh) v.agree;
    }

pub HeldInv-cleanup :
    (t : Host) (sc sc' : SessionConn) (s : SessionLayer)
    → sc'.transport_host ≡ sc.transport_host
    → HeldInv t (sc, s)
    → HeldInv t (sc', cleanup_server_mapping sc.transport_host s)
HeldInv-cleanup t sc sc' s same v = record {
  own = same ∙ v.own;
  keyed = rw (sessions-cleanup sc.transport_host s) v.keyed;
  held =
      λ l e. ground (arith, transport_to_logical-cleanup sc.transport_host t s, host_beq_iff t t);
  others = λ j l ne e.
      rw (sessions-cleanup sc.transport_host s)
        (ground (arith, transport_to_logical-cleanup sc.transport_host j s, v.others j l));
  agree = cleanup_server_mapping-Agree sc.transport_host s v.agree;
}
