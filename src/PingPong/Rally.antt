-- ===== src/PingPong/Rally.antt =====
-- cmd/pingpong/protocol/ping.go on two nodes: how many rallies go on.
use go_simple_protocol_runti.Common.{
  ℕ, zero, suc, ◌+◌, ◌≡◌, refl, ap, ◌∙◌, List, [], ◌∷◌, ◌++◌, Bool, true, false, not, ◌&&◌, Option,
  none, some, if◌then◌else◌, ◌==◌, nth, put_back, Bool-cases, inl, inr, arith,
}
use go_simple_protocol_runti.Transport.Host.{Host, host_eq}
use go_simple_protocol_runti.PingPong.{
  Message, ping, pong, Protocol, next_ping, on_session_connected, handle_ping, handle_pong, handle,
  Table, to_side, same_side, put_in_flight, Move, connects, arrive, move, run_moves,
}

-- Whose ball a message is: a Ping is its sender's, a Pong that of the node it goes back to.
abbrev is_ball_of : Bool → Bool × Message → Bool
is_ball_of x (side, ping n) = same_side side (not x)
is_ball_of x (side, pong n) = same_side side x

abbrev pub balls : Bool → List (Bool × Message) → ℕ
balls x [] = 0
balls x (q ∷ flight) = (if is_ball_of x q then 1 else 0) + balls x flight

-- How often a node learns of a session with its peer.
abbrev serves : Bool → Move → Table → ℕ
serves x (connects side h) t = if same_side side x && (h == (t.node side).peer) then 1 else 0
serves x (arrive k) t = 0

abbrev pub all_serves : Bool → List Move → Table → ℕ
all_serves x [] t = 0
all_serves x (m ∷ ms) t = serves x m t + all_serves x ms (move m t)

balls-append :
    (x : Bool) (fs gs : List (Bool × Message)) → balls x (fs ++ gs) ≡ balls x fs + balls x gs
balls-append x [] gs = omega arith
balls-append x (f ∷ fs) gs = omega (arith, balls-append x fs gs)

nth-balls :
    (x : Bool) (k : ℕ) (flight rest : List (Bool × Message)) (q : Bool × Message)
    → ◌≡◌ {A = Option ((Bool × Message) × List (Bool × Message))} (nth k flight) (some (q, rest))
    → balls x flight ≡ (if is_ball_of x q then 1 else 0) + balls x rest
nth-balls x k [] rest q e = cc
nth-balls x zero (f ∷ flight) rest q e =
    let same : ◌≡◌ {A = (Bool × Message) × List (Bool × Message)} (f, flight) (q, rest) = cc in
    ap
      (λ (t : (Bool × Message) × List (Bool × Message)).
        (if is_ball_of x t.0 then 1 else 0) + balls x t.1)
      same
nth-balls x (suc k) (f ∷ flight) rest q e =
    let (r, taken, others) = put_back f q rest (nth k flight) e in
    rw others (omega (arith, nth-balls x k flight r q taken))

handle-balls :
    (x side : Bool) (m : Message) (from target : Host) (p : Protocol)
    → p.sent ≡ []
    → (p.peer == target) ≡ true
    → balls x (to_side (not side) target (handle m from p).sent)
      ≡ (if is_ball_of x (side, m) then 1 else 0)
unfolding handle handle_ping handle_pong next_ping to_side
handle-balls true true (ping n) from target p none_sent meant = rw (none_sent, meant) refl
handle-balls true false (ping n) from target p none_sent meant = rw (none_sent, meant) refl
handle-balls false true (ping n) from target p none_sent meant = rw (none_sent, meant) refl
handle-balls false false (ping n) from target p none_sent meant = rw (none_sent, meant) refl
handle-balls true true (pong n) from target p none_sent meant = rw (none_sent, meant) refl
handle-balls true false (pong n) from target p none_sent meant = rw (none_sent, meant) refl
handle-balls false true (pong n) from target p none_sent meant = rw (none_sent, meant) refl
handle-balls false false (pong n) from target p none_sent meant = rw (none_sent, meant) refl

connect-balls :
    (x side : Bool) (h target : Host) (p : Protocol)
    → p.sent ≡ []
    → (p.peer == target) ≡ true
    → balls x (to_side (not side) target (on_session_connected h p).sent)
      ≡ (if same_side side x && (h == p.peer) then 1 else 0)
unfolding on_session_connected next_ping to_side
connect-balls x side h target p none_sent meant = elim (Bool-cases (h == p.peer)) [
  | inl peer ↦ go x side peer
  | inr other ↦ rw (other, on_session_connected) (rw none_sent (ground arith))
]
  where
    go :
        (x side : Bool)
        → (h == p.peer) ≡ true
        → balls x (to_side (not side) target (on_session_connected h p).sent)
          ≡ (if same_side side x && (h == p.peer) then 1 else 0)
    go true true e = rw (e, on_session_connected) (rw (none_sent, meant) refl)
    go true false e = rw (e, on_session_connected) (rw (none_sent, meant) refl)
    go false true e = rw (e, on_session_connected) (rw (none_sent, meant) refl)
    go false false e = rw (e, on_session_connected) (rw (none_sent, meant) refl)

-- Each node's peer is the other's host, and a node has no sends that are not in flight.
abbrev pub IsQuiet : Table → Type 0
IsQuiet t =
    (side : Bool)
    → ((t.node side).sent ≡ []) × (((t.node side).peer == t.host_of (not side)) ≡ true)

put_in_flight-IsQuiet :
    (side : Bool) (p : Protocol) (rest : List (Bool × Message)) (t : Table)
    → p.peer ≡ (t.node side).peer
    → IsQuiet t
    → IsQuiet (put_in_flight side p rest t)
put_in_flight-IsQuiet true p rest t same quiet true = (refl, rw same (quiet true).1)
put_in_flight-IsQuiet true p rest t same quiet false = quiet false
put_in_flight-IsQuiet false p rest t same quiet true = quiet true
put_in_flight-IsQuiet false p rest t same quiet false = (refl, rw same (quiet false).1)

handle-peer : (m : Message) (from : Host) (p : Protocol) → (handle m from p).peer ≡ p.peer
unfolding handle handle_ping handle_pong next_ping
handle-peer (ping n) from p = refl
handle-peer (pong n) from p = refl

connected-peer : (h : Host) (p : Protocol) → (on_session_connected h p).peer ≡ p.peer
unfolding on_session_connected next_ping
connected-peer h p = ground arith

move-balls :
    (x : Bool) (m : Move) (t : Table)
    → IsQuiet t
    → IsQuiet (move m t) × (balls x (move m t).flight ≡ serves x m t + balls x t.flight)
move-balls x (connects side h) t quiet =
    let p = on_session_connected h (t.node side) in
    (
      put_in_flight-IsQuiet side p t.flight t (connected-peer h (t.node side)) quiet,
      balls-append x (to_side (not side) (t.host_of (not side)) p.sent) t.flight
          ∙ ap (λ (n : ℕ). n + balls x t.flight)
              (connect-balls x side h (t.host_of (not side)) (t.node side) (quiet side).0
                (quiet side).1),
    )
move-balls x (arrive k) t quiet = go (nth k t.flight) refl
  where
    after : Option ((Bool × Message) × List (Bool × Message)) → Table
    after none = t
    after (some ((side, m), rest)) =
        put_in_flight side (handle m (t.host_of (not side)) (t.node side)) rest t

    go :
        (taken : Option ((Bool × Message) × List (Bool × Message)))
        → nth k t.flight ≡ taken
        → IsQuiet (after taken) × (balls x (after taken).flight ≡ 0 + balls x t.flight)
    go none e = (quiet, omega arith)
    go (some ((side, m), rest)) e =
        let p = handle m (t.host_of (not side)) (t.node side) in
        let q : Bool × Message = (side, m) in
        (
          put_in_flight-IsQuiet side p rest t (handle-peer m (t.host_of (not side)) (t.node side))
              quiet,
          omega (
            arith,
            balls-append x (to_side (not side) (t.host_of (not side)) p.sent) rest,
            handle-balls x side m (t.host_of (not side)) (t.host_of (not side)) (t.node side)
                (quiet side).0 (quiet side).1,
            nth-balls x k t.flight rest q e,
          ),
        )

-- Two nodes of the ping-pong program, each configured with the other's host and with no send of its
-- own that is not in flight, between which no message to the other's host is lost: of each node's
-- balls, its Pings on their way and the Pongs that come back to it, there are always as many as
-- there were at first and sessions with its peer that it has learned of since. So a rally never
-- stops, and each new session starts another one beside it.
pub rallies_go_on :
    (ms : List Move) (x : Bool) (t : Table)
    → IsQuiet t
    → balls x (run_moves ms t).flight ≡ all_serves x ms t + balls x t.flight
rallies_go_on [] x t quiet = omega arith
rallies_go_on (m ∷ ms) x t quiet =
    let (quiet', one) = move-balls x m t quiet in
    let rest = rallies_go_on ms x (move m t) quiet' in omega (arith, one, rest)
