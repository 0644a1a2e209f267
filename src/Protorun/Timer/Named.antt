-- ===== src/Protorun/Timer/Named.antt =====
-- pkg/protorun/timer.go: the pending timers are those that the table names.
use go_simple_protocol_runti.Common.{
  ℕ, suc, ◌≤◌, ◌<◌, ◌≡◌, refl, List, [], ◌∷◌, false, some, ◌==◌, nat_eq, beq_refl, Map, lookup,
  insert, lookup-insert, inl, inr, arith, Option-cases, All,
}
use go_simple_protocol_runti.Common.Int.{ℤ, int_eq, int_beq_iff}
use go_simple_protocol_runti.Protorun.Timer.Pending.{All-stop, All-map}
use go_simple_protocol_runti.Protorun.Timer.{
  Scheduled, Timers, stop, stop_existing, setup_timer, stop_all,
}

abbrev no_names : Map ℤ ℕ
no_names = []

-- A pending timer is the one that its TimerID names.
abbrev pub IsNamed : Map ℤ ℕ → ℕ → Scheduled → Type 0
IsNamed m bound a = (lookup a.timer_id m ≡ some a.id) × (a.id < bound)

abbrev pub WellNamed : Timers → Type 0
WellNamed s = All (IsNamed s.ongoing_timers s.next_id) s.pending

-- Once the timer that `t` names is stopped, none with that id is pending.
pub All-stop_existing :
    (t : ℤ) (m m' : Map ℤ ℕ) (b b' : ℕ) (rest : List Scheduled)
    → ((u : ℤ) → (t == u) ≡ false → lookup u m' ≡ lookup u m)
    → b ≤ b'
    → All (IsNamed m b) rest
    → All (λ a. ((t == a.timer_id) ≡ false) × IsNamed m' b' a) (stop_existing (lookup t m) rest)
unfolding stop_existing
All-stop_existing t m m' b b' rest same le h = elim (Option-cases (lookup t m)) [
  | inl e ↦
      rw (e, stop_existing)
        (All-map rest (λ a v. ground (arith, int_beq_iff t a.timer_id, same a.timer_id)) h)
  | inr (id, e) ↦
      rw (e, stop_existing)
        (All-stop id rest (λ a other v. ground (arith, int_beq_iff t a.timer_id, same a.timer_id))
          h)
]

pub stop_all-empty :
    (m : Map ℤ ℕ) (rest : List Scheduled)
    → All (λ a. lookup a.timer_id m ≡ some a.id) rest
    → stop_all m rest ≡ []
unfolding stop_all lookup
stop_all-empty [] [] h = refl
stop_all-empty [] (a ∷ rest) h = absurd (no_entry a.id h.0)
  where
    no_entry : (id : ℕ) → lookup a.timer_id no_names ≡ some id → ⊥
    no_entry id e = cc
stop_all-empty ((t, id) ∷ m) rest h =
    stop_all-empty m (stop id rest) (All-stop id rest (λ a other v. ground arith) h)

pub setup_timer-WellNamed :
    (owner : ℕ) (t : ℤ) (s : Timers)
    → WellNamed s
    → (rest : List Scheduled) × ((setup_timer owner t s).pending
        ≡ record { id = s.next_id; owner = owner; timer_id = t } ∷ rest)
      × All (λ a. (t == a.timer_id) ≡ false) rest
      × WellNamed (setup_timer owner t s)
unfolding setup_timer
setup_timer-WellNamed owner t s h =
    let rest = stop_existing (lookup t s.ongoing_timers) s.pending in
    let m' = insert t s.next_id s.ongoing_timers in
    let stopped =
      All-stop_existing t s.ongoing_timers m' s.next_id (suc s.next_id) s.pending
        (λ u other. rw (lookup-insert t u s.next_id s.ongoing_timers, other)) (omega arith) h in
    (
      rest,
      refl,
      All-map rest (λ a v. v.0) stopped,
      (
        (rw (lookup-insert t t s.next_id s.ongoing_timers, beq_refl t), omega arith),
        All-map rest (λ a v. v.1) stopped,
      ),
    )
