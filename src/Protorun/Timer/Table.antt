-- ===== src/Protorun/Timer/Table.antt =====
-- pkg/protorun/timer.go: the table of timers and which timers an id names.
use go_simple_protocol_runti.Common.{
  ℕ, ◌≡◌, refl, subst, List, [], ◌∷◌, false, some, ◌==◌, nat_eq, beq_refl, Map, lookup, insert,
  delete, lookup-delete, inl, inr, arith, Option-cases, All, Member, here, there,
}
use go_simple_protocol_runti.Common.Int.{ℤ, int_eq, int_beq_iff}
use go_simple_protocol_runti.Protorun.Timer.Pending.{
  All-stop, All-map, All-stop_existing_kept, find-eq-some, All-Member,
}
use go_simple_protocol_runti.Protorun.Timer.{
  Scheduled, Timers, stop, stop_existing, setup_timer, timer_callback, setup_periodic_timer,
  cancel_timer, cancel_timers, find, tick, expire, call_back, Call, sets, sets_periodic, cancels,
  expires, calls_back, ticks, shuts_down, step, run,
}
use go_simple_protocol_runti.Protorun.Timer.Named.{
  IsNamed, WellNamed, All-stop_existing, stop_all-empty, setup_timer-WellNamed,
}

-- No timer of the list has this TimerID.
abbrev Apart : ℤ → List Scheduled → Type 0
Apart t rest = All (λ (a : Scheduled). (t == a.timer_id) ≡ false) rest

-- Where a callback has still to run, no timer with its TimerID is pending.
abbrev InOrder : Timers → Type 0
InOrder s = WellNamed s × All (λ (f : Scheduled). Apart f.timer_id s.pending) s.firing

-- No protocol sets up a timer while the callback of one with the same TimerID has still to run.
abbrev pub InTime : List Call → Timers → Type 0
InTime [] s = Unit
InTime (sets owner t ∷ cs) s = Apart t s.firing × InTime cs (step (sets owner t) s)
InTime (sets_periodic owner t ∷ cs) s = InTime cs (step (sets_periodic owner t) s)
InTime (cancels t ∷ cs) s = InTime cs (step (cancels t) s)
InTime (expires id ∷ cs) s = InTime cs (step (expires id) s)
InTime (calls_back id ∷ cs) s = InTime cs (step (calls_back id) s)
InTime (ticks id ∷ cs) s = InTime cs (step (ticks id) s)
InTime (shuts_down ∷ cs) s = InTime cs (step shuts_down s)

expired-Apart :
    (m : Map ℤ ℕ) (bound id : ℕ) (a : Scheduled) (rest : List Scheduled)
    → lookup a.timer_id m ≡ some a.id
    → a.id ≡ id
    → All (IsNamed m bound) rest
    → Apart a.timer_id (stop id rest)
expired-Apart m bound id a rest named same h =
    All-stop id rest (λ b other v. ground (arith, int_beq_iff a.timer_id b.timer_id)) h

expire-InOrder : (id : ℕ) (s : Timers) → InOrder s → InOrder (expire id s)
unfolding expire
expire-InOrder id s (h, apart) = elim (Option-cases (find id s.pending)) [
  | inl gone ↦ rw (gone, expire) (h, apart)
  | inr (a, found) ↦
      let (named, same) =
        find-eq-some (IsNamed s.ongoing_timers s.next_id) id s.pending a found h in
      rw (found, expire)
        (
          All-stop id s.pending (λ b other v. v) h,
          (
            expired-Apart s.ongoing_timers s.next_id id a s.pending named.0 same h,
            All-map s.firing (λ f v. All-stop id s.pending (λ b other w. w) v) apart,
          ),
        )
]

call_back-InOrder : (id : ℕ) (s : Timers) → InOrder s → InOrder (call_back id s)
unfolding call_back timer_callback
call_back-InOrder id s (h, apart) = elim (Option-cases (find id s.firing)) [
  | inl gone ↦ rw (gone, call_back) (h, apart)
  | inr (f, found) ↦
      let (away, same) =
        find-eq-some (λ (g : Scheduled). Apart g.timer_id s.pending) id s.firing f found apart in
      rw (found, call_back)
        (still_named f s.pending away h, All-stop id s.firing (λ g other v. v) apart)
]
  where
    still_named :
        (f : Scheduled) (rest : List Scheduled)
        → Apart f.timer_id rest
        → All (IsNamed s.ongoing_timers s.next_id) rest
        → All (IsNamed (delete f.timer_id s.ongoing_timers) s.next_id) rest
    still_named f [] away v = tt
    still_named f (a ∷ rest) away v = (
      (rw (lookup-delete f.timer_id a.timer_id s.ongoing_timers, away.0) v.0.0, v.0.1),
      still_named f rest away.1 v.1,
    )

tick-InOrder : (id : ℕ) (s : Timers) → InOrder s → InOrder (tick id s)
unfolding tick
tick-InOrder id s h = elim (Option-cases (find id s.periodic)) [
  | inl gone ↦ rw (gone, tick) h
  | inr (a, found) ↦ rw (found, tick) h
]

set-Apart :
    (owner : ℕ) (t : ℤ) (s : Timers) (firing : List Scheduled)
    → Apart t firing
    → All (λ (f : Scheduled). Apart f.timer_id s.pending) firing
    → All (λ (f : Scheduled). Apart f.timer_id (setup_timer owner t s).pending) firing
unfolding setup_timer
set-Apart owner t s [] in_time apart = tt
set-Apart owner t s (f ∷ firing) in_time apart = (
  (
    ground (arith, in_time.0, int_beq_iff t f.timer_id, int_beq_iff f.timer_id t),
    All-stop_existing_kept (λ (a : Scheduled). (f.timer_id == a.timer_id) ≡ false)
        (lookup t s.ongoing_timers) s.pending apart.0,
  ),
  set-Apart owner t s firing in_time.1 apart.1,
)

set-InOrder :
    (owner : ℕ) (t : ℤ) (s : Timers)
    → Apart t s.firing
    → InOrder s
    → InOrder (setup_timer owner t s)
unfolding setup_timer
set-InOrder owner t s in_time (h, apart) =
    let (rest, e, other, w) = setup_timer-WellNamed owner t s h in
    (w, set-Apart owner t s s.firing in_time apart)

cancel-InOrder : (t : ℤ) (s : Timers) → InOrder s → InOrder (cancel_timer t s)
unfolding cancel_timer
cancel-InOrder t s (h, apart) = (
  All-map (stop_existing (lookup t s.ongoing_timers) s.pending) (λ a v. v.1)
      (All-stop_existing t s.ongoing_timers (delete t s.ongoing_timers) s.next_id s.next_id
        s.pending (λ u other. rw (lookup-delete t u s.ongoing_timers, other)) (omega arith) h),
  All-map s.firing
      (λ f v.
        All-stop_existing_kept (λ (a : Scheduled). (f.timer_id == a.timer_id) ≡ false)
          (lookup t s.ongoing_timers) s.pending v)
      apart,
)

shut-InOrder : (s : Timers) → InOrder s → InOrder (cancel_timers s)
unfolding cancel_timers
shut-InOrder s (h, apart) =
    rw (stop_all-empty s.ongoing_timers s.pending (All-map s.pending (λ a v. v.0) h))
      (tt, All-map s.firing (λ f v. tt) apart)

run-InOrder : (cs : List Call) (s : Timers) → InTime cs s → InOrder s → InOrder (run cs s)
unfolding run step setup_periodic_timer
run-InOrder [] s in_time h = h
run-InOrder (sets owner t ∷ cs) s in_time h =
    run-InOrder cs (step (sets owner t) s) in_time.1 (set-InOrder owner t s in_time.0 h)
run-InOrder (sets_periodic owner t ∷ cs) s in_time (h, apart) =
    run-InOrder cs (step (sets_periodic owner t) s) in_time
      (All-map s.pending (λ a v. (v.0, omega (arith, v.1))) h, apart)
run-InOrder (cancels t ∷ cs) s in_time h =
    run-InOrder cs (step (cancels t) s) in_time (cancel-InOrder t s h)
run-InOrder (expires id ∷ cs) s in_time h =
    run-InOrder cs (step (expires id) s) in_time (expire-InOrder id s h)
run-InOrder (calls_back id ∷ cs) s in_time h =
    run-InOrder cs (step (calls_back id) s) in_time (call_back-InOrder id s h)
run-InOrder (ticks id ∷ cs) s in_time h =
    run-InOrder cs (step (ticks id) s) in_time (tick-InOrder id s h)
run-InOrder (shuts_down ∷ cs) s in_time h =
    run-InOrder cs (step shuts_down s) in_time (shut-InOrder s h)

idle-InOrder : (s : Timers) → s.pending ≡ [] → s.firing ≡ [] → InOrder s
idle-InOrder s idle quiet = (rw idle tt, rw quiet tt)

-- From a runtime with no timer pending or firing, after any calls, expiries and callbacks in which no
-- timer is set up while a callback of its TimerID has still to run: two pending timers with the same
-- TimerID are the same timer, whichever protocols set them up.
pub one_timer_for_an_id :
    (cs : List Call) (s : Timers) (a b : Scheduled)
    → s.pending ≡ []
    → s.firing ≡ []
    → InTime cs s
    → Member a (run cs s).pending
    → Member b (run cs s).pending
    → a.timer_id ≡ b.timer_id
    → a.id ≡ b.id
one_timer_for_an_id cs s a b idle quiet in_time m n same =
    let (h, _) = run-InOrder cs s in_time (idle-InOrder s idle quiet) in
    let P = IsNamed (run cs s).ongoing_timers (run cs s).next_id in
    let (u, _) = All-Member a P (run cs s).pending m h in
    let (v, _) = All-Member b P (run cs s).pending n h in ground arith

only_the_new_one :
    (t : ℤ) (a new : Scheduled) (rest : List Scheduled)
    → a.timer_id ≡ t
    → All (λ b. (t == b.timer_id) ≡ false) rest
    → Member a (new ∷ rest)
    → a ≡ new
only_the_new_one t a new rest same others (here e) = e
only_the_new_one t a new rest same others (there m) =
    let other = All-Member a (λ b. (t == b.timer_id) ≡ false) rest m others in
    ground (arith, int_beq_iff t a.timer_id)

-- From a runtime with no timer pending or firing, after any calls, expiries and callbacks in which no
-- timer is set up while a callback of its TimerID has still to run: when a protocol sets up a timer,
-- whatever timer another protocol still had pending under the same TimerID is stopped. Every timer that
-- is then pending with that TimerID is the new one, of the protocol that set it up.
timer_ids_are_shared :
    (cs : List Call) (s : Timers) (owner : ℕ) (t : ℤ) (a : Scheduled)
    → s.pending ≡ []
    → s.firing ≡ []
    → InTime cs s
    → Member a (setup_timer owner t (run cs s)).pending
    → a.timer_id ≡ t
    → a ≡ record { id = (run cs s).next_id; owner = owner; timer_id = t }
timer_ids_are_shared cs s owner t a idle quiet in_time m same =
    let (h, _) = run-InOrder cs s in_time (idle-InOrder s idle quiet) in
    let (rest, e, others, _) = setup_timer-WellNamed owner t (run cs s) h in
    only_the_new_one t a _ rest same others (subst (Member a) e m)

-- When the callback of a timer runs although a new timer with its id has just been set up, it deletes
-- the table's entry of the new timer: CancelTimer then leaves the new timer pending.
pub late_callback_hides_timer :
    (s : Timers) (owner other : ℕ) (t : ℤ)
    → Member
        (record { id = s.next_id; owner = owner; timer_id = t })
        (cancel_timer t (timer_callback other t (setup_timer owner t s))).pending
unfolding cancel_timer timer_callback setup_timer stop_existing
late_callback_hides_timer s owner other t =
    rw (lookup-delete t t (insert t s.next_id s.ongoing_timers), beq_refl t) (here refl)
