-- ===== src/Protorun/Timer/Pending.antt =====
-- pkg/protorun/timer.go: lists of timers, and what Stop leaves of them.
use go_simple_protocol_runti.Common.{
  ℕ, ◌≡◌, ◌≢◌, sym, subst, List, [], ◌∷◌, Option, none, some, ◌==◌, nat_eq, nat_beq_iff, inl, inr,
  arith, Bool-cases, All, Member, here, there,
}
use go_simple_protocol_runti.Protorun.Timer.{Scheduled, stop, stop_existing, find}

pub All-stop {κ ι} :
    {P : Scheduled → Type κ} {Q : Scheduled → Type ι} (id : ℕ) (rest : List Scheduled)
    → ((a : Scheduled) → a.id ≢ id → P a → Q a)
    → All P rest
    → All Q (stop id rest)
unfolding stop
All-stop id [] keep h = tt
All-stop id (a ∷ rest) keep h = elim (Bool-cases (a.id == id)) [
  | inl same ↦ rw same (All-stop id rest keep h.1)
  | inr other ↦
      rw other (keep a (λ e. ground (arith, nat_beq_iff a.id id)) h.0, All-stop id rest keep h.1)
]

pub All-map {κ ι} :
    {P : Scheduled → Type κ} {Q : Scheduled → Type ι} (rest : List Scheduled)
    → ((a : Scheduled) → P a → Q a)
    → All P rest
    → All Q rest
All-map [] keep h = tt
All-map (a ∷ rest) keep h = (keep a h.0, All-map rest keep h.1)

pub All-stop_existing_kept :
    (P : Scheduled → Type 0) (o : Option ℕ) (rest : List Scheduled)
    → All P rest
    → All P (stop_existing o rest)
unfolding stop_existing
All-stop_existing_kept P none rest h = h
All-stop_existing_kept P (some id) rest h = All-stop id rest (λ a other v. v) h

pub find-eq-some :
    (P : Scheduled → Type 0) (id : ℕ) (rest : List Scheduled) (a : Scheduled)
    → find id rest ≡ some a
    → All P rest
    → P a × (a.id ≡ id)
unfolding find
find-eq-some P id [] a e h = cc
find-eq-some P id (b ∷ rest) a e h = elim (Bool-cases (b.id == id)) [
  | inl here_it_is ↦
      let it : b ≡ a = ground arith in (subst P it h.0, ground (arith, nat_beq_iff b.id id))
  | inr other ↦ find-eq-some P id rest a (ground arith) h.1
]

pub All-Member :
    (a : Scheduled) (P : Scheduled → Type 0) (rest : List Scheduled)
    → Member a rest
    → All P rest
    → P a
All-Member a P [] m h = elim m [ ]
All-Member a P (b ∷ rest) (here e) h = subst P (sym e) h.0
All-Member a P (b ∷ rest) (there m) h = All-Member a P rest m h.1
