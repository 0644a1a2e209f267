-- ===== src/Protorun/Timer.antt =====
-- pkg/protorun/timer.go and the timers' part of Runtime.Cancel. A time.Timer, a periodic timer's
-- context and a protocol are numbers. `pending` holds the single-shot timers that have not gone off,
-- `firing` those that have and whose callback has still to run, which no Stop reaches any more, and
-- `periodic` the tickers that go on; `fired` logs what came onto the timerChannel of a
-- protocol, last first. setupTimer is one step: its callback runs after it has returned.
-- After a shutdown the source may drop what a late callback sends; here it is logged all the same.
mod Pending
mod Named
pub mod Table
pub mod Examples
use go_simple_protocol_runti.Common.{
  ℕ, zero, suc, List, [], ◌∷◌, Bool, true, false, Option, none, some, if◌then◌else◌, ◌==◌, nat_eq,
  Map, lookup, insert, delete,
}
use go_simple_protocol_runti.Common.Int.{ℤ, int_eq}

pub record Scheduled : Type 0 where
  pub id : ℕ
  pub owner : ℕ
  pub timer_id : ℤ

pub record Timers : Type 0 where
  pub ongoing_timers : Map ℤ ℕ
  pub ongoing_periodic_timers : Map ℤ ℕ
  pub pending : List Scheduled
  pub firing : List Scheduled
  pub periodic : List Scheduled
  pub next_id : ℕ
  pub fired : List (ℕ × ℤ)

unfoldable pub stop : ℕ → List Scheduled → List Scheduled
stop id [] = []
stop id (a ∷ rest) = if a.id == id then stop id rest else a ∷ stop id rest

-- `if existing, ok := m[id]; ok { existing.Stop() }`
unfoldable pub stop_existing : Option ℕ → List Scheduled → List Scheduled
unfolding stop
stop_existing none rest = rest
stop_existing (some id) rest = stop id rest

unfoldable pub setup_timer : ℕ → ℤ → Timers → Timers
unfolding stop_existing
setup_timer owner t s = record s {
  ongoing_timers = insert t s.next_id s.ongoing_timers;
  pending =
      record { id = s.next_id; owner = owner; timer_id = t }
      ∷ stop_existing (lookup t s.ongoing_timers) s.pending;
  next_id = suc s.next_id;
}

-- The callback of a timer that `owner` set up.
unfoldable pub timer_callback : ℕ → ℤ → Timers → Timers
timer_callback owner t s = record s {
  ongoing_timers = delete t s.ongoing_timers;
  fired = (owner, t) ∷ s.fired;
}

unfoldable pub setup_periodic_timer : ℕ → ℤ → Timers → Timers
unfolding stop_existing
setup_periodic_timer owner t s = record s {
  ongoing_periodic_timers = insert t s.next_id s.ongoing_periodic_timers;
  periodic =
      record { id = s.next_id; owner = owner; timer_id = t }
      ∷ stop_existing (lookup t s.ongoing_periodic_timers) s.periodic;
  next_id = suc s.next_id;
}

unfoldable pub cancel_timer : ℤ → Timers → Timers
unfolding stop_existing
cancel_timer t s = record s {
  ongoing_timers = delete t s.ongoing_timers;
  pending = stop_existing (lookup t s.ongoing_timers) s.pending;
  ongoing_periodic_timers = delete t s.ongoing_periodic_timers;
  periodic = stop_existing (lookup t s.ongoing_periodic_timers) s.periodic;
}

-- Runtime.Cancel between Lock and Unlock of the timerMutex
unfoldable pub stop_all : Map ℤ ℕ → List Scheduled → List Scheduled
unfolding stop
stop_all [] rest = rest
stop_all ((t, id) ∷ m) rest = stop_all m (stop id rest)

unfoldable pub cancel_timers : Timers → Timers
unfolding stop_all
cancel_timers s = record s {
  ongoing_timers = [];
  pending = stop_all s.ongoing_timers s.pending;
  ongoing_periodic_timers = [];
  periodic = stop_all s.ongoing_periodic_timers s.periodic;
}

unfoldable pub find : ℕ → List Scheduled → Option Scheduled
find id [] = none
find id (a ∷ rest) = if a.id == id then some a else find id rest

-- A timer goes off, and its callback, once started, takes the timerMutex some time later.
pub data Call : Type 0 where
  sets sets_periodic : ℕ → ℤ → Call
  cancels : ℤ → Call
  expires calls_back ticks : ℕ → Call
  shuts_down : Call

unfoldable pub expire : ℕ → Timers → Timers
unfolding find stop
expire id s = elim (find id s.pending) [
  | none ↦ s
  | some a ↦ record s { pending = stop id s.pending; firing = a ∷ s.firing }
]

unfoldable pub call_back : ℕ → Timers → Timers
unfolding find stop timer_callback
call_back id s = elim (find id s.firing) [
  | none ↦ s
  | some a ↦ timer_callback a.owner a.timer_id (record s { firing = stop id s.firing })
]

-- A round of the ticker of a periodic timer.
unfoldable pub tick : ℕ → Timers → Timers
unfolding find
tick id s = elim (find id s.periodic) [
  | none ↦ s
  | some a ↦ record s { fired = (a.owner, a.timer_id) ∷ s.fired }
]

unfoldable pub step : Call → Timers → Timers
step (sets owner t) s = setup_timer owner t s
step (sets_periodic owner t) s = setup_periodic_timer owner t s
step (cancels t) s = cancel_timer t s
step (expires id) s = expire id s
step (calls_back id) s = call_back id s
step (ticks id) s = tick id s
step shuts_down s = cancel_timers s

unfoldable pub run : List Call → Timers → Timers
run [] s = s
run (c ∷ cs) s = run cs (step c s)
