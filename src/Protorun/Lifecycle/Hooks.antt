-- ===== src/Protorun/Lifecycle/Hooks.antt =====
-- pkg/protorun/strict.go and the hooks of protocol.go: what a loop over the protocols' hooks does.
use go_simple_protocol_runti.Common.{
  ℕ, suc, ◌≤◌, ◌≡◌, refl, List, [], ◌∷◌, Bool, true, false, not, ◌&&◌, ◌||◌, nat_eq, length, arith,
}
use go_simple_protocol_runti.Protorun.Messages.{
  Phase, registering, registered, initializing, running,
}
use go_simple_protocol_runti.Protorun.Lifecycle.Runs.{timers_set}
use go_simple_protocol_runti.Protorun.Lifecycle.{
  Call, registration, active, unguarded, periodic_timer, Body, Protocol, ProtoProtocol, Made,
  require_register_phase, require_active_phase, refused, run_calls, run_body, ensure_context,
  start_protocol, init_protocol, hook_all,
}

-- The calls that strict mode allows in a hook: Init is `true`.
abbrev pub belongs : Bool → Call → Bool
belongs false active = false
belongs true registration = false
belongs in_init _ = true

abbrev all_belong : Bool → List Call → Bool
all_belong in_init [] = true
all_belong in_init (c ∷ calls) = belongs in_init c && all_belong in_init calls

-- A hook returns: it does not panic, and strict mode has nothing against its calls.
abbrev pub returns : Bool → Bool → Body → Bool
returns strict in_init body = (not strict || all_belong in_init body.calls) && not body.panics

abbrev hook_of : Bool → Protocol → Body
hook_of false impl = impl.start_body
hook_of true impl = impl.init_body

abbrev pub all_return : Bool → Bool → List Protocol → Bool
all_return strict in_init [] = true
all_return strict in_init (impl ∷ impls) =
    returns strict in_init (hook_of in_init impl) && all_return strict in_init impls

-- The log grows by all calls of a hook, and by those of the hooks of all protocols in turn.
abbrev log_calls : ℕ → Bool → List Call → List Made → List Made
log_calls i in_init [] made = made
log_calls i in_init (c ∷ calls) made =
    log_calls i in_init calls (record { by = i; in_init = in_init; call = c } ∷ made)

abbrev pub log_hooks : Bool → ℕ → List Protocol → List Made → List Made
log_hooks in_init i [] made = made
log_hooks in_init i (impl ∷ impls) made =
    log_hooks in_init (suc i) impls (log_calls i in_init (hook_of in_init impl).calls made)

log_calls-timers_set :
    (i : ℕ) (in_init : Bool) (calls : List Call) (made : List Made)
    → timers_set made ≤ timers_set (log_calls i in_init calls made)
unfolding timers_set
log_calls-timers_set i in_init [] made = omega arith
log_calls-timers_set i in_init (c ∷ calls) made =
    let next : List Made = record { by = i; in_init = in_init; call = c } ∷ made in
    omega (arith, log_calls-timers_set i in_init calls next)

pub log_hooks-timers_set :
    (in_init : Bool) (i : ℕ) (impls : List Protocol) (made : List Made)
    → timers_set made ≤ timers_set (log_hooks in_init i impls made)
log_hooks-timers_set in_init i [] made = omega arith
log_hooks-timers_set in_init i (impl ∷ impls) made = omega (
  arith,
  log_calls-timers_set i in_init (hook_of in_init impl).calls made,
  log_hooks-timers_set in_init (suc i) impls
      (log_calls i in_init (hook_of in_init impl).calls made),
)

abbrev pub phase_in : Bool → Phase
phase_in false = registering
phase_in true = initializing

-- The protocols, all in one phase.
abbrev pub all_in : Bool → Phase → List Protocol → List ProtoProtocol
all_in has_context phase [] = []
all_in has_context phase (impl ∷ impls) =
    record { protocol = impl; bound = true; has_context = has_context; phase = phase }
    ∷ all_in has_context phase impls

pub refused_lem :
    (strict in_init : Bool) (c : Call)
    → refused strict (phase_in in_init) c ≡ (strict && not (belongs in_init c))
unfolding refused require_register_phase require_active_phase
refused_lem strict false registration = ground arith
refused_lem strict false active = ground arith
refused_lem strict false unguarded = ground arith
refused_lem strict true registration = ground arith
refused_lem strict true active = ground arith
refused_lem strict true unguarded = ground arith
refused_lem strict false periodic_timer = ground arith
refused_lem strict true periodic_timer = ground arith

run_calls_lem :
    (strict in_init : Bool) (i : ℕ) (calls : List Call) (made : List Made)
    → ((run_calls strict (phase_in in_init) i in_init calls made).0
        ≡ (strict && not (all_belong in_init calls)))
      × ((not strict || all_belong in_init calls) ≡ true
          → (run_calls strict (phase_in in_init) i in_init calls made).1
            ≡ log_calls i in_init calls made)
unfolding run_calls
run_calls_lem strict in_init i [] made = (ground arith, λ fine. refl)
run_calls_lem strict in_init i (c ∷ calls) made =
    let next = record { by = i; in_init = in_init; call = c } ∷ made in
    let (stops, logs) = run_calls_lem strict in_init i calls next in
    (
      ground (arith, refused_lem strict in_init c),
      λ fine. ground (arith, refused_lem strict in_init c),
    )

run_body_lem :
    (strict in_init : Bool) (i : ℕ) (body : Body) (made : List Made)
    → ((run_body strict (phase_in in_init) i in_init body made).0
        ≡ not (returns strict in_init body))
      × (returns strict in_init body ≡ true
          → (run_body strict (phase_in in_init) i in_init body made).1
            ≡ log_calls i in_init body.calls made)
unfolding run_body
run_body_lem strict in_init i body made =
    let (stops, logs) = run_calls_lem strict in_init i body.calls made in
    (ground arith, λ fine. logs (ground arith))

abbrev phase_after : Bool → Phase
phase_after false = registered
phase_after true = running

abbrev pub hook : Bool → Bool → ℕ → ProtoProtocol → List Made → ProtoProtocol × (Bool × List Made)
hook false strict i p made = start_protocol strict i p made
hook true strict i p made = init_protocol strict i p made

hook_lem :
    (strict in_init has_context : Bool) (phase : Phase) (i : ℕ) (impl : Protocol) (made : List Made)
    → let p : ProtoProtocol = record {
      protocol = impl;
      bound = true;
      has_context = has_context;
      phase = phase;
    } in
      ((hook in_init strict i p made).1.0 ≡ not (returns strict in_init (hook_of in_init impl)))
      × (returns strict in_init (hook_of in_init impl) ≡ true
          → ((hook in_init strict i p made).0 ≡ record {
            protocol = impl;
            bound = true;
            has_context = true;
            phase = phase_after in_init;
          })
            × ((hook in_init strict i p made).1.1
                ≡ log_calls i in_init (hook_of in_init impl).calls made))
unfolding start_protocol init_protocol ensure_context
hook_lem strict false has_context phase i impl made =
    let (stops, logs) = run_body_lem strict false i impl.start_body made in
    (ground arith, λ fine. (ground arith, ground (arith, logs fine)))
hook_lem strict true has_context phase i impl made =
    let (stops, logs) = run_body_lem strict true i impl.init_body made in
    (ground arith, λ fine. (ground arith, ground (arith, logs fine)))

pub hook_all_lem :
    (strict in_init has_context : Bool) (phase : Phase) (i : ℕ) (impls : List Protocol)
    (made : List Made)
    → ((hook_all (hook in_init strict) i (all_in has_context phase impls) made).panicked
        ≡ not (all_return strict in_init impls))
      × (all_return strict in_init impls ≡ true
          → ((hook_all (hook in_init strict) i (all_in has_context phase impls) made).protocols
              ≡ all_in true (phase_after in_init) impls)
            × ((hook_all (hook in_init strict) i (all_in has_context phase impls) made).made
                ≡ log_hooks in_init i impls made)
            × ((hook_all (hook in_init strict) i (all_in has_context phase impls) made).returned
                ≡ length impls))
unfolding hook_all
hook_all_lem strict in_init has_context phase i [] made = (refl, λ fine. (refl, refl, refl))
hook_all_lem strict in_init has_context phase i (impl ∷ impls) made =
    let (stops, logs) = hook_lem strict in_init has_context phase i impl made in
    let rest =
      hook_all_lem strict in_init has_context phase (suc i) impls
        (hook in_init strict i
          (record { protocol = impl; bound = true; has_context = has_context; phase = phase })
          made).1.1 in
    (
      ground arith,
      λ fine.
          let (proto, log) = logs (ground arith) in
          let (protos, logged, count) = rest.1 (ground arith) in
          (ground arith, ground arith, ground arith),
    )
