-- ===== src/Protorun/Lifecycle/Strict.antt =====
-- pkg/protorun/strict.go and the start of runtime.go: which calls of the hooks go through, and in which
-- order the hooks run.
use go_simple_protocol_runti.Common.{
  ℕ, suc, ◌+◌, ◌-◌, ◌≡◌, sym, ap, ◌∙◌, List, [], ◌∷◌, ◌++◌, Bool, true, false, not, ◌&&◌,
  Option-cases, if◌then◌else◌, ltb, nat_eq, All, length, Bool-cases, inl, inr, arith,
}
use mathlib.Core.List.{append_assoc, append-nil}
use go_simple_protocol_runti.Errors.{no_network_layer, no_session_layer, already_cancelled}
use go_simple_protocol_runti.Protorun.Messages.{unstarted, registered, running}
use go_simple_protocol_runti.Protorun.Lifecycle.{
  Call, Protocol, ProtoProtocol, Made, refused, run_calls, run_body, ensure_context, start_protocol,
  init_protocol, hook_all,
}
use go_simple_protocol_runti.Protorun.Lifecycle.Runs.{
  Runtime, new, register, wg_add, go_loops, start_protocols, init_protocols, start_session_events,
  go_tickers, timers_set, set_periodic_timer, ticker_ends, Started, refused_with, unwound, started,
  start,
}
use go_simple_protocol_runti.Protorun.Lifecycle.Hooks.{
  belongs, all_return, log_hooks, log_hooks-timers_set, phase_in, all_in, refused_lem, hook,
  hook_all_lem,
}
use go_simple_protocol_runti.Protorun.Lifecycle.Joined.{
  Op, registers, starts, cancels, ends, sets_periodic, ticker_stops, step, run,
}
use go_simple_protocol_runti.Protorun.Lifecycle.Runs.{cancel, loop_ends}

abbrev pub register_all : List Protocol → Runtime → Runtime
register_all [] r = r
register_all (impl ∷ impls) r = register_all impls (register impl r)

register_all_lem :
    (impls : List Protocol) (r : Runtime)
    → register_all impls r ≡ record r { protocols = r.protocols ++ all_in false unstarted impls }
unfolding register
register_all_lem [] r =
    ap (λ (ps : List ProtoProtocol). record r { protocols = ps }) (sym (append-nil r.protocols))
register_all_lem (impl ∷ impls) r =
    register_all_lem impls (register impl r)
    ∙ ap (λ (ps : List ProtoProtocol). record r { protocols = ps })
        (append_assoc r.protocols
          (record { protocol = impl; bound = true; has_context = false; phase = unstarted } ∷ [])
          (all_in false unstarted impls))

-- The Inits that follow the Starts, when these have returned.
inits_after :
    (strict : Bool) (impls : List Protocol)
    → all_return strict false impls ≡ true
    → let starts = hook_all (start_protocol strict) 0 (all_in false unstarted impls) [] in
      let inits = hook_all (init_protocol strict) 0 starts.protocols starts.made in
      (inits.panicked ≡ not (all_return strict true impls))
      × (all_return strict true impls ≡ true
          → (inits.protocols ≡ all_in true running impls)
            × (inits.made ≡ log_hooks true 0 impls (log_hooks false 0 impls [])))
inits_after strict impls fine =
    let (stops, logs) = hook_all_lem strict false false unstarted 0 impls [] in
    let (protos, logged, count) = logs fine in
    let (stops', logs') =
      hook_all_lem strict true true registered 0 impls (log_hooks false 0 impls []) in
    rw (protos, logged) (stops', λ fine'. ((logs' fine').0, (logs' fine').1))

-- A new runtime with both layers starts its registered protocols exactly if every Start and every Init
-- returns: none of them panics and, in strict mode, no Start makes an active call and no Init a
-- registration. Then all calls of all Starts went through, in the order of registration, before those
-- of all Inits; every protocol is running, and the wait group was given an event loop for each, the
-- goroutine of each periodic timer that a hook set up, and two loops of the runtime, none of which has
-- ended yet. Otherwise a panic leaves `start`.
pub start_runs_hooks :
    (strict : Bool) (impls : List Protocol)
    → let r = register_all impls (new strict true true) in
      ((start r).0 ≡ (
        if all_return strict false impls && all_return strict true impls then started else unwound))
      × ((all_return strict false impls && all_return strict true impls) ≡ true
          → ((start r).1.protocols ≡ all_in true running impls)
            × ((start r).1.made ≡ log_hooks true 0 impls (log_hooks false 0 impls []))
            × ((start r).1.wait_group ≡ (length impls + timers_set (start r).1.made) + 2))
unfolding start start_protocols init_protocols start_session_events wg_add go_loops go_tickers new
    timers_set
start_runs_hooks strict impls =
    let (stops, logs) = hook_all_lem strict false false unstarted 0 impls [] in
    rw (register_all_lem impls (new strict true true))
      (elim (Bool-cases (all_return strict false impls)) [
        | inl fine ↦
            let (stops', logs') = inits_after strict impls fine in
            let (protos, logged, count) = logs fine in
            (
              ground arith,
              λ both.
                  let (protos', logged') = logs' (ground arith) in
                  let after = log_hooks false 0 impls [] in
                  let more = log_hooks-timers_set true 0 impls after in
                  let none_set : timers_set [] ≡ 0 = ground arith in
                  (ground arith, ground arith, ground arith),
            )
        | inr bad ↦ (ground arith, λ both. absurd (ground arith))
      ])

abbrev pub Belongs : Made → Type 0
Belongs m = belongs m.in_init m.call ≡ true

run_calls-All :
    (in_init : Bool) (i : ℕ) (calls : List Call) (made : List Made)
    → All Belongs made
    → All Belongs (run_calls true (phase_in in_init) i in_init calls made).1
unfolding run_calls
run_calls-All in_init i [] made h = h
run_calls-All in_init i (c ∷ calls) made h =
    let next : List Made = record { by = i; in_init = in_init; call = c } ∷ made in
    elim (Bool-cases (belongs in_init c)) [
      | inl fine ↦
          let passes : refused true (phase_in in_init) c ≡ false =
            refused_lem true in_init c ∙ ground arith in
          rw passes (run_calls-All in_init i calls next (fine, h))
      | inr wrong ↦
          let stops : refused true (phase_in in_init) c ≡ true =
            refused_lem true in_init c ∙ ground arith in
          rw stops h
    ]

hook-All :
    (in_init : Bool) (i : ℕ) (p : ProtoProtocol) (made : List Made)
    → All Belongs made
    → All Belongs (hook in_init true i p made).1.1
unfolding start_protocol init_protocol run_body
hook-All false i p made h = elim (Option-cases (ensure_context p)) [
  | inl missing ↦ rw (missing, start_protocol) h
  | inr (q, found) ↦
      rw (found, start_protocol) (run_calls-All false i q.protocol.start_body.calls made h)
]
hook-All true i p made h = elim (Option-cases (ensure_context p)) [
  | inl missing ↦ rw (missing, init_protocol) h
  | inr (q, found) ↦
      rw (found, init_protocol) (run_calls-All true i q.protocol.init_body.calls made h)
]

hook_all-All :
    (in_init : Bool) (i : ℕ) (ps : List ProtoProtocol) (made : List Made)
    → All Belongs made
    → All Belongs (hook_all (hook in_init true) i ps made).made
unfolding hook_all
hook_all-All in_init i [] made h = h
hook_all-All in_init i (p ∷ ps) made h =
    let now = hook-All in_init i p made h in
    let rest = hook_all-All in_init (suc i) ps (hook in_init true i p made).1.1 now in
    elim (Bool-cases (hook in_init true i p made).1.0) [
      | inl panicked ↦ rw panicked now
      | inr returned ↦ rw returned rest
    ]

inits-All :
    (strict : Bool) (ps : List ProtoProtocol) (made : List Made)
    → strict ≡ true
    → All Belongs made
    → All Belongs (hook_all (init_protocol strict) 0 ps made).made
inits-All strict ps made mode h = rw mode (hook_all-All true 0 ps made h)

if_keeps {ℓ κ} :
    {A : Type ℓ} (P : A → Type κ) (b : Bool) (x y : A) → P x → P y → P (if b then x else y)
if_keeps P true x y hx hy = hx
if_keeps P false x y hx hy = hy

abbrev StillStrict : Runtime → Type 0
StillStrict r = (r.strict ≡ true) × All Belongs r.made

start-StillStrict : (r : Runtime) → StillStrict r → StillStrict (start r).1
unfolding start start_protocols init_protocols start_session_events wg_add go_loops go_tickers
start-StillStrict r (mode, h) =
    let r₁ = (start_protocols r).1 in
    let r₂ = (init_protocols r₁).1 in
    let P : Started × Runtime → Type 0 = λ out. StillStrict out.1 in
    let h₁ : StillStrict r₁ = (mode, rw mode (hook_all-All false 0 r.protocols r.made h)) in
    let h₂ : StillStrict r₂ = (mode, inits-All r.strict r₁.protocols r₁.made mode h₁.1) in
    let h₃ : StillStrict (start_session_events r₂) =
      if_keeps StillStrict r.has_session_layer (go_loops 1 (wg_add 1 r₂)) r₂ h₂ h₂ in
    if_keeps P (not r.has_network_layer) (refused_with no_network_layer, r) _ (mode, h)
      (if_keeps P (not r.has_session_layer) (refused_with no_session_layer, r) _ (mode, h)
        (if_keeps P r.cancelled (refused_with already_cancelled, r) _ (mode, h)
          (if_keeps P (start_protocols r).0 (unwound, r₁) _ h₁
            (if_keeps P (init_protocols r₁).0 (unwound, r₂)
              (started, go_loops 1 (wg_add 1 (start_session_events r₂))) h₂ h₃))))

-- In strict mode, whatever is registered and started, however often, and wherever a Start or an Init
-- panics, no call that connects, sends, requests or publishes goes through in a Start, and no
-- registration goes through in an Init.
pub strict_calls_belong :
    (os : List Op) (r : Runtime)
    → r.strict ≡ true
    → All Belongs r.made
    → All Belongs (run os r).made
unfolding register cancel loop_ends set_periodic_timer ticker_ends go_tickers
strict_calls_belong [] r mode h = h
strict_calls_belong (registers impl ∷ os) r mode h = strict_calls_belong os (register impl r) mode h
strict_calls_belong (starts ∷ os) r mode h =
    let (mode', h') = start-StillStrict r (mode, h) in strict_calls_belong os (start r).1 mode' h'
strict_calls_belong (cancels ∷ os) r mode h = strict_calls_belong os (step cancels r) mode h
strict_calls_belong (ends ∷ os) r mode h =
    let (mode', h') =
      if_keeps StillStrict (r.cancelled && ltb 0 r.loops)
        (record r { wait_group = r.wait_group - 1; loops = r.loops - 1 }) r (mode, h) (mode, h) in
    strict_calls_belong os (loop_ends r) mode' h'
strict_calls_belong (sets_periodic ∷ os) r mode h =
    strict_calls_belong os (set_periodic_timer r) mode h
strict_calls_belong (ticker_stops ∷ os) r mode h =
    let (mode', h') =
      if_keeps StillStrict (not r.cancelled && ltb 0 r.tickers)
        (record r { wait_group = r.wait_group - 1; loops = r.loops - 1; tickers = r.tickers - 1 }) r
        (mode, h) (mode, h) in
    strict_calls_belong os (ticker_ends r) mode' h'
