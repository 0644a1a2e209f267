-- ===== src/Protorun/Lifecycle.antt =====
-- The life of a protocol: the phases and guards of pkg/protorun/strict.go, and Start, Init and
-- ensureContext of protocol.go. The user's Start and Init are the calls that they make
-- on their context, in order, and whether they panic after them. `made` logs the calls that went
-- through, last first.
pub mod Runs
pub mod Hooks
pub mod Strict
pub mod Joined
pub mod Examples
use go_simple_protocol_runti.Common.{
  ℕ, zero, suc, ◌-◌, List, [], ◌∷◌, ◌++◌, Bool, true, false, not, ◌&&◌, Option, none, some,
  if◌then◌else◌, ltb, leb, ◌==◌, nat_eq,
}
use go_simple_protocol_runti.Protorun.Messages.{
  Phase, unstarted, registering, registered, initializing, running, phase_cancelled,
}

-- What a method of ProtocolContext requires of the phase: RegisterCodec, RegisterHandler,
-- RegisterRequestHandler and SubscribeNotification; Connect, ConnectWithRetry, Disconnect, Send,
-- SendRequest and PublishNotification; all others, of which SetupPeriodicTimer starts a goroutine of the
-- wait group.
pub data Call : Type 0 where
  registration active unguarded periodic_timer : Call

pub record Body : Type 0 where
  pub calls : List Call
  pub panics : Bool

pub record Protocol : Type 0 where
  pub start_body : Body
  pub init_body : Body

pub record ProtoProtocol : Type 0 where
  pub protocol : Protocol
  pub bound : Bool
  pub has_context : Bool
  pub phase : Phase

-- Which hook of which protocol made a call: Start is `false`.
pub record Made : Type 0 where
  pub by : ℕ
  pub in_init : Bool
  pub call : Call

-- int32(p)
abbrev phase_number : Phase → ℕ
phase_number unstarted = 0
phase_number registering = 1
phase_number registered = 2
phase_number initializing = 3
phase_number running = 4
phase_number phase_cancelled = 5

-- Whether the guard panics.
unfoldable pub require_register_phase : Bool → Phase → Bool
require_register_phase strict cur = strict && not (phase_number cur == phase_number registering)

unfoldable pub require_active_phase : Bool → Phase → Bool
require_active_phase strict cur = strict && ltb (phase_number cur) (phase_number initializing)

unfoldable pub refused : Bool → Phase → Call → Bool
unfolding require_register_phase require_active_phase
refused strict cur registration = require_register_phase strict cur
refused strict cur active = require_active_phase strict cur
refused strict cur unguarded = false
refused strict cur periodic_timer = false

-- Runs a hook of protocol `i`: the calls that go through, and whether it panics.
unfoldable pub run_calls : Bool → Phase → ℕ → Bool → List Call → List Made → Bool × List Made
unfolding refused
run_calls strict cur i in_init [] made = (false, made)
run_calls strict cur i in_init (c ∷ calls) made =
    let rest =
      run_calls strict cur i in_init calls
        (record { by = i; in_init = in_init; call = c } ∷ made) in
    if refused strict cur c then (true, made) else rest

unfoldable pub run_body : Bool → Phase → ℕ → Bool → Body → List Made → Bool × List Made
unfolding run_calls
run_body strict cur i in_init body made =
    let (panicked, made') = run_calls strict cur i in_init body.calls made in
    (if panicked then true else body.panics, made')

-- ensureContext: `none` is its panic.
unfoldable pub ensure_context : ProtoProtocol → Option ProtoProtocol
ensure_context p =
    if p.has_context
    then some p
    else if not p.bound
    then none
    else some (record p { has_context = true })

-- A protocol after a hook, whether the hook panicked, and the log.
abbrev Hooked : Type 0
Hooked = ProtoProtocol × (Bool × List Made)

-- protoProtocol.Start, up to the start of the event loop.
unfoldable pub start_protocol : Bool → ℕ → ProtoProtocol → List Made → Hooked
unfolding ensure_context run_body
start_protocol strict i p made = elim (ensure_context p) [
  | none ↦ (p, (true, made))
  | some q ↦
      let (panicked, made') = run_body strict registering i false q.protocol.start_body made in
      (record q { phase = if panicked then registering else registered }, (panicked, made'))
]

-- protoProtocol.Init
unfoldable pub init_protocol : Bool → ℕ → ProtoProtocol → List Made → Hooked
unfolding ensure_context run_body
init_protocol strict i p made = elim (ensure_context p) [
  | none ↦ (p, (true, made))
  | some q ↦
      let (panicked, made') = run_body strict initializing i true q.protocol.init_body made in
      (record q { phase = if panicked then initializing else running }, (panicked, made'))
]

-- A loop over the protocols from the i-th on: how many hooks returned, and the panic that ended it.
pub record Progress : Type 0 where
  pub protocols : List ProtoProtocol
  pub returned : ℕ
  pub panicked : Bool
  pub made : List Made

unfoldable pub hook_all :
    (ℕ → ProtoProtocol → List Made → Hooked) → ℕ → List ProtoProtocol → List Made → Progress
hook_all hook i [] made = record { protocols = []; returned = 0; panicked = false; made = made }
hook_all hook i (p ∷ ps) made =
    let (p', (panicked, made')) = hook i p made in
    let rest = hook_all hook (suc i) ps made' in
    if panicked
    then record { protocols = p' ∷ ps; returned = 0; panicked = true; made = made' }
    else record {
      protocols = p' ∷ rest.protocols;
      returned = suc rest.returned;
      panicked = rest.panicked;
      made = rest.made;
    }
