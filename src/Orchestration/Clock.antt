-- ===== src/Orchestration/Clock.antt =====
-- orchestration/deadline.ts: `RunDeadline`, the clock of a run, its settlement and its recovery. The
-- instant at which a method runs is an argument, as is what the caller's probe answers; instants and
-- durations are milliseconds, at least zero. The signal is aborted exactly when there is a reason. A
-- timer that is set may fire at any instant; an awaited call is given the events that come before the
-- work settles.
pub mod Provenance
pub mod Expiry
use secure_home_agent_platfo.Prelude.{
  ℕ, ◌+◌, Bool, true, false, ◌&&◌, Option, none, some, List, [], ◌∷◌, leb, ite, if◌then◌else◌,
  ℕ_discrete, Str,
}

pub data InterruptReason : Type 0 where
  cancel timeout : InterruptReason

-- What the caller's probe does: it says nothing, it returns some value, or it throws.
pub data Answer : Type 0 where
  silent : Answer
  returned : InterruptReason → Answer
  thrown : Answer

pub record RunDeadline : Type 0 where
  pub started_at : ℕ
  pub armed_until : Option ℕ
  pub wall_clock : Bool
  pub cancel_clock : Bool
  pub reason : Option InterruptReason

unfoldable pub new : ℕ → RunDeadline
new now = record {
  started_at = now;
  armed_until = none;
  wall_clock = false;
  cancel_clock = false;
  reason = none;
}

-- The probe that the constructor wraps: whatever a caller answers is a cancellation. No probe is `none`.
abbrev pub poll : Option Answer → Option InterruptReason
poll none = none
poll (some silent) = none
poll (some (returned r)) = some cancel
poll (some thrown) = some cancel

abbrev or_else : Option InterruptReason → InterruptReason → Option InterruptReason
or_else (some r) s = some r
or_else none s = some s

unfoldable pub raise : InterruptReason → RunDeadline → RunDeadline
raise r d = record d { reason = or_else d.reason r }

abbrev pub raise_polled : Option InterruptReason → RunDeadline → RunDeadline
raise_polled none d = d
raise_polled (some r) d = raise r d

abbrev pub elapsed : ℕ → Option ℕ → Bool
elapsed now none = false
elapsed now (some until) = leb until now

unfoldable pub raise_if_elapsed : ℕ → RunDeadline → RunDeadline
unfolding raise
raise_if_elapsed now d = if elapsed now d.armed_until then raise timeout d else d

-- The probe is asked only where no reason stands.
abbrev pub ask : Option Answer → Option InterruptReason → RunDeadline → RunDeadline
ask a (some r) d = d
ask a none d = raise_polled (poll a) d

unfoldable pub interrupted : ℕ → Option Answer → RunDeadline → RunDeadline × Option InterruptReason
unfolding raise_if_elapsed raise
interrupted now a d =
    let d' = raise_if_elapsed now d in let d'' = ask a d'.reason d' in (d'', d''.reason)

abbrev same_instant : ℕ → Option ℕ → Bool
same_instant at none = false
same_instant at (some until) = ite (ℕ_discrete until at) true false

unfoldable pub set_wall_clock : ℕ → ℕ → RunDeadline → RunDeadline
unfolding raise
set_wall_clock now at d =
    if same_instant at d.armed_until && d.wall_clock
    then d
    else if leb at now
    then raise timeout (record d { armed_until = some at; wall_clock = false })
    else record d { armed_until = some at; wall_clock = true }

unfoldable pub arm_acquisition : ℕ → ℕ → RunDeadline → RunDeadline
unfolding set_wall_clock
arm_acquisition now deadline_ms d = set_wall_clock now (d.started_at + deadline_ms) d

abbrev arm_cancel : ℕ → Option ℕ → Bool → RunDeadline → RunDeadline
arm_cancel now none armed d = d
arm_cancel now (some after) true d = d
arm_cancel now (some after) false d =
    if leb (d.started_at + after) now then raise cancel d else record d { cancel_clock = true }

unfoldable pub arm_profile : ℕ → ℕ → Option ℕ → RunDeadline → RunDeadline
unfolding set_wall_clock raise
arm_profile now deadline_ms cancel_after d =
    let d' = set_wall_clock now (d.started_at + deadline_ms) d in
    arm_cancel now cancel_after d'.cancel_clock d'

abbrev pub min : ℕ → ℕ → ℕ
min m n = if leb m n then m else n

abbrev narrowed : Option ℕ → ℕ → ℕ
narrowed none proposed = proposed
narrowed (some until) proposed = min until proposed

unfoldable pub narrow_profile : ℕ → ℕ → RunDeadline → RunDeadline
unfolding set_wall_clock
narrow_profile now deadline_ms d =
    set_wall_clock now (narrowed d.armed_until (d.started_at + deadline_ms)) d

unfoldable pub disarm : RunDeadline → RunDeadline
disarm d = record d { armed_until = none; wall_clock = false; cancel_clock = false }

-- What can happen to the clock of a run: a method is called, a timer that is set fires, or the interval
-- of an awaited call asks the probe.
pub data Event : Type 0 where
  checks : ℕ → Option Answer → Event
  arms_acquisition : ℕ → ℕ → Event
  arms_profile : ℕ → ℕ → Option ℕ → Event
  narrows : ℕ → ℕ → Event
  boundary : ℕ → Event
  wall_fires cancel_fires disarms : Event
  ticks : Option Answer → Event

unfoldable pub step : Event → RunDeadline → RunDeadline
unfolding interrupted raise_if_elapsed arm_acquisition arm_profile narrow_profile disarm raise
    set_wall_clock
step (checks now a) d = (interrupted now a d).0
step (arms_acquisition now ms) d = arm_acquisition now ms d
step (arms_profile now ms after) d = arm_profile now ms after d
step (narrows now ms) d = narrow_profile now ms d
step (boundary now) d = raise_if_elapsed now d
step wall_fires d = if d.wall_clock then raise timeout d else d
step cancel_fires d = if d.cancel_clock then raise cancel d else d
step disarms d = disarm d
step (ticks a) d = raise_polled (poll a) d

unfoldable pub run : List Event → RunDeadline → RunDeadline
run [] d = d
run (e ∷ es) d = run es (step e d)

-- How the work of a call settles.
pub data Work (A : Type 0) : Type 0 where
  answers : A → Work A
  fails : Str → Work A

-- How an awaited call ends.
pub data Called (A : Type 0) : Type 0 where
  failed : Str → Called A
  value : A → Called A
  run_interrupted : InterruptReason → Called A

module _ {A : Type 0} where
  abbrev pub unless :
      Option InterruptReason → RunDeadline → RunDeadline × Called A → RunDeadline × Called A
  unless (some r) d p = (d, run_interrupted r)
  unless none d p = p

  -- `#race`: the abort that comes before the work settles wins.
  abbrev called : Work A → Called A
  called (answers v) = value v
  called (fails why) = failed why

  unfoldable pub race : List Event → Work A → RunDeadline → RunDeadline × Called A
  unfolding run
  race during w d = let d' = run during d in unless d'.reason d' (d', called w)

  -- The check on arrival.
  unfoldable pub arrive : ℕ → RunDeadline × Called A → RunDeadline × Called A
  unfolding raise_if_elapsed
  arrive now (d, run_interrupted r) = (d, run_interrupted r)
  arrive now (d, failed why) = (d, failed why)
  arrive now (d, value v) = let d' = raise_if_elapsed now d in unless d'.reason d' (d', value v)

  unfoldable pub commit : ℕ → List Event → Work A → RunDeadline → RunDeadline × Called A
  unfolding raise_if_elapsed race
  commit now during w d = let d' = raise_if_elapsed now d in unless d'.reason d' (race during w d')

  unfoldable pub call : ℕ → List Event → ℕ → Work A → RunDeadline → RunDeadline × Called A
  unfolding raise_if_elapsed race arrive
  call now during now' w d =
      let d' = raise_if_elapsed now d in unless d'.reason d' (arrive now' (race during w d'))

-- Which clock a boundary expires by.
pub data Source : Type 0 where
  governed settlement recovery : Source

pub record WinningExpiry : Type 0 where
  pub at : ℕ
  pub source : Source

unfoldable pub expiry : RunDeadline → Option WinningExpiry
expiry d = elim d.armed_until [
  | none ↦ none
  | some at ↦ some (record { at = at; source = governed })
]

abbrev pub abandon_grace_ms : ℕ
abandon_grace_ms = 250

unfoldable pub settlement_expiry : ℕ → WinningExpiry
settlement_expiry created = record { at = created + abandon_grace_ms; source = settlement }

abbrev earlier : WinningExpiry → Option WinningExpiry → WinningExpiry
earlier ceiling none = ceiling
earlier ceiling (some g) = if leb g.at ceiling.at then g else ceiling

-- `RunRecovery.expiry`, of a recovery that began at the given instant.
unfoldable pub recovery_expiry : ℕ → RunDeadline → WinningExpiry
unfolding expiry
recovery_expiry created d =
    earlier (record { at = created + abandon_grace_ms; source = recovery }) (expiry d)

pub data Bound : Type 0 where
  governed attempt : Bound

abbrev bound_of : Source → Bound
bound_of Source.governed = Bound.governed
bound_of settlement = attempt
bound_of recovery = attempt

unfoldable pub recovery_bound : ℕ → RunDeadline → Bound
unfolding recovery_expiry
recovery_bound created d = bound_of (recovery_expiry created d).source
