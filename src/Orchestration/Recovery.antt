-- ===== src/Orchestration/Recovery.antt =====
-- orchestration/deadline.ts, `RunSettlement` and `RunRecovery`: the boundaries that bound the recording
-- of an ending. A ceiling is the timer that both set when they are made; a recovery also listens to the
-- clock of the run.
pub mod Within
use secure_home_agent_platfo.Prelude.{
  ◌≡◌, refl, sym, ap, subst, ◌∙◌, ◌≢◌, ℕ, ◌+◌, Bool, true, false, ◌||◌, Option, none, some, List,
  [], ◌∷◌, ◌<◌, if◌then◌else◌, leb, Str, arith,
}
use secure_home_agent_platfo.Orchestration.Clock
use secure_home_agent_platfo.Orchestration.Clock.{
  InterruptReason, RunDeadline, Answer, Work, answers, fails, interrupted, timeout, ask, poll,
  raise_polled, raise, raise_if_elapsed, elapsed, abandon_grace_ms,
}

pub record Ceiling : Type 0 where
  pub expires_at : ℕ
  pub aborted : Bool
  pub armed : Bool

unfoldable pub new : ℕ → Ceiling
new now = record { expires_at = now + abandon_grace_ms; aborted = false; armed = true }

-- How a call within a boundary ends.
pub data Settled (A : Type 0) : Type 0 where
  value : A → Settled A
  failed : Str → Settled A
  run_interrupted : InterruptReason → Settled A
  expired : Settled A

abbrev pub settled : {A : Type 0} → Work A → Settled A
settled (answers v) = value v
settled (fails why) = failed why

unfoldable pub fires : Ceiling → Ceiling
fires c = if c.armed then record c { aborted = true; armed = false } else c

unfoldable pub disarm : Ceiling → Ceiling
disarm c = record c { armed = false }

abbrev pub is_over : ℕ → Ceiling → Bool
is_over now c = c.aborted || leb c.expires_at now

-- What can come while a call is awaited: the timer of the ceiling fires, the boundary is disarmed, or
-- something happens to the clock of the run.
pub data Event : Type 0 where
  ceiling_fires disarms : Event
  clock : Clock.Event → Event

pub record RunRecovery : Type 0 where
  pub deadline : RunDeadline
  pub ceiling : Ceiling

-- Of the timer alone.
pub data Moment : Type 0 where
  timer_fires released : Moment

unfoldable pub moved : Moment → Ceiling → Ceiling
unfolding fires disarm
moved timer_fires c = fires c
moved released c = disarm c

unfoldable pub moved_all : List Moment → Ceiling → Ceiling
unfolding moved
moved_all [] c = c
moved_all (e ∷ es) c = moved_all es (moved e c)

unfoldable pub step : Event → RunRecovery → RunRecovery
unfolding fires disarm
step ceiling_fires r = record r { ceiling = fires r.ceiling }
step disarms r = record r { ceiling = disarm r.ceiling }
step (clock e) r = record r { deadline = Clock.step e r.deadline }

unfoldable pub run : List Event → RunRecovery → RunRecovery
unfolding step
run [] r = r
run (e ∷ es) r = run es (step e r)

-- What a boundary says: it stands, or the error that it throws.
pub data Boundary : Type 0 where
  stands over : Boundary
  stopped : InterruptReason → Boundary

abbrev pub ceiling_of : Bool → Boundary
ceiling_of true = over
ceiling_of false = stands

abbrev pub boundary_of : Option InterruptReason → Bool → Boundary
boundary_of (some r) c = stopped r
boundary_of none c = ceiling_of c

module _ {A : Type 0} where
  abbrev pub unless : Boundary → RunRecovery → RunRecovery × Settled A → RunRecovery × Settled A
  unless stands r p = p
  unless over r p = (r, expired)
  unless (stopped reason) r p = (r, run_interrupted reason)

  -- `#raiseIfStopped`: the clock of the run is asked first.
  unfoldable pub if_standing :
      ℕ
      → Option Answer
      → (RunRecovery → RunRecovery × Settled A)
      → RunRecovery
      → RunRecovery × Settled A
  if_standing now a next r =
      let (d, reason) = interrupted now a r.deadline in
      let r' = record r { deadline = d } in
      unless (boundary_of reason (is_over now r.ceiling)) r' (next r')

  -- The first of the two aborts that comes before the work settles wins; what else comes, comes.
  unfoldable pub race : List Event → Work A → RunRecovery → RunRecovery × Settled A
  unfolding run step
  race [] w r = (r, settled w)
  race (e ∷ es) w r =
      let r' = step e r in
      let rest = race es w r' in
      unless (boundary_of r'.deadline.reason r'.ceiling.aborted) (run es r') rest

  abbrev pub on_return : ℕ → Option Answer → RunRecovery × Settled A → RunRecovery × Settled A
  on_return now a (r, value v) = if_standing now a (λ r'. (r', value v)) r
  on_return now a (r, failed why) = (r, failed why)
  on_return now a (r, run_interrupted reason) = (r, run_interrupted reason)
  on_return now a (r, expired) = (r, expired)

  unfoldable pub call :
      ℕ
      → Option Answer
      → List Event
      → ℕ
      → Option Answer
      → Work A
      → RunRecovery
      → RunRecovery × Settled A
  unfolding if_standing race
  call now a during now' a' w r = if_standing now a (λ r'. on_return now' a' (race during w r')) r

  -- An acknowledged effect is not discarded when it returns.
  unfoldable pub commit :
      ℕ → Option Answer → List Event → Work A → RunRecovery → RunRecovery × Settled A
  unfolding if_standing race
  commit now a during w r = if_standing now a (race during w) r

module _ {A : Type 0} where
  -- The same boundary without the clock of the run: `RunSettlement`.
  abbrev pub unless_over : Bool → Ceiling → Ceiling × Settled A → Ceiling × Settled A
  unless_over true c p = (c, expired)
  unless_over false c p = p

  unfoldable pub settling : List Moment → Work A → Ceiling → Ceiling × Settled A
  unfolding moved
  settling [] w c = (c, settled w)
  settling (e ∷ es) w c =
      let c' = moved e c in
      let rest = settling es w c' in unless_over c'.aborted (moved_all es c') rest

  abbrev pub on_settled : ℕ → Ceiling × Settled A → Ceiling × Settled A
  on_settled now (c, value v) = unless_over (is_over now c) c (c, value v)
  on_settled now (c, failed why) = (c, failed why)
  on_settled now (c, run_interrupted reason) = (c, run_interrupted reason)
  on_settled now (c, expired) = (c, expired)

  unfoldable pub settle_call : ℕ → List Moment → ℕ → Work A → Ceiling → Ceiling × Settled A
  unfolding settling
  settle_call now during now' w c =
      unless_over (is_over now c) c (on_settled now' (settling during w c))

  unfoldable pub settle_commit : ℕ → List Moment → Work A → Ceiling → Ceiling × Settled A
  unfolding settling
  settle_commit now during w c = unless_over (is_over now c) c (settling during w c)
