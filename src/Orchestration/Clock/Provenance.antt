-- ===== src/Orchestration/Clock/Provenance.antt =====
-- orchestration/deadline.ts: what a run is timed out by, and what an awaited call may return.
use secure_home_agent_platfo.Prelude.{
  ◌≡◌, refl, ℕ, ◌+◌, Bool, true, false, Option, none, some, List, [], ◌∷◌, ◌++◌, leb, arith, ap,
  ◌⊎◌,
}
use secure_home_agent_platfo.Orchestration.Clock.{
  InterruptReason, cancel, timeout, RunDeadline, new, raise, elapsed, raise_if_elapsed, interrupted,
  set_wall_clock, arm_acquisition, arm_profile, narrow_profile, narrowed, disarm, Event, checks,
  arms_acquisition, arms_profile, narrows, boundary, wall_fires, cancel_fires, disarms, ticks, step,
  run, Work, answers, Called, value, failed, run_interrupted, race, arrive, call, unless,
}

abbrev pub is_armed : Option ℕ → Bool
is_armed none = false
is_armed (some at) = true

-- The event comes when the clock that stands, or that it sets, has run out; or it is the firing of the
-- timer that was set for it.
abbrev pub Spends : Event → RunDeadline → Type 0
Spends (checks now a) d = elapsed now d.armed_until ≡ true
Spends (boundary now) d = elapsed now d.armed_until ≡ true
Spends (arms_acquisition now ms) d = leb (d.started_at + ms) now ≡ true
Spends (arms_profile now ms after) d = leb (d.started_at + ms) now ≡ true
Spends (narrows now ms) d = leb (narrowed d.armed_until (d.started_at + ms)) now ≡ true
Spends wall_fires d = (d.wall_clock ≡ true) × (is_armed d.armed_until ≡ true)
Spends e d = ⊥

-- A timer is set only beside the instant that it is set for.
abbrev Timed : RunDeadline → Type 0
Timed d = d.wall_clock ≡ true → is_armed d.armed_until ≡ true

set_wall_clock-Timed : (now at : ℕ) (d : RunDeadline) → Timed d → Timed (set_wall_clock now at d)
unfolding set_wall_clock raise
set_wall_clock-Timed now at d t h = ground arith

raise-Timed : (r : InterruptReason) (d : RunDeadline) → Timed d → Timed (raise r d)
unfolding raise
raise-Timed r d t h = t h

step-Timed : (e : Event) (d : RunDeadline) → Timed d → Timed (step e d)
unfolding step raise raise_if_elapsed interrupted arm_acquisition arm_profile narrow_profile disarm
step-Timed (checks now a) d t h = ground (arith, t)
step-Timed (boundary now) d t h = ground (arith, t)
step-Timed (arms_acquisition now ms) d t h = set_wall_clock-Timed now (d.started_at + ms) d t h
step-Timed (arms_profile now ms after) d t h =
    ground (arith, set_wall_clock-Timed now (d.started_at + ms) d t)
step-Timed (narrows now ms) d t h =
    set_wall_clock-Timed now (narrowed d.armed_until (d.started_at + ms)) d t h
step-Timed wall_fires d t h = ground (arith, t)
step-Timed cancel_fires d t h = ground (arith, t)
step-Timed disarms d t h = absurd (ground arith)
step-Timed (ticks a) d t h = ground (arith, t)

set_wall_clock-timeout :
    (now at : ℕ) (d : RunDeadline)
    → d.reason ≡ none
    → ((set_wall_clock now at d).reason ≡ none)
      ⊎ (((set_wall_clock now at d).reason ≡ some timeout) × (leb at now ≡ true))
unfolding set_wall_clock raise
set_wall_clock-timeout now at d h = ground arith

step-Spends :
    (e : Event) (d : RunDeadline)
    → Timed d
    → d.reason ≡ none
    → (step e d).reason ≡ some timeout
    → Spends e d
unfolding step raise raise_if_elapsed interrupted arm_acquisition arm_profile narrow_profile disarm
step-Spends (checks now a) d t n h = ground arith
step-Spends (boundary now) d t n h = ground arith
step-Spends (arms_acquisition now ms) d t n h =
    ground (arith, set_wall_clock-timeout now (d.started_at + ms) d)
step-Spends (arms_profile now ms after) d t n h =
    ground (arith, set_wall_clock-timeout now (d.started_at + ms) d)
step-Spends (narrows now ms) d t n h =
    ground (arith, set_wall_clock-timeout now (narrowed d.armed_until (d.started_at + ms)) d)
step-Spends wall_fires d t n h = ground (arith, t)
step-Spends cancel_fires d t n h = absurd (ground arith)
step-Spends disarms d t n h = absurd (ground arith)
step-Spends (ticks a) d t n h = absurd (ground arith)

-- The first reason stands.
step-reason :
    (e : Event) (d : RunDeadline) (r : InterruptReason)
    → d.reason ≡ some r
    → (step e d).reason ≡ some r
unfolding step raise raise_if_elapsed interrupted arm_acquisition arm_profile narrow_profile disarm
    set_wall_clock
step-reason (checks now a) d r h = ground arith
step-reason (boundary now) d r h = ground arith
step-reason (arms_acquisition now ms) d r h = ground arith
step-reason (arms_profile now ms after) d r h = ground arith
step-reason (narrows now ms) d r h = ground arith
step-reason wall_fires d r h = ground arith
step-reason cancel_fires d r h = ground arith
step-reason disarms d r h = h
step-reason (ticks a) d r h = ground arith

run-reason :
    (es : List Event) (d : RunDeadline) (r : InterruptReason)
    → d.reason ≡ some r
    → (run es d).reason ≡ some r
unfolding run
run-reason [] d r h = h
run-reason (e ∷ es) d r h = run-reason es (step e d) r (step-reason e d r h)

-- Some event of the list spends the clock, and no reason stood before it.
abbrev pub Spent : List Event → RunDeadline → Type 0
Spent es d =
    (before : List Event) × (e : Event) × (after : List Event) × (es ≡ before ++ e ∷ after)
    × ((run before d).reason ≡ none)
    × Spends e (run before d)

Spent-cons :
    (e : Event) (es : List Event) (d : RunDeadline) → Spent es (step e d) → Spent (e ∷ es) d
unfolding run
Spent-cons e es d (before, f, after, split, n, s) =
    (e ∷ before, f, after, ap (λ l. e ∷ l) split, n, s)

run-timeout :
    (es : List Event) (d : RunDeadline)
    → Timed d
    → d.reason ≡ none
    → (run es d).reason ≡ some timeout
    → Spent es d
unfolding run
run-timeout [] d t n h = absurd (ground arith)
run-timeout (e ∷ es) d t n h =
    on_reason (step e d).reason refl (run-timeout es (step e d) (step-Timed e d t))
  where
    on_reason :
        (o : Option InterruptReason)
        → (step e d).reason ≡ o
        → ((step e d).reason ≡ none
            → (run es (step e d)).reason ≡ some timeout
            → Spent es (step e d))
        → Spent (e ∷ es) d
    on_reason none q later = Spent-cons e es d (later q h)
    on_reason (some timeout) q later = ([], e, es, refl, n, step-Spends e d t n q)
    on_reason (some cancel) q later = absurd (ground (arith, run-reason es (step e d) cancel q))

-- A run is timed out by its own clock alone: whatever the caller's probe answers or throws, and whenever
-- it is asked, the first reason is `timeout` only if some event came when the armed instant had passed,
-- armed an instant that had passed, or was the firing of the timer of an armed instant.
pub run-new-timeout :
    (started : ℕ) (es : List Event)
    → (run es (new started)).reason ≡ some timeout
    → Spent es (new started)
unfolding new
run-new-timeout started es h = run-timeout es (new started) (λ e. absurd (ground arith)) refl h

entered :
    (now : ℕ) (d : RunDeadline)
    → (raise_if_elapsed now d).reason ≡ none
    → (d.reason ≡ none) × (elapsed now d.armed_until ≡ false)
unfolding raise_if_elapsed raise
entered now d h = ground arith

module _ {A : Type 0} where
  arrive-value :
      (now : ℕ) (d d' : RunDeadline) (c : Called A) (v : A)
      → d.reason ≡ none
      → arrive now (d, c) ≡ (d', value v)
      → (c ≡ value v) × (d'.reason ≡ none) × (elapsed now d'.armed_until ≡ false)
  unfolding arrive raise_if_elapsed raise
  arrive-value now d d' (failed why) v n h = absurd (ground arith)
  arrive-value now d d' (run_interrupted r) v n h = absurd (ground arith)
  arrive-value now d d' (value w) v n h = ground arith

  race-value :
      (during : List Event) (w : Work A) (d d' : RunDeadline) (c : Called A) (v : A)
      → race during w d ≡ (d', c)
      → c ≡ value v
      → (w ≡ answers v) × (d'.reason ≡ none)
  unfolding race
  race-value during w d d' c v h e = ground arith

  arrived :
      (now : ℕ) (p : RunDeadline × Called A) (d' : RunDeadline) (v : A)
      → arrive now p ≡ (d', value v)
      → p.1 ≡ value v
  unfolding arrive raise_if_elapsed raise
  arrived now (d, failed why) d' v h = absurd (ground arith)
  arrived now (d, run_interrupted r) d' v h = absurd (ground arith)
  arrived now (d, value w) d' v h = ground arith

  unless-value :
      (o : Option InterruptReason) (d : RunDeadline) (p : RunDeadline × Called A) (d' : RunDeadline)
      (v : A)
      → unless o d p ≡ (d', value v)
      → (o ≡ none) × (p ≡ (d', value v))
  unless-value none d p d' v h = (refl, h)
  unless-value (some r) d p d' v h = absurd (ground arith)

  -- A call hands a result over only if no reason to stop stood when it began or when the result arrived,
  -- and the armed instant had not passed at either moment: a result that comes when the budget is spent
  -- is never used, even if no timer has fired yet.
  pub call-value :
      (now : ℕ) (during : List Event) (now' : ℕ) (w : Work A) (d d' : RunDeadline) (v : A)
      → call now during now' w d ≡ (d', value v)
      → (w ≡ answers v)
        × (d.reason ≡ none)
        × (elapsed now d.armed_until ≡ false)
        × (d'.reason ≡ none)
        × (elapsed now' d'.armed_until ≡ false)
  unfolding call raise_if_elapsed raise
  call-value now during now' w d d' v h =
      let (n, e) = unless-value (raise_if_elapsed now d).reason _ _ d' v h in
      let (still, before) = entered now d n in
      let p = race during w (raise_if_elapsed now d) in
      let (settled, n') =
        race-value during w (raise_if_elapsed now d) p.0 p.1 v refl (arrived now' p d' v e) in
      let (same, after, within) = arrive-value now' p.0 d' p.1 v n' e in
      (settled, still, before, after, within)
