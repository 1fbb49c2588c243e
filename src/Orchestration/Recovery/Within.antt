-- ===== src/Orchestration/Recovery/Within.antt =====
-- orchestration/deadline.ts, `RunRecovery.call`: a result is used within both bounds.
use secure_home_agent_platfo.Prelude.{
  ◌≡◌, refl, sym, ap, subst, ◌∙◌, ◌≢◌, ℕ, Bool, true, false, Option, none, some, List, [], ◌∷◌, ◌<◌,
  if◌then◌else◌, arith,
}
use secure_home_agent_platfo.Orchestration.Clock.{
  InterruptReason, RunDeadline, Answer, Work, answers, fails, interrupted, timeout, ask, poll,
  raise_polled, raise, raise_if_elapsed, elapsed,
}
use secure_home_agent_platfo.Orchestration.Recovery.{
  Ceiling, Settled, value, failed, run_interrupted, expired, is_over, Event, RunRecovery, step, run,
  Boundary, stands, over, stopped, boundary_of, unless, if_standing, race, on_return, call,
}

module _ {A : Type 0} where
  unless-value :
      (b : Boundary) (r : RunRecovery) (p : RunRecovery × Settled A) (r' : RunRecovery) (v : A)
      → unless b r p ≡ (r', value v)
      → (b ≡ stands) × (p ≡ (r', value v))
  unless-value stands r p r' v h = (refl, h)
  unless-value over r p r' v h = absurd (ground arith)
  unless-value (stopped reason) r p r' v h = absurd (ground arith)

boundary_of-stands :
    (o : Option InterruptReason) (c : Bool) → boundary_of o c ≡ stands → (o ≡ none) × (c ≡ false)
boundary_of-stands none false h = (refl, refl)
boundary_of-stands none true h = absurd (ground arith)
boundary_of-stands (some r) c h = absurd (ground arith)

not_over :
    (now : ℕ) (c : Ceiling) → is_over now c ≡ false → (c.aborted ≡ false) × (now < c.expires_at)
not_over now c h = (ground arith, ground arith)

raise-some : (r : InterruptReason) (d : RunDeadline) → (raise r d).reason ≢ none
unfolding raise
raise-some r d h = ground arith

polled_none :
    (o : Option InterruptReason) (d : RunDeadline)
    → (raise_polled o d).reason ≡ none
    → raise_polled o d ≡ d
polled_none none d h = refl
polled_none (some r) d h = absurd (raise-some r d h)

asked_none :
    (a : Option Answer) (o : Option InterruptReason) (d : RunDeadline)
    → (ask a o d).reason ≡ none
    → ask a o d ≡ d
asked_none a none d h = polled_none (poll a) d h
asked_none a (some r) d h = refl

elapsed_none :
    (b : Bool) (d : RunDeadline)
    → (if b then raise timeout d else d).reason ≡ none
    → ((if b then raise timeout d else d) ≡ d) × (b ≡ false)
elapsed_none true d h = absurd (raise-some timeout d h)
elapsed_none false d h = (refl, refl)

-- A clock that is asked and says nothing is as it was.
interrupted-none :
    (now : ℕ) (a : Option Answer) (d : RunDeadline)
    → (interrupted now a d).1 ≡ none
    → (d.reason ≡ none) × ((interrupted now a d).0 ≡ d) × (elapsed now d.armed_until ≡ false)
unfolding interrupted raise_if_elapsed
interrupted-none now a d h =
    let e = raise_if_elapsed now d in
    let asked = asked_none a e.reason e h in
    let (same, before) =
      elapsed_none (elapsed now d.armed_until) d (sym (ap (λ x. x.reason) asked) ∙ h) in
    (sym (ap (λ x. x.reason) (asked ∙ same)) ∙ h, asked ∙ same, before)

-- The boundary stands at an instant: there is no reason to stop, the clock of the run has not elapsed,
-- and the ceiling neither fired nor passed.
abbrev pub IsOpen : ℕ → RunRecovery → Type 0
IsOpen now r =
    (r.deadline.reason ≡ none)
    × (elapsed now r.deadline.armed_until ≡ false)
    × (r.ceiling.aborted ≡ false)
    × (now < r.ceiling.expires_at)

module _ {A : Type 0} where
  if_standing-value :
      (now : ℕ) (a : Option Answer) (next : RunRecovery → RunRecovery × Settled A)
      (r r' : RunRecovery) (v : A)
      → if_standing now a next r ≡ (r', value v)
      → IsOpen now r × (next r ≡ (r', value v))
  unfolding if_standing
  if_standing-value now a next r r' v h =
      let p = interrupted now a r.deadline in
      let (stood, e) = unless-value (boundary_of p.1 (is_over now r.ceiling)) _ _ r' v h in
      let (n, c) = boundary_of-stands p.1 (is_over now r.ceiling) stood in
      let (quiet, same, before) = interrupted-none now a r.deadline n in
      let (unfired, within) = not_over now r.ceiling c in
      ((quiet, before, unfired, within), ap (λ d. next (record r { deadline = d })) (sym same) ∙ e)

  race-value :
      (during : List Event) (w : Work A) (r r' : RunRecovery) (v : A)
      → race during w r ≡ (r', value v)
      → w ≡ answers v
  unfolding race
  race-value [] (answers u) r r' v h = ground arith
  race-value [] (fails why) r r' v h = absurd (ground arith)
  race-value (e ∷ es) w r r' v h =
      let x = step e r in
      race-value es w x r' v
        (unless-value (boundary_of x.deadline.reason x.ceiling.aborted) (run es x) _ r' v h).1

  on_return-value :
      (now : ℕ) (a : Option Answer) (p : RunRecovery × Settled A) (r' : RunRecovery) (v : A)
      → on_return now a p ≡ (r', value v)
      → IsOpen now r' × (p.1 ≡ value v)
  on_return-value now a (r, value u) r' v h =
      let (opened, e) = if_standing-value now a (λ x. (x, value u)) r r' v h in
      (subst (IsOpen now) (ap (λ x. x.0) e) opened, ap (λ x. x.1) e)
  on_return-value now a (r, failed why) r' v h = absurd (ground arith)
  on_return-value now a (r, run_interrupted reason) r' v h = absurd (ground arith)
  on_return-value now a (r, expired) r' v h = absurd (ground arith)

  -- Recovery uses a result only within both of its bounds: where a call hands a value over, its work
  -- answered that value, and both when the call began and when the value came there was no reason to
  -- stop, the clock of the run had not elapsed, and the ceiling had neither fired nor passed, whether a
  -- timer was served in time or not.
  pub call-IsOpen :
      (now : ℕ) (a : Option Answer) (during : List Event) (now' : ℕ) (a' : Option Answer)
      (w : Work A) (r r' : RunRecovery) (v : A)
      → call now a during now' a' w r ≡ (r', value v)
      → (w ≡ answers v) × IsOpen now r × IsOpen now' r'
  unfolding call
  call-IsOpen now a during now' a' w r r' v h =
      let (opened, e) =
        if_standing-value now a (λ x. on_return now' a' (race during w x)) r r' v h in
      let (kept_open, settled_so) = on_return-value now' a' (race during w r) r' v e in
      let p = race during w r in
      (race-value during w r p.0 v (ap (λ x. (p.0, x)) settled_so), opened, kept_open)
