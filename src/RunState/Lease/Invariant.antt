-- ===== src/RunState/Lease/Invariant.antt =====
-- run-state/in-memory.ts, `InMemoryRunLease`: the lease under any sequence of calls.
use secure_home_agent_platfo.Prelude.{
  ℕ, ◌+◌, ◌≤◌, ◌≡◌, Bool, true, false, Option, none, some, List, [], ◌∷◌, Str, arith, ◌↔◌, ◌⊎◌,
}
use secure_home_agent_platfo.Prelude.Maps
use secure_home_agent_platfo.Prelude.Maps.{get-set, get-delete}
use secure_home_agent_platfo.RunState.Lease.{
  RunLease, Attempt, AttemptRecord, LeaseReason, granted, abandoned, ok, not_ok, claim_aborted,
  attempt_key, generation_of, abandoned_detail, held_by, claim, abandon, renew, release, seize,
}

pub data Call : Type 0 where
  claims : Attempt → Bool → Call
  abandons : Attempt → Call
  releases : Str → ℕ → Call
  seizes : Str → Call

unfoldable pub step : Call → RunLease → RunLease
step (claims a aborted) l = (claim a aborted l).0
step (abandons a) l = abandon a l
step (releases r g) l = release r g l
step (seizes r) l = (seize r l).0

unfoldable pub run : List Call → RunLease → RunLease
run [] l = l
run (c ∷ cs) l = run cs (step c l)

-- What a call can do to the holder of a run: leave it, end it, or put a generation above all others
-- in its place.
held-step :
    (c : Call) (r : Str) (l : RunLease)
    → (held_by r (step c l) ≡ held_by r l)
      ⊎ ((held_by r (step c l) ≡ none) ⊎ (held_by r (step c l) ≡ some (l.generation + 1)))
unfolding step claim abandon release seize
held-step (claims a aborted) r l = ground (arith, get-set a.run_id r (l.generation + 1) l.held)
held-step (abandons a) r l = ground (arith, get-delete a.run_id r l.held)
held-step (releases s g) r l = ground (arith, get-delete s r l.held)
held-step (seizes s) r l = ground (arith, get-set s r (l.generation + 1) l.held)

generation-step-le : (c : Call) (l : RunLease) → l.generation ≤ (step c l).generation
unfolding step claim abandon release seize
generation-step-le (claims a aborted) l = ground arith
generation-step-le (abandons a) l = ground arith
generation-step-le (releases s g) l = ground arith
generation-step-le (seizes s) l = ground arith

renew_iff : (r : Str) (g : ℕ) (l : RunLease) → (held_by r l ≡ some g) ↔ (renew r g l ≡ true)
unfolding renew
renew_iff r g l = ground arith

not-renew-step :
    (c : Call) (r : Str) (g : ℕ) (l : RunLease)
    → g ≤ l.generation
    → renew r g l ≡ false
    → renew r g (step c l) ≡ false
unfolding renew
not-renew-step c r g l old lost = ground (arith, held-step c r l)

-- A generation that does not hold its run never holds it again: whatever calls are made, its
-- renewals are refused from then on.
pub not-renew-run :
    (cs : List Call) (r : Str) (g : ℕ) (l : RunLease)
    → g ≤ l.generation
    → renew r g l ≡ false
    → renew r g (run cs l) ≡ false
unfolding run
not-renew-run [] r g l old lost = lost
not-renew-run (c ∷ cs) r g l old lost =
    not-renew-run cs r g (step c l) (omega (arith, generation-step-le c l))
      (not-renew-step c r g l old lost)

-- While a generation holds a run, no claim changes the lease, and the only generation that any claim
-- of that run is told is the holder's.
pub claim_of_held :
    (a : Attempt) (aborted : Bool) (g : ℕ) (l : RunLease)
    → renew a.run_id g l ≡ true
    → ((claim a aborted l).0 ≡ l)
      × (((claim a aborted l).1 ≡ ok (some g))
          ⊎ ((why : LeaseReason) × (detail : Str) × ((claim a aborted l).1 ≡ not_ok why detail)))
unfolding claim renew
claim_of_held a aborted g l h = ground arith

abbrev is_abandoned : Option AttemptRecord → Bool
is_abandoned none = false
is_abandoned (some r) = elim r.state [ granted ↦ false | abandoned ↦ true ]

abbrev resolved : Attempt → RunLease → Bool
resolved a l = is_abandoned (Maps.get (attempt_key a) l.attempts)

resolved-step :
    (c : Call) (a : Attempt) (l : RunLease) → resolved a l ≡ true → resolved a (step c l) ≡ true
unfolding step claim abandon release seize
resolved-step (claims b aborted) a l h = ground (
  arith,
  get-set (attempt_key b) (attempt_key a)
      (record { state = granted; generation = some (l.generation + 1) }) l.attempts,
)
resolved-step (abandons b) a l h = ground (
  arith,
  get-set (attempt_key b) (attempt_key a)
      (record {
        state = abandoned;
        generation = generation_of (Maps.get (attempt_key b) l.attempts);
      })
      l.attempts,
)
resolved-step (releases s g) a l h = ground arith
resolved-step (seizes s) a l h = ground arith

resolved-run :
    (cs : List Call) (a : Attempt) (l : RunLease)
    → resolved a l ≡ true
    → resolved a (run cs l) ≡ true
unfolding run
resolved-run [] a l h = h
resolved-run (c ∷ cs) a l h = resolved-run cs a (step c l) (resolved-step c a l h)

resolved-abandon : (a : Attempt) (l : RunLease) → resolved a (abandon a l) ≡ true
unfolding abandon
resolved-abandon a l = ground (
  arith,
  get-set (attempt_key a) (attempt_key a)
      (record {
        state = abandoned;
        generation = generation_of (Maps.get (attempt_key a) l.attempts);
      })
      l.attempts,
)

claim_of_resolved :
    (a : Attempt) (aborted : Bool) (l : RunLease)
    → resolved a l ≡ true
    → (detail : Str) × (claim a aborted l ≡ (l, not_ok claim_aborted detail))
unfolding claim
claim_of_resolved a aborted l h = (abandoned_detail a, ground arith)

-- An attempt that was abandoned is never granted: whatever calls come between, its claim is refused
-- as aborted and changes nothing.
pub claim_of_abandoned :
    (cs : List Call) (a : Attempt) (aborted : Bool) (l : RunLease)
    → let l' = run cs (abandon a l) in
      (detail : Str) × (claim a aborted l' ≡ (l', not_ok claim_aborted detail))
claim_of_abandoned cs a aborted l =
    claim_of_resolved a aborted (run cs (abandon a l))
      (resolved-run cs a (abandon a l) (resolved-abandon a l))
