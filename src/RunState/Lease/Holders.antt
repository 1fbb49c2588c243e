-- ===== src/RunState/Lease/Holders.antt =====
-- run-state/in-memory.ts, `InMemoryRunLease`. Who holds what after any calls on a new lease.
use secure_home_agent_platfo.Prelude.{
  ℕ, ◌+◌, ◌≤◌, ◌≡◌, refl, ◌≢◌, Bool, true, false, Option, none, some, List, [], ◌∷◌, Str, arith,
  Option-cases, inl, inr,
}
use secure_home_agent_platfo.Prelude.Maps
use secure_home_agent_platfo.Prelude.Maps.{get-set, get-delete}
use secure_home_agent_platfo.RunState.Lease.{
  RunLease, Attempt, AttemptRecord, granted, abandoned, ok, empty, attempt_key, generation_of,
  held_by, claim, abandon, renew, release, seize,
}
use secure_home_agent_platfo.RunState.Lease.Invariant.{
  Call, claims, abandons, releases, seizes, step, run,
}

-- A granted attempt has its generation on record.
abbrev has_generation : Option AttemptRecord → Bool
has_generation none = true
has_generation (some r) = elim r.state [
  | abandoned ↦ true
  | granted ↦ elim r.generation [ none ↦ false | some g ↦ true ]
]

-- No two runs are held under one generation, and every generation that holds a run was given out.
pub record Inv (l : RunLease) : Type 0 where
  pub given : (r : Str) (g : ℕ) → held_by r l ≡ some g → g ≤ l.generation
  pub one_run : (r s : Str) (g : ℕ) → held_by r l ≡ some g → held_by s l ≡ some g → r ≡ s
  pub told : (k : Str) → has_generation (Maps.get k l.attempts) ≡ true

empty-Inv : Inv empty
unfolding Maps.get
empty-Inv = record { given = λ r g h. cc; one_run = λ r s g h k. cc; told = λ k. refl }

given-step :
    (c : Call) (l : RunLease) (r : Str) (g : ℕ)
    → (held_by r l ≡ some g → g ≤ l.generation)
    → held_by r (step c l) ≡ some g
    → g ≤ (step c l).generation
unfolding step claim abandon release seize
given-step (claims a aborted) l r g v h =
    ground (arith, get-set a.run_id r (l.generation + 1) l.held)
given-step (abandons a) l r g v h = ground (arith, get-delete a.run_id r l.held)
given-step (releases s g') l r g v h = ground (arith, get-delete s r l.held)
given-step (seizes s) l r g v h = ground (arith, get-set s r (l.generation + 1) l.held)

one_run-step :
    (c : Call) (l : RunLease) (r s : Str) (g : ℕ)
    → (held_by r l ≡ some g → g ≤ l.generation)
    → (held_by s l ≡ some g → g ≤ l.generation)
    → (held_by r l ≡ some g → held_by s l ≡ some g → r ≡ s)
    → held_by r (step c l) ≡ some g
    → held_by s (step c l) ≡ some g
    → r ≡ s
unfolding step claim abandon release seize
one_run-step (claims a aborted) l r s g v w u h k = ground (
  arith,
  get-set a.run_id r (l.generation + 1) l.held,
  get-set a.run_id s (l.generation + 1) l.held,
)
one_run-step (abandons a) l r s g v w u h k =
    ground (arith, get-delete a.run_id r l.held, get-delete a.run_id s l.held)
one_run-step (releases t g') l r s g v w u h k =
    ground (arith, get-delete t r l.held, get-delete t s l.held)
one_run-step (seizes t) l r s g v w u h k =
    ground (arith, get-set t r (l.generation + 1) l.held, get-set t s (l.generation + 1) l.held)

told-step :
    (c : Call) (l : RunLease) (k : Str)
    → has_generation (Maps.get k l.attempts) ≡ true
    → has_generation (Maps.get k (step c l).attempts) ≡ true
unfolding step claim abandon release seize
told-step (claims a aborted) l k h = ground (
  arith,
  get-set (attempt_key a) k (record { state = granted; generation = some (l.generation + 1) })
      l.attempts,
)
told-step (abandons a) l k h = ground (
  arith,
  get-set (attempt_key a) k
      (record {
        state = abandoned;
        generation = generation_of (Maps.get (attempt_key a) l.attempts);
      })
      l.attempts,
)
told-step (releases t g') l k h = ground arith
told-step (seizes t) l k h = ground arith

step-Inv : (c : Call) (l : RunLease) → Inv l → Inv (step c l)
step-Inv c l v = record {
  given = λ r g. given-step c l r g (v.given r g);
  one_run = λ r s g. one_run-step c l r s g (v.given r g) (v.given s g) (v.one_run r s g);
  told = λ k. told-step c l k (v.told k);
}

run-Inv : (cs : List Call) (l : RunLease) → Inv l → Inv (run cs l)
unfolding run
run-Inv [] l v = v
run-Inv (c ∷ cs) l v = run-Inv cs (step c l) (step-Inv c l v)

pub run-empty-Inv : (cs : List Call) → Inv (run cs empty)
run-empty-Inv cs = run-Inv cs empty empty-Inv

claim_ok :
    (a : Attempt) (aborted : Bool) (l : RunLease) (o : Option ℕ)
    → has_generation (Maps.get (attempt_key a) l.attempts) ≡ true
    → (claim a aborted l).1 ≡ ok o
    → (o ≢ none) × (held_by a.run_id (claim a aborted l).0 ≡ o)
unfolding claim
claim_ok a aborted l o t h = ground (arith, get-set a.run_id a.run_id (l.generation + 1) l.held)

-- After any calls on a new lease, a claim that is answered `ok` is told a generation, and that
-- generation then holds the run: its renewal succeeds.
pub renew-claim :
    (cs : List Call) (a : Attempt) (aborted : Bool) (o : Option ℕ)
    → let l = run cs empty in
      (claim a aborted l).1 ≡ ok o
      → (g : ℕ) × (o ≡ some g) × (renew a.run_id g (claim a aborted l).0 ≡ true)
unfolding renew
renew-claim cs a aborted o h =
    let l = run cs empty in
    let p = claim_ok a aborted l o ((run-empty-Inv cs).told (attempt_key a)) h in
    elim (Option-cases o) [ inl e ↦ absurd (p.0 e) | inr (g, e) ↦ (g, e, ground arith) ]

-- An attempt that is abandoned after it was granted lets its run go: the generation it was told does
-- not hold the run any more.
pub renew-abandon :
    (a : Attempt) (aborted : Bool) (g : ℕ) (l : RunLease)
    → (claim a aborted l).1 ≡ ok (some g)
    → renew a.run_id g (abandon a (claim a aborted l).0) ≡ false
unfolding claim abandon renew
renew-abandon a aborted g l h = ground (
  arith,
  get-set a.run_id a.run_id (l.generation + 1) l.held,
  get-set (attempt_key a) (attempt_key a)
      (record { state = granted; generation = some (l.generation + 1) }) l.attempts,
  get-delete a.run_id a.run_id l.held,
  get-delete a.run_id a.run_id (Maps.set a.run_id (l.generation + 1) l.held),
)
