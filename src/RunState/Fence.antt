-- ===== src/RunState/Fence.antt =====
-- run-state/fence.ts: the highest generation that a resource has served for a run, and the refusal
-- of a lower one.
use secure_home_agent_platfo.Prelude.{
  ℕ, ◌<◌, ◌≡◌, refl, Option, none, some, List, [], ◌∷◌, ◌++◌, ite, Str, Str-discrete, text, decimal,
  arith, dec_lt, inl, inr, Option-cases, ◌∙◌, ap, Bool, true, false, leb,
}
use secure_home_agent_platfo.Prelude.Maps
use secure_home_agent_platfo.Prelude.Maps.{Map, get-set}

pub record RunFence : Type 0 where
  pub run_id : Str
  pub generation : ℕ

pub data FenceReason : Type 0 where
  stale_fence conflicting_replay : FenceReason

pub data FenceOutcome : Type 0 where
  ok : FenceOutcome
  not_ok : FenceReason → Str → FenceOutcome

pub record FenceLedger : Type 0 where
  pub high : Map ℕ

abbrev pub empty : FenceLedger
empty = record { high = [] }

unfoldable pub current_for : Str → FenceLedger → Option ℕ
current_for run_id l = Maps.get run_id l.high

raise_to : RunFence → FenceLedger → FenceLedger
raise_to f l = record { high = Maps.set f.run_id f.generation l.high }

pub refusal : RunFence → ℕ → Str
refusal f high =
    text "run "
    ++ (f.run_id
        ++ (text " moved on: this caller holds generation "
            ++ (decimal f.generation ++ (text " and the run is at " ++ decimal high))))

-- `none` when the request may proceed.
unfoldable pub refuse : RunFence → FenceLedger → FenceLedger × Option Str
unfolding raise_to current_for
refuse f l = elim (current_for f.run_id l) [
  | none ↦ (raise_to f l, none)
  | some high ↦
      ite (dec_lt f.generation high) (l, some (refusal f high))
        (ite (dec_lt high f.generation) (raise_to f l, none) (l, none))
]

unfoldable pub outcome : RunFence → FenceLedger → FenceLedger × FenceOutcome
unfolding refuse
outcome f l =
    let (l', refused) = refuse f l in
    elim refused [ none ↦ (l', ok) | some detail ↦ (l', not_ok stale_fence detail) ]

-- What a ledger is to remember: the highest generation that it has served for the run.
abbrev pub above : ℕ → Option ℕ → Option ℕ
above g none = some g
above g (some h) = ite (dec_lt h g) (some g) (some h)

-- The ledger's memory of every run after a request, served or refused.
pub current_for-refuse :
    (f : RunFence) (r : Str) (l : FenceLedger)
    → current_for r (refuse f l).0
      ≡ ite (Str-discrete f.run_id r) (above f.generation (current_for r l)) (current_for r l)
unfolding refuse
current_for-refuse f r l = ground (arith, get-set f.run_id r f.generation l.high)

-- A request below the generation that the ledger remembers for its run is refused, and the ledger
-- is as it was.
pub refuse_below :
    (f : RunFence) (l : FenceLedger) (high : ℕ)
    → current_for f.run_id l ≡ some high
    → f.generation < high
    → refuse f l ≡ (l, some (refusal f high))
unfolding refuse
refuse_below f l high e below = ground arith

-- The remembered generation is there and no lower than the one given.
abbrev at_least : ℕ → Option ℕ → Bool
at_least g none = false
at_least g (some h) = leb g h

at_least-refuse :
    (f : RunFence) (l : FenceLedger)
    → (refuse f l).1 ≡ none
    → at_least f.generation (current_for f.run_id (refuse f l).0) ≡ true
unfolding refuse
at_least-refuse f l served = ground (arith, get-set f.run_id f.run_id f.generation l.high)

unfoldable pub serve : List RunFence → FenceLedger → FenceLedger
serve [] l = l
serve (f ∷ fs) l = serve fs (refuse f l).0

-- The highest of the generations presented for the run, from what was remembered before.
abbrev pub highest : Str → List RunFence → Option ℕ → Option ℕ
highest r [] o = o
highest r (f ∷ fs) o = highest r fs (ite (Str-discrete f.run_id r) (above f.generation o) o)

-- After any requests, by any callers for any runs, what the resource holds to be a run's current
-- generation is the highest that was presented for that run.
pub current_for-serve :
    (r : Str) (fs : List RunFence) (l : FenceLedger)
    → current_for r (serve fs l) ≡ highest r fs (current_for r l)
unfolding serve
current_for-serve r [] l = refl
current_for-serve r (f ∷ fs) l =
    current_for-serve r fs (refuse f l).0 ∙ ap (highest r fs) (current_for-refuse f r l)

at_least-serve :
    (g : ℕ) (r : Str) (fs : List RunFence) (l : FenceLedger)
    → at_least g (current_for r l) ≡ true
    → at_least g (current_for r (serve fs l)) ≡ true
unfolding serve
at_least-serve g r [] l h = h
at_least-serve g r (f ∷ fs) l h =
    at_least-serve g r fs (refuse f l).0 (ground (arith, current_for-refuse f r l))

refuse-at_least :
    (f : RunFence) (g : ℕ) (l : FenceLedger)
    → at_least g (current_for f.run_id l) ≡ true
    → f.generation < g
    → (detail : Str) × (refuse f l ≡ (l, some detail))
refuse-at_least f g l h lower = elim (Option-cases (current_for f.run_id l)) [
  | inl e ↦ ground arith
  | inr (high, e) ↦ (refusal f high, refuse_below f l high e (ground arith))
]

-- Once the resource has served a generation of a run, it refuses every lower generation of that run
-- for good: whatever requests come between, the request is refused and changes nothing.
pub locked_out :
    (f g : RunFence) (fs : List RunFence) (l : FenceLedger)
    → (refuse f l).1 ≡ none
    → g.run_id ≡ f.run_id
    → g.generation < f.generation
    → let l' = serve fs (refuse f l).0 in (detail : Str) × (refuse g l' ≡ (l', some detail))
locked_out f g fs l served same lower =
    refuse-at_least g f.generation (serve fs (refuse f l).0)
      (rw same
        (at_least-serve f.generation f.run_id fs (refuse f l).0 (at_least-refuse f l served)))
      lower
