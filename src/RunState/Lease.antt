-- ===== src/RunState/Lease.antt =====
-- run-state/in-memory.ts, `InMemoryRunLease`: who holds a run, and what became of each attempt to
-- claim it. Generations count up over all runs.
pub mod Invariant
pub mod Holders
use secure_home_agent_platfo.Prelude.{
  ℕ, ◌+◌, ◌≡◌, Bool, true, false, Option, none, some, List, [], ◌∷◌, ◌++◌, ite, if◌then◌else◌, Str,
  text, decimal, ℕ_discrete,
}
use secure_home_agent_platfo.Prelude.Maps
use secure_home_agent_platfo.Prelude.Maps.{Map}

pub data AttemptState : Type 0 where
  granted abandoned : AttemptState

pub record AttemptRecord : Type 0 where
  pub state : AttemptState
  pub generation : Option ℕ

pub record RunLease : Type 0 where
  pub held : Map ℕ
  pub attempts : Map AttemptRecord
  pub generation : ℕ

abbrev pub empty : RunLease
empty = record { held = []; attempts = []; generation = 0 }

pub record Attempt : Type 0 where
  pub run_id : Str
  pub attempt_id : Str

pub data LeaseReason : Type 0 where
  already_leased claim_aborted : LeaseReason

pub data LeaseClaim : Type 0 where
  -- the generation, as the program reads it from a record where it is optional
  ok : Option ℕ → LeaseClaim
  not_ok : LeaseReason → Str → LeaseClaim

-- The run's id, NUL, the attempt's id.
abbrev pub attempt_key : Attempt → Str
attempt_key a = a.run_id ++ 0 ∷ a.attempt_id

abbrev pub held_by : Str → RunLease → Option ℕ
held_by run_id l = Maps.get run_id l.held

pub Option-discrete : Discrete (Option ℕ)
Option-discrete = hlevel ℕ_discrete

grant : Attempt → RunLease → RunLease × LeaseClaim
grant a l =
    let g = l.generation + 1 in
    (
      record {
        held = Maps.set a.run_id g l.held;
        attempts =
            Maps.set (attempt_key a) (record { state = granted; generation = some g }) l.attempts;
        generation = g;
      },
      ok (some g),
    )

-- A claim by an attempt that the lease does not know.
claim_new : Attempt → Bool → RunLease → RunLease × LeaseClaim
unfolding grant
claim_new a aborted l =
    if aborted
    then (
      l,
      not_ok claim_aborted (
          text "claim attempt "
          ++ (a.attempt_id ++ text " was aborted before ownership was granted")),
    )
    else (elim (held_by a.run_id l) [
      | none ↦ grant a l
      | some holder ↦ (
        l,
        not_ok already_leased (
            text "run "
            ++ (a.run_id ++ (text " is already leased at generation " ++ decimal holder))),
      )
    ])

-- A claim by an attempt that was granted: the answer again while the grant is current.
claim_granted : Attempt → Option ℕ → RunLease → RunLease × LeaseClaim
claim_granted a generation l =
    ite (Option-discrete (held_by a.run_id l) generation) (l, ok generation)
      (
        l,
        not_ok claim_aborted (
            text "claim attempt "
            ++ (a.attempt_id ++ text " was already resolved; its grant is no longer current")),
      )

pub abandoned_detail : Attempt → Str
abandoned_detail a =
    text "claim attempt " ++ (a.attempt_id ++ text " was abandoned before ownership was granted")

claim_again : Attempt → AttemptRecord → RunLease → RunLease × LeaseClaim
unfolding claim_granted
claim_again a r l = elim r.state [
  | abandoned ↦ (l, not_ok claim_aborted (abandoned_detail a))
  | granted ↦ claim_granted a r.generation l
]

unfoldable pub claim : Attempt → Bool → RunLease → RunLease × LeaseClaim
unfolding claim_new claim_again
claim a aborted l = elim (Maps.get (attempt_key a) l.attempts) [
  | none ↦ claim_new a aborted l
  | some r ↦ claim_again a r l
]

-- The attempt's grant is let go if it is still current.
let_go : Attempt → Option AttemptRecord → RunLease → RunLease
let_go a none l = l
let_go a (some r) l = elim r.state [
  | abandoned ↦ l
  | granted ↦
      ite (Option-discrete (held_by a.run_id l) r.generation)
        (record l { held = Maps.delete a.run_id l.held }) l
]

abbrev pub generation_of : Option AttemptRecord → Option ℕ
generation_of none = none
generation_of (some r) = r.generation

unfoldable pub abandon : Attempt → RunLease → RunLease
unfolding let_go
abandon a l =
    let attempt = Maps.get (attempt_key a) l.attempts in
    record (let_go a attempt l) {
      attempts =
          Maps.set (attempt_key a)
            (record { state = abandoned; generation = generation_of attempt }) l.attempts;
    }

unfoldable pub renew : Str → ℕ → RunLease → Bool
renew run_id generation l = ite (Option-discrete (held_by run_id l) (some generation)) true false

unfoldable pub release : Str → ℕ → RunLease → RunLease
release run_id generation l =
    ite (Option-discrete (held_by run_id l) (some generation))
      (record l { held = Maps.delete run_id l.held }) l

-- `[SEIZE]`: a competing holder takes the run.
unfoldable pub seize : Str → RunLease → RunLease × ℕ
seize run_id l =
    let g = l.generation + 1 in (record l { held = Maps.set run_id g l.held; generation = g }, g)
