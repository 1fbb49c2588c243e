-- ===== src/Lifecycle/Machine.antt =====
-- lifecycle/machine.ts: one run's single writer. A method that changes the machine returns the new
-- one beside its result. What the clock answers during a call is an argument of the call. The
-- identity of a capability object is a number that the caller of `project` supplies.
pub mod Totality
pub mod Record
pub mod Calls
pub mod Terminal
pub mod Projecting
use secure_home_agent_platfo.Prelude.{
  ℕ, zero, suc, ◌+◌, Bool, true, false, not, ◌&&◌, Option, none, some, List, [], ◌∷◌, ◌++◌, ite,
  if◌then◌else◌, Str, Str-discrete, text, decimal, length, drop, ℕ_discrete,
}
use secure_home_agent_platfo.Lifecycle.States.{LifecycleState, requested, is_terminal, state_name}
use secure_home_agent_platfo.Lifecycle.Transitions.{
  TransitionKind, TransitionTable, declared_next, kind_name,
}

pub record TransitionEntry : Type 0 where
  pub run_id : Str
  pub from : LifecycleState
  pub to : LifecycleState
  pub kind : TransitionKind
  pub cause : Str
  pub at : Str

pub data RejectionReason : Type 0 where
  undeclared_transition terminal_state stale_writer precondition_unmet foreign_claim :
      RejectionReason

pub record RejectionEntry : Type 0 where
  pub run_id : Str
  pub state : LifecycleState
  pub attempted : TransitionKind
  pub reason : RejectionReason
  pub detail : Str
  pub at : Str

pub record CommitCapability : Type 0 where
  pub entries : List TransitionEntry
  pub from_version : ℕ

pub data TransitionResult : Type 0 where
  advanced : LifecycleState → TransitionEntry → TransitionResult
  rejected : LifecycleState → RejectionEntry → TransitionResult

pub record WriteClaim : Type 0 where
  pub run_id : Str
  pub version : ℕ

pub record RunMachine : Type 0 where
  pub run_id : Str
  pub table : TransitionTable
  pub transitions : List TransitionEntry
  pub rejections : List RejectionEntry
  pub state : LifecycleState
  pub version : ℕ
  pub journaled_transitions : ℕ
  pub journaled_rejections : ℕ
  -- the capabilities minted and not yet committed, under their identities
  pub projections : List (ℕ × CommitCapability)

unfoldable pub new : Str → TransitionTable → RunMachine
new run_id table = record {
  run_id = run_id;
  table = table;
  transitions = [];
  rejections = [];
  state = requested;
  version = 0;
  journaled_transitions = 0;
  journaled_rejections = 0;
  projections = [];
}

abbrev declares : Option LifecycleState → Bool
declares none = false
declares (some next) = true

unfoldable pub permits : TransitionKind → RunMachine → Bool
permits kind m = not (is_terminal m.state) && declares (declared_next m.table m.state kind)

unfoldable pub pending_journal : RunMachine → List TransitionEntry × List RejectionEntry
pending_journal m =
    (drop m.journaled_transitions m.transitions, drop m.journaled_rejections m.rejections)

unfoldable pub confirm_journaled : ℕ → ℕ → RunMachine → RunMachine
confirm_journaled transitions rejections m = record m {
  journaled_transitions = m.journaled_transitions + transitions;
  journaled_rejections = m.journaled_rejections + rejections;
}

unfoldable pub claim : RunMachine → WriteClaim
claim m = record { run_id = m.run_id; version = m.version }

reject : TransitionKind → RejectionReason → Str → Str → RunMachine → RunMachine × TransitionResult
reject attempted reason detail at m =
    (record m { rejections = m.rejections ++ entry ∷ [] }, rejected m.state entry)
  where
    entry : RejectionEntry
    entry = record {
      run_id = m.run_id;
      state = m.state;
      attempted = attempted;
      reason = reason;
      detail = detail;
      at = at;
    }

-- The tail of `apply` once a declared transition is found.
pub advance_to :
    LifecycleState → TransitionKind → Str → Str → RunMachine → RunMachine × TransitionResult
advance_to next kind cause at m = (
  record m { state = next; version = m.version + 1; transitions = m.transitions ++ entry ∷ [] },
  advanced next entry,
)
  where
    entry : TransitionEntry
    entry = record {
      run_id = m.run_id;
      from = m.state;
      to = next;
      kind = kind;
      cause = cause;
      at = at;
    }

unfoldable pub apply :
    WriteClaim → TransitionKind → Str → Str → RunMachine → RunMachine × TransitionResult
unfolding reject advance_to
apply c kind cause at m =
    ite (Str-discrete c.run_id m.run_id)
      (ite (ℕ_discrete c.version m.version)
        (if is_terminal m.state
          then reject kind terminal_state
              (state_name m.state ++ text " is terminal and accepts no further transition") at m
          else (elim (declared_next m.table m.state kind) [
            | none ↦
                reject kind undeclared_transition
                  (text "the machine declares no "
                    ++ (kind_name kind ++ (text " transition for " ++ state_name m.state)))
                  at m
            | some next ↦ advance_to next kind cause at m
          ]))
        (reject kind stale_writer
          (text "the run advanced to version "
            ++ (decimal m.version ++ (text " after this claim was taken at " ++ decimal c.version)))
          at m))
      (reject kind foreign_claim
        (text "the claim was taken for run "
          ++ (c.run_id ++ (text "; this machine advances run " ++ m.run_id)))
        at m)

unfoldable pub hold : TransitionKind → Str → Str → RunMachine → RunMachine × TransitionResult
unfolding reject
hold kind detail at m = reject kind precondition_unmet detail at m

-- Claim and apply in one step.
unfoldable pub advance : TransitionKind → Str → Str → RunMachine → RunMachine × TransitionResult
unfolding apply claim
advance kind cause at m = apply (claim m) kind cause at m

pub record Step : Type 0 where
  pub kind : TransitionKind
  pub cause : Str
  -- what the clock answers when this step is projected
  pub at : Str

pub data Projection : Type 0 where
  projected : List TransitionEntry → Projection
  unprojected : TransitionKind → LifecycleState → Projection

abbrev pub prepend : TransitionEntry → Projection → Projection
prepend entry (projected entries) = projected (entry ∷ entries)
prepend entry (unprojected kind from) = unprojected kind from

-- The loop of `project`, from the state `state`.
pub project_from : TransitionTable → Str → LifecycleState → List Step → Projection
project_from table run_id state [] = projected []
project_from table run_id state (s ∷ steps) =
    if is_terminal state
    then unprojected s.kind state
    else (elim (declared_next table state s.kind) [
      | none ↦ unprojected s.kind state
      | some next ↦
          prepend
            (record {
              run_id = run_id;
              from = state;
              to = next;
              kind = s.kind;
              cause = s.cause;
              at = s.at;
            })
            (project_from table run_id next steps)
    ])

abbrev pub minted : ℕ → Projection → RunMachine → RunMachine
minted identity (projected entries) m = record m {
  projections = (identity, record { entries = entries; from_version = m.version }) ∷ m.projections;
}
minted identity (unprojected kind from) m = m

unfoldable pub project : ℕ → List Step → RunMachine → RunMachine × Projection
unfolding project_from
project identity steps m =
    let p = project_from m.table m.run_id m.state steps in (minted identity p m, p)

pub data CommitResult : Type 0 where
  committed : CommitResult
  -- the two errors that `commitProjected` throws
  not_minted : CommitResult
  stale_projection : ℕ → ℕ → CommitResult

pub find_capability : ℕ → List (ℕ × CommitCapability) → Option CommitCapability
find_capability identity [] = none
find_capability identity ((i, c) ∷ rest) =
    ite (ℕ_discrete i identity) (some c) (find_capability identity rest)

-- `Set.delete`
pub drop_capability : ℕ → List (ℕ × CommitCapability) → List (ℕ × CommitCapability)
drop_capability identity [] = []
drop_capability identity ((i, c) ∷ rest) =
    let others = drop_capability identity rest in
    ite (ℕ_discrete i identity) others ((i, c) ∷ others)

-- The loop of `commitProjected`.
pub adopt : List TransitionEntry → RunMachine → RunMachine
adopt [] m = m
adopt (e ∷ es) m =
    adopt es
      (record m { transitions = m.transitions ++ e ∷ []; state = e.to; version = m.version + 1 })

credit : ℕ → RunMachine → RunMachine
credit n m = record m { journaled_transitions = m.journaled_transitions + n }

-- The capability is spent before its version is looked at.
commit_minted : Option CommitCapability → RunMachine → RunMachine × CommitResult
unfolding adopt credit
commit_minted none m = (m, not_minted)
commit_minted (some c) m =
    ite (ℕ_discrete c.from_version m.version)
      (credit (length c.entries) (adopt c.entries m), committed)
      (m, stale_projection c.from_version m.version)

unfoldable pub commit_projected : ℕ → RunMachine → RunMachine × CommitResult
unfolding find_capability drop_capability commit_minted
commit_projected identity m =
    commit_minted (find_capability identity m.projections)
      (record m { projections = drop_capability identity m.projections })
