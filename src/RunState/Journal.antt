-- ===== src/RunState/Journal.antt =====
-- run-state/in-memory.ts, `InMemoryRunJournal`: a page for each run, with every landed fact under
-- the identity that its caller gave it. The program compares the JSON texts of two facts; a fact is
-- made of strings in a fixed order of keys, so the model compares the facts.
pub mod Ledger
pub mod Replay
pub mod Reading
use secure_home_agent_platfo.Prelude.{
  Bool, true, false, ◌&&◌, Option, none, some, List, [], ◌∷◌, ◌++◌, map, ite, if◌then◌else◌, Str,
  text, ℕ_discrete,
}
use secure_home_agent_platfo.Prelude.Maps
use secure_home_agent_platfo.Prelude.Maps.{Map}
use secure_home_agent_platfo.Lifecycle.States.{LifecycleState, requested}
use secure_home_agent_platfo.Lifecycle.Machine.{TransitionEntry, RejectionEntry}
use secure_home_agent_platfo.RunState.Fence.{
  RunFence, FenceLedger, FenceReason, FenceOutcome, ok, not_ok, stale_fence, conflicting_replay,
  refuse, outcome,
}
use secure_home_agent_platfo.RunState.Visibility.{CommitLedger, is_visible}

pub data AcquisitionEpoch : Type 0 where
  production verification : AcquisitionEpoch

pub data AcquisitionEnd : Type 0 where
  acquired failed refused_token : AcquisitionEnd

pub record JournaledAcquisition : Type 0 where
  pub epoch : AcquisitionEpoch
  pub source : Str
  pub outcome : AcquisitionEnd
  pub detail : Option Str

pub record JournaledHold : Type 0 where
  pub state : LifecycleState
  pub transition : Str
  pub detail : Str
  pub at : Str

pub data Fact : Type 0 where
  transition : TransitionEntry → Fact
  rejection : RejectionEntry → Fact
  acquisition : JournaledAcquisition → Fact
  hold : JournaledHold → Fact

pub Fact-discrete : Discrete Fact
Fact-discrete = hlevel ℕ_discrete

-- A transition, and the commit that must be published to see it.
pub record StoredTransition : Type 0 where
  pub entry : TransitionEntry
  pub commit_id : Option Str

pub record JournalPage : Type 0 where
  pub transitions : List StoredTransition
  pub rejections : List RejectionEntry
  pub acquisitions : List JournaledAcquisition
  pub held : Option JournaledHold
  pub seen : Map Fact

abbrev pub blank : JournalPage
blank = record { transitions = []; rejections = []; acquisitions = []; held = none; seen = [] }

pub record RunJournal : Type 0 where
  pub pages : Map JournalPage
  pub fence : FenceLedger

unfoldable pub page_of : Str → RunJournal → JournalPage
page_of run_id j = elim (Maps.get run_id j.pages) [ none ↦ blank | some page ↦ page ]

pub write_page : Str → JournalPage → RunJournal → RunJournal
write_page run_id page j = record j { pages = Maps.set run_id page j.pages }

pub data Classified : Type 0 where
  fresh replay conflict : Classified

-- A fresh identity is entered in the ledger at once.
classify_as : Str → Fact → JournalPage → Option Fact → JournalPage × Classified
classify_as entry_id fact page none =
    (record page { seen = Maps.set entry_id fact page.seen }, fresh)
classify_as entry_id fact page (some landed) =
    (page, ite (Fact-discrete landed fact) replay conflict)

unfoldable pub classify : Str → Fact → JournalPage → JournalPage × Classified
unfolding classify_as
classify entry_id fact page = classify_as entry_id fact page (Maps.get entry_id page.seen)

-- What each of the four appends does with a fresh fact. A run that moves is no longer held.
unfoldable pub land : Fact → JournalPage → JournalPage
land (transition e) page = record page {
  transitions = page.transitions ++ record { entry = e; commit_id = none } ∷ [];
  held = none;
}
land (rejection r) page = record page { rejections = page.rejections ++ r ∷ [] }
land (acquisition a) page = record page { acquisitions = page.acquisitions ++ a ∷ [] }
land (hold h) page = record page { held = some h }

pub conflict_detail : Str → Str
conflict_detail entry_id =
    text "journal entry "
    ++ (entry_id
        ++ text " already landed a different fact; identity equality must imply fact equality")

settle : Str → Fact → JournalPage × Classified → JournalPage × FenceOutcome
unfolding land
settle entry_id fact (page, fresh) = (land fact page, ok)
settle entry_id fact (page, replay) = (page, ok)
settle entry_id fact (page, conflict) = (page, not_ok conflicting_replay (conflict_detail entry_id))

-- Nothing lands unless the fence answered.
answered : Str → RunJournal → JournalPage × FenceOutcome → FenceOutcome → RunJournal × FenceOutcome
unfolding write_page
answered run_id j (page, result) ok = (write_page run_id page j, result)
answered run_id j (page, result) (not_ok why detail) = (j, not_ok why detail)

-- `appendTransition`, `appendRejection`, `appendAcquisition` and `appendHold`, by the fact's kind.
-- The fence is asked before the page is made.
unfoldable pub append : RunFence → Str → Fact → RunJournal → RunJournal × FenceOutcome
unfolding page_of classify settle answered
append f entry_id fact j =
    let (fence, answer) = outcome f j.fence in
    let landed = settle entry_id fact (classify entry_id fact (page_of f.run_id j)) in
    answered f.run_id (record j { fence = fence }) landed answer

pub data Staging : Type 0 where
  staged : Str → Staging
  not_staged : FenceReason → Str → Staging

under : Str → TransitionEntry → StoredTransition
under commit_id e = record { entry = e; commit_id = some commit_id }

stage_on : Str → Str → List TransitionEntry → RunJournal → Option Str → RunJournal × Staging
unfolding page_of write_page under
stage_on run_id commit_id entries j (some detail) = (j, not_staged stale_fence detail)
stage_on run_id commit_id entries j none =
    let page = page_of run_id j in
    let rows = page.transitions ++ map (under commit_id) entries in
    (write_page run_id (record page { transitions = rows }) j, staged commit_id)

unfoldable pub stage_transitions :
    RunFence → Str → List TransitionEntry → RunJournal → RunJournal × Staging
unfolding stage_on
stage_transitions f commit_id entries j =
    let (fence, refused) = refuse f j.fence in
    stage_on f.run_id commit_id entries (record j { fence = fence }) refused

pub Commit-discrete : Discrete (Option Str)
Commit-discrete = hlevel ℕ_discrete

without_commit : Str → List StoredTransition → List StoredTransition
without_commit commit_id [] = []
without_commit commit_id (row ∷ rows) =
    let rest = without_commit commit_id rows in
    ite (Commit-discrete row.commit_id (some commit_id)) rest (row ∷ rest)

-- What the handle of a staging does when it is abandoned.
unfoldable pub abandon : Str → Str → RunJournal → RunJournal
unfolding page_of write_page without_commit
abandon run_id commit_id j =
    let page = page_of run_id j in
    write_page run_id (record page { transitions = without_commit commit_id page.transitions }) j

pub record JournaledState : Type 0 where
  pub run_id : Str
  pub state : LifecycleState
  pub transitions : List TransitionEntry
  pub rejections : List RejectionEntry
  pub acquisitions : List JournaledAcquisition
  pub held : Option JournaledHold

-- The rows that a reader sees.
unfoldable pub visible : CommitLedger → List StoredTransition → List TransitionEntry
visible v [] = []
visible v (row ∷ rows) =
    let rest = visible v rows in if is_visible v row.commit_id then row.entry ∷ rest else rest

-- `transitions.at(-1)?.to ?? 'REQUESTED'`
abbrev pub state_after : LifecycleState → List TransitionEntry → LifecycleState
state_after s [] = s
state_after s (e ∷ es) = state_after e.to es

abbrev is_nil {ℓ} : {A : Type ℓ} → List A → Bool
is_nil [] = true
is_nil (x ∷ xs) = false

abbrev is_none {ℓ} : {A : Type ℓ} → Option A → Bool
is_none none = true
is_none (some x) = false

read_page : Str → CommitLedger → JournalPage → Option JournaledState
unfolding visible
read_page run_id v page =
    let transitions = visible v page.transitions in
    if is_nil transitions
      && (is_nil page.rejections && (is_nil page.acquisitions && is_none page.held))
    then none
    else some (record {
      run_id = run_id;
      state = state_after requested transitions;
      transitions = transitions;
      rejections = page.rejections;
      acquisitions = page.acquisitions;
      held = page.held;
    })

-- A page that holds only rows staged under unpublished commits is no journal yet.
unfoldable pub read_current_state : Str → CommitLedger → RunJournal → Option JournaledState
unfolding read_page
read_current_state run_id v j = elim (Maps.get run_id j.pages) [
  | none ↦ none
  | some page ↦ read_page run_id v page
]
