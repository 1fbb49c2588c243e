-- ===== src/Examples/Resources.antt =====
-- services/runner-control/src: the theorems on fences, leases, the journal, the outbox, gates, consent
-- and acquisition at concrete inputs.
use secure_home_agent_platfo.Prelude.{
  ◌≡◌, refl, ◌++◌, if◌then◌else◌, ℕ, suc, ◌≤◌, true, false, none, some, List, [], ◌∷◌, map, text,
  Str, Str-discrete, ℕ_discrete, arith,
}
use secure_home_agent_platfo.Prelude.Maps
use secure_home_agent_platfo.Prelude.Maps.{Map}
use secure_home_agent_platfo.Lifecycle.States.{requested, profile_resolved}
use secure_home_agent_platfo.Lifecycle.Transitions.{transitions, resolve_profile}
use secure_home_agent_platfo.Lifecycle.Machine.{RunMachine, TransitionEntry, new, pending_journal}
use secure_home_agent_platfo.RunState.Fence.{
  RunFence, refuse, serve, current_for, highest, locked_out, current_for-serve, outcome, empty,
}
use secure_home_agent_platfo.RunState.Fence
use secure_home_agent_platfo.RunState.Lease.{
  Attempt, RunLease, LeaseReason, ok, not_ok, claim_aborted, claim, abandon, renew,
}
use secure_home_agent_platfo.RunState.Lease
use secure_home_agent_platfo.RunState.Lease.Invariant.{run}
use secure_home_agent_platfo.RunState.Lease.Holders.{renew-abandon}
use secure_home_agent_platfo.RunState.Journal
use secure_home_agent_platfo.RunState.Journal.{
  Fact, RunJournal, page_of, append, stage_transitions, visible, JournalPage,
}
use secure_home_agent_platfo.RunState.Journal.Ledger
use secure_home_agent_platfo.RunState.Journal.Ledger.{
  IsDerived, no_journal, run-no_journal-IsDerived,
}
use secure_home_agent_platfo.RunState.Journal.Replay.{again, append-again}
use secure_home_agent_platfo.RunState.Outbox
use secure_home_agent_platfo.RunState.Outbox.{
  JournalOutbox, IsNumbered, drain_machine, drain_machine-facts, run-new-IsNumbered, facts, records,
  drains, lands,
}
use secure_home_agent_platfo.Scheduling.Dispositions
use secure_home_agent_platfo.Scheduling.Dispositions.{
  GateOutcome, outcome_of, pass, fail, results-run, first_of,
}
use secure_home_agent_platfo.Scheduling.Plan.{PlannedGate, build_plan, planned}
use secure_home_agent_platfo.Prelude.Objects.{property, own}
use secure_home_agent_platfo.Consent.{ConsentRecord}
use secure_home_agent_platfo.Acquisition
use secure_home_agent_platfo.Acquisition.{AuthorityBytes, acquired_bytes, answered, consume_all}
use secure_home_agent_platfo.Acquisition.Once.{count, logging, count-consume_all-new}

abbrev run_id : Str
run_id = text "r"

abbrev fence_at : ℕ → RunFence
fence_at n = record { run_id = run_id; generation = n }

locked_out_example :
    let l' = serve (fence_at 4 ∷ []) (refuse (fence_at 2) empty).0 in
    (detail : Str) × (refuse (fence_at 1) l' ≡ (l', some detail))
unfolding refuse Maps.get current_for
locked_out_example =
    locked_out (fence_at 2) (fence_at 1) (fence_at 4 ∷ []) empty refl refl (omega arith)

abbrev attempt : Attempt
attempt = record { run_id = run_id; attempt_id = text "a" }

abbrev leased : RunLease
leased = (claim attempt false Lease.empty).0

leased_ok : (claim attempt false Lease.empty).1 ≡ ok (some 1)
unfolding claim Maps.get
leased_ok = refl

leased-renew : renew run_id 1 leased ≡ true
unfolding renew claim Maps.get Maps.set text Str-discrete ℕ_discrete
leased-renew = ground arith

leased_low : 1 ≤ (abandon attempt leased).generation
unfolding abandon claim Maps.get Maps.set text Str-discrete ℕ_discrete
leased_low = ground arith

lost_renew : renew run_id 1 (abandon attempt leased) ≡ false
lost_renew = renew-abandon attempt false 1 Lease.empty leased_ok

nothing_run : (claim attempt false (run [] Lease.empty)).1 ≡ ok (some 1)
unfolding run claim Maps.get
nothing_run = refl

abbrev entry : TransitionEntry
entry = record {
  run_id = run_id;
  from = requested;
  to = profile_resolved;
  kind = resolve_profile;
  cause = text "done";
  at = text "now";
}

abbrev held_fact : Fact
held_fact =
    Journal.hold
      (record { state = requested; transition = text "t"; detail = text "d"; at = text "now" })

abbrev moved : Fact
moved = Journal.transition entry

run-no_journal-IsDerived_example : IsDerived (
    page_of run_id (
      Ledger.run
        (Ledger.appends (fence_at 1) (text "j1") moved
          ∷ Ledger.stages (fence_at 1) (text "c") (entry ∷ [])
          ∷ Ledger.abandons run_id (text "c")
          ∷ [])
        no_journal))
run-no_journal-IsDerived_example =
    run-no_journal-IsDerived
      (Ledger.appends (fence_at 1) (text "j1") moved
        ∷ Ledger.stages (fence_at 1) (text "c") (entry ∷ [])
        ∷ Ledger.abandons run_id (text "c")
        ∷ [])
      run_id

first_append : (append (fence_at 1) (text "j1") moved no_journal).1 ≡ Fence.ok
unfolding append page_of outcome refuse current_for Journal.classify Maps.get
first_append = refl

append-again_example :
    let j' = (append (fence_at 1) (text "j1") moved no_journal).0 in
    ((append (fence_at 1) (text "j1") held_fact j').1 ≡ again (text "j1") moved held_fact)
    × (page_of run_id (append (fence_at 1) (text "j1") held_fact j').0 ≡ page_of run_id j')
append-again_example = append-again (fence_at 1) (text "j1") moved held_fact no_journal first_append

abbrev machine : RunMachine
machine = record (new run_id transitions) { transitions = entry ∷ [] }

drain_machine-facts_example :
    let (m', o') = drain_machine machine (Outbox.new (text "r#g1")) in
    (pending_journal m' ≡ ([], []))
    × (facts o'
        ≡ facts (Outbox.new (text "r#g1"))
          ++ (map Journal.transition (pending_journal machine).0
              ++ map Journal.rejection (pending_journal machine).1))
drain_machine-facts_example = drain_machine-facts machine (Outbox.new (text "r#g1"))

abbrev reports : List (Str × GateOutcome)
reports =
    (text "lint", outcome_of fail false (some (text "no")))
    ∷ (text "lint", outcome_of pass false none)
    ∷ []

results-run_example :
    Maps.get (text "lint") (Dispositions.run reports (Dispositions.new (text "lint" ∷ []))).results
    ≡ (if Dispositions.has (text "lint") (text "lint" ∷ [])
        then first_of (text "lint") reports
        else none)
results-run_example = results-run (text "lint") (text "lint" ∷ []) reports

abbrev registry : Map ℕ
registry = (text "lint", 7) ∷ []

abbrev plan : List (PlannedGate ℕ)
plan = record { gate_id = text "lint"; spec = own 7 } ∷ []

lint_planned : build_plan registry (text "lint" ∷ []) ≡ planned plan
unfolding build_plan property Maps.get text Str-discrete ℕ_discrete
lint_planned = refl

abbrev consent : ConsentRecord
consent = record { run_id = run_id; granted = true; by = text "o"; recorded_at = text "now" }

-- A host that counts its reads and answers with the source's name.
abbrev read : Str → Journal.AcquisitionEpoch → Str → ℕ → ℕ × Acquisition.Reading
read r epoch source n = (suc n, answered (acquired_bytes source source))

count-consume_all-new_example :
    count
      (text "p")
      (consume_all
        (logging read)
        (text "p" ∷ text "p" ∷ text "q" ∷ [])
        (Acquisition.new run_id Journal.production (text "p" ∷ []))
        (0, [])).1.1
    ≡ (if Acquisition.has (text "p") (text "p" ∷ text "p" ∷ text "q" ∷ [])
        then (if Acquisition.has (text "p") (text "p" ∷ []) then 1 else 0)
        else 0)
count-consume_all-new_example =
    count-consume_all-new read run_id Journal.production (text "p" ∷ [])
      (text "p" ∷ text "p" ∷ text "q" ∷ []) (text "p") 0
