-- ===== src/Examples/Commits.antt =====
-- services/runner-control/src/adapters/finalization.ts: the theorems at concrete inputs.
use secure_home_agent_platfo.Prelude.{
  ◌≡◌, refl, true, false, none, some, List, [], ◌∷◌, text, Str, Str-discrete, ℕ_discrete, decimal,
}
use secure_home_agent_platfo.Prelude.Maps
use secure_home_agent_platfo.RunState.Visibility.{is_published, publish}
use secure_home_agent_platfo.Finalization.{
  FinalizationCommit, CommitOutcome, ok, StagedWrite, canonical, holder, staged_under, owned,
  moved_on, threw, prepare_next, preparations, on_staging, on_renewal, gate, gate_on, mark,
  published, claimed, returned, expired_at, abandoned, refused,
}
use secure_home_agent_platfo.Finalization.Entry.{
  commit, enter_free, enter_on, start, started, claim_if_free, retire,
}
use secure_home_agent_platfo.Finalization.Interleaving.{
  Step, enters, stages, renews, retires, operation, idle, step, run, entered, staged_on, moved,
  renewed_on, retired_on, stage_step, renew_step, retire_step,
}
use secure_home_agent_platfo.Finalization.Refinement.{Register, Writes, Stands}
use secure_home_agent_platfo.Finalization.Refinement.Promises.{run-idle-Refines, finalized-run}
use secure_home_agent_platfo.Finalization.Termination.{returned-run}
use secure_home_agent_platfo.Finalization.Retry.{prompt, published-run}

abbrev request : Str → Str → FinalizationCommit
request id bundle = record {
  run_id = text "r";
  generation = 1;
  commit_id = id;
  terminal = text "c";
  transitions = text "t";
  event = text "e";
  bundle = bundle;
  expires_at_epoch_ms = some 9;
  expires_at_bound = none;
}

abbrev x : FinalizationCommit
x = request (text "x") (text "b")

abbrev y : FinalizationCommit
y = request (text "y") (text "b")

abbrev x' : FinalizationCommit
x' = request (text "x") (text "d")

-- One commit and another for the same generation, staged at once; the first is published.
abbrev contest : List Step
contest =
    enters x false 1
    ∷ enters y false 1
    ∷ stages (text "x") (staged_under (text "x")) false 1
    ∷ stages (text "y") (staged_under (text "y")) false 1
    ∷ stages (text "x") (staged_under (text "x")) false 1
    ∷ stages (text "x") (staged_under (text "x")) false 1
    ∷ renews (text "x") owned false 2
    ∷ []

run-idle-Refines_example : (r : Register) × Writes [] r × Stands (run contest idle) r
run-idle-Refines_example = run-idle-Refines contest

finalized-run_example :
    Maps.get
      (holder x)
      (run (retires (text "x") ∷ enters x' false 3 ∷ []) (run contest idle)).store.finalized
    ≡ some (text "x")
unfolding run step entered commit enter_free enter_on start started claim_if_free claimed canonical
    holder text Maps.get Maps.set is_published publish Str-discrete ℕ_discrete prepare_next
    on_staging on_renewal gate gate_on mark published stage_step renew_step staged_on renewed_on
    moved decimal expired_at
finalized-run_example =
    finalized-run contest (retires (text "x") ∷ enters x' false 3 ∷ []) (holder x) (text "x") refl

-- Once `x` is published, other calls come: the generation keeps the one terminal that it has.
abbrev latecomers : List Step
latecomers = enters x' false 3 ∷ retires (text "y") ∷ enters y false 4 ∷ []

returned-run_example :
    let s =
      run
        (enters x false 1
          ∷ stages (text "x") (staged_under (text "x")) false 2
          ∷ stages (text "x") (refused none (text "no")) true 3
          ∷ stages (text "x") (threw (text "z")) false 4
          ∷ renews (text "x") moved_on false 5
          ∷ [])
        idle in
    (c' : FinalizationCommit) × (o : CommitOutcome) × (ws : List StagedWrite) × (Maps.get
        (text "x")
        s.operations
      ≡ some (operation c' (returned o ws)))
unfolding commit enter_free enter_on start started claim_if_free claimed canonical holder text
    Maps.get Maps.set is_published Str-discrete ℕ_discrete prepare_next expired_at decimal
returned-run_example =
    returned-run x false 1 (prepare_next x false 1 preparations []) idle
      (staged_under (text "x"), (false, 2)) (refused none (text "no"), (true, 3))
      (threw (text "z"), (false, 4)) (moved_on, (false, 5)) refl

-- A commit for the generation that failed and retired.
abbrev failed : List Step
failed = enters y false 1 ∷ stages (text "y") (threw (text "z")) false 1 ∷ retires (text "y") ∷ []

published-run_example :
    let s' =
      step
        (renews (text "x") owned false 2)
        (run (prompt x 2 preparations) (step (enters x false 2) (run failed idle))) in
    (Maps.get (text "x") s'.operations ≡ some (operation x (returned ok [])))
    × (is_published (text "x") s'.store.visibility ≡ true)
    × (Maps.get (holder x) s'.store.finalized ≡ some (text "x"))
unfolding run step entered commit enter_free enter_on start started claim_if_free claimed canonical
    holder text Maps.get Maps.set Maps.delete is_published publish Str-discrete ℕ_discrete
    prepare_next on_staging abandoned retire retire_step retired_on stage_step staged_on decimal
    expired_at
published-run_example = published-run failed x 2 refl refl refl refl (λ id o h k. cc)
