-- ===== src/Finalization/Refinement/Promises.antt =====
-- adapters/finalization.ts: what callers may rely on, whatever commits run at once.
use secure_home_agent_platfo.Prelude.{
  ◌≡◌, refl, sym, ap, ◌∙◌, ◌≢◌, Bool, true, some, List, [], ◌∷◌, Str, Str-discrete, arith, ℕ,
  if_pos, if_neg,
}
use secure_home_agent_platfo.Prelude.Maps
use secure_home_agent_platfo.RunState.Visibility.{is_published}
use secure_home_agent_platfo.Finalization.{
  FinalizationCommit, ok, not_ok, already_committed, canonical, Finalization,
}
use secure_home_agent_platfo.Finalization.Entry.{answered, commit, reconcile, refusal}
use secure_home_agent_platfo.Finalization.Interleaving.{System, Step, idle, step, run}
use secure_home_agent_platfo.Finalization.Refinement.{
  Register, Writes, done, writes, commit_of, intent_of, is_some, Stands,
}
use secure_home_agent_platfo.Finalization.Refinement.Steps.{Refines, step-Refines}

Writes-trans : (r s t : Register) → Writes r s → Writes s t → Writes r t
Writes-trans r s t done w = w
Writes-trans r s t (writes p h k v) w = writes p h k (Writes-trans (p ∷ r) s t v w)

run-Refines : (es : List Step) (y : System) (r : Register) → Stands y r → Refines (run es y) r
unfolding run
run-Refines [] y r v = (r, done, v)
run-Refines (e ∷ es) y r v =
    let (s, w, v') = step-Refines e y r v in
    let (t, w', v'') = run-Refines es (step e y) s v' in (t, Writes-trans r s t w w', v'')

idle-Stands : Stands idle []
unfolding Maps.get commit_of intent_of is_published
idle-Stands = record {
  finalized = λ h. refl;
  intents = λ id. refl;
  marked = λ id. refl;
  named = λ id o h. cc;
  bound = λ id. refl;
  owned = λ h id k. cc;
  unpublished = λ id o h k. refl;
  told = λ id o h k. cc;
  final = λ id o h k. cc;
}

-- However commits enter and are interleaved, and whatever the participants, the lease, the signals
-- and the clock answer, the adapter stands for a register that was written from empty by publications
-- whose generation and whose identity it did not hold yet.
pub run-idle-Refines : (es : List Step) → (r : Register) × Writes [] r × Stands (run es idle) r
run-idle-Refines es = run-Refines es idle [] idle-Stands

commit_of-Writes :
    (h id : Str) (r s : Register) → Writes r s → commit_of h r ≡ some id → commit_of h s ≡ some id
unfolding commit_of
commit_of-Writes h id r s done e = e
commit_of-Writes h id r s (writes p k l w) e = commit_of-Writes h id (p ∷ r) s w (ground arith)

-- A generation's published commit stays its published commit: after any steps, and any further
-- steps, the generation has the same commit on record.
pub finalized-run :
    (es fs : List Step) (h id : Str)
    → Maps.get h (run es idle).store.finalized ≡ some id
    → Maps.get h (run fs (run es idle)).store.finalized ≡ some id
finalized-run es fs h id e =
    let (r, w, v) = run-idle-Refines es in
    let (s, w', v') = run-Refines fs (run es idle) r v in
    v'.finalized h ∙ commit_of-Writes h id r s w' (sym (v.finalized h) ∙ e)

reconcile_of_other :
    (c : FinalizationCommit) (i : Str)
    → i ≢ canonical c
    → (d : Str) × (reconcile c (some i) ≡ not_ok (some already_committed) d)
unfolding reconcile refusal
reconcile_of_other c i n = (_, if_neg (Str-discrete i (canonical c)) n _ _)

reconcile_of_same : (c : FinalizationCommit) (i : Str) → i ≡ canonical c → reconcile c (some i) ≡ ok
unfolding reconcile
reconcile_of_same c i m = if_pos (Str-discrete i (canonical c)) m _ _

commit_of_published :
    (c : FinalizationCommit) (aborted : Bool) (now : ℕ) (s : Finalization) (i : Str)
    → is_published c.commit_id s.visibility ≡ true
    → Maps.get c.commit_id s.intents ≡ some i
    → commit c aborted now s ≡ (s, answered (reconcile c (some i)))
unfolding commit
commit_of_published c aborted now s i shown e = rw (shown, e) refl

-- After any steps, a call of `commit` under an identity that is on record changes nothing, and is
-- answered by the intent on record: `ok` when it is the call's own, and otherwise a refusal as
-- already committed.
pub commit-again :
    (es : List Step) (c : FinalizationCommit) (aborted : Bool) (now : ℕ) (i : Str)
    → let s = (run es idle).store in
      Maps.get c.commit_id s.intents ≡ some i
      → (i ≡ canonical c → commit c aborted now s ≡ (s, answered ok))
        × (i ≢ canonical c
            → (d : Str) × (commit c aborted now s
                ≡ (s, answered (not_ok (some already_committed) d))))
commit-again es c aborted now i e =
    let (r, w, v) = run-idle-Refines es in
    let s = (run es idle).store in
    let shown : is_published c.commit_id s.visibility ≡ true =
      v.marked c.commit_id ∙ ap is_some (sym (v.intents c.commit_id) ∙ e) in
    let told = commit_of_published c aborted now s i shown e in
    (
      λ m. told ∙ ap (λ o. (s, answered o)) (reconcile_of_same c i m),
      λ n. let (d, k) = reconcile_of_other c i n in (d, told ∙ ap (λ o. (s, answered o)) k),
    )
