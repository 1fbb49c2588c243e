-- ===== src/RunState/Journal/Reading.antt =====
-- run-state/in-memory.ts, `InMemoryRunJournal`: what a reader sees of staged transitions.
use secure_home_agent_platfo.Prelude.{
  ◌≡◌, refl, ap, ◌∙◌, false, none, some, List, [], ◌∷◌, ◌++◌, map, ite-cases, if_pos, if◌then◌else◌,
  Str, Str-discrete, arith,
}
use secure_home_agent_platfo.Lifecycle.Machine.{TransitionEntry}
use secure_home_agent_platfo.RunState.Fence.{RunFence, refuse}
use secure_home_agent_platfo.RunState.Visibility.{CommitLedger, is_visible}
use secure_home_agent_platfo.RunState.Journal.{
  StoredTransition, RunJournal, page_of, stage_transitions, stage_on, under, without_commit,
  abandon, Commit-discrete, visible,
}
use secure_home_agent_platfo.RunState.Journal.Ledger.{page_of-write_page}

visible-append :
    (v : CommitLedger) (rows more : List StoredTransition)
    → visible v (rows ++ more) ≡ visible v rows ++ visible v more
unfolding visible
visible-append v [] more = refl
visible-append v (row ∷ rows) more = ground (arith, visible-append v rows more)

visible-under :
    (v : CommitLedger) (c : Str) (es : List TransitionEntry)
    → visible v (map (under c) es) ≡ (if is_visible v (some c) then es else [])
unfolding visible under
visible-under v c [] = ground arith
visible-under v c (e ∷ es) = ground (arith, visible-under v c es)

-- A served staging adds its transitions at the end of what a reader of the run sees once the commit
-- that they were staged under is published, and nothing before.
pub visible-stage_transitions :
    (f : RunFence) (c : Str) (es : List TransitionEntry) (j : RunJournal) (v : CommitLedger)
    → (refuse f j.fence).1 ≡ none
    → visible v (page_of f.run_id (stage_transitions f c es j).0).transitions
      ≡ visible v (page_of f.run_id j).transitions ++ (if is_visible v (some c) then es else [])
unfolding stage_transitions stage_on
visible-stage_transitions f c es j v h =
    let page = page_of f.run_id j in
    let rows = page.transitions ++ map (under c) es in
    let j' = record j { fence = (refuse f j.fence).0 } in
    rw h (
      ap (λ q. visible v q.transitions)
        (page_of-write_page f.run_id f.run_id (record page { transitions = rows }) j'
          ∙ if_pos (Str-discrete f.run_id f.run_id) refl _ _)
      ∙ (visible-append v page.transitions (map (under c) es)
          ∙ ap (λ q. visible v page.transitions ++ q) (visible-under v c es)))

visible-without_commit :
    (v : CommitLedger) (c : Str) (rows : List StoredTransition)
    → is_visible v (some c) ≡ false
    → visible v (without_commit c rows) ≡ visible v rows
unfolding visible without_commit
visible-without_commit v c [] h = refl
visible-without_commit v c (row ∷ rows) h =
    let rest = without_commit c rows in
    let same = visible-without_commit v c rows h in
    ite-cases (Commit-discrete row.commit_id (some c))
      (λ q.
        visible v q
        ≡ (if is_visible v row.commit_id then row.entry ∷ visible v rows else visible v rows))
      rest (row ∷ rest) (λ e. rw (e, h) same)
      (λ n. ap (λ q. if is_visible v row.commit_id then row.entry ∷ q else q) same)

-- Abandoning a staging whose commit was not published changes nothing that a reader of the run sees.
pub visible-abandon :
    (r c : Str) (j : RunJournal) (v : CommitLedger)
    → is_visible v (some c) ≡ false
    → visible v (page_of r (abandon r c j)).transitions ≡ visible v (page_of r j).transitions
unfolding abandon
visible-abandon r c j v h =
    let page = page_of r j in
    ap (λ q. visible v q.transitions)
      (page_of-write_page r r (record page { transitions = without_commit c page.transitions }) j
        ∙ if_pos (Str-discrete r r) refl _ _)
    ∙ visible-without_commit v c page.transitions h
