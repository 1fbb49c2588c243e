-- ===== src/Finalization/Retry.antt =====
-- adapters/finalization.ts: a commit that meets no obstacle is published, whatever went before.
use secure_home_agent_platfo.Prelude.{
  ◌≡◌, refl, ap, ◌∙◌, ◌≢◌, true, false, Option, none, some, List, [], ◌∷◌, ◌++◌, Str, Str-discrete,
  arith, ℕ, if_pos, Option-cases, inl, inr,
}
use secure_home_agent_platfo.Prelude.Maps
use secure_home_agent_platfo.Prelude.Maps.{Map, get-set, get-set_self}
use secure_home_agent_platfo.RunState.Visibility.{is_published, is_published-publish}
use secure_home_agent_platfo.Finalization.{
  FinalizationCommit, ok, holder, Finalization, StagedWrite, Participant, preparations,
  staged_under, owned, is_expired, prepare_next, on_staging, on_renewal, gate, gate_on, mark,
  Progress, preparing, confirming, returned, published, claimed,
}
use secure_home_agent_platfo.Finalization.Entry.{
  commit, enter_on, enter_free, started, start, claim_if_free, starts,
}
use secure_home_agent_platfo.Finalization.Interleaving.{
  Operation, System, Step, enters, stages, renews, idle, operation, entered, staged_on, moved,
  renewed_on, stage_step, renew_step, step, run,
}
use secure_home_agent_platfo.Finalization.Refinement.{
  Register, Stands, holder_in_flight, intent_in_flight,
}
use secure_home_agent_platfo.Finalization.Refinement.Promises.{run-idle-Refines}

-- Each participant stages under the commit, before the signal is raised.
unfoldable pub prompt : FinalizationCommit → ℕ → List Participant → List Step
prompt c now [] = []
prompt c now (p ∷ ps) = stages c.commit_id (staged_under c.commit_id) false now ∷ prompt c now ps

-- A system in which the commit stands at a point, over a store.
abbrev At : FinalizationCommit → Progress → Finalization → System → Type 0
At c p s y = (y.store ≡ s) × (Maps.get c.commit_id y.operations ≡ some (operation c p))

At-stages :
    (c : FinalizationCommit) (now : ℕ) (p : Participant) (ps : List Participant)
    (ws : List StagedWrite) (s : Finalization) (y : System)
    → At c (preparing p ps ws) s y
    → At c
        (prepare_next c false now ps
          (ws ++ (record { participant = p; commit_id = c.commit_id }) ∷ []))
        s
        (step (stages c.commit_id (staged_under c.commit_id) false now) y)
unfolding step stage_step staged_on on_staging
At-stages c now p ps ws s y (e, at) = rw at (
  e,
  get-set_self c.commit_id _ y.operations
      ∙ ap (λ q. some (operation c q)) (if_pos (Str-discrete c.commit_id c.commit_id) refl _ _),
)

prepare_next_in_time :
    (c : FinalizationCommit) (now : ℕ) (p : Participant) (ps : List Participant)
    (ws : List StagedWrite)
    → is_expired c now ≡ false
    → prepare_next c false now (p ∷ ps) ws ≡ preparing p ps ws
unfolding prepare_next
prepare_next_in_time c now p ps ws e = rw e refl

At-prompt :
    (c : FinalizationCommit) (now : ℕ) (ps : List Participant) (ws : List StagedWrite)
    (s : Finalization) (y : System)
    → is_expired c now ≡ false
    → At c (prepare_next c false now ps ws) s y
    → (ws' : List StagedWrite) × At c (confirming ws') s (run (prompt c now ps) y)
unfolding run prompt prepare_next
At-prompt c now [] ws s y e at = (ws, at)
At-prompt c now (p ∷ ps) ws s y e at = At-prompt c now ps _ s _ e (
    At-stages c now p ps ws s y
      (at.0, at.1 ∙ ap (λ q. some (operation c q)) (prepare_next_in_time c now p ps ws e)))

mark_in_time :
    (c : FinalizationCommit) (now : ℕ) (ws : List StagedWrite) (s : Finalization)
    → is_expired c now ≡ false
    → mark c now ws s ≡ (published c s, returned ok [])
unfolding mark
mark_in_time c now ws s e = rw e refl

on_renewal_of_owner :
    (c : FinalizationCommit) (now : ℕ) (ws : List StagedWrite) (s : Finalization)
    → is_expired c now ≡ false
    → Maps.get (holder c) s.finalized ≡ none
    → Maps.get (holder c) s.in_flight_by_generation ≡ some c.commit_id
    → on_renewal c owned false now ws s ≡ (published c s, returned ok [])
unfolding on_renewal gate gate_on
on_renewal_of_owner c now ws s e free own =
    rw (free, own)
      (if_pos (Str-discrete c.commit_id c.commit_id) refl _ _ ∙ mark_in_time c now ws s e)

At-renews :
    (c : FinalizationCommit) (now : ℕ) (ws : List StagedWrite) (s : Finalization) (y : System)
    → on_renewal c owned false now ws s ≡ (published c s, returned ok [])
    → At c (confirming ws) s y
    → At c (returned ok []) (published c s) (step (renews c.commit_id owned false now) y)
unfolding step renew_step renewed_on moved
At-renews c now ws s y e (same, at) =
    rw (at, same, e) (refl, get-set_self c.commit_id (operation c (returned ok [])) y.operations)

is_published-published :
    (c : FinalizationCommit) (s : Finalization)
    → is_published c.commit_id (published c s).visibility ≡ true
unfolding published
is_published-published c s =
    is_published-publish c.commit_id c.commit_id s.visibility
    ∙ if_pos (Str-discrete c.commit_id c.commit_id) refl _ _

finalized-published :
    (c : FinalizationCommit) (s : Finalization)
    → Maps.get (holder c) (published c s).finalized ≡ some c.commit_id
unfolding published
finalized-published c s = get-set_self (holder c) c.commit_id s.finalized

commit_of_free :
    (c : FinalizationCommit) (now : ℕ) (s : Finalization)
    → is_published c.commit_id s.visibility ≡ false
    → Maps.get (holder c) s.finalized ≡ none
    → Maps.get c.commit_id s.in_flight_by_commit ≡ none
    → commit c false now s ≡ (started c s, starts (prepare_next c false now preparations []))
unfolding commit enter_free enter_on start
commit_of_free c now s hidden free fresh = rw (hidden, free, fresh) refl

finalized-started :
    (c : FinalizationCommit) (s : Finalization) → (started c s).finalized ≡ s.finalized
unfolding started claim_if_free claimed
finalized-started c s = ground arith

owner-started :
    (c : FinalizationCommit) (s : Finalization)
    → Maps.get (holder c) s.in_flight_by_generation ≡ none
    → Maps.get (holder c) (started c s).in_flight_by_generation ≡ some c.commit_id
unfolding started claim_if_free claimed
owner-started c s e = rw e (get-set_self (holder c) c.commit_id s.in_flight_by_generation)

-- No commit in flight is for the generation.
abbrev pub IsFree : Str → System → Type 0
IsFree h y = (id : Str) (o : Operation) → Maps.get id y.operations ≡ some o → holder o.request ≢ h

holder-in_flight :
    (o : Option Operation) (h : Str)
    → holder_in_flight o ≡ some h
    → (x : Operation) × ((o ≡ some x) × (holder x.request ≡ h))
holder-in_flight none h e = absurd (ground arith)
holder-in_flight (some x) h e = (x, (refl, ground arith))

unclaimed :
    (y : System) (r : Register) (h : Str)
    → Stands y r
    → IsFree h y
    → Maps.get h y.store.in_flight_by_generation ≡ none
unclaimed y r h v alone = elim (Option-cases (Maps.get h y.store.in_flight_by_generation)) [
  | inl e ↦ e
  | inr (id, e) ↦
      let (x, (at, same)) = holder-in_flight _ h (v.owned h id e) in absurd (alone id x at same)
]

-- Whatever commits came before, failed or published, a commit under an identity that is neither
-- published nor in flight, for a generation that published nothing and has no commit in flight, is
-- published and answered `ok` when each participant stages under it, the lease still holds, the signal
-- is not raised and its time is not up.
pub published-run :
    (es : List Step) (c : FinalizationCommit) (now : ℕ)
    → let y = run es idle in
      is_expired c now ≡ false
      → is_published c.commit_id y.store.visibility ≡ false
      → Maps.get (holder c) y.store.finalized ≡ none
      → Maps.get c.commit_id y.operations ≡ none
      → IsFree (holder c) y
      → let y' =
          step
            (renews c.commit_id owned false now)
            (run (prompt c now preparations) (step (enters c false now) y)) in
        (Maps.get c.commit_id y'.operations ≡ some (operation c (returned ok [])))
        × (is_published c.commit_id y'.store.visibility ≡ true)
        × (Maps.get (holder c) y'.store.finalized ≡ some c.commit_id)
unfolding step entered
published-run es c now e hidden free fresh alone =
    let y = run es idle in
    let s = y.store in
    let (r, w, v) = run-idle-Refines es in
    let unbound : Maps.get c.commit_id s.in_flight_by_commit ≡ none =
      v.bound c.commit_id ∙ ap intent_in_flight fresh in
    let entry = commit_of_free c now s hidden free unbound in
    let at : At c (prepare_next c false now preparations []) (started c s)
        (step (enters c false now) y) =
      rw entry (refl, get-set_self c.commit_id (operation c _) y.operations) in
    let (ws, staged) = At-prompt c now preparations [] (started c s) _ e at in
    let same =
      on_renewal_of_owner c now ws (started c s) e
        (ap (Maps.get (holder c)) (finalized-started c s) ∙ free)
        (owner-started c s (unclaimed y r (holder c) v alone)) in
    let (store, told) = At-renews c now ws (started c s) _ same staged in
    (
      told,
      rw store (is_published-published c (started c s)),
      rw store (finalized-published c (started c s)),
    )
