-- ===== src/Finalization/Termination.antt =====
-- adapters/finalization.ts: a commit that starts comes to its outcome.
use secure_home_agent_platfo.Prelude.{
  sym, ap, subst, ◌∙◌, ◌≡◌, refl, Bool, Option, none, some, List, [], ◌∷◌, Str, Str-discrete, arith,
  ℕ, ◌+◌, ◌≤◌, length, ite-cases,
}
use secure_home_agent_platfo.Prelude.Maps
use secure_home_agent_platfo.Prelude.Maps.{Map, get-set, get-set_self}
use secure_home_agent_platfo.Finalization.{
  FinalizationCommit, CommitOutcome, Finalization, StagedWrite, preparations, Participant, Staging,
  staged_under, refused, threw, Renewal, prepare_next, on_staging, on_renewal, gate, gate_on, mark,
  expiry, abandoned, Progress, preparing, confirming, returned, claimed, governed, attempt,
  ExpiryBound,
}
use secure_home_agent_platfo.Finalization.Entry.{commit, starts, commit-starts}
use secure_home_agent_platfo.Finalization.Interleaving.{
  System, enters, entered, run, stages, renews, operation, staged_on, moved, renewed_on, stage_step,
  renew_step, step,
}

-- The answers that a commit still awaits, at most.
abbrev pub awaited : Progress → ℕ
awaited (preparing p ps ws) = 2 + length ps
awaited (confirming ws) = 1
awaited (returned o ws) = 0

awaited-expiry :
    (ws : List StagedWrite) (b : Option ExpiryBound) (what : Str) → awaited (expiry ws b what) ≡ 0
unfolding expiry abandoned
awaited-expiry ws none what = refl
awaited-expiry ws (some governed) what = refl
awaited-expiry ws (some attempt) what = refl

awaited-prepare_next :
    (c : FinalizationCommit) (aborted : Bool) (now : ℕ) (ps : List Participant)
    (ws : List StagedWrite)
    → awaited (prepare_next c aborted now ps ws) ≤ 1 + length ps
unfolding prepare_next abandoned expiry
awaited-prepare_next c aborted now [] ws = ground arith
awaited-prepare_next c aborted now (p ∷ ps) ws = ground arith

awaited-on_staging :
    (c : FinalizationCommit) (a : Staging) (aborted : Bool) (now : ℕ) (p : Participant)
    (ps : List Participant) (ws : List StagedWrite)
    → awaited (on_staging c a aborted now p ps ws) ≤ 1 + length ps
unfolding on_staging abandoned
awaited-on_staging c (threw d) aborted now p ps ws = omega arith
awaited-on_staging c (refused why d) aborted now p ps ws = omega arith
awaited-on_staging c (staged_under id) aborted now p ps ws =
    ite-cases (Str-discrete id c.commit_id) (λ q. awaited q ≤ 1 + length ps) _ _
      (λ e. awaited-prepare_next c aborted now ps _) (λ n. omega arith)

awaited-mark :
    (c : FinalizationCommit) (now : ℕ) (ws : List StagedWrite) (s : Finalization)
    → awaited (mark c now ws s).1 ≡ 0
unfolding mark expiry abandoned
awaited-mark c now ws s = ground arith

awaited-on_renewal :
    (c : FinalizationCommit) (a : Renewal) (aborted : Bool) (now : ℕ) (ws : List StagedWrite)
    (s : Finalization)
    → awaited (on_renewal c a aborted now ws s).1 ≡ 0
unfolding on_renewal gate gate_on abandoned
awaited-on_renewal c a aborted now ws s =
    ground (arith, awaited-mark c now ws s, awaited-mark c now ws (claimed c s))

-- The commit under an identity awaits at most so many answers.
abbrev Awaits : ℕ → Str → System → Type 0
Awaits n id y =
    (c : FinalizationCommit) × (p : Progress) × ((Maps.get id y.operations ≡ some (operation c p))
      × (awaited p ≤ n))

Awaits-stages :
    (n : ℕ) (id : Str) (a : Staging) (aborted : Bool) (now : ℕ) (y : System)
    → Awaits (2 + n) id y
    → Awaits (1 + n) id (step (stages id a aborted now) y)
unfolding step stage_step staged_on
Awaits-stages n id a aborted now y (c, preparing p ps ws, (at, few)) = rw at (
  c,
  on_staging c a aborted now p ps ws,
  (get-set_self id _ y.operations, omega (arith, awaited-on_staging c a aborted now p ps ws)),
)
Awaits-stages n id a aborted now y (c, confirming ws, (at, few)) =
    rw at (c, confirming ws, (at, omega arith))
Awaits-stages n id a aborted now y (c, returned o ws, (at, few)) =
    rw at (c, returned o ws, (at, omega arith))

Awaits-renews :
    (id : Str) (a : Renewal) (aborted : Bool) (now : ℕ) (y : System)
    → Awaits 1 id y
    → Awaits 0 id (step (renews id a aborted now) y)
unfolding step renew_step renewed_on moved
Awaits-renews id a aborted now y (c, preparing p ps ws, (at, few)) = absurd (omega arith)
Awaits-renews id a aborted now y (c, confirming ws, (at, few)) = rw at (
  c,
  (on_renewal c a aborted now ws y.store).1,
  (get-set_self id _ y.operations, omega (arith, awaited-on_renewal c a aborted now ws y.store)),
)
Awaits-renews id a aborted now y (c, returned o ws, (at, few)) =
    rw at (c, returned o ws, (at, omega arith))

is_returned :
    (p : Progress)
    → awaited p ≤ 0
    → (o : CommitOutcome) × (ws : List StagedWrite) × (p ≡ returned o ws)
is_returned (preparing p ps ws) few = absurd (omega arith)
is_returned (confirming ws) few = absurd (omega arith)
is_returned (returned o ws) few = (o, ws, refl)

Awaits-entered :
    (c : FinalizationCommit) (p : Progress) (s : Finalization) (y : System)
    → awaited p ≤ 4
    → Awaits 4 c.commit_id (entered c (s, starts p) y)
unfolding entered
Awaits-entered c p s y few = (c, p, (get-set_self c.commit_id (operation c p) y.operations, few))

Awaits-enters :
    (c : FinalizationCommit) (aborted : Bool) (now : ℕ) (p : Progress) (y : System)
    → (commit c aborted now y.store).1 ≡ starts p
    → Awaits 4 c.commit_id (step (enters c aborted now) y)
unfolding step
Awaits-enters c aborted now p y e =
    subst (λ x. Awaits 4 c.commit_id (entered c ((commit c aborted now y.store).0, x) y)) (sym e)
      (Awaits-entered c p _ y (
        subst (λ q. awaited q ≤ 4) (sym (commit-starts c aborted now y.store p e))
          (awaited-prepare_next c aborted now preparations [])))

-- A commit that starts has its outcome after four answers, three of participants and one of the
-- lease, whatever they answer, whether or not the signal is raised, and whatever the clock says.
pub returned-run :
    (c : FinalizationCommit) (aborted : Bool) (now : ℕ) (p : Progress) (y : System)
    (a b d : Staging × (Bool × ℕ)) (l : Renewal × (Bool × ℕ))
    → (commit c aborted now y.store).1 ≡ starts p
    → let id = c.commit_id in
      let y' =
        run
          (enters c aborted now
            ∷ stages id a.0 a.1.0 a.1.1
            ∷ stages id b.0 b.1.0 b.1.1
            ∷ stages id d.0 d.1.0 d.1.1
            ∷ renews id l.0 l.1.0 l.1.1
            ∷ [])
          y in
      (c' : FinalizationCommit) × (o : CommitOutcome) × (ws : List StagedWrite) × (Maps.get id
          y'.operations
        ≡ some (operation c' (returned o ws)))
unfolding run
returned-run c aborted now p y a b d l e =
    let id = c.commit_id in
    let (c', q, (at, few)) = Awaits-renews id l.0 l.1.0 l.1.1 _ (
      Awaits-stages 0 id d.0 d.1.0 d.1.1 _ (
        Awaits-stages 1 id b.0 b.1.0 b.1.1 _
          (Awaits-stages 2 id a.0 a.1.0 a.1.1 _ (Awaits-enters c aborted now p y e)))) in
    let (o, ws, is) = is_returned q few in (c', o, ws, at ∙ ap (λ x. some (operation c' x)) is)
