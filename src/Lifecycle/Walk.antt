-- ===== src/Lifecycle/Walk.antt =====
-- lifecycle/walk.ts: the engine that runs phases, each allowed only by the transition that the phase
-- before it earned. A phase and a hook act on the machine and on a world that stands for every port;
-- the world also says what the clock answers.
use mathlib.Core.Path.{fun_ext}
use mathlib.Core.List.{map-append}
use secure_home_agent_platfo.Prelude.{
  Option, none, some, List, [], ◌∷◌, ◌++◌, ◌≡◌, refl, Str, All, map, ap, ◌∙◌, sym, Option-cases,
  inl, inr, append_assoc, append-nil,
}
use secure_home_agent_platfo.Lifecycle.Transitions.{TransitionKind}
use secure_home_agent_platfo.Lifecycle.Machine.{
  RunMachine, TransitionEntry, RejectionEntry, TransitionResult, advanced, rejected, hold, advance,
}
use secure_home_agent_platfo.Lifecycle.Machine.Totality.{Advanced, advance-permits}

pub data PhaseCommand (T : Type 0) : Type 0 where
  earned : Str → PhaseCommand T
  terminate : T → PhaseCommand T
  held : Str → PhaseCommand T

-- How a walk can stop before its end.
pub data Stop (T : Type 0) : Type 0 where
  terminated : T → Stop T
  holding : Str → Stop T
  halted : Str → RejectionEntry → Stop T
  lost : Str → Str → Stop T

pub data WalkOutcome (T : Type 0) : Type 0 where
  walked : WalkOutcome T
  stopped : Stop T → WalkOutcome T

abbrev pub Run : Type 0 → Type 0
Run W = RunMachine × W

pub record Phase (W T : Type 0) : Type 0 where
  pub name : Str
  pub earns : TransitionKind
  pub effects : Run W → PhaseCommand T × Run W

-- A hook that the caller does not give is one that does nothing.
pub record WalkHooks (W : Type 0) : Type 0 where
  pub before_phase : Str → Run W → Option Str × Run W
  pub after_record : Run W → Run W
  pub now : W → Str

abbrev pub kinds : {W : Type 0} → Run W → List TransitionKind
kinds s = map (λ (e : TransitionEntry). e.kind) s.0.transitions

kinds-advance :
    {W : Type 0} (k : TransitionKind) (cause at : Str) (m : RunMachine) (w : W)
    → Advanced m (advance k cause at m).0 (advance k cause at m).1 k
    → kinds ((advance k cause at m).0, w) ≡ kinds (m, w) ++ k ∷ []
kinds-advance k cause at m w a =
    rw a.after
      (map-append _ m.transitions (a.entry ∷ []) ∙ ap (λ l. kinds (m, w) ++ l ∷ []) a.names_kind)

module _ {W T : Type 0} (hooks : WalkHooks W) where
  open hooks use {before_phase, after_record, now}

  -- What the engine does with a phase's command; `none` lets the walk go on.
  conclude : Phase W T → TransitionResult → Option (Stop T)
  conclude phase (advanced s e) = none
  conclude phase (rejected s e) = some (halted phase.name e)

  obey : Phase W T → PhaseCommand T → Run W → Option (Stop T) × Run W
  obey phase (terminate value) s = (some (terminated value), s)
  obey phase (held detail) (m, w) =
      (some (holding detail), after_record ((hold phase.earns detail (now w) m).0, w))
  obey phase (earned cause) (m, w) =
      let (m', applied) = advance phase.earns cause (now w) m in
      (conclude phase applied, after_record (m', w))

  -- One turn of the loop.
  run_phase : Phase W T → Run W → Option (Stop T) × Run W
  unfolding obey conclude
  run_phase phase s =
      let (reason, s') = before_phase phase.name s in
      elim reason [
        | some why ↦ (some (lost phase.name why), s')
        | none ↦ let (command, s'') = phase.effects s' in obey phase command s''
      ]

  abbrev pub continue :
      Option (Stop T) × Run W → (Run W → WalkOutcome T × Run W) → WalkOutcome T × Run W
  continue (some stop, s) rest = (stopped stop, s)
  continue (none, s) rest = rest s

  unfoldable pub walk : List (Phase W T) → Run W → WalkOutcome T × Run W
  unfolding run_phase
  walk [] s = (walked, s)
  walk (p ∷ ps) s = continue (run_phase p s) (walk ps)

  abbrev pub proceed :
      WalkOutcome T × Run W → (Run W → WalkOutcome T × Run W) → WalkOutcome T × Run W
  proceed (walked, s) rest = rest s
  proceed (stopped stop, s) rest = (stopped stop, s)

  proceed-continue :
      (r : Option (Stop T) × Run W) (f g : Run W → WalkOutcome T × Run W)
      → proceed (continue r f) g ≡ continue r (λ s. proceed (f s) g)
  proceed-continue (none, s) f g = refl
  proceed-continue (some stop, s) f g = refl

  -- The phases behind a list of phases run from where these leave the run if each of these earned
  -- its transition and was granted it, and otherwise perform no effect at all: the walk is over,
  -- with the outcome and the state that the earlier phases ended in.
  pub walk-append :
      (ps qs : List (Phase W T)) (s : Run W) → walk (ps ++ qs) s ≡ proceed (walk ps s) (walk qs)
  unfolding walk
  walk-append [] qs s = refl
  walk-append (p ∷ ps) qs s =
      rw (fun_ext (walk-append ps qs)) (sym (proceed-continue (run_phase p s) (walk ps) (walk qs)))

  kinds-continue :
      (r : Option (Stop T) × Run W) (rest : Run W → WalkOutcome T × Run W)
      (ks : List TransitionKind)
      → (r.0 ≡ none → (rest r.1).0 ≡ walked → kinds (rest r.1).1 ≡ ks)
      → (continue r rest).0 ≡ walked
      → kinds (continue r rest).1 ≡ ks
  kinds-continue (none, s) rest ks f h = f refl h
  kinds-continue (some stop, s) rest ks f h = cc

  -- A phase that reports that it earned its transition has taken none itself.
  abbrev IsQuiet : Phase W T → Type 0
  IsQuiet p =
      (s : Run W) (cause : Str)
      → (p.effects s).0 ≡ earned cause
      → (p.effects s).1.0.transitions ≡ s.0.transitions

  module _
      (before_quiet : (name : Str) (s : Run W)
        → (before_phase name s).1.0.transitions ≡ s.0.transitions)
      (after_quiet : (s : Run W) → (after_record s).0.transitions ≡ s.0.transitions) where
    obey-kinds :
        (p : Phase W T) (c : PhaseCommand T) (s : Run W)
        → (obey p c s).0 ≡ none
        → (kinds (obey p c s).1 ≡ kinds s ++ p.earns ∷ []) × ((cause : Str) × (c ≡ earned cause))
    unfolding obey conclude
    obey-kinds p (terminate v) s h = cc
    obey-kinds p (held d) s h = cc
    obey-kinds p (earned cause) (m, w) h = elim (advance-permits p.earns cause (now w) m) [
      | inl (_, a) ↦ (
        ap (map (λ (e : TransitionEntry). e.kind)) (after_quiet _)
            ∙ kinds-advance p.earns cause (now w) m w a,
        (cause, refl),
      )
      | inr (_, r) ↦ let h' = rw r.result at h in cc
    ]

    run_phase-kinds :
        (p : Phase W T) (s : Run W)
        → IsQuiet p
        → (run_phase p s).0 ≡ none
        → kinds (run_phase p s).1 ≡ kinds s ++ p.earns ∷ []
    unfolding run_phase
    run_phase-kinds p s quiet h = elim (Option-cases (before_phase p.name s).0) [
      | inr (why, e) ↦ let h' = rw (e, run_phase) at h in cc
      | inl e ↦
          let s' = (before_phase p.name s).1 in
          let o = obey-kinds p (p.effects s').0 (p.effects s').1 (rw (e, run_phase) at h) in
          rw (e, run_phase)
            (o.0
              ∙ ap (λ l. map (λ (x : TransitionEntry). x.kind) l ++ p.earns ∷ [])
                  (quiet s' o.1.0 o.1.1 ∙ before_quiet p.name s))
    ]

    -- Where the hooks take no transition, and a phase that reports to have earned its own has taken none
    -- itself, a walk that reached its end has recorded the transitions of its phases, all and in order.
    pub kinds-walk :
        (ps : List (Phase W T)) (s : Run W)
        → All IsQuiet ps
        → (walk ps s).0 ≡ walked
        → kinds (walk ps s).1 ≡ kinds s ++ map (λ (p : Phase W T). p.earns) ps
    unfolding walk
    kinds-walk [] s quiet h = sym (append-nil (kinds s))
    kinds-walk (p ∷ ps) s quiet h =
        kinds-continue (run_phase p s) (walk ps) _
          (λ e ended.
            kinds-walk ps (run_phase p s).1 quiet.1 ended
            ∙ ap (λ l. l ++ map (λ (q : Phase W T). q.earns) ps) (run_phase-kinds p s quiet.0 e)
            ∙ append_assoc (kinds s) (p.earns ∷ []) _)
          h
