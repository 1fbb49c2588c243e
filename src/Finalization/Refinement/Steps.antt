-- ===== src/Finalization/Refinement/Steps.antt =====
-- adapters/finalization.ts: every step of the adapter is a step of the register, or leaves it.
use secure_home_agent_platfo.Prelude.{
  ◌≡◌, refl, sym, ap, subst, ◌∙◌, Bool, true, false, Option, none, some, List, [], ◌∷◌, Str,
  Str-discrete, arith, ℕ, Bool-cases, Option-cases, ite-cases, inl, inr,
}
use secure_home_agent_platfo.Prelude.Maps
use secure_home_agent_platfo.RunState.Visibility.{is_published}
use secure_home_agent_platfo.Finalization.{
  FinalizationCommit, canonical, holder, StagedWrite, ExpiryBound, governed, attempt, Participant,
  Staging, staged_under, refused, threw, Renewal, owned, moved_on, renewal_threw, on_staging, mark,
  gate_on, gate, on_renewal, is_expired, expiry, abandoned, Progress, preparing, confirming,
  returned, claimed,
}
use secure_home_agent_platfo.Finalization.Entry.{commit, enter_on, enter_free, start}
use secure_home_agent_platfo.Finalization.Interleaving.{
  Operation, System, Step, enters, stages, renews, retires, operation, entered, staged_on, moved,
  renewed_on, retired_on, stage_step, renew_step, retire_step, step,
}
use secure_home_agent_platfo.Finalization.Refinement.{
  Register, Writes, done, writes, publication, commit_of, intent_of, is_some, is_ok,
  intent_in_flight, Stands,
}
use secure_home_agent_platfo.Finalization.Refinement.Invariant.{
  with_store, put-Stands, claimed-Stands, published-Stands, retire-Stands, start-Stands,
  not_ok-prepare_next,
}

-- The state stands for a register that the earlier one grows to.
abbrev pub Refines : System → Register → Type 0
Refines y r = (r' : Register) × Writes r r' × Stands y r'

stays : (y : System) (r : Register) → Stands y r → Refines y r
stays y r v = (r, done, v)

not_ok-expiry :
    (ws : List StagedWrite) (b : Option ExpiryBound) (what : Str) → is_ok (expiry ws b what) ≡ false
unfolding expiry abandoned
not_ok-expiry ws none what = refl
not_ok-expiry ws (some governed) what = refl
not_ok-expiry ws (some attempt) what = refl

mark-Refines :
    (c : FinalizationCommit) (p : Progress) (now : ℕ) (ws : List StagedWrite) (y : System)
    (r : Register)
    → Maps.get c.commit_id y.operations ≡ some (operation c p)
    → is_ok p ≡ false
    → commit_of (holder c) r ≡ none
    → Stands y r
    → Refines (moved c c.commit_id (mark c now ws y.store) y) r
unfolding mark moved
mark-Refines c p now ws y r at early free v = elim (Bool-cases (is_expired c now)) [
  | inl e ↦ rw e (stays _ r (put-Stands c p _ y r at early (not_ok-expiry ws _ _) v))
  | inr e ↦ rw e (
    publication c ∷ r,
    writes (publication c) free (v.unpublished c.commit_id (operation c p) at early) done,
    published-Stands c p [] y r at early free v,
  )
]

gate_on-Refines :
    (c : FinalizationCommit) (p : Progress) (now : ℕ) (ws : List StagedWrite) (o : Option Str)
    (y : System) (r : Register)
    → Maps.get c.commit_id y.operations ≡ some (operation c p)
    → is_ok p ≡ false
    → commit_of (holder c) r ≡ none
    → Stands y r
    → Refines (moved c c.commit_id (gate_on c now ws o y.store) y) r
unfolding gate_on abandoned moved
gate_on-Refines c p now ws none y r at early free v =
    mark-Refines c p now ws (with_store (claimed c y.store) y) r at early free
      (claimed-Stands c p y r at v)
gate_on-Refines c p now ws (some owner) y r at early free v =
    ite-cases (Str-discrete owner c.commit_id) (λ q. Refines (moved c c.commit_id q y) r) _ _
      (λ e. mark-Refines c p now ws y r at early free v)
      (λ n. stays _ r (put-Stands c p _ y r at early refl v))

gate-Refines :
    (c : FinalizationCommit) (p : Progress) (now : ℕ) (ws : List StagedWrite) (o : Option Str)
    (y : System) (r : Register)
    → Maps.get c.commit_id y.operations ≡ some (operation c p)
    → is_ok p ≡ false
    → o ≡ commit_of (holder c) r
    → Stands y r
    → Refines (moved c c.commit_id (gate c now ws o y.store) y) r
unfolding gate abandoned moved
gate-Refines c p now ws none y r at early e v =
    gate_on-Refines c p now ws (Maps.get (holder c) y.store.in_flight_by_generation) y r at early
      (sym e) v
gate-Refines c p now ws (some id) y r at early e v =
    stays _ r (put-Stands c p _ y r at early refl v)

renewal-Refines :
    (c : FinalizationCommit) (p : Progress) (a : Renewal) (aborted : Bool) (now : ℕ)
    (ws : List StagedWrite) (y : System) (r : Register)
    → Maps.get c.commit_id y.operations ≡ some (operation c p)
    → is_ok p ≡ false
    → Stands y r
    → Refines (moved c c.commit_id (on_renewal c a aborted now ws y.store) y) r
unfolding on_renewal abandoned moved
renewal-Refines c p (renewal_threw d) aborted now ws y r at early v =
    stays _ r (put-Stands c p _ y r at early refl v)
renewal-Refines c p moved_on aborted now ws y r at early v =
    stays _ r (put-Stands c p _ y r at early refl v)
renewal-Refines c p owned true now ws y r at early v =
    stays _ r (put-Stands c p _ y r at early refl v)
renewal-Refines c p owned false now ws y r at early v =
    gate-Refines c p now ws (Maps.get (holder c) y.store.finalized) y r at early
      (v.finalized (holder c)) v

not_ok-on_staging :
    (c : FinalizationCommit) (a : Staging) (aborted : Bool) (now : ℕ) (p : Participant)
    (ps : List Participant) (ws : List StagedWrite)
    → is_ok (on_staging c a aborted now p ps ws) ≡ false
unfolding on_staging abandoned
not_ok-on_staging c (threw d) aborted now p ps ws = refl
not_ok-on_staging c (refused why d) aborted now p ps ws = refl
not_ok-on_staging c (staged_under id) aborted now p ps ws =
    ite-cases (Str-discrete id c.commit_id) (λ q. is_ok q ≡ false) _ _
      (λ e. not_ok-prepare_next c aborted now ps _) (λ n. refl)

-- Each step of an operation, at its own identity.
staged_on-Refines :
    (c : FinalizationCommit) (a : Staging) (aborted : Bool) (now : ℕ) (p : Progress) (y : System)
    (r : Register)
    → Maps.get c.commit_id y.operations ≡ some (operation c p)
    → Stands y r
    → Refines (staged_on c a aborted now c.commit_id p y) r
unfolding staged_on
staged_on-Refines c a aborted now (preparing p ps ws) y r at v =
    stays _ r
      (put-Stands c (preparing p ps ws) _ y r at refl (not_ok-on_staging c a aborted now p ps ws) v)
staged_on-Refines c a aborted now (confirming ws) y r at v = stays y r v
staged_on-Refines c a aborted now (returned o ws) y r at v = stays y r v

renewed_on-Refines :
    (c : FinalizationCommit) (a : Renewal) (aborted : Bool) (now : ℕ) (p : Progress) (y : System)
    (r : Register)
    → Maps.get c.commit_id y.operations ≡ some (operation c p)
    → Stands y r
    → Refines (renewed_on c a aborted now c.commit_id p y) r
unfolding renewed_on
renewed_on-Refines c a aborted now (preparing p ps ws) y r at v = stays y r v
renewed_on-Refines c a aborted now (confirming ws) y r at v =
    renewal-Refines c (confirming ws) a aborted now ws y r at refl v
renewed_on-Refines c a aborted now (returned o ws) y r at v = stays y r v

retired_on-Refines :
    (c : FinalizationCommit) (p : Progress) (y : System) (r : Register)
    → Maps.get c.commit_id y.operations ≡ some (operation c p)
    → Stands y r
    → Refines (retired_on c c.commit_id p y) r
unfolding retired_on
retired_on-Refines c (preparing p ps ws) y r at v = stays y r v
retired_on-Refines c (confirming ws) y r at v = stays y r v
retired_on-Refines c (returned o ws) y r at v = stays _ r (retire-Stands c (returned o ws) y r at v)

intent-fresh : (o : Option Str) → is_some o ≡ false → o ≡ none
intent-fresh o h = ground arith

operation-fresh : (o : Option Operation) → intent_in_flight o ≡ none → o ≡ none
operation-fresh o h = ground arith

enter_on-Refines :
    (c : FinalizationCommit) (aborted : Bool) (now : ℕ) (o : Option Str) (y : System) (r : Register)
    → o ≡ Maps.get c.commit_id y.store.in_flight_by_commit
    → intent_of c.commit_id r ≡ none
    → Stands y r
    → Refines (entered c (enter_on c aborted now o y.store) y) r
unfolding enter_on entered start
enter_on-Refines c aborted now none y r e fresh v = stays _ r (
    start-Stands c _ y r fresh (operation-fresh _ (sym (v.bound c.commit_id) ∙ sym e))
      (not_ok-prepare_next c aborted now _ []) v)
enter_on-Refines c aborted now (some i) y r e fresh v =
    ite-cases (Str-discrete i (canonical c)) (λ q. Refines (entered c q y) r) _ _ (λ m. stays y r v)
      (λ n. stays y r v)

enter_free-Refines :
    (c : FinalizationCommit) (aborted : Bool) (now : ℕ) (o : Option Str) (y : System) (r : Register)
    → intent_of c.commit_id r ≡ none
    → Stands y r
    → Refines (entered c (enter_free c aborted now o y.store) y) r
unfolding enter_free entered
enter_free-Refines c aborted now none y r fresh v =
    enter_on-Refines c aborted now (Maps.get c.commit_id y.store.in_flight_by_commit) y r refl fresh
      v
enter_free-Refines c aborted now (some id) y r fresh v = stays y r v

enter-Refines :
    (c : FinalizationCommit) (aborted : Bool) (now : ℕ) (y : System) (r : Register)
    → Stands y r
    → Refines (entered c (commit c aborted now y.store) y) r
unfolding commit entered
enter-Refines c aborted now y r v =
    elim (Bool-cases (is_published c.commit_id y.store.visibility)) [
      | inl e ↦ rw e (stays y r v)
      | inr e ↦ rw e (
          enter_free-Refines c aborted now (Maps.get (holder c) y.store.finalized) y r
            (intent-fresh _ (sym (v.marked c.commit_id) ∙ e)) v)
    ]

-- What a step does to the operation under an identity.
at_operation :
    (id : Str) (y : System) (r : Register) (f : Option Operation → System)
    → ((o : Operation)
        → Maps.get o.request.commit_id y.operations ≡ some o
        → o.request.commit_id ≡ id
        → Refines (f (some o)) r)
    → Refines (f none) r
    → Stands y r
    → Refines (f (Maps.get id y.operations)) r
at_operation id y r f g k v = elim (Option-cases (Maps.get id y.operations)) [
  | inl e ↦ rw e k
  | inr (o, e) ↦
      rw e (g o (ap (λ i. Maps.get i y.operations) (v.named id o e) ∙ e) (v.named id o e))
]

pub step-Refines : (e : Step) (y : System) (r : Register) → Stands y r → Refines (step e y) r
unfolding step stage_step renew_step retire_step
step-Refines (enters c aborted now) y r v = enter-Refines c aborted now y r v
step-Refines (stages id a aborted now) y r v =
    at_operation id y r (λ o. stage_step id a aborted now o y)
      (λ o at e.
        subst (λ i. Refines (staged_on o.request a aborted now i o.progress y) r) e
          (staged_on-Refines o.request a aborted now o.progress y r at v))
      (stays y r v) v
step-Refines (renews id a aborted now) y r v =
    at_operation id y r (λ o. renew_step id a aborted now o y)
      (λ o at e.
        subst (λ i. Refines (renewed_on o.request a aborted now i o.progress y) r) e
          (renewed_on-Refines o.request a aborted now o.progress y r at v))
      (stays y r v) v
step-Refines (retires id) y r v =
    at_operation id y r (λ o. retire_step id o y)
      (λ o at e.
        subst (λ i. Refines (retired_on o.request i o.progress y) r) e
          (retired_on-Refines o.request o.progress y r at v))
      (stays y r v) v
