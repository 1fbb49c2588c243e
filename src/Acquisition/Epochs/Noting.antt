-- ===== src/Acquisition/Epochs/Noting.antt =====
-- acquisition/epochs.ts: the sources that are read of a host.
use secure_home_agent_platfo.Prelude.{
  ◌≡◌, refl, ap, ◌∙◌, Bool, true, false, Option, none, some, List, [], ◌∷◌, ◌++◌, map, Str, arith,
  Bool-cases, inl, inr, ◌≢◌,
}
use secure_home_agent_platfo.Prelude.Maps
use secure_home_agent_platfo.Prelude.Maps.{Map, get-set}
use secure_home_agent_platfo.RunState.Journal.{AcquisitionEpoch}
use secure_home_agent_platfo.Core.Eligibility.{CapturedIdentity}
use secure_home_agent_platfo.Core.Capture.{
  CapturedAuthority, captured, capture_refused, capture_fault,
}
use secure_home_agent_platfo.Acquisition.{
  AcquisitionSet, EpochValue, AcquisitionOutcome, ok, not_ok, run_interrupted, Reading, consume,
  has, outcome_of, answered, threw, interrupted,
}
use secure_home_agent_platfo.Acquisition.Once.{has-append}
use secure_home_agent_platfo.Acquisition.Epochs.{EpochResult, established, Epoch, Progress}

abbrev pub is_captured : {T : Type 0} → Option (CapturedAuthority T) → Bool
is_captured none = false
is_captured (some (captured s d i doc)) = true
is_captured (some (capture_refused s r)) = false
is_captured (some (capture_fault f)) = false

-- A host that keeps a list of the sources read of it, oldest first.
abbrev pub noting :
    {Host : Type 0}
    → (Str → AcquisitionEpoch → Str → Host → Host × Reading)
    → Str
    → AcquisitionEpoch
    → Str
    → Host × List Str
    → (Host × List Str) × Reading
noting read run_id epoch source (h, log) =
    let (h', r) = read run_id epoch source h in ((h', log ++ source ∷ []), r)

abbrev pub aside :
    {Host E A : Type 0} → (E → Host → Host × A) → E → Host × List Str → (Host × List Str) × A
aside f e (h, log) = let (h', a) = f e h in ((h', log), a)

-- The sources read are a beginning of the required ones; when the epoch is established they are all
-- of them, its values are theirs in order, and each has its snapshot.
abbrev pub Reads : {Host T : Type 0} → List Str → Epoch (Host × List Str) T → Type 0
Reads {Host} {T} required r =
    (rest : List Str) × ((required ≡ r.1.0.1 ++ rest)
      × ((snapshots : Map (CapturedAuthority T)) (values : List EpochValue)
          → r.1.1 ≡ established snapshots values
          → (rest ≡ [])
            × ((map (λ v. v.source) values ≡ r.1.0.1)
                × ((n : Str) → has n r.1.0.1 ≡ true → is_captured (Maps.get n snapshots) ≡ true))))

-- The progress is that of the sources read so far.
abbrev pub Kept : {T : Type 0} → Progress T → List Str → Type 0
Kept p pre =
    (map (λ v. v.source) p.values ≡ pre)
    × ((n : Str) → has n pre ≡ true → is_captured (Maps.get n p.snapshots) ≡ true)

map-append {ℓ κ} :
    {A : Type ℓ} {B : Type κ} (f : A → B) (xs ys : List A) → map f (xs ++ ys) ≡ map f xs ++ map f ys
map-append f [] ys = refl
map-append f (x ∷ xs) ys = ap (λ l. f x ∷ l) (map-append f xs ys)

-- What an outcome says of the sources read before and after it.
abbrev pub Noted : Str → List Str → AcquisitionOutcome → List Str → Type 0
Noted name log (ok v) log' = (v.source ≡ name) × (log' ≡ log ++ name ∷ [])
Noted name log (not_ok e) log' = log' ≡ log
Noted name log (run_interrupted why) log' = log' ≡ log ++ name ∷ []

outcome_of-Noted :
    (epoch : AcquisitionEpoch) (name : Str) (log : List Str) (r : Reading)
    → Noted name log (outcome_of epoch name r) (log ++ name ∷ [])
unfolding outcome_of
outcome_of-Noted epoch name log (answered b) = (refl, refl)
outcome_of-Noted epoch name log (threw why) = (refl, refl)
outcome_of-Noted epoch name log (interrupted why) = refl

module _ {Host : Type 0} (read : Str → AcquisitionEpoch → Str → Host → Host × Reading) where
  -- The outcome of a consumption, and the list of sources read after it.
  pub consume-Noted :
      (name : Str) (a : AcquisitionSet) (h : Host) (log : List Str)
      → let r = consume (noting read) name a (h, log) in Noted name log r.1.1 r.1.0.1
  unfolding consume
  consume-Noted name a h log = elim (Bool-cases (has name a.consumed)) [
    | inl e ↦ rw e refl
    | inr e ↦ elim (Bool-cases (has name a.remaining)) [
      | inl f ↦ rw (e, f) (outcome_of-Noted a.epoch name log (read a.run_id a.epoch name h).1)
      | inr f ↦ rw (e, f) refl
    ]
  ]

module _ {Host T : Type 0} where
  -- An epoch that ended before all was read.
  pub halted :
      (required log rest : List Str) (a : AcquisitionSet) (h : Host) (x : EpochResult T)
      → required ≡ log ++ rest
      → ((s : Map (CapturedAuthority T)) (v : List EpochValue) → x ≢ established s v)
      → Reads required (a, ((h, log), x))
  halted required log rest a h x e n = (rest, (e, λ s v k. absurd (n s v k)))

module _ {T : Type 0} where
  pub Kept-set :
      (p : Progress T) (pre : List Str) (name : Str) (v : EpochValue) (source digest : Str)
      (identity : CapturedIdentity) (doc : T)
      → Kept p pre
      → v.source ≡ name
      → Kept
          (record {
            values = p.values ++ v ∷ [];
            snapshots = Maps.set name (captured source digest identity doc) p.snapshots;
          })
          (pre ++ name ∷ [])
  Kept-set p pre name v source digest identity doc (same, all) e = (
    map-append (λ v. v.source) p.values (v ∷ [])
        ∙ (ap (λ l. l ++ v.source ∷ []) same ∙ ap (λ x. pre ++ x ∷ []) e),
    λ n k. ground (
      arith,
      all n,
      has-append n name pre,
      get-set name n (captured source digest identity doc) p.snapshots,
    ),
  )
