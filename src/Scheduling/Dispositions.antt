-- ===== src/Scheduling/Dispositions.antt =====
-- services/runner-control/src/scheduling/dispositions.ts, with the outcome type of
-- packages/contracts/src/verification/gate-registry.ts: one disposition for each scheduled gate.
use secure_home_agent_platfo.Prelude.{
  ◌≡◌, refl, ap, ◌∙◌, Bool, true, false, Option, none, some, List, [], ◌∷◌, ◌++◌, ite,
  if◌then◌else◌, Str, Str-discrete, text, arith,
}
use secure_home_agent_platfo.Prelude.Maps
use secure_home_agent_platfo.Prelude.Maps.{Map, get-set}

pub data GateDisposition : Type 0 where
  pass fail skip_ok skip_env : GateDisposition

abbrev pub disposition_name : GateDisposition → Str
disposition_name pass = text "PASS"
disposition_name fail = text "FAIL"
disposition_name skip_ok = text "SKIP_OK"
disposition_name skip_env = text "SKIP_ENV"

pub record GateOutcome : Type 0 where
  pub disposition : GateDisposition
  pub truncated : Bool
  pub reason : Option Str

pub data GateReport : Type 0 where
  passed : GateReport
  failed : Str → Bool → GateReport
  declared_skip toolchain_unavailable environmental_fault stale_fence : Str → GateReport

abbrev pub outcome_of : GateDisposition → Bool → Option Str → GateOutcome
outcome_of d t r = record { disposition = d; truncated = t; reason = r }

unfoldable pub to_disposition : GateReport → Option GateOutcome
to_disposition passed = some (outcome_of pass false none)
to_disposition (failed reason truncated) = some (outcome_of fail truncated (some reason))
to_disposition (declared_skip reason) = some (outcome_of skip_ok false (some reason))
to_disposition (toolchain_unavailable reason) = some (outcome_of skip_env false (some reason))
to_disposition (environmental_fault detail) = none
to_disposition (stale_fence detail) = none

pub data DispositionErrorKind : Type 0 where
  duplicate_disposition gate_not_scheduled : DispositionErrorKind

pub record DispositionError : Type 0 where
  pub kind : DispositionErrorKind
  pub gate_id : Str
  pub detail : Str

pub data RecordOutcome : Type 0 where
  ok : RecordOutcome
  not_ok : DispositionError → RecordOutcome

-- The gates scheduled, as a set in insertion order, and the results so far.
pub record DispositionRecorder : Type 0 where
  pub scheduled : List Str
  pub results : Map GateOutcome

unfoldable pub has : Str → List Str → Bool
has s [] = false
has s (t ∷ ts) = ite (Str-discrete t s) true (has s ts)

without : Str → List Str → List Str
without s [] = []
without s (t ∷ ts) = let rest = without s ts in ite (Str-discrete t s) rest (t ∷ rest)

unfoldable pub to_set : List Str → List Str
unfolding without
to_set [] = []
to_set (s ∷ ss) = s ∷ without s (to_set ss)

unfoldable pub new : List Str → DispositionRecorder
unfolding to_set
new scheduled = record { scheduled = to_set scheduled; results = [] }

abbrev is_recorded : Str → DispositionRecorder → Bool
is_recorded id r = elim (Maps.get id r.results) [ none ↦ false | some o ↦ true ]

abbrev outstanding_in : DispositionRecorder → List Str → List Str
outstanding_in r [] = []
outstanding_in r (id ∷ ids) =
    let rest = outstanding_in r ids in if is_recorded id r then rest else id ∷ rest

unfoldable pub outstanding : DispositionRecorder → List Str
outstanding r = outstanding_in r r.scheduled

error : DispositionErrorKind → Str → Str → RecordOutcome
error kind gate_id detail = not_ok (record { kind = kind; gate_id = gate_id; detail = detail })

record_on :
    Str
    → GateOutcome
    → DispositionRecorder
    → Option GateOutcome
    → DispositionRecorder × RecordOutcome
unfolding error
record_on gate_id outcome r (some existing) = (
  r,
  error duplicate_disposition gate_id (
      gate_id
      ++ (text " already has the terminal disposition "
          ++ (disposition_name existing.disposition ++ text "; the first is preserved"))),
)
record_on gate_id outcome r none = (record r { results = Maps.set gate_id outcome r.results }, ok)

-- `record`
unfoldable pub record_outcome :
    Str → GateOutcome → DispositionRecorder → DispositionRecorder × RecordOutcome
unfolding has record_on
record_outcome gate_id outcome r =
    if has gate_id r.scheduled then record_on gate_id outcome r (Maps.get gate_id r.results) else (
      r,
      error gate_not_scheduled gate_id (
          gate_id
          ++ text " was not scheduled for this run; an unscheduled result is never recorded"),
    )

-- A gate's report recorded the way the run records it: no disposition, no record.
unfoldable pub run : List (Str × GateOutcome) → DispositionRecorder → DispositionRecorder
unfolding record_outcome
run [] r = r
run ((id, o) ∷ es) r = run es (record_outcome id o r).0

-- The first outcome given for the gate.
abbrev pub first_of : Str → List (Str × GateOutcome) → Option GateOutcome
first_of id [] = none
first_of id ((j, o) ∷ es) = ite (Str-discrete j id) (some o) (first_of id es)

abbrev or_else {ℓ} : {A : Type ℓ} → Option A → Option A → Option A
or_else (some a) o = some a
or_else none o = o

scheduled-record_outcome :
    (id : Str) (o : GateOutcome) (r : DispositionRecorder)
    → (record_outcome id o r).0.scheduled ≡ r.scheduled
unfolding record_outcome record_on
scheduled-record_outcome id o r = ground arith

get-record_outcome :
    (id j : Str) (o : GateOutcome) (r : DispositionRecorder)
    → Maps.get id (record_outcome j o r).0.results
      ≡ or_else
          (Maps.get id r.results)
          (if has j r.scheduled then ite (Str-discrete j id) (some o) none else none)
unfolding record_outcome record_on
get-record_outcome id j o r = ground (arith, get-set j id o r.results)

get-run :
    (id : Str) (es : List (Str × GateOutcome)) (r : DispositionRecorder)
    → Maps.get id (run es r).results
      ≡ or_else (Maps.get id r.results) (if has id r.scheduled then first_of id es else none)
unfolding run
get-run id [] r = ground arith
get-run id ((j, o) ∷ es) r = ground (
  arith,
  get-run id es (record_outcome j o r).0,
  get-record_outcome id j o r,
  scheduled-record_outcome j o r,
)

has-without :
    (id s : Str) (ss : List Str) → has id (without s ss) ≡ ite (Str-discrete s id) false (has id ss)
unfolding has without
has-without id s [] = ground arith
has-without id s (t ∷ ts) = ground (arith, has-without id s ts)

has-to_set : (id : Str) (ss : List Str) → has id (to_set ss) ≡ has id ss
unfolding has to_set
has-to_set id [] = refl
has-to_set id (s ∷ ss) = ground (arith, has-without id s (to_set ss), has-to_set id ss)

-- Whatever outcomes are recorded, in whatever order, and however often for one gate, the result that
-- stands for a gate is the first one recorded for it if the gate was scheduled, and none if it was not.
pub results-run :
    (id : Str) (scheduled : List Str) (es : List (Str × GateOutcome))
    → Maps.get id (run es (new scheduled)).results
      ≡ (if has id scheduled then first_of id es else none)
unfolding new Maps.get
results-run id scheduled es =
    get-run id es (new scheduled)
    ∙ ap (λ b. if b then first_of id es else none) (has-to_set id scheduled)
