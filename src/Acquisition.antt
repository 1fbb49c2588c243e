-- ===== src/Acquisition.antt =====
-- services/runner-control/src/acquisition/tokens.ts: the tokens of one epoch, each spent by a read.
pub mod Once
pub mod Epochs
use secure_home_agent_platfo.Prelude.{
  Bool, true, false, Option, none, some, List, [], ◌∷◌, ◌++◌, ite, if◌then◌else◌, Str, Str-discrete,
  text,
}
use secure_home_agent_platfo.RunState.Journal.{AcquisitionEpoch, production, verification}

pub data AuthorityBytes : Type 0 where
  acquired_bytes : Str → Str → AuthorityBytes
  acquisition_failure : Str → Str → AuthorityBytes

-- How a read of the port ends: with a value, with a fault, or with the run interrupted.
pub data Reading : Type 0 where
  answered : AuthorityBytes → Reading
  threw : Str → Reading
  interrupted : Str → Reading

pub data AcquisitionErrorKind : Type 0 where
  token_already_consumed source_not_declared : AcquisitionErrorKind

pub record AcquisitionError : Type 0 where
  pub kind : AcquisitionErrorKind
  pub source : Str
  pub epoch : AcquisitionEpoch
  pub detail : Str

pub record EpochValue : Type 0 where
  pub epoch : AcquisitionEpoch
  pub source : Str
  pub bytes : AuthorityBytes

-- The outcome, or the interruption that passes through to the run's terminal owner.
pub data AcquisitionOutcome : Type 0 where
  ok : EpochValue → AcquisitionOutcome
  not_ok : AcquisitionError → AcquisitionOutcome
  run_interrupted : Str → AcquisitionOutcome

abbrev pub epoch_name : AcquisitionEpoch → Str
epoch_name production = text "production"
epoch_name verification = text "verification"

pub record AcquisitionSet : Type 0 where
  pub run_id : Str
  pub epoch : AcquisitionEpoch
  pub remaining : List Str
  pub consumed : List Str

unfoldable pub has : Str → List Str → Bool
has s [] = false
has s (t ∷ ts) = ite (Str-discrete t s) true (has s ts)

unfoldable pub without : Str → List Str → List Str
without s [] = []
without s (t ∷ ts) = let rest = without s ts in ite (Str-discrete t s) rest (t ∷ rest)

-- `new Set(sources)`: insertion order, each source once.
unfoldable pub to_set : List Str → List Str
unfolding without
to_set [] = []
to_set (s ∷ ss) = s ∷ without s (to_set ss)

unfoldable pub new : Str → AcquisitionEpoch → List Str → AcquisitionSet
unfolding to_set
new run_id epoch sources = record {
  run_id = run_id;
  epoch = epoch;
  remaining = to_set sources;
  consumed = [];
}

abbrev already : AcquisitionEpoch → Str → AcquisitionError
already epoch source = record {
  kind = token_already_consumed;
  source = source;
  epoch = epoch;
  detail =
      text "the "
      ++ (epoch_name epoch
          ++ (text " token for "
              ++ (source ++ text " was already consumed; no host read is performed")));
}

abbrev undeclared : AcquisitionEpoch → Str → AcquisitionError
undeclared epoch source = record {
  kind = source_not_declared;
  source = source;
  epoch = epoch;
  detail =
      source
      ++ (text " is not a declared source of this run's " ++ (epoch_name epoch ++ text " epoch"));
}

value : AcquisitionEpoch → Str → AuthorityBytes → AcquisitionOutcome
value epoch source bytes = ok (record { epoch = epoch; source = source; bytes = bytes })

outcome_of : AcquisitionEpoch → Str → Reading → AcquisitionOutcome
unfolding value
outcome_of epoch source (answered bytes) = value epoch source bytes
outcome_of epoch source (threw why) =
    value epoch source (acquisition_failure source (text "the authority source threw: " ++ why))
outcome_of epoch source (interrupted why) = run_interrupted why

module _ {Host : Type 0} (read : Str → AcquisitionEpoch → Str → Host → Host × Reading) where
  -- The token is spent before the read.
  unfoldable pub consume :
      Str → AcquisitionSet → Host → AcquisitionSet × (Host × AcquisitionOutcome)
  unfolding has without outcome_of
  consume source a host =
      if has source a.consumed
      then (a, (host, not_ok (already a.epoch source)))
      else if has source a.remaining
      then (
        record a { remaining = without source a.remaining; consumed = a.consumed ++ source ∷ [] },
        (
          (read a.run_id a.epoch source host).0,
          outcome_of a.epoch source (read a.run_id a.epoch source host).1,
        ),
      )
      else (a, (host, not_ok (undeclared a.epoch source)))

  unfoldable pub consume_all : List Str → AcquisitionSet → Host → AcquisitionSet × Host
  unfolding consume
  consume_all [] a host = (a, host)
  consume_all (s ∷ ss) a host =
      let (a', (host', outcome)) = consume s a host in consume_all ss a' host'
