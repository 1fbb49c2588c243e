-- ===== src/Acquisition/Epochs.antt =====
-- services/runner-control/src/acquisition/epochs.ts, `runEpoch`: each required source is read by its
-- token, journaled and captured, until one fails or the caller says to stop. The journal, the
-- caller's word and what the core's capture depends on are parameters.
pub mod Noting
pub mod Reads
use secure_home_agent_platfo.Prelude.{Option, none, some, List, [], ◌∷◌, ◌++◌, Str, text}
use secure_home_agent_platfo.Prelude.Maps
use secure_home_agent_platfo.Prelude.Maps.{Map}
use secure_home_agent_platfo.RunState.Journal.{
  AcquisitionEpoch, AcquisitionEnd, acquired, failed, refused_token, JournaledAcquisition,
}
use secure_home_agent_platfo.Core.Decision.{Refusal, OperationalFailure}
use secure_home_agent_platfo.Core.Capture.{
  CapturedAuthority, captured, capture_refused, capture_fault,
}
use secure_home_agent_platfo.Acquisition.{
  AuthorityBytes, acquired_bytes, acquisition_failure, AcquisitionSet, AcquisitionError, EpochValue,
  AcquisitionOutcome, ok, not_ok, run_interrupted, Reading, consume,
}

pub data EpochFailure : Type 0 where
  operational : OperationalFailure → EpochFailure
  token : AcquisitionError → EpochFailure
  capture_refusal : Str → Refusal → EpochFailure

-- The snapshots by the names of their sources and the values in order; a failure; or what an
-- interrupted read or a journal threw.
pub data EpochResult (T : Type 0) : Type 0 where
  established : Map (CapturedAuthority T) → List EpochValue → EpochResult T
  epoch_failed : EpochFailure → EpochResult T
  throws : Str → EpochResult T

abbrev entry_end : AuthorityBytes → AcquisitionEnd
entry_end (acquired_bytes s b) = acquired
entry_end (acquisition_failure s f) = failed

abbrev entry_detail : AuthorityBytes → Option Str
entry_detail (acquired_bytes s b) = none
entry_detail (acquisition_failure s f) = some f

abbrev pub read_entry : AcquisitionEpoch → Str → AuthorityBytes → JournaledAcquisition
read_entry epoch name bytes = record {
  epoch = epoch;
  source = name;
  outcome = entry_end bytes;
  detail = entry_detail bytes;
}

abbrev pub refused_entry : AcquisitionEpoch → Str → AcquisitionError → JournaledAcquisition
refused_entry epoch name e = record {
  epoch = epoch;
  source = name;
  outcome = refused_token;
  detail = some e.detail;
}

abbrev pub stopped : Str → Str → EpochFailure
stopped source why = operational (record { source = source; detail = why })

abbrev pub Epoch : Type 0 → Type 0 → Type 0
Epoch Host T = AcquisitionSet × (Host × EpochResult T)

-- The values and the snapshots so far.
pub record Progress (T : Type 0) : Type 0 where
  pub values : List EpochValue
  pub snapshots : Map (CapturedAuthority T)

module _ {Host T : Type 0} (read : Str → AcquisitionEpoch → Str → Host → Host × Reading)
    (journal : JournaledAcquisition → Host → Host × Option Str) (should_stop : Host → Option Str)
    (capture : Str → AuthorityBytes → CapturedAuthority T) where
  -- The core's answer on the bytes that were read.
  unfoldable pub on_capture :
      (Progress T → AcquisitionSet → Host → Epoch Host T)
      → Str
      → EpochValue
      → Progress T
      → AcquisitionSet
      → Host
      → CapturedAuthority T
      → Epoch Host T
  on_capture again name v p a h (capture_fault f) = (a, (h, epoch_failed (operational f)))
  on_capture again name v p a h (capture_refused source r) =
      (a, (h, epoch_failed (capture_refusal name r)))
  on_capture again name v p a h (captured source digest identity doc) =
      again
        (record {
          values = p.values ++ v ∷ [];
          snapshots = Maps.set name (captured source digest identity doc) p.snapshots;
        })
        a h

  unfoldable pub on_journal :
      (Progress T → AcquisitionSet → Host → Epoch Host T)
      → Str
      → EpochValue
      → Progress T
      → AcquisitionSet
      → Host × Option Str
      → Epoch Host T
  on_journal again name v p a (h, some why) = (a, (h, throws why))
  on_journal again name v p a (h, none) = on_capture again name v p a h (capture name v.bytes)

  unfoldable pub refused_after :
      AcquisitionError → AcquisitionSet → Host × Option Str → Epoch Host T
  refused_after e a (h, some why) = (a, (h, throws why))
  refused_after e a (h, none) = (a, (h, epoch_failed (token e)))

  unfoldable pub on_consumed :
      (Progress T → AcquisitionSet → Host → Epoch Host T)
      → Str
      → Progress T
      → AcquisitionSet
      → Host
      → AcquisitionOutcome
      → Epoch Host T
  on_consumed again name p a h (run_interrupted why) = (a, (h, throws why))
  on_consumed again name p a h (not_ok e) =
      refused_after e a (journal (refused_entry a.epoch name e) h)
  on_consumed again name p a h (ok v) =
      on_journal again name v p a (journal (read_entry a.epoch name v.bytes) h)

  unfoldable pub on_source :
      (Progress T → AcquisitionSet → Host → Epoch Host T)
      → Str
      → Progress T
      → AcquisitionSet
      → Host
      → Option Str
      → Epoch Host T
  on_source again name p a h (some why) = (a, (h, epoch_failed (stopped name why)))
  on_source again name p a h none =
      let r = consume read name a h in on_consumed again name p r.0 r.1.0 r.1.1

  unfoldable pub at_end : Progress T → AcquisitionSet → Host → Option Str → Epoch Host T
  at_end p a h (some why) = (a, (h, epoch_failed (stopped (text "epoch") why)))
  at_end p a h none = (a, (h, established p.snapshots p.values))

  unfoldable pub sources : List Str → Progress T → AcquisitionSet → Host → Epoch Host T
  sources [] p a h = at_end p a h (should_stop h)
  sources (name ∷ names) p a h = on_source (sources names) name p a h (should_stop h)

  unfoldable pub run_epoch : List Str → AcquisitionSet → Host → Epoch Host T
  run_epoch required a h = sources required (record { values = []; snapshots = [] }) a h
