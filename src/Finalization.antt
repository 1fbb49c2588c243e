-- ===== src/Finalization.antt =====
-- services/runner-control/src/adapters/finalization.ts with the outcome types of
-- ports/finalization.ts: a commit stages the journal tail, the terminal event and the sealed bundle,
-- confirms that its generation still holds the run, and publishes all three by one marker. Each
-- definition here is a part of the commit that runs without an `await`; what a participant, the
-- lease, the signal and the clock answer are arguments.
pub mod Entry
pub mod Interleaving
pub mod Refinement
pub mod Termination
pub mod Retry
use secure_home_agent_platfo.Prelude.{
  ℕ, Bool, true, false, Option, none, some, List, [], ◌∷◌, ◌++◌, map, ite, if◌then◌else◌, Str,
  Str-discrete, text, decimal, leb,
}
use secure_home_agent_platfo.Prelude.Maps
use secure_home_agent_platfo.Prelude.Maps.{Map}
use secure_home_agent_platfo.RunState.Visibility.{CommitLedger, is_published, publish}
use secure_home_agent_platfo.RunState.Visibility

pub data ExpiryBound : Type 0 where
  governed attempt : ExpiryBound

-- The documents of a commit are held as the texts that `JSON.stringify` gives of them.
pub record FinalizationCommit : Type 0 where
  pub run_id : Str
  pub generation : ℕ
  pub commit_id : Str
  pub terminal : Str
  pub transitions : Str
  pub event : Str
  pub bundle : Str
  pub expires_at_epoch_ms : Option ℕ
  pub expires_at_bound : Option ExpiryBound

pub data CommitReason : Type 0 where
  stale_fence expired attempt_expired already_committed conflicting_replay : CommitReason

pub data CommitOutcome : Type 0 where
  ok : CommitOutcome
  not_ok : Option CommitReason → Str → CommitOutcome

-- The object of four members, as one text.
unfoldable pub canonical : FinalizationCommit → Str
canonical c =
    text "{\"terminal\":"
    ++ (c.terminal
        ++ (text ",\"transitions\":"
            ++ (c.transitions
                ++ (text ",\"event\":"
                    ++ (c.event ++ (text ",\"bundle\":" ++ (c.bundle ++ text "}")))))))

unfoldable pub holder : FinalizationCommit → Str
holder c = c.run_id ++ (text "#g" ++ decimal c.generation)

-- The marker, what each generation published and with what intent, and what is in flight.
pub record Finalization : Type 0 where
  pub visibility : CommitLedger
  pub finalized : Map Str
  pub intents : Map Str
  pub in_flight_by_commit : Map Str
  pub in_flight_by_generation : Map Str

abbrev pub empty : Finalization
empty = record {
  visibility = Visibility.empty;
  finalized = [];
  intents = [];
  in_flight_by_commit = [];
  in_flight_by_generation = [];
}

pub data Participant : Type 0 where
  journal_tail terminal_event sealed_bundle : Participant

abbrev pub preparations : List Participant
preparations = journal_tail ∷ terminal_event ∷ sealed_bundle ∷ []

abbrev pub participant_name : Participant → Str
participant_name journal_tail = text "journal tail"
participant_name terminal_event = text "terminal event"
participant_name sealed_bundle = text "sealed bundle"

-- A prepared write: who prepared it, and under which commit.
pub record StagedWrite : Type 0 where
  pub participant : Participant
  pub commit_id : Str

pub data StagingReason : Type 0 where
  stale_fence conflicting_replay : StagingReason

pub data Staging : Type 0 where
  staged_under : Str → Staging
  refused : Option StagingReason → Str → Staging
  threw : Str → Staging

pub data Renewal : Type 0 where
  owned moved_on : Renewal
  renewal_threw : Str → Renewal

-- Where a commit stands: it awaits a participant, with those that follow and the writes staged so
-- far; it awaits the lease; or it has its outcome, with the writes that it abandoned, in order.
pub data Progress : Type 0 where
  preparing : Participant → List Participant → List StagedWrite → Progress
  confirming : List StagedWrite → Progress
  returned : CommitOutcome → List StagedWrite → Progress

pub reverse : List StagedWrite → List StagedWrite
reverse [] = []
reverse (w ∷ ws) = reverse ws ++ w ∷ []

abbrev not_committed : Str → Str
not_committed why = text "finalization did not commit: " ++ why

-- `abandon()`, and the refusal.
unfoldable pub abandoned : List StagedWrite → Option CommitReason → Str → Progress
abandoned staged reason why = returned (not_ok reason (not_committed why)) (reverse staged)

unfoldable pub expired_at : ℕ → Option ℕ → Bool
expired_at now none = false
expired_at now (some limit) = leb limit now

abbrev pub is_expired : FinalizationCommit → ℕ → Bool
is_expired c now = expired_at now c.expires_at_epoch_ms

unfoldable pub expiry : List StagedWrite → Option ExpiryBound → Str → Progress
unfolding abandoned
expiry staged (some attempt) what =
    abandoned staged (some attempt_expired)
      (text "the attempt's recording bound elapsed before " ++ what)
expiry staged (some governed) what =
    abandoned staged (some expired) (text "the run's budget elapsed before " ++ what)
expiry staged none what =
    abandoned staged (some expired) (text "the run's budget elapsed before " ++ what)

-- From one `await` of the staging loop to the next.
unfoldable pub prepare_next :
    FinalizationCommit → Bool → ℕ → List Participant → List StagedWrite → Progress
unfolding abandoned expiry
prepare_next c aborted now [] staged =
    if aborted
    then abandoned staged none (text "the run was interrupted before ownership confirmation")
    else confirming staged
prepare_next c aborted now (p ∷ ps) staged =
    if aborted
    then abandoned staged none
        (text "the run was interrupted before the " ++ (participant_name p ++ text " was prepared"))
    else if is_expired c now
    then expiry staged c.expires_at_bound
        (text "the " ++ (participant_name p ++ text " was prepared"))
    else preparing p ps staged

abbrev pub reason_of : Option StagingReason → Option CommitReason
reason_of none = none
reason_of (some stale_fence) = some stale_fence
reason_of (some conflicting_replay) = some conflicting_replay

-- The participant has answered.
unfoldable pub on_staging :
    FinalizationCommit
    → Staging
    → Bool
    → ℕ
    → Participant
    → List Participant
    → List StagedWrite
    → Progress
unfolding abandoned
on_staging c (threw detail) aborted now p ps staged =
    abandoned staged none
      (text "the " ++ (participant_name p ++ (text " could not be prepared: " ++ detail)))
on_staging c (refused reason detail) aborted now p ps staged =
    abandoned staged (reason_of reason)
      (text "the " ++ (participant_name p ++ (text " was refused: " ++ detail)))
on_staging c (staged_under id) aborted now p ps staged =
    let more = staged ++ (record { participant = p; commit_id = id }) ∷ [] in
    ite (Str-discrete id c.commit_id) (prepare_next c aborted now ps more) (
      abandoned more none (
        text "the "
        ++ (participant_name p
            ++ (text " staged under " ++ (id ++ (text ", not " ++ c.commit_id))))))

or_empty : Option Str → Str
or_empty none = []
or_empty (some s) = s

pub already_published_detail : FinalizationCommit → Option Str → Str
unfolding or_empty
already_published_detail c published =
    text "generation "
    ++ (decimal c.generation
        ++ (text " of run "
            ++ (c.run_id ++ (text " already published commit " ++ or_empty published))))

pub being_finalized : FinalizationCommit → Str → Str
being_finalized c owner =
    text "generation "
    ++ (decimal c.generation
        ++ (text " of run " ++ (c.run_id ++ (text " is being finalized by commit " ++ owner))))

-- The marker and the persistent record, in one mutation.
unfoldable pub published : FinalizationCommit → Finalization → Finalization
published c s = record s {
  visibility = publish c.commit_id s.visibility;
  finalized = Maps.set (holder c) c.commit_id s.finalized;
  intents = Maps.set c.commit_id (canonical c) s.intents;
}

unfoldable pub claimed : FinalizationCommit → Finalization → Finalization
claimed c s = record s {
  in_flight_by_generation = Maps.set (holder c) c.commit_id s.in_flight_by_generation;
}

-- The last check and the publication.
unfoldable pub mark :
    FinalizationCommit → ℕ → List StagedWrite → Finalization → Finalization × Progress
unfolding expiry
mark c now staged s =
    if is_expired c now
    then (s, expiry staged c.expires_at_bound (text "the commit marker"))
    else (published c s, returned ok [])

-- The generation gate, on the commit that holds the generation's claim.
unfoldable pub gate_on :
    FinalizationCommit → ℕ → List StagedWrite → Option Str → Finalization → Finalization × Progress
unfolding abandoned
gate_on c now staged none s = mark c now staged (claimed c s)
gate_on c now staged (some owner) s =
    ite (Str-discrete owner c.commit_id) (mark c now staged s)
      (s, abandoned staged (some already_committed) (being_finalized c owner))

unfoldable pub gate :
    FinalizationCommit → ℕ → List StagedWrite → Option Str → Finalization → Finalization × Progress
unfolding abandoned
gate c now staged (some id) s =
    (s, abandoned staged (some already_committed) (already_published_detail c (some id)))
gate c now staged none s = gate_on c now staged (Maps.get (holder c) s.in_flight_by_generation) s

-- The lease has answered.
unfoldable pub on_renewal :
    FinalizationCommit
    → Renewal
    → Bool
    → ℕ
    → List StagedWrite
    → Finalization
    → Finalization × Progress
unfolding abandoned
on_renewal c (renewal_threw detail) aborted now staged s =
    (s, abandoned staged none (text "ownership could not be confirmed: " ++ detail))
on_renewal c moved_on aborted now staged s = (
  s,
  abandoned staged (some stale_fence)
      (text "run " ++ (c.run_id ++ text " moved on before the commit marker")),
)
on_renewal c owned aborted now staged s =
    if aborted
    then (s, abandoned staged none (text "the run was interrupted before the commit marker"))
    else gate c now staged (Maps.get (holder c) s.finalized) s
