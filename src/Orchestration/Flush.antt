-- ===== src/Orchestration/Flush.antt =====
-- orchestration/run.ts, `#flushJournal` and `#append`: the facts that wait in the outbox of a run are
-- sent to the journal, one by one. The journal that is sent to is a parameter, which answers, throws,
-- or throws the error of an interrupted call.
pub mod Landing
pub mod Once
pub mod History
use secure_home_agent_platfo.Prelude.{Bool, true, false, Option, none, some, List, [], ◌∷◌, Str}
use secure_home_agent_platfo.Lifecycle.Machine.{RunMachine}
use secure_home_agent_platfo.RunState.Fence.{
  RunFence, FenceOutcome, ok, not_ok, stale_fence, conflicting_replay,
}
use secure_home_agent_platfo.RunState.Journal
use secure_home_agent_platfo.RunState.Journal.{RunJournal}
use secure_home_agent_platfo.RunState.Outbox.{OutboxEntry, JournalOutbox, drain_machine}

pub data Appended : Type 0 where
  answered : FenceOutcome → Appended
  threw controlled : Appended

-- How a flush ends: the outbox is empty, an entry conflicts with what landed under its identity, the
-- fence is lost, the journal failed, or the call was interrupted and the error goes on.
pub data Flushed : Type 0 where
  emptied conflicting failed rethrown : Flushed
  lost : Str → Flushed

pub record Flushing (W : Type 0) : Type 0 where
  pub pending : List OutboxEntry
  pub world : W
  pub ended : Flushed

module _ {W : Type 0} (append : RunFence → OutboxEntry → W → W × Appended) where
  -- The loop; what it leaves pending begins with the entry that it stopped at.
  unfoldable pub flush_pending : RunFence → List OutboxEntry → W → Flushing W
  flush_pending f [] w = record { pending = []; world = w; ended = emptied }
  flush_pending f (e ∷ es) w =
      let (w', answer) = append f e w in
      elim answer [
        | answered ok ↦ flush_pending f es w'
        | answered (not_ok conflicting_replay detail) ↦ record {
          pending = e ∷ es;
          world = w';
          ended = conflicting;
        }
        | answered (not_ok stale_fence detail) ↦ record {
          pending = e ∷ es;
          world = w';
          ended = lost detail;
        }
        | threw ↦ record { pending = e ∷ es; world = w'; ended = failed }
        | controlled ↦ record { pending = e ∷ es; world = w'; ended = rethrown }
      ]

-- What of a scope and of the world a flush changes.
pub record Journaling (W : Type 0) : Type 0 where
  pub machine : RunMachine
  pub outbox : JournalOutbox
  pub fence_lost : Option Str
  pub world : W

abbrev pub loss : Flushed → Option Str
loss (lost detail) = some detail
loss emptied = none
loss conflicting = none
loss failed = none
loss rethrown = none

module _ {W : Type 0} (append : RunFence → OutboxEntry → W → W × Appended) where
  abbrev pub flush_as : RunFence → Option Str → Journaling W → Journaling W × Flushed
  flush_as f (some why) s = (s, emptied)
  flush_as f none s =
      let (machine, outbox) = drain_machine s.machine s.outbox in
      let flushed = flush_pending append f outbox.pending s.world in
      (
        record {
          machine = machine;
          outbox = record outbox { pending = flushed.pending };
          fence_lost = loss flushed.ended;
          world = flushed.world;
        },
        flushed.ended,
      )

  -- A run that lost its fence sends nothing.
  unfoldable pub flush_journal : RunFence → Journaling W → Journaling W × Flushed
  unfolding flush_pending
  flush_journal f s = flush_as f s.fence_lost s

-- What becomes of one append on its way to the journal and back: it is acknowledged; or an error comes
-- back, of an interrupted call or another, and the fact landed or did not.
pub data Delivery : Type 0 where
  acknowledged : Delivery
  errs : (landed interrupted : Bool) → Delivery

abbrev error : Bool → Appended
error true = controlled
error false = threw

-- The journal of the program behind such a way; deliveries that are not listed are acknowledged.
abbrev deliver : Delivery → RunFence → OutboxEntry → RunJournal → RunJournal × Appended
deliver acknowledged f e j =
    let (j', answer) = Journal.append f e.entry_id e.fact j in (j', answered answer)
deliver (errs true interrupted) f e j =
    ((Journal.append f e.entry_id e.fact j).0, error interrupted)
deliver (errs false interrupted) f e j = (j, error interrupted)

unfoldable pub send :
    RunFence → OutboxEntry → RunJournal × List Delivery → (RunJournal × List Delivery) × Appended
send f e (j, []) = let (j', answer) = deliver acknowledged f e j in ((j', []), answer)
send f e (j, d ∷ ds) = let (j', answer) = deliver d f e j in ((j', ds), answer)
