-- ===== src/Orchestration/Conclude/Landed.antt =====
-- orchestration/terminate.ts, `conclude`, with `#flushJournal` of run.ts: the facts of a run that the
-- journal was sent and acknowledged.
use secure_home_agent_platfo.Prelude.{
  ◌≡◌, refl, sym, ap, ◌∙◌, true, false, Option, none, some, List, [], ◌∷◌, map, Str, arith,
}
use secure_home_agent_platfo.Lifecycle.Machine.{RunMachine, pending_journal, confirm_journaled}
use secure_home_agent_platfo.RunState.Journal.{transition, rejection}
use secure_home_agent_platfo.RunState.Fence.{RunFence, ok, not_ok, stale_fence, conflicting_replay}
use secure_home_agent_platfo.RunState.Outbox.{
  OutboxEntry, JournalOutbox, drain_machine, drain_machine-facts, is_empty, enqueue_all,
}
use secure_home_agent_platfo.Orchestration.Flush.{
  Appended, answered, threw, controlled, Flushed, conflicting, failed, rethrown, lost, Flushing,
  flush_pending, flush_as, flush_journal, Journaling, loss,
}
use secure_home_agent_platfo.Orchestration.Conclude.{Run, tick}

module _ {W : Type 0} (append : RunFence → OutboxEntry → W → W × Appended) (f : RunFence) where
  -- Each of the entries, in turn, was sent until the journal answered `ok`.
  pub data Acknowledges : List OutboxEntry → W → W → Type 0 where
    done : {w : W} → Acknowledges [] w w
    retried :
        {e : OutboxEntry} {es : List OutboxEntry} {w w'' : W} (w' : W) (a : Appended)
        → append f e w ≡ (w', a)
        → Acknowledges (e ∷ es) w' w''
        → Acknowledges (e ∷ es) w w''
    lands :
        {e : OutboxEntry} {es : List OutboxEntry} {w w'' : W} (w' : W)
        → append f e w ≡ (w', answered ok)
        → Acknowledges es w' w''
        → Acknowledges (e ∷ es) w w''

  -- What is left by a flush and acknowledged later was acknowledged from the start.
  abbrev Continues : List OutboxEntry → W → Flushing W → Type 0
  Continues es w s = (w'' : W) → Acknowledges s.pending s.world w'' → Acknowledges es w w''

  abbrev halted : OutboxEntry → List OutboxEntry → W → Flushed → Flushing W
  halted e es w' ended = record { pending = e ∷ es; world = w'; ended = ended }

  abbrev answer_on : OutboxEntry → List OutboxEntry → W × Appended → Flushing W
  answer_on e es p = elim p.1 [
    | answered ok ↦ flush_pending append f es p.0
    | answered (not_ok conflicting_replay detail) ↦ halted e es p.0 conflicting
    | answered (not_ok stale_fence detail) ↦ halted e es p.0 (lost detail)
    | threw ↦ halted e es p.0 failed
    | controlled ↦ halted e es p.0 rethrown
  ]

  flush_pending-Continues :
      (es : List OutboxEntry) (w : W) → Continues es w (flush_pending append f es w)
  unfolding flush_pending
  flush_pending-Continues [] w = λ w'' k. k
  flush_pending-Continues (e ∷ es) w = on_answer (append f e w) refl (flush_pending-Continues es)
    where
      on_answer :
          (p : W × Appended)
          → append f e w ≡ p
          → ((w' : W) → Continues es w' (flush_pending append f es w'))
          → Continues (e ∷ es) w (answer_on e es p)
      on_answer (w', answered ok) h next = λ w'' k. lands w' h (next w' w'' k)
      on_answer (w', answered (not_ok conflicting_replay detail)) h next = λ w'' k. retried w' _ h k
      on_answer (w', answered (not_ok stale_fence detail)) h next = λ w'' k. retried w' _ h k
      on_answer (w', threw) h next = λ w'' k. retried w' _ h k
      on_answer (w', controlled) h next = λ w'' k. retried w' _ h k

  -- A flush that is told of a loss leaves the entry that it was told at.
  flush_pending-lost :
      (es : List OutboxEntry) (w : W) (why : Str)
      → (flush_pending append f es w).ended ≡ lost why
      → elim (flush_pending append f es w).pending [ [] ↦ true | e ∷ rest ↦ false ] ≡ false
  unfolding flush_pending
  flush_pending-lost [] w why h = absurd (ground arith)
  flush_pending-lost (e ∷ es) w why h =
      on_answer (append f e w) (flush_pending-lost es (append f e w).0 why) h
    where
      on_answer :
          (p : W × Appended)
          → ((flush_pending append f es p.0).ended ≡ lost why
              → elim (flush_pending append f es p.0).pending [ [] ↦ true | e ∷ rest ↦ false ]
                ≡ false)
          → (answer_on e es p).ended ≡ lost why
          → elim (answer_on e es p).pending [ [] ↦ true | e ∷ rest ↦ false ] ≡ false
      on_answer (w', answered ok) next h = next h
      on_answer (w', answered (not_ok conflicting_replay detail)) next h = refl
      on_answer (w', answered (not_ok stale_fence detail)) next h = refl
      on_answer (w', threw) next h = refl
      on_answer (w', controlled) next h = refl

pub is_empty-pending : (o : JournalOutbox) → is_empty o ≡ true → o.pending ≡ []
unfolding is_empty
is_empty-pending o h = emptied_list o.pending h
  where
    emptied_list :
        (es : List OutboxEntry) → elim es [ [] ↦ true | e ∷ rest ↦ false ] ≡ true → es ≡ []
    emptied_list [] h = refl
    emptied_list (e ∷ es) h = absurd (ground arith)

-- Draining a machine that has nothing to hand over adds nothing.
drain_machine-none :
    (m : RunMachine) (o : JournalOutbox) → pending_journal m ≡ ([], []) → (drain_machine m o).1 ≡ o
unfolding drain_machine enqueue_all
drain_machine-none m o h =
    ap (λ p. enqueue_all (map rejection p.1) (enqueue_all (map transition p.0) o)) h

module _ {W : Type 0} (journal : RunFence → OutboxEntry → W → W × Appended) (f : RunFence) where
  flush_as-owned :
      (o : Option Str) (s : Journaling W)
      → s.fence_lost ≡ o
      → (flush_as journal f o s).0.fence_lost ≡ none
      → o ≡ none
  flush_as-owned none s h k = refl
  flush_as-owned (some why) s h k = sym h ∙ k

  flush_as-state :
      (o : Option Str) (s : Journaling W)
      → (flush_as journal f o s).0.machine.state ≡ s.machine.state
  unfolding drain_machine confirm_journaled
  flush_as-state none s = refl
  flush_as-state (some why) s = refl

  flush_as-table :
      (o : Option Str) (s : Journaling W)
      → (flush_as journal f o s).0.machine.table ≡ s.machine.table
  unfolding drain_machine confirm_journaled
  flush_as-table none s = refl
  flush_as-table (some why) s = refl

  flush_as-lost :
      (o : Option Str) (s : Journaling W) (why : Str)
      → (flush_as journal f o s).1 ≡ lost why
      → ((flush_as journal f o s).0.fence_lost ≡ some why)
        × (is_empty (flush_as journal f o s).0.outbox ≡ false)
  unfolding is_empty
  flush_as-lost none s why h = (
    ap loss h,
    flush_pending-lost journal f (drain_machine s.machine s.outbox).1.pending s.world why h,
  )
  flush_as-lost (some reason) s why h = absurd (ground arith)

  flush_as-Continues :
      (o : Option Str) (s : Journaling W)
      → o ≡ none
      → let s' = (flush_as journal f o s).0 in
        (w : W)
        → Acknowledges journal f s'.outbox.pending s'.world w
        → Acknowledges journal f (drain_machine s.machine s.outbox).1.pending s.world w
  flush_as-Continues none s h w k =
      flush_pending-Continues journal f (drain_machine s.machine s.outbox).1.pending s.world w k
  flush_as-Continues (some why) s h w k = absurd (ground arith)

  flush_as-drained :
      (o : Option Str) (s : Journaling W)
      → o ≡ none
      → let s' = (flush_as journal f o s).0 in (drain_machine s'.machine s'.outbox).1 ≡ s'.outbox
  flush_as-drained none s h =
      drain_machine-none (drain_machine s.machine s.outbox).0 _
        (drain_machine-facts s.machine s.outbox).0
  flush_as-drained (some why) s h = absurd (ground arith)

-- What a run has to send: what waits in its outbox, and what its machine has not handed over.
abbrev pub unsent : {W Early : Type 0} → Run W Early → List OutboxEntry
unsent r = (drain_machine r.machine r.outbox).1.pending

module _ {W Early : Type 0} (journal : RunFence → OutboxEntry → W → W × Appended)
    (r : Run W Early) where
  abbrev journaling : Journaling W
  journaling = record {
    machine = r.machine;
    outbox = r.outbox;
    fence_lost = r.scope.fence_lost;
    world = r.world;
  }

  -- A run that holds its fence after a tick held it before.
  pub tick-owned : (tick journal r).0.scope.fence_lost ≡ none → r.scope.fence_lost ≡ none
  unfolding tick flush_journal
  tick-owned k = flush_as-owned journal r.fence r.scope.fence_lost journaling refl k

  pub tick-table : (tick journal r).0.machine.table ≡ r.machine.table
  unfolding tick flush_journal
  tick-table = flush_as-table journal r.fence r.scope.fence_lost journaling

  -- A tick that is told of a loss records it, and the outbox is not empty then.
  pub tick-lost :
      (why : Str)
      → (tick journal r).1 ≡ lost why
      → ((tick journal r).0.scope.fence_lost ≡ some why)
        × (is_empty (tick journal r).0.outbox ≡ false)
  unfolding tick flush_journal
  tick-lost why h = flush_as-lost journal r.fence r.scope.fence_lost journaling why h

  pub tick-state : (tick journal r).0.machine.state ≡ r.machine.state
  unfolding tick flush_journal
  tick-state = flush_as-state journal r.fence r.scope.fence_lost journaling

  -- What is acknowledged after a tick makes all that waited before acknowledged.
  pub tick-Acknowledges :
      (w : W)
      → r.scope.fence_lost ≡ none
      → Acknowledges journal r.fence (tick journal r).0.outbox.pending (tick journal r).0.world w
      → Acknowledges journal r.fence (unsent r) r.world w
  unfolding tick flush_journal
  tick-Acknowledges w h k = flush_as-Continues journal r.fence r.scope.fence_lost journaling h w k

  -- A second tick finds what the first left.
  pub unsent-tick :
      r.scope.fence_lost ≡ none → unsent (tick journal r).0 ≡ (tick journal r).0.outbox.pending
  unfolding tick flush_journal
  unsent-tick h =
      ap (λ o. o.pending) (flush_as-drained journal r.fence r.scope.fence_lost journaling h)
