-- ===== src/Orchestration/Flush/History.antt =====
-- orchestration/run.ts, `journalTick` and the outbox: a history of recorded facts and of flushes.
use secure_home_agent_platfo.Prelude.{
  ◌≡◌, inl, inr, refl, sym, ap, subst, ◌∙◌, suc, Option, none, some, List, [], ◌∷◌, ◌++◌, map,
  append_assoc, append-nil, Str,
}
use mathlib.Core.List.{map-append}
use secure_home_agent_platfo.Lifecycle.Machine.{RunMachine, pending_journal}
use secure_home_agent_platfo.RunState.Fence.{RunFence}
use secure_home_agent_platfo.RunState.Journal.{
  Fact, JournalPage, RunJournal, blank, page_of, transition, rejection,
}
use secure_home_agent_platfo.RunState.Outbox
use secure_home_agent_platfo.RunState.Outbox.{
  OutboxEntry, JournalOutbox, Numbered, Numbered-append, identity, enqueue, enqueue_all,
  drain_machine,
}
use secure_home_agent_platfo.Orchestration.Flush.{
  Journaling, flush_pending, flush_as, flush_journal, Delivery, send,
}
use secure_home_agent_platfo.Orchestration.Flush.Landing.{landing, Holds}
use secure_home_agent_platfo.Orchestration.Flush.Once.{flush_pending-Flushes}

abbrev pub facts : List OutboxEntry → List Fact
facts es = map (λ e. e.fact) es

-- The entries that left an outbox and those that wait are the recorded facts in their order, each under
-- the next identity; and the page holds those that left, and at most the first that waits.
pub record Keeps (recorded : List Fact) (o : JournalOutbox) (page : JournalPage) : Type 0 where
  pub popped : List OutboxEntry
  pub all : facts (popped ++ o.pending) ≡ recorded
  pub numbered : Numbered o.prefix 0 (popped ++ o.pending) o.minted
  pub holds : Holds popped o.pending page

Holds-append :
    (popped es fs : List OutboxEntry) (page : JournalPage)
    → Holds popped es page
    → Holds popped (es ++ fs) page
Holds-append popped es fs page (inl h) = inl h
Holds-append popped es fs page (inr (e, es', same, h)) =
    inr (e, es' ++ fs, ap (λ l. l ++ fs) same, h)

enqueue-Keeps :
    (x : Fact) (recorded : List Fact) (o : JournalOutbox) (page : JournalPage)
    → Keeps recorded o page
    → Keeps (recorded ++ x ∷ []) (enqueue x o) page
unfolding enqueue
enqueue-Keeps x recorded o page k =
    let e : OutboxEntry = record { entry_id = identity o.prefix (suc o.minted); fact = x } in
    let assoc = append_assoc k.popped o.pending (e ∷ []) in
    record {
      popped = k.popped;
      all =
          ap facts (sym assoc)
          ∙ (map-append (λ e. e.fact) (k.popped ++ o.pending) (e ∷ [])
              ∙ ap (λ l. l ++ x ∷ []) k.all);
      numbered =
          subst (λ l. Numbered o.prefix 0 l (suc o.minted)) assoc
            (Numbered-append o.prefix 0 (k.popped ++ o.pending) o.minted e k.numbered refl);
      holds = Holds-append k.popped o.pending (e ∷ []) page k.holds;
    }

enqueue_all-Keeps :
    (xs recorded : List Fact) (o : JournalOutbox) (page : JournalPage)
    → Keeps recorded o page
    → Keeps (recorded ++ xs) (enqueue_all xs o) page
unfolding enqueue_all
enqueue_all-Keeps [] recorded o page k = subst (λ l. Keeps l o page) (sym (append-nil recorded)) k
enqueue_all-Keeps (x ∷ xs) recorded o page k =
    subst (λ l. Keeps l (enqueue_all xs (enqueue x o)) page) (append_assoc recorded (x ∷ []) xs)
      (enqueue_all-Keeps xs (recorded ++ x ∷ []) (enqueue x o) page
        (enqueue-Keeps x recorded o page k))

-- What draining the machine records.
abbrev pub drained : RunMachine → List Fact
drained m = map transition (pending_journal m).0 ++ map rejection (pending_journal m).1

drain_machine-Keeps :
    (m : RunMachine) (recorded : List Fact) (o : JournalOutbox) (page : JournalPage)
    → Keeps recorded o page
    → Keeps (recorded ++ drained m) (drain_machine m o).1 page
unfolding drain_machine
drain_machine-Keeps m recorded o page k =
    let ts = map transition (pending_journal m).0 in
    let rs = map rejection (pending_journal m).1 in
    subst (λ l. Keeps l (drain_machine m o).1 page) (append_assoc recorded ts rs)
      (enqueue_all-Keeps rs (recorded ++ ts) (enqueue_all ts o) page
        (enqueue_all-Keeps ts recorded o page k))

flush_pending-Keeps :
    (f : RunFence) (recorded : List Fact) (o : JournalOutbox) (j : RunJournal) (ds : List Delivery)
    → Keeps recorded o (page_of f.run_id j)
    → let r = flush_pending send f o.pending (j, ds) in
      Keeps recorded (record o { pending = r.pending }) (page_of f.run_id r.world.0)
flush_pending-Keeps f recorded o j ds k =
    let (popped, same, holds) =
      flush_pending-Flushes f o.prefix o.minted k.popped o.pending j ds k.numbered k.holds in
    record {
      popped = popped;
      all = ap facts same ∙ k.all;
      numbered = subst (λ l. Numbered o.prefix 0 l o.minted) (sym same) k.numbered;
      holds = holds;
    }

-- A run that records a fact, or flushes its journal with the machine as it then is, on the given way.
pub data Action : Type 0 where
  records : Fact → Action
  flushes : RunMachine → List Delivery → Action

pub record Recording : Type 0 where
  pub outbox : JournalOutbox
  pub fence_lost : Option Str
  pub journal : RunJournal

unfoldable pub act : RunFence → Action → Recording → Recording
unfolding flush_journal
act f (records x) s = record s { outbox = enqueue x s.outbox }
act f (flushes m ds) s =
    let s' =
      (flush_journal send f (record {
        machine = m;
        outbox = s.outbox;
        fence_lost = s.fence_lost;
        world = (s.journal, ds);
      })).0 in
    record { outbox = s'.outbox; fence_lost = s'.fence_lost; journal = s'.world.0 }

abbrev pub noted : Action → Option Str → List Fact
noted (records x) lost = x ∷ []
noted (flushes m ds) none = drained m
noted (flushes m ds) (some why) = []

-- The state after the actions, and the facts that they recorded.
unfoldable pub run : RunFence → List Action → Recording → Recording × List Fact
run f [] s = (s, [])
run f (a ∷ as') s = let (s', xs) = run f as' (act f a s) in (s', noted a s.fence_lost ++ xs)

flush_as-Keeps :
    (f : RunFence) (lost : Option Str) (s : Journaling (RunJournal × List Delivery))
    (recorded : List Fact)
    → Keeps recorded s.outbox (page_of f.run_id s.world.0)
    → let s' = (flush_as send f lost s).0 in
      Keeps
        (recorded ++ noted (flushes s.machine s.world.1) lost)
        s'.outbox
        (page_of f.run_id s'.world.0)
flush_as-Keeps f (some why) s recorded k =
    subst (λ l. Keeps l s.outbox (page_of f.run_id s.world.0)) (sym (append-nil recorded)) k
flush_as-Keeps f none s recorded k =
    flush_pending-Keeps f (recorded ++ drained s.machine) (drain_machine s.machine s.outbox).1
      s.world.0 s.world.1
      (drain_machine-Keeps s.machine recorded s.outbox (page_of f.run_id s.world.0) k)

act-Keeps :
    (f : RunFence) (a : Action) (s : Recording) (recorded : List Fact)
    → Keeps recorded s.outbox (page_of f.run_id s.journal)
    → Keeps
        (recorded ++ noted a s.fence_lost)
        (act f a s).outbox
        (page_of f.run_id (act f a s).journal)
unfolding act flush_journal
act-Keeps f (records x) s recorded k =
    enqueue-Keeps x recorded s.outbox (page_of f.run_id s.journal) k
act-Keeps f (flushes m ds) s recorded k =
    flush_as-Keeps f s.fence_lost
      (record {
        machine = m;
        outbox = s.outbox;
        fence_lost = s.fence_lost;
        world = (s.journal, ds);
      })
      recorded k

run-Keeps :
    (f : RunFence) (as' : List Action) (s : Recording) (recorded : List Fact)
    → Keeps recorded s.outbox (page_of f.run_id s.journal)
    → let (s', xs) = run f as' s in Keeps (recorded ++ xs) s'.outbox (page_of f.run_id s'.journal)
unfolding run
run-Keeps f [] s recorded k = rw (append-nil recorded) k
run-Keeps f (a ∷ as') s recorded k =
    let (s', ys) = run f as' (act f a s) in
    subst (λ l. Keeps l s'.outbox (page_of f.run_id s'.journal))
      (append_assoc recorded (noted a s.fence_lost) ys)
      (run-Keeps f as' (act f a s) (recorded ++ noted a s.fence_lost) (act-Keeps f a s recorded k))

-- Every fact that a run records lands in the journal at most once, and in the order of recording,
-- however often appends are sent again because they or their acknowledgements were lost: from an empty
-- outbox and a run that the journal does not know, whatever is recorded and flushed, the page of the
-- run holds exactly the facts that have left the outbox, each once, and at most the first that still
-- waits; and those that left and those that wait are all that was recorded.
pub run-new-Keeps :
    (f : RunFence) (prefix : Str) (j : RunJournal) (as' : List Action)
    → page_of f.run_id j ≡ blank
    → let (s, recorded) =
        run f as' (record { outbox = Outbox.new prefix; fence_lost = none; journal = j }) in
      Keeps recorded s.outbox (page_of f.run_id s.journal)
unfolding Outbox.new landing
run-new-Keeps f prefix j as' h =
    run-Keeps f as' (record { outbox = Outbox.new prefix; fence_lost = none; journal = j }) []
      (record { popped = []; all = refl; numbered = refl; holds = inl h })
