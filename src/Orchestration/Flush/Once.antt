-- ===== src/Orchestration/Flush/Once.antt =====
-- orchestration/run.ts, `#flushJournal`: what the journal holds after any flushes of an outbox.
use secure_home_agent_platfo.Prelude.{
  ◌≡◌, ◌⊎◌, inl, inr, refl, sym, ap, subst, ◌∙◌, ℕ, true, false, none, some, List, [], ◌∷◌, ◌++◌,
  append_assoc, Str, arith,
}
use secure_home_agent_platfo.Prelude.Maps
use secure_home_agent_platfo.RunState.Fence.{
  RunFence, FenceOutcome, ok, not_ok, outcome, stale_fence, conflicting_replay, FenceReason,
}
use secure_home_agent_platfo.RunState.Journal
use secure_home_agent_platfo.RunState.Journal.{Fact, JournalPage, RunJournal, blank, land, page_of}
use secure_home_agent_platfo.RunState.Journal.Replay.{
  append_of_refused, append_of_landed, append_of_fresh,
}
use secure_home_agent_platfo.RunState.Outbox.{OutboxEntry, Numbered}
use secure_home_agent_platfo.Orchestration.Flush.{
  Appended, answered, threw, controlled, Flushed, Flushing, flush_pending, Delivery, acknowledged,
  errs, send,
}
use secure_home_agent_platfo.Orchestration.Flush.Landing.{
  land_entry, landing, landing-append, Lacks, Numbered-Lacks, seen-landing, seen-land_entry, Holds,
  landed_next,
}

-- What an append does to the page of its run: the page still holds what it should, and an acknowledged
-- append has landed.
abbrev Sent :
    RunFence
    → List OutboxEntry
    → OutboxEntry
    → List OutboxEntry
    → RunJournal × FenceOutcome
    → Type 0
Sent f popped e es (j, answer) =
    Holds popped (e ∷ es) (page_of f.run_id j)
    × (answer ≡ ok → page_of f.run_id j ≡ landing (popped ++ e ∷ []) blank)

FenceOutcome-cases :
    (o : FenceOutcome) → (o ≡ ok) ⊎ ((why : FenceReason) × (detail : Str) × (o ≡ not_ok why detail))
FenceOutcome-cases ok = inl refl
FenceOutcome-cases (not_ok why detail) = inr (why, detail, refl)

module _ (f : RunFence) (popped : List OutboxEntry) (e : OutboxEntry) (es : List OutboxEntry)
    (j : RunJournal) where
  append_of_waiting :
      Lacks e.entry_id popped
      → (outcome f j.fence).1 ≡ ok
      → page_of f.run_id j ≡ landing popped blank
      → Sent f popped e es (Journal.append f e.entry_id e.fact j)
  unfolding land_entry Maps.get
  append_of_waiting l served h =
      let absent : Maps.get e.entry_id (page_of f.run_id j).seen ≡ none =
        rw h (seen-landing e.entry_id popped blank l) in
      let (page, answer) = append_of_fresh f e.entry_id e.fact j served absent in
      let page' = page ∙ landed_next popped e (page_of f.run_id j) h in
      (inr (e, es, refl, page'), λ q. page')

  append_of_unacknowledged :
      (outcome f j.fence).1 ≡ ok
      → page_of f.run_id j ≡ landing (popped ++ e ∷ []) blank
      → Sent f popped e es (Journal.append f e.entry_id e.fact j)
  unfolding landing
  append_of_unacknowledged served h =
      let there : Maps.get e.entry_id (page_of f.run_id j).seen ≡ some e.fact =
        rw (h, landing-append popped (e ∷ []) blank) (seen-land_entry e (landing popped blank)) in
      let (page, answer) = append_of_landed f e.entry_id e.fact j served there in
      let page' = page ∙ h in (inr (e, es, refl, page'), λ q. page')

  append-Sent :
      Lacks e.entry_id popped
      → Holds popped (e ∷ es) (page_of f.run_id j)
      → Sent f popped e es (Journal.append f e.entry_id e.fact j)
  append-Sent l h = elim (FenceOutcome-cases (outcome f j.fence).1) [
    | inr (why, detail, refused) ↦
        let (page, answer) = append_of_refused f e.entry_id e.fact j why detail refused in
        (subst (Holds popped (e ∷ es)) (sym page) h, λ q. absurd (ground arith))
    | inl served ↦ elim h [
      | inl waiting ↦ append_of_waiting l served waiting
      | inr (e', es', same, there) ↦
          append_of_unacknowledged served (there ∙ ap (λ x. landing (popped ++ x ∷ []) blank) (cc))
    ]
  ]

-- The same of what is sent on its way to the journal and back.
abbrev SentVia :
    RunFence
    → List OutboxEntry
    → OutboxEntry
    → List OutboxEntry
    → (RunJournal × List Delivery) × Appended
    → Type 0
SentVia f popped e es (w, a) =
    Holds popped (e ∷ es) (page_of f.run_id w.0)
    × (a ≡ answered ok → page_of f.run_id w.0 ≡ landing (popped ++ e ∷ []) blank)

send-SentVia :
    (f : RunFence) (popped : List OutboxEntry) (e : OutboxEntry) (es : List OutboxEntry)
    (j : RunJournal) (ds : List Delivery)
    → Lacks e.entry_id popped
    → Holds popped (e ∷ es) (page_of f.run_id j)
    → SentVia f popped e es (send f e (j, ds))
unfolding send
send-SentVia f popped e es j [] l h =
    let (holds, took) = append-Sent f popped e es j l h in (holds, λ a. took (ground arith))
send-SentVia f popped e es j (acknowledged ∷ ds) l h =
    let (holds, took) = append-Sent f popped e es j l h in (holds, λ a. took (ground arith))
send-SentVia f popped e es j (errs true true ∷ ds) l h =
    ((append-Sent f popped e es j l h).0, λ a. absurd (ground arith))
send-SentVia f popped e es j (errs true false ∷ ds) l h =
    ((append-Sent f popped e es j l h).0, λ a. absurd (ground arith))
send-SentVia f popped e es j (errs false true ∷ ds) l h = (h, λ a. absurd (ground arith))
send-SentVia f popped e es j (errs false false ∷ ds) l h = (h, λ a. absurd (ground arith))

-- What a flush leaves: the entries that it popped are the first of those that waited.
abbrev pub Flushes : RunFence → List OutboxEntry → Flushing (RunJournal × List Delivery) → Type 0
Flushes f all r =
    (popped : List OutboxEntry) × (popped ++ r.pending ≡ all)
    × Holds popped r.pending (page_of f.run_id r.world.0)

pub flush_pending-Flushes :
    (f : RunFence) (prefix : Str) (m : ℕ) (popped es : List OutboxEntry) (j : RunJournal)
    (ds : List Delivery)
    → Numbered prefix 0 (popped ++ es) m
    → Holds popped es (page_of f.run_id j)
    → Flushes f (popped ++ es) (flush_pending send f es (j, ds))
unfolding flush_pending
flush_pending-Flushes f prefix m popped [] j ds n h = (popped, refl, h)
flush_pending-Flushes f prefix m popped (e ∷ es) j ds n h =
    on_answer (send f e (j, ds))
      (send-SentVia f popped e es j ds (Numbered-Lacks prefix 0 popped e es m n) h)
      (λ w.
        flush_pending-Flushes f prefix m (popped ++ e ∷ []) es w.0 w.1
          (subst (λ l. Numbered prefix 0 l m) (sym (append_assoc popped (e ∷ []) es)) n))
  where
    on_answer :
        (p : (RunJournal × List Delivery) × Appended)
        → SentVia f popped e es p
        → ((w : RunJournal × List Delivery)
            → Holds (popped ++ e ∷ []) es (page_of f.run_id w.0)
            → Flushes f ((popped ++ e ∷ []) ++ es) (flush_pending send f es w))
        → Flushes f (popped ++ e ∷ es) (elim p.1 [
          | answered ok ↦ flush_pending send f es p.0
          | answered (not_ok conflicting_replay detail) ↦ record {
            pending = e ∷ es;
            world = p.0;
            ended = Flushed.conflicting;
          }
          | answered (not_ok stale_fence detail) ↦ record {
            pending = e ∷ es;
            world = p.0;
            ended = Flushed.lost detail;
          }
          | threw ↦ record { pending = e ∷ es; world = p.0; ended = Flushed.failed }
          | controlled ↦ record { pending = e ∷ es; world = p.0; ended = Flushed.rethrown }
        ])
    on_answer (w, answered ok) (holds, took) more =
        subst (λ l. Flushes f l (flush_pending send f es w)) (append_assoc popped (e ∷ []) es)
          (more w (inl (took refl)))
    on_answer (w, answered (not_ok conflicting_replay detail)) (holds, took) more =
        (popped, refl, holds)
    on_answer (w, answered (not_ok stale_fence detail)) (holds, took) more = (popped, refl, holds)
    on_answer (w, threw) (holds, took) more = (popped, refl, holds)
    on_answer (w, controlled) (holds, took) more = (popped, refl, holds)
