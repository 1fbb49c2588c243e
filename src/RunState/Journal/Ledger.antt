-- ===== src/RunState/Journal/Ledger.antt =====
-- run-state/in-memory.ts, `InMemoryRunJournal`: the page of a run and its replay ledger.
use secure_home_agent_platfo.Prelude.{
  ◌≡◌, refl, ap, ◌∙◌, none, some, List, [], ◌∷◌, ◌++◌, map, ite, Str, Str-discrete, arith,
  append-nil, Option-cases, inl, inr, ◌⊎◌, ite-cases,
}
use secure_home_agent_platfo.Prelude.Maps
use secure_home_agent_platfo.Prelude.Maps.{Map, get-set}
use secure_home_agent_platfo.Lifecycle.Machine.{TransitionEntry, RejectionEntry}
use secure_home_agent_platfo.RunState.Fence.{
  RunFence, FenceLedger, FenceOutcome, FenceReason, ok, not_ok, refuse, outcome,
}
use secure_home_agent_platfo.RunState.Journal.{
  Fact, Fact-discrete, transition, rejection, acquisition, hold, StoredTransition, JournalPage,
  RunJournal, JournaledAcquisition, page_of, write_page, classify, replay, conflict, land, settle,
  classify_as, answered, stage_on, append, stage_transitions, under, without_commit, abandon,
}

abbrev pub transitions_in : Map Fact → List TransitionEntry
transitions_in [] = []
transitions_in ((k, transition e) ∷ m) = e ∷ transitions_in m
transitions_in ((k, rejection r) ∷ m) = transitions_in m
transitions_in ((k, acquisition a) ∷ m) = transitions_in m
transitions_in ((k, hold h) ∷ m) = transitions_in m

abbrev pub rejections_in : Map Fact → List RejectionEntry
rejections_in [] = []
rejections_in ((k, rejection r) ∷ m) = r ∷ rejections_in m
rejections_in ((k, transition e) ∷ m) = rejections_in m
rejections_in ((k, acquisition a) ∷ m) = rejections_in m
rejections_in ((k, hold h) ∷ m) = rejections_in m

abbrev pub acquisitions_in : Map Fact → List JournaledAcquisition
acquisitions_in [] = []
acquisitions_in ((k, acquisition a) ∷ m) = a ∷ acquisitions_in m
acquisitions_in ((k, transition e) ∷ m) = acquisitions_in m
acquisitions_in ((k, rejection r) ∷ m) = acquisitions_in m
acquisitions_in ((k, hold h) ∷ m) = acquisitions_in m

-- The rows that were appended, not staged.
abbrev pub ordinary : List StoredTransition → List TransitionEntry
ordinary [] = []
ordinary (row ∷ rows) =
    let rest = ordinary rows in elim row.commit_id [ none ↦ row.entry ∷ rest | some c ↦ rest ]

pub record IsDerived (page : JournalPage) : Type 0 where
  pub transitions : ordinary page.transitions ≡ transitions_in page.seen
  pub rejections : page.rejections ≡ rejections_in page.seen
  pub acquisitions : page.acquisitions ≡ acquisitions_in page.seen

set_of_absent :
    (k : Str) (f : Fact) (m : Map Fact) → Maps.get k m ≡ none → Maps.set k f m ≡ m ++ (k, f) ∷ []
unfolding Maps.get Maps.set
set_of_absent k f [] h = refl
set_of_absent k f ((j, g) ∷ m) h = ground (arith, set_of_absent k f m)

transitions_in-append :
    (m n : Map Fact) → transitions_in (m ++ n) ≡ transitions_in m ++ transitions_in n
transitions_in-append [] n = refl
transitions_in-append ((k, transition e) ∷ m) n = ap (◌∷◌ e) (transitions_in-append m n)
transitions_in-append ((k, rejection r) ∷ m) n = transitions_in-append m n
transitions_in-append ((k, acquisition a) ∷ m) n = transitions_in-append m n
transitions_in-append ((k, hold h) ∷ m) n = transitions_in-append m n

rejections_in-append :
    (m n : Map Fact) → rejections_in (m ++ n) ≡ rejections_in m ++ rejections_in n
rejections_in-append [] n = refl
rejections_in-append ((k, rejection r) ∷ m) n = ap (◌∷◌ r) (rejections_in-append m n)
rejections_in-append ((k, transition e) ∷ m) n = rejections_in-append m n
rejections_in-append ((k, acquisition a) ∷ m) n = rejections_in-append m n
rejections_in-append ((k, hold h) ∷ m) n = rejections_in-append m n

acquisitions_in-append :
    (m n : Map Fact) → acquisitions_in (m ++ n) ≡ acquisitions_in m ++ acquisitions_in n
acquisitions_in-append [] n = refl
acquisitions_in-append ((k, acquisition a) ∷ m) n = ap (◌∷◌ a) (acquisitions_in-append m n)
acquisitions_in-append ((k, transition e) ∷ m) n = acquisitions_in-append m n
acquisitions_in-append ((k, rejection r) ∷ m) n = acquisitions_in-append m n
acquisitions_in-append ((k, hold h) ∷ m) n = acquisitions_in-append m n

pub ordinary-append :
    (rows more : List StoredTransition) → ordinary (rows ++ more) ≡ ordinary rows ++ ordinary more
ordinary-append [] more = refl
ordinary-append (row ∷ rows) more = ground (arith, ordinary-append rows more)

ordinary-under : (c : Str) (es : List TransitionEntry) → ordinary (map (under c) es) ≡ []
unfolding under
ordinary-under c [] = refl
ordinary-under c (e ∷ es) = ordinary-under c es

ordinary-without_commit :
    (c : Str) (rows : List StoredTransition) → ordinary (without_commit c rows) ≡ ordinary rows
unfolding without_commit
ordinary-without_commit c [] = refl
ordinary-without_commit c (row ∷ rows) = ground (arith, ordinary-without_commit c rows)

land-IsDerived :
    (id : Str) (f : Fact) (page : JournalPage)
    → Maps.get id page.seen ≡ none
    → IsDerived page
    → IsDerived (land f (record page { seen = Maps.set id f page.seen }))
unfolding land
land-IsDerived id (transition e) page h d =
    rw (set_of_absent id (transition e) page.seen h) (record {
      transitions = ground (
        arith,
        ordinary-append page.transitions (record { entry = e; commit_id = none } ∷ []),
        transitions_in-append page.seen ((id, transition e) ∷ []),
        d.transitions,
      );
      rejections = ground (
        arith,
        rejections_in-append page.seen ((id, transition e) ∷ []),
        d.rejections,
        append-nil (rejections_in page.seen),
      );
      acquisitions = ground (
        arith,
        acquisitions_in-append page.seen ((id, transition e) ∷ []),
        d.acquisitions,
        append-nil (acquisitions_in page.seen),
      );
    })
land-IsDerived id (rejection r) page h d = rw (set_of_absent id (rejection r) page.seen h) (record {
  transitions = ground (
    arith,
    transitions_in-append page.seen ((id, rejection r) ∷ []),
    d.transitions,
    append-nil (transitions_in page.seen),
  );
  rejections =
      ground (arith, rejections_in-append page.seen ((id, rejection r) ∷ []), d.rejections);
  acquisitions = ground (
    arith,
    acquisitions_in-append page.seen ((id, rejection r) ∷ []),
    d.acquisitions,
    append-nil (acquisitions_in page.seen),
  );
})
land-IsDerived id (acquisition a) page h d =
    rw (set_of_absent id (acquisition a) page.seen h) (record {
      transitions = ground (
        arith,
        transitions_in-append page.seen ((id, acquisition a) ∷ []),
        d.transitions,
        append-nil (transitions_in page.seen),
      );
      rejections = ground (
        arith,
        rejections_in-append page.seen ((id, acquisition a) ∷ []),
        d.rejections,
        append-nil (rejections_in page.seen),
      );
      acquisitions =
          ground
            (arith, acquisitions_in-append page.seen ((id, acquisition a) ∷ []), d.acquisitions);
    })
land-IsDerived id (hold r) page h d = rw (set_of_absent id (hold r) page.seen h) (record {
  transitions = ground (
    arith,
    transitions_in-append page.seen ((id, hold r) ∷ []),
    d.transitions,
    append-nil (transitions_in page.seen),
  );
  rejections = ground (
    arith,
    rejections_in-append page.seen ((id, hold r) ∷ []),
    d.rejections,
    append-nil (rejections_in page.seen),
  );
  acquisitions = ground (
    arith,
    acquisitions_in-append page.seen ((id, hold r) ∷ []),
    d.acquisitions,
    append-nil (acquisitions_in page.seen),
  );
})

settle-IsDerived :
    (id : Str) (f : Fact) (page : JournalPage)
    → IsDerived page
    → IsDerived (settle id f (classify id f page)).0
unfolding settle classify classify_as
settle-IsDerived id f page d = elim (Option-cases (Maps.get id page.seen)) [
  | inl e ↦ rw e (land-IsDerived id f page e d)
  | inr (g, e) ↦ rw e (
      ite-cases (Fact-discrete g f) (λ c. IsDerived (settle id f (page, c)).0) replay conflict
        (λ _. d) (λ _. d))
]

pub page_of-write_page :
    (r k : Str) (page : JournalPage) (j : RunJournal)
    → page_of k (write_page r page j) ≡ ite (Str-discrete r k) page (page_of k j)
unfolding page_of write_page
page_of-write_page r k page j = ground (arith, get-set r k page j.pages)

-- Every page of the journal holds the facts of its ledger.
abbrev pub Inv : RunJournal → Type 0
Inv j = (k : Str) → IsDerived (page_of k j)

write_page-Inv :
    (r : Str) (page : JournalPage) (j : RunJournal)
    → IsDerived page
    → Inv j
    → Inv (write_page r page j)
write_page-Inv r page j d h k =
    rw (page_of-write_page r k page j)
      (ite-cases (Str-discrete r k) IsDerived page (page_of k j) (λ _. d) (λ _. h k))

refence-Inv : (fence : FenceLedger) (j : RunJournal) → Inv j → Inv (record j { fence = fence })
unfolding page_of
refence-Inv fence j h = h

pub FenceOutcome-cases :
    (o : FenceOutcome)
    → (o ≡ ok) ⊎ ((why : FenceReason) × ((detail : Str) × (o ≡ not_ok why detail)))
FenceOutcome-cases ok = inl refl
FenceOutcome-cases (not_ok why detail) = inr (why, (detail, refl))

append-Inv : (f : RunFence) (id : Str) (x : Fact) (j : RunJournal) → Inv j → Inv (append f id x j).0
unfolding append answered
append-Inv f id x j h =
    let fence = (outcome f j.fence).0 in
    elim (FenceOutcome-cases (outcome f j.fence).1) [
      | inl e ↦ rw e (
          write_page-Inv f.run_id (settle id x (classify id x (page_of f.run_id j))).0
            (record j { fence = fence }) (settle-IsDerived id x (page_of f.run_id j) (h f.run_id))
            (refence-Inv fence j h))
      | inr (why, (detail, e)) ↦ rw e (refence-Inv fence j h)
    ]

stage-IsDerived :
    (c : Str) (es : List TransitionEntry) (page : JournalPage)
    → IsDerived page
    → IsDerived (record page { transitions = page.transitions ++ map (under c) es })
stage-IsDerived c es page d = record {
  transitions = ground (
    arith,
    ordinary-append page.transitions (map (under c) es),
    ordinary-under c es,
    append-nil (ordinary page.transitions),
    d.transitions,
  );
  rejections = d.rejections;
  acquisitions = d.acquisitions;
}

stage-Inv :
    (f : RunFence) (c : Str) (es : List TransitionEntry) (j : RunJournal)
    → Inv j
    → Inv (stage_transitions f c es j).0
unfolding stage_transitions stage_on
stage-Inv f c es j h =
    let fence = (refuse f j.fence).0 in
    let page = page_of f.run_id j in
    elim (Option-cases (refuse f j.fence).1) [
      | inl e ↦ rw e (
          write_page-Inv f.run_id
            (record page { transitions = page.transitions ++ map (under c) es })
            (record j { fence = fence }) (stage-IsDerived c es page (h f.run_id))
            (refence-Inv fence j h))
      | inr (detail, e) ↦ rw e (refence-Inv fence j h)
    ]

abandon-Inv : (r c : Str) (j : RunJournal) → Inv j → Inv (abandon r c j)
unfolding abandon
abandon-Inv r c j h =
    write_page-Inv r _ j
      (record {
        transitions = ordinary-without_commit c (page_of r j).transitions ∙ (h r).transitions;
        rejections = (h r).rejections;
        acquisitions = (h r).acquisitions;
      })
      h

-- What the clients of a journal ask of it.
pub data Call : Type 0 where
  appends : RunFence → Str → Fact → Call
  stages : RunFence → Str → List TransitionEntry → Call
  abandons : Str → Str → Call

abbrev pub step : Call → RunJournal → RunJournal
step (appends f id x) j = (append f id x j).0
step (stages f c es) j = (stage_transitions f c es j).0
step (abandons r c) j = abandon r c j

abbrev pub run : List Call → RunJournal → RunJournal
run [] j = j
run (c ∷ cs) j = run cs (step c j)

step-Inv : (c : Call) (j : RunJournal) → Inv j → Inv (step c j)
step-Inv (appends f id x) j h = append-Inv f id x j h
step-Inv (stages f c es) j h = stage-Inv f c es j h
step-Inv (abandons r c) j h = abandon-Inv r c j h

run-Inv : (cs : List Call) (j : RunJournal) → Inv j → Inv (run cs j)
run-Inv [] j h = h
run-Inv (c ∷ cs) j h = run-Inv cs (step c j) (step-Inv c j h)

abbrev pub no_journal : RunJournal
no_journal = record { pages = []; fence = record { high = [] } }

-- After any sequence of appends, stagings and abandonments on an empty journal, the page of each run
-- holds, in the order in which they first landed and once each, exactly the facts of its replay
-- ledger: the rows that were not staged are the ledger's transitions, the rejections its rejections
-- and the acquisitions its acquisitions.
pub run-no_journal-IsDerived :
    (cs : List Call) (k : Str) → IsDerived (page_of k (run cs no_journal))
unfolding page_of Maps.get
run-no_journal-IsDerived cs k =
    run-Inv cs no_journal
      (λ r. record { transitions = refl; rejections = refl; acquisitions = refl }) k
