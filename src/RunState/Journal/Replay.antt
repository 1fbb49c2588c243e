-- ===== src/RunState/Journal/Replay.antt =====
-- run-state/in-memory.ts, `InMemoryRunJournal`: what becomes of an append that is sent again.
use secure_home_agent_platfo.Prelude.{
  ◌≡◌, refl, ap, subst, ◌∙◌, none, some, ite, if_pos, Str, Str-discrete, arith, Option-cases, inl,
  inr,
}
use secure_home_agent_platfo.Prelude.Maps
use secure_home_agent_platfo.Prelude.Maps.{get-set_self}
use secure_home_agent_platfo.RunState.Fence.{
  RunFence, FenceLedger, FenceReason, FenceOutcome, ok, not_ok, refuse, outcome, conflicting_replay,
}
use secure_home_agent_platfo.RunState.Journal.{
  Fact, Fact-discrete, JournalPage, RunJournal, transition, rejection, acquisition, hold, page_of,
  write_page, classify, classify_as, land, settle, answered, append, conflict_detail, replay,
  conflict,
}
use secure_home_agent_platfo.RunState.Journal.Ledger.{page_of-write_page}

-- What a page answers to a fact under an identity that holds another.
abbrev pub again : Str → Fact → Fact → FenceOutcome
again id landed fact =
    ite (Fact-discrete landed fact) ok (not_ok conflicting_replay (conflict_detail id))

pub seen-land : (x : Fact) (page : JournalPage) → (land x page).seen ≡ page.seen
unfolding land
seen-land (transition e) page = refl
seen-land (rejection r) page = refl
seen-land (acquisition a) page = refl
seen-land (hold h) page = refl

settle_verdict :
    (id : Str) (x y : Fact) (page : JournalPage) (d : Dec (x ≡ y))
    → settle id y (page, ite d replay conflict)
      ≡ (page, ite d ok (not_ok conflicting_replay (conflict_detail id)))
unfolding settle
settle_verdict id x y page (yes p) = refl
settle_verdict id x y page (no n) = refl

settle-ok :
    (id : Str) (x y : Fact) (page : JournalPage) (d : Dec (x ≡ y))
    → (settle id y (page, ite d replay conflict)).1 ≡ ok
    → x ≡ y
unfolding settle
settle-ok id x y page (yes p) h = p
settle-ok id x y page (no n) h = ground arith

-- What a page does with a fact under an identity that landed.
settle_of_seen :
    (id : Str) (x y : Fact) (page : JournalPage)
    → Maps.get id page.seen ≡ some x
    → settle id y (classify id y page) ≡ (page, again id x y)
unfolding classify classify_as
settle_of_seen id x y page h = rw h (settle_verdict id x y page (Fact-discrete x y))

-- An append that the page took leaves its fact in the ledger.
seen-settle :
    (id : Str) (x : Fact) (page : JournalPage)
    → (settle id x (classify id x page)).1 ≡ ok
    → Maps.get id (settle id x (classify id x page)).0.seen ≡ some x
unfolding settle classify classify_as
seen-settle id x page h = elim (Option-cases (Maps.get id page.seen)) [
  | inl e ↦
      rw (e, seen-land x (record page { seen = Maps.set id x page.seen }))
        (get-set_self id x page.seen)
  | inr (z, e) ↦
      let same : z ≡ x =
        settle-ok id z x page (Fact-discrete z x)
          (subst (λ o. (settle id x (classify_as id x page o)).1 ≡ ok) e h) in
      ap (λ q. Maps.get id q.0.seen) (settle_of_seen id z x page e) ∙ (e ∙ ap some same)
]

outcome_again :
    (f : RunFence) (l : FenceLedger) → (outcome f l).1 ≡ ok → (outcome f (outcome f l).0).1 ≡ ok
unfolding outcome refuse
outcome_again f l h = ground (arith, get-set_self f.run_id f.generation l.high)

answered-ok :
    (r : Str) (j : RunJournal) (p : JournalPage × FenceOutcome) (o : FenceOutcome)
    → (answered r j p o).1 ≡ ok
    → (o ≡ ok) × (p.1 ≡ ok)
unfolding answered
answered-ok r j (page, result) ok h = (refl, h)
answered-ok r j (page, result) (not_ok why detail) h = (h, ground arith)

-- The page of a run after a served append.
landed : Str → Fact → JournalPage → JournalPage × FenceOutcome
landed id x page = settle id x (classify id x page)

landed_of_seen :
    (id : Str) (x y : Fact) (page : JournalPage)
    → Maps.get id page.seen ≡ some x
    → landed id y page ≡ (page, again id x y)
unfolding landed
landed_of_seen id x y page h = settle_of_seen id x y page h

seen-landed :
    (id : Str) (x : Fact) (page : JournalPage)
    → (landed id x page).1 ≡ ok
    → Maps.get id (landed id x page).0.seen ≡ some x
unfolding landed
seen-landed id x page h = seen-settle id x page h

append_of_served :
    (f : RunFence) (id : Str) (x : Fact) (j : RunJournal)
    → (outcome f j.fence).1 ≡ ok
    → append f id x j ≡ (
      write_page f.run_id
          (landed id x (page_of f.run_id j)).0
          (record j { fence = (outcome f j.fence).0 }),
      (landed id x (page_of f.run_id j)).1,
    )
unfolding append answered landed
append_of_served f id x j h = rw h refl

page_of-append :
    (f : RunFence) (id : Str) (x : Fact) (j : RunJournal)
    → (outcome f j.fence).1 ≡ ok
    → page_of f.run_id (append f id x j).0 ≡ (landed id x (page_of f.run_id j)).0
page_of-append f id x j h =
    rw (append_of_served f id x j h)
      (page_of-write_page f.run_id f.run_id _ _ ∙ if_pos (Str-discrete f.run_id f.run_id) refl _ _)

fence-answered :
    (r : Str) (j : RunJournal) (p : JournalPage × FenceOutcome) (o : FenceOutcome)
    → (answered r j p o).0.fence ≡ j.fence
unfolding answered write_page
fence-answered r j (page, result) ok = refl
fence-answered r j (page, result) (not_ok why detail) = refl

fence-append :
    (f : RunFence) (id : Str) (x : Fact) (j : RunJournal)
    → (append f id x j).0.fence ≡ (outcome f j.fence).0
unfolding append
fence-append f id x j =
    fence-answered f.run_id (record j { fence = (outcome f j.fence).0 })
      (settle id x (classify id x (page_of f.run_id j))) (outcome f j.fence).1

append-ok :
    (f : RunFence) (id : Str) (x : Fact) (j : RunJournal)
    → (append f id x j).1 ≡ ok
    → ((outcome f j.fence).1 ≡ ok) × ((landed id x (page_of f.run_id j)).1 ≡ ok)
unfolding append landed
append-ok f id x j h =
    answered-ok f.run_id (record j { fence = (outcome f j.fence).0 })
      (settle id x (classify id x (page_of f.run_id j))) (outcome f j.fence).1 h

-- Once an append was accepted, the same caller's append under the same identity changes nothing on
-- the run's page and is answered by the identity's fact: accepted when it carries that very fact,
-- refused as a conflicting replay when it carries any other.
pub append-again :
    (f : RunFence) (id : Str) (x y : Fact) (j : RunJournal)
    → (append f id x j).1 ≡ ok
    → let j' = (append f id x j).0 in
      ((append f id y j').1 ≡ again id x y)
      × (page_of f.run_id (append f id y j').0 ≡ page_of f.run_id j')
append-again f id x y j h =
    let r = f.run_id in
    let j' = (append f id x j).0 in
    let (served, took) = append-ok f id x j h in
    let still : (outcome f j'.fence).1 ≡ ok =
      rw (fence-append f id x j) (outcome_again f j.fence served) in
    let seen : Maps.get id (page_of r j').seen ≡ some x =
      rw (page_of-append f id x j served) (seen-landed id x (page_of r j) took) in
    let page = landed_of_seen id x y (page_of r j') seen in
    (
      ap (λ q. q.1) (append_of_served f id y j' still) ∙ ap (λ q. q.1) page,
      page_of-append f id y j' still ∙ ap (λ q. q.0) page,
    )

-- An append that the fence refuses changes no page.
pub append_of_refused :
    (f : RunFence) (id : Str) (x : Fact) (j : RunJournal) (why : FenceReason) (detail : Str)
    → (outcome f j.fence).1 ≡ not_ok why detail
    → (page_of f.run_id (append f id x j).0 ≡ page_of f.run_id j)
      × ((append f id x j).1 ≡ not_ok why detail)
unfolding append answered page_of
append_of_refused f id x j why detail h = rw h (refl, refl)

-- A served append under an identity that holds its very fact is acknowledged and changes no page.
pub append_of_landed :
    (f : RunFence) (id : Str) (x : Fact) (j : RunJournal)
    → (outcome f j.fence).1 ≡ ok
    → Maps.get id (page_of f.run_id j).seen ≡ some x
    → (page_of f.run_id (append f id x j).0 ≡ page_of f.run_id j) × ((append f id x j).1 ≡ ok)
unfolding landed
append_of_landed f id x j served seen =
    let e = settle_of_seen id x x (page_of f.run_id j) seen in
    (
      page_of-append f id x j served ∙ ap (λ q. q.0) e,
      ap (λ q. q.1) (append_of_served f id x j served)
          ∙ (ap (λ q. q.1) e ∙ if_pos (Fact-discrete x x) refl _ _),
    )

-- A served append under an identity that holds nothing lands its fact.
pub append_of_fresh :
    (f : RunFence) (id : Str) (x : Fact) (j : RunJournal)
    → (outcome f j.fence).1 ≡ ok
    → Maps.get id (page_of f.run_id j).seen ≡ none
    → let page = page_of f.run_id j in
      (page_of f.run_id (append f id x j).0
        ≡ land x (record page { seen = Maps.set id x page.seen }))
      × ((append f id x j).1 ≡ ok)
unfolding landed settle classify classify_as
append_of_fresh f id x j served seen = (
  page_of-append f id x j served ∙ rw seen refl,
  ap (λ q. q.1) (append_of_served f id x j served) ∙ rw seen refl,
)
