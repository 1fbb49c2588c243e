-- ===== src/Finalization/Entry.antt =====
-- adapters/finalization.ts, `commit` and `#run`: how a commit enters, and how it retires.
use secure_home_agent_platfo.Prelude.{
  ◌≡◌, arith, Bool, Option, none, some, [], ◌++◌, ite, if◌then◌else◌, Str, Str-discrete, text, ℕ,
}
use secure_home_agent_platfo.Prelude.Maps
use secure_home_agent_platfo.RunState.Visibility.{is_published}
use secure_home_agent_platfo.Finalization.{
  FinalizationCommit, CommitOutcome, ok, not_ok, already_committed, conflicting_replay, canonical,
  holder, Finalization, Progress, preparations, prepare_next, already_published_detail, claimed,
}

-- What a call of `commit` returns: an outcome, the promise of the commit in flight under the same
-- identity, or the promise of a commit that starts.
pub data Entry : Type 0 where
  answered : CommitOutcome → Entry
  joins : Entry
  starts : Progress → Entry

unfoldable pub refusal : Str → CommitOutcome
refusal why = not_ok (some already_committed) (text "finalization did not commit: " ++ why)

-- An identity that is published: the same intent is an acknowledgement that was lost.
unfoldable pub reconcile : FinalizationCommit → Option Str → CommitOutcome
unfolding refusal
reconcile c none = refusal (
    text "identity "
    ++ (c.commit_id
        ++ text
            " is already published with a different logical intent; the durable record is the truth"))
reconcile c (some intent) = ite (Str-discrete intent (canonical c)) ok (
    refusal (
      text "identity "
      ++ (c.commit_id
          ++ text
              " is already published with a different logical intent; the durable record is the truth")))

unfoldable pub claim_if_free : FinalizationCommit → Option Str → Finalization → Finalization
claim_if_free c none s = claimed c s
claim_if_free c (some owner) s = s

-- The commit is bound before its first `await`.
unfoldable pub started : FinalizationCommit → Finalization → Finalization
unfolding claim_if_free
started c s =
    let s' = claim_if_free c (Maps.get (holder c) s.in_flight_by_generation) s in
    record s' { in_flight_by_commit = Maps.set c.commit_id (canonical c) s'.in_flight_by_commit }

unfoldable pub start : FinalizationCommit → Bool → ℕ → Finalization → Finalization × Entry
start c aborted now s = (started c s, starts (prepare_next c aborted now preparations []))

unfoldable pub enter_on :
    FinalizationCommit → Bool → ℕ → Option Str → Finalization → Finalization × Entry
unfolding start
enter_on c aborted now none s = start c aborted now s
enter_on c aborted now (some intent) s =
    ite (Str-discrete intent (canonical c)) (s, joins)
      (
        s,
        answered (
            not_ok (some conflicting_replay) (
              text "finalization did not commit: identity "
              ++ (c.commit_id ++ text " is already in flight with a different logical intent"))),
      )

unfoldable pub enter_free :
    FinalizationCommit → Bool → ℕ → Option Str → Finalization → Finalization × Entry
unfolding enter_on refusal
enter_free c aborted now (some id) s =
    (s, answered (refusal (already_published_detail c (some id))))
enter_free c aborted now none s =
    enter_on c aborted now (Maps.get c.commit_id s.in_flight_by_commit) s

unfoldable pub commit : FinalizationCommit → Bool → ℕ → Finalization → Finalization × Entry
unfolding reconcile enter_free
commit c aborted now s =
    if is_published c.commit_id s.visibility
    then (s, answered (reconcile c (Maps.get c.commit_id s.intents)))
    else enter_free c aborted now (Maps.get (holder c) s.finalized) s

release_claim : FinalizationCommit → Option Str → Finalization → Finalization
release_claim c none s = s
release_claim c (some owner) s =
    ite (Str-discrete owner c.commit_id)
      (record s { in_flight_by_generation = Maps.delete (holder c) s.in_flight_by_generation }) s

-- The `finally` of `#run`.
unfoldable pub retire : FinalizationCommit → Finalization → Finalization
unfolding release_claim
retire c s =
    let s' = release_claim c (Maps.get (holder c) s.in_flight_by_generation) s in
    record s' { in_flight_by_commit = Maps.delete c.commit_id s'.in_flight_by_commit }

-- A commit that starts does so with the staging loop.
pub commit-starts :
    (c : FinalizationCommit) (aborted : Bool) (now : ℕ) (s : Finalization) (p : Progress)
    → (commit c aborted now s).1 ≡ starts p
    → p ≡ prepare_next c aborted now preparations []
unfolding commit reconcile enter_free enter_on start
commit-starts c aborted now s p h = ground arith
