-- ===== src/Finalization/Interleaving.antt =====
-- adapters/finalization.ts: many commits at once. A commit in flight is known by its identity, of
-- which the entry admits one at a time. A step is a piece of the program that runs without an `await`.
use secure_home_agent_platfo.Prelude.{ℕ, Bool, Option, none, some, List, [], ◌∷◌, Str}
use secure_home_agent_platfo.Prelude.Maps
use secure_home_agent_platfo.Prelude.Maps.{Map}
use secure_home_agent_platfo.Finalization
use secure_home_agent_platfo.Finalization.{
  FinalizationCommit, Finalization, Participant, Staging, StagedWrite, Renewal, Progress, preparing,
  confirming, returned, on_staging, on_renewal,
}
use secure_home_agent_platfo.Finalization.Entry.{Entry, answered, joins, starts, commit, retire}

pub record Operation : Type 0 where
  pub request : FinalizationCommit
  pub progress : Progress

pub record System : Type 0 where
  pub store : Finalization
  pub operations : Map Operation

abbrev pub idle : System
idle = record { store = Finalization.empty; operations = [] }

-- A call of `commit`; the answer of a participant; the answer of the lease; and the retirement of a
-- commit that has its outcome.
pub data Step : Type 0 where
  enters : FinalizationCommit → Bool → ℕ → Step
  stages : Str → Staging → Bool → ℕ → Step
  renews : Str → Renewal → Bool → ℕ → Step
  retires : Str → Step

abbrev pub operation : FinalizationCommit → Progress → Operation
operation c p = record { request = c; progress = p }

unfoldable pub entered : FinalizationCommit → Finalization × Entry → System → System
entered c (s, answered o) y = record y { store = s }
entered c (s, joins) y = record y { store = s }
entered c (s, starts p) y = record {
  store = s;
  operations = Maps.set c.commit_id (operation c p) y.operations;
}

unfoldable pub staged_on :
    FinalizationCommit → Staging → Bool → ℕ → Str → Progress → System → System
staged_on c a aborted now id (preparing p ps staged) y = record y {
  operations = Maps.set id (operation c (on_staging c a aborted now p ps staged)) y.operations;
}
staged_on c a aborted now id (confirming staged) y = y
staged_on c a aborted now id (returned o ws) y = y

unfoldable pub moved : FinalizationCommit → Str → Finalization × Progress → System → System
moved c id (s, p) y = record { store = s; operations = Maps.set id (operation c p) y.operations }

unfoldable pub renewed_on :
    FinalizationCommit → Renewal → Bool → ℕ → Str → Progress → System → System
unfolding moved
renewed_on c a aborted now id (confirming staged) y =
    moved c id (on_renewal c a aborted now staged y.store) y
renewed_on c a aborted now id (preparing p ps staged) y = y
renewed_on c a aborted now id (returned o ws) y = y

unfoldable pub retired_on : FinalizationCommit → Str → Progress → System → System
retired_on c id (returned o ws) y = record {
  store = retire c y.store;
  operations = Maps.delete id y.operations;
}
retired_on c id (preparing p ps staged) y = y
retired_on c id (confirming staged) y = y

-- A step of the operation under an identity, if there is one.
unfoldable pub stage_step : Str → Staging → Bool → ℕ → Option Operation → System → System
stage_step id a aborted now none y = y
stage_step id a aborted now (some o) y = staged_on o.request a aborted now id o.progress y

unfoldable pub renew_step : Str → Renewal → Bool → ℕ → Option Operation → System → System
renew_step id a aborted now none y = y
renew_step id a aborted now (some o) y = renewed_on o.request a aborted now id o.progress y

unfoldable pub retire_step : Str → Option Operation → System → System
retire_step id none y = y
retire_step id (some o) y = retired_on o.request id o.progress y

unfoldable pub step : Step → System → System
step (enters c aborted now) y = entered c (commit c aborted now y.store) y
step (stages id a aborted now) y = stage_step id a aborted now (Maps.get id y.operations) y
step (renews id a aborted now) y = renew_step id a aborted now (Maps.get id y.operations) y
step (retires id) y = retire_step id (Maps.get id y.operations) y

unfoldable pub run : List Step → System → System
run [] y = y
run (e ∷ es) y = run es (step e y)
