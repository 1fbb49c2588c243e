-- ===== src/Finalization/Refinement.antt =====
-- adapters/finalization.ts: what the adapter promises, as a register of publications in which an entry
-- is written once, and how a state of the adapter stands for a register.
pub mod Invariant
pub mod Steps
pub mod Promises
use secure_home_agent_platfo.Prelude.{
  ◌≡◌, Bool, true, false, Option, none, some, List, [], ◌∷◌, ite, Str, Str-discrete,
}
use secure_home_agent_platfo.Prelude.Maps
use secure_home_agent_platfo.RunState.Visibility.{is_published}
use secure_home_agent_platfo.Finalization.{
  FinalizationCommit, CommitOutcome, ok, not_ok, canonical, holder, Finalization, Progress,
  preparing, confirming, returned,
}
use secure_home_agent_platfo.Finalization.Interleaving.{Operation, System}

pub record Publication : Type 0 where
  pub holder : Str
  pub commit_id : Str
  pub intent : Str

abbrev pub Register : Type 0
Register = List Publication

unfoldable pub commit_of : Str → Register → Option Str
commit_of h [] = none
commit_of h (p ∷ ps) = ite (Str-discrete p.holder h) (some p.commit_id) (commit_of h ps)

unfoldable pub intent_of : Str → Register → Option Str
intent_of id [] = none
intent_of id (p ∷ ps) = ite (Str-discrete p.commit_id id) (some p.intent) (intent_of id ps)

-- The register grows by publications whose generation and whose identity it does not hold yet.
pub data Writes : Register → Register → Type 0 where
  done : {r : Register} → Writes r r
  writes :
      {r r' : Register} (p : Publication)
      → commit_of p.holder r ≡ none
      → intent_of p.commit_id r ≡ none
      → Writes (p ∷ r) r'
      → Writes r r'

abbrev pub publication : FinalizationCommit → Publication
publication c = record { holder = holder c; commit_id = c.commit_id; intent = canonical c }

abbrev pub is_some {ℓ} : {A : Type ℓ} → Option A → Bool
is_some none = false
is_some (some a) = true

abbrev pub is_ok : Progress → Bool
is_ok (preparing p ps staged) = false
is_ok (confirming staged) = false
is_ok (returned ok ws) = true
is_ok (returned (not_ok r d) ws) = false

abbrev pub intent_in_flight : Option Operation → Option Str
intent_in_flight none = none
intent_in_flight (some o) = some (canonical o.request)

abbrev pub holder_in_flight : Option Operation → Option Str
holder_in_flight none = none
holder_in_flight (some o) = some (holder o.request)

-- The adapter stands for the register: the maps of what is published are the register's, a commit is
-- in flight under its own identity and bound to its intent, a claim belongs to a commit in flight, and
-- a commit in flight has the outcome `ok` exactly when it is published, with its own intent, as its
-- generation's.
pub record Stands (y : System) (r : Register) : Type 0 where
  pub finalized : (h : Str) → Maps.get h y.store.finalized ≡ commit_of h r
  pub intents : (id : Str) → Maps.get id y.store.intents ≡ intent_of id r
  pub marked : (id : Str) → is_published id y.store.visibility ≡ is_some (intent_of id r)
  pub named :
      (id : Str) (o : Operation) → Maps.get id y.operations ≡ some o → o.request.commit_id ≡ id
  pub bound :
      (id : Str)
      → Maps.get id y.store.in_flight_by_commit ≡ intent_in_flight (Maps.get id y.operations)
  pub owned :
      (h id : Str)
      → Maps.get h y.store.in_flight_by_generation ≡ some id
      → holder_in_flight (Maps.get id y.operations) ≡ some h
  pub unpublished :
      (id : Str) (o : Operation)
      → Maps.get id y.operations ≡ some o
      → is_ok o.progress ≡ false
      → intent_of id r ≡ none
  pub told :
      (id : Str) (o : Operation)
      → Maps.get id y.operations ≡ some o
      → is_ok o.progress ≡ true
      → intent_of id r ≡ some (canonical o.request)
  pub final :
      (id : Str) (o : Operation)
      → Maps.get id y.operations ≡ some o
      → is_ok o.progress ≡ true
      → commit_of (holder o.request) r ≡ some id
