-- ===== src/Finalization/Refinement/Invariant.antt =====
-- adapters/finalization.ts: each kind of change keeps the adapter standing for a register.
use secure_home_agent_platfo.Prelude.{◌≡◌, Bool, false, none, some, List, [], ◌∷◌, arith, ℕ}
use secure_home_agent_platfo.Prelude.Maps
use secure_home_agent_platfo.Prelude.Maps.{get-set, get-delete}
use secure_home_agent_platfo.RunState.Visibility.{is_published-publish}
use secure_home_agent_platfo.Finalization.{
  FinalizationCommit, ok, canonical, holder, Finalization, StagedWrite, Participant, prepare_next,
  Progress, returned, published, claimed,
}
use secure_home_agent_platfo.Finalization.Entry.{retire, started}
use secure_home_agent_platfo.Finalization.Interleaving.{System, operation}
use secure_home_agent_platfo.Finalization.Refinement.{
  Register, publication, commit_of, intent_of, is_ok, Stands,
}

abbrev pub put : FinalizationCommit → Progress → System → System
put c p y = record y { operations = Maps.set c.commit_id (operation c p) y.operations }

abbrev pub with_store : Finalization → System → System
with_store s y = record y { store = s }

-- A commit that has no outcome yet moves on, without `ok`.
pub put-Stands :
    (c : FinalizationCommit) (p q : Progress) (y : System) (r : Register)
    → Maps.get c.commit_id y.operations ≡ some (operation c p)
    → is_ok p ≡ false
    → is_ok q ≡ false
    → Stands y r
    → Stands (put c q y) r
put-Stands c p q y r at early still v = record {
  finalized = v.finalized;
  intents = v.intents;
  marked = v.marked;
  named =
      λ id o h. ground (arith, v.named id o, get-set c.commit_id id (operation c q) y.operations);
  bound = λ id. ground (arith, v.bound id, get-set c.commit_id id (operation c q) y.operations);
  owned =
      λ h id k. ground (arith, v.owned h id k, get-set c.commit_id id (operation c q) y.operations);
  unpublished = λ id o h k. ground (
    arith,
    v.unpublished id o,
    v.unpublished c.commit_id (operation c p) at early,
    get-set c.commit_id id (operation c q) y.operations,
  );
  told =
      λ id o h k. ground (arith, v.told id o, get-set c.commit_id id (operation c q) y.operations);
  final =
      λ id o h k. ground (arith, v.final id o, get-set c.commit_id id (operation c q) y.operations);
}

-- A commit in flight takes its generation's claim.
pub claimed-Stands :
    (c : FinalizationCommit) (p : Progress) (y : System) (r : Register)
    → Maps.get c.commit_id y.operations ≡ some (operation c p)
    → Stands y r
    → Stands (with_store (claimed c y.store) y) r
unfolding claimed
claimed-Stands c p y r at v = record {
  finalized = v.finalized;
  intents = v.intents;
  marked = v.marked;
  named = v.named;
  bound = v.bound;
  owned = λ h id k.
      ground
        (arith, v.owned h id, get-set (holder c) h c.commit_id y.store.in_flight_by_generation);
  unpublished = v.unpublished;
  told = v.told;
  final = v.final;
}

-- A commit in flight whose generation published nothing is published.
pub published-Stands :
    (c : FinalizationCommit) (p : Progress) (ws : List StagedWrite) (y : System) (r : Register)
    → Maps.get c.commit_id y.operations ≡ some (operation c p)
    → is_ok p ≡ false
    → commit_of (holder c) r ≡ none
    → Stands y r
    → Stands (put c (returned ok ws) (with_store (published c y.store) y)) (publication c ∷ r)
unfolding published commit_of intent_of
published-Stands c p ws y r at early free v = record {
  finalized =
      λ h. ground (arith, v.finalized h, get-set (holder c) h c.commit_id y.store.finalized);
  intents =
      λ id. ground (arith, v.intents id, get-set c.commit_id id (canonical c) y.store.intents);
  marked =
      λ id. ground (arith, v.marked id, is_published-publish c.commit_id id y.store.visibility);
  named = λ id o h.
      ground
        (arith, v.named id o, get-set c.commit_id id (operation c (returned ok ws)) y.operations);
  bound = λ id.
      ground
        (arith, v.bound id, get-set c.commit_id id (operation c (returned ok ws)) y.operations);
  owned = λ h id k.
      ground
        (arith, v.owned h id k, get-set c.commit_id id (operation c (returned ok ws)) y.operations);
  unpublished = λ id o h k. ground (
    arith,
    v.unpublished id o,
    get-set c.commit_id id (operation c (returned ok ws)) y.operations,
  );
  told = λ id o h k.
      ground
        (arith, v.told id o, get-set c.commit_id id (operation c (returned ok ws)) y.operations);
  final = λ id o h k.
      ground
        (arith, v.final id o, get-set c.commit_id id (operation c (returned ok ws)) y.operations);
}

-- A commit that has its outcome retires.
pub retire-Stands :
    (c : FinalizationCommit) (p : Progress) (y : System) (r : Register)
    → Maps.get c.commit_id y.operations ≡ some (operation c p)
    → Stands y r
    → Stands
        (record { store = retire c y.store; operations = Maps.delete c.commit_id y.operations })
        r
unfolding retire
retire-Stands c p y r at v = record {
  finalized = λ h. ground (arith, v.finalized h);
  intents = λ id. ground (arith, v.intents id);
  marked = λ id. ground (arith, v.marked id);
  named = λ id o h. ground (arith, v.named id o, get-delete c.commit_id id y.operations);
  bound = λ id. ground (
    arith,
    v.bound id,
    get-delete c.commit_id id y.store.in_flight_by_commit,
    get-delete c.commit_id id y.operations,
  );
  owned = λ h id k. ground (
    arith,
    v.owned h id,
    get-delete (holder c) h y.store.in_flight_by_generation,
    get-delete c.commit_id id y.operations,
  );
  unpublished =
      λ id o h k. ground (arith, v.unpublished id o, get-delete c.commit_id id y.operations);
  told = λ id o h k. ground (arith, v.told id o, get-delete c.commit_id id y.operations);
  final = λ id o h k. ground (arith, v.final id o, get-delete c.commit_id id y.operations);
}

pub not_ok-prepare_next :
    (c : FinalizationCommit) (aborted : Bool) (now : ℕ) (ps : List Participant)
    (ws : List StagedWrite)
    → is_ok (prepare_next c aborted now ps ws) ≡ false
unfolding prepare_next
not_ok-prepare_next c aborted now [] ws = ground arith
not_ok-prepare_next c aborted now (p ∷ ps) ws = ground arith

-- A commit starts under an identity that is not published and not in flight.
pub start-Stands :
    (c : FinalizationCommit) (p : Progress) (y : System) (r : Register)
    → intent_of c.commit_id r ≡ none
    → Maps.get c.commit_id y.operations ≡ none
    → is_ok p ≡ false
    → Stands y r
    → Stands (put c p (with_store (started c y.store) y)) r
unfolding started claimed
start-Stands c p y r fresh at early v = record {
  finalized = λ h. ground (arith, v.finalized h);
  intents = λ id. ground (arith, v.intents id);
  marked = λ id. ground (arith, v.marked id);
  named =
      λ id o h. ground (arith, v.named id o, get-set c.commit_id id (operation c p) y.operations);
  bound = λ id. ground (
    arith,
    v.bound id,
    get-set c.commit_id id (canonical c) y.store.in_flight_by_commit,
    get-set c.commit_id id (operation c p) y.operations,
  );
  owned = λ h id k. ground (
    arith,
    v.owned h id,
    get-set (holder c) h c.commit_id y.store.in_flight_by_generation,
    get-set c.commit_id id (operation c p) y.operations,
  );
  unpublished = λ id o h k.
      ground (arith, v.unpublished id o, get-set c.commit_id id (operation c p) y.operations);
  told =
      λ id o h k. ground (arith, v.told id o, get-set c.commit_id id (operation c p) y.operations);
  final =
      λ id o h k. ground (arith, v.final id o, get-set c.commit_id id (operation c p) y.operations);
}
