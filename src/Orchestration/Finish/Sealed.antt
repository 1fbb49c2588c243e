-- ===== src/Orchestration/Finish/Sealed.antt =====
-- orchestration/terminate.ts, `finish`: what stands behind a run that ends with an evidence bundle.
use secure_home_agent_platfo.Prelude.{
  ◌≡◌, refl, Bool, true, false, Option, none, some, List, Str, arith,
}
use secure_home_agent_platfo.Lifecycle.Machine
use secure_home_agent_platfo.Lifecycle.Machine.{
  RunMachine, TransitionEntry, Projection, projected, unprojected, project, CommitResult, committed,
  not_minted, stale_projection, commit_projected,
}
use secure_home_agent_platfo.RunState.Outbox.{is_empty}
use secure_home_agent_platfo.Orchestration.Ledger.{
  SealPreparation, prepared, not_prepared, prepare_seal, mark_sealed, SealedBy,
  prepare_seal-Sealable,
}
use secure_home_agent_platfo.Orchestration.Records.{
  Outcome, AssemblyResult, assembled, not_assembled, assemble_evidence, run_outcome,
}
use secure_home_agent_platfo.Orchestration.Conclude.{
  no_record, evidence_bundle, RunConclusion, Ended, answers, throws, CommitRefusal, moved,
  attempt_expired, already_committed, expired, commit_failed, CommitAnswer, acknowledged, declined,
  Ports, Run, tick, conclude,
}
use secure_home_agent_platfo.Orchestration.Conclude.Stated.{
  conclude-produced, unless_rethrown-answers,
}
use secure_home_agent_platfo.Orchestration.Terminate.{Contracts}
use secure_home_agent_platfo.Orchestration.Finish.{
  Finishing, assembly_of, sequence, intent_of, on_adopted, on_declined, on_committed, on_prepared,
  on_durable, on_projected, on_assembled, finish_as, finish,
}

module _ {W Early Bundle Registry : Type 0} (contracts : Contracts Early Bundle)
    (ports : Ports W Early Bundle) (f : Finishing Registry) where
  -- The commit of a sealed bundle was acknowledged, and the run is recorded as it left it.
  pub record IsCommitted (entries : List TransitionEntry) (outcome : Outcome) (bundle : Bundle)
      (before : Run W Early) : Type 0 where
    pub sealed : Bundle
    pub unsealed : before.ledger.sealed ≡ false
    pub settled : before.ledger.outstanding ≡ 0
    pub eligible :
        SealedBy contracts.sealing contracts.outcome_of
          (some bundle)
          (some (run_outcome contracts.form outcome))
          sealed
    pub durable : is_empty before.outbox ≡ true
    pub world : W
    pub committed :
        ports.commit (intent_of contracts ports f entries outcome sealed before) before.world
        ≡ (world, answers acknowledged)
    pub adopted : (commit_projected f.projection before.machine).1 ≡ Machine.committed

  no_bundle :
      (detail : Str) (r r' : Run W Early) (c : RunConclusion)
      → conclude ports no_record detail r ≡ (r', answers c)
      → ¬ (c.produced ≡ evidence_bundle)
  no_bundle detail r r' c h t =
      let (p, k) = conclude-produced ports no_record detail r r' c h t in absurd (ground arith)

  adopted_lem :
      (r r' : Run W Early) (p : RunMachine × CommitResult) (c : RunConclusion)
      → on_adopted contracts ports f r p ≡ (r', answers c)
      → (p.1 ≡ committed)
  adopted_lem r r' (m, committed) c h = refl
  adopted_lem r r' (m, not_minted) c h = absurd (ground arith)
  adopted_lem r r' (m, stale_projection v w) c h = absurd (ground arith)

  declined-no_bundle :
      (why : CommitRefusal) (detail : Str) (r r' : Run W Early) (c : RunConclusion)
      → on_declined contracts ports f why detail r ≡ (r', answers c)
      → ¬ (c.produced ≡ evidence_bundle)
  declined-no_bundle moved detail r r' c h = no_bundle _ _ r' c h
  declined-no_bundle attempt_expired detail r r' c h = no_bundle _ _ r' c h
  declined-no_bundle already_committed detail r r' c h = no_bundle _ _ r' c h
  declined-no_bundle expired detail r r' c h = no_bundle _ _ r' c h
  declined-no_bundle commit_failed detail r r' c h = no_bundle _ _ r' c h

  committed_lem :
      (r r' : Run W Early) (p : W × Ended CommitAnswer) (c : RunConclusion)
      → on_committed contracts ports f r p ≡ (r', answers c)
      → c.produced ≡ evidence_bundle
      → (p ≡ (p.0, answers acknowledged))
        × ((commit_projected f.projection r.machine).1 ≡ Machine.committed)
  committed_lem r r' (w, throws) c h t = absurd (ground arith)
  committed_lem r r' (w, answers acknowledged) c h t = (
    refl,
    adopted_lem (record r { world = w; ledger = mark_sealed r.ledger }) r'
        (commit_projected f.projection r.machine) c h,
  )
  committed_lem r r' (w, answers (declined why detail)) c h t =
      absurd (declined-no_bundle why detail _ r' c h t)

  prepared_lem :
      (entries : List TransitionEntry) (outcome : Outcome) (bundle : Bundle) (r r' : Run W Early)
      (p : SealPreparation Bundle) (c : RunConclusion)
      → prepare_seal contracts.sealing contracts.outcome_of
          (some bundle)
          (some (run_outcome contracts.form outcome))
          r.ledger
        ≡ p
      → is_empty r.outbox ≡ true
      → on_prepared contracts ports f entries outcome r p ≡ (r', answers c)
      → c.produced ≡ evidence_bundle
      → IsCommitted entries outcome bundle r
  prepared_lem entries outcome bundle r r' (not_prepared why detail) c e durable h t =
      absurd (no_bundle _ _ r' c h t)
  prepared_lem entries outcome bundle r r' (prepared sealed) c e durable h t =
      let (unsealed, settled, eligible) =
        prepare_seal-Sealable contracts.sealing contracts.outcome_of (some bundle)
          (some (run_outcome contracts.form outcome)) r.ledger sealed e in
      let answer = ports.commit (intent_of contracts ports f entries outcome sealed r) r.world in
      let (acked, adopted) = committed_lem r r' answer c h t in
      record {
        sealed = sealed;
        unsealed = unsealed;
        settled = settled;
        eligible = eligible;
        durable = durable;
        world = answer.0;
        committed = acked;
        adopted = adopted;
      }

  durable_lem :
      (entries : List TransitionEntry) (outcome : Outcome) (bundle : Bundle) (b : Bool)
      (r r' : Run W Early) (c : RunConclusion)
      → is_empty r.outbox ≡ b
      → on_durable contracts ports f entries outcome bundle b r ≡ (r', answers c)
      → c.produced ≡ evidence_bundle
      → IsCommitted entries outcome bundle r
  durable_lem entries outcome bundle false r r' c e h t = absurd (no_bundle _ _ r' c h t)
  durable_lem entries outcome bundle true r r' c e h t =
      prepared_lem entries outcome bundle r r' _ c refl e h t

  -- What stands behind a run that ended with a bundle: it held its fence when it began; its evidence
  -- was assembled; its machine declares the whole terminal sequence; and with its walk flushed, the
  -- commit of the bundle was acknowledged.
  pub record IsSealed (r : Run W Early) : Type 0 where
    pub owned : r.scope.fence_lost ≡ none
    pub bundle : Bundle
    pub outcome : Outcome
    pub assembled :
        assemble_evidence contracts.form contracts.digest_of contracts.byte_length
          contracts.evidence
          (assembly_of contracts ports f r)
        ≡ AssemblyResult.assembled bundle outcome
    pub entries : List TransitionEntry
    pub machine : RunMachine
    pub declared :
        project f.projection (sequence contracts ports f (ports.now r.world)) r.machine
        ≡ (machine, projected entries)
    pub committed :
        IsCommitted entries outcome bundle (tick ports.journal (record r { machine = machine })).0

  projected_lem :
      (outcome : Outcome) (bundle : Bundle) (r r' : Run W Early) (p : RunMachine × Projection)
      (c : RunConclusion)
      → on_projected contracts ports f outcome bundle r p ≡ (r', answers c)
      → c.produced ≡ evidence_bundle
      → (entries : List TransitionEntry) × ((p ≡ (p.0, projected entries))
          × IsCommitted entries outcome bundle (tick ports.journal (record r { machine = p.0 })).0)
  projected_lem outcome bundle r r' (m, unprojected kind from) c h t =
      absurd (no_bundle _ _ r' c h t)
  projected_lem outcome bundle r r' (m, projected entries) c h t =
      let flushed = tick ports.journal (record r { machine = m }) in
      let next = λ (s : Run W Early).
        on_durable contracts ports f entries outcome bundle (is_empty s.outbox) s in
      (
        entries,
        (
          refl,
          durable_lem entries outcome bundle (is_empty flushed.0.outbox) flushed.0 r' c refl
              (unless_rethrown-answers ports flushed next r' c h) t,
        ),
      )

  assembled_lem :
      (r r' : Run W Early) (a : AssemblyResult Bundle) (c : RunConclusion)
      → r.scope.fence_lost ≡ none
      → assemble_evidence contracts.form contracts.digest_of contracts.byte_length
          contracts.evidence
          (assembly_of contracts ports f r)
        ≡ a
      → on_assembled contracts ports f r a ≡ (r', answers c)
      → c.produced ≡ evidence_bundle
      → IsSealed r
  assembled_lem r r' (not_assembled failure detail) c o e h t = absurd (no_bundle _ _ r' c h t)
  assembled_lem r r' (assembled bundle outcome) c o e h t =
      let p = project f.projection (sequence contracts ports f (ports.now r.world)) r.machine in
      let (entries, (declared, commit)) = projected_lem outcome bundle r r' p c h t in
      record {
        owned = o;
        bundle = bundle;
        outcome = outcome;
        assembled = e;
        entries = entries;
        machine = p.0;
        declared = declared;
        committed = commit;
      }

  owned_lem :
      (o : Option Str) (r r' : Run W Early) (c : RunConclusion)
      → r.scope.fence_lost ≡ o
      → finish_as contracts ports f o r ≡ (r', answers c)
      → c.produced ≡ evidence_bundle
      → IsSealed r
  owned_lem (some why) r r' c e h t = absurd (no_bundle _ _ r' c h t)
  owned_lem none r r' c e h t = assembled_lem r r' _ c e refl h t

  -- A finished run reports an evidence bundle only if it held its fence, the evidence was assembled for
  -- the very terminal asked for, the machine declares every transition of the terminal sequence, no
  -- fact of the journal was pending and no write outstanding, the ledger had not sealed, the core found
  -- the bundle eligible for that outcome, the commit of that bundle with those transitions was
  -- acknowledged, and the machine adopted the transitions.
  pub finish-IsSealed :
      (r r' : Run W Early) (c : RunConclusion)
      → finish contracts ports f r ≡ (r', answers c)
      → c.produced ≡ evidence_bundle
      → IsSealed r
  unfolding finish
  finish-IsSealed r r' c h t = owned_lem r.scope.fence_lost r r' c refl h t
