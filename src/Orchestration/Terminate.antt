-- ===== src/Orchestration/Terminate.antt =====
-- orchestration/terminate.ts: how a run ends, before it has authority and after. The projection that a
-- finish mints is known by a number that the caller supplies, and the clock answers the steps of one
-- transition alike; the event of a terminal is the outcome that it carries.
use secure_home_agent_platfo.Prelude.{ℕ, Option, none, some, ◌++◌, Str, text, decimal}
use secure_home_agent_platfo.Lifecycle.Transitions.{TransitionKind}
use secure_home_agent_platfo.Scope.{TerminalReach, ok, not_ok, reach_terminal}
use secure_home_agent_platfo.RunState.Fence
use secure_home_agent_platfo.RunState.Fence.{
  RunFence, FenceOutcome, stale_fence, conflicting_replay,
}
use secure_home_agent_platfo.Core.Capture.{SchemaResult}
use secure_home_agent_platfo.Core.Evidence.{EvidenceDraft, RunOutcome}
use secure_home_agent_platfo.Orchestration.Records.{
  Formats, RecordResult, built, not_built, EarlyTermination, build_early_termination_record,
}
use secure_home_agent_platfo.Orchestration.Conclude.{
  no_record, early_termination_record, RunConclusion, Ended, answers, throws, Ports, Run, lose,
  conclude,
}

-- The contracts that records are checked against, and how they are written.
pub record Contracts (Early Bundle : Type 0) : Type 0 where
  pub form : Formats
  pub digest_of : Str → Str
  pub byte_length : Str → ℕ
  pub early : EarlyTermination → SchemaResult Early
  pub evidence : EvidenceDraft → SchemaResult Bundle
  pub sealing : Bundle → SchemaResult Bundle
  pub outcome_of : Bundle → RunOutcome

abbrev pub reached_detail : Str → TerminalReach → Str
reached_detail why (ok kind) = why
reached_detail why (not_ok detail) = why ++ (text "; " ++ detail)

module _ {W Early Bundle : Type 0} (contracts : Contracts Early Bundle)
    (ports : Ports W Early Bundle) where
  -- `scope.reachTerminal`
  abbrev pub reach : TransitionKind → Str → Run W Early → Run W Early × TerminalReach
  reach kind why r =
      let at = ports.now r.world in
      let (m, reached) = reach_terminal kind why at at r.machine in
      (record r { machine = m }, reached)

  -- The conclusion after an attempt to reach a terminal: nothing was produced.
  abbrev pub conclude_reached :
      Str → Run W Early × TerminalReach → Run W Early × Ended RunConclusion
  conclude_reached why (r, reached) = conclude ports no_record (reached_detail why reached) r

  abbrev pub fail_closed : TransitionKind → Str → Run W Early → Run W Early × Ended RunConclusion
  fail_closed kind why r = conclude_reached why (reach kind why r)

  abbrev pub record_id : Run W Early → Str
  record_id r =
      r.fence.run_id
      ++ (text "#g" ++ (decimal r.fence.generation ++ text "#early_termination_record"))

  abbrev pub on_written :
      Str → Run W Early → W × Ended FenceOutcome → Run W Early × Ended RunConclusion
  on_written detail r (w, throws) = (record r { world = w }, throws)
  on_written detail r (w, answers Fence.ok) =
      conclude ports early_termination_record detail
        (record r { world = w; recorded = early_termination_record })
  on_written detail r (w, answers (Fence.not_ok conflicting_replay why)) =
      conclude ports no_record why (record r { world = w })
  on_written detail r (w, answers (Fence.not_ok stale_fence why)) =
      conclude ports no_record detail (lose why (record r { world = w }))

  abbrev pub on_built : Str → Run W Early → RecordResult Early → Run W Early × Ended RunConclusion
  on_built detail r (not_built why) = conclude ports no_record why r
  on_built detail r (built e) =
      on_written detail (record r { early_record = some e })
        (ports.write_evidence r.fence (record_id r) e r.world)

  -- Built once, retried verbatim.
  abbrev pub record_of : Str → Run W Early → Option Early → RecordResult Early
  record_of detail r (some e) = built e
  record_of detail r none =
      build_early_termination_record contracts.form contracts.early r.fence.run_id r.requester
        r.requested_profile r.machine.state detail r.started_at (ports.now r.world)

  abbrev pub write_as : Option Str → Str → Run W Early → Run W Early × Ended RunConclusion
  write_as (some why) detail r = conclude ports no_record detail r
  write_as none detail r = on_built detail r (record_of detail r r.early_record)

  unfoldable pub write_early_terminal_record : Str → Run W Early → Run W Early × Ended RunConclusion
  unfolding conclude build_early_termination_record
  write_early_terminal_record detail r = write_as r.scope.fence_lost detail r

  abbrev pub on_reached : Str → Run W Early × TerminalReach → Run W Early × Ended RunConclusion
  on_reached detail (r, ok kind) = write_early_terminal_record detail r
  on_reached detail (r, not_ok why) = conclude ports no_record (why ++ (text ": " ++ detail)) r

  abbrev pub early_as :
      Option Str → TransitionKind → Str → Run W Early → Run W Early × Ended RunConclusion
  early_as (some why) kind detail r = conclude ports no_record detail r
  early_as none kind detail r = on_reached detail (reach kind detail r)

  unfoldable pub terminate_early :
      TransitionKind → Str → Run W Early → Run W Early × Ended RunConclusion
  unfolding write_early_terminal_record conclude reach_terminal
  terminate_early kind detail r = early_as r.scope.fence_lost kind detail r
