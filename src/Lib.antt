-- ===== src/Lib.antt =====
-- The runner of the secure home agent platform: the orchestration service in
-- services/runner-control/src, and the trusted core that it asks for decisions, in
-- packages/runner-core/src.
--
-- The service owns a run: its lifecycle machine, the lease on it, the journal of what it did, the
-- gates it schedules and the authority it reads. The core decides, from values alone, whether a run
-- may start, what its workspace changed, and what of that may be written. The service hands the core
-- what it observed and obeys the answer. The knowledge that the platform serves is packaged and
-- identified apart from both.
--
-- Lifecycle        lifecycle/: states.ts, transitions.ts, machine.ts (`RunMachine`), walk.ts (`walk`).
--   A method that changes the machine returns the new machine beside its result. The answers of the
--   clock are arguments. A capability object is known by a number that the caller supplies.
-- RunState         run-state/: fence.ts, visibility.ts, outbox.ts, and in-memory.ts with the journal
--   (Journal) and the lease (Lease). A promise that is already resolved is its value. `Map` and `Set`
--   keep the order of insertion.
-- Scheduling       scheduling/: dispositions.ts, plan.ts.
-- Consent          consent/index.ts.
-- Scope            run/scope.ts: `reachTerminal`, `loseFence` and `release`.
-- Finalization     adapters/finalization.ts. Each piece of a commit that runs without an `await` is a
--   definition; Interleaving lets any commits take their pieces in any order; Refinement compares that
--   with a register of publications. The documents of a commit are their JSON texts.
-- Emitter          events/emitter.ts, `RunEventEmitter`. The clock, the schema and the sink are parameters.
-- Orchestration    orchestration/: Controls, Deadline and Narrowing for controls.ts; Clock and Recovery
--   for deadline.ts; Flush for `#flushJournal` of run.ts; Conclude, Terminate, Finish, Emission and Abort
--   for terminate.ts; Calls for calls.ts. Of finalization/: Ledger for index.ts, Records and Principal
--   for records.ts. What a run asks of the world are functions on a state of the world, which answer or
--   throw. The firing of a timer and the return of a call are events that come in any order.
-- Acquisition      acquisition/tokens.ts, and Epochs for epochs.ts. The port that reads a source is a
--   parameter, which answers, throws or is interrupted; the host it reads is a state that it passes on.
-- Core             packages/runner-core/src: decision, primitives, workspace, policy, eligibility,
--   outcome, authority/base-identity.ts and capture.ts, reconciliation, evidence, verification. Where the
--   program tests the shape of an untyped value, a data type lists the shapes that it tells apart. The
--   digest, JSON and schemas are parameters.
-- Knowledge        packages/knowledge-toolchain/src: Identity for identity.ts, the manifest that a
--   package of knowledge is identified by. The UTF-8 encoding and the hash are parameters.
-- Prelude          strings as UTF-16 code units, lists, maps, objects that inherit, tests, case lemmas.
-- Examples         every theorem below at a concrete input.
--
-- Every loop but two is structural recursion over the list it runs through. The decimal digits of a
-- number run on fuel, one more than the number, which exceeds its digits. The walk of `emit` past
-- occupied identities runs on fuel that the caller gives, and says so when it is used up.
--
-- Not modelled: the phases of the walk and the runner that strings them together, and the settlement
-- after an interruption, which join the parts above; the schemas, which a validation library checks;
-- adapters, file systems and scripts.
pub mod Prelude
pub mod Knowledge
pub mod Lifecycle
pub mod Orchestration
pub mod RunState
pub mod Core
pub mod Scope
pub mod Examples
pub mod Consent
pub mod Emitter
pub mod Finalization
pub mod Acquisition
pub mod Scheduling
