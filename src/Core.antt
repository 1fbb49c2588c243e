-- ===== src/Core.antt =====
-- packages/runner-core: the trusted core, pure decisions over values that the orchestrator supplies.
pub mod Decision
pub mod Paths
pub mod Canonical
pub mod Workspace
pub mod Policy
pub mod Eligibility
pub mod Outcome
pub mod Reconciliation
pub mod Capture
pub mod Verification
pub mod Evidence
