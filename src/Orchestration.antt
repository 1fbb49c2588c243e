-- ===== src/Orchestration.antt =====
-- services/runner-control/src/orchestration: what the orchestration of a run is given, and its parts.
pub mod Controls
pub mod Deadline
pub mod Narrowing
pub mod Ledger
pub mod Clock
pub mod Flush
pub mod Records
pub mod Conclude
pub mod Terminate
pub mod Finish
pub mod Dispossessed
pub mod Late
pub mod Emission
pub mod Calls
pub mod Abort
pub mod Recovery
mod Principal
