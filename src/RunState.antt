-- ===== src/RunState.antt =====
-- services/runner-control/src/run-state: fences, the lease, the journal, the outbox and the commit
-- marker that makes staged records visible.
pub mod Fence
pub mod Lease
pub mod Visibility
pub mod Journal
pub mod Outbox
