-- ===== src/Lifecycle.antt =====
-- services/runner-control/src/lifecycle: the states of a run, the declared transitions, the state
-- machine with its write claims and projections, and the walk that runs phases under it.
pub mod States
pub mod Transitions
pub mod Machine
pub mod Table
pub mod Walk
