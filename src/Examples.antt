-- ===== src/Examples.antt =====
-- The theorems of the development applied at concrete inputs.
mod Commits
mod Emission
mod Endings
mod Calls
mod Evidence
mod Machines
mod Packages
mod Resources
mod Decisions
