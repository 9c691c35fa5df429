-- ===== src/Cleanup.antt =====
-- cmd/txsimulation/devnetcleanup/delegations.go: the delegations that earlier runs have left.
pub mod Run
pub mod Pages
pub mod Groups
pub mod Rounds
pub mod Failures
