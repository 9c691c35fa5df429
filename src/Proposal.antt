-- ===== src/Proposal.antt =====
-- devnet.go (setStargate): a parameter of the network set by a proposal that the executors approve.
pub mod Run
pub mod Approvals
pub mod Setting
