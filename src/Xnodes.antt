-- ===== src/Xnodes.antt =====
-- cmd/txsimulation/xnodes: the positions that simulated delegators take with validators.
pub mod Allocation
pub mod Manager
pub mod Balance
pub mod Slots
pub mod Reset
