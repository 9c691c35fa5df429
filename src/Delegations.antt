-- ===== src/Delegations.antt =====
-- cmd/txsimulation/delegations/delegator.go: the life of a simulated delegator. `Transaction` has
-- the sending and polling of a transaction, `State` the delegator's record, `Process` the handler.
pub mod Transaction
pub mod State
pub mod Process
