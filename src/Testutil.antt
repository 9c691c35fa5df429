-- ===== src/Testutil.antt =====
-- testutil and utils/senders.go: how the test suites and the command-line tools send transactions.
pub mod Sequence
pub mod Chained
pub mod Senders
pub mod Confirmed
pub mod Parallel
pub mod Clauses
pub mod Mined
pub mod Retried
