-- ===== src/Sending.antt =====
-- stack.go: how a transaction is made, sent and waited for.
pub mod Stack
pub mod Outcomes
