-- ===== src/Generator.antt =====
-- cmd/txsimulation/devnet.go and networkhub.go: the lifecycles that a simulation creates.
pub mod Strategies
pub mod Reach
pub mod Hub
pub mod Due
pub mod Seeds
pub mod Accounts
pub mod Keys
pub mod Authorities
