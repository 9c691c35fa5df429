-- ===== src/Contracts.antt =====
-- contract_service.go: what the lifecycles are told of the validators.
pub mod Service
pub mod Lookups
pub mod Decode
