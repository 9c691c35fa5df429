-- ===== src/Genesis.antt =====
-- hayabusa/config.go, hayabusa/genesis.go and devnet.go: a network's parameters written to its
-- genesis, and read back from it.
pub mod Text
pub mod Digits
pub mod Config
pub mod Storage
pub mod RoundTrip
