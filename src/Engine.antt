-- ===== src/Engine.antt =====
-- engine.go: the lifecycles that the engine holds, and its two loops.
pub mod Cycles
pub mod Population
pub mod Rounds
pub mod Served
pub mod Flush
pub mod Flushed
pub mod Ending
