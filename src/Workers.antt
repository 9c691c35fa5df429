-- ===== src/Workers.antt =====
-- worker_pool.go: the pool of goroutines that the engine gives the lifecycles of a block to.
pub mod Pool
pub mod Counts
pub mod Sound
pub mod Order
pub mod Bags
pub mod Callers
pub mod Refinement
pub mod Steps
pub mod Drain
pub mod Lone
