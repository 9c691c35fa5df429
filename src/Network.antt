-- ===== src/Network.antt =====
-- hayabusa/port_manager.go, hayabusa/config.go, hayabusa/network.go, utils/staker.go and
-- utils/ticker.go: how a network is set up and waited for.
pub mod Ports
pub mod Fresh
pub mod Parameters
pub mod Waiting
pub mod Nodes
pub mod Peers
pub mod Growth
pub mod Lifetime
pub mod Ticker
pub mod Ticking
pub mod Awaited
pub mod Starting
