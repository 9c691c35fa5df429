-- ===== src/Examples.antt =====
-- Runs of the code on concrete chains, networks and managers.
mod World
mod Validators
mod Delegations
mod Positions
mod Networks
mod Generators
mod Engines
mod Cleanups
mod Pools
mod RoundTrips
mod Sendings
mod Proposals
mod Lifetimes
mod Meetings
mod Rounds
mod Tickers
mod Sequences
