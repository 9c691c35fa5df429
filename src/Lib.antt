-- ===== src/Lib.antt =====
-- Verification of the transaction simulation of hayabusa-e2e: the lifecycles of validators and
-- delegators that the simulation runs against a staking network, what they share, and how the
-- network under them is set up.
--
-- An engine hands every new block to all lifecycles. A validator's lifecycle registers it with the
-- staker contract, waits until it is active, changes its stake now and then, signals its exit, and
-- withdraws. A delegator's does the same for a delegation to a validator. Both ask the contract
-- service, which polls the validators of each block, and the position manager, which shares the
-- positions of the mainnet out among the validators: a validator registers and unregisters there
-- as its status changes, and a delegator gives its position back when it ends.
--
-- Files, with the code that each is about:
--   Lifecycle            cmd/txsimulation/lifecycle/lifecycle.go: statuses, delays, due blocks
--   Services             what the lifecycles call: the thor client's staker calls, the transaction
--                        stack, the contract service and the position manager, as one record
--   Validators           cmd/txsimulation/validators: Events is event_handler.go, Managers is
--                        state_manager.go, transaction_manager.go and stake_manager.go, Process is
--                        validator.go; Process/Edges, Order, Exits and Stuck and
--                        Events/Search hold proofs
--   Delegations          cmd/txsimulation/delegations/delegator.go and
--                        cmd/txsimulation/utils/reverts.go: Transaction is the sending and polling
--                        of one transaction, State the delegator's record, Process the handler
--   Xnodes               cmd/txsimulation/xnodes/position_manager.go: Allocation is the shares of a
--                        validator, Manager the operations; Balance, Slots and Reset hold proofs
--   Contracts            cmd/txsimulation/contract/contract_service.go: Service is the polling
--                        round, Decode the unpacking of the columns; Lookups holds proofs
--   Network              hayabusa/port_manager.go (Ports), hayabusa/config.go (Validate, in
--                        Parameters), utils/staker.go (WaitForCondition in Waiting,
--                        WaitForPeersConnection in Peers), utils/ticker.go (Ticker) and
--                        hayabusa/network.go (Nodes, and Start in Starting); Fresh, Growth,
--                        Lifetime, Ticking and Awaited hold proofs
--   Genesis              hayabusa/config.go (Apply), hayabusa/genesis.go (the encoding) and
--                        cmd/txsimulation/devnet.go (extractConfigFromAccounts): Config is the
--                        code, with the genesis of networkhub, which Apply writes, and that of thor,
--                        which is read, and Text what it does with text; Digits, Storage and
--                        RoundTrip hold proofs
--   Generator            cmd/txsimulation/devnet.go (CreateValidator and CreateDelegator in
--                        Strategies, loadDevnetKeys and createAuthorityConfigs in Keys),
--                        cmd/txsimulation/utils/numbers.go (Strategies) and
--                        cmd/txsimulation/networkhub.go (its generator and the initial seeding, in
--                        Hub); Reach, Due, Seeds, Accounts and Authorities hold proofs
--   Engine               cmd/txsimulation/lifecycle/engine.go: Cycles is the generation of lifecycles
--                        and the sweep over them, Rounds the rounds of Run, Flush is Flush;
--                        Population, Served, Flushed and Ending hold proofs, the last three with
--                        the pool
--   Workers              cmd/txsimulation/lifecycle/worker_pool.go: Pool is the state and its steps,
--                        Bags the promise it refines; Counts, Sound, Order, Refinement, Steps,
--                        Drain, Callers and Lone hold proofs
--   Cleanup              cmd/txsimulation/devnetcleanup/delegations.go: Run is the code; Pages,
--                        Groups, Rounds and Failures hold proofs
--   Sending              cmd/txsimulation/stack/stack.go: Stack is the code, Outcomes holds proofs
--   Proposal             cmd/txsimulation/devnet.go (setStargate): Run is the code; Approvals and
--                        Setting hold proofs
--   Testutil             testutil/transactions.go (Sequence, and SendClauses in Clauses),
--                        testutil/retry.go (Clauses), utils/senders.go and
--                        cmd/network/add_validators.go (Senders); Chained, Mined, Retried, Confirmed
--                        and Parallel hold proofs
--   Prelude              numbers, lists, integers, maps, and Go's ways to end a call
--   Examples             runs on concrete states
--
-- A Go method becomes a function of the same name in snake case, from the state of its receiver to
-- an Outcome: a value or an error, each with the state as it was left (what was written before an
-- error stays written), or a panic. A nil pointer is none, an error is its message and whether it
-- is the client's not-found error, an address or a hash is a number. uint32 arithmetic wraps at
-- 2^32 by `u32`; Go's int is an integer in the position manager and a natural number where no
-- value is negative. A map is an association list, and iteration follows the list.
--
-- The world is everything outside the modelled state: each call of another component or of the
-- chain takes the world and leaves another, so two calls may be answered differently. Lifecycles
-- run under their own locks, so a call is atomic in its own state; between two calls the world may
-- change in any way. The worker pool is modelled as goroutines whose steps may come in any order;
-- the rounds of the engine and Flush take their steps between those of the pool, a send of Flush
-- waits while the pool's channel is full, and parallel sendings end in any order.
--
-- Fuel: the paged searches take one unit for each page, and one more than the full pages of the
-- log is enough; the cleanup's search takes one for each page, and one more; WaitForCondition
-- takes one unit for each round, and the blocks up to its bound and one more are enough on a chain
-- that grows; WaitForPeersConnection and SendClauses take one for each tick of their timer, and the
-- waits of Ticker one for each round, for which the rounds that a timer has left and one more are
-- enough.
--
-- Not modelled: logging and display; the thor client, the networkhub library, ABI coding and the
-- Solidity contracts, which are third-party or generated; shares in float64, random numbers and
-- shuffles, which are parameters; timers but for whether they have fired; the start of processes,
-- the tables of keys, and the accounts of a genesis; the end-to-end tests. A panic ends the
-- simulation: no state is given for it, and the deferred cleanup of a delegator that panics is left
-- out.
pub mod Prelude
pub mod Lifecycle
pub mod Services
pub mod Validators
pub mod Delegations
pub mod Xnodes
pub mod Contracts
pub mod Network
pub mod Generator
pub mod Engine
pub mod Cleanup
pub mod Workers
pub mod Genesis
pub mod Sending
pub mod Proposal
pub mod Testutil
pub mod Examples
