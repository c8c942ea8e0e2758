-- ===== src/Lib.antt =====
-- Verification of the finality gadget of BLITZ (finality-gadget/ of this repository): the service
-- that tells which blocks of an L2 chain the finality providers of Babylon have finalized, and the
-- operator that runs such a finality provider.
--
-- The parts, the files that model them, and the code:
-- - Base (tests, lists, errors, maps, texts, machine words) and Exec (methods that change an
--   object and may return an error, with rules for invariants, references, postconditions and
--   inversion) are shared. A Go error is a value of `Error`; a nil pointer or slice is `none`; a
--   panic is an error that nothing recovers. What was written before an error stays written. Of
--   the values that a message formats, an error keeps at most one number.
-- - Clients: what the provider asks of the L2 node, of Bitcoin, of Babylon, of the contract and of
--   the clock. Each call gets the instant at which it is made, so that two calls may be answered
--   differently; a theorem without a hypothesis on the clients holds whatever they answer.
-- - Provider (finality-gadget/rpc/provider/finality_state_provider.go): the struct
--   `FinalizedStateProvider`, its caches, and the cached reads: `blockByNumber`,
--   `queryAllFpBtcPubKeys`, `queryListOfVotedFinalityProviders`, `getBlockHeightByTimestamp`,
--   `QueryEarliestActiveDelBtcHeight`, `queryMultiFpPower`, `queryAllPkPower`.
-- - Quorum (same file): the two-thirds rule inside `QueryIsBlockBabylonFinalizedFromBabylon`, in
--   `uint64`.
-- - Finality (same file): `QueryIsBlockBabylonFinalizedFromBabylon`,
--   `queryFinalizedBlockInBabylonByNumber`, `queryFinalizedBlockInBabylonFromTo` and
--   `QueryFinalizedBlockInBabylon`. Finality/Reference is the decision about a block without any
--   cache or state, on a chain whose answers do not change; Finality/Interleaving is about whole
--   queries in any order.
-- - Threads and Concurrent (same file, and `GetBlockByNumber` of finality-gadget/rpc/rpc.go):
--   requests at once. Threads cuts a call at its critical sections and its external calls, and has
--   the rules for such calls and a scheduler: a list of events, in which a request comes in or one
--   goroutine runs a section. Concurrent are the same methods cut so, by the names of Provider,
--   Finality and Rpc with `_steps`; its Alone and SearchAlone tie them to these, and the proofs on
--   what they return are given once, for goroutines among others.
-- - Rpc (finality-gadget/rpc/rpc.go): `JsonRpcHandler`, the client of Finality, and any sequence
--   of its requests; Rpc/Serving is `StartServer`, with the requests that come before the
--   shutdown.
-- - Handler (finality-gadget/operator/block_handler.go): `L2BlockHandler`, from `Start` and its
--   ticks to the delivery of blocks to the processers. The list `handled` is a ghost: it records
--   the calls of `handleBlock`.
-- - Fps (finality-gadget/operator/fp/fp.go): `fpsCmdProvider`, over a store that is a parameter.
-- - App (finality-gadget/operator/fp/app.go): `Start` and `stopImpl` of `FinalityProviderApp`;
--   what was started and stopped is recorded in the state; App/Starts has the goroutine of the RPC
--   server, which may end the process.
-- - Controller (finality-gadget/operator/fp/controllers/controller.go and
--   finality-gadget/metrics/fp_collectors.go): `OrbitConsumerController`.
-- - Config (finality-gadget/core/utils, finality-gadget/core/configs, operator/configs and
--   signer/configs beside it, finality-gadget/metrics/config.go, finality-gadget/client/l2eth):
--   the file, what the environment overrides, with `Atoi` and `Itoa` in Base/Decimal, the address
--   of the metrics server, and the check of the chain id.
-- - Process: code that starts and ends a process, which may also panic or exit; a deferred call
--   runs behind a panic, and not behind an exit. It has rules for what is kept, for panics and
--   inversion.
-- - Logging (finality-gadget/core/logging/zap.go): how the loggers are configured and built;
--   Logging/Methods are their methods, over zap.
-- - Startup: the constructors of the parts above and the commands that call them. Servers
--   (`NewFinalizedStateProvider`, `NewJsonRpcServer`), Apps (`NewOrbitConsumerController`,
--   `NewFinalityProviderAppFromConfig`, `NewFpsCmdProvider`, `NewFpMetrics`), Commands with
--   OperatorCommands and RpcCommand (finality-gadget/operator/finality-gadget-operator and
--   finality-gadget/rpc/finality-gadget-rpc-services), and their `main` in Mains. The constructors
--   of other libraries are the record `Libraries`, asked at an instant; a constructor of Babylon's
--   client that fails gives nil.
-- - Signer (finality-gadget/signer): its service, its command and its `main`.
-- - Eots (finality-gadget/client/eotsmanager): the methods of the client, around any manager.
-- - Metrics (finality-gadget/metrics/server.go): the goroutine of `Start`, and `Stop`, over any
--   HTTP server; in Metrics/Ends, when they end the process.
-- - Cli: what the `main` functions set of urfave/cli, and what that library documents of the words
--   of a command line.
-- - Tests: concrete inputs, with the theorems applied to them.
--
-- Bounds: the binary search recurses on fuel, `search_fuel` = 65 rounds; an interval of numbers
-- below 2^63 is at most 2^63 wide and halves in each round, so that 64 rounds are enough, and a
-- request has at most 1293 sections. The loop of `fetchBlocks` gets the number of rounds that its
-- bounds give. Everything else is structural. Unsigned arithmetic wraps at 2^64 where the code can
-- overflow, and block numbers that go to the node are converted to `int64` as in the code.
--
-- Not modelled: the messages that are logged, but for those of Eots and Metrics, the HTTP of the
-- RPC service and of the metrics (a count tells how many endpoints and servers are open), the
-- tables of flags, and YAML. A goroutine of the metrics server that cannot listen ends the process
-- in the code; the commands here leave that end out. Requests to the provider run at once;
-- elsewhere calls on one object come one after the other. A critical section is one step, as its
-- mutex makes it, and the memory model of Go below it is not modelled. Contexts and timeouts are
-- answers of the clients, and signals only end a loop.
pub mod Base
pub mod Exec
pub mod Process
pub mod Cli
pub mod Clients
pub mod Quorum
pub mod Provider
pub mod Finality
pub mod Rpc
pub mod Handler
pub mod Fps
pub mod App
pub mod Controller
pub mod Config
pub mod Logging
pub mod Startup
pub mod Signer
pub mod Eots
pub mod Metrics
pub mod Threads
pub mod Concurrent
mod Tests
