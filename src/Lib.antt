-- ===== src/Lib.antt =====
-- proof-job-zk: a coordinator hands out proving jobs, workers prove them in a zkVM and submit the
-- proofs to a registry contract, and all of them talk by a gossip network. A client posts a job to
-- the coordinator, which escrows the reward on chain, stores the job and announces it by gossip.
-- Workers claim it; the coordinator accepts one claim. The worker runs the guest program in the
-- zkVM, submits the proof on chain and gossips the completion. The coordinator learns of
-- completions and expiries from the gossip, which it checks against the chain, and from the
-- indexer, which polls the events of the contract and writes to the same job table.
--
-- Files, and the code that each models:
--
--   Core: crates/core/src (ids.rs, enums.rs, job.rs, gossip.rs). Envelope.sign and verify are
--     the methods of `GossipEnvelope`, and SigBytes is the module `sig_bytes`.
--   Contract: crates/contract-client/src/lib.rs.
--   Coordinator: crates/coordinator/src. State is lib.rs and config.rs, Handler
--     gossip_handler.rs, Api api.rs, Rebroadcast rebroadcast.rs, Persistence persistence.rs,
--     System the tasks of main.rs, Tasks the same between their awaits (with Lifecycle,
--     Arbitration, and Entries with Truth), Start what main.rs does
--     before (with Settings, Configured and Restart). On them stand Lifecycle (how a job's entry
--     may change), Claims, Completion, Creation, Publishing, Created, Lookup, Announcing and Snapshot (each
--     operation), Arbitration, Finality, Keyed and Truth with Sound (whole runs).
--   Indexer: crates/indexer/src/lib.rs, with Events (the log loops), First (the hash that they
--     leave), Polling (one poll), Coverage (runs).
--   Guest: crates/methods/guest/src/main.rs, with Fibonacci and Journal.
--   Prover: crates/prover/src/lib.rs, with Laws.
--   Worker: crates/worker/src. State is lib.rs, Proof proof.rs, Handler handler.rs, Task the
--     spawned task of handler.rs and lib.rs, Start main.rs (with Started what a started worker
--     is, Success a task that succeeds), Invariant what holds between steps, Finishing the end
--     of a task, Submission what is submitted, Origin what a task goes back to.
--   Node: crates/gossip/src/gossip/mod.rs, with Peers, Broadcast, Receive, Once and Hops, and
--     Connection, the task of one connection, with Wire (what it writes), Reading and Delivery;
--     Neighbour follows a broadcast through it.
--     Interface fills with it the records `Gossip` and `Sockets` that the coordinator and the
--     worker take.
--   Registry: contracts/src/JobRegistry.sol, with Steps, Solvency, Settled, Acceptance (of what
--     a worker submits) and Expired (what the coordinator makes of an expired job).
--   Network: the coordinator with any number of workers, Sole with Sent (one prover of a job)
--     and Progress (a job from its announcement to its completion).
--   Base: numbers, lists, results, bytes and texts. Deps: the crates that are not in the
--     repository, as records of operations and of the laws that are used. Tests: concrete
--     inputs.
--
-- State and time: a method on shared state takes the state and returns it; the clock, random bytes
-- and the chain (`World`, which other parties change between calls) are arguments. A call of
-- another crate is a field of a record in Deps, with its documented laws as further fields or as a
-- record of laws (SigningLaws, ZkvmLaws) that a theorem takes. A panic is `none`, and in the start
-- of a process `panicked`.
--
-- Concurrency: `Coordinator.System` takes a handler of the coordinator as one event, up to its
-- end. `Coordinator.Tasks` is finer: it cuts the handlers, the re-broadcasting tick and the
-- indexer's poll at their awaits and at each access to the table, and any number of them take
-- turns in any order, so two tasks of one kind may also run at once, which the code's loops do not
-- do. The rows of the table that a tick collects are read in one step. `Worker.Task` cuts the
-- spawned task of a worker in the same way, and `Network` puts the two together. `Node.Connection`
-- takes a connection's loop and the sends of the node to it in any order; the two ends of a stream
-- are two such runs.
--
-- The contract: a transfer of ether runs code of the recipient, which may call the contract again,
-- so `Registry.Call` nests such calls between the start of a transfer and its event. What the
-- client of the chain meets (`World`) is any chain; the theorems that join the two say how they
-- are linked.
--
-- Bounds: `u64` and `u128` values are plain numbers; the guest's `wrapping_add` and the deadline
-- are cut to 64 bits where the code adds. The loops of the guest, of the logs and of the runs are
-- structural, so no fuel is needed; an endless loop is a run over a list of what it receives.
--
-- Not modelled: logging, what listeners and sockets do, the HTTP router, the capacities of the two
-- channels of 256 in a node, blocks and gas, the verifier contract, deployment scripts and tests.
-- The tasks that main.rs spawns may take turns while the indexer is made and the listener bound;
-- here they do so once the coordinator serves. A second call of the node's `run` panics, and other
-- tasks may broadcast between two events of its loop: neither is modelled.
pub mod Base
pub mod Core
pub mod Deps
pub mod Contract
pub mod Coordinator
pub mod Indexer
pub mod Guest
pub mod Prover
pub mod Worker
pub mod Node
pub mod Registry
pub mod Network
pub mod Tests
