-- ===== src/Coordinator/System.antt =====
-- The running coordinator, as crates/coordinator/src/main.rs puts it together: the gossip handler,
-- the API, the re-broadcaster and the indexer over one state. Each event is one turn of one task;
-- the order of the list is the order in which the turns happen.
use proof_job_zk.Base.{ℕ, List, [], ◌∷◌, Option, none, some}
use proof_job_zk.Core.Job.{Address}
use proof_job_zk.Core.Envelope.{GossipEnvelope}
use proof_job_zk.Deps.Encoding.{Encoding}
use proof_job_zk.Coordinator.State.{Runtime, AppState, World}
use proof_job_zk.Coordinator.Handler.{process_message}
use proof_job_zk.Coordinator.Api.{CreateJobRequest, create_job}
use proof_job_zk.Coordinator.Rebroadcast.{rebroadcast_pending}
use proof_job_zk.Indexer.{Indexer, poll_events}

-- What the indexer keeps besides the shared table.
pub record Cursor : Type 0 where
  pub registry_address : Address
  pub poll_interval : ℕ
  pub last_block : ℕ

module _ (E : Encoding) (R : Runtime) where
  -- The indexer runs only where the configuration has an RPC endpoint and a contract.
  pub record Process : Type 0 where
    pub state : AppState R
    pub indexer : Option Cursor

  -- The chain that a turn meets is part of the event: it changes between turns.
  pub data Event : Type 0 where
    received : ℕ → World R → GossipEnvelope → Event
    requested : CreateJobRequest → List ℕ → ℕ → World R → Event
    rebroadcast : Event
    polled : World R → Event

  unfoldable pub indexer_of : Cursor → AppState R → Indexer R
  indexer_of c s = record {
    registry_address = c.registry_address;
    jobs = s.jobs;
    poll_interval = c.poll_interval;
    last_block = c.last_block;
  }

  unfoldable pub cursor_of : Indexer R → Cursor
  cursor_of i = record {
    registry_address = i.registry_address;
    poll_interval = i.poll_interval;
    last_block = i.last_block;
  }

  unfoldable pub poll : AppState R → Cursor → World R → Process
  unfolding indexer_of cursor_of
  poll s c w =
      let i = (poll_events R (indexer_of c s) w).self in
      record { state = record s { jobs = i.jobs }; indexer = some (cursor_of i) }

  unfoldable pub step : Process → Event → Process
  unfolding poll
  step p (received now w envelope) = record p {
    state = (process_message R p.state now w envelope).state;
  }
  step p (requested req nonce now w) = record p {
    state = (create_job E R req nonce now p.state w).state;
  }
  step p rebroadcast = record p { state = rebroadcast_pending R p.state }
  step p (polled w) = elim p.indexer [ none ↦ p | some c ↦ poll p.state c w ]

  unfoldable pub run : Process → List Event → Process
  unfolding step
  run p [] = p
  run p (event ∷ events) = run (step p event) events
