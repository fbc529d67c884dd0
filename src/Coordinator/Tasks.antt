-- ===== src/Coordinator/Tasks.antt =====
-- The tasks of the coordinator between their awaits: `create_job` of api.rs, the handlers of
-- gossip_handler.rs, one tick of rebroadcast.rs and one poll of crates/indexer, any number of them
-- at a time. A step of a task is one access to what is shared: an entry of the table, a broadcast,
-- or the answer of the chain with the write that depends on it alone. The answer may be as old as
-- the chain that the step is given.
pub mod Arbitration
pub mod Lifecycle
pub mod Entries
pub mod Truth
use mathlib.Core.Option.{get_or}
use proof_job_zk.Base.{
  ℕ, zero, suc, ◌+◌, List, [], ◌∷◌, ◌++◌, Option, none, some, Result, ok, err, leb, if◌then◌else◌,
}
use proof_job_zk.Core.Ids.{JobId, PeerId, TxHash}
use proof_job_zk.Core.Job.{Job, is_pending}
use proof_job_zk.Core.Message.{
  GossipMessage, job_available, claim_job, claim_accepted, claim_rejected, job_completed,
}
use proof_job_zk.Core.Envelope.{GossipEnvelope}
use proof_job_zk.Deps.Encoding.{Encoding}
use proof_job_zk.Deps.Provider.{CompletedEvent, ExpiredEvent}
use proof_job_zk.Coordinator.Api.{
  CreateJobRequest, parse_payload, parse_owner, new_job, job_deadline, submit_on_chain,
}
use proof_job_zk.Coordinator.Handler.{assign, handle_job_completed}
use proof_job_zk.Coordinator.Rebroadcast.{pending_jobs}
use proof_job_zk.Coordinator.State.{Runtime, AppState, World, job_at, announce}
use proof_job_zk.Coordinator.System.{Process, Cursor}
use proof_job_zk.Indexer.{
  default_hash, handle_job_completed as index_completed, handle_job_expired as index_expired,
}

-- Where a task waits.
pub data Task : Type 0 where
  -- `create_job`: for the chain, and before the broadcast
  submitting : Job → Task
  announcing : Job → Task
  -- `handle_claim`: before the lock of the entry, and before the broadcast
  claiming : ℕ → JobId → PeerId → Task
  replying : GossipMessage → Task
  -- `handle_job_completed`: for the chain
  verifying : JobId → TxHash → Task
  -- a tick of the re-broadcaster: the jobs to be announced
  rebroadcasting : List Job → Task
  -- `poll_events`: for the block number, for a query, and between two logs
  polling : Task
  fetching_completed : ℕ → ℕ → Task
  marking_completed : List CompletedEvent → ℕ → ℕ → Task
  fetching_expired : ℕ → ℕ → Task
  marking_expired : List ExpiredEvent → ℕ → Task

-- What starts a task.
pub data Arrival : Type 0 where
  message : ℕ → GossipEnvelope → Arrival
  request : CreateJobRequest → List ℕ → ℕ → Arrival
  tick : Arrival
  poll_tick : Arrival

module _ (E : Encoding) (R : Runtime) where
  open R use {jobs_map as table, provider as chain}

  pub record Stepped : Type 0 where
    pub process : Process E R
    pub world : World R
    pub task : Option Task

  abbrev pub goes : AppState R → Task → Process E R → World R → Stepped
  goes s t p w = record { process = record p { state = s }; world = w; task = some t }

  abbrev pub ends : AppState R → Process E R → World R → Stepped
  ends s p w = record { process = record p { state = s }; world = w; task = none }

  -- `handle_claim` up to the broadcast
  unfoldable pub claim_step : ℕ → JobId → PeerId → Process E R → World R → Stepped
  claim_step now job_id worker_id p w = elim (job_at R job_id p.state) [
    | none ↦ goes p.state (replying (claim_rejected job_id "job not found")) p w
    | some job ↦
        if is_pending job.job_status
        then goes
            (record p.state { jobs = table.modify job_id (assign worker_id now) p.state.jobs })
            (replying (claim_accepted job_id worker_id)) p w
        else goes p.state (replying (claim_rejected job_id "job already assigned")) p w
  ]

  -- The answer to the submission, and the insertion that follows it.
  unfoldable pub submit_step : Job → Process E R → World R → Stepped
  submit_step job p w =
      let a = submit_on_chain E R job.id job.payload job.deadline job.reward p.state w in
      elim a.result [
        | err e ↦ ends p.state p a.world
        | ok tx ↦
            goes (record p.state { jobs = table.insert job.id job p.state.jobs }) (announcing job) p
              a.world
      ]

  -- `get_block_number().await`, and the test after it
  unfoldable pub poll_step : Process E R → World R → Stepped
  poll_step p w = elim p.indexer [
    | none ↦ ends p.state p w
    | some c ↦
        let (answer, w') = chain.get_block_number w in
        elim answer [
          | err e ↦ ends p.state p w'
          | ok current_block ↦
              if leb current_block c.last_block
              then ends p.state p w'
              else goes p.state (fetching_completed (c.last_block + 1) current_block) p w'
        ]
  ]

  unfoldable pub fetch_completed : ℕ → ℕ → Process E R → World R → Stepped
  fetch_completed from_block to_block p w = elim p.indexer [
    | none ↦ ends p.state p w
    | some c ↦
        let (answer, w') = chain.query_completed c.registry_address from_block to_block w in
        elim answer [
          | err e ↦ ends p.state p w'
          | ok logs ↦ goes p.state (marking_completed logs from_block to_block) p w'
        ]
  ]

  unfoldable pub fetch_expired : ℕ → ℕ → Process E R → World R → Stepped
  fetch_expired from_block to_block p w = elim p.indexer [
    | none ↦ ends p.state p w
    | some c ↦
        let (answer, w') = chain.query_expired c.registry_address from_block to_block w in
        elim answer [
          | err e ↦ ends p.state p w'
          | ok logs ↦ goes p.state (marking_expired logs to_block) p w'
        ]
  ]

  -- `self.last_block = current_block`
  pub move_block : ℕ → Option Cursor → Option Cursor
  move_block block none = none
  move_block block (some c) = some (record c { last_block = block })

  unfoldable pub advance : Task → Process E R → World R → Stepped
  unfolding claim_step submit_step poll_step fetch_completed fetch_expired move_block announce
      handle_job_completed index_completed index_expired
  advance (submitting job) p w = submit_step job p w
  advance (announcing job) p w = ends (announce R (job_available job) p.state).1 p w
  advance (claiming now job_id worker_id) p w = claim_step now job_id worker_id p w
  advance (replying m) p w = ends (announce R m p.state).1 p w
  advance (verifying job_id tx_hash) p w =
      let (s, w') = handle_job_completed R p.state job_id tx_hash w in ends s p w'
  advance (rebroadcasting []) p w = ends p.state p w
  advance (rebroadcasting (job ∷ jobs)) p w =
      goes (announce R (job_available job) p.state).1 (rebroadcasting jobs) p w
  advance polling p w = poll_step p w
  advance (fetching_completed from_block to_block) p w = fetch_completed from_block to_block p w
  advance (marking_completed [] from_block to_block) p w =
      goes p.state (fetching_expired from_block to_block) p w
  advance (marking_completed (event ∷ logs) from_block to_block) p w =
      goes
        (record p.state {
          jobs =
              index_completed R event.job_id (get_or event.transaction_hash default_hash)
                p.state.jobs;
        })
        (marking_completed logs from_block to_block) p w
  advance (fetching_expired from_block to_block) p w = fetch_expired from_block to_block p w
  advance (marking_expired [] to_block) p w = record {
    process = record p { indexer = move_block to_block p.indexer };
    world = w;
    task = none;
  }
  advance (marking_expired (event ∷ logs) to_block) p w =
      goes (record p.state { jobs = index_expired R event.job_id p.state.jobs })
        (marking_expired logs to_block) p w

  -- `process_message` up to its first await
  abbrev pub begin_message : ℕ → GossipMessage → Option Task
  begin_message now (claim_job job_id worker_id) = some (claiming now job_id worker_id)
  begin_message now (job_completed job_id tx_hash) = some (verifying job_id tx_hash)
  begin_message now _ = none

  -- `create_job` up to its first await
  unfoldable pub begin_request : CreateJobRequest → List ℕ → ℕ → AppState R → Option Task
  unfolding new_job job_deadline
  begin_request req nonce now s = elim (parse_payload E req.payload) [
    | err e ↦ none
    | ok payload ↦ elim (parse_owner E req.owner) [
      | err e ↦ none
      | ok owner ↦
          some
            (submitting (new_job E R owner payload nonce req.reward now (job_deadline E R now s)))
    ]
  ]

  unfoldable pub begin : Arrival → Process E R → Option Task
  unfolding begin_request
  begin (message now envelope) p = begin_message now envelope.payload
  begin (request req nonce now) p = begin_request req nonce now p.state
  begin tick p = some (rebroadcasting (pending_jobs (table.iter p.state.jobs)))
  begin poll_tick p = some polling

  abbrev pub waiting : Option Task → List Task
  waiting none = []
  waiting (some t) = t ∷ []

  -- The coordinator with the tasks that have not ended.
  pub record Tasks : Type 0 where
    pub process : Process E R
    pub tasks : List Task

  -- The task at a place of the list goes on.
  unfoldable pub take_turn : ℕ → World R → Process E R → List Task → Tasks
  unfolding advance
  take_turn k w p [] = record { process = p; tasks = [] }
  take_turn zero w p (t ∷ tasks) =
      let r = advance t p w in record { process = r.process; tasks = waiting r.task ++ tasks }
  take_turn (suc k) w p (t ∷ tasks) =
      let u = take_turn k w p tasks in record { process = u.process; tasks = t ∷ u.tasks }

  -- The scheduler's choices.
  pub data Turn : Type 0 where
    arrives : Arrival → Turn
    goes_on : ℕ → World R → Turn

  unfoldable pub step : Tasks → Turn → Tasks
  unfolding begin take_turn
  step u (arrives a) = record u { tasks = waiting (begin a u.process) ++ u.tasks }
  step u (goes_on k w) = take_turn k w u.process u.tasks

  unfoldable pub run : List Turn → Tasks → Tasks
  unfolding step
  run [] u = u
  run (turn ∷ turns) u = run turns (step u turn)
