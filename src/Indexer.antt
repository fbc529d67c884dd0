-- ===== src/Indexer.antt =====
-- crates/indexer/src/lib.rs: polling the chain and updating the coordinator's job table.
pub mod Events
pub mod Polling
pub mod Coverage
pub mod First
use proof_job_zk.Base.{
  concat, ℕ, ◌+◌, String, List, [], ◌∷◌, Option, none, some, Result, ok, err, leb, replicate,
  if◌then◌else◌,
}
use mathlib.Core.Option.{get_or}
use proof_job_zk.Core.Ids.{JobId, TxHash}
use proof_job_zk.Core.Job.{Job, JobStatus, Address, zero_address, is_completed_status, is_settled}
use proof_job_zk.Deps.Provider.{CompletedEvent, ExpiredEvent}
use proof_job_zk.Coordinator.State.{Runtime, Jobs, World}

pub data IndexerError : Type 0 where
  provider : String → IndexerError
  event_decode : String → IndexerError

pub record IndexerConfig : Type 0 where
  pub rpc_url : String
  pub registry_address : Address
  pub poll_interval : ℕ  -- seconds
  pub start_block : Option ℕ

-- `IndexerConfig::default()`
unfoldable pub default_config : IndexerConfig
default_config = record {
  rpc_url = "http://127.0.0.1:8545";
  registry_address = zero_address;
  poll_interval = 2;
  start_block = none;
}

-- `log.transaction_hash.unwrap_or_default()`
unfoldable pub default_hash : TxHash
default_hash = record { bytes = replicate 32 0 }

-- the closures of `handle_job_completed`
unfoldable pub mark_completed : TxHash → Job → Job
mark_completed tx_hash job =
    if is_completed_status job.job_status
    then job
    else record job { job_status = JobStatus.completed tx_hash }

unfoldable pub discovered : JobId → TxHash → Job
discovered job_id tx_hash = record {
  id = job_id;
  job_status = JobStatus.completed tx_hash;
  owner = zero_address;
  payload = [];
  reward = 0;
  created_at = 0;
  deadline = 0;
}

-- the closure of `handle_job_expired`
unfoldable pub mark_expired : Job → Job
mark_expired job =
    if is_settled job.job_status then job else record job { job_status = JobStatus.expired }

module _ (R : Runtime) where
  open R use {jobs_map as table, provider as chain}

  -- The job table is shared with the coordinator.
  pub record Indexer : Type 0 where
    pub registry_address : Address
    pub jobs : Jobs R
    pub poll_interval : ℕ
    pub last_block : ℕ

  unfoldable pub new : IndexerConfig → Jobs R → World R → Result IndexerError Indexer × World R
  new config jobs w = elim config.start_block [
    | some block ↦ (ok (start block), w)
    | none ↦
        let (answer, w') = chain.get_block_number w in
        elim answer [ ok block ↦ (ok (start block), w') | err e ↦ (err (provider e), w') ]
  ]
    where
      start : ℕ → Indexer
      start block = record {
        registry_address = config.registry_address;
        jobs = jobs;
        poll_interval = config.poll_interval;
        last_block = block;
      }

  unfoldable pub create_indexer :
      IndexerConfig → Jobs R → World R → Result IndexerError Indexer × World R
  unfolding new
  create_indexer config jobs w = elim (chain.parse_url config.rpc_url) [
    | err e ↦ (err (provider (concat "invalid rpc url: " e)), w)
    | ok url ↦ new config jobs w
  ]

  unfoldable pub handle_job_completed : JobId → TxHash → Jobs R → Jobs R
  handle_job_completed job_id tx_hash =
      table.upsert job_id (mark_completed tx_hash) (discovered job_id tx_hash)

  unfoldable pub handle_job_expired : JobId → Jobs R → Jobs R
  handle_job_expired job_id = table.modify job_id mark_expired

  -- the `for` loops over the logs of a query
  unfoldable pub apply_completed : List CompletedEvent → Jobs R → Jobs R
  unfolding handle_job_completed
  apply_completed [] jobs = jobs
  apply_completed (event ∷ logs) jobs =
      apply_completed logs
        (handle_job_completed event.job_id (get_or event.transaction_hash default_hash) jobs)

  unfoldable pub apply_expired : List ExpiredEvent → Jobs R → Jobs R
  unfolding handle_job_expired
  apply_expired [] jobs = jobs
  apply_expired (event ∷ logs) jobs = apply_expired logs (handle_job_expired event.job_id jobs)

  -- A method on `self`: the result, the indexer after it, and the chain after it.
  abbrev pub Polled : Type 0
  Polled = record { result : Result IndexerError (Unit {0}); self : Indexer; world : World R }

  unfoldable pub process_job_completed_events : Indexer → ℕ → ℕ → World R → Polled
  unfolding apply_completed
  process_job_completed_events i from_block to_block w =
      let (answer, w') = chain.query_completed i.registry_address from_block to_block w in
      elim answer [
        | err e ↦ record { result = err (provider e); self = i; world = w' }
        | ok logs ↦ record {
          result = ok tt;
          self = record i { jobs = apply_completed logs i.jobs };
          world = w';
        }
      ]

  unfoldable pub process_job_expired_events : Indexer → ℕ → ℕ → World R → Polled
  unfolding apply_expired
  process_job_expired_events i from_block to_block w =
      let (answer, w') = chain.query_expired i.registry_address from_block to_block w in
      elim answer [
        | err e ↦ record { result = err (provider e); self = i; world = w' }
        | ok logs ↦ record {
          result = ok tt;
          self = record i { jobs = apply_expired logs i.jobs };
          world = w';
        }
      ]

  -- `self.process…(…).await?` and what follows it
  abbrev and_then : Polled → (Indexer → World R → Polled) → Polled
  and_then p f = elim p.result [
    | err e ↦ record { result = err e; self = p.self; world = p.world }
    | ok _ ↦ f p.self p.world
  ]

  -- The two queries, then the move of `last_block`.
  unfoldable pub scan : Indexer → ℕ → ℕ → World R → Polled
  unfolding process_job_completed_events process_job_expired_events
  scan i from_block to_block w =
      and_then (process_job_completed_events i from_block to_block w) (λ i₁ w₁.
        and_then (process_job_expired_events i₁ from_block to_block w₁) (λ i₂ w₂. record {
          result = ok tt;
          self = record i₂ { last_block = to_block };
          world = w₂;
        }))

  unfoldable pub poll_events : Indexer → World R → Polled
  unfolding scan
  poll_events i w =
      let (answer, w') = chain.get_block_number w in
      elim answer [
        | err e ↦ record { result = err (provider e); self = i; world = w' }
        | ok current_block ↦
            if leb current_block i.last_block
            then record { result = ok tt; self = i; world = w' }
            else scan i (i.last_block + 1) current_block w'
      ]

  -- The loop of `run`, a tick for each chain of the list; errors are logged and it goes on.
  unfoldable pub run : Indexer → List (World R) → Indexer
  unfolding poll_events
  run i [] = i
  run i (w ∷ ticks) = run (poll_events i w).self ticks
