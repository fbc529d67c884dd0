-- ===== src/Coordinator/Handler.antt =====
-- crates/coordinator/src/gossip_handler.rs. The clock is the argument `now`; the chain is an
-- argument of what asks it.
use proof_job_zk.Base.{
  ℕ, Bool, true, false, String, List, [], ◌∷◌, none, some, Result, ok, err, if◌then◌else◌,
}
use proof_job_zk.Core.Ids.{JobId, PeerId, TxHash}
use proof_job_zk.Core.Job.{Job, JobStatus, is_pending, is_completed_status}
use proof_job_zk.Core.Message.{
  GossipMessage, claim_job, claim_accepted, claim_rejected, job_completed,
}
use proof_job_zk.Core.Envelope.{GossipEnvelope}
use proof_job_zk.Contract.{ContractError, is_completed}
use proof_job_zk.Coordinator.State.{Runtime, AppState, World, job_at, announce}

-- `job.job_status = JobStatus::Assigned { worker, assigned_at }`
unfoldable pub assign : PeerId → ℕ → Job → Job
assign worker_id now job = record job { job_status = JobStatus.assigned worker_id now }

-- the closure of `and_modify` in `handle_job_completed`
unfoldable pub mark_completed : TxHash → Job → Job
mark_completed tx_hash job =
    if is_completed_status job.job_status
    then job
    else record job { job_status = JobStatus.completed tx_hash }

module _ (R : Runtime) where
  unfoldable pub handle_claim :
      AppState R → ℕ → JobId → PeerId → Result String (Unit {0}) × AppState R
  handle_claim s now job_id worker_id = elim (job_at R job_id s) [
    | none ↦ announce R (claim_rejected job_id "job not found") s
    | some job ↦
        if is_pending job.job_status
        then announce R (claim_accepted job_id worker_id)
            (record s { jobs = R.jobs_map.modify job_id (assign worker_id now) s.jobs })
        else announce R (claim_rejected job_id "job already assigned") s
  ]

  -- The `match` on the answer of the chain, and what follows it.
  unfoldable pub settle_completed :
      AppState R → JobId → TxHash → Result ContractError Bool → AppState R
  settle_completed s job_id tx_hash (ok true) = record s {
    jobs = R.jobs_map.modify job_id (mark_completed tx_hash) s.jobs;
  }
  settle_completed s job_id tx_hash (ok false) = s
  settle_completed s job_id tx_hash (err e) = s

  unfoldable pub handle_job_completed : AppState R → JobId → TxHash → World R → AppState R × World R
  unfolding settle_completed is_completed
  handle_job_completed s job_id tx_hash w = elim s.contract [
    | none ↦ (s, w)
    | some contract ↦
        let (answer, w') = is_completed R.provider contract job_id w in
        (settle_completed s job_id tx_hash answer, w')
  ]

  unfoldable pub process_payload :
      AppState R
      → ℕ
      → World R
      → GossipMessage
      → record { result : Result String (Unit {0}); state : AppState R; world : World R }
  unfolding handle_claim handle_job_completed
  process_payload s now w (claim_job job_id worker_id) =
      let (r, s') = handle_claim s now job_id worker_id in
      record { result = r; state = s'; world = w }
  process_payload s now w (job_completed job_id tx_hash) =
      let (s', w') = handle_job_completed s job_id tx_hash w in
      record { result = ok tt; state = s'; world = w' }
  process_payload s now w _ = record { result = ok tt; state = s; world = w }

  unfoldable pub process_message :
      AppState R
      → ℕ
      → World R
      → GossipEnvelope
      → record { result : Result String (Unit {0}); state : AppState R; world : World R }
  unfolding process_payload
  process_message s now w envelope = process_payload s now w envelope.payload

  -- What `rx.recv().await` gives, with the time and the chain at which it is handled.
  pub data Received : Type 0 where
    message : ℕ → World R → GossipEnvelope → Received
    lagged : ℕ → Received
    closed : Received

  -- The loop. An error of a message is logged and the loop goes on; it ends when the channel
  -- closes.
  unfoldable pub run_gossip_handler : AppState R → List Received → AppState R
  unfolding process_message
  run_gossip_handler s [] = s
  run_gossip_handler s (closed ∷ _) = s
  run_gossip_handler s (lagged n ∷ rx) = run_gossip_handler s rx
  run_gossip_handler s (message now w envelope ∷ rx) =
      run_gossip_handler (process_message s now w envelope).state rx
