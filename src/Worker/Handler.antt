-- ===== src/Worker/Handler.antt =====
-- crates/worker/src/handler.rs: what a worker does with a gossip message. The lock on `status` is
-- held from the test to the write, so each handler is one step. A task that the handler spawns is
-- part of its result.
use proof_job_zk.Base.{ℕ, String, List, Option, none, some, Result, ok, leb, ite, if◌then◌else◌}
use proof_job_zk.Core.Ids.{JobId, PeerId, PeerId-discrete}
use proof_job_zk.Core.Job.{Job}
use proof_job_zk.Core.Message.{
  GossipMessage, job_available, claim_job, claim_accepted, claim_rejected,
}
use proof_job_zk.Core.Envelope.{GossipEnvelope}
use proof_job_zk.Worker.State.{
  Runtime, Worker, WorkerStatus, is_idle, is_claiming, announce, idle, claiming, proving,
}

-- The arguments of `Worker::run_proving`.
pub record Spawned : Type 0 where
  pub job_id : JobId
  pub job : Job
  pub payload : List ℕ

module _ (R : Runtime) where
  -- What a handler returns.
  pub record Handled : Type 0 where
    pub result : Result String (Unit {0})
    pub self : Worker R
    pub spawned : Option Spawned

  unchanged : Worker R → Handled
  unchanged s = record { result = ok tt; self = s; spawned = none }

  claim_available : Worker R → Job → Handled
  unfolding announce
  claim_available s job =
      let (r, s') = announce R (claim_job job.id s.peer_id) (record s { status = claiming job }) in
      record { result = r; self = s'; spawned = none }

  unfoldable pub handle_job_available : Worker R → ℕ → Job → Handled
  unfolding claim_available unchanged
  handle_job_available s now job =
      if is_idle s.status
      then (if leb job.deadline now then unchanged s else claim_available s job)
      else unchanged s

  -- `mem::replace`, and the `if let` on the old status
  start_proving : Worker R → JobId → WorkerStatus → Handled
  start_proving s job_id (claiming job) = record {
    result = ok tt;
    self = record s { status = proving job };
    spawned = some (record { job_id = job_id; job = job; payload = job.payload });
  }
  start_proving s job_id _ = record {
    result = ok tt;
    self = record s { status = idle };
    spawned = none;
  }

  unfoldable pub handle_claim_accepted : Worker R → JobId → PeerId → Handled
  unfolding start_proving unchanged
  handle_claim_accepted s job_id worker_id =
      if is_claiming job_id s.status
      then ite (PeerId-discrete worker_id s.peer_id) (start_proving s job_id s.status)
          (unchanged (record s { status = idle }))
      else unchanged s

  unfoldable pub handle_claim_rejected : Worker R → JobId → String → Handled
  unfolding unchanged
  handle_claim_rejected s job_id reason =
      if is_claiming job_id s.status then unchanged (record s { status = idle }) else unchanged s

  unfoldable pub handle_payload : Worker R → ℕ → GossipMessage → Handled
  unfolding handle_job_available handle_claim_accepted handle_claim_rejected unchanged
  handle_payload s now (job_available job) = handle_job_available s now job
  handle_payload s now (claim_accepted job_id worker_id) = handle_claim_accepted s job_id worker_id
  handle_payload s now (claim_rejected job_id reason) = handle_claim_rejected s job_id reason
  handle_payload s now _ = unchanged s

  unfoldable pub handle_message : Worker R → ℕ → GossipEnvelope → Handled
  unfolding handle_payload
  handle_message s now envelope = handle_payload s now envelope.payload
