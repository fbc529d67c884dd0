-- ===== src/Worker/State.antt =====
-- crates/worker/src/lib.rs: the data of a worker.
use proof_job_zk.Base.{String, Bool, true, false, Result, ite}
use proof_job_zk.Core.Ids.{JobId, JobId-discrete, PeerId}
use proof_job_zk.Core.Job.{Job, Address}
use proof_job_zk.Core.Message.{GossipMessage}
use proof_job_zk.Deps.Gossip.{Gossip}
use proof_job_zk.Deps.Host.{SocketAddr}
use proof_job_zk.Deps.Provider.{Provider}
use proof_job_zk.Deps.Zkvm.{Zkvm}
use proof_job_zk.Contract.{ContractClient}
use proof_job_zk.Prover.{ProofBundle}

pub record WorkerConfig : Type 0 where
  pub gossip_addr : SocketAddr
  pub coordinator_addr : SocketAddr
  pub rpc_url : String
  pub private_key : String
  pub registry_address : Address

pub data WorkerStatus : Type 0 where
  idle : WorkerStatus
  claiming : Job → WorkerStatus
  proving : Job → WorkerStatus
  proof_ready : Job → ProofBundle → WorkerStatus
  submitting : Job → WorkerStatus

-- What a worker stands on.
pub record Runtime : Type 1 where
  pub gossip : Gossip
  pub provider : Provider
  pub zkvm : Zkvm

-- `matches!(status, WorkerStatus::Claiming { job } if job.id == job_id)`, and its kind.
abbrev pub is_claiming : JobId → WorkerStatus → Bool
is_claiming job_id (WorkerStatus.claiming job) = ite (JobId-discrete job.id job_id) true false
is_claiming job_id _ = false

abbrev pub is_proving : JobId → WorkerStatus → Bool
is_proving job_id (WorkerStatus.proving job) = ite (JobId-discrete job.id job_id) true false
is_proving job_id _ = false

abbrev pub is_submitting : JobId → WorkerStatus → Bool
is_submitting job_id (WorkerStatus.submitting job) = ite (JobId-discrete job.id job_id) true false
is_submitting job_id _ = false

abbrev pub is_idle : WorkerStatus → Bool
is_idle WorkerStatus.idle = true
is_idle _ = false

module _ (R : Runtime) where
  abbrev pub World : Type 0
  World = R.provider.World

  pub record Worker : Type 0 where
    pub peer_id : PeerId
    pub status : WorkerStatus
    pub gossip : R.gossip.Node
    pub chain : ContractClient R.provider
    pub config : WorkerConfig

  -- `self.gossip.broadcast(m).await`
  unfoldable pub announce : GossipMessage → Worker → Result String (Unit {0}) × Worker
  announce m s = let (r, node) = R.gossip.broadcast m s.gossip in (r, record s { gossip = node })

  -- `Worker::new` behind the making of its peer id, its gossip node and its contract client
  unfoldable pub new : PeerId → R.gossip.Node → ContractClient R.provider → WorkerConfig → Worker
  new peer_id gossip chain config = record {
    peer_id = peer_id;
    status = WorkerStatus.idle;
    gossip = gossip;
    chain = chain;
    config = config;
  }
