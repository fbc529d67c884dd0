-- ===== src/Coordinator/State.antt =====
-- crates/coordinator/src/lib.rs and config.rs: the state that the coordinator's tasks share.
use proof_job_zk.Base.{ℕ, String, Option, Result}
use proof_job_zk.Core.Ids.{JobId, JobId-discrete}
use proof_job_zk.Core.Job.{Job}
use proof_job_zk.Core.Message.{GossipMessage}
use proof_job_zk.Deps.DashMap.{DashMap}
use proof_job_zk.Deps.Gossip.{Gossip}
use proof_job_zk.Deps.Host.{SocketAddr}
use proof_job_zk.Deps.Provider.{Provider}
use proof_job_zk.Contract.{ContractClient}

-- What the coordinator stands on.
pub record Runtime : Type 1 where
  pub jobs_map : DashMap JobId Job JobId-discrete
  pub gossip : Gossip
  pub provider : Provider

pub record CoordinatorConfig : Type 0 where
  pub http_addr : SocketAddr
  pub gossip_addr : SocketAddr
  pub default_deadline_secs : ℕ
  pub rpc_url : Option String
  pub contract_address : Option String
  pub private_key : Option String

module _ (R : Runtime) where
  abbrev pub Jobs : Type 0
  Jobs = R.jobs_map.Map

  abbrev pub World : Type 0
  World = R.provider.World

  pub record AppState : Type 0 where
    pub jobs : Jobs
    pub gossip : R.gossip.Node
    pub contract : Option (ContractClient R.provider)
    pub config : CoordinatorConfig

  -- `state.jobs.get(&id)`
  abbrev pub job_at : JobId → AppState → Option Job
  job_at id s = R.jobs_map.get id s.jobs

  -- `state.gossip.broadcast(m).await`
  unfoldable pub announce : GossipMessage → AppState → Result String (Unit {0}) × AppState
  announce m s = let (r, node) = R.gossip.broadcast m s.gossip in (r, record s { gossip = node })
