-- ===== src/Core/Message.antt =====
-- The `GossipMessage` of crates/core/src/enums.rs.
use proof_job_zk.Base.{String}
use proof_job_zk.Core.Ids.{JobId, PeerId, TxHash}
use proof_job_zk.Core.Job.{Job}

pub data GossipMessage : Type 0 where
  job_available : Job → GossipMessage
  claim_job : JobId → PeerId → GossipMessage
  claim_accepted : JobId → PeerId → GossipMessage
  claim_rejected : JobId → String → GossipMessage
  job_completed : JobId → TxHash → GossipMessage
