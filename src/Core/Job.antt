-- ===== src/Core/Job.antt =====
-- crates/core/src/job.rs and the `JobStatus` of crates/core/src/enums.rs. `u128` and `u64` fields
-- are plain numbers; `Address` is the 20 bytes that alloy's type wraps.
use proof_job_zk.Base.{ℕ, List, Bool, true, false, replicate}
use proof_job_zk.Core.Ids.{JobId, PeerId, TxHash}

pub record Address : Type 0 where
  pub bytes : List ℕ

-- `Address::ZERO`
abbrev pub zero_address : Address
zero_address = record { bytes = replicate 20 0 }

pub data JobStatus : Type 0 where
  pending : JobStatus
  assigned : PeerId → ℕ → JobStatus
  proving : JobStatus
  completed : TxHash → JobStatus
  failed : List ℕ → JobStatus
  expired : JobStatus

pub record Job : Type 0 where
  pub id : JobId
  pub job_status : JobStatus
  pub owner : Address
  pub payload : List ℕ
  pub reward : ℕ
  pub created_at : ℕ
  pub deadline : ℕ

pub record JobInput : Type 0 where
  pub job_id : JobId
  pub bytes : List ℕ  -- the field `data`

pub record JobOutput : Type 0 where
  pub job_id : JobId
  pub payload_hash : List ℕ
  pub result : List ℕ

-- `matches!(status, JobStatus::Pending)` and its kind.
abbrev pub is_pending : JobStatus → Bool
is_pending JobStatus.pending = true
is_pending _ = false

abbrev pub is_completed_status : JobStatus → Bool
is_completed_status (JobStatus.completed _) = true
is_completed_status _ = false

-- `matches!(status, JobStatus::Completed { .. } | JobStatus::Expired)`
abbrev pub is_settled : JobStatus → Bool
is_settled (JobStatus.completed _) = true
is_settled JobStatus.expired = true
is_settled _ = false
