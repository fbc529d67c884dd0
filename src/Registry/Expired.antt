-- ===== src/Registry/Expired.antt =====
-- An expired job at crates/coordinator: `expireJob` of contracts/src/JobRegistry.sol sets the flag
-- that `handle_job_completed` of gossip_handler.rs asks for.
use proof_job_zk.Base.{◌≡◌, ap, ◌∙◌, true, false, some, ok, ℕ, arith}
use proof_job_zk.Core.Ids.{JobId, TxHash}
use proof_job_zk.Core.Job.{Job, JobStatus, is_completed_status}
use proof_job_zk.Contract.{ContractClient, is_completed}
use proof_job_zk.Coordinator.Completion.{chain_confirms, handle_job_completed_lem}
use proof_job_zk.Coordinator.Handler.{handle_job_completed, mark_completed}
use proof_job_zk.Coordinator.State.{Runtime, AppState, World, job_at}
use proof_job_zk.Registry.{Registry, Precompiles, begin_expiry, Calls}
use proof_job_zk.Registry.Settled.{Calls-Keeps}
use proof_job_zk.Registry.Steps.{begin_expiry-Pays, paid-completed}

begin_expiry-completed :
    (P : Precompiles) (now : ℕ) (id : JobId) (s u : Registry)
    → begin_expiry P now id s ≡ ok u
    → u.completed id ≡ true
begin_expiry-completed P now id s u h =
    let (pays, _) = begin_expiry-Pays P now id s u h in
    ap (λ (r : Registry). r.completed id) pays.result ∙ paid-completed id pays.to pays.job.reward s

module _ (R : Runtime) (P : Precompiles) (registry_of : World R → Registry)
    (truthful : (c : ContractClient R.provider) (id : JobId) (w : World R)
      → (is_completed R.provider c id w).0 ≡ ok ((registry_of w).completed id)) where
  -- Where the chain answers `completed` from the contract: after a job has expired there, at any
  -- later time, a gossiped completion of it with any transaction hash marks it as completed by that
  -- hash, if the coordinator has a client of the contract and knows the job as not completed.
  pub expired_job-completed :
      (now : ℕ) (id : JobId) (before expiring : Registry) (w : World R) (s : AppState R)
      (c : ContractClient R.provider) (job : Job) (tx : TxHash)
      → begin_expiry P now id before ≡ ok expiring
      → Calls P expiring (registry_of w)
      → s.contract ≡ some c
      → job_at R id s ≡ some job
      → is_completed_status job.job_status ≡ false
      → job_at R id (handle_job_completed R s id tx w).0
        ≡ some (record job { job_status = JobStatus.completed tx })
  unfolding mark_completed chain_confirms
  expired_job-completed now id before expiring w s c job tx h calls client known fresh =
      let settled =
        (Calls-Keeps P calls).settled id (begin_expiry-completed P now id before expiring h) in
      let (entry, _, _, _) = handle_job_completed_lem R s id tx w id in
      let answer = truthful c id w in ground (arith, entry, answer, settled)
