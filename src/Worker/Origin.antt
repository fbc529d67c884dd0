-- ===== src/Worker/Origin.antt =====
-- What a task of crates/worker goes back to: an acceptance that names the worker and the job.
use proof_job_zk.Base.{
  ℕ, ◌≡◌, refl, sym, ap, ◌∙◌, some, Result, ok, err, arith, inl, inr, Bool-cases,
}
use proof_job_zk.Core.Ids.{JobId, JobId-discrete, PeerId, PeerId-discrete, TxHash}
use proof_job_zk.Core.Job.{Job}
use proof_job_zk.Core.Message.{
  GossipMessage, job_available, claim_accepted, claim_rejected, claim_job, job_completed,
}
use proof_job_zk.Contract.{ContractError, submit_proof}
use proof_job_zk.Prover.{Joined, ProofBundle, ProverError, prove}
use proof_job_zk.Worker.Proof.{ProofExtractionError, ProofComponents, extract_proof_components}
use proof_job_zk.Worker.State.{Runtime, Worker, World, WorkerStatus, is_proving}
use proof_job_zk.Worker.Handler.{Spawned, handle_claim_accepted, handle_payload}
use proof_job_zk.Worker.Task.{
  Task, Stepped, step_task, after_prove, after_submit, submit_components,
}

-- The job that a task is about.
abbrev pub task_job : Task → Job
task_job (Task.proving t) = t.job
task_job (Task.submitting job _) = job
task_job (Task.announcing job _) = job
task_job (Task.finishing job) = job

same_job : (t u : Task) → some t ≡ some u → task_job u ≡ task_job t
same_job t u e = let same : u ≡ t = cc in ap task_job same

module _ (R : Runtime) where
  accepted-spawned :
      (s : Worker R) (job_id : JobId) (worker_id : PeerId) (t : Spawned) (status : WorkerStatus)
      → s.status ≡ status
      → (handle_claim_accepted R s job_id worker_id).spawned ≡ some t
      → (t.job.id ≡ job_id) × (worker_id ≡ s.peer_id)
  unfolding handle_claim_accepted
  accepted-spawned s job_id worker_id t WorkerStatus.idle e h = absurd (ground arith)
  accepted-spawned s job_id worker_id t (WorkerStatus.proving job) e h = absurd (ground arith)
  accepted-spawned s job_id worker_id t (WorkerStatus.proof_ready job b) e h = absurd (ground arith)
  accepted-spawned s job_id worker_id t (WorkerStatus.submitting job) e h = absurd (ground arith)
  accepted-spawned s job_id worker_id t (WorkerStatus.claiming job) e h =
      elim (JobId-discrete job.id job_id) [
        | no p ↦ absurd (ground arith)
        | yes p ↦ elim (PeerId-discrete worker_id s.peer_id) [
          | no q ↦ absurd (ground arith)
          | yes q ↦
              let same : record { job_id = job_id; job = job; payload = job.payload } ≡ t =
                ground arith in
              (ap (λ (x : Spawned). x.job.id) (sym same) ∙ p, q)
        ]
      ]

  -- A task is spawned only by an acceptance of the job for the worker itself.
  pub handle_payload-spawned :
      (s : Worker R) (now : ℕ) (m : GossipMessage) (t : Spawned)
      → (handle_payload R s now m).spawned ≡ some t
      → m ≡ claim_accepted t.job.id s.peer_id
  unfolding handle_payload
  handle_payload-spawned s now (claim_accepted job_id worker_id) t h =
      let (job, peer) = accepted-spawned s job_id worker_id t s.status refl h in rw (job, peer) refl
  handle_payload-spawned s now (job_available job) t h = absurd (ground arith)
  handle_payload-spawned s now (claim_rejected job_id reason) t h = absurd (ground arith)
  handle_payload-spawned s now (claim_job job_id worker_id) t h = absurd (cc)
  handle_payload-spawned s now (job_completed job_id tx) t h = absurd (cc)

  pub handle_payload-peer_id :
      (s : Worker R) (now : ℕ) (m : GossipMessage)
      → (handle_payload R s now m).self.peer_id ≡ s.peer_id
  unfolding handle_payload handle_claim_accepted
  handle_payload-peer_id s now m = ground arith

  -- A step of a task leaves the worker's identity, and what follows is about the same job.
  abbrev pub GoesOnWith : Job → Worker R → Stepped R → Type 0
  GoesOnWith job s r =
      (r.self.peer_id ≡ s.peer_id) × ((t : Task) → r.task ≡ some t → task_job t ≡ job)

  after_prove-job :
      (t : Spawned) (r : Result ProverError ProofBundle) (s : Worker R) (w : World R)
      → GoesOnWith t.job s (after_prove R t r s w)
  unfolding after_prove
  after_prove-job t (ok bundle) s w = (
    ground arith,
    λ t' h. elim (Bool-cases (is_proving t.job_id s.status)) [
      | inl busy ↦ same_job (Task.submitting t.job bundle) t' (ground arith)
      | inr other ↦ absurd (ground arith)
    ],
  )
  after_prove-job t (err e) s w = (ground arith, λ t' h. absurd (ground arith))

  after_submit-job :
      (job : Job) (answer : Result ContractError TxHash × World R) (s : Worker R)
      → GoesOnWith job s (after_submit R job answer s)
  unfolding after_submit
  after_submit-job job (ok tx, w) s = (refl, λ t h. same_job (Task.announcing job tx) t h)
  after_submit-job job (err e, w) s = (refl, λ t h. same_job (Task.finishing job) t h)

  submit-job :
      (job : Job) (r : Result ProofExtractionError ProofComponents) (s : Worker R) (w : World R)
      → GoesOnWith job s (submit_components R job r s w)
  unfolding submit_components
  submit-job job (err e) s w = (refl, λ t h. same_job (Task.finishing job) t h)
  submit-job job (ok c) s w =
      after_submit-job job (submit_proof R.provider s.chain job.id c.journal c.seal w) s

  pub step_task-job :
      (ending : Joined R.zkvm) (t : Task) (s : Worker R) (w : World R)
      → GoesOnWith (task_job t) s (step_task R ending t s w)
  unfolding step_task
  step_task-job ending (Task.proving t) s w =
      after_prove-job t (prove R.zkvm ending t.job_id t.payload) s w
  step_task-job ending (Task.submitting job bundle) s w =
      submit-job job (extract_proof_components R.zkvm bundle) s w
  step_task-job ending (Task.announcing job tx) s w =
      (refl, λ t h. same_job (Task.finishing job) t h)
  step_task-job ending (Task.finishing job) s w = (ground arith, λ t h. absurd (cc))
