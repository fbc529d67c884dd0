-- ===== src/Worker/Invariant.antt =====
-- What holds of a worker between any two steps (crates/worker/src/handler.rs and lib.rs).
use proof_job_zk.Base.{
  ℕ, ◌≡◌, refl, sym, ap, subst, ◌∙◌, List, [], ◌∷◌, ◌++◌, none, some, arith, ◌⊎◌, inl, inr, Result,
  ok, err,
}
use proof_job_zk.Core.Ids.{JobId, PeerId, TxHash, JobId-discrete, PeerId-discrete}
use proof_job_zk.Core.Job.{Job}
use proof_job_zk.Core.Message.{GossipMessage, claim_accepted}
use proof_job_zk.Contract.{ContractError, submit_proof}
use proof_job_zk.Prover.{Joined, ProofBundle, ProverError, prove}
use proof_job_zk.Worker.Proof.{ProofExtractionError, ProofComponents, extract_proof_components}
use proof_job_zk.Worker.State.{Runtime, Worker, World, WorkerStatus}
use proof_job_zk.Worker.Handler.{
  Spawned, Handled, handle_claim_accepted, handle_payload, handle_message,
}
use proof_job_zk.Worker.Task.{
  after_submit, submit_components, Task, Stepped, System, Step, message, task, step_task,
  after_prove,
}

-- The status that a task in its place relies on.
abbrev pub phase : Task → WorkerStatus
phase (Task.proving t) = WorkerStatus.proving t.job
phase (Task.submitting job _) = WorkerStatus.submitting job
phase (Task.announcing job _) = WorkerStatus.submitting job
phase (Task.finishing job) = WorkerStatus.submitting job

-- A spawned task is called with its job's own identifier and payload.
abbrev pub IsOwn : Spawned → Type 0
IsOwn t = (t.job_id ≡ t.job.id) × (t.payload ≡ t.job.payload)

abbrev pub IsOwnTask : Task → Type 0
IsOwnTask (Task.proving t) = IsOwn t
IsOwnTask _ = Unit

-- No task is needed: the worker is idle, or waits for the answer to a claim.
abbrev pub IsResting : WorkerStatus → Type 0
IsResting WorkerStatus.idle = Unit
IsResting (WorkerStatus.claiming _) = Unit
IsResting _ = ⊥

module _ (R : Runtime) where
  pub data Inv (s : System R) : Type 0 where
    resting : s.tasks ≡ [] → IsResting s.worker.status → Inv s
    working : (t : Task) → s.tasks ≡ t ∷ [] → s.worker.status ≡ phase t → IsOwnTask t → Inv s

  -- What a resting worker may become: at rest again, or proving with one task spawned.
  abbrev pub RestsOrProves : Handled R → Type 0
  RestsOrProves h =
      ((h.spawned ≡ none) × IsResting h.self.status)
      ⊎ ((t : Spawned) × (h.spawned ≡ some t)
          × (h.self.status ≡ WorkerStatus.proving t.job)
          × IsOwn t)

  accepted_resting :
      (s : Worker R) (job_id : JobId) (worker_id : PeerId) (status : WorkerStatus)
      → s.status ≡ status
      → IsResting status
      → RestsOrProves (handle_claim_accepted R s job_id worker_id)
  unfolding handle_claim_accepted
  accepted_resting s job_id worker_id WorkerStatus.idle e rest = inl (ground arith)
  accepted_resting s job_id worker_id (WorkerStatus.claiming job) e rest =
      elim (JobId-discrete job.id job_id) [
        | no p ↦ inl (ground arith)
        | yes p ↦ elim (PeerId-discrete worker_id s.peer_id) [
          | no q ↦ inl (ground arith)
          | yes q ↦ inr (
            record { job_id = job_id; job = job; payload = job.payload },
            ground arith,
            ground arith,
            (sym p, refl),
          )
        ]
      ]
  accepted_resting s job_id worker_id (WorkerStatus.proving job) e rest = absurd rest
  accepted_resting s job_id worker_id (WorkerStatus.proof_ready job b) e rest = absurd rest
  accepted_resting s job_id worker_id (WorkerStatus.submitting job) e rest = absurd rest

  handle_resting :
      (s : Worker R) (now : ℕ) (m : GossipMessage)
      → IsResting s.status
      → RestsOrProves (handle_payload R s now m)
  unfolding handle_payload
  handle_resting s now (claim_accepted job_id worker_id) rest =
      accepted_resting s job_id worker_id s.status refl rest
  handle_resting s now _ rest = inl (ground arith)

  pub handle_busy :
      (s : Worker R) (now : ℕ) (m : GossipMessage) (t : Task)
      → s.status ≡ phase t
      → let h = handle_payload R s now m in (h.spawned ≡ none) × (h.self.status ≡ s.status)
  unfolding handle_payload
  handle_busy s now m t busy = ground arith

  -- What a step of the task may lead to: its end, at rest, or its next phase.
  abbrev pub EndsOrGoesOn : Stepped R → Type 0
  EndsOrGoesOn r =
      ((r.task ≡ none) × (r.self.status ≡ WorkerStatus.idle))
      ⊎ ((t : Task) × (r.task ≡ some t) × (r.self.status ≡ phase t) × IsOwnTask t)

  after_prove-phase :
      (t : Spawned) (r : Result ProverError ProofBundle) (s : Worker R) (w : World R)
      → s.status ≡ WorkerStatus.proving t.job
      → IsOwn t
      → EndsOrGoesOn (after_prove R t r s w)
  unfolding after_prove
  after_prove-phase t (ok bundle) s w busy own =
      inr (Task.submitting t.job bundle, ground arith, ground arith, tt)
  after_prove-phase t (err e) s w busy own = inl (ground arith)

  after_submit-phase :
      (job : Job) (answer : Result ContractError TxHash × World R) (s : Worker R)
      → s.status ≡ WorkerStatus.submitting job
      → EndsOrGoesOn (after_submit R job answer s)
  unfolding after_submit
  after_submit-phase job (ok tx, w) s busy = inr (Task.announcing job tx, refl, busy, tt)
  after_submit-phase job (err e, w) s busy = inr (Task.finishing job, refl, busy, tt)

  submit-phase :
      (job : Job) (r : Result ProofExtractionError ProofComponents) (s : Worker R) (w : World R)
      → s.status ≡ WorkerStatus.submitting job
      → EndsOrGoesOn (submit_components R job r s w)
  unfolding submit_components
  submit-phase job (err e) s w busy = inr (Task.finishing job, refl, busy, tt)
  submit-phase job (ok c) s w busy =
      after_submit-phase job (submit_proof R.provider s.chain job.id c.journal c.seal w) s busy

  -- A task that relies on its phase finds it: it goes on into the next phase, or ends at rest.
  pub step_task-phase :
      (ending : Joined R.zkvm) (t : Task) (s : Worker R) (w : World R)
      → s.status ≡ phase t
      → IsOwnTask t
      → EndsOrGoesOn (step_task R ending t s w)
  unfolding step_task
  step_task-phase ending (Task.proving t) s w busy own =
      after_prove-phase t (prove R.zkvm ending t.job_id t.payload) s w busy own
  step_task-phase ending (Task.submitting job bundle) s w busy own =
      submit-phase job (extract_proof_components R.zkvm bundle) s w busy
  step_task-phase ending (Task.announcing job tx) s w busy own =
      inr (Task.finishing job, refl, busy, tt)
  step_task-phase ending (Task.finishing job) s w busy own = inl (ground arith)

  not-singleton : (u : Task) (before after : List Task) → [] ≡ before ++ u ∷ after → ⊥
  not-singleton u [] after e = cc
  not-singleton u (x ∷ before) after e = cc

  singleton :
      {t u : Task} (before after : List Task)
      → t ∷ [] ≡ before ++ u ∷ after
      → (before ≡ []) × (u ≡ t) × (after ≡ [])
  singleton [] after e = (refl, cc, cc)
  singleton (x ∷ []) after e = absurd cc
  singleton (x ∷ y ∷ before) after e = absurd cc

  -- Every step, of a message or of a task however its proving ends, keeps this: the worker has no
  -- task and is idle or claiming; or it has exactly one task, its status is the one that the task
  -- expects in its place, and a task that proves has its job's own identifier and payload.
  pub Step-Inv : {s u : System R} → Step R s u → Inv s → Inv u
  unfolding handle_message
  Step-Inv (message s now envelope) (resting none_ rest) =
      elim (handle_resting s.worker now envelope.payload rest) [
        | inl (quiet, still) ↦ resting (ground arith) still
        | inr (t, spawned, status, own) ↦ working (Task.proving t) (ground arith) status own
      ]
  Step-Inv (message s now envelope) (working t one busy own) =
      let (quiet, kept) = handle_busy s.worker now envelope.payload t busy in
      working t (ground arith) (kept ∙ busy) own
  Step-Inv (task s before t after ending w at e) (resting none_ rest) =
      absurd (not-singleton t before after (sym none_ ∙ at))
  Step-Inv (task s before t after ending w at e) (working t' one busy own) =
      let (front, same, back) = singleton before after (sym one ∙ at) in
      elim (step_task-phase ending t s.worker w (busy ∙ ap phase (sym same))
        (subst IsOwnTask (sym same) own)) [
          | inl (ended, status) ↦ resting (ground arith) (ground arith)
          | inr (t'', goes_on, status, own') ↦ working t'' (ground arith) (ground arith) own'
        ]

  pub data Reach (s : System R) : System R → Type 0 where
    here : Reach s s
    next : {t u : System R} → Reach s t → Step R t u → Reach s u

  -- So it holds in every state that is reached from one where it holds.
  pub Reach-Inv : {s u : System R} → Reach s u → Inv s → Inv u
  Reach-Inv here v = v
  Reach-Inv (next r st) v = Step-Inv st (Reach-Inv r v)
