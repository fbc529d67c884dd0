-- ===== src/Network/Progress.antt =====
-- A job on its way from its announcement to its completion, through crates/worker and
-- crates/coordinator.
use proof_job_zk.Base.{
  ℕ, ◌<◌, ◌≡◌, refl, ap, subst, ◌∙◌, true, false, List, [], ◌∷◌, some, ok, arith,
}
use proof_job_zk.Core.Ids.{PeerId, TxHash}
use proof_job_zk.Core.Job.{Job, JobStatus, is_pending, is_completed_status}
use proof_job_zk.Core.Message.{
  GossipMessage, job_available, claim_job, claim_accepted, job_completed,
}
use proof_job_zk.Core.Envelope.{GossipEnvelope}
use proof_job_zk.Contract.{ContractClient, submit_proof}
use proof_job_zk.Coordinator.Claims.{sent_by, handle_claim_lem}
use proof_job_zk.Coordinator.Completion.{chain_confirms, handle_job_completed_lem}
use proof_job_zk.Coordinator.Handler.{process_message, assign, mark_completed}
use proof_job_zk.Coordinator.State.{
  Runtime as CoordinatorRuntime, AppState, World as CoordinatorWorld, job_at,
}
use proof_job_zk.Prover.{ProofBundle, prove, joined}
use proof_job_zk.Worker.Finishing.{until_free}
use proof_job_zk.Worker.Handler.{handle_message}
use proof_job_zk.Worker.Proof.{ProofComponents, extract_proof_components}
use proof_job_zk.Worker.State.{Runtime as WorkerRuntime, Worker, World, WorkerStatus}
use proof_job_zk.Worker.Success.{sent, claims, starts, succeeds, four_turns}
use proof_job_zk.Worker.Task.{System, spawn}

module _ (R : CoordinatorRuntime) (W : WorkerRuntime) where
  -- The messages travel in some envelopes.
  module _ (envelope : GossipEnvelope) (job : Job) where
    abbrev carry : GossipMessage → GossipEnvelope
    carry m = record envelope { payload = m }

    -- The worker hears of the job; the coordinator hears the claim; the worker hears the
    -- acceptance; its task goes its way; the coordinator hears the completion.
    abbrev pub claimed : Worker W → ℕ → Worker W
    claimed s now = (handle_message W s now (carry (job_available job))).self

    abbrev pub accepted : AppState R → Worker W → ℕ → CoordinatorWorld R → AppState R
    accepted c s now v = (process_message R c now v (carry (claim_job job.id s.peer_id))).state

    abbrev pub proved :
        Worker W → PeerId → ℕ → (ℕ → List (ℕ × GossipEnvelope)) → (ℕ → World W) → System W
    proved s worker_id now heard w =
        let h = handle_message W s now (carry (claim_accepted job.id worker_id)) in
        until_free W (four_turns W heard w) h.self (spawn W h.spawned)

    abbrev pub settled : AppState R → TxHash → ℕ → CoordinatorWorld R → AppState R
    settled c tx now v = (process_message R c now v (carry (job_completed job.id tx))).state

    claimed_lem :
        (s : Worker W) (now : ℕ)
        → s.status ≡ WorkerStatus.idle
        → now < job.deadline
        → ((claimed s now).status ≡ WorkerStatus.claiming job)
          × ((claimed s now).peer_id ≡ s.peer_id)
          × ((claimed s now).chain ≡ s.chain)
          × (sent W (claimed s now) ≡ claim_job job.id s.peer_id ∷ sent W s)
    unfolding handle_message
    claimed_lem s now idle early = claims W s now job idle early

    accepted_lem :
        (c : AppState R) (s : Worker W) (now : ℕ) (v : CoordinatorWorld R)
        → job_at R job.id c ≡ some job
        → is_pending job.job_status ≡ true
        → let c' = accepted c s now v in
          (sent_by R c' ≡ claim_accepted job.id s.peer_id ∷ sent_by R c)
          × (c'.contract ≡ c.contract)
          × (job_at R job.id c'
              ≡ some (record job { job_status = JobStatus.assigned s.peer_id now }))
    unfolding process_message assign
    accepted_lem c s now v there fresh =
        let (answered, a) = handle_claim_lem R c now job.id s.peer_id in
        (ground (arith, a.log), a.contract_kept, ground (arith, a.entries job.id))

    abbrev Ended : Worker W → System W → TxHash → Type 0
    Ended s u tx =
        (u.tasks ≡ [])
        × (u.worker.status ≡ WorkerStatus.idle)
        × (sent W u.worker ≡ job_completed job.id tx ∷ sent W s)

    proved_lem :
        (s : Worker W) (now : ℕ) (heard : ℕ → List (ℕ × GossipEnvelope)) (w : ℕ → World W)
        (bundle : ProofBundle) (components : ProofComponents) (tx : TxHash)
        → s.status ≡ WorkerStatus.claiming job
        → prove W.zkvm joined job.id job.payload ≡ ok bundle
        → extract_proof_components W.zkvm bundle ≡ ok components
        → (submit_proof W.provider s.chain job.id components.journal components.seal (w 1)).0
          ≡ ok tx
        → let u = proved s s.peer_id now heard w in Ended s u tx
    unfolding handle_message
    proved_lem s now heard w bundle components tx claiming made cut taken =
        let (self, spawned) = starts W s now job claiming in
        rw (self, spawned)
          (succeeds W job bundle components tx (record s { status = WorkerStatus.proving job })
            heard w refl made cut taken)

    settled_lem :
        (c : AppState R) (tx : TxHash) (now : ℕ) (v : CoordinatorWorld R) (entry : Job)
        → job_at R job.id c ≡ some entry
        → is_completed_status entry.job_status ≡ false
        → chain_confirms R c job.id v ≡ true
        → job_at R job.id (settled c tx now v)
          ≡ some (record entry { job_status = JobStatus.completed tx })
    unfolding process_message mark_completed
    settled_lem c tx now v entry there still confirms =
        let (entries, _, _, _) = handle_job_completed_lem R c job.id tx v job.id in
        ground (arith, entries)

    kept_confirms :
        (c c' : AppState R) (v : CoordinatorWorld R)
        → c'.contract ≡ c.contract
        → chain_confirms R c job.id v ≡ true
        → chain_confirms R c' job.id v ≡ true
    unfolding chain_confirms
    kept_confirms c c' v kept confirms = rw kept confirms

    -- A pending job whose deadline is not over comes to its completion: an idle worker that hears
    -- of it claims it; the coordinator that hears the claim accepts it for that worker; the worker
    -- that hears this takes four turns of its task, whatever it hears between them, announces the
    -- transaction and is idle again without a task; and the coordinator that hears that holds the
    -- job as completed by the transaction. That needs a proof that is made and whose components
    -- are extracted, a submission that gives a transaction, and a chain that then confirms it.
    pub job_completes :
        (c : AppState R) (s : Worker W) (t : ℕ → ℕ) (v v' : CoordinatorWorld R)
        (heard : ℕ → List (ℕ × GossipEnvelope)) (w : ℕ → World W) (bundle : ProofBundle)
        (components : ProofComponents) (tx : TxHash)
        → job_at R job.id c ≡ some job
        → is_pending job.job_status ≡ true
        → s.status ≡ WorkerStatus.idle
        → t 0 < job.deadline
        → prove W.zkvm joined job.id job.payload ≡ ok bundle
        → extract_proof_components W.zkvm bundle ≡ ok components
        → (submit_proof W.provider s.chain job.id components.journal components.seal (w 1)).0
          ≡ ok tx
        → chain_confirms R c job.id v' ≡ true
        → let s' = claimed s (t 0) in
          let c' = accepted c s (t 1) v in
          let u = proved s' s.peer_id (t 2) heard w in
          (sent W s' ≡ claim_job job.id s.peer_id ∷ sent W s)
          × (sent_by R c' ≡ claim_accepted job.id s.peer_id ∷ sent_by R c)
          × (sent W u.worker ≡ job_completed job.id tx ∷ sent W s')
          × (u.tasks ≡ [])
          × (u.worker.status ≡ WorkerStatus.idle)
          × (job_at R job.id (settled c' tx (t 3) v')
              ≡ some (record job { job_status = JobStatus.completed tx }))
    job_completes c s t v v' heard w bundle components tx there fresh idle early made cut taken
          confirms =
        let s' = claimed s (t 0) in
        let c' = accepted c s (t 1) v in
        let (claiming, named, linked, told) = claimed_lem s (t 0) idle early in
        let (answered, kept, assigned) = accepted_lem c s (t 1) v there fresh in
        let (ended, free, announced) =
          subst (λ (worker_id : PeerId). Ended s' (proved s' worker_id (t 2) heard w) tx) named
            (proved_lem s' (t 2) heard w bundle components tx claiming made cut (
              ap
                (λ (k : ContractClient W.provider).
                  (submit_proof W.provider k job.id components.journal components.seal (w 1)).0)
                linked
              ∙ taken)) in
        (
          told,
          answered,
          announced,
          ended,
          free,
          settled_lem c' tx (t 3) v' _ assigned refl (kept_confirms c c' v' kept confirms),
        )
