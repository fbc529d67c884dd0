-- ===== src/Worker/Success.antt =====
-- A worker whose proof is made and whose submission is taken (crates/worker): what it announces.
use proof_job_zk.Base.{
  ℕ, ◌<◌, ◌≡◌, refl, ap, ◌∙◌, List, [], ◌∷◌, ◌++◌, Option, none, some, ok, arith,
}
use proof_job_zk.Core.Ids.{TxHash}
use proof_job_zk.Core.Job.{Job}
use proof_job_zk.Core.Message.{
  GossipMessage, job_available, claim_job, claim_accepted, job_completed,
}
use proof_job_zk.Core.Envelope.{GossipEnvelope}
use proof_job_zk.Contract.{submit_proof}
use proof_job_zk.Prover.{ProofBundle, prove, joined}
use proof_job_zk.Worker.Proof.{ProofComponents, extract_proof_components}
use proof_job_zk.Worker.State.{Runtime, Worker, World, WorkerStatus, announce}
use proof_job_zk.Worker.Handler.{Spawned, handle_message, handle_payload}
use proof_job_zk.Worker.Finishing.{Turn, heard, goes_on, until_free}
use proof_job_zk.Worker.Invariant.{phase}
use proof_job_zk.Worker.Task.{Task, System, step_task, spawn, waiting}

module _ (W : Runtime) where
  abbrev pub sent : Worker W → List GossipMessage
  sent s = W.gossip.sent s.gossip

  -- Messages that are heard one after the other.
  abbrev pub hearing : List (ℕ × GossipEnvelope) → List (Turn W)
  hearing [] = []
  hearing ((now, envelope) ∷ rest) = heard now envelope ∷ hearing rest

  -- An idle worker claims a job whose deadline is not over.
  pub claims :
      (s : Worker W) (now : ℕ) (job : Job)
      → s.status ≡ WorkerStatus.idle
      → now < job.deadline
      → let s' = (handle_payload W s now (job_available job)).self in
        (s'.status ≡ WorkerStatus.claiming job)
        × (s'.peer_id ≡ s.peer_id)
        × (s'.chain ≡ s.chain)
        × (sent s' ≡ claim_job job.id s.peer_id ∷ sent s)
  unfolding handle_payload
  claims s now job idle early = (
    ground arith,
    ground arith,
    ground arith,
    ground (arith, W.gossip.sent-broadcast (claim_job job.id s.peer_id) s.gossip),
  )

  -- Its own acceptance starts the task.
  pub starts :
      (s : Worker W) (now : ℕ) (job : Job)
      → s.status ≡ WorkerStatus.claiming job
      → let h = handle_payload W s now (claim_accepted job.id s.peer_id) in
        (h.self ≡ record s { status = WorkerStatus.proving job })
        × (h.spawned ≡ some (record { job_id = job.id; job = job; payload = job.payload }))
  unfolding handle_payload
  starts s now job claiming = (ground arith, ground arith)

  busy-same :
      (s : Worker W) (now : ℕ) (m : GossipMessage) (t : Task)
      → s.status ≡ phase t
      → let h = handle_payload W s now m in (h.self ≡ s) × (spawn W h.spawned ≡ [])
  unfolding handle_payload
  busy-same s now m t busy = ground arith

  deaf :
      (heard_ : List (ℕ × GossipEnvelope)) (turns : List (Turn W)) (s : Worker W) (t : Task)
      → s.status ≡ phase t
      → until_free W (hearing heard_ ++ turns) s (t ∷ []) ≡ until_free W turns s (t ∷ [])
  unfolding until_free handle_message
  deaf [] turns s t busy = refl
  deaf ((now, envelope) ∷ rest) turns s t busy =
      let (same, quiet) = busy-same s now envelope.payload t busy in
      let next = hearing rest ++ turns in
      let h = handle_payload W s now envelope.payload in
      ap (λ (x : Worker W). until_free W next x (t ∷ spawn W h.spawned)) same
      ∙ ap (λ (more : List Task). until_free W next s (t ∷ more)) quiet
      ∙ deaf rest turns s t busy

  last :
      (turns : List (Turn W)) (s : Worker W) (task next : Option Task)
      → task ≡ next
      → until_free W turns s (waiting W task ++ []) ≡ until_free W turns s (waiting W next)
  last turns s none next same = ap (λ (o : Option Task). until_free W turns s (waiting W o)) same
  last turns s (some t) next same =
      ap (λ (o : Option Task). until_free W turns s (waiting W o)) same

  -- The task goes on, after what is heard.
  leg :
      (heard_ : List (ℕ × GossipEnvelope)) (w : World W) (turns : List (Turn W)) (s s' : Worker W)
      (t : Task) (next : Option Task)
      → s.status ≡ phase t
      → (step_task W joined t s w).self ≡ s'
      → (step_task W joined t s w).task ≡ next
      → until_free W (hearing heard_ ++ goes_on joined w ∷ turns) s (t ∷ [])
        ≡ until_free W turns s' (waiting W next)
  unfolding until_free
  leg heard_ w turns s s' t next busy to on =
      deaf heard_ (goes_on joined w ∷ turns) s t busy
      ∙ ap
          (λ (x : Worker W). until_free W turns x (waiting W (step_task W joined t s w).task ++ []))
          to
      ∙ last turns s' (step_task W joined t s w).task next on

  -- The turns of a task, with the messages that are heard before each.
  abbrev pub four_turns : (ℕ → List (ℕ × GossipEnvelope)) → (ℕ → World W) → List (Turn W)
  four_turns heard_ w =
      hearing (heard_ 0)
      ++ (goes_on joined (w 0)
          ∷ (hearing (heard_ 1)
              ++ (goes_on joined (w 1)
                  ∷ (hearing (heard_ 2)
                      ++ (goes_on joined (w 2)
                          ∷ (hearing (heard_ 3) ++ (goes_on joined (w 3) ∷ [])))))))

  module _ (job : Job) (bundle : ProofBundle) (components : ProofComponents) (tx : TxHash) where
    -- A task whose proof is made and whose submission is taken announces the transaction and ends,
    -- whatever the worker hears meanwhile.
    pub succeeds :
        (s : Worker W) (heard_ : ℕ → List (ℕ × GossipEnvelope)) (w : ℕ → World W)
        → s.status ≡ WorkerStatus.proving job
        → prove W.zkvm joined job.id job.payload ≡ ok bundle
        → extract_proof_components W.zkvm bundle ≡ ok components
        → (submit_proof W.provider s.chain job.id components.journal components.seal (w 1)).0
          ≡ ok tx
        → let u =
            until_free W
              (four_turns heard_ w)
              s
              (spawn W (some (record { job_id = job.id; job = job; payload = job.payload }))) in
          (u.tasks ≡ [])
          × (u.worker.status ≡ WorkerStatus.idle)
          × (sent u.worker ≡ job_completed job.id tx ∷ sent s)
    unfolding until_free step_task
    succeeds s heard_ w busy made cut taken =
        let spawned : Spawned = record { job_id = job.id; job = job; payload = job.payload } in
        let s₁ : Worker W = record s { status = WorkerStatus.submitting job } in
        let s₂ = (announce W (job_completed job.id tx) s₁).1 in
        let s₃ : Worker W = record s₂ { status = WorkerStatus.idle } in
        let ended =
          leg (heard_ 0) (w 0) _ s s₁ (Task.proving spawned) (some (Task.submitting job bundle))
            busy (ground arith) (ground arith)
          ∙ leg (heard_ 1) (w 1) _ s₁ s₁ (Task.submitting job bundle)
              (some (Task.announcing job tx)) refl (ground arith) (ground arith)
          ∙ leg (heard_ 2) (w 2) _ s₁ s₂ (Task.announcing job tx) (some (Task.finishing job)) refl
              (ground arith) (ground arith)
          ∙ leg (heard_ 3) (w 3) [] s₂ s₃ (Task.finishing job) none refl (ground arith)
              (ground arith) in
        (
          ap (λ (u : System W). u.tasks) ended,
          ap (λ (u : System W). u.worker.status) ended,
          ap (λ (u : System W). sent u.worker) ended
              ∙ W.gossip.sent-broadcast (job_completed job.id tx) s.gossip,
        )
