-- ===== src/Coordinator/Tasks/Entries.antt =====
-- A property of every entry of the job table, through the turns of the coordinator's tasks: what
-- each write has to keep (`Rules`) and what the tasks that wait have to know (`Fits`).
pub mod Turns
use mathlib.Core.List.{Mem, Memᴰ}
use mathlib.Core.Option
use mathlib.Core.Option.{get_or}
use proof_job_zk.Base.{
  ℕ, zero, suc, ◌≡◌, refl, sym, ap, subst, ◌∙◌, true, List, [], ◌∷◌, ◌++◌, Option, none, some, ok,
  arith, inl, inr, All, All-append, Option-cases, Bool-cases, Result-cases,
}
use proof_job_zk.Core.Ids.{JobId, JobId-discrete, PeerId, TxHash}
use proof_job_zk.Core.Job.{Job, Address, is_pending}
use proof_job_zk.Core.Message.{GossipMessage, claim_job, job_completed}
use proof_job_zk.Deps.Encoding.{Encoding}
use proof_job_zk.Deps.Provider.{CompletedEvent, ExpiredEvent}
use proof_job_zk.Coordinator.Api.{
  CreateJobRequest, parse_payload, parse_owner, new_job, job_deadline, submit_on_chain,
}
use proof_job_zk.Coordinator.Completion.{chain_confirms, handle_job_completed_lem}
use proof_job_zk.Coordinator.Handler
use proof_job_zk.Coordinator.Handler.{assign}
use proof_job_zk.Coordinator.State.{Runtime, AppState, Jobs, World, job_at, announce}
use proof_job_zk.Coordinator.System.{Process}
use proof_job_zk.Coordinator.Tasks.{
  Task, submitting, announcing, claiming, replying, verifying, rebroadcasting, polling,
  fetching_completed, marking_completed, fetching_expired, marking_expired, Arrival, message,
  request, tick, poll_tick, Stepped, Tasks, Turn, arrives, goes_on, advance, begin, begin_message,
  begin_request, waiting, take_turn, step, run, claim_step, submit_step, poll_step, fetch_completed,
  fetch_expired,
}
use proof_job_zk.Indexer
use proof_job_zk.Indexer.{default_hash}

-- The property, and what is known of a claim, a completion, a log and a request.
pub record Property : Type 1 where
  pub Entry : JobId → Job → Type 0
  pub Claims : ℕ → PeerId → Type 0
  pub Hears : TxHash → Type 0
  pub Logs : CompletedEvent → Type 0
  pub Asks : CreateJobRequest → List ℕ → ℕ → Type 0

module _ (R : Runtime) where
  open R use {jobs_map as table}

  abbrev pub AllEntries : (JobId → Job → Type 0) → Jobs R → Type 0
  AllEntries Entry jobs = (id : JobId) (job : Job) → table.get id jobs ≡ some job → Entry id job

  module _ (Entry : JobId → Job → Type 0) where
    moved : {id k : JobId} {new job : Job} → id ≡ k → new ≡ job → Entry k new → Entry id job
    moved {id} {job = job} p same fits =
        subst (λ (i : JobId). Entry i job) (sym p) (subst (Entry _) same fits)

    pub insert-AllEntries :
        (k : JobId) (new : Job) (jobs : Jobs R)
        → Entry k new
        → AllEntries Entry jobs
        → AllEntries Entry (table.insert k new jobs)
    insert-AllEntries k new jobs fits all id job found = elim (JobId-discrete id k) [
      | yes p ↦
          let same : new ≡ job = ground (arith, table.get-insert id k new jobs) in moved p same fits
      | no p ↦ all id job (ground (arith, table.get-insert id k new jobs))
    ]

    pub modify-AllEntries :
        (k : JobId) (f : Job → Job) (jobs : Jobs R)
        → ((job : Job) → table.get k jobs ≡ some job → Entry k (f job))
        → AllEntries Entry jobs
        → AllEntries Entry (table.modify k f jobs)
    modify-AllEntries k f jobs keep all id job found = elim (JobId-discrete id k) [
      | yes p ↦ elim (Option-cases (table.get k jobs)) [
        | inl missing ↦
            absurd
              (ground (arith, ap (λ (i : JobId). table.get i jobs) p, table.get-modify id k f jobs))
        | inr (old, there) ↦
            let same : f old ≡ job =
              ground
                (arith, ap (λ (i : JobId). table.get i jobs) p, table.get-modify id k f jobs) in
            moved p same (keep old there)
      ]
      | no p ↦ all id job (ground (arith, table.get-modify id k f jobs))
    ]

    pub upsert-AllEntries :
        (k : JobId) (f : Job → Job) (new : Job) (jobs : Jobs R)
        → Entry k new
        → ((job : Job) → table.get k jobs ≡ some job → Entry k (f job))
        → AllEntries Entry jobs
        → AllEntries Entry (table.upsert k f new jobs)
    upsert-AllEntries k f new jobs fits keep all id job found = elim (JobId-discrete id k) [
      | yes p ↦ elim (Option-cases (table.get k jobs)) [
        | inl missing ↦
            let same : new ≡ job =
              ground
                (arith, ap (λ (i : JobId). table.get i jobs) p, table.get-upsert id k f new jobs) in
            moved p same fits
        | inr (old, there) ↦
            let same : f old ≡ job =
              ground
                (arith, ap (λ (i : JobId). table.get i jobs) p, table.get-upsert id k f new jobs) in
            moved p same (keep old there)
      ]
      | no p ↦ all id job (ground (arith, table.get-upsert id k f new jobs))
    ]

module _ (E : Encoding) (R : Runtime) (P : Property) where
  open R use {jobs_map as table, provider as chain}

  -- The writes keep the property, and the chain's answers to the indexer are as `Logs` says.
  pub record Rules : Type 0 where
    pub created :
        (req : CreateJobRequest) (nonce payload : List ℕ) (owner : Address) (now : ℕ)
        (s : AppState R)
        → P.Asks req nonce now
        → parse_payload E req.payload ≡ ok payload
        → parse_owner E req.owner ≡ ok owner
        → let job = new_job E R owner payload nonce req.reward now (job_deadline E R now s) in
          P.Entry job.id job
    pub claimed :
        (id : JobId) (worker_id : PeerId) (now : ℕ) (job : Job)
        → P.Claims now worker_id
        → is_pending job.job_status ≡ true
        → P.Entry id job
        → P.Entry id (assign worker_id now job)
    pub confirmed :
        (id : JobId) (tx : TxHash) (s : AppState R) (w : World R) (job : Job)
        → P.Hears tx
        → chain_confirms R s id w ≡ true
        → P.Entry id job
        → P.Entry id (Handler.mark_completed tx job)
    pub discovered :
        (event : CompletedEvent)
        → P.Logs event
        → P.Entry event.job_id
            (Indexer.discovered event.job_id (get_or event.transaction_hash default_hash))
    pub indexed :
        (event : CompletedEvent) (job : Job)
        → P.Logs event
        → P.Entry event.job_id job
        → P.Entry event.job_id
            (Indexer.mark_completed (get_or event.transaction_hash default_hash) job)
    pub expired : (id : JobId) (job : Job) → P.Entry id job → P.Entry id (Indexer.mark_expired job)
    pub queried :
        (a : Address) (from_block to_block : ℕ) (w : World R) (logs : List CompletedEvent)
        → (chain.query_completed a from_block to_block w).0 ≡ ok logs
        → All P.Logs logs

  -- What a waiting task knows.
  unfoldable pub Fits : Task → Type 0
  Fits (submitting job) = P.Entry job.id job
  Fits (claiming now job_id worker_id) = P.Claims now worker_id
  Fits (verifying job_id tx) = P.Hears tx
  Fits (marking_completed logs a b) = All P.Logs logs
  Fits _ = Unit

  abbrev pub FitsMessage : ℕ → GossipMessage → Type 0
  FitsMessage now (claim_job job_id worker_id) = P.Claims now worker_id
  FitsMessage now (job_completed job_id tx) = P.Hears tx
  FitsMessage now _ = Unit

  unfoldable pub FitsTurn : Turn E R → Type 0
  FitsTurn (arrives (message now envelope)) = FitsMessage now envelope.payload
  FitsTurn (arrives (request req nonce now)) = P.Asks req nonce now
  FitsTurn _ = Unit

  abbrev pub Holds : Process E R → List Task → Type 0
  Holds p tasks = AllEntries R P.Entry p.state.jobs × All Fits tasks
