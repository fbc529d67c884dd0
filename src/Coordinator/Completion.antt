-- ===== src/Coordinator/Completion.antt =====
-- Completions heard by gossip: `handle_job_completed` of crates/coordinator/src/gossip_handler.rs.
use mathlib.Core.Option
use proof_job_zk.Base.{
  ◌≡◌, refl, ap, ◌∙◌, true, false, Bool, none, some, Result, ok, err, arith, inl, inr, Option-cases,
  Bool-cases, ite, if◌then◌else◌,
}
use proof_job_zk.Core.Ids.{JobId, JobId-discrete, TxHash}
use proof_job_zk.Core.Job.{Job, JobStatus, is_completed_status}
use proof_job_zk.Contract.{ContractError, is_completed}
use proof_job_zk.Coordinator.State.{Runtime, AppState, World, job_at}
use proof_job_zk.Coordinator.Handler.{mark_completed, handle_job_completed, settle_completed}
use proof_job_zk.Coordinator.Lifecycle.{Evolves, same, written-Evolves, mark_completed-WritesStatus}

abbrev pub says_true : Result ContractError Bool → Bool
says_true (ok b) = b
says_true (err e) = false

-- What a completion makes of a status: one that is completed keeps its hash.
abbrev pub completed_once : TxHash → JobStatus → JobStatus
completed_once tx (JobStatus.completed old) = JobStatus.completed old
completed_once tx _ = JobStatus.completed tx

abbrev pub once : TxHash → Job → Job
once tx job = record job { job_status = completed_once tx job.job_status }

pub completed_once_lem :
    (tx : TxHash) (status : JobStatus) (job : Job)
    → (if is_completed_status status
        then record job { job_status = status }
        else record job { job_status = JobStatus.completed tx })
      ≡ record job { job_status = completed_once tx status }
completed_once_lem tx (JobStatus.completed old) job = refl
completed_once_lem tx _ job = refl

mark_completed-once : (tx : TxHash) (job : Job) → mark_completed tx job ≡ once tx job
unfolding mark_completed
mark_completed-once tx job = completed_once_lem tx job.job_status job

module _ (R : Runtime) where
  -- The coordinator has a contract, and the call of `completed` answers true.
  unfoldable pub chain_confirms : AppState R → JobId → World R → Bool
  chain_confirms s job_id w = elim s.contract [
    | none ↦ false
    | some contract ↦ says_true (is_completed R.provider contract job_id w).0
  ]

  settle_completed-entries :
      (s : AppState R) (job_id : JobId) (tx : TxHash) (answer : Result ContractError Bool)
      (j : JobId)
      → job_at R j (settle_completed R s job_id tx answer) ≡ (
          if says_true answer
          then ite
              (JobId-discrete j job_id)
              (Option.map (mark_completed tx) (job_at R j s))
              (job_at R j s)
          else job_at R j s)
  unfolding settle_completed
  settle_completed-entries s job_id tx (ok true) j =
      R.jobs_map.get-modify j job_id (mark_completed tx) s.jobs
  settle_completed-entries s job_id tx (ok false) j = refl
  settle_completed-entries s job_id tx (err e) j = refl

  settle_completed-rest :
      (s : AppState R) (job_id : JobId) (tx : TxHash) (answer : Result ContractError Bool)
      → let t = settle_completed R s job_id tx answer in
        (t.gossip ≡ s.gossip) × (t.contract ≡ s.contract) × (t.config ≡ s.config)
  unfolding settle_completed
  settle_completed-rest s job_id tx (ok true) = (refl, refl, refl)
  settle_completed-rest s job_id tx (ok false) = (refl, refl, refl)
  settle_completed-rest s job_id tx (err e) = (refl, refl, refl)

  -- The entries after a completion, by `mark_completed`.
  pub handle_job_completed_lem :
      (s : AppState R) (job_id : JobId) (tx : TxHash) (w : World R) (j : JobId)
      → let t = (handle_job_completed R s job_id tx w).0 in
        (job_at R j t ≡ (
          if chain_confirms s job_id w
          then ite
              (JobId-discrete j job_id)
              (Option.map (mark_completed tx) (job_at R j s))
              (job_at R j s)
          else job_at R j s))
        × (t.gossip ≡ s.gossip)
        × (t.contract ≡ s.contract)
        × (t.config ≡ s.config)
  unfolding handle_job_completed chain_confirms
  handle_job_completed_lem s job_id tx w j = elim (Option-cases s.contract) [
    | inl alone ↦ ground arith
    | inr (c, has) ↦ ground (
      arith,
      settle_completed-entries s job_id tx (is_completed R.provider c job_id w).0 j,
      settle_completed-rest s job_id tx (is_completed R.provider c job_id w).0,
    )
  ]

  pub handle_job_completed-Evolves :
      (s : AppState R) (job_id : JobId) (tx : TxHash) (w : World R) (j : JobId)
      → Evolves j (job_at R j s) (job_at R j (handle_job_completed R s job_id tx w).0)
  handle_job_completed-Evolves s job_id tx w j =
      let (entry, _, _, _) = handle_job_completed_lem s job_id tx w j in
      elim (Bool-cases (chain_confirms s job_id w)) [
        | inr unconfirmed ↦ same (ground arith)
        | inl confirmed ↦ elim (JobId-discrete j job_id) [
          | no p ↦ same (ground arith)
          | yes p ↦
              written-Evolves (mark_completed tx) (job_at R j s)
                (λ job found. mark_completed-WritesStatus tx job) (ground arith)
        ]
      ]

  -- The coordinator has a contract, and the call of `completed` there gives true.
  abbrev pub chain_answers_true : AppState R → JobId → World R → Bool
  chain_answers_true s job_id w = elim s.contract [
    | none ↦ false
    | some c ↦ elim (R.provider.call_completed c.rpc_url c.signer c.contract_address job_id w).0 [
      | ok b ↦ b
      | err e ↦ false
    ]
  ]

  chain_confirms-chain_answers_true :
      (s : AppState R) (job_id : JobId) (w : World R)
      → chain_confirms s job_id w ≡ chain_answers_true s job_id w
  unfolding chain_confirms is_completed
  chain_confirms-chain_answers_true s job_id w = ground arith

  -- A completion heard by gossip changes the table only if the coordinator has a contract and the
  -- chain answers there that the job is completed, and then only the entry of that job, if there is
  -- one: its status is then completed, by the hash that was heard, or by the hash that it already
  -- had. Nothing is sent, and the contract and the configuration stay.
  pub handle_job_completed-once :
      (s : AppState R) (job_id : JobId) (tx : TxHash) (w : World R) (j : JobId)
      → let t = (handle_job_completed R s job_id tx w).0 in
        (job_at R j t ≡ (
          if chain_answers_true s job_id w
          then ite (JobId-discrete j job_id) (Option.map (once tx) (job_at R j s)) (job_at R j s)
          else job_at R j s))
        × (R.gossip.sent t.gossip ≡ R.gossip.sent s.gossip)
        × (t.contract ≡ s.contract)
        × (t.config ≡ s.config)
  handle_job_completed-once s job_id tx w j =
      let (entry, quiet, linked, config) = handle_job_completed_lem s job_id tx w j in
      let marked : (λ (job : Job). mark_completed tx job) ≡ once tx =
        λ i job. mark_completed-once tx job i in
      let first =
        ap
          (λ (f : Job → Job).
            if chain_confirms s job_id w
            then ite (JobId-discrete j job_id) (Option.map f (job_at R j s)) (job_at R j s)
            else job_at R j s)
          marked in
      let then_ =
        ap
          (λ (b : Bool).
            if b
            then ite (JobId-discrete j job_id) (Option.map (once tx) (job_at R j s)) (job_at R j s)
            else job_at R j s)
          (chain_confirms-chain_answers_true s job_id w) in
      (entry ∙ first ∙ then_, ap R.gossip.sent quiet, linked, config)
