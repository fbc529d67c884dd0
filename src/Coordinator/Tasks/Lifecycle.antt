-- ===== src/Coordinator/Tasks/Lifecycle.antt =====
-- How the entry of a job changes while the tasks of the coordinator take turns in any order.
use proof_job_zk.Base.{
  ℕ, zero, suc, ◌+◌, ◌≡◌, refl, ap, List, [], ◌∷◌, ◌++◌, none, some, arith, inl, inr, ite,
  Option-cases, Result-cases, Bool-cases,
}
use mathlib.Core.Option.{get_or}
use proof_job_zk.Core.Ids.{JobId, PeerId, JobId-discrete}
use proof_job_zk.Core.Job.{Job, is_pending}
use proof_job_zk.Core.Message.{GossipMessage, claim_job, job_completed}
use proof_job_zk.Deps.Encoding.{Encoding}
use proof_job_zk.Coordinator.Api.{submit_on_chain}
use proof_job_zk.Coordinator.Completion.{handle_job_completed-Evolves}
use proof_job_zk.Coordinator.Creation.{requested_id}
use proof_job_zk.Coordinator.Handler.{assign}
use proof_job_zk.Coordinator.Lifecycle.{
  Evolves, same, History, here, next, History-join, modify-Evolves, upsert-Evolves,
  assign-WritesStatus, index_completed-WritesStatus, mark_expired-WritesStatus,
}
use proof_job_zk.Coordinator.State.{Runtime, AppState, World, job_at}
use proof_job_zk.Coordinator.System.{Process}
use proof_job_zk.Coordinator.Tasks.{
  Task, submitting, announcing, claiming, replying, verifying, rebroadcasting, polling,
  fetching_completed, marking_completed, fetching_expired, marking_expired, Arrival, message,
  request, tick, poll_tick, Stepped, Tasks, Turn, arrives, goes_on, advance, begin, begin_message,
  waiting, take_turn, step, run, claim_step, submit_step, poll_step, fetch_completed, fetch_expired,
}
use proof_job_zk.Indexer

-- 1 for a task that is about to store a job under this identifier.
unfoldable pub asks : JobId → Task → ℕ
asks id (submitting job) = ite (JobId-discrete job.id id) 1 0
asks id _ = 0

unfoldable pub asked : JobId → List Task → ℕ
unfolding asks
asked id [] = 0
asked id (t ∷ tasks) = asks id t + asked id tasks

module _ (E : Encoding) (R : Runtime) where
  claim_step-Evolves :
      (now : ℕ) (job_id : JobId) (worker_id : PeerId) (p : Process E R) (w : World R) (id : JobId)
      → Evolves id
          (job_at R id p.state)
          (job_at R id (claim_step E R now job_id worker_id p w).process.state)
  unfolding claim_step
  claim_step-Evolves now job_id worker_id p w id = elim (Option-cases (job_at R job_id p.state)) [
    | inl unknown ↦ same (ground arith)
    | inr (job, found) ↦ elim (Bool-cases (is_pending job.job_status)) [
      | inr taken ↦ same (ground arith)
      | inl fresh ↦
          rw (found, claim_step, fresh)
            (modify-Evolves R.jobs_map (assign worker_id now) job_id p.state.jobs
              (λ other there. assign-WritesStatus worker_id now other (ground arith)) id)
    ]
  ]

  submit_step-Evolves :
      (job : Job) (p : Process E R) (w : World R) (id : JobId)
      → asks id (submitting job) ≡ 0
      → Evolves id (job_at R id p.state) (job_at R id (submit_step E R job p w).process.state)
  unfolding submit_step asks
  submit_step-Evolves job p w id other =
      elim (Result-cases
        (submit_on_chain E R job.id job.payload job.deadline job.reward p.state w).result) [
          | inr (e, failed) ↦ same (ground arith)
          | inl (tx, taken) ↦
              same (ground (arith, R.jobs_map.get-insert id job.id job p.state.jobs))
        ]

  -- The state is as before, and no job is about to be stored.
  abbrev Quiet : JobId → Process E R → Stepped E R → Type 0
  Quiet id p r = (r.process.state ≡ p.state) × (asked id (waiting E R r.task) ≡ 0)

  poll_step-Quiet : (p : Process E R) (w : World R) (id : JobId) → Quiet id p (poll_step E R p w)
  unfolding poll_step asked
  poll_step-Quiet p w id = ground arith

  fetch_completed-Quiet :
      (a b : ℕ) (p : Process E R) (w : World R) (id : JobId)
      → Quiet id p (fetch_completed E R a b p w)
  unfolding fetch_completed asked
  fetch_completed-Quiet a b p w id = ground arith

  fetch_expired-Quiet :
      (a b : ℕ) (p : Process E R) (w : World R) (id : JobId)
      → Quiet id p (fetch_expired E R a b p w)
  unfolding fetch_expired asked
  fetch_expired-Quiet a b p w id = ground arith

  -- Every step of a task changes an entry along the lifecycle, but for the storing of a job.
  pub advance-Evolves :
      (t : Task) (p : Process E R) (w : World R) (id : JobId)
      → asks id t ≡ 0
      → Evolves id (job_at R id p.state) (job_at R id (advance E R t p w).process.state)
  unfolding advance
  advance-Evolves (submitting job) p w id other = submit_step-Evolves job p w id other
  advance-Evolves (announcing job) p w id other = same refl
  advance-Evolves (claiming now job_id worker_id) p w id other =
      claim_step-Evolves now job_id worker_id p w id
  advance-Evolves (replying m) p w id other = same refl
  advance-Evolves (verifying job_id tx) p w id other =
      handle_job_completed-Evolves R p.state job_id tx w id
  advance-Evolves (rebroadcasting []) p w id other = same refl
  advance-Evolves (rebroadcasting (job ∷ jobs)) p w id other = same refl
  advance-Evolves polling p w id other =
      same (ap (λ (s : AppState R). job_at R id s) (poll_step-Quiet p w id).0)
  advance-Evolves (fetching_completed a b) p w id other =
      same (ap (λ (s : AppState R). job_at R id s) (fetch_completed-Quiet a b p w id).0)
  advance-Evolves (marking_completed [] a b) p w id other = same refl
  advance-Evolves (marking_completed (event ∷ logs) a b) p w id other =
      upsert-Evolves R.jobs_map (get_or event.transaction_hash Indexer.default_hash)
        (Indexer.mark_completed (get_or event.transaction_hash Indexer.default_hash)) event.job_id
        p.state.jobs (index_completed-WritesStatus _) id
  advance-Evolves (fetching_expired a b) p w id other =
      same (ap (λ (s : AppState R). job_at R id s) (fetch_expired-Quiet a b p w id).0)
  advance-Evolves (marking_expired [] b) p w id other = same refl
  advance-Evolves (marking_expired (event ∷ logs) b) p w id other =
      modify-Evolves R.jobs_map Indexer.mark_expired event.job_id p.state.jobs
        (λ job found. mark_expired-WritesStatus job) id

  -- A task that goes on is not about to store a job.
  pub advance-asked :
      (t : Task) (p : Process E R) (w : World R) (id : JobId)
      → asked id (waiting E R (advance E R t p w).task) ≡ 0
  unfolding advance asked submit_step claim_step
  advance-asked (submitting job) p w id = ground arith
  advance-asked (announcing job) p w id = refl
  advance-asked (claiming now job_id worker_id) p w id = ground arith
  advance-asked (replying m) p w id = refl
  advance-asked (verifying job_id tx) p w id = refl
  advance-asked (rebroadcasting []) p w id = refl
  advance-asked (rebroadcasting (job ∷ jobs)) p w id = refl
  advance-asked polling p w id = (poll_step-Quiet p w id).1
  advance-asked (fetching_completed a b) p w id = (fetch_completed-Quiet a b p w id).1
  advance-asked (marking_completed [] a b) p w id = refl
  advance-asked (marking_completed (event ∷ logs) a b) p w id = refl
  advance-asked (fetching_expired a b) p w id = (fetch_expired-Quiet a b p w id).1
  advance-asked (marking_expired [] b) p w id = refl
  advance-asked (marking_expired (event ∷ logs) b) p w id = refl

  -- How often a job was asked for under this identifier.
  unfoldable pub requests : JobId → List (Turn E R) → ℕ
  requests id [] = 0
  requests id (arrives (request req nonce now) ∷ turns) =
      let rest = requests id turns in
      elim (requested_id E req nonce) [
        | none ↦ rest
        | some id' ↦ ite (JobId-discrete id' id) (rest + 1) rest
      ]
  requests id (_ ∷ turns) = requests id turns

  pub asked-append : (id : JobId) (a b : List Task) → asked id (a ++ b) ≡ asked id a + asked id b
  unfolding asked
  asked-append id [] b = omega arith
  asked-append id (t ∷ a) b = omega (arith, asked-append id a b)

  begin_message-asked :
      (id : JobId) (now : ℕ) (m : GossipMessage)
      → asked id (waiting E R (begin_message E R now m)) ≡ 0
  unfolding asked
  begin_message-asked id now (claim_job job_id worker_id) = refl
  begin_message-asked id now (job_completed job_id tx) = refl
  begin_message-asked id now _ = refl

  pub requests-begin :
      (id : JobId) (a : Arrival) (p : Process E R) (turns : List (Turn E R))
      → requests id (arrives a ∷ turns) ≡ asked id (waiting E R (begin E R a p)) + requests id turns
  unfolding begin requests asked requested_id
  requests-begin id (message now envelope) p turns =
      ground (arith, begin_message-asked id now envelope.payload)
  requests-begin id (request req nonce now) p turns = ground arith
  requests-begin id tick p turns = omega arith
  requests-begin id poll_tick p turns = omega arith

  take_turn-History :
      (k : ℕ) (w : World R) (p : Process E R) (tasks : List Task) (id : JobId)
      → asked id tasks ≡ 0
      → let u = take_turn E R k w p tasks in
        History id (job_at R id p.state) (job_at R id u.process.state) × (asked id u.tasks ≡ 0)
  unfolding take_turn asked
  take_turn-History k w p [] id none_ = (here, refl)
  take_turn-History zero w p (t ∷ tasks) id none_ = (
    next here (advance-Evolves t p w id (omega arith)),
    omega (
      arith,
      asked-append id (waiting E R (advance E R t p w).task) tasks,
      advance-asked t p w id,
    ),
  )
  take_turn-History (suc k) w p (t ∷ tasks) id none_ =
      let (history, quiet) = take_turn-History k w p tasks id (omega arith) in
      (history, omega arith)

  -- Whatever turns the tasks of the coordinator take, in any order and number: an entry that is
  -- not asked for anew changes only along the lifecycle, one entry by one step at a time.
  pub run_tasks-History :
      (turns : List (Turn E R)) (u : Tasks E R) (id : JobId)
      → asked id u.tasks ≡ 0
      → requests id turns ≡ 0
      → History id (job_at R id u.process.state) (job_at R id (run E R turns u).process.state)
  unfolding run step requests
  run_tasks-History [] u id quiet free = here
  run_tasks-History (arrives a ∷ turns) u id quiet free =
      let start = waiting E R (begin E R a u.process) in
      let split = requests-begin id a u.process turns in
      run_tasks-History turns (record u { tasks = start ++ u.tasks }) id
        (omega (arith, asked-append id start u.tasks)) (omega arith)
  run_tasks-History (goes_on k w ∷ turns) u id quiet free =
      let (history, still) = take_turn-History k w u.process u.tasks id quiet in
      History-join history
        (run_tasks-History turns (take_turn E R k w u.process u.tasks) id still free)
