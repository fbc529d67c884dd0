-- ===== src/Coordinator/Tasks/Arbitration.antt =====
-- First-wins arbitration while the tasks of the coordinator take turns in any order: an accepted
-- claim may have been written to the table and not have been sent yet.
use proof_job_zk.Base.{ℕ, zero, suc, ◌+◌, ◌≤◌, ◌≡◌, refl, ap, ◌∙◌, List, [], ◌∷◌, ◌++◌, arith}
use proof_job_zk.Core.Ids.{JobId, PeerId}
use proof_job_zk.Core.Job.{Job}
use proof_job_zk.Core.Message.{
  GossipMessage, job_available, claim_job, claim_accepted, claim_rejected, job_completed,
}
use proof_job_zk.Deps.Encoding.{Encoding}
use proof_job_zk.Coordinator.Claims.{accepts, sent_by}
use proof_job_zk.Coordinator.Completion.{handle_job_completed_lem}
use proof_job_zk.Coordinator.Handler.{assign}
use proof_job_zk.Coordinator.Lifecycle.{claimable, Evolves-claimable}
use proof_job_zk.Coordinator.State.{Runtime, AppState, World, job_at, announce}
use proof_job_zk.Coordinator.System.{Process}
use proof_job_zk.Coordinator.Tasks.{
  Task, submitting, announcing, claiming, replying, verifying, rebroadcasting, polling,
  fetching_completed, marking_completed, fetching_expired, marking_expired, Arrival, message,
  request, tick, poll_tick, Stepped, Tasks, Turn, arrives, goes_on, advance, begin, begin_request,
  begin_message, waiting, take_turn, step, run, claim_step, submit_step, poll_step, fetch_completed,
  fetch_expired,
}
use proof_job_zk.Coordinator.Tasks.Lifecycle.{
  asks, asked, asked-append, advance-Evolves, advance-asked, requests, requests-begin,
}

-- 1 for a task that is about to accept a claim of the job.
unfoldable pub promises : JobId → Task → ℕ
promises id (replying m) = accepts id (m ∷ [])
promises id _ = 0

unfoldable pub promised : JobId → List Task → ℕ
unfolding promises
promised id [] = 0
promised id (t ∷ tasks) = promises id t + promised id tasks

promised-append :
    (id : JobId) (a b : List Task) → promised id (a ++ b) ≡ promised id a + promised id b
unfolding promised
promised-append id [] b = omega arith
promised-append id (t ∷ a) b = omega (arith, promised-append id a b)

module _ (E : Encoding) (R : Runtime) where
  -- What is accepted, promised, or still possible.
  abbrev open_claims : JobId → Process E R → List Task → ℕ
  open_claims id p tasks =
      accepts id (sent_by R p.state)
      + claimable (job_at R id p.state)
      + promised id tasks
      + asked id tasks

  abbrev Bounded : JobId → Task → Process E R → Stepped E R → Type 0
  Bounded id t p r = open_claims id r.process (waiting E R r.task) ≤ open_claims id p (t ∷ [])

  claim_step-Bounded :
      (now : ℕ) (job_id : JobId) (worker_id : PeerId) (p : Process E R) (w : World R) (id : JobId)
      → Bounded id (claiming now job_id worker_id) p (claim_step E R now job_id worker_id p w)
  unfolding claim_step accepts promised claimable asked assign
  claim_step-Bounded now job_id worker_id p w id =
      ground (arith, R.jobs_map.get-modify id job_id (assign worker_id now) p.state.jobs)

  submit_step-Bounded :
      (job : Job) (p : Process E R) (w : World R) (id : JobId)
      → Bounded id (submitting job) p (submit_step E R job p w)
  unfolding submit_step accepts promised claimable asked
  submit_step-Bounded job p w id = ground (arith, R.jobs_map.get-insert id job.id job p.state.jobs)

  poll_step-Bounded :
      (p : Process E R) (w : World R) (id : JobId) → Bounded id polling p (poll_step E R p w)
  unfolding poll_step promised asked
  poll_step-Bounded p w id = ground arith

  fetch_completed-Bounded :
      (a b : ℕ) (p : Process E R) (w : World R) (id : JobId)
      → Bounded id (fetching_completed a b) p (fetch_completed E R a b p w)
  unfolding fetch_completed promised asked
  fetch_completed-Bounded a b p w id = ground arith

  fetch_expired-Bounded :
      (a b : ℕ) (p : Process E R) (w : World R) (id : JobId)
      → Bounded id (fetching_expired a b) p (fetch_expired E R a b p w)
  unfolding fetch_expired promised asked
  fetch_expired-Bounded a b p w id = ground arith

  accepts-cons :
      (id : JobId) (m : GossipMessage) (sent : List GossipMessage)
      → accepts id (m ∷ sent) ≡ accepts id (m ∷ []) + accepts id sent
  unfolding accepts
  accepts-cons id (claim_accepted job_id worker_id) sent = ground arith
  accepts-cons id (job_available job) sent = omega arith
  accepts-cons id (claim_job job_id worker_id) sent = omega arith
  accepts-cons id (claim_rejected job_id reason) sent = omega arith
  accepts-cons id (job_completed job_id tx) sent = omega arith

  announce-accepts :
      (id : JobId) (m : GossipMessage) (s : AppState R)
      → accepts id (sent_by R (announce R m s).1) ≡ accepts id (m ∷ []) + accepts id (sent_by R s)
  unfolding announce
  announce-accepts id m s =
      ap (accepts id) (R.gossip.sent-broadcast m s.gossip) ∙ accepts-cons id m (sent_by R s)

  -- A step that sends nothing, promises nothing and changes an entry along the lifecycle.
  silent :
      (id : JobId) (t : Task) (p : Process E R) (w : World R)
      → accepts id (sent_by R (advance E R t p w).process.state) ≡ accepts id (sent_by R p.state)
      → promised id (waiting E R (advance E R t p w).task) ≡ 0
      → asks id t ≡ 0
      → Bounded id t p (advance E R t p w)
  unfolding promised
  silent id t p w quiet none_ other = omega (
    arith,
    quiet,
    none_,
    advance-asked E R t p w id,
    Evolves-claimable (advance-Evolves E R t p w id other),
  )

  advance-Bounded :
      (t : Task) (p : Process E R) (w : World R) (id : JobId) → Bounded id t p (advance E R t p w)
  unfolding advance accepts promised asked announce
  advance-Bounded (submitting job) p w id = submit_step-Bounded job p w id
  advance-Bounded (announcing job) p w id =
      omega (arith, announce-accepts id (job_available job) p.state)
  advance-Bounded (claiming now job_id worker_id) p w id =
      claim_step-Bounded now job_id worker_id p w id
  advance-Bounded (replying m) p w id = omega (arith, announce-accepts id m p.state)
  advance-Bounded (verifying job_id tx) p w id =
      let (_, quiet, _, _) = handle_job_completed_lem R p.state job_id tx w id in
      silent id (verifying job_id tx) p w (ap (λ g. accepts id (R.gossip.sent g)) quiet) refl refl
  advance-Bounded (rebroadcasting []) p w id = omega arith
  advance-Bounded (rebroadcasting (job ∷ jobs)) p w id =
      omega (arith, announce-accepts id (job_available job) p.state)
  advance-Bounded polling p w id = poll_step-Bounded p w id
  advance-Bounded (fetching_completed a b) p w id = fetch_completed-Bounded a b p w id
  advance-Bounded (marking_completed [] a b) p w id = omega arith
  advance-Bounded (marking_completed (event ∷ logs) a b) p w id =
      silent id (marking_completed (event ∷ logs) a b) p w refl refl refl
  advance-Bounded (fetching_expired a b) p w id = fetch_expired-Bounded a b p w id
  advance-Bounded (marking_expired [] b) p w id = omega arith
  advance-Bounded (marking_expired (event ∷ logs) b) p w id =
      silent id (marking_expired (event ∷ logs) b) p w refl refl refl

  take_turn-open_claims :
      (k : ℕ) (w : World R) (p : Process E R) (tasks : List Task) (id : JobId)
      → let u = take_turn E R k w p tasks in
        open_claims id u.process u.tasks ≤ open_claims id p tasks
  unfolding take_turn promised asked
  take_turn-open_claims k w p [] id = omega arith
  take_turn-open_claims zero w p (t ∷ tasks) id =
      let next = waiting E R (advance E R t p w).task in
      omega (
        arith,
        advance-Bounded t p w id,
        promised-append id next tasks,
        asked-append E R id next tasks,
      )
  take_turn-open_claims (suc k) w p (t ∷ tasks) id =
      omega (arith, take_turn-open_claims k w p tasks id)

  message-promised :
      (id : JobId) (now : ℕ) (m : GossipMessage)
      → promised id (waiting E R (begin_message E R now m)) ≡ 0
  unfolding promised
  message-promised id now (claim_job job_id worker_id) = refl
  message-promised id now (job_completed job_id tx) = refl
  message-promised id now _ = refl

  begin-promised :
      (id : JobId) (a : Arrival) (p : Process E R) → promised id (waiting E R (begin E R a p)) ≡ 0
  unfolding begin promised begin_request
  begin-promised id (message now envelope) p = message-promised id now envelope.payload
  begin-promised id (request req nonce now) p = ground arith
  begin-promised id tick p = refl
  begin-promised id poll_tick p = refl

  run-open_claims :
      (turns : List (Turn E R)) (u : Tasks E R) (id : JobId)
      → let v = run E R turns u in
        open_claims id v.process v.tasks ≤ open_claims id u.process u.tasks + requests E R id turns
  unfolding run step requests
  run-open_claims [] u id = omega arith
  run-open_claims (arrives a ∷ turns) u id =
      let start = waiting E R (begin E R a u.process) in
      omega (
        arith,
        run-open_claims turns (record u { tasks = start ++ u.tasks }) id,
        requests-begin E R id a u.process turns,
        promised-append id start u.tasks,
        asked-append E R id start u.tasks,
        begin-promised id a u.process,
      )
  run-open_claims (goes_on k w ∷ turns) u id = omega (
    arith,
    run-open_claims turns (take_turn E R k w u.process u.tasks) id,
    take_turn-open_claims k w u.process u.tasks id,
  )

  -- Whatever turns the tasks of the coordinator take, in any order and number: the claims of a job
  -- that are accepted, with those whose acceptance is written and not sent yet, and one more if it
  -- can still be claimed, are at most those of the start and one more for each request that asks
  -- for a job under its identifier.
  pub accepts-run_tasks :
      (turns : List (Turn E R)) (u : Tasks E R) (id : JobId)
      → let v = run E R turns u in
        accepts id (sent_by R v.process.state)
          + claimable (job_at R id v.process.state)
          + promised id v.tasks
        ≤ accepts id (sent_by R u.process.state)
          + claimable (job_at R id u.process.state)
          + promised id u.tasks
          + asked id u.tasks
          + requests E R id turns
  accepts-run_tasks turns u id = omega (arith, run-open_claims turns u id)
