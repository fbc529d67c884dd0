-- ===== src/Coordinator/Finality.antt =====
-- What no later event undoes (crates/coordinator and crates/indexer).
use proof_job_zk.Base.{ℕ, ◌≡◌, ◌≢◌, ap, List, [], ◌∷◌, some, arith, inl, inr, Option-cases}
use proof_job_zk.Core.Ids.{JobId, TxHash}
use proof_job_zk.Core.Job.{Job, JobStatus}
use proof_job_zk.Core.Message.{GossipMessage, claim_job, job_completed}
use proof_job_zk.Deps.Encoding.{Encoding}
use proof_job_zk.Coordinator.State.{Runtime, AppState, World, job_at}
use proof_job_zk.Coordinator.Handler.{process_message, process_payload}
use proof_job_zk.Coordinator.Lifecycle.{History, same, here, next, History-join, History-completed}
use proof_job_zk.Coordinator.Claims.{handle_claim-Evolves}
use proof_job_zk.Coordinator.Completion.{handle_job_completed-Evolves}
use proof_job_zk.Coordinator.Creation.{published, create_job_cases}
use proof_job_zk.Coordinator.Rebroadcast.{pending_jobs, rebroadcast_pending}
use proof_job_zk.Coordinator.System.{
  Process, Event, Cursor, received, requested, rebroadcast, polled, step, run, indexer_of, poll,
}
use proof_job_zk.Coordinator.Arbitration.{requests, requests-cons, announce_all-keeps}
use proof_job_zk.Indexer.Polling.{poll_events-History}

module _ (E : Encoding) (R : Runtime) where
  pub received-History :
      (s : AppState R) (now : ℕ) (w : World R) (m : GossipMessage) (id : JobId)
      → History id (job_at R id s) (job_at R id (process_payload R s now w m).state)
  unfolding process_payload
  received-History s now w (claim_job job_id worker_id) id =
      next here (handle_claim-Evolves R s now job_id worker_id id)
  received-History s now w (job_completed job_id tx) id =
      next here (handle_job_completed-Evolves R s job_id tx w id)
  received-History s now w _ id = here

  published-History :
      (job : Job) (s : AppState R) (id : JobId)
      → job.id ≢ id
      → History id (job_at R id s) (job_at R id (published E R job s))
  unfolding published
  published-History job s id differ =
      next here (same (ground (arith, R.jobs_map.get-insert id job.id job s.jobs)))

  pub rebroadcast-History :
      (s : AppState R) (id : JobId)
      → History id (job_at R id s) (job_at R id (rebroadcast_pending R s))
  unfolding rebroadcast_pending
  rebroadcast-History s id =
      let (kept, _) = announce_all-keeps E R (pending_jobs (R.jobs_map.iter s.jobs)) s in
      next here (same (ap (R.jobs_map.get id) kept))

  pub poll-History :
      (s : AppState R) (c : Cursor) (w : World R) (id : JobId)
      → History id (job_at R id s) (job_at R id (poll E R s c w).state)
  unfolding poll
  poll-History s c w id = poll_events-History R (indexer_of E R c s) w id

  step-History :
      (p : Process E R) (event : Event E R) (id : JobId)
      → requests E R id (event ∷ []) ≡ 0
      → History id (job_at R id p.state) (job_at R id (step E R p event).state)
  unfolding step requests process_message
  step-History p (received now w envelope) id h = received-History p.state now w envelope.payload id
  step-History p (requested req nonce now w) id h =
      create_job_cases E R (λ t. History id (job_at R id p.state) (job_at R id t)) req nonce now
        p.state w here λ job asked fresh. published-History job p.state id (ground arith)
  step-History p rebroadcast id h = rebroadcast-History p.state id
  step-History p (polled w) id h = elim (Option-cases p.indexer) [
    | inl off ↦ next here (same (ground arith))
    | inr (c, on) ↦ rw (on, step) (poll-History p.state c w id)
  ]

  -- Over any run that asks for no job under the identifier, its entry changes only along the
  -- lifecycle: pending to assigned, any status but completed to completed, any but completed and
  -- expired to expired, and from unknown to a completed job found on chain. It is never removed,
  -- and no other field of it changes.
  pub run-History :
      (p : Process E R) (events : List (Event E R)) (id : JobId)
      → requests E R id events ≡ 0
      → History id (job_at R id p.state) (job_at R id (run E R p events).state)
  unfolding run
  run-History p [] id h = here
  run-History p (event ∷ events) id h =
      let split = requests-cons E R id event events in
      History-join (step-History p event id (omega arith))
        (run-History (step E R p event) events id (omega arith))

  -- A job that is completed keeps its whole entry, the hash of its transaction included, over any
  -- run that asks for no job under its identifier.
  pub run-completed :
      (p : Process E R) (events : List (Event E R)) (id : JobId) (job : Job) (tx : TxHash)
      → requests E R id events ≡ 0
      → job_at R id p.state ≡ some job
      → job.job_status ≡ JobStatus.completed tx
      → job_at R id (run E R p events).state ≡ some job
  run-completed p events id job tx h found done =
      History-completed job tx (run-History p events id h) found done
