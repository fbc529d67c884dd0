-- ===== src/Coordinator/Arbitration.antt =====
-- First-wins arbitration over any run of the coordinator (gossip_handler.rs, api.rs, rebroadcast.rs
-- of crates/coordinator, and crates/indexer).
use proof_job_zk.Base.{
  ℕ, ◌+◌, ◌≤◌, ◌≡◌, refl, ap, ◌∙◌, List, [], ◌∷◌, none, some, arith, inl, inr, ite, Option-cases,
}
use proof_job_zk.Core.Ids.{JobId, JobId-discrete}
use proof_job_zk.Core.Job.{Job}
use proof_job_zk.Core.Message.{GossipMessage, job_available, claim_job, job_completed}
use proof_job_zk.Deps.Encoding.{Encoding}
use proof_job_zk.Coordinator.State.{Runtime, AppState, World, job_at, announce}
use proof_job_zk.Coordinator.Handler.{process_message, process_payload}
use proof_job_zk.Coordinator.Lifecycle.{claimable, Evolves-claimable, History-claimable}
use proof_job_zk.Coordinator.Claims.{accepts, sent_by, accepts-handle_claim}
use proof_job_zk.Coordinator.Completion.{handle_job_completed_lem, handle_job_completed-Evolves}
use proof_job_zk.Coordinator.Creation.{requested_id, published, create_job_cases}
use proof_job_zk.Coordinator.Rebroadcast.{announce_all, pending_jobs, rebroadcast_pending}
use proof_job_zk.Coordinator.System.{
  Process, Event, Cursor, received, requested, rebroadcast, polled, step, run, indexer_of, poll,
}
use proof_job_zk.Indexer.Polling.{poll_events-History}

module _ (E : Encoding) (R : Runtime) where
  -- Accepted claims of a job so far, and one more that is still possible while it is pending.
  abbrev pub total : JobId → AppState R → ℕ
  total id s = accepts id (sent_by R s) + claimable (job_at R id s)

  -- How often a job was asked for under this identifier.
  unfoldable pub requests : JobId → List (Event E R) → ℕ
  requests id [] = 0
  requests id (requested req nonce now w ∷ events) =
      let rest = requests id events in
      elim (requested_id E req nonce) [
        | none ↦ rest
        | some id' ↦ ite (JobId-discrete id' id) (rest + 1) rest
      ]
  requests id (_ ∷ events) = requests id events

  pub announce_all-keeps :
      (jobs : List Job) (s : AppState R)
      → ((announce_all R jobs s).jobs ≡ s.jobs)
        × ((id : JobId) → accepts id (sent_by R (announce_all R jobs s)) ≡ accepts id (sent_by R s))
  unfolding announce_all accepts
  announce_all-keeps [] s = (refl, λ id. refl)
  announce_all-keeps (job ∷ jobs) s =
      let s' = (announce R (job_available job) s).1 in
      let (kept, counted) = announce_all-keeps jobs s' in
      (
        kept,
        λ id. counted id ∙ ap (accepts id) (R.gossip.sent-broadcast (job_available job) s.gossip),
      )

  received-total :
      (s : AppState R) (now : ℕ) (w : World R) (m : GossipMessage) (id : JobId)
      → total id (process_payload R s now w m).state ≤ total id s
  unfolding process_payload
  received-total s now w (claim_job job_id worker_id) id =
      accepts-handle_claim R s now job_id worker_id id
  received-total s now w (job_completed job_id tx) id =
      let (_, quiet, _, _) = handle_job_completed_lem R s job_id tx w id in
      omega (
        arith,
        ap (λ g. accepts id (R.gossip.sent g)) quiet,
        Evolves-claimable (handle_job_completed-Evolves R s job_id tx w id),
      )
  received-total s now w _ id = omega arith

  published-total :
      (job : Job) (s : AppState R) (id : JobId)
      → total id (published E R job s)
        ≤ ite (JobId-discrete job.id id) (total id s + 1) (total id s)
  unfolding published accepts claimable
  published-total job s id = ground (
    arith,
    R.jobs_map.get-insert id job.id job s.jobs,
    R.gossip.sent-broadcast (job_available job) s.gossip,
  )

  poll-total :
      (s : AppState R) (c : Cursor) (w : World R) (id : JobId)
      → total id (poll E R s c w).state ≤ total id s
  unfolding poll
  poll-total s c w id =
      omega (arith, History-claimable (poll_events-History R (indexer_of E R c s) w id))

  rebroadcast-total :
      (s : AppState R) (id : JobId) → total id (rebroadcast_pending R s) ≡ total id s
  unfolding rebroadcast_pending
  rebroadcast-total s id =
      let (kept, counted) = announce_all-keeps (pending_jobs (R.jobs_map.iter s.jobs)) s in
      ground (arith, kept, counted id)

  step-total :
      (p : Process E R) (event : Event E R) (id : JobId)
      → total id (step E R p event).state ≤ total id p.state + requests id (event ∷ [])
  unfolding step requests process_message
  step-total p (received now w envelope) id =
      omega (arith, received-total p.state now w envelope.payload id)
  step-total p (requested req nonce now w) id =
      create_job_cases E R
        (λ t. total id t ≤ total id p.state + requests id (requested req nonce now w ∷ [])) req
        nonce now p.state w (omega arith)
        λ job asked fresh. ground (arith, published-total job p.state id)
  step-total p rebroadcast id = omega (arith, rebroadcast-total p.state id)
  step-total p (polled w) id = elim (Option-cases p.indexer) [
    | inl off ↦ ground arith
    | inr (c, on) ↦ ground (arith, poll-total p.state c w id)
  ]

  pub requests-cons :
      (id : JobId) (event : Event E R) (events : List (Event E R))
      → requests id (event ∷ events) ≡ requests id (event ∷ []) + requests id events
  unfolding requests
  requests-cons id (received now w envelope) events = omega arith
  requests-cons id (requested req nonce now w) events = ground arith
  requests-cons id rebroadcast events = omega arith
  requests-cons id (polled w) events = omega arith

  -- Over any run, the claims of a job that are accepted, with one more if it can still be claimed
  -- at the end, are at most those accepted before, one more if it could be claimed at the start,
  -- and one more for each request that asked for a job under its identifier.
  pub accepts-run :
      (p : Process E R) (events : List (Event E R)) (id : JobId)
      → accepts id (sent_by R (run E R p events).state)
          + claimable (job_at R id (run E R p events).state)
        ≤ accepts id (sent_by R p.state) + claimable (job_at R id p.state) + requests id events
  unfolding run
  accepts-run p [] id = omega arith
  accepts-run p (event ∷ events) id = omega (
    arith,
    step-total p event id,
    accepts-run (step E R p event) events id,
    requests-cons id event events,
  )
