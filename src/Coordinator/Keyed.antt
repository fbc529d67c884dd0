-- ===== src/Coordinator/Keyed.antt =====
-- Every job stands under its own identifier, in any run of the coordinator (crates/coordinator and
-- crates/indexer).
use proof_job_zk.Base.{◌≡◌, sym, ◌∙◌, List, [], ◌∷◌, Option, some, arith, inl, inr, Option-cases}
use proof_job_zk.Core.Ids.{JobId}
use proof_job_zk.Core.Job.{Job}
use proof_job_zk.Deps.Encoding.{Encoding}
use proof_job_zk.Coordinator.State.{Runtime, AppState}
use proof_job_zk.Coordinator.Handler.{process_message}
use proof_job_zk.Coordinator.Lifecycle.{Evolves, History, same, moved, discovered, here, next}
use proof_job_zk.Coordinator.Creation.{published, create_job_cases}
use proof_job_zk.Coordinator.Finality.{received-History, rebroadcast-History, poll-History}
use proof_job_zk.Coordinator.Snapshot.{IsKeyed}
use proof_job_zk.Coordinator.System.{
  Process, Event, received, requested, rebroadcast, polled, step, run,
}
use proof_job_zk.Indexer

-- A job that is there has this identifier.
abbrev Named : JobId → Option Job → Type 0
Named id entry = (job : Job) → entry ≡ some job → job.id ≡ id

Evolves-Named : {id : JobId} {a b : Option Job} → Evolves id a b → Named id a → Named id b
unfolding Indexer.discovered
Evolves-Named (same e) named job found = named job (sym e ∙ found)
Evolves-Named (moved old status e advance e') named job found =
    let kept = named old e in ground (arith, kept)
Evolves-Named (discovered tx e e') named job found = ground arith

History-Named : {id : JobId} {a b : Option Job} → History id a b → Named id a → Named id b
History-Named here named = named
History-Named (next h e) named = Evolves-Named e (History-Named h named)

module _ (E : Encoding) (R : Runtime) where
  published-IsKeyed :
      (job : Job) (s : AppState R) → IsKeyed E R s.jobs → IsKeyed E R (published E R job s).jobs
  unfolding published
  published-IsKeyed job s keyed id found_job found =
      let before = keyed id found_job in
      ground (arith, R.jobs_map.get-insert id job.id job s.jobs, before)

  step-IsKeyed :
      (p : Process E R) (event : Event E R)
      → IsKeyed E R p.state.jobs
      → IsKeyed E R (step E R p event).state.jobs
  unfolding step process_message
  step-IsKeyed p (received now w envelope) keyed id =
      History-Named (received-History E R p.state now w envelope.payload id) (keyed id)
  step-IsKeyed p (requested req nonce now w) keyed id =
      create_job_cases E R (λ t. IsKeyed E R t.jobs) req nonce now p.state w keyed
        (λ job asked fresh. published-IsKeyed job p.state keyed) id
  step-IsKeyed p rebroadcast keyed id =
      History-Named (rebroadcast-History E R p.state id) (keyed id)
  step-IsKeyed p (polled w) keyed id = elim (Option-cases p.indexer) [
    | inl off ↦ rw (off, step) (keyed id)
    | inr (c, on) ↦ rw (on, step) (History-Named (poll-History E R p.state c w id) (keyed id))
  ]

  -- Any run of the coordinator keeps every job under its own identifier.
  pub run-IsKeyed :
      (p : Process E R) (events : List (Event E R))
      → IsKeyed E R p.state.jobs
      → IsKeyed E R (run E R p events).state.jobs
  unfolding run
  run-IsKeyed p [] keyed = keyed
  run-IsKeyed p (event ∷ events) keyed =
      run-IsKeyed (step E R p event) events (step-IsKeyed p event keyed)
