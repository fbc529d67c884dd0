-- ===== src/Coordinator/Tasks/Entries/Turns.antt =====
-- The rules of a property of the entries of the job table, applied to the turns of the
-- coordinator's tasks.
use mathlib.Core.List.{}
use mathlib.Core.Option.{get_or}
use proof_job_zk.Base.{
  ℕ, zero, suc, List, [], ◌∷◌, ◌++◌, arith, inl, inr, All, All-append, Option-cases, Bool-cases,
  Result-cases,
}
use proof_job_zk.Core.Ids.{JobId, PeerId, TxHash}
use proof_job_zk.Core.Job.{Job, is_pending}
use proof_job_zk.Core.Message.{GossipMessage, claim_job, job_completed}
use proof_job_zk.Deps.Encoding.{Encoding}
use proof_job_zk.Deps.Provider.{}
use proof_job_zk.Coordinator.Api.{parse_payload, parse_owner, submit_on_chain}
use proof_job_zk.Coordinator.Completion.{chain_confirms, handle_job_completed_lem}
use proof_job_zk.Coordinator.Handler
use proof_job_zk.Coordinator.Handler.{assign}
use proof_job_zk.Coordinator.State.{Runtime, AppState, World, job_at, announce}
use proof_job_zk.Coordinator.System.{Process}
use proof_job_zk.Coordinator.Tasks.{
  Task, submitting, announcing, claiming, replying, verifying, rebroadcasting, polling,
  fetching_completed, marking_completed, fetching_expired, marking_expired, Arrival, message,
  request, tick, poll_tick, Stepped, Tasks, Turn, arrives, goes_on, advance, begin, begin_message,
  begin_request, waiting, take_turn, step, run, claim_step, submit_step, poll_step, fetch_completed,
  fetch_expired,
}
use proof_job_zk.Indexer
use proof_job_zk.Indexer.{default_hash}
use proof_job_zk.Coordinator.Tasks.Entries.{
  Property, AllEntries, insert-AllEntries, modify-AllEntries, upsert-AllEntries, Rules, Fits,
  FitsMessage, FitsTurn, Holds,
}

module _ (E : Encoding) (R : Runtime) (P : Property) (rules : Rules E R P) where
  open R use {jobs_map as table, provider as chain}

  abbrev Keeps : Task → Process E R → Stepped E R → Type 0
  Keeps t p r =
      AllEntries R P.Entry p.state.jobs → Fits E R P t → Holds E R P r.process (waiting E R r.task)

  claim_step-Keeps :
      (now : ℕ) (job_id : JobId) (worker_id : PeerId) (p : Process E R) (w : World R)
      → Keeps (claiming now job_id worker_id) p (claim_step E R now job_id worker_id p w)
  unfolding claim_step Fits
  claim_step-Keeps now job_id worker_id p w all fits =
      elim (Option-cases (job_at R job_id p.state)) [
        | inl unknown ↦ rw (claim_step, unknown) (all, (tt, tt))
        | inr (job, found) ↦ elim (Bool-cases (is_pending job.job_status)) [
          | inr taken ↦ rw (claim_step, found, taken) (all, (tt, tt))
          | inl fresh ↦
              rw (claim_step, found, fresh)
                (
                  modify-AllEntries R P.Entry job_id (assign worker_id now) p.state.jobs
                      (λ other there.
                        rules.claimed job_id worker_id now other fits (ground arith)
                          (all job_id other there))
                      all,
                  (tt, tt),
                )
        ]
      ]

  submit_step-Keeps :
      (job : Job) (p : Process E R) (w : World R)
      → Keeps (submitting job) p (submit_step E R job p w)
  unfolding submit_step Fits
  submit_step-Keeps job p w all fits =
      elim (Result-cases
        (submit_on_chain E R job.id job.payload job.deadline job.reward p.state w).result) [
          | inr (e, failed) ↦ rw (submit_step, failed) (all, tt)
          | inl (tx, taken) ↦
              rw (submit_step, taken)
                (insert-AllEntries R P.Entry job.id job p.state.jobs fits all, (tt, tt))
        ]

  completion-AllEntries :
      (job_id : JobId) (tx : TxHash) (s : AppState R) (w : World R)
      → AllEntries R P.Entry s.jobs
      → P.Hears tx
      → AllEntries R P.Entry (Handler.handle_job_completed R s job_id tx w).0.jobs
  completion-AllEntries job_id tx s w all hears id job found =
      let entry = (handle_job_completed_lem R s job_id tx w id).0 in
      elim (Bool-cases (chain_confirms R s job_id w)) [
        | inr unconfirmed ↦ all id job (ground arith)
        | inl yes_ ↦
            modify-AllEntries R P.Entry job_id (Handler.mark_completed tx) s.jobs
              (λ old there. rules.confirmed job_id tx s w old hears yes_ (all job_id old there)) all
              id job (ground (arith, table.get-modify id job_id (Handler.mark_completed tx) s.jobs))
      ]

  poll_step-Keeps : (p : Process E R) (w : World R) → Keeps polling p (poll_step E R p w)
  unfolding poll_step Fits
  poll_step-Keeps p w all fits = ground (arith, all)

  fetch_completed-Keeps :
      (a b : ℕ) (p : Process E R) (w : World R)
      → Keeps (fetching_completed a b) p (fetch_completed E R a b p w)
  unfolding fetch_completed Fits
  fetch_completed-Keeps a b p w all fits = elim (Option-cases p.indexer) [
    | inl off ↦ rw (fetch_completed, off) (all, tt)
    | inr (c, on) ↦ elim (Result-cases (chain.query_completed c.registry_address a b w).0) [
      | inr (e, failed) ↦ rw (fetch_completed, on, failed) (all, tt)
      | inl (logs, answer) ↦
          rw (fetch_completed, on, answer)
            (all, (rules.queried c.registry_address a b w logs answer, tt))
    ]
  ]

  fetch_expired-Keeps :
      (a b : ℕ) (p : Process E R) (w : World R)
      → Keeps (fetching_expired a b) p (fetch_expired E R a b p w)
  unfolding fetch_expired Fits
  fetch_expired-Keeps a b p w all fits = ground (arith, all)

  advance-Keeps : (t : Task) (p : Process E R) (w : World R) → Keeps t p (advance E R t p w)
  unfolding advance Fits announce Indexer.handle_job_completed Indexer.handle_job_expired
  advance-Keeps (submitting job) p w all fits = submit_step-Keeps job p w all fits
  advance-Keeps (announcing job) p w all fits = (all, tt)
  advance-Keeps (claiming now job_id worker_id) p w all fits =
      claim_step-Keeps now job_id worker_id p w all fits
  advance-Keeps (replying m) p w all fits = (all, tt)
  advance-Keeps (verifying job_id tx) p w all fits =
      (completion-AllEntries job_id tx p.state w all fits, tt)
  advance-Keeps (rebroadcasting []) p w all fits = (all, tt)
  advance-Keeps (rebroadcasting (job ∷ jobs)) p w all fits = (all, (tt, tt))
  advance-Keeps polling p w all fits = poll_step-Keeps p w all fits
  advance-Keeps (fetching_completed a b) p w all fits = fetch_completed-Keeps a b p w all fits
  advance-Keeps (marking_completed [] a b) p w all fits = (all, (tt, tt))
  advance-Keeps (marking_completed (event ∷ logs) a b) p w all fits = (
    upsert-AllEntries R P.Entry event.job_id
        (Indexer.mark_completed (get_or event.transaction_hash default_hash))
        (Indexer.discovered event.job_id (get_or event.transaction_hash default_hash)) p.state.jobs
        (rules.discovered event fits.0)
        (λ job there. rules.indexed event job fits.0 (all event.job_id job there)) all,
    (fits.1, tt),
  )
  advance-Keeps (fetching_expired a b) p w all fits = fetch_expired-Keeps a b p w all fits
  advance-Keeps (marking_expired [] b) p w all fits = (all, tt)
  advance-Keeps (marking_expired (event ∷ logs) b) p w all fits = (
    modify-AllEntries R P.Entry event.job_id Indexer.mark_expired p.state.jobs
        (λ job there. rules.expired event.job_id job (all event.job_id job there)) all,
    (tt, tt),
  )

  begin_message-Fits :
      (now : ℕ) (m : GossipMessage)
      → FitsMessage E R P now m
      → All (Fits E R P) (waiting E R (begin_message E R now m))
  unfolding Fits
  begin_message-Fits now (claim_job job_id worker_id) fits = (fits, tt)
  begin_message-Fits now (job_completed job_id tx) fits = (fits, tt)
  begin_message-Fits now _ fits = tt

  begin-Fits :
      (a : Arrival) (p : Process E R)
      → FitsTurn E R P (arrives a)
      → All (Fits E R P) (waiting E R (begin E R a p))
  unfolding begin begin_request Fits FitsTurn
  begin-Fits (message now envelope) p fits = begin_message-Fits now envelope.payload fits
  begin-Fits (request req nonce now) p fits = elim (Result-cases (parse_payload E req.payload)) [
    | inr (e, bad) ↦ rw (begin_request, bad) tt
    | inl (payload, good) ↦ elim (Result-cases (parse_owner E req.owner)) [
      | inr (e, bad) ↦ rw (begin_request, good, bad) tt
      | inl (owner, named) ↦
          rw (begin_request, good, named)
            (rules.created req nonce payload owner now p.state fits good named, tt)
    ]
  ]
  begin-Fits tick p fits = (tt, tt)
  begin-Fits poll_tick p fits = (tt, tt)

  take_turn-Holds :
      (k : ℕ) (w : World R) (p : Process E R) (tasks : List Task)
      → Holds E R P p tasks
      → let u = take_turn E R k w p tasks in Holds E R P u.process u.tasks
  unfolding take_turn
  take_turn-Holds k w p [] h = h
  take_turn-Holds zero w p (t ∷ tasks) (all, (fits, others)) =
      let (all', fits') = advance-Keeps t p w all fits in
      (all', All-append (Fits E R P) (waiting E R (advance E R t p w).task) tasks fits' others)
  take_turn-Holds (suc k) w p (t ∷ tasks) (all, (fits, others)) =
      let (all', others') = take_turn-Holds k w p tasks (all, others) in (all', (fits, others'))

  -- Whatever turns the tasks take, the property holds of every entry, if it did at the start.
  pub run_tasks-Holds :
      (turns : List (Turn E R)) (u : Tasks E R)
      → All (FitsTurn E R P) turns
      → Holds E R P u.process u.tasks
      → let v = run E R turns u in Holds E R P v.process v.tasks
  unfolding run step FitsTurn
  run_tasks-Holds [] u fits h = h
  run_tasks-Holds (arrives a ∷ turns) u (fits, later) (all, tasks) =
      let start = waiting E R (begin E R a u.process) in
      run_tasks-Holds turns (record u { tasks = start ++ u.tasks }) later
        (all, All-append (Fits E R P) start u.tasks (begin-Fits a u.process fits) tasks)
  run_tasks-Holds (goes_on k w ∷ turns) u (fits, later) h =
      run_tasks-Holds turns (take_turn E R k w u.process u.tasks) later
        (take_turn-Holds k w u.process u.tasks h)
