-- ===== src/Indexer/Events.antt =====
-- What the events of a block range do to the job table (crates/indexer/src/lib.rs).
use mathlib.Core.Option.{get_or}
use proof_job_zk.Base.{
  ◌≡◌, refl, ◌∙◌, true, List, [], ◌∷◌, Option, some, arith, All, Option-cases, Bool-cases, inl, inr,
}
use proof_job_zk.Core.Ids.{JobId, TxHash}
use proof_job_zk.Core.Job.{Job, JobStatus, is_completed_status}
use proof_job_zk.Deps.Provider.{CompletedEvent, ExpiredEvent}
use proof_job_zk.Coordinator.State.{Runtime, Jobs}
use proof_job_zk.Coordinator.Lifecycle.{
  Evolves, History, here, next, History-join, History-completed, upsert-Evolves, modify-Evolves,
  index_completed-WritesStatus, mark_expired-WritesStatus,
}
use proof_job_zk.Indexer.{
  mark_completed, mark_expired, discovered, default_hash, handle_job_completed, handle_job_expired,
  apply_completed, apply_expired,
}

completed_hash :
    (status : JobStatus)
    → is_completed_status status ≡ true
    → (tx : TxHash) × (status ≡ JobStatus.completed tx)
completed_hash (JobStatus.completed tx) h = (tx, refl)
completed_hash _ h = cc

mark_completed-completed :
    (tx : TxHash) (job : Job)
    → (tx' : TxHash) × ((mark_completed tx job).job_status ≡ JobStatus.completed tx')
unfolding mark_completed
mark_completed-completed tx job = elim (Bool-cases (is_completed_status job.job_status)) [
  | inl done ↦ let (tx', e) = completed_hash job.job_status done in (tx', ground arith)
  | inr fresh ↦ (tx, ground arith)
]

module _ (R : Runtime) where
  open R use {jobs_map as table}

  abbrev pub entry : JobId → Jobs R → Option Job
  entry = table.get

  completed-Evolves :
      (id : JobId) (tx : TxHash) (jobs : Jobs R) (j : JobId)
      → Evolves j (entry j jobs) (entry j (handle_job_completed R id tx jobs))
  unfolding handle_job_completed
  completed-Evolves id tx jobs j =
      upsert-Evolves table tx (mark_completed tx) id jobs (index_completed-WritesStatus tx) j

  pub expired-Evolves :
      (id : JobId) (jobs : Jobs R) (j : JobId)
      → Evolves j (entry j jobs) (entry j (handle_job_expired R id jobs))
  unfolding handle_job_expired
  expired-Evolves id jobs j =
      modify-Evolves table mark_expired id jobs (λ job found. mark_expired-WritesStatus job) j

  -- The entry of `id` is completed.
  abbrev pub IsCompleted : Jobs R → JobId → Type 0
  IsCompleted jobs id =
      (job : Job) × (tx : TxHash) × (entry id jobs ≡ some job)
      × (job.job_status ≡ JobStatus.completed tx)

  handle_job_completed-IsCompleted :
      (id : JobId) (tx : TxHash) (jobs : Jobs R)
      → IsCompleted (handle_job_completed R id tx jobs) id
  unfolding handle_job_completed mark_completed discovered
  handle_job_completed-IsCompleted id tx jobs = elim (Option-cases (entry id jobs)) [
    | inl missing ↦ (
      discovered id tx,
      tx,
      ground (arith, table.get-upsert id id (mark_completed tx) (discovered id tx) jobs),
      refl,
    )
    | inr (job, found) ↦
        let (tx', done) = mark_completed-completed tx job in
        (
          mark_completed tx job,
          tx',
          ground (arith, table.get-upsert id id (mark_completed tx) (discovered id tx) jobs),
          done,
        )
  ]

  pub IsCompleted-kept :
      {before after : Jobs R} (id : JobId)
      → History id (entry id before) (entry id after)
      → IsCompleted before id
      → IsCompleted after id
  IsCompleted-kept id h (job, tx, found, done) =
      (job, tx, History-completed job tx h found done, done)

  pub apply_completed-History :
      (logs : List CompletedEvent) (jobs : Jobs R) (j : JobId)
      → History j (entry j jobs) (entry j (apply_completed R logs jobs))
  unfolding apply_completed
  apply_completed-History [] jobs j = here
  apply_completed-History (e ∷ logs) jobs j =
      let tx = get_or e.transaction_hash default_hash in
      History-join (next here (completed-Evolves e.job_id tx jobs j))
        (apply_completed-History logs (handle_job_completed R e.job_id tx jobs) j)

  pub apply_expired-History :
      (logs : List ExpiredEvent) (jobs : Jobs R) (j : JobId)
      → History j (entry j jobs) (entry j (apply_expired R logs jobs))
  unfolding apply_expired
  apply_expired-History [] jobs j = here
  apply_expired-History (e ∷ logs) jobs j =
      History-join (next here (expired-Evolves e.job_id jobs j))
        (apply_expired-History logs (handle_job_expired R e.job_id jobs) j)

  -- Every job of the log is completed in the table.
  abbrev pub AllCompleted : List CompletedEvent → Jobs R → Type 0
  AllCompleted logs jobs = All (λ (e : CompletedEvent). IsCompleted jobs e.job_id) logs

  -- After the completions of a range have been applied, each of their jobs is known and completed.
  pub apply_completed-AllCompleted :
      (logs : List CompletedEvent) (jobs : Jobs R) → AllCompleted logs (apply_completed R logs jobs)
  unfolding apply_completed
  apply_completed-AllCompleted [] jobs = tt
  apply_completed-AllCompleted (e ∷ logs) jobs =
      let tx = get_or e.transaction_hash default_hash in
      let jobs' = handle_job_completed R e.job_id tx jobs in
      (
        IsCompleted-kept {before = jobs'} {after = apply_completed R logs jobs'} e.job_id
            (apply_completed-History logs jobs' e.job_id)
            (handle_job_completed-IsCompleted e.job_id tx jobs),
        apply_completed-AllCompleted logs jobs',
      )

  AllCompleted-kept :
      (logs : List CompletedEvent) (before after : Jobs R)
      → ((j : JobId) → History j (entry j before) (entry j after))
      → AllCompleted logs before
      → AllCompleted logs after
  AllCompleted-kept [] before after h done = tt
  AllCompleted-kept (e ∷ logs) before after h done = (
    IsCompleted-kept {before = before} {after = after} e.job_id (h e.job_id) done.0,
    AllCompleted-kept logs before after h done.1,
  )

  -- A completion that is known already changes nothing.
  completed_again :
      (id : JobId) (tx : TxHash) (jobs : Jobs R) (j : JobId)
      → IsCompleted jobs id
      → entry j (handle_job_completed R id tx jobs) ≡ entry j jobs
  unfolding handle_job_completed mark_completed
  completed_again id tx jobs j (job, tx', found, done) =
      ground (arith, table.get-upsert j id (mark_completed tx) (discovered id tx) jobs)

  apply_completed_known :
      (logs : List CompletedEvent) (jobs : Jobs R) (j : JobId)
      → AllCompleted logs jobs
      → entry j (apply_completed R logs jobs) ≡ entry j jobs
  unfolding apply_completed
  apply_completed_known [] jobs j known = refl
  apply_completed_known (e ∷ logs) jobs j known =
      let tx = get_or e.transaction_hash default_hash in
      let jobs' = handle_job_completed R e.job_id tx jobs in
      apply_completed_known logs jobs' j (
        AllCompleted-kept logs jobs jobs' (λ k. next here (completed-Evolves e.job_id tx jobs k))
          known.1)
      ∙ completed_again e.job_id tx jobs j known.0

  -- To read the completions of a range twice, as happens when the poll fails after the first of its
  -- two queries, is to read them once.
  pub apply_completed_twice :
      (logs : List CompletedEvent) (jobs : Jobs R) (j : JobId)
      → entry j (apply_completed R logs (apply_completed R logs jobs))
        ≡ entry j (apply_completed R logs jobs)
  apply_completed_twice logs jobs j =
      apply_completed_known logs (apply_completed R logs jobs) j
        (apply_completed-AllCompleted logs jobs)
