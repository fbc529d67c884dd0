-- ===== src/Coordinator/Start/Restart.antt =====
-- The snapshot across a restart of the coordinator: crates/coordinator/src/main.rs on what
-- persistence.rs wrote.
use proof_job_zk.Base.{
  refl, All, ◌≡◌, sym, ap, subst, ◌∙◌, String, List, [], ◌∷◌, ok, err, arith, inl, inr,
  Option-cases, Result-cases, Bool-cases,
}
use proof_job_zk.Core.Ids.{JobId}
use proof_job_zk.Core.Job.{Job}
use proof_job_zk.Deps.Encoding.{Encoding, JsonLaws}
use proof_job_zk.Deps.Gossip.{Sockets}
use proof_job_zk.Deps.Host.{Host, running}
use proof_job_zk.Coordinator.Keyed.{run-IsKeyed}
use proof_job_zk.Coordinator.Persistence.{
  Disk, insert_all, is_empty, load_jobs, save_jobs, Tick, run_snapshots,
}
use proof_job_zk.Coordinator.Snapshot.{IsKeyed, load_jobs-save_jobs}
use proof_job_zk.Coordinator.Start.{snapshot_path, start}
use proof_job_zk.Coordinator.Start.Configured.{start_lem}
use proof_job_zk.Coordinator.State.{Runtime, Jobs, World}
use proof_job_zk.Coordinator.System.{Process, Event, run}

module _ (E : Encoding) (R : Runtime) where
  open R use {jobs_map as table}

  insert_all-IsKeyed :
      (entries : List Job) (jobs : Jobs R)
      → IsKeyed E R jobs
      → IsKeyed E R (insert_all E R entries jobs)
  unfolding insert_all
  insert_all-IsKeyed [] jobs keyed = keyed
  insert_all-IsKeyed (job ∷ entries) jobs keyed =
      insert_all-IsKeyed entries (table.insert job.id job jobs) (λ id other found.
        let before = keyed id other in ground (arith, table.get-insert id job.id job jobs, before))

  new-IsKeyed : IsKeyed E R table.new
  new-IsKeyed id job found = absurd (ground (arith, table.get-new id))

  as_new : (disk : Disk) → load_jobs E R disk ≡ table.new → IsKeyed E R (load_jobs E R disk)
  as_new disk e = subst (IsKeyed E R) (sym e) new-IsKeyed

  load_jobs-IsKeyed : (disk : Disk) → IsKeyed E R (load_jobs E R disk)
  unfolding load_jobs
  load_jobs-IsKeyed disk = elim (Option-cases disk.snapshot) [
    | inl missing ↦ as_new disk (ground arith)
    | inr (text, there) ↦ elim (Bool-cases (is_empty text)) [
      | inl empty ↦ as_new disk (ground arith)
      | inr filled ↦ elim (Result-cases (E.json_from_str text)) [
        | inr (e, bad) ↦ as_new disk (ground arith)
        | inl (entries, parsed) ↦
            let all : load_jobs E R disk ≡ insert_all E R entries table.new = ground arith in
            subst (IsKeyed E R) (sym all) (insert_all-IsKeyed entries table.new new-IsKeyed)
      ]
    ]
  ]

  -- The table that was saved last, if a tick succeeded.
  unfoldable pub saved_last : List (Tick E R) → Disk → Jobs R → Jobs R
  saved_last [] disk before = before
  saved_last (tick ∷ ticks) disk before =
      let (answer, disk') = save_jobs E R disk tick.jobs tick.write tick.rename in
      elim answer [
        | ok done ↦ saved_last ticks disk' tick.jobs
        | err e ↦ saved_last ticks disk' before
      ]

  abbrev pub Restores : Disk → Jobs R → Type 0
  Restores disk jobs = (id : JobId) → table.get id (load_jobs E R disk) ≡ table.get id jobs

  abbrev TicksKeyed : List (Tick E R) → Type 0
  TicksKeyed ticks = All (λ (tick : Tick E R). IsKeyed E R tick.jobs) ticks

  run_snapshots-Restores :
      (laws : JsonLaws E) (ticks : List (Tick E R)) (disk : Disk) (before : Jobs R)
      → TicksKeyed ticks
      → Restores disk before
      → Restores (run_snapshots E R ticks disk) (saved_last ticks disk before)
  unfolding run_snapshots saved_last
  run_snapshots-Restores laws [] disk before keyed back = back
  run_snapshots-Restores laws (tick ∷ ticks) disk before keyed back =
      let disk' = (save_jobs E R disk tick.jobs tick.write tick.rename).1 in
      elim (load_jobs-save_jobs E R tick.jobs keyed.0 laws disk tick.write tick.rename) [
        | inl (done, there) ↦
            rw (saved_last, done) (run_snapshots-Restores laws ticks disk' tick.jobs keyed.1 there)
        | inr (e, failed, kept) ↦
            rw (saved_last, failed)
              (run_snapshots-Restores laws ticks disk' before keyed.1
                (λ id. ap (table.get id) kept ∙ back id))
      ]

  module _ (H : Host) (sockets : Sockets R.gossip) (files : String → Disk) where
    -- A coordinator that serves keeps every job under its own identifier from then on, whatever
    -- the snapshot file held, in any run.
    pub start-run-IsKeyed :
        (w w' : World R) (p : Process E R) (events : List (Event E R))
        → start E R H sockets files w ≡ running (p, w')
        → IsKeyed E R (run E R p events).state.jobs
    start-run-IsKeyed w w' p events h =
        let (_, _, _, loaded, _, _) = start_lem E R H sockets files w w' p h in
        run-IsKeyed E R p events
          (subst (IsKeyed E R) (sym loaded) (load_jobs-IsKeyed (files (snapshot_path H))))

    -- Where JSON texts are read back and tables hold every job under its own identifier: a
    -- coordinator that starts with what the snapshot task has left has every entry of the table
    -- that was saved last, whichever ticks failed before or after and whatever they left; or of
    -- what could be loaded before, if all failed.
    pub start-run_snapshots :
        (laws : JsonLaws E) (ticks : List (Tick E R)) (disk : Disk) (w w' : World R)
        (p : Process E R) (id : JobId)
        → TicksKeyed ticks
        → files (snapshot_path H) ≡ run_snapshots E R ticks disk
        → start E R H sockets files w ≡ running (p, w')
        → table.get id p.state.jobs ≡ table.get id (saved_last ticks disk (load_jobs E R disk))
    start-run_snapshots laws ticks disk w w' p id keyed left h =
        let (_, _, _, loaded, _, _) = start_lem E R H sockets files w w' p h in
        rw (loaded, left)
          (run_snapshots-Restores laws ticks disk (load_jobs E R disk) keyed (λ i. refl) id)
