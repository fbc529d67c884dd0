-- ===== src/Coordinator/Persistence.antt =====
-- crates/coordinator/src/persistence.rs: the snapshot file. `Disk` holds the two files that the
-- code names; what a call of `std::fs` answers is an argument.
use proof_job_zk.Base.{
  Bool, true, false, String, List, [], ◌∷◌, Option, none, some, Result, ok, err, if◌then◌else◌, map,
}
use proof_job_zk.Core.Ids.{JobId}
use proof_job_zk.Core.Job.{Job}
use proof_job_zk.Deps.Encoding.{Encoding}
use proof_job_zk.Coordinator.State.{Runtime, Jobs}

-- `str::is_empty`
abbrev pub is_empty : String → Bool
is_empty String.[] = true
is_empty (String.◌∷◌ c s) = false

pub record Disk : Type 0 where
  pub snapshot : Option String  -- `path`
  pub temporary : Option String  -- `path.with_extension("json.tmp")`

-- The answers of `std::fs::write` and `std::fs::rename`. A write that fails may leave a part.
pub data WriteAnswer : Type 0 where
  written : WriteAnswer
  write_failed : Option String → String → WriteAnswer

pub data RenameAnswer : Type 0 where
  renamed : RenameAnswer
  rename_failed : String → RenameAnswer

module _ (E : Encoding) (R : Runtime) where
  open R use {jobs_map as table}

  -- `for job in entries { map.insert(job.id, job); }`
  unfoldable pub insert_all : List Job → Jobs R → Jobs R
  insert_all [] map = map
  insert_all (job ∷ entries) map = insert_all entries (table.insert job.id job map)

  restore : String → Jobs R
  unfolding insert_all
  restore text = elim (E.json_from_str text) [
    | ok entries ↦ insert_all entries table.new
    | err e ↦ table.new
  ]

  -- A file that cannot be read is `none`.
  unfoldable pub load_jobs : Disk → Jobs R
  unfolding restore
  load_jobs disk = elim disk.snapshot [
    | none ↦ table.new
    | some text ↦ if is_empty text then table.new else restore text
  ]

  entries_of : Jobs R → List Job
  entries_of jobs = map (λ (e : JobId × Job). e.1) (table.iter jobs)

  move_over : Disk → RenameAnswer → Result String (Unit {0}) × Disk
  move_over disk renamed = (ok tt, record { snapshot = disk.temporary; temporary = none })
  move_over disk (rename_failed e) = (err e, disk)

  pub write_out : Disk → String → WriteAnswer → RenameAnswer → Result String (Unit {0}) × Disk
  unfolding move_over
  write_out disk text written answer = move_over (record disk { temporary = some text }) answer
  write_out disk text (write_failed part e) answer = (err e, record disk { temporary = part })

  unfoldable pub save_jobs :
      Disk → Jobs R → WriteAnswer → RenameAnswer → Result String (Unit {0}) × Disk
  unfolding entries_of write_out
  save_jobs disk jobs write rename = elim (E.json_to_string (entries_of jobs)) [
    | ok text ↦ write_out disk text write rename
    | err e ↦ (err e, disk)
  ]

  -- One tick of the snapshot task: the table at that time, and the answers of the file system.
  pub record Tick : Type 0 where
    pub jobs : Jobs R
    pub write : WriteAnswer
    pub rename : RenameAnswer

  -- The loop of `spawn_snapshot_task`. An error of a tick is logged and the loop goes on.
  unfoldable pub run_snapshots : List Tick → Disk → Disk
  unfolding save_jobs
  run_snapshots [] disk = disk
  run_snapshots (tick ∷ ticks) disk =
      run_snapshots ticks (save_jobs disk tick.jobs tick.write tick.rename).1
