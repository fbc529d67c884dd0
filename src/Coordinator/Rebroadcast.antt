-- ===== src/Coordinator/Rebroadcast.antt =====
-- crates/coordinator/src/rebroadcast.rs: the jobs still pending are announced again at every tick.
use proof_job_zk.Base.{List, [], ◌∷◌, if◌then◌else◌}
use proof_job_zk.Core.Ids.{JobId}
use proof_job_zk.Core.Job.{Job, is_pending}
use proof_job_zk.Core.Message.{job_available}
use proof_job_zk.Coordinator.State.{Runtime, AppState, announce}

-- `.iter().filter(…).map(…).collect()`
unfoldable pub pending_jobs : List (JobId × Job) → List Job
pending_jobs [] = []
pending_jobs ((id, job) ∷ entries) =
    let rest = pending_jobs entries in if is_pending job.job_status then job ∷ rest else rest

module _ (R : Runtime) where
  -- the `for` loop; a failed broadcast is logged
  unfoldable pub announce_all : List Job → AppState R → AppState R
  unfolding announce
  announce_all [] s = s
  announce_all (job ∷ jobs) s = announce_all jobs (announce R (job_available job) s).1

  -- One tick of the loop.
  unfoldable pub rebroadcast_pending : AppState R → AppState R
  unfolding announce_all pending_jobs
  rebroadcast_pending s = announce_all (pending_jobs (R.jobs_map.iter s.jobs)) s
