-- ===== src/Tests/Jobs.antt =====
-- The job table at concrete inputs: its keys, its snapshot, and looking a job up.
use mathlib.Core.List.{Mem}
use proof_job_zk.Coordinator.Announcing.{AnnouncesPending, rebroadcast_pending-announces}
use proof_job_zk.Coordinator.Claims.{sent_by}
use proof_job_zk.Coordinator.Rebroadcast.{rebroadcast_pending}
use proof_job_zk.Core.Message.{GossipMessage, job_available}
use proof_job_zk.Base.{
  ◌++◌, All, ◌≡◌, ◌⊎◌, refl, String, List, [], ◌∷◌, none, some, ok, err, replicate, arith,
}
use proof_job_zk.Core.Ids.{JobId, IsArray32}
use proof_job_zk.Core.Job.{JobStatus, Job}
use proof_job_zk.Coordinator.Api.{}
use proof_job_zk.Coordinator.Lookup.{}
use proof_job_zk.Coordinator.Persistence.{Disk, written, renamed, load_jobs, save_jobs}
use proof_job_zk.Coordinator.Snapshot.{IsKeyed, load_jobs-save_jobs}
use proof_job_zk.Coordinator.State.{Jobs, job_at}
use proof_job_zk.Coordinator.System.{Process, Event, received, rebroadcast, polled}
use proof_job_zk.Tests.Runtime.{
  runtime, state_with, fresh_job, job_one, worker_a, quiet_chain, completing_chain, zero_cursor,
  claim_by,
}
use proof_job_zk.Tests.Table.{get}
use proof_job_zk.Tests.Texts.{texts, texts_json}

abbrev pub one_job : Jobs runtime
one_job = (job_one, fresh_job) ∷ []

pub one_job-IsKeyed : IsKeyed texts runtime one_job
one_job-IsKeyed id job found = ground arith

abbrev nothing : Disk
nothing = record { snapshot = none; temporary = none }

load_jobs-save_jobs_example :
    let (answer, disk') = save_jobs texts runtime nothing one_job written renamed in
    ((answer ≡ ok tt) × ((id : JobId) → get id (load_jobs texts runtime disk') ≡ get id one_job))
    ⊎ ((e : String) × (answer ≡ err e)
        × (load_jobs texts runtime disk' ≡ load_jobs texts runtime nothing))
load_jobs-save_jobs_example =
    load_jobs-save_jobs texts runtime one_job one_job-IsKeyed texts_json nothing written renamed

abbrev begun : Process texts runtime
begun = record { state = state_with fresh_job; indexer = some zero_cursor }

abbrev pub events : List (Event texts runtime)
events = received 150 quiet_chain (claim_by worker_a) ∷ rebroadcast ∷ polled completing_chain ∷ []

abbrev long_id : JobId
long_id = record { bytes = replicate 32 1 }

long_id-IsArray32 : IsArray32 long_id.bytes
long_id-IsArray32 = record { size = refl; byte = ground arith }

rebroadcast_pending-announces_example :
    (new : List GossipMessage) × (sent_by runtime
        (rebroadcast_pending runtime (state_with fresh_job))
      ≡ new ++ [])
    × All (AnnouncesPending runtime (state_with fresh_job)) new
    × ((id : JobId) (job : Job)
        → job_at runtime id (state_with fresh_job) ≡ some job
        → job.job_status ≡ JobStatus.pending
        → Mem (job_available job) new)
    × ((rebroadcast_pending runtime (state_with fresh_job)).jobs ≡ (state_with fresh_job).jobs)
rebroadcast_pending-announces_example = rebroadcast_pending-announces runtime (state_with fresh_job)
