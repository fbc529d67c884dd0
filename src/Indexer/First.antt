-- ===== src/Indexer/First.antt =====
-- Which transaction hash the indexer gives to a job (crates/indexer/src/lib.rs).
use mathlib.Core.Option.{get_or}
use proof_job_zk.Base.{List, [], ◌∷◌, Option, none, some, ite, replicate}
use proof_job_zk.Core.Ids.{JobId, JobId-discrete, TxHash}
use proof_job_zk.Core.Job.{Job, JobStatus, zero_address}
use proof_job_zk.Deps.Provider.{CompletedEvent}
use proof_job_zk.Coordinator.Completion.{once}

-- The hash of the first completion of the job in the logs; 32 zeros where a log names none.
unfoldable pub first_hash : JobId → List CompletedEvent → Option TxHash
first_hash id [] = none
first_hash id (event ∷ logs) =
    let later = first_hash id logs in
    ite (JobId-discrete id event.job_id)
      (some (get_or event.transaction_hash (record { bytes = replicate 32 0 }))) later

-- What a completion makes of an entry: a job that is not known is entered without its terms.
abbrev pub completed_entry : JobId → Option TxHash → Option Job → Option Job
completed_entry id none known = known
completed_entry id (some tx) none = some (record {
  id = id;
  job_status = JobStatus.completed tx;
  owner = zero_address;
  payload = [];
  reward = 0;
  created_at = 0;
  deadline = 0;
})
completed_entry id (some tx) (some job) = some (once tx job)
