-- ===== src/Tests/Tasks.antt =====
-- The tasks of the coordinator at concrete inputs: two claims of one job, answered in turns.
use proof_job_zk.Base.{◌+◌, ◌≤◌, ◌≡◌, refl, List, [], ◌∷◌, some}
use proof_job_zk.Core.Ids.{JobId-discrete}
use proof_job_zk.Core.Message.{claim_accepted, claim_rejected}
use proof_job_zk.Coordinator.Claims.{accepts, sent_by}
use proof_job_zk.Coordinator.Handler.{assign}
use proof_job_zk.Coordinator.Lifecycle.{claimable, History}
use proof_job_zk.Coordinator.State.{announce, job_at}
use proof_job_zk.Coordinator.Tasks.{
  Tasks, Turn, message, arrives, goes_on, advance, claim_step, run,
}
use proof_job_zk.Coordinator.Tasks.Arbitration.{promised, accepts-run_tasks}
use proof_job_zk.Coordinator.Tasks.Lifecycle.{asked, requests, run_tasks-History}
use proof_job_zk.Tests.Runtime.{
  runtime, state_with, fresh_job, job_one, worker_a, worker_b, encoding, quiet_chain, claim_by,
  zero_cursor,
}

abbrev pub at_work : Tasks encoding runtime
at_work = record {
  process = record { state = state_with fresh_job; indexer = some zero_cursor };
  tasks = [];
}

abbrev pub claims : List (Turn encoding runtime)
claims =
    arrives (message 150 (claim_by worker_a)) ∷ goes_on 0 quiet_chain ∷ goes_on 0 quiet_chain ∷ []

-- Both claims are there before one of them is looked at, and the later one is looked at first.
abbrev crossed : List (Turn encoding runtime)
crossed =
    arrives (message 150 (claim_by worker_a))
    ∷ arrives (message 151 (claim_by worker_b))
    ∷ goes_on 0 quiet_chain
    ∷ goes_on 1 quiet_chain
    ∷ goes_on 1 quiet_chain
    ∷ goes_on 0 quiet_chain
    ∷ []

crossed_answers :
    (run encoding runtime crossed at_work).process.state.gossip
    ≡ claim_accepted job_one worker_b ∷ claim_rejected job_one "job already assigned" ∷ []
unfolding run advance claim_step announce assign JobId-discrete
crossed_answers = refl

accepts-run_tasks_example :
    let v = run encoding runtime crossed at_work in
    accepts job_one (sent_by runtime v.process.state)
      + claimable (job_at runtime job_one v.process.state)
      + promised job_one v.tasks
    ≤ accepts job_one []
      + claimable (some fresh_job)
      + promised job_one []
      + asked job_one []
      + requests encoding runtime job_one crossed
unfolding JobId-discrete
accepts-run_tasks_example = accepts-run_tasks encoding runtime crossed at_work job_one

run_tasks-History_example :
    History job_one
      (some fresh_job)
      (job_at runtime job_one (run encoding runtime crossed at_work).process.state)
unfolding asked requests JobId-discrete
run_tasks-History_example = run_tasks-History encoding runtime crossed at_work job_one refl refl
