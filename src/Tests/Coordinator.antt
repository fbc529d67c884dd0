-- ===== src/Tests/Coordinator.antt =====
-- The coordinator at concrete inputs.
use proof_job_zk.Base.{◌≡◌, refl, List, [], ◌∷◌, some, ok, ite, if◌then◌else◌}
use mathlib.Core.Option
use proof_job_zk.Core.Ids.{JobId-discrete}
use proof_job_zk.Core.Message.{claim_accepted, claim_rejected}
use proof_job_zk.Coordinator.Api.{publish_job}
use proof_job_zk.Coordinator.Arbitration.{}
use proof_job_zk.Coordinator.Claims.{Answers, claim_reply, claimed_job, handle_claim_lem}
use proof_job_zk.Coordinator.Completion.{chain_answers_true, once, handle_job_completed-once}
use proof_job_zk.Coordinator.Publishing.{Publication, publish_job-Publication}
use proof_job_zk.Coordinator.Finality.{}
use proof_job_zk.Coordinator.Handler.{handle_claim, handle_job_completed, process_message, assign}
use proof_job_zk.Coordinator.Lifecycle.{}
use proof_job_zk.Coordinator.State.{job_at, announce}
use proof_job_zk.Coordinator.System.{Process, Event, received, polled, rebroadcast, run}
use proof_job_zk.Tests.Runtime.{
  runtime, state_with, fresh_job, job_one, worker_a, worker_b, hash, encoding, quiet_chain,
  completing_chain, zero_cursor, claim_by, completed_job,
}

handle_claim_lem_example :
    ((handle_claim runtime (state_with fresh_job) 150 job_one worker_a).0 ≡ ok tt)
    × Answers runtime
        (state_with fresh_job)
        (handle_claim runtime (state_with fresh_job) 150 job_one worker_a).1
        (claim_reply (job_at runtime job_one (state_with fresh_job)) job_one worker_a)
        (λ j.
          ite
            (JobId-discrete j job_one)
            (claimed_job worker_a 150 (job_at runtime job_one (state_with fresh_job)))
            (job_at runtime j (state_with fresh_job)))
handle_claim_lem_example = handle_claim_lem runtime (state_with fresh_job) 150 job_one worker_a

abbrev started : Process encoding runtime
started = record { state = state_with fresh_job; indexer = some zero_cursor }

-- Two workers claim, the jobs are announced again, and the chain reports the completion.
abbrev day : List (Event encoding runtime)
day =
    received 150 quiet_chain (claim_by worker_a)
    ∷ received 151 quiet_chain (claim_by worker_b)
    ∷ rebroadcast
    ∷ polled completing_chain
    ∷ []

abbrev settled : Process encoding runtime
settled = record { state = state_with completed_job; indexer = some zero_cursor }

-- The second claim is refused, and the first keeps the job.
day_answers :
    (run encoding runtime started (
      received 150 quiet_chain (claim_by worker_a)
      ∷ received 151 quiet_chain (claim_by worker_b)
      ∷ [])).state.gossip
    ≡ claim_rejected job_one "job already assigned" ∷ claim_accepted job_one worker_a ∷ []
unfolding run JobId-discrete handle_claim process_message announce assign
day_answers = refl

handle_job_completed-once_example :
    let s = state_with fresh_job in
    let t = (handle_job_completed runtime s job_one hash completing_chain).0 in
    (job_at runtime job_one t ≡ (
      if chain_answers_true runtime s job_one completing_chain
      then ite
          (JobId-discrete job_one job_one)
          (Option.map (once hash) (job_at runtime job_one s))
          (job_at runtime job_one s)
      else job_at runtime job_one s))
    × (runtime.gossip.sent t.gossip ≡ [])
    × (t.contract ≡ s.contract)
    × (t.config ≡ s.config)
handle_job_completed-once_example =
    handle_job_completed-once runtime (state_with fresh_job) job_one hash completing_chain job_one

publish_job-Publication_example :
    let s = state_with completed_job in
    Publication encoding runtime fresh_job s quiet_chain
      (publish_job encoding runtime fresh_job s quiet_chain)
publish_job-Publication_example =
    publish_job-Publication encoding runtime fresh_job (state_with completed_job) quiet_chain
