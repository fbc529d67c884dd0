-- ===== src/Tests/Progress.antt =====
-- One job from its request to its completion, at concrete inputs.
use proof_job_zk.Base.{true, ℕ, ◌+◌, ◌≡◌, refl, List, [], ◌∷◌, none, some, ok, replicate, arith}
use proof_job_zk.Core.Job.{Job, JobStatus, Address}
use proof_job_zk.Core.Message.{claim_job, claim_accepted, job_completed}
use proof_job_zk.Core.Envelope.{GossipEnvelope}
use proof_job_zk.Contract.{submit_proof, submit_job, is_completed}
use proof_job_zk.Coordinator.Api.{
  CreateJobRequest, CreateJobResponse, JobStatusResponse, parse_payload, parse_owner, create_job,
  publish_job, submit_on_chain, get_job, show_0x, job_deadline,
}
use proof_job_zk.Coordinator.Claims.{sent_by}
use proof_job_zk.Coordinator.Completion.{chain_confirms}
use proof_job_zk.Coordinator.Created.{create_job-get_job}
use proof_job_zk.Coordinator.State.{job_at}
use proof_job_zk.Prover.{prove, joined}
use proof_job_zk.Network.Progress.{claimed, accepted, proved, settled, job_completes}
use proof_job_zk.Worker.Proof.{ProofComponents, extract_proof_components}
use proof_job_zk.Worker.State.{Worker, WorkerStatus}
use proof_job_zk.Worker.Success.{sent}
use proof_job_zk.Tests.Guest.{toy, some_id, ten, bundle, prove_sync-ten}
use proof_job_zk.Tests.Runtime.{
  runtime, state_with, fresh_job, worker_a, hash, quiet_chain, completing_chain,
}
use proof_job_zk.Tests.Texts.{texts, texts_laws}
use proof_job_zk.Tests.Worker.{machine, claimant, acceptance}

abbrev request : CreateJobRequest
request = record { payload = "0x1110"; reward = 1000; owner = none }

abbrev response : CreateJobResponse
response = record {
  job_id = show_0x texts (replicate 32 0);
  tx_hash = some (show_0x texts hash.bytes);
}

answers :
    (create_job texts runtime request [] 100 (state_with fresh_job) quiet_chain).result
    ≡ ok response
unfolding create_job parse_payload show_0x submit_job parse_owner publish_job submit_on_chain
answers = refl

create_job-get_job_example :
    (payload : List ℕ) × (owner : Address) × (parse_payload texts request.payload ≡ ok payload)
    × (parse_owner texts none ≡ ok owner)
    × (get_job texts runtime
          (create_job texts runtime request [] 100 (state_with fresh_job) quiet_chain).state
          response.job_id
        ≡ ok (record {
          id = response.job_id;
          owner = texts.show_address owner;
          payload = show_0x texts payload;
          reward = 1000;
          created_at = 100;
          deadline = job_deadline texts runtime 100 (state_with fresh_job);
          status = JobStatusResponse.pending;
        }))
create_job-get_job_example =
    create_job-get_job texts texts_laws runtime request [] 100 (state_with fresh_job) quiet_chain
      response answers

abbrev job_ten : Job
job_ten = record fresh_job { id = some_id; payload = ten }

abbrev idle_worker : Worker machine
idle_worker = record claimant { status = WorkerStatus.idle }

abbrev parts : ProofComponents
parts = record { journal = bundle.receipt_bytes; seal = bundle.receipt_bytes }

proves_ten : prove toy joined some_id ten ≡ ok bundle
unfolding prove
proves_ten = prove_sync-ten

cuts : extract_proof_components toy bundle ≡ ok parts
unfolding extract_proof_components
cuts = refl

submits :
    (submit_proof machine.provider idle_worker.chain some_id parts.journal parts.seal quiet_chain).0
    ≡ ok hash
unfolding submit_proof
submits = refl

confirmed : chain_confirms runtime (state_with job_ten) some_id completing_chain ≡ true
unfolding chain_confirms is_completed
confirmed = refl

-- What the worker hears while it proves.
abbrev noise : ℕ → List (ℕ × GossipEnvelope)
noise k = (150 + k, acceptance) ∷ []

job_completes_example :
    let c = state_with job_ten in
    let s' = claimed runtime machine acceptance job_ten idle_worker 100 in
    let c' = accepted runtime machine acceptance job_ten c idle_worker 101 quiet_chain in
    let u = proved runtime machine acceptance job_ten s' worker_a 102 noise (λ k. quiet_chain) in
    (sent machine s' ≡ claim_job some_id worker_a ∷ [])
    × (sent_by runtime c' ≡ claim_accepted some_id worker_a ∷ [])
    × (sent machine u.worker ≡ job_completed some_id hash ∷ sent machine s')
    × (u.tasks ≡ [])
    × (u.worker.status ≡ WorkerStatus.idle)
    × (job_at runtime some_id
          (settled runtime machine acceptance job_ten c' hash 103 completing_chain)
        ≡ some (record job_ten { job_status = JobStatus.completed hash }))
job_completes_example =
    job_completes runtime machine acceptance job_ten (state_with job_ten) idle_worker (λ k. 100 + k)
      quiet_chain completing_chain noise (λ k. quiet_chain) bundle parts hash (ground arith) refl
      refl (omega arith) proves_ten cuts submits confirmed
