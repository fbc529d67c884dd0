-- ===== src/Tests/Worker.antt =====
-- A worker at concrete inputs.
use proof_job_zk.Base.{◌≡◌, refl, List, [], ◌∷◌, arith, replicate, to_le_bytes}
use proof_job_zk.Core.Ids.{JobId-discrete, PeerId-discrete}
use proof_job_zk.Core.Job.{Job, zero_address}
use proof_job_zk.Core.Message.{claim_accepted, job_completed}
use proof_job_zk.Core.Envelope.{GossipEnvelope}
use proof_job_zk.Contract.{submit_proof}
use proof_job_zk.Guest
use proof_job_zk.Worker.Proof.{extract_proof_components}
use proof_job_zk.Prover
use proof_job_zk.Prover.{joined}
use proof_job_zk.Prover.Laws.{guest_journal}
use proof_job_zk.Worker.Finishing.{Turn, heard, goes_on, until_free, IsFree, until_free-IsFree}
use proof_job_zk.Worker.Handler.{handle_message, handle_claim_accepted}
use proof_job_zk.Worker.Invariant.{working}
use proof_job_zk.Worker.State.{Runtime, Worker, WorkerStatus}
use proof_job_zk.Worker.Task.{System, Task, step_task}
use proof_job_zk.Tests.Runtime.{
  local, hash, quiet_chain, log, scripted, client, fresh_job, job_one, worker_a,
}
use proof_job_zk.Tests.Guest.{toy}

abbrev pub machine : Runtime
machine = record { gossip = log; provider = scripted; zkvm = toy }

abbrev pub claimant : Worker machine
claimant = record {
  peer_id = worker_a;
  status = WorkerStatus.claiming fresh_job;
  gossip = [];
  chain = client;
  config = record {
    gossip_addr = local;
    coordinator_addr = local;
    rpc_url = "url";
    private_key = "key";
    registry_address = zero_address;
  };
}

abbrev pub waits : System machine
waits = record { worker = claimant; tasks = [] }

abbrev pub acceptance : GossipEnvelope
acceptance = record {
  id = record { bytes = 5 ∷ [] };
  origin = worker_a;
  ttl = 3;
  payload = claim_accepted job_one worker_a;
  signature = [];
}

-- The acceptance starts one task, that proves the job.
accepted_starts :
    (handle_message machine claimant 150 acceptance).self.status ≡ WorkerStatus.proving fresh_job
unfolding handle_message handle_claim_accepted JobId-discrete PeerId-discrete
accepted_starts = refl

-- A job whose identifier has its 32 bytes.
abbrev long_job : Job
long_job = record fresh_job { id = record { bytes = replicate 32 1 } }

-- The worker proves the job, and hears an acceptance again meanwhile.
abbrev proves : System machine
proves = record {
  worker = record claimant { status = WorkerStatus.proving long_job };
  tasks =
      Task.proving (record { job_id = long_job.id; job = long_job; payload = long_job.payload })
      ∷ [];
}

abbrev turns : List (Turn machine)
turns =
    goes_on joined quiet_chain
    ∷ heard 151 acceptance
    ∷ goes_on joined quiet_chain
    ∷ goes_on joined quiet_chain
    ∷ goes_on joined quiet_chain
    ∷ []

until_free-IsFree_example : IsFree machine (until_free machine turns proves.worker proves.tasks)
until_free-IsFree_example =
    until_free-IsFree machine proves turns
      (working
        (Task.proving (record { job_id = long_job.id; job = long_job; payload = long_job.payload }))
        refl refl (refl, refl))
      (omega arith)

-- The proof ends in the announcement of the completion.
proves_announces :
    (until_free machine turns proves.worker proves.tasks).worker.gossip
    ≡ job_completed long_job.id hash ∷ []
unfolding until_free step_task Prover.prove guest_journal Guest.guest_main Guest.guest_result
    to_le_bytes JobId-discrete extract_proof_components submit_proof handle_message
proves_announces = refl
