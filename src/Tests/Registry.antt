-- ===== src/Tests/Registry.antt =====
-- The contract at concrete calls.
use proof_job_zk.Base.{
  ℕ, ◌+◌, ◌%◌, ◌^◌, ◌≡◌, refl, true, List, [], ◌∷◌, some, ok, replicate, to_le_bytes, drop, arith,
  String,
}
use proof_job_zk.Core.Ids.{JobId, JobId-discrete, bytes_discrete}
use proof_job_zk.Core.Job.{JobStatus, Address, zero_address}
use proof_job_zk.Contract.{ContractClient, is_completed}
use proof_job_zk.Coordinator.Handler.{handle_job_completed}
use proof_job_zk.Coordinator.State.{Runtime, AppState, job_at}
use proof_job_zk.Deps.Provider.{Provider}
use proof_job_zk.Guest
use proof_job_zk.Guest.Fibonacci.{fib}
use proof_job_zk.Prover
use proof_job_zk.Prover.{prove_sync, joined}
use proof_job_zk.Prover.Laws.{guest_journal}
use proof_job_zk.Worker.Proof.{ProofComponents, extract_proof_components}
use proof_job_zk.Registry.{
  Registry, Precompiles, Calls, deployed, find, emit, submit_job, begin_proof, begin_expiry,
  submit_proof, submitted, proved, none_more, then_more, job_completed,
}
use proof_job_zk.Registry.Acceptance.{submit_proof-prove}
use proof_job_zk.Registry.Expired.{expired_job-completed}
use proof_job_zk.Registry.Settled.{Keeps, Calls-Keeps}
use proof_job_zk.Registry.Solvency.{Inv, deployed-Inv, taken-Inv, Calls-Inv}
use proof_job_zk.Registry.Steps.{taken, paid}
use proof_job_zk.Tests.Guest.{toy, toy_laws, zeros, some_id, ten, bundle, prove_sync-ten}
use proof_job_zk.Tests.Runtime.{fresh_job, hash, log, state_with}
use proof_job_zk.Tests.Table.{table}

abbrev precompiles : Precompiles
precompiles = record { sha256 = zeros; verify = λ seal digest. true }

abbrev owner : Address
owner = record { bytes = replicate 20 1 }

abbrev prover : Address
prover = record { bytes = replicate 20 2 }

abbrev other_id : JobId
other_id = record { bytes = replicate 32 8 }

abbrev one_open : Registry
one_open = taken owner 1000 some_id ten 400 deployed

abbrev ten_journal : List ℕ
ten_journal = guest_journal zeros (record { job_id = some_id; bytes = ten })

-- The prover is paid, and posts a job of its own from within the transfer.
abbrev reentered : Registry
reentered =
    emit (job_completed some_id prover (drop 64 ten_journal))
      (taken prover 500 other_id ten 900 (paid some_id prover 1000 one_open))

-- What the worker submits from its proof.
abbrev components : ProofComponents
components = record { journal = ten_journal; seal = ten_journal }

first_paid :
    begin_proof precompiles prover 150 some_id ten_journal [] one_open
    ≡ ok (paid some_id prover 1000 one_open)
unfolding begin_proof find JobId-discrete bytes_discrete deployed taken paid guest_journal
    Guest.guest_main Guest.guest_result to_le_bytes
first_paid = refl

first_taken : submit_job owner 1000 100 some_id ten 400 deployed ≡ ok one_open
unfolding submit_job find deployed taken
first_taken = refl

second_taken :
    submit_job prover 500 150 other_id ten 900 (paid some_id prover 1000 one_open)
    ≡ ok (taken prover 500 other_id ten 900 (paid some_id prover 1000 one_open))
unfolding submit_job find JobId-discrete deployed taken paid
second_taken = refl

reentrant : Calls precompiles deployed reentered
reentrant = then_more {t = one_open} (submitted owner 1000 100 some_id ten 400 first_taken) (
    then_more {t = reentered}
      (proved prover 150 some_id ten_journal [] first_paid
        (then_more (submitted prover 500 150 other_id ten 900 second_taken) (none_more refl)) refl)
      (none_more refl))

Calls-Inv_example : Inv reentered
Calls-Inv_example = Calls-Inv precompiles reentrant deployed-Inv

Calls-Keeps_example : Keeps deployed reentered
Calls-Keeps_example = Calls-Keeps precompiles reentrant

one_open-Inv : Inv one_open
unfolding find deployed
one_open-Inv = taken-Inv owner 1000 some_id ten 400 deployed refl deployed-Inv

submit_proof-prove_example :
    (u : Registry) × (submit_proof precompiles some prover 150 some_id components.journal
        components.seal one_open
      ≡ ok u)
    × (u.balance + 1000 ≡ one_open.balance)
    × (u.transfers ≡ record { job_id = some_id; to = prover; amount = 1000 } ∷ one_open.transfers)
    × (u.completed some_id ≡ true)
    × (u.events
        ≡ job_completed some_id prover (to_le_bytes 8 (fib (Guest.read_number ten) % 2 ^ 64))
          ∷ one_open.events)
unfolding find JobId-discrete deployed taken Prover.prove prove_sync extract_proof_components
    guest_journal
submit_proof-prove_example =
    submit_proof-prove precompiles toy toy_laws one_open some_id
      (record { owner = owner; payload = ten; reward = 1000; deadline = 400 }) prover 150 joined
      bundle components (λ bytes. refl) refl one_open-Inv refl refl (omega arith) prove_sync-ten
      refl refl

-- A chain that is the contract alone.
abbrev contract_alone : Provider
contract_alone = record {
  World = Registry;
  Url = String;
  Signer = String;
  PendingTx = Unit {0};
  parse_signer = λ s. ok s;
  parse_url = λ s. ok s;
  send = λ url signer a call value w. (ok tt, w);
  get_receipt = λ p w. (ok hash, w);
  call_completed = λ url signer a id w. (ok (w.completed id), w);
  get_block_number = λ w. (ok 0, w);
  query_completed = λ a from_block to_block w. (ok [], w);
  query_expired = λ a from_block to_block w. (ok [], w);
}

abbrev on_contract : Runtime
on_contract = record { jobs_map = table; gossip = log; provider = contract_alone }

abbrev contract_client : ContractClient contract_alone
contract_client = record { rpc_url = "url"; contract_address = zero_address; signer = "key" }

on_contract-truthful :
    (c : ContractClient contract_alone) (id : JobId) (w : Registry)
    → (is_completed contract_alone c id w).0 ≡ ok (w.completed id)
unfolding is_completed
on_contract-truthful c id w = refl

abbrev expiring : Registry
expiring = paid fresh_job.id owner 1000 (taken owner 1000 fresh_job.id ten 400 deployed)

abbrev watcher : AppState on_contract
watcher = record {
  jobs = (fresh_job.id, fresh_job) ∷ [];
  gossip = [];
  contract = some contract_client;
  config = (state_with fresh_job).config;
}

expired_job-completed_example :
    job_at on_contract fresh_job.id
      (handle_job_completed on_contract watcher fresh_job.id hash expiring).0
    ≡ some (record fresh_job { job_status = JobStatus.completed hash })
unfolding begin_expiry find JobId-discrete deployed taken paid
expired_job-completed_example =
    expired_job-completed on_contract precompiles (λ w. w) on_contract-truthful 500 fresh_job.id
      (taken owner 1000 fresh_job.id ten 400 deployed) expiring expiring watcher contract_client
      fresh_job hash refl (none_more refl) refl refl refl
