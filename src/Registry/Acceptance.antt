-- ===== src/Registry/Acceptance.antt =====
-- The contract of contracts/src/JobRegistry.sol takes what crates/worker submits, and pays for it.
use proof_job_zk.Base.{
  ℕ, ◌+◌, ◌%◌, ◌^◌, ◌≤◌, ◌≡◌, refl, ap, true, false, List, ◌∷◌, some, ok, arith, length, take, drop,
  to_le_bytes,
}
use proof_job_zk.Core.Ids.{JobId}
use proof_job_zk.Core.Job.{Address}
use proof_job_zk.Deps.Zkvm.{Zkvm, ZkvmLaws}
use proof_job_zk.Guest
use proof_job_zk.Guest.Fibonacci.{fib}
use proof_job_zk.Prover.{Joined, ProofBundle, prove}
use proof_job_zk.Prover.Laws.{guest_journal}
use proof_job_zk.Worker.Proof.{ProofComponents, extract_proof_components}
use proof_job_zk.Worker.Submission.{extract_proof_components-prove}
use proof_job_zk.Registry.{
  Registry, RegistryJob, Precompiles, find, settle, emit, check_proof, begin_proof, submit_proof,
  job_completed,
}
use proof_job_zk.Registry.Solvency.{Inv, covered}
use proof_job_zk.Registry.Steps.{paid, paid-completed}

module _ (P : Precompiles) where
  check_proof-ok :
      (job_id : JobId) (payload journal seal : List ℕ)
      → length journal ≡ 72
      → take 32 journal ≡ job_id.bytes
      → take 32 (drop 32 journal) ≡ P.sha256 payload
      → P.verify seal (P.sha256 journal) ≡ true
      → check_proof P job_id payload journal seal ≡ ok tt
  unfolding check_proof
  check_proof-ok job_id payload journal seal size id hash good = ground arith

  begin_proof-ok :
      (sender : Address) (now : ℕ) (job_id : JobId) (journal seal : List ℕ) (job : RegistryJob)
      (s : Registry)
      → find job_id s.jobs ≡ some job
      → s.completed job_id ≡ false
      → now ≤ job.deadline
      → job.reward ≤ s.balance
      → check_proof P job_id job.payload journal seal ≡ ok tt
      → begin_proof P sender now job_id journal seal s ≡ ok (paid job_id sender job.reward s)
  unfolding begin_proof paid
  begin_proof-ok sender now job_id journal seal job s found still in_time enough good = ground arith

module _ (P : Precompiles) (z : Zkvm) (laws : ZkvmLaws z (guest_journal P.sha256)) where
  -- With a zkVM that keeps its laws, and where the job's identifier and every hash have 32 bytes:
  -- let a job be open at a contract that keeps its invariant, before its deadline. What the worker
  -- extracts from a proof of the job's payload is then taken, if the verifier takes its seal and
  -- the recipient's code is done without a further call: the reward moves from the contract to the
  -- sender, the job is settled, and the event holds the Fibonacci number that the payload asks for.
  pub submit_proof-prove :
      (s : Registry) (job_id : JobId) (job : RegistryJob) (sender : Address) (now : ℕ)
      (ending : Joined z) (bundle : ProofBundle) (c : ProofComponents)
      → ((bytes : List ℕ) → length (P.sha256 bytes) ≡ 32)
      → length job_id.bytes ≡ 32
      → Inv s
      → find job_id s.jobs ≡ some job
      → s.completed job_id ≡ false
      → now ≤ job.deadline
      → prove z ending job_id job.payload ≡ ok bundle
      → extract_proof_components z bundle ≡ ok c
      → P.verify c.seal (P.sha256 c.journal) ≡ true
      → (u : Registry) × (submit_proof P some sender now job_id c.journal c.seal s ≡ ok u)
        × (u.balance + job.reward ≡ s.balance)
        × (u.transfers ≡ record { job_id = job_id; to = sender; amount = job.reward } ∷ s.transfers)
        × (u.completed job_id ≡ true)
        × (u.events
            ≡ job_completed job_id sender
                (to_le_bytes 8 (fib (Guest.read_number job.payload) % 2 ^ 64))
              ∷ s.events)
  unfolding submit_proof paid settle emit
  submit_proof-prove s job_id job sender now ending bundle c length-sha256 size inv found still
        in_time made extracted good =
      let (c', extracted', l, a, b, d) =
        extract_proof_components-prove z P.sha256 laws ending job_id job.payload bundle
          length-sha256 size made in
      let same : c' ≡ c = cc in
      let enough = covered job_id job s inv found still in
      let begun =
        begin_proof-ok P sender now job_id c.journal c.seal job s found still in_time enough (
          check_proof-ok P job_id job.payload c.journal c.seal (rw same at l) (rw same at a)
            (rw same at b) good) in
      (
        emit (job_completed job_id sender (drop 64 c.journal)) (paid job_id sender job.reward s),
        rw (begun, submit_proof) refl,
        omega (arith, enough),
        refl,
        paid-completed job_id sender job.reward s,
        ap (λ (result : List ℕ). job_completed job_id sender result ∷ s.events) (rw same at d),
      )
