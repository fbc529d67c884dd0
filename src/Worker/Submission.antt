-- ===== src/Worker/Submission.antt =====
-- What a worker submits for a job: crates/worker/src/proof.rs behind crates/prover.
use proof_job_zk.Base.{ℕ, ◌≡◌, refl, List, ok, length, take, drop, ◌∙◌, ap, to_le_bytes, ◌%◌, ◌^◌}
use proof_job_zk.Core.Ids.{JobId}
use proof_job_zk.Deps.Zkvm.{Zkvm, ZkvmLaws}
use proof_job_zk.Guest
use proof_job_zk.Guest.Fibonacci.{fib, fibonacci-fib}
use proof_job_zk.Guest.Journal.{guest_main-parts}
use proof_job_zk.Prover.{Joined, ProofBundle, prove, joined, join_error}
use proof_job_zk.Prover.Laws.{guest_journal, prove_sync-honest}
use proof_job_zk.Worker.Proof.{ProofComponents, extract_proof_components}

module _ (z : Zkvm) (sha256 : List ℕ → List ℕ) (laws : ZkvmLaws z (guest_journal sha256)) where
  pub extract_proof_components-prove :
      (ending : Joined z) (job_id : JobId) (payload : List ℕ) (bundle : ProofBundle)
      → ((bytes : List ℕ) → length (sha256 bytes) ≡ 32)
      → length job_id.bytes ≡ 32
      → prove z ending job_id payload ≡ ok bundle
      → (c : ProofComponents) × (extract_proof_components z bundle ≡ ok c)
        × (length c.journal ≡ 72)
        × (take 32 c.journal ≡ job_id.bytes)
        × (take 32 (drop 32 c.journal) ≡ sha256 payload)
        × (drop 64 c.journal ≡ to_le_bytes 8 (fib (Guest.read_number payload) % 2 ^ 64))
  unfolding prove extract_proof_components guest_journal Guest.guest_result
  extract_proof_components-prove joined job_id payload bundle length-sha256 size made =
      let (_, _, _, _, r, read, says) =
        prove_sync-honest z sha256 laws job_id payload bundle length-sha256 size made in
      let (l, a, b, d) =
        guest_main-parts sha256 (record { job_id = job_id.bytes; bytes = payload }) length-sha256
          size in
      let number = fibonacci-fib (Guest.read_number payload) in
      rw (read, extract_proof_components)
        (
          _,
          refl,
          ap length says ∙ l,
          ap (take 32) says ∙ a,
          ap (λ (j : List ℕ). take 32 (drop 32 j)) says ∙ b,
          ap (drop 64) says ∙ d ∙ ap (to_le_bytes 8) number,
        )
  extract_proof_components-prove (join_error e) job_id payload bundle length-sha256 size made = cc
