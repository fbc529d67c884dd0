-- ===== src/Prover/Laws.antt =====
-- What an honest zkVM makes of crates/prover/src/lib.rs.
use proof_job_zk.Base.{
  ap, ℕ, ◌%◌, ◌^◌, ◌≡◌, ◌∙◌, List, ok, arith, length, to_le_bytes, >>=-eq-ok, map_err-eq-ok,
}
use proof_job_zk.Core.Ids.{JobId}
use proof_job_zk.Core.Job.{JobInput, JobOutput}
use proof_job_zk.Deps.Zkvm.{Zkvm, ZkvmLaws}
use proof_job_zk.Guest
use proof_job_zk.Guest.Fibonacci.{fib, fibonacci-fib}
use proof_job_zk.Guest.Journal.{guest_main-parts}
use proof_job_zk.Prover.{
  ProofBundle, decode_journal, prove_sync, verify, env_build_failed, proving_failed,
  serialization_failed,
}

-- The journal of the guest on an input of the prover: the two `JobInput` types have one encoding.
unfoldable pub guest_journal : (List ℕ → List ℕ) → JobInput → List ℕ
guest_journal sha256 input =
    Guest.guest_main sha256 (record { job_id = input.job_id.bytes; bytes = input.bytes })

-- The output that the journal of a job stands for.
unfoldable pub honest_output : (List ℕ → List ℕ) → JobId → List ℕ → JobOutput
honest_output sha256 job_id bytes = record {
  job_id = job_id;
  payload_hash = sha256 bytes;
  result = to_le_bytes 8 (fib (Guest.read_number bytes) % 2 ^ 64);
}

-- The prover reads back from the guest's journal what the guest was given and what it computed.
pub decode_journal-guest_journal :
    (sha256 : List ℕ → List ℕ) (job_id : JobId) (bytes : List ℕ)
    → ((bytes : List ℕ) → length (sha256 bytes) ≡ 32)
    → length job_id.bytes ≡ 32
    → decode_journal (guest_journal sha256 (record { job_id = job_id; bytes = bytes }))
      ≡ ok (honest_output sha256 job_id bytes)
unfolding decode_journal guest_journal honest_output Guest.guest_result
decode_journal-guest_journal sha256 job_id bytes length-sha256 size =
    let (l, a, b, c) =
      guest_main-parts sha256 (record { job_id = job_id.bytes; bytes = bytes }) length-sha256
        size in
    ground (arith, l, a, b, c, fibonacci-fib (Guest.read_number bytes))

module _ (z : Zkvm) (sha256 : List ℕ → List ℕ) (laws : ZkvmLaws z (guest_journal sha256)) where
  -- What stands behind a bundle.
  prove_sync-eq-ok :
      (job_id : JobId) (bytes : List ℕ) (bundle : ProofBundle)
      → prove_sync z job_id bytes ≡ ok bundle
      → (env : Zkvm.Env z) × (r : Zkvm.Receipt z) × (z.journal r
          ≡ guest_journal sha256 (record { job_id = job_id; bytes = bytes }))
        × (z.prove env z.guest_elf ≡ ok r)
        × (decode_journal (z.journal r) ≡ ok bundle.output)
        × (z.encode_to_vec r ≡ ok bundle.receipt_bytes)
        × (bundle.job_id ≡ job_id)
        × (bundle.image_id ≡ z.guest_id)
  unfolding prove_sync
  prove_sync-eq-ok job_id bytes bundle h =
      let (builder, m₁, h₁) = >>=-eq-ok _ _ h in
      let (env, m₂, h₂) = >>=-eq-ok _ _ h₁ in
      let (r, m₃, h₃) = >>=-eq-ok _ _ h₂ in
      let (output, m₄, h₄) = >>=-eq-ok _ _ h₃ in
      let (receipt_bytes, m₅, h₅) = >>=-eq-ok _ _ h₄ in
      let made = map_err-eq-ok proving_failed (z.prove env z.guest_elf) m₃ in
      (
        env,
        r,
        laws.prove-journal (record { job_id = job_id; bytes = bytes }) builder env r
            (map_err-eq-ok env_build_failed _ m₁) (map_err-eq-ok env_build_failed _ m₂) made,
        made,
        m₄ ∙ cc,
        map_err-eq-ok serialization_failed _ m₅ ∙ cc,
        cc,
        cc,
      )

  -- With a zkVM that keeps its laws, and where the job's identifier and every hash have 32 bytes: a
  -- bundle that `prove_sync` returns is
  -- for the job it was asked for, holds the hash of the data and the Fibonacci number that the data
  -- asks for, comes from a receipt with the guest's journal, and verifies.
  pub prove_sync-honest :
      (job_id : JobId) (bytes : List ℕ) (bundle : ProofBundle)
      → ((bytes : List ℕ) → length (sha256 bytes) ≡ 32)
      → length job_id.bytes ≡ 32
      → prove_sync z job_id bytes ≡ ok bundle
      → (bundle.job_id ≡ job_id)
        × (bundle.output ≡ honest_output sha256 job_id bytes)
        × (bundle.image_id ≡ z.guest_id)
        × (verify z bundle ≡ ok tt)
        × (r : Zkvm.Receipt z) × (z.decode_from_slice bundle.receipt_bytes ≡ ok r)
        × (z.journal r ≡ guest_journal sha256 (record { job_id = job_id; bytes = bytes }))
  unfolding verify
  prove_sync-honest job_id bytes bundle length-sha256 size h =
      let (env, r, says, made, decoded, encoded, same_id, same_image) =
        prove_sync-eq-ok job_id bytes bundle h in
      let read = laws.decode-encode r bundle.receipt_bytes encoded in
      (
        same_id,
        ground (
          arith,
          decoded,
          says,
          decode_journal-guest_journal sha256 job_id bytes length-sha256 size,
        ),
        same_image,
        ground (arith, read, laws.prove-verify env r made),
        r,
        read,
        says,
      )

  -- With a zkVM that keeps its laws, and where the job's identifier and every hash have 32 bytes,
  -- `prove_sync` succeeds whenever the zkVM writes, builds, proves and encodes: with the job's
  -- identifier, the hash of the data, the Fibonacci number that the data asks for modulo 2^64, the
  -- encoded receipt, and the image of the guest.
  pub prove_sync-total :
      (job_id : JobId) (bytes : List ℕ) (builder : Zkvm.Builder z) (env : Zkvm.Env z)
      (r : Zkvm.Receipt z) (receipt_bytes : List ℕ)
      → ((bytes : List ℕ) → length (sha256 bytes) ≡ 32)
      → length job_id.bytes ≡ 32
      → z.write (record { job_id = job_id; bytes = bytes }) ≡ ok builder
      → z.build builder ≡ ok env
      → z.prove env z.guest_elf ≡ ok r
      → z.encode_to_vec r ≡ ok receipt_bytes
      → prove_sync z job_id bytes
        ≡ ok (record {
          job_id = job_id;
          output = honest_output sha256 job_id bytes;
          receipt_bytes = receipt_bytes;
          image_id = z.guest_id;
        })
  unfolding prove_sync
  prove_sync-total job_id bytes builder env r receipt_bytes length-sha256 size written built made
        encoded =
      let says =
        laws.prove-journal (record { job_id = job_id; bytes = bytes }) builder env r written built
          made in
      let decoded =
        ap decode_journal says
        ∙ decode_journal-guest_journal sha256 job_id bytes length-sha256 size in
      rw (written, built, made, decoded, encoded)
