-- ===== src/Prover.antt =====
-- crates/prover/src/lib.rs (its functions; the tests below them are not modelled). What
-- `spawn_blocking(…).await` answers is an argument: a task that panics gives a `JoinError`.
pub mod Laws
use proof_job_zk.Base.{
  ℕ, String, List, Result, ok, err, map_err, ◌>>=◌, length, take, drop, ltb, if◌then◌else◌,
}
use proof_job_zk.Core.Ids.{JobId}
use proof_job_zk.Core.Job.{JobInput, JobOutput}
use proof_job_zk.Deps.Zkvm.{Zkvm}

pub record ProofBundle : Type 0 where
  pub job_id : JobId
  pub output : JobOutput
  pub receipt_bytes : List ℕ
  pub image_id : List ℕ

pub data ProverError : Type 0 where
  env_build_failed : String → ProverError
  proving_failed : String → ProverError
  journal_decode_failed : ℕ → ProverError  -- the text holds the journal's length
  serialization_failed : String → ProverError
  join_failed : String → ProverError

-- The journal cut at 32 and 64.
unfoldable pub decode_journal : List ℕ → Result ProverError JobOutput
decode_journal journal =
    if ltb (length journal) 64
    then err (journal_decode_failed (length journal))
    else ok (record {
      job_id = record { bytes = take 32 journal };
      payload_hash = take 32 (drop 32 journal);
      result = drop 64 journal;
    })

module _ (z : Zkvm) where
  unfoldable pub prove_sync : JobId → List ℕ → Result ProverError ProofBundle
  unfolding decode_journal
  prove_sync job_id bytes = do
    builder ← map_err env_build_failed (z.write (record { job_id = job_id; bytes = bytes }))
    env ← map_err env_build_failed (z.build builder)
    receipt ← map_err proving_failed (z.prove env z.guest_elf)
    output ← decode_journal (z.journal receipt)
    receipt_bytes ← map_err serialization_failed (z.encode_to_vec receipt)
    ok (record {
      job_id = job_id;
      output = output;
      receipt_bytes = receipt_bytes;
      image_id = z.guest_id;
    })

  pub data Joined : Type 0 where
    joined : Joined
    join_error : String → Joined

  unfoldable pub prove : Joined → JobId → List ℕ → Result ProverError ProofBundle
  unfolding prove_sync
  prove joined job_id bytes = prove_sync job_id bytes
  prove (join_error e) job_id bytes = err (join_failed e)

  unfoldable pub verify : ProofBundle → Result ProverError (Unit {0})
  verify bundle = do
    receipt ← map_err serialization_failed (z.decode_from_slice bundle.receipt_bytes)
    checked ← map_err proving_failed (z.verify receipt bundle.image_id)
    ok tt

  unfoldable pub guest_image_id : List ℕ
  guest_image_id = z.guest_id
