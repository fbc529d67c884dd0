-- ===== src/Worker/Proof.antt =====
-- crates/worker/src/proof.rs: the journal and the seal of a bundle.
use proof_job_zk.Base.{String, List, [], Option, none, some, Result, ok, err, ℕ}
use proof_job_zk.Deps.Zkvm.{Zkvm}
use proof_job_zk.Prover.{ProofBundle}

pub data ProofExtractionError : Type 0 where
  deserialize_failed : String → ProofExtractionError

pub record ProofComponents : Type 0 where
  pub journal : List ℕ
  pub seal : List ℕ

module _ (z : Zkvm) where
  -- An empty seal where the receipt has no Groth16 proof.
  seal_of : Option (List ℕ) → List ℕ
  seal_of none = []
  seal_of (some seal) = seal

  unfoldable pub extract_proof_components :
      ProofBundle → Result ProofExtractionError ProofComponents
  unfolding seal_of
  extract_proof_components bundle = elim (z.decode_from_slice bundle.receipt_bytes) [
    | err e ↦ err (deserialize_failed e)
    | ok receipt ↦ ok (record { journal = z.journal receipt; seal = seal_of (z.groth16 receipt) })
  ]
