-- ===== src/Deps/Zkvm.antt =====
-- risc0_zkvm, and bincode at its `Receipt`: the executor environment, the prover and its receipts.
use proof_job_zk.Base.{ℕ, ◌≡◌, String, List, Option, Result, ok}
use proof_job_zk.Core.Job.{JobInput}

pub record Zkvm : Type 1 where
  pub Builder : Type 0
  pub Env : Type 0
  pub Receipt : Type 0
  pub guest_elf : List ℕ
  pub guest_id : List ℕ
  -- `ExecutorEnv::builder().write(&input)` and `.build()`
  pub write : JobInput → Result String Builder
  pub build : Builder → Result String Env
  -- `default_prover().prove(env, elf)`, and the `receipt` of what it gives
  pub prove : Env → List ℕ → Result String Receipt
  pub journal : Receipt → List ℕ
  -- `receipt.inner.groth16()`, and its `seal`
  pub groth16 : Receipt → Option (List ℕ)
  pub encode_to_vec : Receipt → Result String (List ℕ)
  pub decode_from_slice : List ℕ → Result String Receipt
  pub verify : Receipt → List ℕ → Result String (Unit {0})

-- What risc0 and bincode promise. `guest` is the journal that the guest program commits.
pub record ZkvmLaws (z : Zkvm) (guest : JobInput → List ℕ) : Type 0 where
  -- a proof runs the guest on the input that was written
  pub prove-journal :
      (input : JobInput) (builder : Zkvm.Builder z) (env : Zkvm.Env z) (r : Zkvm.Receipt z)
      → z.write input ≡ ok builder
      → z.build builder ≡ ok env
      → z.prove env z.guest_elf ≡ ok r
      → z.journal r ≡ guest input
  -- and its receipt verifies under the image of the guest
  pub prove-verify :
      (env : Zkvm.Env z) (r : Zkvm.Receipt z)
      → z.prove env z.guest_elf ≡ ok r
      → z.verify r z.guest_id ≡ ok tt
  pub decode-encode :
      (r : Zkvm.Receipt z) (bytes : List ℕ)
      → z.encode_to_vec r ≡ ok bytes
      → z.decode_from_slice bytes ≡ ok r
