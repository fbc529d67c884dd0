-- ===== src/Tests/Guest.antt =====
-- The guest and the prover at concrete inputs.
use proof_job_zk.Base.{
  ℕ, ◌%◌, ◌^◌, ◌≡◌, refl, List, [], ◌∷◌, ◌++◌, some, ok, replicate, to_le_bytes, from_le_bytes,
  arith,
}
use proof_job_zk.Core.Ids.{JobId}
use proof_job_zk.Core.Job.{JobInput}
use proof_job_zk.Deps.Zkvm.{Zkvm, ZkvmLaws}
use proof_job_zk.Guest
use proof_job_zk.Guest.Fibonacci.{fib, fibonacci-fib, read_number-to_le_bytes}
use proof_job_zk.Prover.{prove, ProofBundle, prove_sync, verify}
use proof_job_zk.Prover.Laws.{guest_journal, honest_output, prove_sync-honest, prove_sync-total}

-- In place of a hash: 32 zeros.
abbrev pub zeros : List ℕ → List ℕ
zeros bytes = replicate 32 0

-- A zkVM whose receipts are bare journals.
abbrev pub toy : Zkvm
toy = record {
  Builder = JobInput;
  Env = JobInput;
  Receipt = List ℕ;
  guest_elf = [];
  guest_id = [];
  write = λ input. ok input;
  build = λ builder. ok builder;
  prove = λ env elf. ok (guest_journal zeros env);
  journal = λ r. r;
  groth16 = λ r. some r;
  encode_to_vec = λ r. ok r;
  decode_from_slice = λ bytes. ok bytes;
  verify = λ r image. ok tt;
}

pub toy_laws : ZkvmLaws toy (guest_journal zeros)
toy_laws = record {
  prove-journal = λ input builder env r h₁ h₂ h₃. cc;
  prove-verify = λ env r h. refl;
  decode-encode = λ r bytes h. cc;
}

abbrev pub some_id : JobId
some_id = record { bytes = replicate 32 7 }

-- The tenth number.
abbrev pub ten : List ℕ
ten = 10 ∷ []

fibonacci-fib_example : Guest.fibonacci 100 ≡ fib 100 % 2 ^ 64
fibonacci-fib_example = fibonacci-fib 100

-- The largest number that fits, the first that wraps, and what the tests of the source expect.
fibonacci_93 : Guest.fibonacci 93 ≡ 12200160415121876738
unfolding Guest.fibonacci Guest.wrapping_add
fibonacci_93 = refl

fibonacci_94 : Guest.fibonacci 94 ≡ 1293530146158671551
unfolding Guest.fibonacci Guest.wrapping_add
fibonacci_94 = refl

read_number-to_le_bytes_example : Guest.read_number (to_le_bytes 8 1000 ++ (9 ∷ [])) ≡ 1000
read_number-to_le_bytes_example = read_number-to_le_bytes 1000 (9 ∷ []) (omega arith)

abbrev pub bundle : ProofBundle
bundle = record {
  job_id = some_id;
  output = honest_output zeros some_id ten;
  receipt_bytes = guest_journal zeros (record { job_id = some_id; bytes = ten });
  image_id = [];
}

pub prove_sync-ten : prove_sync toy some_id ten ≡ ok bundle
unfolding prove_sync guest_journal honest_output Guest.guest_main Guest.guest_result to_le_bytes fib
    from_le_bytes Guest.wrapping_add
prove_sync-ten = refl

prove_sync-total_example :
    prove_sync toy some_id ten
    ≡ ok (record {
      job_id = some_id;
      output = honest_output zeros some_id ten;
      receipt_bytes = guest_journal zeros (record { job_id = some_id; bytes = ten });
      image_id = [];
    })
prove_sync-total_example =
    prove_sync-total toy zeros toy_laws some_id ten (record { job_id = some_id; bytes = ten })
      (record { job_id = some_id; bytes = ten })
      (guest_journal zeros (record { job_id = some_id; bytes = ten }))
      (guest_journal zeros (record { job_id = some_id; bytes = ten })) (λ bytes. refl) refl refl
      refl refl refl

prove_sync-honest_example :
    (bundle.job_id ≡ some_id)
    × (bundle.output ≡ honest_output zeros some_id ten)
    × (bundle.image_id ≡ toy.guest_id)
    × (verify toy bundle ≡ ok tt)
    × (r : Zkvm.Receipt toy) × (toy.decode_from_slice bundle.receipt_bytes ≡ ok r)
    × (toy.journal r ≡ guest_journal zeros (record { job_id = some_id; bytes = ten }))
prove_sync-honest_example =
    prove_sync-honest toy zeros toy_laws some_id ten bundle (λ bytes. refl) refl prove_sync-ten
