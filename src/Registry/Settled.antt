-- ===== src/Registry/Settled.antt =====
-- What no call of contracts/src/JobRegistry.sol takes back.
use proof_job_zk.Base.{ℕ, ◌+◌, ◌≡◌, true, List, none, some, arith}
use proof_job_zk.Core.Ids.{JobId}
use proof_job_zk.Core.Job.{Address}
use proof_job_zk.Registry.{
  Registry, RegistryJob, RegistryEvent, Precompiles, find, emit, Call, Calls, submitted, proved,
  expired, forced, none_more, then_more,
}
use proof_job_zk.Registry.Steps.{
  paid, Pays, taken, submit_job-eq-ok, begin_proof-Pays, begin_expiry-Pays,
}

-- What is settled in the one is so in the other, and what was taken has the same terms.
pub record Keeps (s u : Registry) : Type 0 where
  pub settled : (id : JobId) → s.completed id ≡ true → u.completed id ≡ true
  pub terms :
      (id : JobId) (job : RegistryJob) → find id s.jobs ≡ some job → find id u.jobs ≡ some job

same-Keeps : (s : Registry) → Keeps s s
same-Keeps s = record { settled = λ id h. h; terms = λ id job h. h }

Keeps-join : (s t u : Registry) → Keeps s t → Keeps t u → Keeps s u
Keeps-join s t u a b = record {
  settled = λ id h. b.settled id (a.settled id h);
  terms = λ id job h. b.terms id job (a.terms id job h);
}

paid-Keeps : (job_id : JobId) (s u : Registry) → Pays job_id s u → Keeps s u
unfolding paid
paid-Keeps job_id s u pays =
    rw pays.result (record { settled = λ id h. ground arith; terms = λ id job h. h })

taken-Keeps :
    (sender : Address) (value : ℕ) (job_id : JobId) (payload : List ℕ) (deadline : ℕ) (s : Registry)
    → find job_id s.jobs ≡ none
    → Keeps s (taken sender value job_id payload deadline s)
unfolding taken find
taken-Keeps sender value job_id payload deadline s new = record {
  settled = λ id h. h;
  terms = λ id job h. ground arith;
}

emit-Keeps : (event : RegistryEvent) (s : Registry) → Keeps s (emit event s)
unfolding emit
emit-Keeps event s = record { settled = λ id h. h; terms = λ id job h. h }

forced-Keeps : (amount : ℕ) (s : Registry) → Keeps s (record s { balance = s.balance + amount })
forced-Keeps amount s = record { settled = λ id h. h; terms = λ id job h. h }

module _ (P : Precompiles) where
  mutual
    Call-Keeps : {s u : Registry} → Call P s u → Keeps s u
    Call-Keeps {s} {u} (submitted sender value now job_id payload deadline h) =
        let (new, _, _, made) = submit_job-eq-ok sender value now job_id payload deadline s u h in
        rw made (taken-Keeps sender value job_id payload deadline s new)
    Call-Keeps {s} (proved sender now job_id journal seal {s₁ = s₁} {s₂ = s₂} h calls made) =
        let (pays, _, _, _) = begin_proof-Pays P sender now job_id journal seal s s₁ h in
        rw made (
          Keeps-join s s₁ _ (paid-Keeps job_id s s₁ pays)
            (Keeps-join s₁ s₂ _ (each-Calls-Keeps calls) (emit-Keeps _ s₂)))
    Call-Keeps {s} (expired now job_id {s₁ = s₁} {s₂ = s₂} h calls made) =
        let (pays, _) = begin_expiry-Pays P now job_id s s₁ h in
        rw made (
          Keeps-join s s₁ _ (paid-Keeps job_id s s₁ pays)
            (Keeps-join s₁ s₂ _ (each-Calls-Keeps calls) (emit-Keeps _ s₂)))
    Call-Keeps {s} (forced amount made) = rw made (forced-Keeps amount s)

    each-Calls-Keeps : {s u : Registry} → Calls P s u → Keeps s u
    each-Calls-Keeps {s} (none_more same) = rw same (same-Keeps s)
    each-Calls-Keeps {s} {u} (then_more {t = t} c calls) =
        Keeps-join s t u (Call-Keeps c) (each-Calls-Keeps calls)

  -- Over any calls a settled job stays settled, and a job that was taken keeps its owner,
  -- payload, reward and deadline.
  pub Calls-Keeps : {s u : Registry} → Calls P s u → Keeps s u
  Calls-Keeps calls = each-Calls-Keeps calls
