-- ===== src/Registry/Solvency.antt =====
-- The contract can always pay the jobs that are open, and pays none twice, whatever the recipients
-- of its transfers call in between (contracts/src/JobRegistry.sol).
use proof_job_zk.Base.{
  ℕ, ◌+◌, ◌≤◌, ◌≡◌, ◌≢◌, refl, Bool, true, false, List, [], ◌∷◌, none, some, arith, ite, All,
  if◌then◌else◌,
}
use proof_job_zk.Core.Ids.{JobId, JobId-discrete}
use proof_job_zk.Core.Job.{Address}
use proof_job_zk.Registry.{
  Registry, RegistryJob, RegistryEvent, Transfer, Precompiles, deployed, find, settle, emit, Call,
  Calls, submitted, proved, expired, forced, none_more, then_more,
}
use proof_job_zk.Registry.Steps.{
  paid, Pays, taken, submit_job-eq-ok, begin_proof-Pays, begin_expiry-Pays,
}

abbrev done_with : JobId → (JobId → Bool) → JobId → Bool
done_with job_id done j = ite (JobId-discrete j job_id) true (done j)

-- The rewards of the jobs that are neither proved nor expired.
unfoldable pub owed : (JobId → Bool) → List (JobId × RegistryJob) → ℕ
owed done [] = 0
owed done ((k, job) ∷ jobs) =
    let rest = owed done jobs in if done k then rest else job.reward + rest

abbrev pub IsUnique : List (JobId × RegistryJob) → Type 0
IsUnique [] = Unit
IsUnique ((k, job) ∷ jobs) = (find k jobs ≡ none) × IsUnique jobs

owed_missing :
    (id : JobId) (done : JobId → Bool) (jobs : List (JobId × RegistryJob))
    → find id jobs ≡ none
    → owed (done_with id done) jobs ≡ owed done jobs
unfolding owed find
owed_missing id done [] h = refl
owed_missing id done ((k, job) ∷ jobs) h = ground (arith, owed_missing id done jobs)

-- To settle an open job takes its reward off what is owed.
owed_settled :
    (id : JobId) (done : JobId → Bool) (job : RegistryJob) (jobs : List (JobId × RegistryJob))
    → IsUnique jobs
    → find id jobs ≡ some job
    → done id ≡ false
    → owed (done_with id done) jobs + job.reward ≡ owed done jobs
unfolding owed find
owed_settled id done job [] u h still = absurd (cc)
owed_settled id done job ((k, other) ∷ jobs) u h still =
    ground (arith, owed_settled id done job jobs u.1, owed_missing id done jobs)

abbrev pub SameJob : JobId → Transfer → Type 0
SameJob id t = t.job_id ≢ id

abbrev pub PaidOnce : List Transfer → Type 0
PaidOnce [] = Unit
PaidOnce (t ∷ transfers) = All (SameJob t.job_id) transfers × PaidOnce transfers

abbrev pub AllSettled : (JobId → Bool) → List Transfer → Type 0
AllSettled done transfers = All (λ (t : Transfer). done t.job_id ≡ true) transfers

pub record Inv (s : Registry) : Type 0 where
  pub unique : IsUnique s.jobs
  pub backed : owed s.completed s.jobs ≤ s.balance
  pub settled : AllSettled s.completed s.transfers
  pub once : PaidOnce s.transfers

AllSettled-settle :
    (id : JobId) (done : JobId → Bool) (transfers : List Transfer)
    → AllSettled done transfers
    → AllSettled (done_with id done) transfers
AllSettled-settle id done [] h = tt
AllSettled-settle id done (t ∷ transfers) h =
    (ground arith, AllSettled-settle id done transfers h.1)

not_paid :
    (id : JobId) (done : JobId → Bool) (transfers : List Transfer)
    → done id ≡ false
    → AllSettled done transfers
    → All (SameJob id) transfers
not_paid id done [] still h = tt
not_paid id done (t ∷ transfers) still h =
    (λ same. ground arith, not_paid id done transfers still h.1)

paid-Inv : (job_id : JobId) (s u : Registry) → Pays job_id s u → Inv s → Inv u
unfolding paid settle
paid-Inv job_id s u pays inv = rw pays.result (record {
  unique = inv.unique;
  backed = omega (
    arith,
    owed_settled job_id s.completed pays.job s.jobs inv.unique pays.found pays.still_open,
    inv.backed,
    pays.covered,
  );
  settled = (ground arith, AllSettled-settle job_id s.completed s.transfers inv.settled);
  once = (not_paid job_id s.completed s.transfers pays.still_open inv.settled, inv.once);
})

pub taken-Inv :
    (sender : Address) (value : ℕ) (job_id : JobId) (payload : List ℕ) (deadline : ℕ) (s : Registry)
    → find job_id s.jobs ≡ none
    → Inv s
    → Inv (taken sender value job_id payload deadline s)
unfolding taken owed
taken-Inv sender value job_id payload deadline s new inv = record {
  unique = (new, inv.unique);
  backed = ground (arith, inv.backed);
  settled = inv.settled;
  once = inv.once;
}

emit-Inv : (event : RegistryEvent) (s : Registry) → Inv s → Inv (emit event s)
unfolding emit
emit-Inv event s inv = record {
  unique = inv.unique;
  backed = inv.backed;
  settled = inv.settled;
  once = inv.once;
}

forced-Inv : (amount : ℕ) (s : Registry) → Inv s → Inv (record s { balance = s.balance + amount })
forced-Inv amount s inv = record {
  unique = inv.unique;
  backed = omega (arith, inv.backed);
  settled = inv.settled;
  once = inv.once;
}

pub deployed-Inv : Inv deployed
unfolding deployed owed
deployed-Inv = record { unique = tt; backed = omega arith; settled = tt; once = tt }

-- The reward of an open job is there.
pub covered :
    (id : JobId) (job : RegistryJob) (s : Registry)
    → Inv s
    → find id s.jobs ≡ some job
    → s.completed id ≡ false
    → job.reward ≤ s.balance
covered id job s inv found still =
    omega (arith, owed_settled id s.completed job s.jobs inv.unique found still, inv.backed)

module _ (P : Precompiles) where
  mutual
    Call-Inv : {s u : Registry} → Call P s u → Inv s → Inv u
    Call-Inv {s} {u} (submitted sender value now job_id payload deadline h) inv =
        let (new, _, _, made) = submit_job-eq-ok sender value now job_id payload deadline s u h in
        rw made (taken-Inv sender value job_id payload deadline s new inv)
    Call-Inv {s} (proved sender now job_id journal seal {s₁ = s₁} {s₂ = s₂} h calls made) inv =
        let (pays, _, _, _) = begin_proof-Pays P sender now job_id journal seal s s₁ h in
        rw made (emit-Inv _ s₂ (each-Calls-Inv calls (paid-Inv job_id s s₁ pays inv)))
    Call-Inv {s} (expired now job_id {s₁ = s₁} {s₂ = s₂} h calls made) inv =
        let (pays, _) = begin_expiry-Pays P now job_id s s₁ h in
        rw made (emit-Inv _ s₂ (each-Calls-Inv calls (paid-Inv job_id s s₁ pays inv)))
    Call-Inv {s} (forced amount made) inv = rw made (forced-Inv amount s inv)

    each-Calls-Inv : {s u : Registry} → Calls P s u → Inv s → Inv u
    each-Calls-Inv (none_more same) inv = rw same inv
    each-Calls-Inv (then_more c calls) inv = each-Calls-Inv calls (Call-Inv c inv)

  -- Any calls, with whatever calls their recipients make while a transfer is under way, keep
  -- this: no identifier is taken twice, the balance covers the rewards of all open jobs, only
  -- jobs that are settled were paid, and none of them twice.
  pub Calls-Inv : {s u : Registry} → Calls P s u → Inv s → Inv u
  Calls-Inv calls inv = each-Calls-Inv calls inv
