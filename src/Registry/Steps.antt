-- ===== src/Registry/Steps.antt =====
-- What a transfer of contracts/src/JobRegistry.sol is made of.
use proof_job_zk.Base.{
  ℕ, ◌+◌, ◌-◌, ◌≤◌, ◌<◌, ◌≡◌, refl, true, false, List, ◌∷◌, none, some, ok, ◌>>=◌, arith, inl, inr,
  Option-cases, Bool-cases, leb, ltb, leb→le, >>=-eq-ok,
}
use proof_job_zk.Core.Ids.{JobId}
use proof_job_zk.Core.Job.{Address}
use proof_job_zk.Registry.{
  Registry, RegistryJob, Precompiles, find, submit_job, settle, pay, check_proof, begin_proof,
  begin_expiry, job_submitted,
}

-- The contract after the start of a transfer.
unfoldable pub paid : JobId → Address → ℕ → Registry → Registry
unfolding settle
paid job_id to amount s = record (settle job_id s) {
  balance = s.balance - amount;
  transfers = record { job_id = job_id; to = to; amount = amount } ∷ s.transfers;
}

pub paid-completed :
    (job_id : JobId) (to : Address) (amount : ℕ) (s : Registry)
    → (paid job_id to amount s).completed job_id ≡ true
unfolding paid
paid-completed job_id to amount s = ground arith

-- The contract after a job has been taken.
unfoldable pub taken : Address → ℕ → JobId → List ℕ → ℕ → Registry → Registry
taken sender value job_id payload deadline s = record s {
  jobs =
      (job_id, record { owner = sender; payload = payload; reward = value; deadline = deadline })
      ∷ s.jobs;
  balance = s.balance + value;
  events = job_submitted job_id sender value deadline ∷ s.events;
}

pub submit_job-eq-ok :
    (sender : Address) (value now : ℕ) (job_id : JobId) (payload : List ℕ) (deadline : ℕ)
    (s u : Registry)
    → submit_job sender value now job_id payload deadline s ≡ ok u
    → (find job_id s.jobs ≡ none)
      × (0 < value)
      × (now < deadline)
      × (u ≡ taken sender value job_id payload deadline s)
unfolding submit_job taken
submit_job-eq-ok sender value now job_id payload deadline s u h =
    elim (Option-cases (find job_id s.jobs)) [
      | inr (job, found) ↦ absurd (ground arith)
      | inl new ↦ (new, ground arith, ground arith, ground arith)
    ]

-- From `s` the reward of an open job was sent to someone, which gave `u`.
pub record Pays (job_id : JobId) (s u : Registry) : Type 0 where
  pub job : RegistryJob
  pub to : Address
  pub found : find job_id s.jobs ≡ some job
  pub still_open : s.completed job_id ≡ false
  pub covered : job.reward ≤ s.balance
  pub result : u ≡ paid job_id to job.reward s

pay-eq-ok :
    (job_id : JobId) (to : Address) (amount : ℕ) (s u : Registry)
    → pay job_id to amount (settle job_id s) ≡ ok u
    → (amount ≤ s.balance) × (u ≡ paid job_id to amount s)
unfolding pay paid settle
pay-eq-ok job_id to amount s u h = elim (Bool-cases (leb amount s.balance)) [
  | inl enough ↦ (leb→le amount s.balance enough, ground arith)
  | inr short ↦ absurd (ground arith)
]

module _ (P : Precompiles) where
  pub begin_proof-Pays :
      (sender : Address) (now : ℕ) (job_id : JobId) (journal seal : List ℕ) (s u : Registry)
      → begin_proof P sender now job_id journal seal s ≡ ok u
      → (pays : Pays job_id s u) × (check_proof P job_id pays.job.payload journal seal ≡ ok tt)
        × (now ≤ pays.job.deadline)
        × (pays.to ≡ sender)
  unfolding begin_proof
  begin_proof-Pays sender now job_id journal seal s u h = elim (Option-cases (find job_id s.jobs)) [
    | inl missing ↦ absurd (ground arith)
    | inr (job, found) ↦
        let still : s.completed job_id ≡ false = ground arith in
        let in_time : ltb job.deadline now ≡ false = ground arith in
        let tested : (check_proof P job_id job.payload journal seal
              >>= (λ checked. pay job_id sender job.reward (settle job_id s)))
            ≡ ok u =
          ground arith in
        let (checked, good, sent) = >>=-eq-ok _ _ tested in
        let (covered, result) = pay-eq-ok job_id sender job.reward s u sent in
        (
          record {
            job = job;
            to = sender;
            found = found;
            still_open = still;
            covered = covered;
            result = result;
          },
          good,
          ground arith,
          refl,
        )
  ]

  pub begin_expiry-Pays :
      (now : ℕ) (job_id : JobId) (s u : Registry)
      → begin_expiry P now job_id s ≡ ok u
      → (pays : Pays job_id s u) × (pays.to ≡ pays.job.owner)
  unfolding begin_expiry
  begin_expiry-Pays now job_id s u h = elim (Option-cases (find job_id s.jobs)) [
    | inl missing ↦ absurd (ground arith)
    | inr (job, found) ↦
        let still : s.completed job_id ≡ false = ground arith in
        let sent : pay job_id job.owner job.reward (settle job_id s) ≡ ok u = ground arith in
        let (covered, result) = pay-eq-ok job_id job.owner job.reward s u sent in
        (
          record {
            job = job;
            to = job.owner;
            found = found;
            still_open = still;
            covered = covered;
            result = result;
          },
          refl,
        )
  ]
