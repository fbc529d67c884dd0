-- ===== src/Registry.antt =====
-- contracts/src/JobRegistry.sol: the escrow contract. A call takes its `msg.sender`, `msg.value`
-- and `block.timestamp`; a revert is `err` and leaves the state. `transfers` and `events` are what
-- left the contract, newest first. A `mapping` that is written once per key is an association list.
pub mod Steps
pub mod Solvency
pub mod Acceptance
pub mod Settled
pub mod Expired
use proof_job_zk.Base.{
  ℕ, ◌+◌, ◌-◌, ◌≡◌, Bool, true, false, not, List, [], ◌∷◌, Option, none, some, Result, ok, err,
  ◌>>=◌, ite, leb, ltb, ◌==◌, length, take, drop, if◌then◌else◌,
}
use proof_job_zk.Core.Ids.{JobId, JobId-discrete, bytes_discrete}
use proof_job_zk.Core.Job.{Address}

pub data RegistryError : Type 0 where
  job_already_exists insufficient_reward deadline_passed job_not_found job_already_completed
        invalid_journal job_id_mismatch payload_mismatch verification_failed transfer_failed
        job_not_expired :
      RegistryError

-- `struct Job`; the flag `exists` says that the entry is found.
pub record RegistryJob : Type 0 where
  pub owner : Address
  pub payload : List ℕ
  pub reward : ℕ
  pub deadline : ℕ

pub data RegistryEvent : Type 0 where
  job_submitted : JobId → Address → ℕ → ℕ → RegistryEvent
  job_completed : JobId → Address → List ℕ → RegistryEvent
  job_expired : JobId → RegistryEvent

-- `to.call{value: amount}("")`
pub record Transfer : Type 0 where
  pub job_id : JobId
  pub to : Address
  pub amount : ℕ

pub record Registry : Type 0 where
  pub jobs : List (JobId × RegistryJob)
  pub completed : JobId → Bool
  pub balance : ℕ
  pub transfers : List Transfer
  pub events : List RegistryEvent

-- The constructor.
unfoldable pub deployed : Registry
deployed = record { jobs = []; completed = λ id. false; balance = 0; transfers = []; events = [] }

-- `jobs[jobId]`
unfoldable pub find : JobId → List (JobId × RegistryJob) → Option RegistryJob
find id [] = none
find id ((k, job) ∷ jobs) = ite (JobId-discrete k id) (some job) (find id jobs)

unfoldable pub submit_job :
    Address → ℕ → ℕ → JobId → List ℕ → ℕ → Registry → Result RegistryError Registry
submit_job sender value now job_id payload deadline s = elim (find job_id s.jobs) [
  | some job ↦ err job_already_exists
  | none ↦
      if value == 0
      then err insufficient_reward
      else if leb deadline now
      then err deadline_passed
      else ok (record s {
        jobs =
            (
              job_id,
              record { owner = sender; payload = payload; reward = value; deadline = deadline },
            )
            ∷ s.jobs;
        balance = s.balance + value;
        events = job_submitted job_id sender value deadline ∷ s.events;
      })
]

-- `completed[jobId] = true`
unfoldable pub settle : JobId → Registry → Registry
settle job_id s = record s { completed = λ j. ite (JobId-discrete j job_id) true (s.completed j) }

-- The start of a transfer: the ether leaves before the code of the recipient runs.
unfoldable pub pay : JobId → Address → ℕ → Registry → Result RegistryError Registry
pay job_id to amount s =
    if leb amount s.balance
    then ok (record s {
      balance = s.balance - amount;
      transfers = record { job_id = job_id; to = to; amount = amount } ∷ s.transfers;
    })
    else err transfer_failed

-- What the contract calls: the hash, and the `verify` of the verifier at its image.
pub record Precompiles : Type 0 where
  pub sha256 : List ℕ → List ℕ
  pub verify : List ℕ → List ℕ → Bool

-- `emit`, after the transfer
unfoldable pub emit : RegistryEvent → Registry → Registry
emit event s = record s { events = event ∷ s.events }

-- The code of a recipient, which may call the contract again; `none` where it fails.
abbrev pub Recipient : Type 0
Recipient = Registry → Option Registry

abbrev pub finish : RegistryEvent → Option Registry → Result RegistryError Registry
finish event none = err transfer_failed
finish event (some s) = ok (emit event s)

module _ (P : Precompiles) where
  -- The tests on the journal and the seal.
  unfoldable pub check_proof : JobId → List ℕ → List ℕ → List ℕ → Result RegistryError (Unit {0})
  check_proof job_id payload journal seal =
      if ltb (length journal) 64
      then err invalid_journal
      else ite (bytes_discrete (take 32 journal) job_id.bytes)
          (ite (bytes_discrete (take 32 (drop 32 journal)) (P.sha256 payload))
            (if P.verify seal (P.sha256 journal) then ok tt else err verification_failed)
            (err payload_mismatch))
          (err job_id_mismatch)

  -- `submitProof` up to its transfer.
  unfoldable pub begin_proof :
      Address → ℕ → JobId → List ℕ → List ℕ → Registry → Result RegistryError Registry
  unfolding check_proof settle pay
  begin_proof sender now job_id journal seal s = elim (find job_id s.jobs) [
    | none ↦ err job_not_found
    | some job ↦
        if s.completed job_id
        then err job_already_completed
        else if ltb job.deadline now
        then err deadline_passed
        else check_proof job_id job.payload journal seal
          >>= (λ checked. pay job_id sender job.reward (settle job_id s))
  ]

  -- `expireJob` up to its transfer.
  unfoldable pub begin_expiry : ℕ → JobId → Registry → Result RegistryError Registry
  unfolding settle pay
  begin_expiry now job_id s = elim (find job_id s.jobs) [
    | none ↦ err job_not_found
    | some job ↦
        if s.completed job_id
        then err job_already_completed
        else if leb now job.deadline
        then err job_not_expired
        else pay job_id job.owner job.reward (settle job_id s)
  ]

  unfoldable pub submit_proof :
      Recipient → Address → ℕ → JobId → List ℕ → List ℕ → Registry → Result RegistryError Registry
  unfolding begin_proof emit
  submit_proof recipient sender now job_id journal seal s =
      begin_proof sender now job_id journal seal s
      >>= (λ s'. finish (job_completed job_id sender (drop 64 journal)) (recipient s'))

  unfoldable pub expire_job : Recipient → ℕ → JobId → Registry → Result RegistryError Registry
  unfolding begin_expiry emit
  expire_job recipient now job_id s =
      begin_expiry now job_id s >>= (λ s'. finish (job_expired job_id) (recipient s'))

  -- What the transactions of a stretch of time do to the contract. A call with a transfer holds the
  -- calls that its recipient makes; a call that reverts does nothing.
  mutual
    pub data Call : Registry → Registry → Type 0 where
      submitted :
          (sender : Address) (value now : ℕ) (job_id : JobId) (payload : List ℕ) (deadline : ℕ)
          {s u : Registry}
          → submit_job sender value now job_id payload deadline s ≡ ok u
          → Call s u
      proved :
          (sender : Address) (now : ℕ) (job_id : JobId) (journal seal : List ℕ)
          {s s₁ s₂ u : Registry}
          → begin_proof sender now job_id journal seal s ≡ ok s₁
          → Calls s₁ s₂
          → u ≡ emit (job_completed job_id sender (drop 64 journal)) s₂
          → Call s u
      expired :
          (now : ℕ) (job_id : JobId) {s s₁ s₂ u : Registry}
          → begin_expiry now job_id s ≡ ok s₁
          → Calls s₁ s₂
          → u ≡ emit (job_expired job_id) s₂
          → Call s u
      -- ether that is forced on the contract
      forced :
          (amount : ℕ) {s u : Registry} → u ≡ record s { balance = s.balance + amount } → Call s u

    pub data Calls : Registry → Registry → Type 0 where
      none_more : {s u : Registry} → u ≡ s → Calls s u
      then_more : {s t u : Registry} → Call s t → Calls t u → Calls s u
