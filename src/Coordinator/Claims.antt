-- ===== src/Coordinator/Claims.antt =====
-- Claim arbitration: what `handle_claim` of crates/coordinator/src/gossip_handler.rs does.
use proof_job_zk.Base.{
  ℕ, ◌+◌, ◌≤◌, ◌≡◌, refl, List, [], ◌∷◌, Option, none, some, ok, arith, inl, inr, Bool-cases, ite,
  if◌then◌else◌,
}
use proof_job_zk.Core.Ids.{JobId, JobId-discrete, PeerId}
use proof_job_zk.Core.Job.{Job, is_pending}
use proof_job_zk.Core.Message.{GossipMessage, claim_accepted, claim_rejected}
use proof_job_zk.Coordinator.State.{Runtime, AppState, job_at, announce}
use proof_job_zk.Coordinator.Handler.{assign, handle_claim}
use proof_job_zk.Coordinator.Lifecycle.{Evolves, same, moved, assign-Advance, claimable}

-- The contract of first-wins arbitration: the answer, and the entry after it.
abbrev pub claim_reply : Option Job → JobId → PeerId → GossipMessage
claim_reply none job_id worker_id = claim_rejected job_id "job not found"
claim_reply (some job) job_id worker_id =
    if is_pending job.job_status
    then claim_accepted job_id worker_id
    else claim_rejected job_id "job already assigned"

abbrev pub claimed_job : PeerId → ℕ → Option Job → Option Job
claimed_job worker_id now none = none
claimed_job worker_id now (some job) =
    some (if is_pending job.job_status then assign worker_id now job else job)

-- How many of the messages accept a claim of the job.
unfoldable pub accepts : JobId → List GossipMessage → ℕ
accepts id [] = 0
accepts id (claim_accepted job_id _ ∷ sent) =
    let rest = accepts id sent in ite (JobId-discrete job_id id) (rest + 1) rest
accepts id (_ ∷ sent) = accepts id sent

claimed-Evolves :
    {id : JobId} (worker_id : PeerId) (now : ℕ) (before : Option Job) {after : Option Job}
    → after ≡ claimed_job worker_id now before
    → Evolves id before after
unfolding assign
claimed-Evolves worker_id now none e = same e
claimed-Evolves worker_id now (some job) e = elim (Bool-cases (is_pending job.job_status)) [
  | inl fresh ↦
      moved job (assign worker_id now job).job_status refl (assign-Advance worker_id now job fresh)
        (ground arith)
  | inr taken ↦ same (ground arith)
]

module _ (R : Runtime) where
  abbrev pub sent_by : AppState R → List GossipMessage
  sent_by s = R.gossip.sent s.gossip

  -- What a state shows: the answer, the new messages, the entries, and the rest.
  pub record Answers (s t : AppState R) (message : GossipMessage) (entry : JobId → Option Job)
      : Type 0 where
    pub log : sent_by t ≡ message ∷ sent_by s
    pub entries : (j : JobId) → job_at R j t ≡ entry j
    pub contract_kept : t.contract ≡ s.contract
    pub config_kept : t.config ≡ s.config

  -- In every case a claim is answered by exactly one message, without an error. It is accepted if
  -- and only if the job is known and pending, which assigns it to the claimant at that time; all
  -- other entries, the contract and the configuration stay.
  pub handle_claim_lem :
      (s : AppState R) (now : ℕ) (job_id : JobId) (worker_id : PeerId)
      → ((handle_claim R s now job_id worker_id).0 ≡ ok tt)
        × Answers s
            (handle_claim R s now job_id worker_id).1
            (claim_reply (job_at R job_id s) job_id worker_id)
            (λ j.
              ite
                (JobId-discrete j job_id)
                (claimed_job worker_id now (job_at R job_id s))
                (job_at R j s))
  unfolding handle_claim announce
  handle_claim_lem s now job_id worker_id = (
    ground (
      arith,
      R.gossip.broadcast_ok (claim_rejected job_id "job not found") s.gossip,
      R.gossip.broadcast_ok (claim_accepted job_id worker_id) s.gossip,
      R.gossip.broadcast_ok (claim_rejected job_id "job already assigned") s.gossip,
    ),
    record {
      log = ground (
        arith,
        R.gossip.sent-broadcast (claim_rejected job_id "job not found") s.gossip,
        R.gossip.sent-broadcast (claim_accepted job_id worker_id) s.gossip,
        R.gossip.sent-broadcast (claim_rejected job_id "job already assigned") s.gossip,
      );
      entries = λ j. ground (arith, R.jobs_map.get-modify j job_id (assign worker_id now) s.jobs);
      contract_kept = ground arith;
      config_kept = ground arith;
    },
  )

  pub handle_claim-Evolves :
      (s : AppState R) (now : ℕ) (job_id : JobId) (worker_id : PeerId) (j : JobId)
      → Evolves j (job_at R j s) (job_at R j (handle_claim R s now job_id worker_id).1)
  handle_claim-Evolves s now job_id worker_id j =
      let (answered, a) = handle_claim_lem s now job_id worker_id in
      elim (JobId-discrete j job_id) [
        | no p ↦ same (ground (arith, a.entries j))
        | yes p ↦ claimed-Evolves worker_id now (job_at R j s) (ground (arith, a.entries j))
      ]

  -- A claim that is accepted uses up the job's being claimable.
  pub accepts-handle_claim :
      (s : AppState R) (now : ℕ) (job_id : JobId) (worker_id : PeerId) (j : JobId)
      → accepts j (sent_by (handle_claim R s now job_id worker_id).1)
          + claimable (job_at R j (handle_claim R s now job_id worker_id).1)
        ≤ accepts j (sent_by s) + claimable (job_at R j s)
  unfolding accepts claimable assign
  accepts-handle_claim s now job_id worker_id j =
      let (answered, a) = handle_claim_lem s now job_id worker_id in
      ground (arith, a.log, a.entries j)
