-- ===== src/Coordinator/Sound.antt =====
-- One entry of the job table against the chain: what the writes of crates/coordinator and
-- crates/indexer leave true of it.
use mathlib.Core.Option
use proof_job_zk.Base.{ℕ, ◌≡◌, refl, sym, ◌∙◌, Option, none, some, arith, inl, inr, Bool-cases}
use proof_job_zk.Core.Ids.{JobId, PeerId, TxHash}
use proof_job_zk.Core.Job.{Job, JobStatus, is_pending, is_settled}
use proof_job_zk.Coordinator.Handler.{assign}
use proof_job_zk.Coordinator.Claims.{claimed_job}
use proof_job_zk.Indexer
use proof_job_zk.Indexer.{Indexer, Polled, apply_completed, apply_expired, poll_events}

module _ (Settled : JobId → Type 0) where
  -- If the entry is completed then the job is settled on chain.
  abbrev pub IsSound : JobId → Option Job → Type 0
  IsSound id entry =
      (job : Job) (tx : TxHash)
      → entry ≡ some job
      → job.job_status ≡ JobStatus.completed tx
      → Settled id

  pub claimed-IsSound :
      (id : JobId) (worker_id : PeerId) (now : ℕ) (entry : Option Job)
      → IsSound id entry
      → IsSound id (claimed_job worker_id now entry)
  unfolding assign
  claimed-IsSound id worker_id now none sound job tx found done = absurd (cc)
  claimed-IsSound id worker_id now (some old) sound job tx found done =
      elim (Bool-cases (is_pending old.job_status)) [
        | inl fresh ↦ absurd (ground arith)
        | inr taken ↦ sound old tx refl (ground arith)
      ]

  pub expired-IsSound :
      (id : JobId) (entry : Option Job)
      → IsSound id entry
      → IsSound id (Option.map Indexer.mark_expired entry)
  unfolding Indexer.mark_expired
  expired-IsSound id none sound job tx found done = absurd (cc)
  expired-IsSound id (some old) sound job tx found done =
      elim (Bool-cases (is_settled old.job_status)) [
        | inl over ↦ sound old tx refl (ground arith)
        | inr open_ ↦ absurd (ground arith)
      ]

  pub along : (id : JobId) {a b : Option Job} → b ≡ a → IsSound id a → IsSound id b
  along id e sound job tx found done = sound job tx (sym e ∙ found) done
