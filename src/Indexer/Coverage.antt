-- ===== src/Indexer/Coverage.antt =====
-- Over a whole run of the indexer (crates/indexer/src/lib.rs) no block is skipped.
use mathlib.Core.List.{Memᴰ}
use proof_job_zk.Base.{ℕ, ◌≤◌, ◌<◌, ◌≡◌, List, [], ◌∷◌, ok}
use proof_job_zk.Core.Ids.{JobId}
use proof_job_zk.Core.Job.{Address}
use proof_job_zk.Deps.Provider.{CompletedEvent}
use proof_job_zk.Coordinator.State.{Runtime, World}
use proof_job_zk.Coordinator.Lifecycle.{History, here, History-join}
use proof_job_zk.Indexer.{Indexer, poll_events, run}
use proof_job_zk.Indexer.Events.{entry, IsCompleted}
use proof_job_zk.Indexer.Polling.{poll_events-History}

module _ (R : Runtime) where
  pub run-History :
      (i : Indexer R) (ticks : List (World R)) (j : JobId)
      → History j (entry R j i.jobs) (entry R j (run R i ticks).jobs)
  unfolding run
  run-History i [] j = here
  run-History i (w ∷ ticks) j =
      History-join (poll_events-History R i w j) (run-History (poll_events R i w).self ticks j)

  -- `On b e` says that block `b` of the chain holds the event `e`.
  module _ (On : ℕ → CompletedEvent → Type 0)
      (honest : (a : Address) (from_block to_block : ℕ) (w : World R) (logs : List CompletedEvent)
        → (R.provider.query_completed a from_block to_block w).0 ≡ ok logs
        → (b : ℕ) (e : CompletedEvent) → On b e
        → from_block ≤ b
        → b ≤ to_block
        → Memᴰ e logs) where
    abbrev Seen : ℕ → Indexer R → Type 0
    Seen start i =
        (b : ℕ) (e : CompletedEvent)
        → On b e
        → start < b
        → b ≤ i.last_block
        → IsCompleted R i.jobs e.job_id
