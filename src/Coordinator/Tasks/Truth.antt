-- ===== src/Coordinator/Tasks/Truth.antt =====
-- The job table against the chain while the tasks of the coordinator take turns in any order.
use mathlib.Core.List.{Memᴰ}
use proof_job_zk.Base.{ℕ, ◌≡◌, refl, true, List, [], ◌∷◌, ok, arith, All, inl, inr, Bool-cases}
use proof_job_zk.Core.Ids.{JobId, TxHash}
use proof_job_zk.Core.Job.{JobStatus, Address, is_settled}
use proof_job_zk.Core.Message.{GossipMessage, claim_job, job_completed}
use proof_job_zk.Contract.{ContractClient, is_completed}
use proof_job_zk.Deps.Encoding.{Encoding}
use proof_job_zk.Deps.Provider.{CompletedEvent}
use proof_job_zk.Coordinator.Api.{new_job}
use proof_job_zk.Coordinator.Handler
use proof_job_zk.Coordinator.Handler.{assign}
use proof_job_zk.Coordinator.State.{Runtime, World}
use proof_job_zk.Coordinator.System.{Process}
use proof_job_zk.Coordinator.Tasks.{Turn, arrives, message, request, run}
use proof_job_zk.Coordinator.Tasks.Entries.{Property, Rules, FitsTurn, FitsMessage}
use proof_job_zk.Coordinator.Truth.{AllSound, confirmed}
use proof_job_zk.Coordinator.Tasks.Entries.Turns.{run_tasks-Holds}
use proof_job_zk.Indexer

module _ (Settled : JobId → Type 0) where
  abbrev sound_entries : Property
  sound_entries = record {
    Entry = λ id job. (tx : TxHash) → job.job_status ≡ JobStatus.completed tx → Settled id;
    Claims = λ now worker_id. Unit;
    Hears = λ tx. Unit;
    Logs = λ event. Settled event.job_id;
    Asks = λ req nonce now. Unit;
  }

  All-of :
      (logs : List CompletedEvent)
      → ((e : CompletedEvent) → Memᴰ e logs → Settled e.job_id)
      → All (λ (e : CompletedEvent). Settled e.job_id) logs
  All-of [] each = tt
  All-of (e ∷ logs) each = (each e (Memᴰ.head refl), All-of logs (λ e' m. each e' (Memᴰ.tail m)))

  module _ (E : Encoding) (R : Runtime) where
    message-Fits : (now : ℕ) (m : GossipMessage) → FitsMessage E R sound_entries now m
    message-Fits now (claim_job job_id worker_id) = tt
    message-Fits now (job_completed job_id tx) = tt
    message-Fits now _ = tt

    turns-Fits : (turns : List (Turn E R)) → All (FitsTurn E R sound_entries) turns
    unfolding FitsTurn
    turns-Fits [] = tt
    turns-Fits (arrives (message now envelope) ∷ turns) =
        (message-Fits now envelope.payload, turns-Fits turns)
    turns-Fits (arrives (request req nonce now) ∷ turns) = (tt, turns-Fits turns)
    turns-Fits (_ ∷ turns) = (tt, turns-Fits turns)

    -- Where `completed` is answered truthfully and no log reports a completion that is not:
    -- whatever turns the tasks of the coordinator take, in any order, requests and forged gossip
    -- included, every job that the table holds as completed is settled on chain, if that was so at
    -- the start, when no task waits.
    pub run_tasks-AllSound :
        ((c : ContractClient R.provider) (id : JobId) (w : World R)
          → (is_completed R.provider c id w).0 ≡ ok true
          → Settled id)
        → ((a : Address) (from_block to_block : ℕ) (w : World R) (logs : List CompletedEvent)
            → (R.provider.query_completed a from_block to_block w).0 ≡ ok logs
            → (e : CompletedEvent) → Memᴰ e logs
            → Settled e.job_id)
        → (turns : List (Turn E R)) (p : Process E R) → AllSound Settled R p.state.jobs
        → AllSound Settled R (run E R turns (record { process = p; tasks = [] })).process.state.jobs
    unfolding assign Indexer.mark_expired Indexer.mark_completed Handler.mark_completed new_job
        Indexer.discovered
    run_tasks-AllSound true_calls true_logs turns p sound id job tx found done =
        (run_tasks-Holds E R sound_entries rules turns (record { process = p; tasks = [] })
            (turns-Fits turns) ((λ i j there tx' over. sound i j tx' there over), tt)).0
          id job found tx done
      where
        rules : Rules E R sound_entries
        rules = record {
          created = λ req nonce payload owner now s fits good named tx' over. absurd (cc);
          claimed = λ i worker_id now old fits fresh all tx' over. absurd (cc);
          confirmed = λ i tx' s w old hears yes_ all tx'' over.
              confirmed Settled R true_calls true_logs s i w yes_;
          discovered = λ event logged tx' over. logged;
          indexed = λ event old logged all tx' over. logged;
          expired = λ i old all tx' over. elim (Bool-cases (is_settled old.job_status)) [
            | inl ended ↦ all tx' (ground arith)
            | inr open_ ↦ absurd (ground arith)
          ];
          queried = λ a from_block to_block w logs answer.
              All-of logs (true_logs a from_block to_block w logs answer);
        }
