-- ===== src/Tests/Network.antt =====
-- The coordinator and its workers together, and a chain that tells the truth about one job.
use mathlib.Core.List.{Memᴰ, mem-cons_self}
use proof_job_zk.Base.{
  ℕ, ◌≡◌, refl, sym, ap, subst, true, false, String, List, [], ◌∷◌, none, some, ok, ite, arith,
  ◌==◌, if◌then◌else◌,
}
use proof_job_zk.Core.Ids.{JobId, JobId-discrete, PeerId-discrete}
use proof_job_zk.Core.Job.{Address}
use proof_job_zk.Contract.{ContractClient, is_completed}
use proof_job_zk.Coordinator.Claims.{accepts}
use proof_job_zk.Coordinator.Handler.{assign}
use proof_job_zk.Coordinator.Lifecycle.{claimable}
use proof_job_zk.Coordinator.State.{Runtime, announce}
use proof_job_zk.Coordinator.System.{Process}
use proof_job_zk.Coordinator.Tasks.{
  run, step, Turn, arrives, goes_on, message, poll_tick, advance, claim_step,
}
use proof_job_zk.Coordinator.Tasks.Arbitration.{promised}
use proof_job_zk.Coordinator.Tasks.Lifecycle.{asked, requests}
use proof_job_zk.Tests.Tasks.{at_work, claims}
use proof_job_zk.Coordinator.Truth.{AllSound}
use proof_job_zk.Coordinator.Tasks.Truth.{run_tasks-AllSound}
use proof_job_zk.Deps.Provider.{Provider, CompletedEvent}
use proof_job_zk.Worker.Handler.{handle_message, handle_claim_accepted}
use proof_job_zk.Worker.Task.{Task}
use proof_job_zk.Network.{Network, Reach, here, coordinator_turn, worker_turn, hears, with_worker}
use proof_job_zk.Network.Sole.{sole_prover}
use proof_job_zk.Tests.Runtime.{
  log, hash, runtime, state_with, fresh_job, job_one, worker_a, worker_b, encoding, quiet_chain,
  completion, claim_by, zero_cursor,
}
use proof_job_zk.Tests.Table.{table}
use proof_job_zk.Tests.Worker.{machine, waits, acceptance, claimant}

abbrev truthful_chain : Provider
truthful_chain = record {
  World = Unit {0};
  Url = String;
  Signer = String;
  PendingTx = Unit {0};
  parse_signer = λ s. ok s;
  parse_url = λ s. ok s;
  send = λ url signer a call value w. (ok tt, w);
  get_receipt = λ p w. (ok hash, w);
  call_completed = λ url signer a id w. (ok (ite (JobId-discrete id job_one) true false), w);
  get_block_number = λ w. (ok 8, w);
  query_completed = λ a from_block to_block w. (ok (completion ∷ []), w);
  query_expired = λ a from_block to_block w. (ok [], w);
}

abbrev on_truth : Runtime
on_truth = record { jobs_map = table; gossip = log; provider = truthful_chain }

abbrev IsOne : JobId → Type 0
IsOne id = id ≡ job_one

true_calls :
    (c : ContractClient truthful_chain) (id : JobId) (w : Unit {0})
    → (is_completed truthful_chain c id w).0 ≡ ok true
    → IsOne id
unfolding is_completed
true_calls c id w h = elim (JobId-discrete id job_one) [ yes p ↦ p | no p ↦ absurd (ground arith) ]

true_logs :
    (a : Address) (from_block to_block : ℕ) (w : Unit {0}) (logs : List CompletedEvent)
    → (truthful_chain.query_completed a from_block to_block w).0 ≡ ok logs
    → (e : CompletedEvent) → Memᴰ e logs
    → IsOne e.job_id
true_logs a from_block to_block w logs h e m =
    let same : completion ∷ [] ≡ logs = cc in only e (subst (λ l. Memᴰ e l) (sym same) m)
  where
    only : (e : CompletedEvent) → Memᴰ e (completion ∷ []) → IsOne e.job_id
    only e (Memᴰ.head p) = ap (λ (x : CompletedEvent). x.job_id) p
    only e (Memᴰ.tail m) = elim m [ ]

abbrev watched : Process encoding on_truth
watched = record {
  state = record {
    jobs = (fresh_job.id, fresh_job) ∷ [];
    gossip = [];
    contract = none;
    config = (state_with fresh_job).config;
  };
  indexer = some zero_cursor;
}

-- A claim and a poll that take turns, up to the completion that the poll reads.
abbrev seen : List (Turn encoding on_truth)
seen =
    arrives (message 150 (claim_by worker_a))
    ∷ arrives poll_tick
    ∷ goes_on 0 tt
    ∷ goes_on 1 tt
    ∷ goes_on 0 tt
    ∷ goes_on 0 tt
    ∷ []

run_tasks-AllSound_example :
    AllSound IsOne on_truth
      (run encoding on_truth seen (record { process = watched; tasks = [] })).process.state.jobs
run_tasks-AllSound_example =
    run_tasks-AllSound IsOne encoding on_truth true_calls true_logs seen watched
      λ id job tx found done. absurd (ground arith)

abbrev together : Network encoding runtime machine
together = record {
  coordinator = at_work;
  workers = λ i.
      if i == 0 then waits else record waits { worker = record claimant { peer_id = worker_b } };
}

abbrev accepted_network : Network encoding runtime machine
accepted_network = record together { coordinator = run encoding runtime claims at_work }

abbrev proves_ten : Task
proves_ten =
    Task.proving (record { job_id = job_one; job = fresh_job; payload = fresh_job.payload })

abbrev proving_network : Network encoding runtime machine
proving_network =
    with_worker encoding runtime machine 0
      (let h = handle_message machine waits.worker 151 acceptance in
        record { worker = h.self; tasks = proves_ten ∷ [] })
      accepted_network

proving_reached : Reach encoding runtime machine together claims proving_network
unfolding run step advance claim_step announce assign JobId-discrete PeerId-discrete handle_message
    handle_claim_accepted
proving_reached = coordinator_turn (arrives (message 150 (claim_by worker_a))) (
    coordinator_turn (goes_on 0 quiet_chain) (
      coordinator_turn (goes_on 0 quiet_chain)
        (worker_turn {n' = proving_network} (hears 0 151 acceptance mem-cons_self refl) here)))

sole_prover_example :
    (proving_network.workers 0).worker.peer_id ≡ (proving_network.workers 0).worker.peer_id
unfolding accepts claimable requests promised asked JobId-discrete
sole_prover_example =
    sole_prover encoding runtime machine job_one 0 0 [] [] [] [] proves_ten proves_ten
      proving_reached (λ k. ground arith) (omega arith) refl refl refl refl
