-- ===== src/Network.antt =====
-- The coordinator and its workers together: crates/coordinator/src/main.rs with any number of
-- crates/worker/src/main.rs. A worker may hear any message at any time, any number of times or
-- never; only a `ClaimAccepted` has to come from the coordinator, which the workers do not test.
pub mod Sent
pub mod Sole
pub mod Progress
use mathlib.Core.List.{Mem}
use proof_job_zk.Base.{ℕ, List, [], ◌∷◌, ◌++◌, ◌≡◌, ite, ℕ_discrete}
use proof_job_zk.Core.Message.{GossipMessage, claim_accepted}
use proof_job_zk.Core.Envelope.{GossipEnvelope}
use proof_job_zk.Deps.Encoding.{Encoding}
use proof_job_zk.Coordinator.Claims.{sent_by}
use proof_job_zk.Coordinator.State.{Runtime as CoordinatorRuntime}
use proof_job_zk.Coordinator.Tasks.{Tasks, Turn, step}
use proof_job_zk.Prover.{Joined}
use proof_job_zk.Worker.Handler.{handle_message}
use proof_job_zk.Worker.State.{Runtime as WorkerRuntime}
use proof_job_zk.Worker.Task.{System, Task, spawn, waiting, step_task}

-- What may be heard, where these messages were sent by the coordinator.
abbrev pub IsHonest : List GossipMessage → GossipMessage → Type 0
IsHonest sent (claim_accepted job_id worker_id) = Mem (claim_accepted job_id worker_id) sent
IsHonest sent _ = Unit

module _ (E : Encoding) (R : CoordinatorRuntime) (W : WorkerRuntime) where
  pub record Network : Type 0 where
    pub coordinator : Tasks E R
    pub workers : ℕ → System W

  abbrev pub sent : Network → List GossipMessage
  sent n = sent_by R n.coordinator.process.state

  abbrev pub with_worker : ℕ → System W → Network → Network
  with_worker i u n = record n { workers = λ j. ite (ℕ_discrete j i) u (n.workers j) }

  -- One worker's turn.
  pub data WorkerTurn (n : Network) : Network → Type 0 where
    hears :
        (i now : ℕ) (envelope : GossipEnvelope) {n' : Network}
        → IsHonest (sent n) envelope.payload
        → n'
          ≡ with_worker i
              (let h = handle_message W (n.workers i).worker now envelope in
                record { worker = h.self; tasks = (n.workers i).tasks ++ spawn W h.spawned })
              n
        → WorkerTurn n n'
    goes_on :
        (i : ℕ) (before : List Task) (t : Task) (after : List Task) (ending : Joined W.zkvm)
        (w : W.provider.World) {n' : Network}
        → (n.workers i).tasks ≡ before ++ t ∷ after
        → n'
          ≡ with_worker i
              (let r = step_task W ending t (n.workers i).worker w in
                record { worker = r.self; tasks = before ++ (waiting W r.task ++ after) })
              n
        → WorkerTurn n n'

  -- A run, with the turns of the coordinator's tasks in their order.
  pub data Reach : Network → List (Turn E R) → Network → Type 0 where
    here : {n : Network} → Reach n [] n
    coordinator_turn :
        {n u : Network} {events : List (Turn E R)} (event : Turn E R)
        → Reach (record n { coordinator = step E R n.coordinator event }) events u
        → Reach n (event ∷ events) u
    worker_turn :
        {n n' u : Network} {events : List (Turn E R)}
        → WorkerTurn n n'
        → Reach n' events u
        → Reach n events u
