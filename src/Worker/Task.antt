-- ===== src/Worker/Task.antt =====
-- The spawned task: `run_proving` of crates/worker/src/handler.rs, and `submit_proof_onchain` and
-- `transition_to_idle` of crates/worker/src/lib.rs. Between two awaits the task is one step; other
-- messages are handled in between. `Task` says where the task waits, with what it holds.
use proof_job_zk.Base.{
  ℕ, List, [], ◌∷◌, ◌++◌, Option, none, some, Result, ok, err, ◌≡◌, ◌||◌, if◌then◌else◌,
}
use proof_job_zk.Core.Ids.{JobId, TxHash}
use proof_job_zk.Core.Job.{Job}
use proof_job_zk.Core.Message.{job_completed}
use proof_job_zk.Core.Envelope.{GossipEnvelope}
use proof_job_zk.Contract.{ContractError, submit_proof}
use proof_job_zk.Prover.{ProofBundle, ProverError, Joined, prove}
use proof_job_zk.Worker.State.{
  Runtime, Worker, World, WorkerStatus, is_proving, is_submitting, announce,
}
use proof_job_zk.Worker.Proof.{ProofExtractionError, ProofComponents, extract_proof_components}
use proof_job_zk.Worker.Handler.{Spawned, handle_message}

pub data Task : Type 0 where
  -- in `prover::prove(job_id, payload).await`
  proving : Spawned → Task
  -- before the call of `submit_proof_onchain`
  submitting : Job → ProofBundle → Task
  -- after `submit_proof(…).await`, before the broadcast
  announcing : Job → TxHash → Task
  -- before the call of `transition_to_idle`
  finishing : Job → Task

module _ (R : Runtime) where
  unfoldable pub transition_to_idle : JobId → Worker R → Worker R
  transition_to_idle expected_job_id s =
      if is_submitting expected_job_id s.status || is_proving expected_job_id s.status
      then record s { status = WorkerStatus.idle }
      else s

  -- A step of the task: the worker, the chain, and where the task waits now, if it goes on.
  abbrev pub Stepped : Type 0
  Stepped = record { self : Worker R; world : World R; task : Option Task }

  -- what follows the prover
  unfoldable pub after_prove :
      Spawned → Result ProverError ProofBundle → Worker R → World R → Stepped
  after_prove t (ok bundle) s w =
      if is_proving t.job_id s.status
      then record {
        self = record s { status = WorkerStatus.submitting t.job };
        world = w;
        task = some (submitting t.job bundle);
      }
      else record { self = s; world = w; task = none }
  after_prove t (err e) s w =
      if is_proving t.job_id s.status
      then record { self = record s { status = WorkerStatus.idle }; world = w; task = none }
      else record { self = s; world = w; task = none }

  -- what follows the submission
  unfoldable pub after_submit : Job → Result ContractError TxHash × World R → Worker R → Stepped
  after_submit job (ok tx_hash, w) s = record {
    self = s;
    world = w;
    task = some (announcing job tx_hash);
  }
  after_submit job (err e, w) s = record { self = s; world = w; task = some (finishing job) }

  unfoldable pub submit_components :
      Job → Result ProofExtractionError ProofComponents → Worker R → World R → Stepped
  unfolding after_submit
  submit_components job (err e) s w = record { self = s; world = w; task = some (finishing job) }
  submit_components job (ok c) s w =
      after_submit job (submit_proof R.provider s.chain job.id c.journal c.seal w) s

  -- `ending` is how the proving thread ends.
  unfoldable pub step_task : Joined R.zkvm → Task → Worker R → World R → Stepped
  unfolding after_prove submit_components transition_to_idle announce
  step_task ending (proving t) s w = after_prove t (prove R.zkvm ending t.job_id t.payload) s w
  step_task ending (submitting job bundle) s w =
      submit_components job (extract_proof_components R.zkvm bundle) s w
  step_task ending (announcing job tx_hash) s w =
      let (r, s') = announce R (job_completed job.id tx_hash) s in
      record { self = s'; world = w; task = some (finishing job) }
  step_task ending (finishing job) s w = record {
    self = transition_to_idle job.id s;
    world = w;
    task = none;
  }

  -- A worker with the tasks that it has spawned and that have not ended.
  pub record System : Type 0 where
    pub worker : Worker R
    pub tasks : List Task

  abbrev pub waiting : Option Task → List Task
  waiting none = []
  waiting (some t) = t ∷ []

  abbrev pub spawn : Option Spawned → List Task
  spawn none = []
  spawn (some t) = proving t ∷ []

  -- The steps of the system: a message from the loop of `Worker::run`, or some task goes on.
  pub data Step : System → System → Type 0 where
    message :
        (s : System) (now : ℕ) (envelope : GossipEnvelope)
        → Step s (
            let h = handle_message R s.worker now envelope in
            record { worker = h.self; tasks = s.tasks ++ spawn h.spawned })
    task :
        (s : System) (before : List Task) (t : Task) (after : List Task) (ending : Joined R.zkvm)
        (w : World R) {u : System}
        → s.tasks ≡ before ++ t ∷ after
        → u ≡ (
            let r = step_task ending t s.worker w in
            record { worker = r.self; tasks = before ++ (waiting r.task ++ after) })
        → Step s u
