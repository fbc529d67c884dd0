-- ===== src/Worker/Finishing.antt =====
-- A task of crates/worker comes to its end, whatever the worker hears meanwhile.
use proof_job_zk.Base.{
  ℕ, suc, ◌≤◌, ◌<◌, ◌≡◌, refl, sym, subst, ◌∙◌, List, [], ◌∷◌, ◌++◌, none, some, Result, ok, err,
  arith, inl, inr,
}
use proof_job_zk.Core.Ids.{TxHash}
use proof_job_zk.Core.Job.{Job}
use proof_job_zk.Core.Envelope.{GossipEnvelope}
use proof_job_zk.Contract.{ContractError, submit_proof}
use proof_job_zk.Prover.{Joined, ProofBundle, ProverError, prove}
use proof_job_zk.Worker.Proof.{ProofExtractionError, ProofComponents, extract_proof_components}
use proof_job_zk.Worker.State.{Runtime, Worker, World}
use proof_job_zk.Worker.Handler.{Spawned, handle_message}
use proof_job_zk.Worker.Invariant.{
  Inv, resting, working, phase, IsOwnTask, IsResting, handle_busy, step_task-phase,
}
use proof_job_zk.Worker.Task.{
  Task, Stepped, System, step_task, after_prove, after_submit, submit_components, waiting, spawn,
}

-- The steps that a task has before it, at most.
abbrev pub rank : Task → ℕ
rank (Task.proving _) = 4
rank (Task.submitting _ _) = 3
rank (Task.announcing _ _) = 2
rank (Task.finishing _) = 1

rank_bounds : (t : Task) → (0 < rank t) × (rank t ≤ 4)
rank_bounds (Task.proving _) = (omega arith, omega arith)
rank_bounds (Task.submitting _ _) = (omega arith, omega arith)
rank_bounds (Task.announcing _ _) = (omega arith, omega arith)
rank_bounds (Task.finishing _) = (omega arith, omega arith)

module _ (R : Runtime) where
  abbrev rest_rank : Stepped R → ℕ
  rest_rank r = elim r.task [ none ↦ 0 | some t ↦ rank t ]

  after_prove-rank :
      (t : Spawned) (r : Result ProverError ProofBundle) (s : Worker R) (w : World R)
      → rest_rank (after_prove R t r s w) < 4
  unfolding after_prove
  after_prove-rank t (ok bundle) s w = ground arith
  after_prove-rank t (err e) s w = ground arith

  after_submit-rank :
      (job : Job) (answer : Result ContractError TxHash × World R) (s : Worker R)
      → rest_rank (after_submit R job answer s) < 3
  unfolding after_submit
  after_submit-rank job (ok tx, w) s = omega arith
  after_submit-rank job (err e, w) s = omega arith

  submit-rank :
      (job : Job) (r : Result ProofExtractionError ProofComponents) (s : Worker R) (w : World R)
      → rest_rank (submit_components R job r s w) < 3
  unfolding submit_components
  submit-rank job (err e) s w = omega arith
  submit-rank job (ok c) s w =
      after_submit-rank job (submit_proof R.provider s.chain job.id c.journal c.seal w) s

  step_task-rank :
      (ending : Joined R.zkvm) (t : Task) (s : Worker R) (w : World R)
      → rest_rank (step_task R ending t s w) < rank t
  unfolding step_task
  step_task-rank ending (Task.proving t) s w =
      after_prove-rank t (prove R.zkvm ending t.job_id t.payload) s w
  step_task-rank ending (Task.submitting job bundle) s w =
      submit-rank job (extract_proof_components R.zkvm bundle) s w
  step_task-rank ending (Task.announcing job tx) s w = omega arith
  step_task-rank ending (Task.finishing job) s w = omega arith

  -- What happens next: a message, or the first task goes on.
  pub data Turn : Type 0 where
    heard : ℕ → GossipEnvelope → Turn
    goes_on : Joined R.zkvm → World R → Turn

  -- The turns of a task among them.
  abbrev pub task_turns : List Turn → ℕ
  task_turns [] = 0
  task_turns (heard now envelope ∷ turns) = task_turns turns
  task_turns (goes_on ending w ∷ turns) = suc (task_turns turns)

  -- Take turns until there is no task.
  unfoldable pub until_free : List Turn → Worker R → List Task → System R
  until_free [] s tasks = record { worker = s; tasks = tasks }
  until_free (turn ∷ turns) s [] = record { worker = s; tasks = [] }
  until_free (heard now envelope ∷ turns) s (t ∷ tasks) =
      let h = handle_message R s now envelope in
      until_free turns h.self ((t ∷ tasks) ++ spawn R h.spawned)
  until_free (goes_on ending w ∷ turns) s (t ∷ tasks) =
      let r = step_task R ending t s w in until_free turns r.self (waiting R r.task ++ tasks)

  abbrev pub IsFree : System R → Type 0
  IsFree u = (u.tasks ≡ []) × IsResting u.worker.status

  at_rest : (turns : List Turn) (s : Worker R) → IsResting s.status → IsFree (until_free turns s [])
  unfolding until_free
  at_rest [] s rest = (refl, rest)
  at_rest (turn ∷ turns) s rest = (refl, rest)

  task-IsFree :
      (turns : List Turn) (t : Task) (s : Worker R)
      → s.status ≡ phase t
      → IsOwnTask t
      → rank t ≤ task_turns turns
      → IsFree (until_free turns s (t ∷ []))
  unfolding until_free handle_message
  task-IsFree [] t s busy own enough = absurd (omega (arith, (rank_bounds t).0))
  task-IsFree (heard now envelope ∷ turns) t s busy own enough =
      let (quiet, kept) = handle_busy R s now envelope.payload t busy in
      rw (quiet, until_free)
        (task-IsFree turns t (handle_message R s now envelope).self (kept ∙ busy) own enough)
  task-IsFree (goes_on ending w ∷ turns) t s busy own enough =
      elim (step_task-phase R ending t s w busy own) [
        | inl (ended, status) ↦
            rw (ended, until_free)
              (at_rest turns (step_task R ending t s w).self (subst IsResting (sym status) tt))
        | inr (t', next, status, own') ↦
            rw (next, until_free)
              (task-IsFree turns t' (step_task R ending t s w).self status own'
                (omega (arith, enough, rw next at (step_task-rank ending t s w))))
      ]

  -- From any state that keeps the invariant, at most four turns of the task, with any messages in
  -- between and however the proof and the submission end, leave the worker without a task, and idle
  -- or claiming.
  pub until_free-IsFree :
      (u : System R) (turns : List Turn)
      → Inv R u
      → 4 ≤ task_turns turns
      → IsFree (until_free turns u.worker u.tasks)
  until_free-IsFree u turns (resting free rest) enough = rw free (at_rest turns u.worker rest)
  until_free-IsFree u turns (working t one busy own) enough =
      rw one (task-IsFree turns t u.worker busy own (omega (arith, (rank_bounds t).1)))
