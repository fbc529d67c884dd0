-- ===== src/Network/Sole.antt =====
-- A job has one prover, over whole runs of crates/coordinator with crates/worker.
use mathlib.Core.List.{Mem}
use proof_job_zk.Base.{
  ℕ, ◌+◌, ◌≤◌, ◌≡◌, refl, sym, ap, subst, ◌∙◌, List, [], ◌∷◌, ◌++◌, arith, inl, inr, ite, All,
  All-append, All-split, All-map, ℕ_discrete, Option-cases,
}
use proof_job_zk.Core.Ids.{JobId, PeerId, PeerId-discrete}
use proof_job_zk.Core.Message.{GossipMessage, claim_accepted}
use proof_job_zk.Core.Envelope.{GossipEnvelope}
use proof_job_zk.Prover.{Joined}
use proof_job_zk.Deps.Encoding.{Encoding}
use proof_job_zk.Coordinator.Tasks.Arbitration.{promised, accepts-run_tasks}
use proof_job_zk.Coordinator.Tasks.Lifecycle.{asked, requests}
use proof_job_zk.Coordinator.Claims.{accepts, sent_by}
use proof_job_zk.Coordinator.Lifecycle.{claimable}
use proof_job_zk.Coordinator.State.{Runtime as CoordinatorRuntime, job_at}
use proof_job_zk.Coordinator.Tasks.{Tasks, Turn, step, run}
use proof_job_zk.Worker.Handler.{handle_message, handle_payload}
use proof_job_zk.Worker.Origin.{
  task_job, handle_payload-spawned, handle_payload-peer_id, step_task-job,
}
use proof_job_zk.Worker.State.{Runtime as WorkerRuntime}
use proof_job_zk.Worker.Task.{System, Task, spawn, waiting, step_task}
use proof_job_zk.Network.{
  IsHonest, Network, sent, WorkerTurn, hears, goes_on, Reach, here, coordinator_turn, worker_turn,
}
use proof_job_zk.Network.Sent.{accepts-two, step-sent}

module _ (E : Encoding) (R : CoordinatorRuntime) (W : WorkerRuntime) where
  -- The job of the task was accepted for this worker.
  abbrev Fits : List GossipMessage → PeerId → Task → Type 0
  Fits l peer_id t = Mem (claim_accepted (task_job t).id peer_id) l

  -- So it is for every task of the worker.
  abbrev Held : List GossipMessage → System W → Type 0
  Held l u = All (Fits l u.worker.peer_id) u.tasks

  abbrev AllHeld : Network E R W → Type 0
  AllHeld n = (i : ℕ) → Held (sent E R W n) (n.workers i)

  Held-ite :
      {P : Type 0} (l : List GossipMessage) (d : Dec P) (a b : System W)
      → Held l a
      → Held l b
      → Held l (ite d a b)
  Held-ite l (yes p) a b h k = h
  Held-ite l (no p) a b h k = k

  hears-Held :
      (l : List GossipMessage) (u : System W) (now : ℕ) (envelope : GossipEnvelope)
      → IsHonest l envelope.payload
      → Held l u
      → Held l (
          let h = handle_message W u.worker now envelope in
          record { worker = h.self; tasks = u.tasks ++ spawn W h.spawned })
  unfolding handle_message
  hears-Held l u now envelope honest held =
      let s = handle_payload W u.worker now envelope.payload in
      rw (handle_payload-peer_id W u.worker now envelope.payload) (
        All-append (Fits l u.worker.peer_id) u.tasks (spawn W s.spawned) held
          (elim (Option-cases s.spawned) [
            | inl quiet ↦ subst (λ o. All (Fits l u.worker.peer_id) (spawn W o)) (sym quiet) tt
            | inr (t, spawned) ↦
                subst (λ o. All (Fits l u.worker.peer_id) (spawn W o)) (sym spawned)
                  (
                    subst (IsHonest l)
                        (handle_payload-spawned W u.worker now envelope.payload t spawned) honest,
                    tt,
                  )
          ]))

  goes_on-Held :
      (l : List GossipMessage) (u : System W) (before : List Task) (t : Task) (after : List Task)
      (ending : Joined W.zkvm) (w : W.provider.World)
      → u.tasks ≡ before ++ t ∷ after
      → Held l u
      → Held l (
          let r = step_task W ending t u.worker w in
          record { worker = r.self; tasks = before ++ (waiting W r.task ++ after) })
  goes_on-Held l u before t after ending w at held =
      let r = step_task W ending t u.worker w in
      let (peer, about) = step_task-job W ending t u.worker w in
      let (front, back) =
        All-split (Fits l u.worker.peer_id) before (t ∷ after)
          (subst (All (Fits l u.worker.peer_id)) at held) in
      subst (λ p. All (Fits l p) (before ++ (waiting W r.task ++ after))) (sym peer)
        (All-append (Fits l u.worker.peer_id) before (waiting W r.task ++ after) front (
          All-append (Fits l u.worker.peer_id) (waiting W r.task) after
            (elim (Option-cases r.task) [
              | inl over ↦ subst (λ o. All (Fits l u.worker.peer_id) (waiting W o)) (sym over) tt
              | inr (t', next) ↦
                  subst (λ o. All (Fits l u.worker.peer_id) (waiting W o)) (sym next)
                    (
                      subst (λ job. Mem (claim_accepted job.id u.worker.peer_id) l)
                          (sym (about t' next)) back.0,
                      tt,
                    )
            ])
            back.1))

  WorkerTurn-AllHeld : {n n' : Network E R W} → WorkerTurn E R W n n' → AllHeld n → AllHeld n'
  WorkerTurn-AllHeld {n} (hears i now envelope honest made) held = rw made (λ j.
      Held-ite (sent E R W n) (ℕ_discrete j i) _ (n.workers j)
        (hears-Held (sent E R W n) (n.workers i) now envelope honest (held i)) (held j))
  WorkerTurn-AllHeld {n} (goes_on i before t after ending w at made) held = rw made (λ j.
      Held-ite (sent E R W n) (ℕ_discrete j i) _ (n.workers j)
        (goes_on-Held (sent E R W n) (n.workers i) before t after ending w at (held i)) (held j))

  step-AllHeld :
      (n : Network E R W) (event : Turn E R)
      → AllHeld n
      → AllHeld (record n { coordinator = step E R n.coordinator event })
  step-AllHeld n event held j =
      All-map (Fits (sent E R W n) (n.workers j).worker.peer_id) _ (n.workers j).tasks
        (λ t m. step-sent E R n.coordinator event _ m) (held j)

  Reach-AllHeld :
      {n u : Network E R W} {events : List (Turn E R)}
      → Reach E R W n events u
      → AllHeld n
      → AllHeld u
  Reach-AllHeld here held = held
  Reach-AllHeld {n} (coordinator_turn event r) held = Reach-AllHeld r (step-AllHeld n event held)
  Reach-AllHeld (worker_turn turn r) held = Reach-AllHeld r (WorkerTurn-AllHeld turn held)

  Reach-run :
      {n u : Network E R W} {events : List (Turn E R)}
      → Reach E R W n events u
      → u.coordinator ≡ run E R events n.coordinator
  unfolding run
  Reach-run here = refl
  Reach-run (coordinator_turn event r) = Reach-run r
  Reach-run {events} (worker_turn (hears i now envelope honest made) r) =
      Reach-run r ∙ ap (λ (n : Network E R W). run E R events n.coordinator) made
  Reach-run {events} (worker_turn (goes_on i before t after ending w at made) r) =
      Reach-run r ∙ ap (λ (n : Network E R W). run E R events n.coordinator) made

  accepted_for :
      (l : List GossipMessage) (u : System W) (id : JobId) (before : List Task) (t : Task)
      (after : List Task)
      → u.tasks ≡ before ++ t ∷ after
      → (task_job t).id ≡ id
      → Held l u
      → Mem (claim_accepted id u.worker.peer_id) l
  accepted_for l u id before t after at own held =
      let (_, there) =
        All-split (Fits l u.worker.peer_id) before (t ∷ after)
          (subst (All (Fits l u.worker.peer_id)) at held) in
      subst (λ k. Mem (claim_accepted k u.worker.peer_id) l) own there.0

  -- Start with no task at any worker, and with at most one among: acceptances of the job that were
  -- sent or are about to be, its being claimable or about to be stored, and coming requests under
  -- its identifier. However the turns of the coordinator's tasks and of the workers' are ordered,
  -- from one await to the next, and whatever messages are lost, repeated or forged,
  -- acceptances excepted: two workers that both have a task for the job have one peer identifier.
  pub sole_prover :
      {n u : Network E R W} {events : List (Turn E R)} (id : JobId) (i j : ℕ)
      (before before' after after' : List Task) (t t' : Task)
      → Reach E R W n events u
      → ((k : ℕ) → (n.workers k).tasks ≡ [])
      → accepts id (sent E R W n)
          + claimable (job_at R id n.coordinator.process.state)
          + promised id n.coordinator.tasks
          + asked id n.coordinator.tasks
          + requests E R id events
        ≤ 1
      → (u.workers i).tasks ≡ before ++ t ∷ after
      → (u.workers j).tasks ≡ before' ++ t' ∷ after'
      → (task_job t).id ≡ id
      → (task_job t').id ≡ id
      → (u.workers i).worker.peer_id ≡ (u.workers j).worker.peer_id
  sole_prover {n} {u} {events} id i j before before' after after' t t' r idle once at at' own own' =
      let held = Reach-AllHeld r (λ k. rw (idle k) tt) in
      let mine = accepted_for (sent E R W u) (u.workers i) id before t after at own (held i) in
      let yours =
        accepted_for (sent E R W u) (u.workers j) id before' t' after' at' own' (held j) in
      elim (PeerId-discrete (u.workers i).worker.peer_id (u.workers j).worker.peer_id) [
        | yes same ↦ same
        | no differ ↦ absurd (
            omega (
              arith,
              accepts-two id _ _ (sent E R W u) differ mine yours,
              accepts-run_tasks E R events n.coordinator id,
              ap (λ (c : Tasks E R). accepts id (sent_by R c.process.state)) (Reach-run r),
              once,
            ))
      ]
