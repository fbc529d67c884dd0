-- ===== src/Coordinator/Lifecycle.antt =====
-- How the status of a job moves: the abstract machine behind gossip_handler.rs of
-- crates/coordinator and the event handlers of crates/indexer, which write to one table.
use mathlib.Core.Option
use proof_job_zk.Base.{
  ◌≤◌, if◌then◌else◌, ℕ, ◌≡◌, refl, true, false, Option, none, some, arith, inl, inr, Bool-cases,
  Option-cases, ◌∙◌, ap, sym,
}
use proof_job_zk.Core.Ids.{JobId, JobId-discrete, PeerId, TxHash}
use proof_job_zk.Core.Job.{Job, JobStatus, is_pending, is_completed_status, is_settled}
use proof_job_zk.Deps.DashMap.{DashMap}
use proof_job_zk.Coordinator.Handler.{assign, mark_completed}
use proof_job_zk.Indexer

-- One write of a status. The premises are the guards.
pub data Advance (s t : JobStatus) : Type 0 where
  stay : t ≡ s → Advance s t
  claim :
      (worker : PeerId) (at : ℕ)
      → s ≡ JobStatus.pending
      → t ≡ JobStatus.assigned worker at
      → Advance s t
  complete :
      (tx : TxHash) → is_completed_status s ≡ false → t ≡ JobStatus.completed tx → Advance s t
  expire : is_settled s ≡ false → t ≡ JobStatus.expired → Advance s t

-- How the entry of one job changes. Nothing is ever removed, and no field but the status changes.
pub data Evolves (id : JobId) (a b : Option Job) : Type 0 where
  same : b ≡ a → Evolves id a b
  moved :
      (job : Job) (status : JobStatus)
      → a ≡ some job
      → Advance job.job_status status
      → b ≡ some (record job { job_status = status })
      → Evolves id a b
  discovered : (tx : TxHash) → a ≡ none → b ≡ some (Indexer.discovered id tx) → Evolves id a b

-- The closures of the handlers are such writes.
pub assign-Advance :
    (worker : PeerId) (now : ℕ) (job : Job)
    → is_pending job.job_status ≡ true
    → Advance job.job_status (assign worker now job).job_status
unfolding assign
assign-Advance worker now job h = claim worker now (ground arith) refl

pub mark_completed-Advance :
    (tx : TxHash) (job : Job) → Advance job.job_status (mark_completed tx job).job_status
unfolding mark_completed
mark_completed-Advance tx job = elim (Bool-cases (is_completed_status job.job_status)) [
  | inl done ↦ stay (ground arith)
  | inr fresh ↦ complete tx fresh (ground arith)
]

pub index_completed-Advance :
    (tx : TxHash) (job : Job) → Advance job.job_status (Indexer.mark_completed tx job).job_status
unfolding Indexer.mark_completed
index_completed-Advance tx job = elim (Bool-cases (is_completed_status job.job_status)) [
  | inl done ↦ stay (ground arith)
  | inr fresh ↦ complete tx fresh (ground arith)
]

pub mark_expired-Advance :
    (job : Job) → Advance job.job_status (Indexer.mark_expired job).job_status
unfolding Indexer.mark_expired
mark_expired-Advance job = elim (Bool-cases (is_settled job.job_status)) [
  | inl done ↦ stay (ground arith)
  | inr fresh ↦ expire fresh (ground arith)
]

-- A closure that writes only the status.
pub record WritesStatus (f : Job → Job) (job : Job) : Type 0 where
  pub advance : Advance job.job_status (f job).job_status
  pub rest_kept : f job ≡ record job { job_status = (f job).job_status }

pub assign-WritesStatus :
    (worker : PeerId) (now : ℕ) (job : Job)
    → is_pending job.job_status ≡ true
    → WritesStatus (assign worker now) job
unfolding assign
assign-WritesStatus worker now job h = record {
  advance = assign-Advance worker now job h;
  rest_kept = refl;
}

pub mark_completed-WritesStatus : (tx : TxHash) (job : Job) → WritesStatus (mark_completed tx) job
unfolding mark_completed
mark_completed-WritesStatus tx job = record {
  advance = mark_completed-Advance tx job;
  rest_kept = ground arith;
}

pub index_completed-WritesStatus :
    (tx : TxHash) (job : Job) → WritesStatus (Indexer.mark_completed tx) job
unfolding Indexer.mark_completed
index_completed-WritesStatus tx job = record {
  advance = index_completed-Advance tx job;
  rest_kept = ground arith;
}

pub mark_expired-WritesStatus : (job : Job) → WritesStatus Indexer.mark_expired job
unfolding Indexer.mark_expired
mark_expired-WritesStatus job = record {
  advance = mark_expired-Advance job;
  rest_kept = ground arith;
}

pub written-Evolves :
    {id : JobId} (f : Job → Job) (before : Option Job) {after : Option Job}
    → ((job : Job) → before ≡ some job → WritesStatus f job)
    → after ≡ Option.map f before
    → Evolves id before after
written-Evolves f none writes e = same e
written-Evolves f (some job) writes e =
    let w : WritesStatus f job = writes job refl in
    moved job (f job).job_status refl w.advance (ground (arith, w.rest_kept))

module _ (D : DashMap JobId Job JobId-discrete) where
  open D use {Map, get, modify, upsert, get-modify, get-upsert}

  -- Such a closure under `modify` evolves every entry, each within its own rules.
  pub modify-Evolves :
      (f : Job → Job) (k : JobId) (m : Map)
      → ((job : Job) → get k m ≡ some job → WritesStatus f job)
      → (j : JobId) → Evolves j (get j m) (get j (modify k f m))
  modify-Evolves f k m writes j = elim (JobId-discrete j k) [
    | no p ↦ same (ground (arith, get-modify j k f m))
    | yes p ↦
        written-Evolves f (get j m) (λ job found. writes job (ap (λ x. get x m) (sym p) ∙ found))
          (ground (arith, get-modify j k f m))
  ]

  pub upsert-Evolves :
      (tx : TxHash) (f : Job → Job) (k : JobId) (m : Map)
      → ((job : Job) → WritesStatus f job)
      → (j : JobId) → Evolves j (get j m) (get j (upsert k f (Indexer.discovered k tx) m))
  upsert-Evolves tx f k m writes j = elim (JobId-discrete j k) [
    | no p ↦ same (ground (arith, get-upsert j k f (Indexer.discovered k tx) m))
    | yes p ↦ elim (Option-cases (get j m)) [
      | inl missing ↦
          discovered tx missing (ground (arith, get-upsert j k f (Indexer.discovered k tx) m))
      | inr (job, found) ↦
          let w : WritesStatus f job = writes job in
          moved job (f job).job_status found w.advance
            (ground (arith, get-upsert j k f (Indexer.discovered k tx) m, w.rest_kept))
    ]
  ]

-- Any number of such changes.
pub data History (id : JobId) : Option Job → Option Job → Type 0 where
  here : {a : Option Job} → History id a a
  next : {a b c : Option Job} → History id a b → Evolves id b c → History id a c

pub History-join :
    {id : JobId} {a b c : Option Job} → History id a b → History id b c → History id a c
History-join h here = h
History-join h (next k e) = next (History-join h k) e

-- 1 while the job can still be claimed.
unfoldable pub claimable : Option Job → ℕ
claimable none = 0
claimable (some job) = if is_pending job.job_status then 1 else 0

pub Evolves-claimable : {id : JobId} {a b : Option Job} → Evolves id a b → claimable b ≤ claimable a
unfolding claimable Indexer.discovered
Evolves-claimable (same e) = ground arith
Evolves-claimable (moved job status found (stay e) e') = ground arith
Evolves-claimable (moved job status found (claim w n g e) e') = ground arith
Evolves-claimable (moved job status found (complete tx g e) e') = ground arith
Evolves-claimable (moved job status found (expire g e) e') = ground arith
Evolves-claimable (discovered tx missing e) = ground arith

pub History-claimable : {id : JobId} {a b : Option Job} → History id a b → claimable b ≤ claimable a
History-claimable here = omega arith
History-claimable (next h e) = omega (arith, History-claimable h, Evolves-claimable e)

-- A job stays known, and of its fields only the status changes.
pub Evolves-known :
    {id : JobId} {a b : Option Job} (job : Job)
    → Evolves id a b
    → a ≡ some job
    → (status : JobStatus) × (b ≡ some (record job { job_status = status }))
Evolves-known job (same e) k = (job.job_status, ground arith)
Evolves-known job (moved job' status found m e) k = (status, ground arith)
Evolves-known job (discovered tx missing e) k = absurd (ground arith)

-- A completed job keeps its entry, the hash of its transaction included.
pub Evolves-completed :
    {id : JobId} {a b : Option Job} (job : Job) (tx : TxHash)
    → Evolves id a b
    → a ≡ some job
    → job.job_status ≡ JobStatus.completed tx
    → b ≡ some job
Evolves-completed job tx (same e) k done = ground arith
Evolves-completed job tx (moved job' status found (stay e) e') k done = ground arith
Evolves-completed job tx (moved job' status found (claim w n g e) e') k done = absurd (ground arith)
Evolves-completed job tx (moved job' status found (complete tx' g e) e') k done =
    absurd (ground arith)
Evolves-completed job tx (moved job' status found (expire g e) e') k done = absurd (ground arith)
Evolves-completed job tx (discovered tx' missing e) k done = absurd (ground arith)

pub History-completed :
    {id : JobId} {a b : Option Job} (job : Job) (tx : TxHash)
    → History id a b
    → a ≡ some job
    → job.job_status ≡ JobStatus.completed tx
    → b ≡ some job
History-completed job tx here k done = k
History-completed job tx (next h e) k done =
    Evolves-completed job tx e (History-completed job tx h k done) done
