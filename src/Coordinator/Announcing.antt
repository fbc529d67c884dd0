-- ===== src/Coordinator/Announcing.antt =====
-- What a tick of crates/coordinator/src/rebroadcast.rs announces.
use mathlib.Core.List.{
  Mem, Mem-prop, mem-append_left, mem-append_right, mem-cons, not-mem-nil, mem-cons_self,
  mem-cons_of_mem, append_assoc,
}
use mathlib.Core.Logic.Or
use proof_job_zk.Base.{
  ◌≡◌, refl, sym, ap, ◌∙◌, true, List, [], ◌∷◌, ◌++◌, some, arith, All, All-append, inl, inr,
  Bool-cases,
}
use proof_job_zk.Core.Ids.{JobId}
use proof_job_zk.Core.Job.{Job, JobStatus, is_pending}
use proof_job_zk.Core.Message.{GossipMessage, job_available}
use proof_job_zk.Coordinator.State.{Runtime, AppState, job_at, announce}
use proof_job_zk.Coordinator.Claims.{sent_by}
use proof_job_zk.Coordinator.Rebroadcast.{pending_jobs, announce_all, rebroadcast_pending}

is_pending-eq-true : (status : JobStatus) → is_pending status ≡ true → status ≡ JobStatus.pending
is_pending-eq-true JobStatus.pending fresh = refl
is_pending-eq-true _ fresh = absurd (cc)

mem-pending_jobs :
    (entries : List (JobId × Job)) (id : JobId) (job : Job)
    → Mem (id, job) entries
    → job.job_status ≡ JobStatus.pending
    → Mem job (pending_jobs entries)
unfolding pending_jobs
mem-pending_jobs [] id job m fresh = absurd (not-mem-nil m)
mem-pending_jobs ((k, other) ∷ entries) id job m fresh =
    elim (Bool-cases (is_pending other.job_status)) [
      | inl p ↦
          rw (p, pending_jobs)
            (Or.elim Mem-prop (mem-cons.0 m)
              (λ same. let e : job ≡ other = cc in rw e mem-cons_self)
              (λ there. mem-cons_of_mem other (mem-pending_jobs entries id job there fresh)))
      | inr p ↦
          rw (p, pending_jobs)
            (Or.elim Mem-prop (mem-cons.0 m)
              (λ same. let e : job ≡ other = cc in absurd (ground arith))
              (λ there. mem-pending_jobs entries id job there fresh))
    ]

-- The announcements of a list of jobs, the latest first.
abbrev announcements : List Job → List GossipMessage
announcements [] = []
announcements (job ∷ jobs) = announcements jobs ++ (job_available job ∷ [])

mem-announcements :
    (jobs : List Job) (job : Job) → Mem job jobs → Mem (job_available job) (announcements jobs)
mem-announcements [] job m = absurd (not-mem-nil m)
mem-announcements (first ∷ jobs) job m =
    Or.elim Mem-prop (mem-cons.0 m)
      (λ same. rw same (mem-append_right (announcements jobs) mem-cons_self))
      (λ later. mem-append_left (job_available first ∷ []) (mem-announcements jobs job later))

module _ (R : Runtime) where
  -- The message announces a job of the table that is pending.
  abbrev pub AnnouncesPending : AppState R → GossipMessage → Type 0
  AnnouncesPending s m =
      (id : JobId) × (job : Job) × (m ≡ job_available job)
      × (job_at R id s ≡ some job)
      × (job.job_status ≡ JobStatus.pending)

  announce_all-sends :
      (jobs : List Job) (s : AppState R)
      → (sent_by R (announce_all R jobs s) ≡ announcements jobs ++ sent_by R s)
        × ((announce_all R jobs s).jobs ≡ s.jobs)
  unfolding announce_all announce
  announce_all-sends [] s = (refl, refl)
  announce_all-sends (job ∷ jobs) s =
      let (sent, kept) = announce_all-sends jobs (announce R (job_available job) s).1 in
      (
        sent
            ∙ ap (λ (l : List GossipMessage). announcements jobs ++ l)
                (R.gossip.sent-broadcast (job_available job) s.gossip)
            ∙ sym (append_assoc (announcements jobs) (job_available job ∷ []) (sent_by R s)),
        kept,
      )

  pending_jobs-AnnouncesPending :
      (s : AppState R) (entries : List (JobId × Job))
      → ((id : JobId) (job : Job) → Mem (id, job) entries → job_at R id s ≡ some job)
      → All (AnnouncesPending s) (announcements (pending_jobs entries))
  unfolding pending_jobs
  pending_jobs-AnnouncesPending s [] there = tt
  pending_jobs-AnnouncesPending s ((id, job) ∷ entries) there =
      let others =
        pending_jobs-AnnouncesPending s entries
          (λ k other m. there k other (mem-cons_of_mem (id, job) m)) in
      elim (Bool-cases (is_pending job.job_status)) [
        | inl fresh ↦
            rw (fresh, pending_jobs)
              (All-append (AnnouncesPending s) (announcements (pending_jobs entries))
                (job_available job ∷ []) others
                (
                  (
                    id,
                    job,
                    refl,
                    there id job mem-cons_self,
                    is_pending-eq-true job.job_status fresh,
                  ),
                  tt,
                ))
        | inr taken ↦ rw (taken, pending_jobs) others
      ]

  -- A tick adds announcements to the messages that were sent before: each of them announces a job
  -- of the table that is pending, and every such job is announced by one of them. The table stays.
  pub rebroadcast_pending-announces :
      (s : AppState R)
      → (new : List GossipMessage) × (sent_by R (rebroadcast_pending R s) ≡ new ++ sent_by R s)
        × All (AnnouncesPending s) new
        × ((id : JobId) (job : Job)
            → job_at R id s ≡ some job
            → job.job_status ≡ JobStatus.pending
            → Mem (job_available job) new)
        × ((rebroadcast_pending R s).jobs ≡ s.jobs)
  unfolding rebroadcast_pending
  rebroadcast_pending-announces s =
      let entries = R.jobs_map.iter s.jobs in
      let (sent, kept) = announce_all-sends (pending_jobs entries) s in
      (
        announcements (pending_jobs entries),
        sent,
        pending_jobs-AnnouncesPending s entries
            (λ id job m. (R.jobs_map.mem-iter id job s.jobs).0 m),
        λ id job found fresh.
            mem-announcements (pending_jobs entries) job
              (mem-pending_jobs entries id job ((R.jobs_map.mem-iter id job s.jobs).1 found) fresh),
        kept,
      )
