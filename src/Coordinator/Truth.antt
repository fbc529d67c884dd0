-- ===== src/Coordinator/Truth.antt =====
-- The job table tells no more than the chain: what crates/coordinator and crates/indexer mark as
-- completed is settled there, whatever is gossiped.
use mathlib.Core.List.{Memᴰ}
use mathlib.Core.Option
use proof_job_zk.Base.{
  ℕ, ◌+◌, ◌≡◌, refl, sym, ap, subst, true, List, [], ◌∷◌, ok, arith, inl, inr, Option-cases,
  Bool-cases, Result-cases,
}
use proof_job_zk.Core.Ids.{JobId, JobId-discrete, PeerId, TxHash}
use proof_job_zk.Core.Job.{Job, JobStatus, Address}
use proof_job_zk.Core.Message.{GossipMessage, claim_job, job_completed}
use proof_job_zk.Contract.{ContractClient, is_completed}
use proof_job_zk.Deps.Encoding.{Encoding}
use proof_job_zk.Deps.Provider.{CompletedEvent, ExpiredEvent}
use proof_job_zk.Coordinator.State.{Runtime, AppState, Jobs, World, job_at}
use proof_job_zk.Coordinator.Handler.{
  handle_claim, process_message, process_payload, handle_job_completed,
}
use proof_job_zk.Coordinator.Claims.{handle_claim_lem}
use proof_job_zk.Coordinator.Completion.{chain_confirms, handle_job_completed_lem}
use proof_job_zk.Coordinator.Creation.{published, create_job_cases}
use proof_job_zk.Coordinator.Arbitration.{announce_all-keeps}
use proof_job_zk.Coordinator.Rebroadcast.{pending_jobs, rebroadcast_pending}
use proof_job_zk.Coordinator.System.{
  Process, Event, received, requested, rebroadcast, polled, step, run, indexer_of, poll,
}
use proof_job_zk.Indexer
use proof_job_zk.Indexer.{Indexer, Polled, apply_completed, apply_expired, poll_events}
use proof_job_zk.Indexer.Polling.{poll_cases}
use proof_job_zk.Coordinator.Sound.{IsSound, claimed-IsSound, expired-IsSound, along}

module _ (Settled : JobId → Type 0) where
  module _ (R : Runtime) where
    open R use {jobs_map as table}

    abbrev pub AllSound : Jobs R → Type 0
    AllSound jobs = (id : JobId) → IsSound Settled id (table.get id jobs)

    apply_completed-AllSound :
        (logs : List CompletedEvent) (jobs : Jobs R)
        → ((e : CompletedEvent) → Memᴰ e logs → Settled e.job_id)
        → AllSound jobs
        → AllSound (apply_completed R logs jobs)
    unfolding apply_completed Indexer.handle_job_completed
    apply_completed-AllSound [] jobs true_logs sound = sound
    apply_completed-AllSound (e ∷ logs) jobs true_logs sound =
        let tx = Option.get_or e.transaction_hash Indexer.default_hash in
        apply_completed-AllSound logs (Indexer.handle_job_completed R e.job_id tx jobs)
          (λ event m. true_logs event (Memᴰ.tail m))
          λ id. elim (JobId-discrete id e.job_id) [
            | yes p ↦ λ job tx' found done. subst Settled (sym p) (true_logs e (Memᴰ.head refl))
            | no p ↦
                along Settled id
                  (ground (
                    arith,
                    table.get-upsert id e.job_id (Indexer.mark_completed tx)
                        (Indexer.discovered e.job_id tx) jobs,
                  ))
                  (sound id)
          ]

    apply_expired-AllSound :
        (logs : List ExpiredEvent) (jobs : Jobs R)
        → AllSound jobs
        → AllSound (apply_expired R logs jobs)
    unfolding apply_expired Indexer.handle_job_expired
    apply_expired-AllSound [] jobs sound = sound
    apply_expired-AllSound (e ∷ logs) jobs sound =
        apply_expired-AllSound logs (Indexer.handle_job_expired R e.job_id jobs) λ id.
          elim (JobId-discrete id e.job_id) [
            | yes p ↦
                along Settled id
                  (ground (arith, table.get-modify id e.job_id Indexer.mark_expired jobs))
                  (expired-IsSound Settled id (table.get id jobs) (sound id))
            | no p ↦
                along Settled id
                  (ground (arith, table.get-modify id e.job_id Indexer.mark_expired jobs))
                  (sound id)
          ]

    claim-AllSound :
        (s : AppState R) (now : ℕ) (job_id : JobId) (worker_id : PeerId)
        → AllSound s.jobs
        → AllSound (handle_claim R s now job_id worker_id).1.jobs
    claim-AllSound s now job_id worker_id sound id =
        let (_, a) = handle_claim_lem R s now job_id worker_id in
        elim (JobId-discrete id job_id) [
          | yes p ↦
              along Settled id (ground (arith, a.entries id))
                (claimed-IsSound Settled id worker_id now (job_at R id s) (sound id))
          | no p ↦ along Settled id (ground (arith, a.entries id)) (sound id)
        ]

    -- The chain answers `completed` truthfully, and its logs hold no completion that is not.
    module _
        (true_calls : (c : ContractClient R.provider) (id : JobId) (w : World R)
          → (is_completed R.provider c id w).0 ≡ ok true
          → Settled id)
        (true_logs : (a : Address) (from_block to_block : ℕ) (w : World R)
            (logs : List CompletedEvent)
          → (R.provider.query_completed a from_block to_block w).0 ≡ ok logs
          → (e : CompletedEvent) → Memᴰ e logs
          → Settled e.job_id) where
      pub confirmed :
          (s : AppState R) (job_id : JobId) (w : World R)
          → chain_confirms R s job_id w ≡ true
          → Settled job_id
      unfolding chain_confirms
      confirmed s job_id w h = elim (Option-cases s.contract) [
        | inl alone ↦ absurd (ground arith)
        | inr (c, has) ↦ elim (Result-cases (is_completed R.provider c job_id w).0) [
          | inl (b, answer) ↦ true_calls c job_id w (ground arith)
          | inr (e, answer) ↦ absurd (ground arith)
        ]
      ]

      completion-AllSound :
          (s : AppState R) (job_id : JobId) (tx : TxHash) (w : World R)
          → AllSound s.jobs
          → AllSound (handle_job_completed R s job_id tx w).0.jobs
      completion-AllSound s job_id tx w sound id =
          let (entry, _, _, _) = handle_job_completed_lem R s job_id tx w id in
          elim (Bool-cases (chain_confirms R s job_id w)) [
            | inr unconfirmed ↦ along Settled id (ground arith) (sound id)
            | inl yes_ ↦ elim (JobId-discrete id job_id) [
              | yes p ↦ λ job tx' found done. subst Settled (sym p) (confirmed s job_id w yes_)
              | no p ↦ along Settled id (ground arith) (sound id)
            ]
          ]

      poll-AllSound :
          (i : Indexer R) (w : World R) → AllSound i.jobs → AllSound (poll_events R i w).self.jobs
      poll-AllSound i w sound =
          poll_cases R (λ (p : Polled R). AllSound p.self.jobs) i w (λ e w'. sound)
            (λ current w' e₀ old. sound)
            (λ current logs e w₁ w' e₀ fresh e₁.
              apply_completed-AllSound logs i.jobs
                (true_logs i.registry_address (i.last_block + 1) current w₁ logs e₁) sound)
            λ current logs late w₁ w₂ w' e₀ fresh e₁ e₂.
              apply_expired-AllSound late (apply_completed R logs i.jobs) (
                apply_completed-AllSound logs i.jobs
                  (true_logs i.registry_address (i.last_block + 1) current w₁ logs e₁) sound)

      module _ (E : Encoding) where
        published-AllSound :
            (job : Job) (s : AppState R)
            → job.job_status ≡ JobStatus.pending
            → AllSound s.jobs
            → AllSound (published E R job s).jobs
        unfolding published
        published-AllSound job s fresh sound id = elim (JobId-discrete id job.id) [
          | yes p ↦ λ job' tx found done.
              let same : job ≡ job' = ground (arith, table.get-insert id job.id job s.jobs) in
              absurd (ground arith)
          | no p ↦
              along Settled id (ground (arith, table.get-insert id job.id job s.jobs)) (sound id)
        ]

        received-AllSound :
            (s : AppState R) (now : ℕ) (w : World R) (m : GossipMessage)
            → AllSound s.jobs
            → AllSound (process_payload R s now w m).state.jobs
        unfolding process_payload
        received-AllSound s now w (claim_job job_id worker_id) sound =
            claim-AllSound s now job_id worker_id sound
        received-AllSound s now w (job_completed job_id tx) sound =
            completion-AllSound s job_id tx w sound
        received-AllSound s now w _ sound = sound

        step-AllSound :
            (p : Process E R) (event : Event E R)
            → AllSound p.state.jobs
            → AllSound (step E R p event).state.jobs
        unfolding step process_message rebroadcast_pending poll indexer_of
        step-AllSound p (received now w envelope) sound id =
            received-AllSound p.state now w envelope.payload sound id
        step-AllSound p (requested req nonce now w) sound id =
            create_job_cases E R (λ t. AllSound t.jobs) req nonce now p.state w sound
              (λ job asked fresh. published-AllSound job p.state fresh sound) id
        step-AllSound p rebroadcast sound id =
            along Settled id
              (ap (table.get id)
                (announce_all-keeps E R (pending_jobs (table.iter p.state.jobs)) p.state).0)
              (sound id)
        step-AllSound p (polled w) sound id = elim (Option-cases p.indexer) [
          | inl off ↦ rw (off, step) (sound id)
          | inr (c, on) ↦ rw (on, step) (poll-AllSound (indexer_of E R c p.state) w sound id)
        ]

        -- Where `completed` is answered truthfully and no log reports a completion that is not:
        -- after any run, requests and forged gossip included, every job that the table holds as
        -- completed is settled on chain, if that was so at the start.
        pub run-AllSound :
            (p : Process E R) (events : List (Event E R))
            → AllSound p.state.jobs
            → AllSound (run E R p events).state.jobs
        unfolding run
        run-AllSound p [] sound = sound
        run-AllSound p (event ∷ events) sound =
            run-AllSound (step E R p event) events (step-AllSound p event sound)
