-- ===== src/Coordinator/Creation.antt =====
-- What `create_job` of crates/coordinator/src/api.rs does to the shared state.
use proof_job_zk.Base.{
  ℕ, ◌≡◌, refl, List, Option, none, some, ok, err, arith, ◌⊎◌, inl, inr, Result-cases, String,
}
use proof_job_zk.Core.Ids.{JobId}
use proof_job_zk.Core.Job.{Job, JobStatus}
use proof_job_zk.Core.Message.{job_available}
use proof_job_zk.Deps.Encoding.{Encoding}
use proof_job_zk.Coordinator.State.{Runtime, AppState, World, announce}
use proof_job_zk.Coordinator.Api.{
  ApiError, CreateJobRequest, parse_payload, parse_owner, generate_job_id, new_job, job_deadline,
  submit_on_chain, publish_job, create_job, show_0x,
}

module _ (E : Encoding) where
  -- The identifier that a request leads to, if both of its texts parse.
  unfoldable pub requested_id : CreateJobRequest → List ℕ → Option JobId
  requested_id req nonce = elim (parse_payload E req.payload) [
    | err e ↦ none
    | ok payload ↦ elim (parse_owner E req.owner) [
      | err e ↦ none
      | ok owner ↦ some (generate_job_id E owner payload nonce)
    ]
  ]

  module _ (R : Runtime) where
    -- The state after a job has been stored and announced.
    unfoldable pub published : Job → AppState R → AppState R
    unfolding announce
    published job s =
        (announce R (job_available job) (record s { jobs = R.jobs_map.insert job.id job s.jobs })).1

    submit_on_chain-state :
        (job_id : JobId) (payload : List ℕ) (deadline reward : ℕ) (s : AppState R) (w : World R)
        → (submit_on_chain E R job_id payload deadline reward s w).state ≡ s
    unfolding submit_on_chain
    submit_on_chain-state job_id payload deadline reward s w = ground arith

    -- The two ends of `publish_job`, by what `submit_on_chain` gives.
    pub publish_job_lem :
        (job : Job) (s : AppState R) (w : World R)
        → let p = publish_job E R job s w in
          let answer = submit_on_chain E R job.id job.payload job.deadline job.reward s w in
          ((tx : Option String) × (answer.result ≡ ok tx)
            × (p.result ≡ ok (record { job_id = show_0x E job.id.bytes; tx_hash = tx }))
            × (p.state ≡ published job s))
          ⊎ ((e : ApiError) × (answer.result ≡ err e) × (p.result ≡ err e) × (p.state ≡ s))
    unfolding publish_job published
    publish_job_lem job s w =
        let same = submit_on_chain-state job.id job.payload job.deadline job.reward s w in
        let fine = R.gossip.broadcast_ok (job_available job) in
        elim (Result-cases
          (submit_on_chain E R job.id job.payload job.deadline job.reward s w).result) [
            | inl (tx, e) ↦ inl (
              tx,
              e,
              ground (
                arith,
                fine
                    (submit_on_chain E R job.id job.payload job.deadline job.reward s
                      w).state.gossip,
              ),
              ground (arith, same),
            )
            | inr (e, h) ↦ inr (e, h, ground arith, ground (arith, same))
          ]

    -- Whatever it answers, `create_job` leaves the state, or publishes one pending job under the
    -- identifier that the request leads to.
    pub create_job_cases {ℓ} :
        (P : AppState R → Type ℓ) (req : CreateJobRequest) (nonce : List ℕ) (now : ℕ)
        (s : AppState R) (w : World R)
        → P s
        → ((job : Job)
            → requested_id req nonce ≡ some job.id
            → job.job_status ≡ JobStatus.pending
            → P (published job s))
        → P (create_job E R req nonce now s w).state
    unfolding create_job requested_id
    create_job_cases P req nonce now s w kept made =
        elim (Result-cases (parse_payload E req.payload)) [
          | inr (e, bad) ↦ rw (bad, create_job) kept
          | inl (payload, p) ↦ elim (Result-cases (parse_owner E req.owner)) [
            | inr (e, bad) ↦ rw (p, create_job, bad) kept
            | inl (owner, o) ↦
                let job = new_job E R owner payload nonce req.reward now (job_deadline E R now s) in
                rw (p, create_job, o)
                  (elim (publish_job_lem job s w) [
                    | inl (tx, _, _, e) ↦ rw e (made job (rw (p, requested_id) (rw o)) refl)
                    | inr (e, _, _, same) ↦ rw same kept
                  ])
          ]
        ]
