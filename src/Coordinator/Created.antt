-- ===== src/Coordinator/Created.antt =====
-- Asking for a job that `create_job` has answered (crates/coordinator/src/api.rs).
use proof_job_zk.Base.{ℕ, ◌≡◌, refl, ap, ◌∙◌, List, ok, arith, inl, inr, Result-cases}
use proof_job_zk.Core.Ids.{IsArray32}
use proof_job_zk.Core.Job.{Job, Address}
use proof_job_zk.Deps.Encoding.{Encoding, EncodingLaws}
use proof_job_zk.Coordinator.State.{Runtime, AppState, World}
use proof_job_zk.Coordinator.Creation.{published, publish_job_lem}
use proof_job_zk.Coordinator.Lookup.{parse_job_id-show_0x}
use proof_job_zk.Coordinator.Api.{
  CreateJobRequest, CreateJobResponse, JobStatusResponse, parse_payload, parse_owner, new_job,
  job_deadline, generate_job_id, create_job, show_0x, get_job, job_response, Outcome, publish_job,
}

module _ (E : Encoding) (laws : EncodingLaws E) (R : Runtime) where
  generate_job_id-IsArray32 :
      (owner : Address) (payload nonce : List ℕ)
      → IsArray32 (generate_job_id E owner payload nonce).bytes
  unfolding generate_job_id
  generate_job_id-IsArray32 owner payload nonce = record {
    size = laws.length-sha256 _;
    byte = laws.sha256-bytes _;
  }

  -- What was published is found under the text that names it.
  published-get_job :
      (job : Job) (s : AppState R)
      → IsArray32 job.id.bytes
      → get_job E R (published E R job s) (show_0x E job.id.bytes) ≡ ok (job_response E R job)
  unfolding get_job published
  published-get_job job s size = ground (
    arith,
    parse_job_id-show_0x E laws job.id size,
    R.jobs_map.get-insert job.id job.id job s.jobs,
  )

  -- Where hexadecimal texts are read back: a job that `create_job` has taken is found by the
  -- identifier in its answer, with the payload and owner of the request in their standard form,
  -- its reward, the time, the deadline after it, and as pending.
  pub create_job-get_job :
      (req : CreateJobRequest) (nonce : List ℕ) (now : ℕ) (s : AppState R) (w : World R)
      (response : CreateJobResponse)
      → (create_job E R req nonce now s w).result ≡ ok response
      → (payload : List ℕ) × (owner : Address) × (parse_payload E req.payload ≡ ok payload)
        × (parse_owner E req.owner ≡ ok owner)
        × (get_job E R (create_job E R req nonce now s w).state response.job_id
            ≡ ok (record {
              id = response.job_id;
              owner = E.show_address owner;
              payload = show_0x E payload;
              reward = req.reward;
              created_at = now;
              deadline = job_deadline E R now s;
              status = JobStatusResponse.pending;
            }))
  unfolding create_job job_response
  create_job-get_job req nonce now s w response h =
      elim (Result-cases (parse_payload E req.payload)) [
        | inr (e, bad) ↦ absurd (ground arith)
        | inl (payload, p) ↦ elim (Result-cases (parse_owner E req.owner)) [
          | inr (e, bad) ↦ absurd (ground arith)
          | inl (owner, o) ↦
              let job = new_job E R owner payload nonce req.reward now (job_deadline E R now s) in
              let same : create_job E R req nonce now s w ≡ publish_job E R job s w =
                rw (p, create_job, o) refl in
              elim (publish_job_lem E R job s w) [
                | inr (e, _, failed, _) ↦ absurd (ground arith)
                | inl (tx, _, answered, stored) ↦
                    let size = generate_job_id-IsArray32 owner payload nonce in
                    let found = published-get_job job s size in
                    let named : response.job_id ≡ show_0x E job.id.bytes = ground arith in
                    (
                      payload,
                      owner,
                      p,
                      o,
                      ap (λ (t : AppState R). get_job E R t response.job_id)
                            (ap (λ (a : Outcome E R CreateJobResponse). a.state) same ∙ stored)
                          ∙ rw named found,
                    )
              ]
        ]
      ]
