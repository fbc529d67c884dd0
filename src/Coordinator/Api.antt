-- ===== src/Coordinator/Api.antt =====
-- crates/coordinator/src/api.rs: the handlers behind the routes. The clock and the random nonce are
-- arguments. `now + default_deadline_secs` wraps, as `u64` addition does in a release build.
use Prim.Native.Char.{code}
use proof_job_zk.Base.{
  ℕ, ◌+◌, ◌%◌, ◌^◌, ◌&&◌, String, List, ◌++◌, Option, none, some, Result, ok, err, map_err, ◌==◌,
  length, if◌then◌else◌, concat,
}
use proof_job_zk.Core.Ids.{JobId}
use proof_job_zk.Core.Job.{Job, JobStatus, Address, zero_address}
use proof_job_zk.Core.Message.{job_available}
use proof_job_zk.Contract.{show_contract_error, submit_job}
use proof_job_zk.Deps.Encoding.{Encoding}
use proof_job_zk.Coordinator.State.{Runtime, AppState, World, job_at, announce}

pub data StatusCode : Type 0 where
  bad_request not_found internal_server_error : StatusCode

pub record ApiError : Type 0 where
  pub status : StatusCode
  pub message : String

pub record CreateJobRequest : Type 0 where
  pub payload : String
  pub reward : ℕ
  pub owner : Option String

pub record CreateJobResponse : Type 0 where
  pub job_id : String
  pub tx_hash : Option String

pub data JobStatusResponse : Type 0 where
  pending : JobStatusResponse
  assigned : String → ℕ → JobStatusResponse
  proving : JobStatusResponse
  completed : String → JobStatusResponse
  failed : String → JobStatusResponse
  expired : JobStatusResponse

pub record JobResponse : Type 0 where
  pub id : String
  pub owner : String
  pub payload : String
  pub reward : ℕ
  pub created_at : ℕ
  pub deadline : ℕ
  pub status : JobStatusResponse

-- `s.trim_start_matches("0x")`: as often as it stands there
unfoldable pub trim_start_0x : String → String
trim_start_0x String.[] = String.[]
trim_start_0x (String.◌∷◌ c String.[]) = String.◌∷◌ c String.[]
trim_start_0x (String.◌∷◌ c (String.◌∷◌ d s)) =
    let rest = trim_start_0x s in
    if code c == b'0' && code d == b'x' then rest else String.◌∷◌ c (String.◌∷◌ d s)

unfoldable pub fail_with : StatusCode → String → String → ApiError
fail_with status text e = record { status = status; message = concat text e }

module _ (E : Encoding) where
  -- `format!("0x{}", hex::encode(bytes))`
  unfoldable pub show_0x : List ℕ → String
  show_0x bytes = concat "0x" (E.hex_encode bytes)

  unfoldable pub generate_job_id : Address → List ℕ → List ℕ → JobId
  generate_job_id owner payload nonce = record {
    bytes = E.sha256 (owner.bytes ++ (payload ++ nonce));
  }

  unfoldable pub status_response : JobStatus → JobStatusResponse
  unfolding show_0x
  status_response JobStatus.pending = JobStatusResponse.pending
  status_response (JobStatus.assigned worker assigned_at) =
      JobStatusResponse.assigned (E.hex_encode worker.bytes) assigned_at
  status_response JobStatus.proving = JobStatusResponse.proving
  status_response (JobStatus.completed tx_hash) =
      JobStatusResponse.completed (show_0x tx_hash.bytes)
  status_response (JobStatus.failed reason) = JobStatusResponse.failed (E.from_utf8_lossy reason)
  status_response JobStatus.expired = JobStatusResponse.expired

  unfoldable pub parse_job_id : String → Result ApiError JobId
  unfolding trim_start_0x fail_with
  parse_job_id id = elim (E.hex_decode (trim_start_0x id)) [
    | err e ↦ err (fail_with bad_request "invalid job id: " e)
    | ok bytes ↦
        if length bytes == 32
        then ok (record { bytes = bytes })
        else err (record { status = bad_request; message = "job id must be 32 bytes" })
  ]

  -- `owner.map(parse).transpose().map_err(…)?.unwrap_or(Address::ZERO)`
  unfoldable pub parse_owner : Option String → Result ApiError Address
  unfolding trim_start_0x fail_with
  parse_owner none = ok zero_address
  parse_owner (some text) =
      map_err (fail_with bad_request "invalid owner address: ")
        (E.parse_address (trim_start_0x text))

  unfoldable pub parse_payload : String → Result ApiError (List ℕ)
  unfolding trim_start_0x fail_with
  parse_payload text =
      map_err (fail_with bad_request "invalid hex payload: ") (E.hex_decode (trim_start_0x text))

  module _ (R : Runtime) where
    -- A handler over the shared state and the chain, with `?`.
    pub record Outcome (A : Type 0) : Type 0 where
      pub result : Result ApiError A
      pub state : AppState R
      pub world : World R

    abbrev pub Handler : Type 0 → Type 0
    Handler A = AppState R → World R → Outcome A

    abbrev lift : {A : Type 0} → Result ApiError A → Handler A
    lift r s w = record { result = r; state = s; world = w }

    infixl 5 ◌>>=◌
    abbrev ◌>>=◌ : {A B : Type 0} → Handler A → (A → Handler B) → Handler B
    ◌>>=◌ m f s w = elim (m s w).result [
      | ok a ↦ f a (m s w).state (m s w).world
      | err e ↦ record { result = err e; state = (m s w).state; world = (m s w).world }
    ]

    -- `if let Some(ref contract) = state.contract { … }`
    unfoldable pub submit_on_chain : JobId → List ℕ → ℕ → ℕ → Handler (Option String)
    unfolding submit_job fail_with show_0x show_contract_error
    submit_on_chain job_id payload deadline reward s w = elim s.contract [
      | none ↦ record { result = ok none; state = s; world = w }
      | some contract ↦
          let (answer, w') = submit_job R.provider contract job_id payload deadline reward w in
          elim answer [
            | ok tx ↦ record { result = ok (some (show_0x tx.bytes)); state = s; world = w' }
            | err e ↦ record {
              result = err (
                  fail_with internal_server_error "on-chain submission failed: "
                    (show_contract_error e));
              state = s;
              world = w';
            }
          ]
    ]

    insert_job : Job → Handler (Unit {0})
    insert_job job s w = record {
      result = ok tt;
      state = record s { jobs = R.jobs_map.insert job.id job s.jobs };
      world = w;
    }

    broadcast_job : Job → Handler (Unit {0})
    unfolding announce fail_with
    broadcast_job job s w =
        let (r, s') = announce R (job_available job) s in
        record {
          result = map_err (fail_with internal_server_error "broadcast failed: ") r;
          state = s';
          world = w;
        }

    -- `now + state.config.default_deadline_secs` on `u64`
    unfoldable pub job_deadline : ℕ → AppState R → ℕ
    job_deadline now s = (now + s.config.default_deadline_secs) % 2 ^ 64

    unfoldable pub new_job : Address → List ℕ → List ℕ → ℕ → ℕ → ℕ → Job
    unfolding generate_job_id
    new_job owner payload nonce reward now deadline = record {
      id = generate_job_id owner payload nonce;
      job_status = JobStatus.pending;
      owner = owner;
      payload = payload;
      reward = reward;
      created_at = now;
      deadline = deadline;
    }

    -- What follows the two parsers.
    unfoldable pub publish_job : Job → Handler CreateJobResponse
    unfolding insert_job broadcast_job
    publish_job job = do
      tx_hash ← submit_on_chain job.id job.payload job.deadline job.reward
      stored ← insert_job job
      sent ← broadcast_job job
      lift (ok (record { job_id = show_0x job.id.bytes; tx_hash = tx_hash }))

    unfoldable pub create_job : CreateJobRequest → List ℕ → ℕ → Handler CreateJobResponse
    unfolding job_deadline new_job
    create_job req nonce now s =
        (do
          payload ← lift (parse_payload req.payload)
          owner ← lift (parse_owner req.owner)
          publish_job (new_job owner payload nonce req.reward now (job_deadline now s)))
          s

    unfoldable pub job_response : Job → JobResponse
    unfolding status_response show_0x
    job_response job = record {
      id = show_0x job.id.bytes;
      owner = E.show_address job.owner;
      payload = show_0x job.payload;
      reward = job.reward;
      created_at = job.created_at;
      deadline = job.deadline;
      status = status_response job.job_status;
    }

    -- `state.jobs.get(&job_id).ok_or_else(…)` behind the parsed path
    find_job : AppState R → String → Result ApiError Job
    unfolding parse_job_id
    find_job s id = elim (parse_job_id id) [
      | err e ↦ err e
      | ok job_id ↦ elim (job_at R job_id s) [
        | none ↦ err (record { status = not_found; message = "job not found" })
        | some job ↦ ok job
      ]
    ]

    unfoldable pub get_job : AppState R → String → Result ApiError JobResponse
    unfolding find_job job_response
    get_job s id = elim (find_job s id) [ ok job ↦ ok (job_response job) | err e ↦ err e ]

    unfoldable pub get_job_status : AppState R → String → Result ApiError JobStatusResponse
    unfolding find_job status_response
    get_job_status s id = elim (find_job s id) [
      | ok job ↦ ok (status_response job.job_status)
      | err e ↦ err e
    ]
