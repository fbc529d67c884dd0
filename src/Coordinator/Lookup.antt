-- ===== src/Coordinator/Lookup.antt =====
-- Asking for a job by the identifier that `create_job` answered (crates/coordinator/src/api.rs).
use proof_job_zk.Base.{concat, ◌≡◌, refl, String, Option, none, some, Result, ok, err, arith}
use proof_job_zk.Core.Ids.{JobId, IsArray32}
use proof_job_zk.Core.Job.{Job}
use proof_job_zk.Deps.Encoding.{Encoding, EncodingLaws, AllHex}
use proof_job_zk.Coordinator.State.{Runtime, AppState, job_at}
use proof_job_zk.Coordinator.Api.{
  ApiError, JobStatusResponse, not_found, trim_start_0x, show_0x, parse_job_id, status_response,
  get_job_status,
}

-- Hexadecimal digits do not start with `0x`.
trim_start_0x-AllHex : (s : String) → AllHex s → trim_start_0x s ≡ s
unfolding trim_start_0x
trim_start_0x-AllHex String.[] hex = refl
trim_start_0x-AllHex (String.◌∷◌ c String.[]) hex = refl
trim_start_0x-AllHex (String.◌∷◌ c (String.◌∷◌ d s)) (first, (second, rest)) = ground arith

trim_start_0x-concat : (s : String) → AllHex s → trim_start_0x (concat "0x" s) ≡ s
unfolding trim_start_0x
trim_start_0x-concat s hex = trim_start_0x-AllHex s hex

module _ (E : Encoding) where
  -- What is answered for an entry.
  abbrev pub status_answer : Option Job → Result ApiError JobStatusResponse
  status_answer none = err (record { status = not_found; message = "job not found" })
  status_answer (some job) = ok (status_response E job.job_status)

module _ (E : Encoding) (laws : EncodingLaws E) where
  -- The text that `create_job` answers parses to the identifier.
  pub parse_job_id-show_0x :
      (id : JobId) → IsArray32 id.bytes → parse_job_id E (show_0x E id.bytes) ≡ ok id
  unfolding parse_job_id show_0x
  parse_job_id-show_0x id size = ground (
    arith,
    trim_start_0x-concat (E.hex_encode id.bytes) (laws.hex_encode-AllHex id.bytes),
    laws.hex_decode-hex_encode id.bytes size.byte,
    size.size,
  )

  -- Where hexadecimal texts are read back: a request by the text that `create_job` answers for an
  -- identifier of 32 bytes is answered with the status of the entry in the table, and with 404
  -- where there is none.
  pub get_job_status-show_0x :
      (R : Runtime) (s : AppState R) (id : JobId)
      → IsArray32 id.bytes
      → get_job_status E R s (show_0x E id.bytes) ≡ status_answer E (job_at R id s)
  unfolding get_job_status
  get_job_status-show_0x R s id size = ground (arith, parse_job_id-show_0x id size)
