-- ===== src/Tests/Texts.antt =====
-- An encoding for the examples whose laws hold: a byte is written in ones, and a zero ends it; JSON
-- is at home with one table only.
use Prim.Native.Char.{code}
use proof_job_zk.Base.{
  ℕ, zero, suc, ◌+◌, ◌≡◌, refl, sym, ap, ◌∙◌, String, List, [], ◌∷◌, Result, ok, err, replicate,
  arith, ◌==◌, if◌then◌else◌, true, false, ℕ_discrete,
}
use proof_job_zk.Core.Job.{Job, zero_address}
use proof_job_zk.Coordinator.Persistence.{is_empty}
use proof_job_zk.Deps.Encoding.{Encoding, EncodingLaws, JsonLaws, AllHex}
use proof_job_zk.Tests.Runtime.{fresh_job}

abbrev ones : ℕ → String → String
ones zero s = String.◌∷◌ "0" s
ones (suc n) s = String.◌∷◌ "1" (ones n s)

abbrev write_bytes : List ℕ → String
write_bytes [] = ""
write_bytes (b ∷ bytes) = ones b (write_bytes bytes)

abbrev read_bytes : String → ℕ → List ℕ
read_bytes String.[] n = []
read_bytes (String.◌∷◌ c s) n =
    let next = read_bytes s 0 in
    let more = read_bytes s (suc n) in if code c == b'0' then n ∷ next else more

read_bytes-ones : (n k : ℕ) (s : String) → read_bytes (ones n s) k ≡ (n + k) ∷ read_bytes s 0
read_bytes-ones zero k s = ap (λ (b : ℕ). b ∷ read_bytes s 0) (omega arith)
read_bytes-ones (suc n) k s =
    read_bytes-ones n (suc k) s ∙ ap (λ (b : ℕ). b ∷ read_bytes s 0) (omega arith)

read_bytes-write_bytes : (bytes : List ℕ) → read_bytes (write_bytes bytes) 0 ≡ bytes
read_bytes-write_bytes [] = refl
read_bytes-write_bytes (b ∷ bytes) =
    read_bytes-ones b 0 (write_bytes bytes) ∙ ground (arith, read_bytes-write_bytes bytes)

ones-AllHex : (n : ℕ) (s : String) → AllHex s → AllHex (ones n s)
ones-AllHex zero s hex = (refl, hex)
ones-AllHex (suc n) s hex = (refl, ones-AllHex n s hex)

write_bytes-AllHex : (bytes : List ℕ) → AllHex (write_bytes bytes)
write_bytes-AllHex [] = tt
write_bytes-AllHex (b ∷ bytes) = ones-AllHex b (write_bytes bytes) (write_bytes-AllHex bytes)

abbrev pub saved_jobs : List Job
saved_jobs = fresh_job ∷ []

unfoldable pub Jobs-discrete : Discrete (List Job)
unfolding ℕ_discrete
Jobs-discrete = hlevel ℕ_discrete

-- The only table that is written.
abbrev write_jobs : List Job → Result String String
write_jobs jobs = elim (Jobs-discrete jobs saved_jobs) [ yes p ↦ ok "jobs" | no p ↦ err "size" ]

abbrev pub texts : Encoding
texts = record {
  hex_encode = write_bytes;
  hex_decode = λ text. ok (read_bytes text 0);
  sha256 = λ bytes. replicate 32 0;
  parse_address = λ text. ok zero_address;
  show_address = λ a. "0x";
  from_utf8_lossy = λ bytes. "?";
  json_from_str = λ text. ok saved_jobs;
  json_to_string = write_jobs;
}

pub texts_laws : EncodingLaws texts
texts_laws = record {
  hex_decode-hex_encode = λ bytes h. ap ok (read_bytes-write_bytes bytes);
  hex_encode-AllHex = write_bytes-AllHex;
  length-sha256 = λ bytes. refl;
  sha256-bytes = λ bytes. ground arith;
}

write_jobs-eq-ok :
    (jobs : List Job) (text : String)
    → write_jobs jobs ≡ ok text
    → (jobs ≡ saved_jobs) × (text ≡ "jobs")
write_jobs-eq-ok jobs text h = elim (Jobs-discrete jobs saved_jobs) [
  | yes p ↦ (p, ground arith)
  | no p ↦ absurd (ground arith)
]

pub texts_json : JsonLaws texts
texts_json = record {
  json_from_str-json_to_string = λ jobs text h.
      let (same, there) = write_jobs-eq-ok jobs text h in
      (ap ok (sym same), λ empty. let e : false ≡ true = ap is_empty (sym there ∙ empty) in cc);
}
