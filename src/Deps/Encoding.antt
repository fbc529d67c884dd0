-- ===== src/Deps/Encoding.antt =====
-- hex, sha2, alloy's `Address`, `String::from_utf8_lossy` and serde_json.
use Prim.Native.Char.{code}
use proof_job_zk.Base.{
  ℕ, Bool, true, ◌≡◌, ◌≢◌, String, List, All, length, Result, ok, leb, ◌<◌, ◌&&◌, ◌||◌,
}
use proof_job_zk.Core.Job.{Address, Job}

-- The digits that `hex::encode` writes.
abbrev pub is_hex_digit : ℕ → Bool
is_hex_digit c = (leb b'0' c && leb c b'9') || (leb b'a' c && leb c b'f')

abbrev pub AllHex : String → Type 0
AllHex String.[] = Unit
AllHex (String.◌∷◌ c s) = (is_hex_digit (code c) ≡ true) × AllHex s

pub record Encoding : Type 0 where
  pub hex_encode : List ℕ → String
  pub hex_decode : String → Result String (List ℕ)
  pub sha256 : List ℕ → List ℕ
  pub parse_address : String → Result String Address
  pub show_address : Address → String
  pub from_utf8_lossy : List ℕ → String
  -- `serde_json::from_str` and `to_string_pretty` at `Vec<Job>`
  pub json_from_str : String → Result String (List Job)
  pub json_to_string : List Job → Result String String

pub record EncodingLaws (e : Encoding) : Type 0 where
  pub hex_decode-hex_encode :
      (bytes : List ℕ) → All (λ b. b < 256) bytes → e.hex_decode (e.hex_encode bytes) ≡ ok bytes
  pub hex_encode-AllHex : (bytes : List ℕ) → AllHex (e.hex_encode bytes)
  pub length-sha256 : (bytes : List ℕ) → length (e.sha256 bytes) ≡ 32
  pub sha256-bytes : (bytes : List ℕ) → All (λ b. b < 256) (e.sha256 bytes)

-- A text that serde_json writes is read back, and it is not empty.
pub record JsonLaws (e : Encoding) : Type 0 where
  pub json_from_str-json_to_string :
      (jobs : List Job) (text : String)
      → e.json_to_string jobs ≡ ok text
      → (e.json_from_str text ≡ ok jobs) × (text ≢ "")
