-- ===== src/Core/Ids.antt =====
-- crates/core/src/ids.rs: the 32-byte identifiers. Each is a type of its own over its bytes; the
-- length 32 is the predicate `IsArray32`, so that an equation between identifiers is one of bytes.
use proof_job_zk.Base.{ℕ, ◌<◌, ◌≡◌, List, length, All, ℕ_discrete}

pub record JobId : Type 0 where
  pub bytes : List ℕ

pub record PeerId : Type 0 where
  pub bytes : List ℕ

pub record MessageId : Type 0 where
  pub bytes : List ℕ

pub record TxHash : Type 0 where
  pub bytes : List ℕ

-- What the type `[u8; 32]` says of its bytes.
pub record IsArray32 (bytes : List ℕ) : Type 0 where
  pub size : length bytes ≡ 32
  pub byte : All (λ b. b < 256) bytes

unfoldable pub bytes_discrete : Discrete (List ℕ)
unfolding ℕ_discrete
bytes_discrete = hlevel ℕ_discrete

-- The derived `PartialEq`.
unfoldable pub JobId-discrete : Discrete JobId
unfolding ℕ_discrete
JobId-discrete = hlevel ℕ_discrete

unfoldable pub PeerId-discrete : Discrete PeerId
unfolding ℕ_discrete
PeerId-discrete = hlevel ℕ_discrete

unfoldable pub MessageId-discrete : Discrete MessageId
unfolding ℕ_discrete
MessageId-discrete = hlevel ℕ_discrete
