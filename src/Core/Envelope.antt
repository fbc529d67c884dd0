-- ===== src/Core/Envelope.antt =====
-- crates/core/src/gossip.rs: signed envelopes. ed25519-dalek and bincode are parameters. A panic,
-- here that of `.expect` on the encoder, is `none`.
pub mod Laws
use proof_job_zk.Base.{ℕ, List, Bool, true, false, Option, none, some, ◌≡◌}
use proof_job_zk.Core.Ids.{MessageId, PeerId}
use proof_job_zk.Core.Message.{GossipMessage}

pub record GossipEnvelope : Type 0 where
  pub id : MessageId
  pub origin : PeerId
  pub ttl : ℕ  -- u8
  pub payload : GossipMessage
  pub signature : List ℕ

-- What the code calls of ed25519-dalek and bincode.
pub record Signing : Type 1 where
  pub SigningKey : Type 0
  pub VerifyingKey : Type 0
  pub verifying_key : SigningKey → VerifyingKey
  pub to_bytes : VerifyingKey → List ℕ
  pub from_bytes : List ℕ → Option VerifyingKey
  pub sign_bytes : SigningKey → List ℕ → List ℕ
  pub verify_bytes : VerifyingKey → List ℕ → List ℕ → Bool
  pub encode_to_vec : MessageId × PeerId × GossipMessage → Option (List ℕ)

-- What those crates document.
pub record SigningLaws (s : Signing) : Type 0 where
  pub from_bytes-to_bytes :
      (v : Signing.VerifyingKey s) → Signing.from_bytes s (Signing.to_bytes s v) ≡ some v
  -- a signature verifies under the key of its signer
  pub verify-sign :
      (k : Signing.SigningKey s) (m : List ℕ)
      → Signing.verify_bytes s (Signing.verifying_key s k) m (Signing.sign_bytes s k m) ≡ true
  -- a tuple of arrays, numbers and vectors of known length always encodes
  pub encode_total :
      (t : MessageId × PeerId × GossipMessage)
      → (bytes : List ℕ) × (Signing.encode_to_vec s t ≡ some bytes)

abbrev pub bind {ℓ κ} : {A : Type ℓ} {B : Type κ} → Option A → (A → Option B) → Option B
bind none f = none
bind (some a) f = f a

infixl 5 ◌>>=◌
abbrev ◌>>=◌ {ℓ κ} : {A : Type ℓ} {B : Type κ} → Option A → (A → Option B) → Option B
◌>>=◌ = bind

module _ (s : Signing) where
  open s use {SigningKey, from_bytes, sign_bytes, verify_bytes, encode_to_vec}

  -- The `ttl` and the signature are not signed.
  unfoldable pub signable_bytes : GossipEnvelope → Option (List ℕ)
  signable_bytes e = encode_to_vec (e.id, e.origin, e.payload)

  unfoldable pub sign : GossipEnvelope → SigningKey → Option GossipEnvelope
  unfolding signable_bytes
  sign e key = do msg ← signable_bytes e; some (record e { signature = sign_bytes key msg })

  unfoldable pub verify : GossipEnvelope → Option Bool
  unfolding signable_bytes
  verify e = elim (from_bytes e.origin.bytes) [
    | none ↦ some false
    | some pubkey ↦ do msg ← signable_bytes e; some (verify_bytes pubkey msg e.signature)
  ]
