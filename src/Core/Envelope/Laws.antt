-- ===== src/Core/Envelope/Laws.antt =====
-- Signing and verifying (crates/core/src/gossip.rs).
use proof_job_zk.Base.{
  ℕ, ◌≡◌, refl, List, Bool, true, false, none, some, inl, inr, Option-cases, ap, ◌∙◌,
}
use proof_job_zk.Core.Envelope.{GossipEnvelope, Signing, SigningLaws, sign, verify}

module _ (s : Signing) (laws : SigningLaws s) where
  open s use {
    SigningKey, VerifyingKey, verifying_key, to_bytes, from_bytes, verify_bytes, encode_to_vec,
  }

  verify-known :
      (e : GossipEnvelope) (v : VerifyingKey) (bytes : List ℕ)
      → from_bytes e.origin.bytes ≡ some v
      → encode_to_vec (e.id, e.origin, e.payload) ≡ some bytes
      → verify s e ≡ some (verify_bytes v bytes e.signature)
  unfolding verify
  verify-known e v bytes known encoded = rw (known, verify) (rw encoded)

  verify-unknown : (e : GossipEnvelope) → from_bytes e.origin.bytes ≡ none → verify s e ≡ some false
  unfolding verify
  verify-unknown e unknown = rw (unknown, verify)

  -- Under the laws of the signing crates, signing an envelope whose origin is the signer's public
  -- key never panics, changes only the signature, and gives an envelope that verifies with whatever
  -- `ttl` it is later given.
  pub verify-sign :
      (e : GossipEnvelope) (key : SigningKey)
      → e.origin.bytes ≡ to_bytes (verifying_key key)
      → (signed : GossipEnvelope) × (sign s e key ≡ some signed)
        × (record signed { signature = e.signature } ≡ e)
        × ((ttl : ℕ) → verify s (record signed { ttl = ttl }) ≡ some true)
  unfolding sign
  verify-sign e key mine =
      let (bytes, encoded) = laws.encode_total (e.id, e.origin, e.payload) in
      let signed : GossipEnvelope = record e { signature = s.sign_bytes key bytes } in
      (
        signed,
        rw encoded,
        refl,
        λ ttl.
            verify-known (record signed { ttl = ttl }) (verifying_key key) bytes
              (ap from_bytes mine ∙ laws.from_bytes-to_bytes (verifying_key key)) encoded
            ∙ ap some (laws.verify-sign key bytes),
      )

  -- Verification never panics, and its answer does not depend on the `ttl`.
  pub verify_total :
      (e : GossipEnvelope)
      → (b : Bool) × (verify s e ≡ some b)
        × ((ttl : ℕ) → verify s (record e { ttl = ttl }) ≡ some b)
  verify_total e = elim (Option-cases (from_bytes e.origin.bytes)) [
    | inl unknown ↦
        (false, verify-unknown e unknown, λ ttl. verify-unknown (record e { ttl = ttl }) unknown)
    | inr (v, known) ↦
        let (bytes, encoded) = laws.encode_total (e.id, e.origin, e.payload) in
        (
          verify_bytes v bytes e.signature,
          verify-known e v bytes known encoded,
          λ ttl. verify-known (record e { ttl = ttl }) v bytes known encoded,
        )
  ]
