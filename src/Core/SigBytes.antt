-- ===== src/Core/SigBytes.antt =====
-- `mod sig_bytes` of crates/core/src/gossip.rs: a signature on its way through serde.
use proof_job_zk.Base.{
  ℕ, ◌≡◌, refl, String, List, Result, ok, err, length, ◌==◌, if◌then◌else◌, arith, inl, inr,
  Result-cases,
}

-- A serializer with the matching deserializer, as far as the module calls them.
pub record Format : Type 1 where
  pub Output : Type 0
  pub serialize_bytes : List ℕ → Result String Output
  -- `Vec::deserialize`
  pub deserialize_vec : Output → Result String (List ℕ)

module _ (F : Format) where
  unfoldable pub serialize : List ℕ → Result String F.Output
  serialize bytes = F.serialize_bytes bytes

  -- `v.try_into()` succeeds for 64 bytes only.
  unfoldable pub deserialize : F.Output → Result String (List ℕ)
  deserialize d = elim (F.deserialize_vec d) [
    | err e ↦ err e
    | ok v ↦ if length v == 64 then ok v else err "expected 64 bytes for signature"
  ]

  -- What is read is what was sent if it has 64 bytes, and nothing else is taken for a signature.
  -- The format reads what it wrote.
  pub deserialize-serialize :
      ((bytes : List ℕ) (d : F.Output)
        → F.serialize_bytes bytes ≡ ok d
        → F.deserialize_vec d ≡ ok bytes)
      → (bytes : List ℕ) (d : F.Output) → serialize bytes ≡ ok d
      → deserialize d
        ≡ (if length bytes == 64 then ok bytes else err "expected 64 bytes for signature")
  unfolding serialize deserialize
  deserialize-serialize reads bytes d sent = rw (deserialize, reads bytes d sent) refl

  pub deserialize-length : (d : F.Output) (v : List ℕ) → deserialize d ≡ ok v → length v ≡ 64
  unfolding deserialize
  deserialize-length d v taken = elim (Result-cases (F.deserialize_vec d)) [
    | inl (u, read) ↦ ground arith
    | inr (e, bad) ↦ absurd (ground arith)
  ]
