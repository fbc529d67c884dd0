-- ===== src/Node/Connection/Delivery.antt =====
-- Both ends of one stream (crates/gossip/src/gossip/mod.rs).
use mathlib.Core.List.{append_assoc, append-nil}
use proof_job_zk.Base.{
  ℕ, suc, ◌≡◌, refl, sym, ap, subst, ◌∙◌, List, [], ◌∷◌, ◌++◌, ◌≤◌, none, some, length, map, All,
  All-split, inl, inr,
}
use proof_job_zk.Core.Envelope.{GossipEnvelope}
use proof_job_zk.Node.{Crates, ConnectionId, write_frame}
use proof_job_zk.Node.Connection.{Connection, open_connection, Run}
use proof_job_zk.Node.Connection.Wire.{Run-Sends}
use proof_job_zk.Node.Connection.Reading.{Run-Receives}

module _ (C : Crates) where
  -- Decoding the encoding of an envelope gives it back.
  abbrev pub RoundTrips : GossipEnvelope → Type 0
  RoundTrips e = (b : List ℕ) → write_frame C e ≡ some b → C.decode_envelope b ≡ some e

  -- A list of frames that starts another was decoded and encoded: the envelopes are the same.
  pub agree :
      (good more : List (List ℕ)) (gone es : List GossipEnvelope)
      → All RoundTrips gone
      → map (write_frame C) gone ≡ map some (good ++ more)
      → map C.decode_envelope good ≡ map some es
      → (rest : List GossipEnvelope) × (gone ≡ es ++ rest)
        × (map (write_frame C) rest ≡ map some more)
        × (length es ≡ length good)
  agree [] more gone [] codec went came = (gone, refl, went, refl)
  agree [] more gone (e ∷ es) codec went came = absurd (cc)
  agree (b ∷ good) more gone [] codec went came = absurd (cc)
  agree (b ∷ good) more [] (e ∷ es) codec went came = absurd (cc)
  agree (b ∷ good) more (g ∷ gone) (e ∷ es) codec went came =
      let first : write_frame C g ≡ some b = cc in
      let others : map (write_frame C) gone ≡ map some (good ++ more) = cc in
      let decoded : C.decode_envelope b ≡ some e = cc in
      let later : map C.decode_envelope good ≡ map some es = cc in
      let same : C.decode_envelope b ≡ some g = codec.0 b first in
      let (rest, front, left, count) = agree good more gone es codec.1 others later in
      (rest, cc, left, ap suc count)

  undecodable :
      (b : List ℕ) (more : List (List ℕ)) (gone : List GossipEnvelope)
      → All RoundTrips gone
      → map (write_frame C) gone ≡ map some (b ∷ more)
      → C.decode_envelope b ≡ none
      → ⊥
  undecodable b more [] codec went broken = cc
  undecodable b more (g ∷ gone) codec went broken =
      let first : write_frame C g ≡ some b = cc in
      let same : C.decode_envelope b ≡ some g = codec.0 b first in cc

  -- Both ends of one connection, each running its own loop: what the receiving node is passed are
  -- the first of the envelopes that the sending node gave, each once, in their order, with the
  -- receiver's id of the connection, and there is one for every frame that was read. No more than
  -- 64 wait at the sender. The stream gives the frames in the order of their writing, and each of
  -- the given envelopes that can be encoded is decoded to itself.
  pub delivers :
      (from to : ConnectionId) {u v : Connection} {gave gave' : List GossipEnvelope}
      {frames' frames : List (List ℕ)} (more : List (List ℕ))
      → All RoundTrips gave
      → Run C (open_connection from) gave frames' u
      → Run C (open_connection to) gave' frames v
      → u.written ≡ frames ++ more
      → (es rest : List GossipEnvelope) × (gave ≡ es ++ rest)
        × (length es ≡ length frames)
        × (v.passed ≡ map (λ (e : GossipEnvelope). (e, to)) es)
        × (length u.queue ≤ 64)
  delivers from to {u} {frames = frames} more codec sender receiver stream =
      let s = Run-Sends C from sender in
      let r = Run-Receives C to receiver in
      let (law, unsent) =
        All-split RoundTrips s.gone s.rest (subst (All RoundTrips) s.in_order codec) in
      let starts : (good more' : List (List ℕ))
          → frames ++ more ≡ good ++ more'
          → map (write_frame C) s.gone ≡ map some (good ++ more') =
        λ good more' same. s.encoded ∙ ap (map some) (stream ∙ same) in
      elim r.ended [
        | inl fine ↦
            let all : frames ≡ r.good =
              r.in_order ∙ ap (λ (l : List (List ℕ)). r.good ++ l) fine ∙ append-nil r.good in
            let (left, front, kept, count) =
              agree r.good more s.gone r.read law
                (starts r.good more (ap (λ (l : List (List ℕ)). l ++ more) all)) r.decoded in
            (
              r.read,
              left ++ s.rest,
              s.in_order
                  ∙ ap (λ (l : List GossipEnvelope). l ++ s.rest) front
                  ∙ append_assoc r.read left s.rest,
              count ∙ sym (ap length all),
              r.passed_on,
              s.room,
            )
        | inr (b, last, broken, over) ↦
            let all : frames ++ more ≡ r.good ++ (b ∷ more) =
              ap (λ (l : List (List ℕ)). l ++ more)
                (r.in_order ∙ ap (λ (l : List (List ℕ)). r.good ++ l) last)
              ∙ append_assoc r.good (b ∷ []) more in
            let (left, front, kept, count) =
              agree r.good (b ∷ more) s.gone r.read law (starts r.good (b ∷ more) all) r.decoded in
            let (before, after) =
              All-split RoundTrips r.read left (subst (All RoundTrips) front law) in
            absurd (undecodable b more left after kept broken)
      ]
