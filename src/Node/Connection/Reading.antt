-- ===== src/Node/Connection/Reading.antt =====
-- What the loop of a connection makes of the frames that it reads
-- (crates/gossip/src/gossip/mod.rs).
use mathlib.Core.List.{append-nil}
use proof_job_zk.Base.{
  ℕ, ◌≡◌, refl, sym, ap, ◌∙◌, Bool, true, false, List, [], ◌∷◌, ◌++◌, Option, none, some, map,
  arith, ◌⊎◌, inl, inr, Option-cases,
}
use proof_job_zk.Core.Envelope.{GossipEnvelope}
use proof_job_zk.Node.{Crates, ConnectionId, read_frame}
use proof_job_zk.Node.Connection.{
  Connection, open_connection, on_frame, on_outgoing, enqueue, take_outgoing, send_frame, Step,
  framed, closed, wrote, given, refused, Run, here, next, reads,
}
use proof_job_zk.Node.Connection.Wire.{map-snoc}

module _ (C : Crates) where
  abbrev tagged : ConnectionId → List GossipEnvelope → List (GossipEnvelope × ConnectionId)
  tagged id es = map (λ (e : GossipEnvelope). (e, id)) es

  -- What ended the loop on the reading side, if it was a frame.
  abbrev Bad : List (List ℕ) → Connection → Type 0
  Bad bad u =
      (bad ≡ [])
      ⊎ ((b : List ℕ) × (bad ≡ b ∷ []) × (C.decode_envelope b ≡ none) × (u.alive ≡ false))

  -- Every frame that was read was decoded and passed on, in order, but for one at the end.
  pub record Receives (id : ConnectionId) (frames : List (List ℕ)) (u : Connection) : Type 0 where
    pub good : List (List ℕ)
    pub bad : List (List ℕ)
    pub read : List GossipEnvelope
    pub in_order : frames ≡ good ++ bad
    pub decoded : map C.decode_envelope good ≡ map some read
    pub passed_on : u.passed ≡ tagged id read
    pub same_id : u.id ≡ id
    pub ended : Bad bad u

  -- A step that reads nothing.
  Receives-kept :
      (id : ConnectionId) (frames : List (List ℕ)) (t u : Connection)
      → u.passed ≡ t.passed
      → u.id ≡ t.id
      → (t.alive ≡ false → u.alive ≡ false)
      → Receives id frames t
      → Receives id frames u
  Receives-kept id frames t u passed named dead r = record {
    good = r.good;
    bad = r.bad;
    read = r.read;
    in_order = r.in_order;
    decoded = r.decoded;
    passed_on = passed ∙ r.passed_on;
    same_id = named ∙ r.same_id;
    ended = elim r.ended [
      | inl fine ↦ inl fine
      | inr (b, last, broken, over) ↦ inr (b, last, broken, dead over)
    ];
  }

  Receives-frame :
      (id : ConnectionId) (frames : List (List ℕ)) (bytes : List ℕ) (t : Connection)
      → t.alive ≡ true
      → Receives id frames t
      → Receives id (frames ++ (bytes ∷ [])) (on_frame C bytes t)
  unfolding on_frame read_frame
  Receives-frame id frames bytes t live r = elim r.ended [
    | inr (b, last, broken, over) ↦ absurd (ground arith)
    | inl fine ↦
        let so_far : frames ≡ r.good =
          r.in_order ∙ ap (λ (l : List (List ℕ)). r.good ++ l) fine ∙ append-nil r.good in
        elim (Option-cases (C.decode_envelope bytes)) [
          | inl broken ↦
              rw (on_frame, broken)
                (record {
                  good = r.good;
                  bad = bytes ∷ [];
                  read = r.read;
                  in_order = ap (λ (l : List (List ℕ)). l ++ (bytes ∷ [])) so_far;
                  decoded = r.decoded;
                  passed_on = r.passed_on;
                  same_id = r.same_id;
                  ended = inr (bytes, refl, broken, refl);
                })
          | inr (e, fits) ↦
              rw (on_frame, fits)
                (record {
                  good = r.good ++ (bytes ∷ []);
                  bad = [];
                  read = r.read ++ (e ∷ []);
                  in_order =
                      ap (λ (l : List (List ℕ)). l ++ (bytes ∷ [])) so_far
                      ∙ sym (append-nil (r.good ++ (bytes ∷ [])));
                  decoded =
                      map-snoc C.decode_envelope r.good bytes
                      ∙ ap
                          (λ (l : List (Option GossipEnvelope)).
                            l ++ (C.decode_envelope bytes ∷ []))
                          r.decoded
                      ∙ ap (λ (o : Option GossipEnvelope). map some r.read ++ (o ∷ [])) fits
                      ∙ sym (map-snoc some r.read e);
                  passed_on =
                      ap (λ (l : List (GossipEnvelope × ConnectionId)). l ++ ((e, t.id) ∷ []))
                        r.passed_on
                      ∙ ap (λ (k : ConnectionId). tagged id r.read ++ ((e, k) ∷ [])) r.same_id
                      ∙ sym (map-snoc (λ (x : GossipEnvelope). (x, id)) r.read e);
                  same_id = r.same_id;
                  ended = inl refl;
                })
        ]
  ]

  taken-kept :
      (sent : Bool) (queue : List GossipEnvelope) (t : Connection)
      → let u = take_outgoing C sent queue t in
        (u.passed ≡ t.passed) × (u.id ≡ t.id) × (t.alive ≡ false → u.alive ≡ false)
  unfolding take_outgoing send_frame
  taken-kept sent [] t = (refl, refl, λ dead. dead)
  taken-kept sent (e ∷ queue) t = (ground arith, ground arith, λ dead. ground arith)

  Step-Receives :
      {t u : Connection} (id : ConnectionId) (frames : List (List ℕ)) (st : Step C t u)
      → Receives id frames t
      → Receives id (frames ++ reads C st) u
  unfolding on_outgoing enqueue
  Step-Receives {t} id frames (framed bytes live made) r =
      rw made (Receives-frame id frames bytes t live r)
  Step-Receives {t} id frames (closed live made) r =
      rw (made, append-nil frames) (Receives-kept id frames t _ refl refl (λ dead. refl) r)
  Step-Receives {t} id frames (wrote sent live made) r =
      let (passed, named, over) = taken-kept sent t.queue t in
      rw (made, append-nil frames) (Receives-kept id frames t _ passed named over r)
  Step-Receives {t} id frames (given e live space made) r =
      rw (made, append-nil frames) (Receives-kept id frames t _ refl refl (λ dead. dead) r)
  Step-Receives {t} id frames (refused e dead made) r = rw (made, append-nil frames) r

  pub Run-Receives :
      (id : ConnectionId) {u : Connection} {gave : List GossipEnvelope} {frames : List (List ℕ)}
      → Run C (open_connection id) gave frames u
      → Receives id frames u
  unfolding open_connection
  Run-Receives id here = record {
    good = [];
    bad = [];
    read = [];
    in_order = refl;
    decoded = refl;
    passed_on = refl;
    same_id = refl;
    ended = inl refl;
  }
  Run-Receives id (next {frames = frames} r st more got) =
      rw got (Step-Receives id frames st (Run-Receives id r))
