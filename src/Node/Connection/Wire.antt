-- ===== src/Node/Connection/Wire.antt =====
-- What one connection task carries from a node to the node at its other end
-- (crates/gossip/src/gossip/mod.rs).
use mathlib.Core.List.{append_assoc, append-nil}
use proof_job_zk.Base.{
  ℕ, ◌<◌, ◌≤◌, ◌≡◌, refl, sym, ap, ◌∙◌, Bool, true, List, [], ◌∷◌, ◌++◌, Option, some, length,
  length-append, map, arith, inl, inr, Option-cases, Bool-cases,
}
use proof_job_zk.Core.Envelope.{GossipEnvelope}
use proof_job_zk.Node.{Crates, ConnectionId, write_frame}
use proof_job_zk.Node.Connection.{
  Connection, open_connection, on_frame, on_outgoing, enqueue, take_outgoing, send_frame, Step,
  framed, closed, wrote, given, refused, Run, here, next, takes,
}

pub map-snoc :
    {A B : Type 0} (f : A → B) (l : List A) (x : A) → map f (l ++ (x ∷ [])) ≡ map f l ++ (f x ∷ [])
map-snoc f [] x = refl
map-snoc f (y ∷ l) x = ap (λ (r : List _). f y ∷ r) (map-snoc f l x)

module _ (C : Crates) where
  -- What was written are the encodings of the first envelopes that were given, in their order.
  pub record Sends (gave : List GossipEnvelope) (u : Connection) : Type 0 where
    pub gone : List GossipEnvelope
    pub rest : List GossipEnvelope
    pub in_order : gave ≡ gone ++ rest
    pub encoded : map (write_frame C) gone ≡ map some u.written
    pub waiting : u.alive ≡ true → rest ≡ u.queue
    pub room : length u.queue ≤ 64

  Sends-open : (id : ConnectionId) → Sends [] (open_connection id)
  unfolding open_connection
  Sends-open id = record {
    gone = [];
    rest = [];
    in_order = refl;
    encoded = refl;
    waiting = λ live. refl;
    room = omega arith;
  }

  -- A step that leaves the queue and what was written.
  Sends-kept :
      (gave : List GossipEnvelope) (t u : Connection)
      → u.queue ≡ t.queue
      → u.written ≡ t.written
      → (u.alive ≡ true → t.alive ≡ true)
      → Sends gave t
      → Sends gave u
  Sends-kept gave t u queue written alive s = record {
    gone = s.gone;
    rest = s.rest;
    in_order = s.in_order;
    encoded = s.encoded ∙ ap (map some) (sym written);
    waiting = λ live. s.waiting (alive live) ∙ sym queue;
    room = omega (arith, s.room, ap length queue);
  }

  -- The loop takes the next envelope.
  Sends-taken :
      (gave : List GossipEnvelope) (sent : Bool) (t : Connection) (queue : List GossipEnvelope)
      → t.queue ≡ queue
      → t.alive ≡ true
      → Sends gave t
      → Sends gave (take_outgoing C sent queue t)
  unfolding take_outgoing send_frame
  Sends-taken gave sent t [] there live s = s
  Sends-taken gave sent t (e ∷ queue) there live s =
      let rest : s.rest ≡ e ∷ queue = s.waiting live ∙ there in
      let fewer : length queue ≤ 64 = omega (arith, s.room, ap length there) in
      elim (Option-cases (write_frame C e)) [
        | inl bad ↦ rw bad (record {
          gone = s.gone;
          rest = s.rest;
          in_order = s.in_order;
          encoded = s.encoded;
          waiting = λ still. absurd (cc);
          room = fewer;
        })
        | inr (bytes, good) ↦ elim (Bool-cases sent) [
          | inr failed ↦
              rw (good, failed)
                (record {
                  gone = s.gone;
                  rest = s.rest;
                  in_order = s.in_order;
                  encoded = s.encoded;
                  waiting = λ still. absurd (cc);
                  room = fewer;
                })
          | inl done ↦
              rw (good, done)
                (record {
                  gone = s.gone ++ (e ∷ []);
                  rest = queue;
                  in_order =
                      s.in_order
                      ∙ ap (λ (l : List GossipEnvelope). s.gone ++ l) rest
                      ∙ sym (append_assoc s.gone (e ∷ []) queue);
                  encoded =
                      map-snoc (write_frame C) s.gone e
                      ∙ ap (λ (l : List (Option (List ℕ))). l ++ (write_frame C e ∷ [])) s.encoded
                      ∙ ap (λ (o : Option (List ℕ)). map some t.written ++ (o ∷ [])) good
                      ∙ sym (map-snoc some t.written bytes);
                  waiting = λ still. refl;
                  room = fewer;
                })
        ]
      ]

  Sends-given :
      (gave : List GossipEnvelope) (e : GossipEnvelope) (t : Connection)
      → t.alive ≡ true
      → length t.queue < 64
      → Sends gave t
      → Sends (gave ++ (e ∷ [])) (enqueue C e t)
  unfolding enqueue
  Sends-given gave e t live space s = record {
    gone = s.gone;
    rest = s.rest ++ (e ∷ []);
    in_order =
        ap (λ (l : List GossipEnvelope). l ++ (e ∷ [])) s.in_order
        ∙ append_assoc s.gone s.rest (e ∷ []);
    encoded = s.encoded;
    waiting = λ still. ap (λ (l : List GossipEnvelope). l ++ (e ∷ [])) (s.waiting live);
    room = omega (arith, space, length-append t.queue (e ∷ []));
  }

  on_frame-kept :
      (bytes : List ℕ) (t : Connection)
      → ((on_frame C bytes t).queue ≡ t.queue) × ((on_frame C bytes t).written ≡ t.written)
  unfolding on_frame
  on_frame-kept bytes t = ground arith

  Step-Sends :
      {t u : Connection} (gave : List GossipEnvelope) (st : Step C t u)
      → Sends gave t
      → Sends (gave ++ takes C st) u
  unfolding on_outgoing
  Step-Sends {t} gave (framed bytes live made) s =
      let (queue, written) = on_frame-kept bytes t in
      rw (made, append-nil gave)
        (Sends-kept gave t (on_frame C bytes t) queue written (λ still. live) s)
  Step-Sends {t} gave (closed live made) s =
      rw (made, append-nil gave) (Sends-kept gave t _ refl refl (λ still. absurd (cc)) s)
  Step-Sends {t} gave (wrote sent live made) s =
      rw (made, append-nil gave) (Sends-taken gave sent t t.queue refl live s)
  Step-Sends {t} gave (given e live space made) s = rw made (Sends-given gave e t live space s)
  Step-Sends {t} gave (refused e dead made) s = rw (made, append-nil gave) s

  pub Run-Sends :
      (id : ConnectionId) {u : Connection} {gave : List GossipEnvelope} {frames : List (List ℕ)}
      → Run C (open_connection id) gave frames u
      → Sends gave u
  Run-Sends id here = Sends-open id
  Run-Sends id (next {gave = gave} r st more got) = rw more (Step-Sends gave st (Run-Sends id r))
