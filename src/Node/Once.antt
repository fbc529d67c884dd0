-- ===== src/Node/Once.antt =====
-- Deduplication over a whole run of the loop in crates/gossip/src/gossip/mod.rs.
use proof_job_zk.Base.{
  ℕ, suc, ◌+◌, ◌≤◌, ◌≡◌, ◌≢◌, refl, ap, Bool, true, false, List, [], ◌∷◌, some, arith, All, length,
  take_whole, Bool-cases, inl, inr,
}
use proof_job_zk.Core.Ids.{MessageId, MessageId-discrete}
use proof_job_zk.Core.Envelope.{GossipEnvelope, SigningLaws}
use proof_job_zk.Core.Envelope.Laws.{verify_total}
use proof_job_zk.Deps.LruCache.{contains, remove}
use proof_job_zk.Node.{
  Crates, Entropy, GossipNode, GossipConfig, ConnectionId, Incoming, deduplicate, process_incoming,
  run, new, spawn_connection, accepted, not_accepted, received,
}
use proof_job_zk.Node.Receive.{seen_ids, deduplicate_lem}

abbrev known_in : MessageId → List MessageId → Bool
known_in = contains MessageId-discrete

abbrev touched : MessageId → List MessageId → List MessageId
touched k ids = k ∷ remove MessageId-discrete k ids

contains-remove :
    (j k : MessageId) (ids : List MessageId)
    → known_in j ids ≡ true
    → j ≢ k
    → known_in j (remove MessageId-discrete k ids) ≡ true
contains-remove j k [] h differ = h
contains-remove j k (x ∷ ids) h differ = ground (arith, contains-remove j k ids)

contains-touched :
    (j k : MessageId) (ids : List MessageId)
    → known_in j ids ≡ true
    → known_in j (touched k ids) ≡ true
contains-touched j k ids h = ground (arith, contains-remove j k ids h)

length-remove-le :
    (k : MessageId) (ids : List MessageId) → length (remove MessageId-discrete k ids) ≤ length ids
length-remove-le k [] = omega arith
length-remove-le k (x ∷ ids) = ground (arith, length-remove-le k ids)

-- No two envelopes of the list have one identifier.
abbrev pub Distinct : List GossipEnvelope → Type 0
Distinct [] = Unit
Distinct (e ∷ es) = All (λ (x : GossipEnvelope). x.id ≢ e.id) es × Distinct es

abbrev AllKnown : List MessageId → List GossipEnvelope → Type 0
AllKnown ids = All (λ (e : GossipEnvelope). known_in e.id ids ≡ true)

AllKnown-touched :
    (k : MessageId) (ids : List MessageId) (es : List GossipEnvelope)
    → AllKnown ids es
    → AllKnown (touched k ids) es
AllKnown-touched k ids [] h = tt
AllKnown-touched k ids (e ∷ es) h = (contains-touched e.id k ids h.0, AllKnown-touched k ids es h.1)

AllKnown-along :
    {ids ids' : List MessageId} {es es' : List GossipEnvelope}
    → ids ≡ ids'
    → es ≡ es'
    → AllKnown ids' es'
    → AllKnown ids es
AllKnown-along p q h = rw (p, q) h

-- A new identifier differs from all that are known.
AllKnown-ne :
    (k : MessageId) (ids : List MessageId) (es : List GossipEnvelope)
    → known_in k ids ≡ false
    → AllKnown ids es
    → All (λ (x : GossipEnvelope). x.id ≢ k) es
AllKnown-ne k ids [] new_ h = tt
AllKnown-ne k ids (e ∷ es) new_ h = ((λ same. ground (arith, h.0)), AllKnown-ne k ids es new_ h.1)

module _ (C : Crates) where
  -- What has been delivered is distinct and still in the cache, which has room for `budget` more.
  pub record Remembers (budget : ℕ) (n : GossipNode C) : Type 0 where
    pub distinct : Distinct n.delivered
    pub known : AllKnown (seen_ids C n) n.delivered
    pub room : length (seen_ids C n) + budget ≤ C.cache.cap n.seen

  module _ (budget : ℕ) (e : GossipEnvelope) (source : ConnectionId) (entropy : Entropy)
      (n : GossipNode C) (r : Remembers (suc budget) n) where
    abbrev ids : List MessageId
    ids = seen_ids C n

    deduplicate-seen : seen_ids C (deduplicate C e source entropy n) ≡ touched e.id ids
    deduplicate-seen =
        let (_, _, seen, _) = deduplicate_lem C e source entropy n in
        ground (
          arith,
          seen,
          r.room,
          length-remove-le e.id ids,
          take_whole (touched e.id ids) (C.cache.cap n.seen),
        )

    deduplicate-room :
        length (seen_ids C (deduplicate C e source entropy n)) + budget
        ≤ C.cache.cap (deduplicate C e source entropy n).seen
    deduplicate-room =
        let (_, _, _, cap) = deduplicate_lem C e source entropy n in
        omega (arith, ap length deduplicate-seen, cap, r.room, length-remove-le e.id ids)

    deduplicate-Remembers : Remembers budget (deduplicate C e source entropy n)
    deduplicate-Remembers =
        let (d, _, _, _) = deduplicate_lem C e source entropy n in
        elim (Bool-cases (known_in e.id ids)) [
          | inl old ↦
              let same : (deduplicate C e source entropy n).delivered ≡ n.delivered =
                ground (arith, d) in
              record {
                distinct = rw same r.distinct;
                known =
                    AllKnown-along deduplicate-seen same
                      (AllKnown-touched e.id ids n.delivered r.known);
                room = deduplicate-room;
              }
          | inr fresh ↦
              let more : (deduplicate C e source entropy n).delivered ≡ e ∷ n.delivered =
                ground (arith, d) in
              record {
                distinct = rw more (AllKnown-ne e.id ids n.delivered fresh r.known, r.distinct);
                known =
                    AllKnown-along deduplicate-seen more
                      (ground arith, AllKnown-touched e.id ids n.delivered r.known);
                room = deduplicate-room;
              }
        ]

  -- To have room for more is to have room for less.
  Remembers-less :
      (more less : ℕ) (n : GossipNode C) → less ≤ more → Remembers more n → Remembers less n
  Remembers-less more less n h r = record {
    distinct = r.distinct;
    known = r.known;
    room = omega arith;
  }

  spawn_connection-Remembers :
      (budget : ℕ) (n : GossipNode C) → Remembers budget n → Remembers budget (spawn_connection C n)
  unfolding spawn_connection
  spawn_connection-Remembers budget n r = record {
    distinct = r.distinct;
    known = r.known;
    room = r.room;
  }

  new-Remembers :
      (key : C.signing.SigningKey) (config : GossipConfig) (budget : ℕ)
      → budget ≤ config.seen_cache_size
      → Remembers budget (new C key config)
  unfolding new
  new-Remembers key config budget h = record {
    distinct = tt;
    known = tt;
    room = omega (
      arith,
      ap length (C.cache.contents-new config.seen_cache_size),
      C.cache.cap-new config.seen_cache_size,
    );
  }

  -- From a node that remembers, any run of the loop of no more events than the cache has room for
  -- ends, and leaves the delivered envelopes distinct.
  run-Remembers :
      (laws : SigningLaws C.signing) (events : List (Incoming C)) (budget : ℕ) (n : GossipNode C)
      → Remembers (length events + budget) n
      → (n' : GossipNode C) × (run C events n ≡ some n') × Remembers budget n'
  unfolding run process_incoming
  run-Remembers laws [] budget n r = (n, refl, Remembers-less _ budget n (omega arith) r)
  run-Remembers laws (accepted ∷ events) budget n r =
      run-Remembers laws events budget (spawn_connection C n) (
        spawn_connection-Remembers _ n
          (Remembers-less _ (length events + budget) n (omega arith) r))
  run-Remembers laws (not_accepted e ∷ events) budget n r =
      (n, refl, Remembers-less _ budget n (omega arith) r)
  run-Remembers laws (received e source entropy ∷ events) budget n r =
      let (valid, v, _) = verify_total C.signing laws e in
      elim (Bool-cases valid) [
        | inl good ↦
            rw (v, good)
              (run-Remembers laws events budget (deduplicate C e source entropy n) (
                deduplicate-Remembers _ e source entropy n
                  (Remembers-less _ (suc (length events + budget)) n (omega arith) r)))
        | inr bad ↦
            rw (v, bad)
              (run-Remembers laws events budget n
                (Remembers-less _ (length events + budget) n (omega arith) r))
      ]

  -- Under the laws of the signing crates, from a new node whose cache holds as many identifiers as
  -- there are events: whatever they are, the loop never panics, and no two envelopes that it
  -- delivers have one identifier.
  pub run_new-Distinct :
      (laws : SigningLaws C.signing) (key : C.signing.SigningKey) (config : GossipConfig)
      (events : List (Incoming C))
      → length events ≤ config.seen_cache_size
      → (n : GossipNode C) × (run C events (new C key config) ≡ some n) × Distinct n.delivered
  run_new-Distinct laws key config events h =
      let (n, ran, r) =
        run-Remembers laws events 0 (new C key config) (new-Remembers key config _ (omega arith)) in
      (n, ran, r.distinct)
