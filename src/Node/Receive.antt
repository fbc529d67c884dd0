-- ===== src/Node/Receive.antt =====
-- What a node does with an envelope: `process_incoming` of crates/gossip/src/gossip/mod.rs.
use proof_job_zk.Base.{◌-◌, ◌≡◌, Bool, ◌&&◌, not, List, ◌∷◌, some, arith, ltb, take, if◌then◌else◌}
use proof_job_zk.Core.Ids.{MessageId, MessageId-discrete}
use proof_job_zk.Core.Envelope.{GossipEnvelope, SigningLaws, verify}
use proof_job_zk.Core.Envelope.Laws.{verify_total}
use proof_job_zk.Deps.LruCache.{contains, remove}
use proof_job_zk.Node.{
  Crates, Entropy, GossipNode, ConnectionId, receivers, send_each, deduplicate, process_incoming,
}

module _ (C : Crates) where
  abbrev pub seen_ids : GossipNode C → List MessageId
  seen_ids n = C.cache.contents n.seen

  abbrev pub is_new : GossipEnvelope → GossipNode C → Bool
  is_new e n = not (contains MessageId-discrete e.id (seen_ids n))

  -- The channels after an envelope that is passed on.
  unfoldable pub passed_on :
      GossipEnvelope → ConnectionId → Entropy → GossipNode C → List (ConnectionId × GossipEnvelope)
  passed_on e source entropy n =
      if ltb 1 e.ttl
      then send_each C (record e { ttl = e.ttl - 1 }) (receivers C n entropy (some source))
          n.outgoing
      else n.outgoing

  pub deduplicate_lem :
      (e : GossipEnvelope) (source : ConnectionId) (entropy : Entropy) (n : GossipNode C)
      → let n' = deduplicate C e source entropy n in
        (n'.delivered ≡ (if is_new e n then e ∷ n.delivered else n.delivered))
        × (n'.outgoing ≡ (if is_new e n then passed_on e source entropy n else n.outgoing))
        × (seen_ids n' ≡ (
            if is_new e n
            then take (C.cache.cap n.seen) (e.id ∷ remove MessageId-discrete e.id (seen_ids n))
            else e.id ∷ remove MessageId-discrete e.id (seen_ids n)))
        × (C.cache.cap n'.seen ≡ C.cache.cap n.seen)
  unfolding deduplicate passed_on receivers
  deduplicate_lem e source entropy n = ground (
    arith,
    C.cache.get_lem e.id n.seen,
    C.cache.contents-get e.id n.seen,
    C.cache.cap-get e.id n.seen,
    C.cache.contents-put e.id (C.cache.get e.id n.seen).1,
    C.cache.cap-put e.id (C.cache.get e.id n.seen).1,
  )

  -- Under the laws of the signing crates, an envelope never makes the node panic. If its signature
  -- is good and its identifier is not among those seen, it is delivered once, and passed on with
  -- its `ttl` lowered by one if that is more than 1; otherwise nothing is delivered and nothing is
  -- sent.
  pub process_incoming_lem :
      (e : GossipEnvelope) (source : ConnectionId) (entropy : Entropy) (n : GossipNode C)
      → SigningLaws C.signing
      → (n' : GossipNode C) × (valid : Bool) × (process_incoming C e source entropy n ≡ some n')
        × (verify C.signing e ≡ some valid)
        × (n'.delivered ≡ (if valid && is_new e n then e ∷ n.delivered else n.delivered))
        × (n'.outgoing ≡ (if valid && is_new e n then passed_on e source entropy n else n.outgoing))
  unfolding process_incoming
  process_incoming_lem e source entropy n laws =
      let (valid, v, _) = verify_total C.signing laws e in
      let (d, o, _, _) = deduplicate_lem e source entropy n in
      (
        (if valid then deduplicate C e source entropy n else n),
        valid,
        rw v,
        v,
        ground (arith, d),
        ground (arith, o),
      )
