-- ===== src/Node/Broadcast.antt =====
-- A node's own messages: `broadcast` of crates/gossip/src/gossip/mod.rs.
use proof_job_zk.Base.{
  ◌≡◌, refl, ap, List, ◌∷◌, ok, some, ℕ, take, true, none, ◌++◌, replicate, to_le_bytes,
}
use proof_job_zk.Core.Ids.{MessageId-discrete}
use proof_job_zk.Core.Message.{GossipMessage}
use proof_job_zk.Core.Envelope.{GossipEnvelope, SigningLaws, sign, verify}
use proof_job_zk.Core.Envelope.Laws.{verify-sign}
use proof_job_zk.Deps.LruCache.{remove}
use proof_job_zk.Node.{
  Crates, Entropy, GossipNode, receivers, send_each, generate_message_id, broadcast,
}
use proof_job_zk.Node.Receive.{seen_ids}

module _ (C : Crates) where
  -- The node's identifier is its public key, as `GossipNode::new` makes it.
  abbrev pub IsKeyed : GossipNode C → Type 0
  IsKeyed n = n.our_peer_id.bytes ≡ C.signing.to_bytes (C.signing.verifying_key n.signing_key)

  -- Every message encodes.
  abbrev pub Encodes : Type 0
  Encodes = (m : GossipMessage) → (bytes : List ℕ) × (C.encode_message m ≡ some bytes)

  -- What a broadcast leaves: the node, and the envelope that was made.
  pub record Broadcasts (m : GossipMessage) (entropy : Entropy) (n n' : GossipNode C)
      (e : GossipEnvelope) : Type 0 where
    pub carries : e.payload ≡ m
    pub hops : e.ttl ≡ n.config.max_ttl
    pub by_node : e.origin ≡ n.our_peer_id
    pub genuine : verify C.signing e ≡ some true
    pub out : n'.outgoing ≡ send_each C e (receivers C n entropy none) n.outgoing
    pub quiet : n'.delivered ≡ n.delivered
    pub remembered :
        seen_ids C n'
        ≡ take (C.cache.cap n.seen) (e.id ∷ remove MessageId-discrete e.id (seen_ids C n))
    pub still_keyed : IsKeyed n'

  -- Under the laws of the signing crates, where every message encodes and the node's identifier is
  -- its public key, a broadcast neither panics nor fails: it sends an envelope of the message that
  -- verifies and has `max_ttl` to the chosen connections, remembers its identifier, and delivers
  -- nothing to the node itself.
  pub broadcast_lem :
      (laws : SigningLaws C.signing) (encodes : Encodes) (m : GossipMessage) (entropy : Entropy)
      (n : GossipNode C)
      → IsKeyed n
      → (n' : GossipNode C) × (e : GossipEnvelope) × (broadcast C m entropy n ≡ some (ok tt, n'))
        × Broadcasts m entropy n n' e
  unfolding broadcast generate_message_id receivers sign
  broadcast_lem laws encodes m entropy n keyed =
      let (bytes, encoded) = encodes m in
      let draft : GossipEnvelope = record {
        id = record {
          bytes =
              C.sha256 (
                n.our_peer_id.bytes ++ (bytes ++ (to_le_bytes 16 entropy.nanos ++ entropy.random)));
        };
        origin = n.our_peer_id;
        ttl = n.config.max_ttl;
        payload = m;
        signature = replicate 64 0;
      } in
      let (e, signs, kept, good) = verify-sign C.signing laws draft n.signing_key keyed in
      let n' : GossipNode C = record n {
        seen = C.cache.put e.id n.seen;
        outgoing = send_each C e (receivers C n entropy none) n.outgoing;
      } in
      (
        n',
        e,
        rw encoded (rw signs refl),
        record {
          carries = ap (λ (x : GossipEnvelope). x.payload) kept;
          hops = ap (λ (x : GossipEnvelope). x.ttl) kept;
          by_node = ap (λ (x : GossipEnvelope). x.origin) kept;
          genuine = good e.ttl;
          out = refl;
          quiet = refl;
          remembered = C.cache.contents-put e.id n.seen;
          still_keyed = keyed;
        },
      )
