-- ===== src/Node.antt =====
-- crates/gossip/src/gossip/mod.rs: the gossip node. What it writes to its channels is kept in two
-- lists, newest first: `delivered` for `subscriber_tx`, `outgoing` for the `outgoing_tx` of the
-- connections, whose answers the code drops. A panic of `.expect` is `none`.
pub mod Peers
pub mod Receive
pub mod Once
pub mod Broadcast
pub mod Interface
pub mod Hops
pub mod Connection
pub mod Neighbour
use mathlib.Core.List.{filter}
use proof_job_zk.Base.{
  ◌≢◌, ℕ, suc, ◌+◌, ◌-◌, ◌%◌, ◌^◌, ◌≡◌, Bool, true, false, String, List, [], ◌∷◌, ◌++◌, Option,
  none, some, Result, ok, err, ite, ltb, length, take, map, replicate, to_le_bytes, if◌then◌else◌,
  ℕ_discrete,
}
use proof_job_zk.Core.Ids.{MessageId, MessageId-discrete, PeerId}
use proof_job_zk.Core.Message.{GossipMessage}
use proof_job_zk.Core.Envelope.{GossipEnvelope, Signing, sign, verify, bind}
use proof_job_zk.Deps.LruCache.{LruCache}

abbrev pub ConnectionId : Type 0
ConnectionId = ℕ

pub record GossipConfig : Type 0 where
  pub fanout : ℕ
  pub max_ttl : ℕ  -- u8
  pub seen_cache_size : ℕ

-- `GossipConfig::new`
unfoldable pub default_config : GossipConfig
default_config = record { fanout = 3; max_ttl = 3; seen_cache_size = 10000 }

-- What the node calls of other crates: ed25519 and bincode, sha2, and the cache of lru.
pub record Crates : Type 1 where
  pub signing : Signing
  pub cache : LruCache MessageId MessageId-discrete
  pub sha256 : List ℕ → List ℕ
  pub encode_message : GossipMessage → Option (List ℕ)
  pub encode_envelope : GossipEnvelope → Option (List ℕ)
  pub decode_envelope : List ℕ → Option GossipEnvelope

-- The clock and the random numbers that one call reads. `shuffle` is the order that
-- `eligible.shuffle(&mut rng)` chooses.
pub record Entropy : Type 0 where
  pub nanos : ℕ
  pub random : List ℕ
  pub shuffle : List ConnectionId → List ConnectionId

unfoldable pub dec_ne : (a b : ℕ) → Dec (a ≢ b)
dec_ne a b = elim (ℕ_discrete a b) [ yes p ↦ no (λ differ. differ p) | no p ↦ yes p ]

module _ (C : Crates) where
  pub record GossipNode : Type 0 where
    pub our_peer_id : PeerId
    pub signing_key : C.signing.SigningKey
    pub config : GossipConfig
    pub connections : List ConnectionId
    pub next_connection_id : ℕ
    pub seen : C.cache.Cache
    pub delivered : List GossipEnvelope
    pub outgoing : List (ConnectionId × GossipEnvelope)

  -- `GossipNode::new` behind the binding of the listener; the cache size is not zero.
  unfoldable pub new : C.signing.SigningKey → GossipConfig → GossipNode
  new signing_key config = record {
    our_peer_id = record { bytes = C.signing.to_bytes (C.signing.verifying_key signing_key) };
    signing_key = signing_key;
    config = config;
    connections = [];
    next_connection_id = 0;
    seen = C.cache.new config.seen_cache_size;
    delivered = [];
    outgoing = [];
  }

  -- `.filter(|(id, _)| Some(**id) != exclude)`
  unfoldable pub eligible : Option ConnectionId → List ConnectionId → List ConnectionId
  eligible none ids = ids
  eligible (some source) ids = filter (λ id. dec_ne id source) ids

  -- The connections that a message goes to.
  unfoldable pub receivers : GossipNode → Entropy → Option ConnectionId → List ConnectionId
  unfolding eligible
  receivers n entropy exclude =
      let ids = eligible exclude n.connections in
      if ltb n.config.fanout (length ids) then take n.config.fanout (entropy.shuffle ids) else ids

  -- `for tx in senders { let _ = tx.send(envelope.clone()).await; }`
  unfoldable pub send_each :
      GossipEnvelope
      → List ConnectionId
      → List (ConnectionId × GossipEnvelope)
      → List (ConnectionId × GossipEnvelope)
  send_each envelope [] outgoing = outgoing
  send_each envelope (id ∷ ids) outgoing = send_each envelope ids ((id, envelope) ∷ outgoing)

  unfoldable pub send_to_peers :
      GossipEnvelope
      → Option ConnectionId
      → Entropy
      → GossipNode
      → Result String (Unit {0}) × GossipNode
  unfolding receivers send_each
  send_to_peers envelope exclude entropy n =
      (ok tt, record n { outgoing = send_each envelope (receivers n entropy exclude) n.outgoing })

  unfoldable pub send :
      GossipEnvelope → Entropy → GossipNode → Result String (Unit {0}) × GossipNode
  unfolding send_to_peers
  send envelope entropy n = send_to_peers envelope none entropy n

  -- The hash of the sender, the message, the time in 16 bytes, and the random bytes.
  unfoldable pub generate_message_id : GossipNode → Entropy → GossipMessage → Option MessageId
  generate_message_id n entropy message = bind (C.encode_message message) (λ msg_bytes.
      some (record {
        bytes = C.sha256 (
            n.our_peer_id.bytes ++ (msg_bytes ++ (to_le_bytes 16 entropy.nanos ++ entropy.random)));
      }))

  unfoldable pub broadcast :
      GossipMessage → Entropy → GossipNode → Option (Result String (Unit {0}) × GossipNode)
  unfolding generate_message_id sign send_to_peers
  broadcast message entropy n = bind (generate_message_id n entropy message) (λ id.
      bind
        (sign C.signing
          (record {
            id = id;
            origin = n.our_peer_id;
            ttl = n.config.max_ttl;
            payload = message;
            signature = replicate 64 0;
          })
          n.signing_key)
        (λ envelope. some (
          send_to_peers envelope none entropy
            (record n { seen = C.cache.put envelope.id n.seen }))))

  -- `if envelope.ttl > 1 { … }`
  unfoldable pub forward : GossipEnvelope → ConnectionId → Entropy → GossipNode → GossipNode
  unfolding send_to_peers
  forward envelope source entropy n =
      if ltb 1 envelope.ttl
      then (send_to_peers (record envelope { ttl = envelope.ttl - 1 }) (some source) entropy n).1
      else n

  -- What is done with an envelope that was not seen before.
  unfoldable pub accept : GossipEnvelope → ConnectionId → Entropy → GossipNode → GossipNode
  unfolding forward
  accept envelope source entropy n =
      forward envelope source entropy
        (record n { seen = C.cache.put envelope.id n.seen; delivered = envelope ∷ n.delivered })

  -- What is done with an envelope whose signature is good.
  unfoldable pub deduplicate : GossipEnvelope → ConnectionId → Entropy → GossipNode → GossipNode
  unfolding accept
  deduplicate envelope source entropy n =
      let (known, seen) = C.cache.get envelope.id n.seen in
      if known
      then record n { seen = seen }
      else accept envelope source entropy (record n { seen = seen })

  unfoldable pub process_incoming :
      GossipEnvelope → ConnectionId → Entropy → GossipNode → Option GossipNode
  unfolding verify deduplicate
  process_incoming envelope source entropy n =
      bind (verify C.signing envelope)
        (λ valid. some (if valid then deduplicate envelope source entropy n else n))

  -- `spawn_connection`: a new identifier and its handle; a u64 counter wraps.
  unfoldable pub spawn_connection : GossipNode → GossipNode
  spawn_connection n = record n {
    connections = n.next_connection_id ∷ n.connections;
    next_connection_id = (n.next_connection_id + 1) % 2 ^ 64;
  }

  -- `connect`, with the answer of `TcpStream::connect`
  unfoldable pub connect :
      Result String (Unit {0}) → GossipNode → Result String (Unit {0}) × GossipNode
  unfolding spawn_connection
  connect (err e) n = (err e, n)
  connect (ok stream) n = (ok tt, spawn_connection n)

  -- The two arms of a connection's loop: a frame that came, and an envelope to be sent. `none` ends
  -- the loop.
  unfoldable pub read_frame : ConnectionId → List ℕ → Option (GossipEnvelope × ConnectionId)
  read_frame conn_id bytes = bind (C.decode_envelope bytes) (λ envelope. some (envelope, conn_id))

  unfoldable pub write_frame : GossipEnvelope → Option (List ℕ)
  write_frame envelope = C.encode_envelope envelope

  -- What `run` selects: a connection that was accepted, a failure to accept one, which ends the loop
  -- with that error, or an envelope of a connection. A second call of `run`, which panics, is not
  -- modelled, nor are calls of `broadcast` and `connect` by other tasks between two of these.
  pub data Incoming : Type 0 where
    accepted : Incoming
    not_accepted : String → Incoming
    received : GossipEnvelope → ConnectionId → Entropy → Incoming

  unfoldable pub run : List Incoming → GossipNode → Option GossipNode
  unfolding spawn_connection process_incoming
  run [] n = some n
  run (accepted ∷ events) n = run events (spawn_connection n)
  run (not_accepted e ∷ events) n = some n
  run (received envelope source entropy ∷ events) n =
      bind (process_incoming envelope source entropy n) (λ n'. run events n')
