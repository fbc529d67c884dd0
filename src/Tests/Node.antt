-- ===== src/Tests/Node.antt =====
-- A gossip node at concrete inputs, and the laws of the external components at toys.
use mathlib.Core.List.{Mem}
use mathlib.Core.List.Perm
use mathlib.Core.List.Memᴰ
use proof_job_zk.Base.{
  ℕ_discrete, ℕ, ◌<◌, ◌-◌, ◌≤◌, ◌≡◌, ◌≢◌, refl, Bool, true, false, List, [], ◌∷◌, none, some, ok,
  All, take, length, arith, ◌&&◌, if◌then◌else◌,
}
use proof_job_zk.Core.Ids.{MessageId, MessageId-discrete}
use proof_job_zk.Core.Message.{claim_job}
use proof_job_zk.Core.Envelope.{GossipEnvelope, Signing, SigningLaws, sign, verify}
use proof_job_zk.Core.Envelope.Laws.{verify-sign}
use proof_job_zk.Deps.LruCache.{LruCache, contains, remove}
use proof_job_zk.Node.{
  Crates, Entropy, GossipNode, GossipConfig, ConnectionId, Incoming, accepted, received, receivers,
  process_incoming, new, run, dec_ne, broadcast,
}
use proof_job_zk.Node.Broadcast.{Broadcasts, broadcast_lem}
use proof_job_zk.Node.Hops.{Journey, hop, start, onward, Journey-ttl}
use proof_job_zk.Node.Once.{Distinct, run_new-Distinct}
use proof_job_zk.Node.Peers.{receivers_bounds}
use proof_job_zk.Node.Receive.{is_new, passed_on, process_incoming_lem}
use proof_job_zk.Tests.Runtime.{claim_by, job_one, worker_a, worker_b}

abbrev is_signed : List ℕ → Bool
is_signed [] = false
is_signed (b ∷ signature) = true

-- Every text signs and verifies to its key; no more is asked of a signature here.
abbrev toy_signing : Signing
toy_signing = record {
  SigningKey = ℕ;
  VerifyingKey = List ℕ;
  verifying_key = λ k. k ∷ [];
  to_bytes = λ v. v;
  from_bytes = λ bytes. some bytes;
  sign_bytes = λ k m. k ∷ [];
  verify_bytes = λ v m signature. is_signed signature;
  encode_to_vec = λ t. some [];
}

pub toy_signing_laws : SigningLaws toy_signing
toy_signing_laws = record {
  from_bytes-to_bytes = λ v. refl;
  verify-sign = λ k m. refl;
  encode_total = λ t. ([], refl);
}

pub record Recent : Type 0 where
  pub cap : ℕ
  pub keys : List MessageId

-- The cache as its contents.
abbrev pub recent : LruCache MessageId MessageId-discrete
recent = record {
  Cache = Recent;
  new = λ n. record { cap = n; keys = [] };
  cap = λ c. c.cap;
  contents = λ c. c.keys;
  get = λ k c. (
    contains MessageId-discrete k c.keys,
    record c {
      keys =
          if contains MessageId-discrete k c.keys
          then k ∷ remove MessageId-discrete k c.keys
          else c.keys;
    },
  );
  put = λ k c. record c { keys = take c.cap (k ∷ remove MessageId-discrete k c.keys) };
  contents-new = λ n. refl;
  cap-new = λ n. refl;
  get_lem = λ k c. refl;
  contents-get = λ k c. refl;
  cap-get = λ k c. refl;
  contents-put = λ k c. refl;
  cap-put = λ k c. refl;
}

abbrev pub crates : Crates
crates = record {
  signing = toy_signing;
  cache = recent;
  sha256 = λ bytes. bytes;
  encode_message = λ m. some [];
  encode_envelope = λ e. some [];
  decode_envelope = λ bytes. none;
}

abbrev pub entropy : Entropy
entropy = record { nanos = 1; random = 2 ∷ []; shuffle = λ ids. ids }

abbrev pub small : GossipConfig
small = record { fanout = 1; max_ttl = 3; seen_cache_size = 5 }

-- Three connections, and room for one receiver.
abbrev node : GossipNode crates
node = record {
  our_peer_id = worker_a;
  signing_key = 10;
  config = small;
  connections = 2 ∷ 1 ∷ 0 ∷ [];
  next_connection_id = 3;
  seen = record { cap = 5; keys = [] };
  delivered = [];
  outgoing = [];
}

abbrev pub signed_claim : GossipEnvelope
signed_claim = record (claim_by worker_b) { signature = 11 ∷ [] }

-- The same envelope over two connections, and one without a signature.
abbrev traffic : List (Incoming crates)
traffic =
    accepted
    ∷ received signed_claim 0 entropy
    ∷ received signed_claim 1 entropy
    ∷ received (claim_by worker_a) 0 entropy
    ∷ []

receivers_bounds_example :
    (length (receivers crates node entropy (some 2)) ≤ 1)
    × All
        (λ (id : ConnectionId). Mem id (2 ∷ 1 ∷ 0 ∷ []) × (some 2 ≢ some id))
        (receivers crates node entropy (some 2))
receivers_bounds_example = receivers_bounds crates node entropy (some 2) (λ ids. Perm.refl ids)

process_incoming_lem_example :
    (n' : GossipNode crates) × (valid : Bool) × (process_incoming crates signed_claim 2 entropy node
      ≡ some n')
    × (verify toy_signing signed_claim ≡ some valid)
    × (n'.delivered ≡ (
        if valid && is_new crates signed_claim node
        then signed_claim ∷ node.delivered
        else node.delivered))
    × (n'.outgoing ≡ (
        if valid && is_new crates signed_claim node
        then passed_on crates signed_claim 2 entropy node
        else node.outgoing))
process_incoming_lem_example =
    process_incoming_lem crates signed_claim 2 entropy node toy_signing_laws

run_new-Distinct_example :
    (n : GossipNode crates) × (run crates traffic (new crates 10 small) ≡ some n)
    × Distinct n.delivered
run_new-Distinct_example = run_new-Distinct crates toy_signing_laws 10 small traffic (omega arith)

verify-sign_example :
    (signed : GossipEnvelope) × (sign toy_signing (claim_by worker_a) 10 ≡ some signed)
    × (record signed { signature = [] } ≡ claim_by worker_a)
    × ((ttl : ℕ) → verify toy_signing (record signed { ttl = ttl }) ≡ some true)
verify-sign_example = verify-sign toy_signing toy_signing_laws (claim_by worker_a) 10 refl

broadcast_lem_example :
    (n' : GossipNode crates) × (e : GossipEnvelope) × (broadcast crates
        (claim_job job_one worker_a)
        entropy
        node
      ≡ some (ok tt, n'))
    × Broadcasts crates (claim_job job_one worker_a) entropy node n' e
broadcast_lem_example =
    broadcast_lem crates toy_signing_laws (λ m. ([], refl)) (claim_job job_one worker_a) entropy
      node refl

abbrev lowered_claim : GossipEnvelope
lowered_claim = record signed_claim { ttl = 2 }

one_hop : Journey crates signed_claim 1 lowered_claim
unfolding process_incoming dec_ne ℕ_discrete
one_hop = onward start (
    hop node
      (record node {
        seen = record { cap = 5; keys = signed_claim.id ∷ [] };
        delivered = signed_claim ∷ [];
        outgoing = (1, lowered_claim) ∷ [];
      })
      2 1 entropy refl refl (Memᴰ.head refl))

Journey-ttl_example :
    (1 < signed_claim.ttl) × (lowered_claim ≡ record signed_claim { ttl = signed_claim.ttl - 1 })
Journey-ttl_example = Journey-ttl crates toy_signing_laws one_hop (omega arith)
