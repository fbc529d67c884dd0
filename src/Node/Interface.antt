-- ===== src/Node/Interface.antt =====
-- The gossip node of crates/gossip as what the coordinator and the workers call: the record
-- `Gossip` of Deps, filled by `broadcast` of crates/gossip/src/gossip/mod.rs.
use proof_job_zk.Base.{◌≡◌, refl, String, ℕ, suc, List, [], ◌∷◌, some, Result, ok, err}
use proof_job_zk.Core.Message.{GossipMessage}
use proof_job_zk.Core.Envelope.{GossipEnvelope, SigningLaws}
use proof_job_zk.Deps.Gossip.{Gossip, Sockets}
use proof_job_zk.Deps.Host.{SocketAddr}
use proof_job_zk.Node.{Crates, Entropy, GossipNode, new, default_config, connect, broadcast}
use proof_job_zk.Node.Broadcast.{IsKeyed, Encodes, Broadcasts, broadcast_lem}

module _ (C : Crates) (laws : SigningLaws C.signing) (encodes : Encodes C) where
  -- A node with what its coming broadcasts read, and the messages that it was given so far.
  pub record Running : Type 0 where
    pub node : GossipNode C
    pub keyed : IsKeyed C node
    pub entropies : ℕ → Entropy
    pub given : List GossipMessage

  -- The broadcast, which does not panic, and the node after it.
  unfoldable pub give : GossipMessage → Running → Result String (Unit {0}) × Running
  give m r =
      let (node, e, ran, shown) = broadcast_lem C laws encodes m (r.entropies 0) r.node r.keyed in
      (
        ok tt,
        record {
          node = node;
          keyed = shown.still_keyed;
          entropies = λ k. r.entropies (suc k);
          given = m ∷ r.given;
        },
      )

  unfoldable pub gossip : Gossip
  unfolding give
  gossip = record {
    Node = Running;
    broadcast = give;
    sent = λ r. r.given;
    broadcast_ok = λ m r. refl;
    sent-broadcast = λ m r. refl;
  }

  -- What the coordinator and the workers call implements what they take it for: the code's
  -- `broadcast` neither panics nor fails, and leaves the node that the interface goes on with;
  -- what it sends is one genuine envelope of the message, to the chosen connections; and the
  -- messages that were given grow by that message.
  pub give-broadcast :
      (m : GossipMessage) (r : Running)
      → (e : GossipEnvelope) × (broadcast C m (r.entropies 0) r.node
          ≡ some ((ok tt, (give m r).1.node)))
        × Broadcasts C m (r.entropies 0) r.node (give m r).1.node e
        × ((give m r).1.given ≡ m ∷ r.given)
  unfolding give
  give-broadcast m r =
      let (node, e, ran, shown) = broadcast_lem C laws encodes m (r.entropies 0) r.node r.keyed in
      (e, ran, shown, refl)

  -- A node that listens has been given nothing.
  listening : C.signing.SigningKey → (ℕ → Entropy) → Running
  unfolding new
  listening signing_key entropies = record {
    node = new C signing_key default_config;
    keyed = refl;
    entropies = entropies;
    given = [];
  }

  connected : Result String (Unit {0}) → Running → Result String Running
  unfolding connect
  connected (err e) r = err e
  connected (ok stream) r = ok (record r { node = (connect C (ok stream) r.node).1 })

  -- The sockets of a process whose node this is, over the answers of tokio's.
  unfoldable pub sockets :
      C.signing.SigningKey
      → (ℕ → Entropy)
      → (SocketAddr → Result String (Unit {0}))
      → (SocketAddr → Result String (Unit {0}))
      → Result String SocketAddr
      → Sockets gossip
  unfolding gossip listening connected
  sockets signing_key entropies bind stream local_addr = record {
    listen = λ address. elim (bind address) [
      | ok listener ↦ ok (listening signing_key entropies)
      | err e ↦ err e
    ];
    connect = λ address r. connected (stream address) r;
    bind = bind;
    local_addr = λ r. local_addr;
  }
