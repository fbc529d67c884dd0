-- ===== src/Deps/Gossip.antt =====
-- The gossip node as the coordinator and the workers see it: `broadcast`, and the messages that
-- were given to it, newest first. `Node.Interface` fills this record with crates/gossip.
use proof_job_zk.Base.{◌≡◌, String, List, ◌∷◌, Result, ok}
use proof_job_zk.Core.Message.{GossipMessage}
use proof_job_zk.Deps.Host.{SocketAddr}

pub record Gossip : Type 1 where
  pub Node : Type 0
  pub broadcast : GossipMessage → Node → Result String (Unit {0}) × Node
  pub sent : Node → List GossipMessage
  pub broadcast_ok : (m : GossipMessage) (n : Node) → (broadcast m n).0 ≡ ok tt
  pub sent-broadcast : (m : GossipMessage) (n : Node) → sent (broadcast m n).1 ≡ m ∷ sent n

-- The answers of the network when a process starts.
pub record Sockets (G : Gossip) : Type 0 where
  -- `GossipNode::new(GossipConfig::new(addr)).await`
  pub listen : SocketAddr → Result String G.Node
  -- `gossip.connect(addr).await`
  pub connect : SocketAddr → G.Node → Result String G.Node
  -- `TcpListener::bind(addr).await`
  pub bind : SocketAddr → Result String (Unit {0})
  -- `gossip.local_addr()`
  pub local_addr : G.Node → Result String SocketAddr
