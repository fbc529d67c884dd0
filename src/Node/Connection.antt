-- ===== src/Node/Connection.antt =====
-- The task of one connection: the loop that `spawn_connection` of crates/gossip/src/gossip/mod.rs
-- spawns, between the frames of the stream, the channel to the node's loop and the channel of 64
-- envelopes from it. Lists are oldest first.
pub mod Wire
pub mod Reading
pub mod Delivery
use proof_job_zk.Base.{
  ℕ, ◌<◌, ◌≡◌, Bool, true, false, List, [], ◌∷◌, ◌++◌, Option, none, some, length, if◌then◌else◌,
}
use proof_job_zk.Core.Envelope.{GossipEnvelope}
use proof_job_zk.Node.{Crates, ConnectionId, read_frame, write_frame}

-- `mpsc::channel::<GossipEnvelope>(64)`
abbrev pub outgoing_capacity : ℕ
outgoing_capacity = 64

pub record Connection : Type 0 where
  pub id : ConnectionId
  pub alive : Bool  -- the loop has not ended
  pub queue : List GossipEnvelope  -- `outgoing_rx`
  pub written : List (List ℕ)  -- the frames sent
  pub passed : List (GossipEnvelope × ConnectionId)  -- to `incoming_tx`

unfoldable pub open_connection : ConnectionId → Connection
open_connection id = record { id = id; alive = true; queue = []; written = []; passed = [] }

module _ (C : Crates) where
  -- `break`
  abbrev pub break : Connection → Connection
  break c = record c { alive = false }

  -- A frame of the stream. An envelope that does not decode ends the loop.
  unfoldable pub on_frame : List ℕ → Connection → Connection
  unfolding read_frame
  on_frame bytes c = elim (read_frame C c.id bytes) [
    | none ↦ break c
    | some r ↦ record c { passed = c.passed ++ (r ∷ []) }
  ]

  -- An envelope is taken from the channel, encoded and sent; `sent` is whether that succeeds.
  unfoldable pub send_frame : Bool → Option (List ℕ) → Connection → Connection
  send_frame sent none c = break c
  send_frame sent (some bytes) c =
      if sent then record c { written = c.written ++ (bytes ∷ []) } else break c

  unfoldable pub take_outgoing : Bool → List GossipEnvelope → Connection → Connection
  unfolding write_frame send_frame
  take_outgoing sent [] c = c
  take_outgoing sent (e ∷ queue) c = send_frame sent (write_frame C e) (record c { queue = queue })

  unfoldable pub on_outgoing : Bool → Connection → Connection
  unfolding take_outgoing
  on_outgoing sent c = take_outgoing sent c.queue c

  -- `tx.send(envelope).await` of the node, where there is room
  unfoldable pub enqueue : GossipEnvelope → Connection → Connection
  enqueue e c = record c { queue = c.queue ++ (e ∷ []) }

  -- What may happen next. The send of the node waits while the channel is full, and fails, which
  -- the node ignores, once the loop has ended.
  pub data Step (c u : Connection) : Type 0 where
    framed : (bytes : List ℕ) → c.alive ≡ true → u ≡ on_frame bytes c → Step c u
    closed : c.alive ≡ true → u ≡ break c → Step c u
    wrote : (sent : Bool) → c.alive ≡ true → u ≡ on_outgoing sent c → Step c u
    given :
        (e : GossipEnvelope)
        → c.alive ≡ true
        → length c.queue < outgoing_capacity
        → u ≡ enqueue e c
        → Step c u
    refused : (e : GossipEnvelope) → c.alive ≡ false → u ≡ c → Step c u

  -- The envelope that a step takes over, and the frame that it reads.
  abbrev pub takes : {c u : Connection} → Step c u → List GossipEnvelope
  takes (given e live room made) = e ∷ []
  takes _ = []

  abbrev pub reads : {c u : Connection} → Step c u → List (List ℕ)
  reads (framed bytes live made) = bytes ∷ []
  reads _ = []

  -- A run, with what was taken over and what was read.
  pub data Run (c : Connection) : List GossipEnvelope → List (List ℕ) → Connection → Type 0 where
    here : Run c [] [] c
    next :
        {t u : Connection} {gave gave' : List GossipEnvelope} {frames frames' : List (List ℕ)}
        → Run c gave frames t
        → (s : Step t u) → gave' ≡ gave ++ takes s
        → frames' ≡ frames ++ reads s
        → Run c gave' frames' u
