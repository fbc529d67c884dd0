-- ===== src/Node/Peers.antt =====
-- Where a message goes: `send_to_peers` of crates/gossip/src/gossip/mod.rs.
use mathlib.Core.List.{
  Mem, Mem-prop, Perm, mem-filter, mem-cons, not-mem-nil, mem-cons_self, mem-cons_of_mem,
}
use mathlib.Core.List.Perm
use mathlib.Core.Logic.Or
use proof_job_zk.Base.{
  ℕ, zero, suc, ◌≤◌, ◌≢◌, List, [], ◌∷◌, Option, none, some, arith, inl, inr, ltb, All, length,
  length-take, take, Bool-cases,
}
use proof_job_zk.Node.{Crates, Entropy, GossipNode, ConnectionId, eligible, receivers, dec_ne}

pub mem-take {ℓ} : {A : Type ℓ} {a : A} (n : ℕ) (xs : List A) → Mem a (take n xs) → Mem a xs
mem-take zero xs m = absurd (not-mem-nil m)
mem-take (suc n) [] m = m
mem-take (suc n) (x ∷ xs) m =
    Or.elim Mem-prop (mem-cons.0 m) (λ e. rw e mem-cons_self)
      (λ later. mem-cons_of_mem x (mem-take n xs later))

All-of-mem {ℓ κ} :
    {A : Type ℓ} (P : A → Type κ) (xs : List A) → ((a : A) → Mem a xs → P a) → All P xs
All-of-mem P [] h = tt
All-of-mem P (x ∷ xs) h = (h x mem-cons_self, All-of-mem P xs (λ a m. h a (mem-cons_of_mem x m)))

module _ (C : Crates) where
  mem-eligible :
      (exclude : Option ConnectionId) (ids : List ConnectionId) {id : ConnectionId}
      → Mem id (eligible C exclude ids)
      → Mem id ids × (exclude ≢ some id)
  unfolding eligible
  mem-eligible none ids m = (m, λ e. cc)
  mem-eligible (some source) ids m =
      let (there, differ) = (mem-filter (λ id. dec_ne id source)).0 m in (there, λ e. differ cc)

  receivers-le :
      (n : GossipNode C) (entropy : Entropy) (exclude : Option ConnectionId)
      → length (receivers C n entropy exclude) ≤ n.config.fanout
  unfolding receivers
  receivers-le n entropy exclude =
      let ids = eligible C exclude n.connections in
      ground (arith, length-take n.config.fanout (entropy.shuffle ids))

  mem-receivers :
      (n : GossipNode C) (entropy : Entropy) (exclude : Option ConnectionId)
      → ((ids : List ConnectionId) → Perm (entropy.shuffle ids) ids)
      → (id : ConnectionId) → Mem id (receivers C n entropy exclude)
      → Mem id (eligible C exclude n.connections)
  unfolding receivers
  mem-receivers n entropy exclude shuffles id m =
      let ids = eligible C exclude n.connections in
      elim (Bool-cases (ltb n.config.fanout (length ids))) [
        | inl many ↦
            (Perm.mem_iff (shuffles ids)).0
              (mem-take n.config.fanout (entropy.shuffle ids) (rw many at m))
        | inr few ↦ rw few at m
      ]

  -- Where the shuffle only reorders: at most `fanout` connections get the message, all of them are
  -- among the node's connections, and the one that it came from is not among them.
  pub receivers_bounds :
      (n : GossipNode C) (entropy : Entropy) (exclude : Option ConnectionId)
      → ((ids : List ConnectionId) → Perm (entropy.shuffle ids) ids)
      → (length (receivers C n entropy exclude) ≤ n.config.fanout)
        × All
            (λ (id : ConnectionId). Mem id n.connections × (exclude ≢ some id))
            (receivers C n entropy exclude)
  receivers_bounds n entropy exclude shuffles = (
    receivers-le n entropy exclude,
    All-of-mem (λ (id : ConnectionId). Mem id n.connections × (exclude ≢ some id)) _
        (λ id m.
          mem-eligible exclude n.connections (mem-receivers n entropy exclude shuffles id m)),
  )
