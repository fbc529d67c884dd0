-- ===== src/Node/Hops.antt =====
-- How far an envelope travels: forwarding in crates/gossip/src/gossip/mod.rs, over many nodes.
use mathlib.Core.List.{Memᴰ}
use proof_job_zk.Base.{
  ℕ, suc, ◌-◌, ◌≤◌, ◌<◌, ◌≡◌, refl, ap, ◌∙◌, List, [], ◌∷◌, some, arith, All, inl, inr, Bool-cases,
  ltb, ◌&&◌,
}
use proof_job_zk.Core.Envelope.{GossipEnvelope, SigningLaws}
use proof_job_zk.Node.{
  Crates, Entropy, GossipNode, ConnectionId, send_each, receivers, process_incoming,
}
use proof_job_zk.Node.Receive.{process_incoming_lem, passed_on, is_new}

All-at {ℓ κ} : {A : Type ℓ} (P : A → Type κ) (xs : List A) {x : A} → All P xs → Memᴰ x xs → P x
All-at P [] all m = elim m [ ]
All-at P (y ∷ xs) all (Memᴰ.head p) = rw p all.0
All-at P (y ∷ xs) all (Memᴰ.tail m) = All-at P xs all.1 m

module _ (C : Crates) where
  -- What a hop leaves of an envelope.
  abbrev pub Lowered : GossipEnvelope → ConnectionId × GossipEnvelope → Type 0
  Lowered e sent = (1 < e.ttl) × (sent.1 ≡ record e { ttl = e.ttl - 1 })

  send_each-All {κ} :
      (P : ConnectionId × GossipEnvelope → Type κ) (e : GossipEnvelope) (ids : List ConnectionId)
      (outgoing : List (ConnectionId × GossipEnvelope))
      → ((id : ConnectionId) → P (id, e))
      → All P outgoing
      → All P (send_each C e ids outgoing)
  unfolding send_each
  send_each-All P e [] outgoing here all = all
  send_each-All P e (id ∷ ids) outgoing here all =
      send_each-All P e ids ((id, e) ∷ outgoing) here (here id, all)

  passed_on-Lowered :
      (e : GossipEnvelope) (source : ConnectionId) (entropy : Entropy) (n : GossipNode C)
      → n.outgoing ≡ []
      → All (Lowered e) (passed_on C e source entropy n)
  unfolding passed_on
  passed_on-Lowered e source entropy n empty = elim (Bool-cases (ltb 1 e.ttl)) [
    | inl more ↦
        rw (more, passed_on)
          (send_each-All (Lowered e) (record e { ttl = e.ttl - 1 })
            (receivers C n entropy (some source)) n.outgoing (λ id. (ground arith, refl))
            (rw empty tt))
    | inr last ↦ rw (last, passed_on) (rw empty tt)
  ]

  -- Some node that received the one envelope sent the other on.
  pub data Hop (e e' : GossipEnvelope) : Type 0 where
    hop :
        (n n' : GossipNode C) (source id : ConnectionId) (entropy : Entropy)
        → n.outgoing ≡ []
        → process_incoming C e source entropy n ≡ some n'
        → Memᴰ (id, e') n'.outgoing
        → Hop e e'

  pub data Journey (e : GossipEnvelope) : ℕ → GossipEnvelope → Type 0 where
    start : Journey e 0 e
    onward : {k : ℕ} {e' e'' : GossipEnvelope} → Journey e k e' → Hop e' e'' → Journey e (suc k) e''

  Hop-Lowered :
      SigningLaws C.signing
      → {e e' : GossipEnvelope} → Hop e e'
      → (1 < e.ttl) × (e' ≡ record e { ttl = e.ttl - 1 })
  Hop-Lowered laws {e} {e'} (hop n n' source id entropy empty ran m) =
      let (n'', valid, ran', _, _, out) = process_incoming_lem C e source entropy n laws in
      elim (Bool-cases (valid && is_new C e n)) [
        | inl fresh ↦
            let sent : n'.outgoing ≡ passed_on C e source entropy n = ground arith in
            All-at (Lowered e) n'.outgoing (rw sent (passed_on-Lowered e source entropy n empty)) m
        | inr dropped ↦
            let sent : n'.outgoing ≡ [] = ground arith in
            All-at (Lowered e) n'.outgoing (rw sent tt) m
      ]

  -- Under the laws of the signing crates, an envelope with a `ttl` of at least 1 makes fewer hops
  -- than that, over whatever nodes, and after k hops it has k less in its `ttl` and is otherwise
  -- the same.
  pub Journey-ttl :
      SigningLaws C.signing
      → {e e' : GossipEnvelope} {k : ℕ} → Journey e k e'
      → 1 ≤ e.ttl
      → (k < e.ttl) × (e' ≡ record e { ttl = e.ttl - k })
  Journey-ttl laws {e} start positive =
      (positive, ap (λ (ttl : ℕ). record e { ttl = ttl }) (omega arith))
  Journey-ttl laws {e} (onward j h) positive =
      let (less, before) = Journey-ttl laws j positive in
      let (more, lowered) = Hop-Lowered laws h in
      let left = ap (λ (x : GossipEnvelope). x.ttl) before in
      (
        omega (arith, less, more, left),
        lowered
            ∙ ap (λ (x : GossipEnvelope). record x { ttl = x.ttl - 1 }) before
            ∙ ap (λ (ttl : ℕ). record e { ttl = ttl }) (omega arith),
      )
