-- ===== src/Node/Neighbour.antt =====
-- A broadcast on its way to the node at the other end of a connection: `broadcast`, the two loops of
-- the connection and `process_incoming` of crates/gossip/src/gossip/mod.rs, one after the other.
use mathlib.Core.List.{Memᴰ, append-nil}
use mathlib.Core.List.Memᴰ
use proof_job_zk.Base.{
  ℕ, suc, ◌≡◌, refl, sym, ap, subst, ◌∙◌, true, List, [], ◌∷◌, ◌++◌, none, some, ok, length,
  length-append, map, All, arith, if◌then◌else◌, ite, ℕ_discrete,
}
use proof_job_zk.Core.Message.{GossipMessage}
use proof_job_zk.Core.Envelope.{GossipEnvelope, SigningLaws}
use proof_job_zk.Node.{
  Crates, Entropy, GossipNode, ConnectionId, receivers, send_each, broadcast, process_incoming,
  write_frame,
}
use proof_job_zk.Node.Broadcast.{IsKeyed, Encodes, broadcast_lem}
use proof_job_zk.Node.Connection.{Connection, open_connection, Run}
use proof_job_zk.Node.Connection.Delivery.{RoundTrips, delivers}
use proof_job_zk.Node.Connection.Wire.{Run-Sends}
use proof_job_zk.Node.Receive.{is_new, process_incoming_lem}

-- What the node has given to one connection, oldest first.
unfoldable pub sent_over : ConnectionId → List (ConnectionId × GossipEnvelope) → List GossipEnvelope
sent_over k [] = []
sent_over k ((id, e) ∷ outgoing) =
    let rest = sent_over k outgoing in ite (ℕ_discrete id k) (rest ++ (e ∷ [])) rest

sent_over-Memᴰ :
    (k : ConnectionId) (e : GossipEnvelope) (outgoing : List (ConnectionId × GossipEnvelope))
    → Memᴰ (k, e) outgoing
    → Memᴰ e (sent_over k outgoing)
unfolding sent_over
sent_over-Memᴰ k e [] m = elim m [ ]
sent_over-Memᴰ k e ((id, e') ∷ outgoing) (Memᴰ.head p) =
    elim (ℕ_discrete id k)
      as (λ d. Memᴰ e (ite d (sent_over k outgoing ++ (e' ∷ [])) (sent_over k outgoing))) [
        | yes same ↦ Memᴰ.append_right (sent_over k outgoing) (Memᴰ.head (ap (λ x. x.1) p))
        | no other ↦ absurd (other (sym (ap (λ x. x.0) p)))
      ]
sent_over-Memᴰ k e ((id, e') ∷ outgoing) (Memᴰ.tail m) =
    elim (ℕ_discrete id k)
      as (λ d. Memᴰ e (ite d (sent_over k outgoing ++ (e' ∷ [])) (sent_over k outgoing))) [
        | yes same ↦ Memᴰ.append_left (e' ∷ []) (sent_over-Memᴰ k e outgoing m)
        | no other ↦ sent_over-Memᴰ k e outgoing m
      ]

length-map : {A B : Type 0} (f : A → B) (l : List A) → length (map f l) ≡ length l
length-map f [] = refl
length-map f (x ∷ l) = ap suc (length-map f l)

nil_of_length : {A : Type 0} (l : List A) → length l ≡ 0 → l ≡ []
nil_of_length [] short = refl
nil_of_length (x ∷ l) short = absurd (omega (arith, short))

map-Memᴰ : {A B : Type 0} (f : A → B) (l : List A) {x : A} → Memᴰ x l → Memᴰ (f x) (map f l)
map-Memᴰ f [] m = elim m [ ]
map-Memᴰ f (y ∷ l) (Memᴰ.head p) = Memᴰ.head (ap f p)
map-Memᴰ f (y ∷ l) (Memᴰ.tail m) = Memᴰ.tail (map-Memᴰ f l m)

module _ (C : Crates) where
  send_each-keeps :
      (e : GossipEnvelope) (ids : List ConnectionId)
      (outgoing : List (ConnectionId × GossipEnvelope)) {x : ConnectionId × GossipEnvelope}
      → Memᴰ x outgoing
      → Memᴰ x (send_each C e ids outgoing)
  unfolding send_each
  send_each-keeps e [] outgoing m = m
  send_each-keeps e (id ∷ ids) outgoing m = send_each-keeps e ids ((id, e) ∷ outgoing) (Memᴰ.tail m)

  send_each-Memᴰ :
      (e : GossipEnvelope) (ids : List ConnectionId)
      (outgoing : List (ConnectionId × GossipEnvelope)) (k : ConnectionId)
      → Memᴰ k ids
      → Memᴰ (k, e) (send_each C e ids outgoing)
  unfolding send_each
  send_each-Memᴰ e [] outgoing k m = elim m [ ]
  send_each-Memᴰ e (id ∷ ids) outgoing k (Memᴰ.head p) =
      send_each-keeps e ids ((id, e) ∷ outgoing) (Memᴰ.head (ap (λ (i : ConnectionId). (i, e)) p))
  send_each-Memᴰ e (id ∷ ids) outgoing k (Memᴰ.tail m) =
      send_each-Memᴰ e ids ((id, e) ∷ outgoing) k m

  -- When nothing waits and every frame was read, all that was given has come through.
  drained :
      (from to : ConnectionId) {u v : Connection} {gave gave' : List GossipEnvelope}
      {frames' : List (List ℕ)}
      → All (RoundTrips C) gave
      → Run C (open_connection from) gave frames' u
      → Run C (open_connection to) gave' u.written v
      → u.alive ≡ true
      → u.queue ≡ []
      → v.passed ≡ map (λ (e : GossipEnvelope). (e, to)) gave
  drained from to {u} {gave = gave} codec sender receiver live empty =
      let s = Run-Sends C from sender in
      let (es, rest, front, count, passed, _) =
        delivers C from to [] codec sender receiver (sym (append-nil u.written)) in
      let all : gave ≡ s.gone =
        s.in_order
        ∙ ap (λ (l : List GossipEnvelope). s.gone ++ l) (s.waiting live ∙ empty)
        ∙ append-nil s.gone in
      let gone : length s.gone ≡ length u.written =
        sym (length-map (write_frame C) s.gone) ∙ ap length s.encoded ∙ length-map some u.written in
      let none_left : length rest ≡ 0 =
        omega (arith, gone, count, ap length all, ap length front, length-append es rest) in
      passed
      ∙ ap (map (λ (e : GossipEnvelope). (e, to))) (
          sym (
            front
            ∙ ap (λ (l : List GossipEnvelope). es ++ l) (nil_of_length rest none_left)
            ∙ append-nil es))

  -- Under the laws of the signing crates, where every message encodes and the identifier of a node
  -- is its public key: once a node has broadcast a message to a connection that it chose, the
  -- loop of that connection still runs, and all that was given to it was written and read at the
  -- other end, the node there is passed an envelope of the message with the sender as its origin,
  -- and it delivers that envelope, unless it has seen it. The envelopes that were given are decoded
  -- to themselves.
  pub broadcast-reaches :
      (laws : SigningLaws C.signing) (encodes : Encodes C) (m : GossipMessage)
      (entropy entropy' : Entropy) (a a' b : GossipNode C) (k to : ConnectionId) {u v : Connection}
      {gave' : List GossipEnvelope} {frames' : List (List ℕ)}
      → IsKeyed C a
      → broadcast C m entropy a ≡ some (ok tt, a')
      → Memᴰ k (receivers C a entropy none)
      → All (RoundTrips C) (sent_over k a'.outgoing)
      → Run C (open_connection k) (sent_over k a'.outgoing) frames' u
      → Run C (open_connection to) gave' u.written v
      → u.alive ≡ true
      → u.queue ≡ []
      → (e : GossipEnvelope) × (b' : GossipNode C) × (e.payload ≡ m)
        × (e.origin ≡ a.our_peer_id)
        × Memᴰ (e, to) v.passed
        × (process_incoming C e to entropy' b ≡ some b')
        × (b'.delivered ≡ (if is_new C e b then e ∷ b.delivered else b.delivered))
  broadcast-reaches laws encodes m entropy entropy' a a' b k to keyed sends chosen codec sender
        receiver live empty =
      let (n', e, made, facts) = broadcast_lem C laws encodes m entropy a keyed in
      let same : n' ≡ a' = cc in
      let (b', valid, taken, checked, delivered, _) = process_incoming_lem C e to entropy' b laws in
      let good : valid ≡ true = ground (arith, facts.genuine) in
      let out : send_each C e (receivers C a entropy none) a.outgoing ≡ a'.outgoing =
        sym facts.out ∙ ap (λ (n : GossipNode C). n.outgoing) same in
      let given : Memᴰ e (sent_over k a'.outgoing) = sent_over-Memᴰ k e a'.outgoing (
        subst (λ l. Memᴰ (k, e) l) out
          (send_each-Memᴰ e (receivers C a entropy none) a.outgoing k chosen)) in
      (
        e,
        b',
        facts.carries,
        facts.by_node,
        subst (λ l. Memᴰ (e, to) l) (sym (drained k to codec sender receiver live empty))
            (map-Memᴰ (λ (x : GossipEnvelope). (x, to)) (sent_over k a'.outgoing) given),
        taken,
        ground (arith, delivered, good),
      )
