-- ===== src/Network/Sent.antt =====
-- What the coordinator has sent stays sent, and what its acceptances of a job add up to
-- (crates/coordinator/src/gossip_handler.rs).
use mathlib.Core.List.{Mem, mem-cons, not-mem-nil, mem-cons_of_mem}
use mathlib.Core.Logic.Or
use native.Mathlib.Bridge.{le_prop}
use proof_job_zk.Base.{zero, suc, ℕ, ◌+◌, ◌≤◌, ◌≡◌, ◌≢◌, sym, ap, subst, List, [], ◌∷◌, arith}
use proof_job_zk.Core.Ids.{JobId, PeerId}
use proof_job_zk.Core.Message.{
  GossipMessage, job_available, claim_job, claim_accepted, claim_rejected, job_completed,
}
use proof_job_zk.Deps.Encoding.{Encoding}
use proof_job_zk.Coordinator.Claims.{accepts, sent_by}
use proof_job_zk.Coordinator.Completion.{handle_job_completed_lem}
use proof_job_zk.Coordinator.Creation.{}
use proof_job_zk.Coordinator.Handler.{}
use proof_job_zk.Coordinator.Tasks.{
  Task, submitting, announcing, claiming, replying, verifying, rebroadcasting, polling,
  fetching_completed, marking_completed, fetching_expired, marking_expired, Tasks, Turn, arrives,
  goes_on, advance, claim_step, submit_step, poll_step, fetch_completed, fetch_expired, take_turn,
  step,
}
use proof_job_zk.Coordinator.State.{announce, Runtime as CoordinatorRuntime, AppState, World}
use proof_job_zk.Coordinator.System.{Process}

accepts-own :
    (id : JobId) (w : PeerId) (l : List GossipMessage)
    → accepts id (claim_accepted id w ∷ l) ≡ accepts id l + 1
unfolding accepts
accepts-own id w l = ground arith

accepts-cons :
    (id : JobId) (x : GossipMessage) (l : List GossipMessage) → accepts id l ≤ accepts id (x ∷ l)
unfolding accepts
accepts-cons id (claim_accepted job_id worker_id) l = ground arith
accepts-cons id (job_available job) l = omega arith
accepts-cons id (claim_job job_id worker_id) l = omega arith
accepts-cons id (claim_rejected job_id reason) l = omega arith
accepts-cons id (job_completed job_id tx) l = omega arith

pub accepts-mem :
    (id : JobId) (w : PeerId) (l : List GossipMessage)
    → Mem (claim_accepted id w) l
    → 1 ≤ accepts id l
accepts-mem id w [] m = absurd (not-mem-nil m)
accepts-mem id w (x ∷ l) m =
    Or.elim le_prop (mem-cons.0 m)
      (λ same.
        omega (arith, ap (λ (y : GossipMessage). accepts id (y ∷ l)) same, accepts-own id w l))
      (λ there. omega (arith, accepts-cons id x l, accepts-mem id w l there))

-- Two acceptances of a job for different workers are counted as two.
pub accepts-two :
    (id : JobId) (v w : PeerId) (l : List GossipMessage)
    → v ≢ w
    → Mem (claim_accepted id v) l
    → Mem (claim_accepted id w) l
    → 2 ≤ accepts id l
accepts-two id v w [] differ m k = absurd (not-mem-nil m)
accepts-two id v w (x ∷ l) differ m k =
    Or.elim le_prop (mem-cons.0 m)
      (λ same.
        Or.elim le_prop (mem-cons.0 k) (λ same'. absurd (differ (cc)))
          (λ there. omega (
            arith,
            ap (λ (y : GossipMessage). accepts id (y ∷ l)) same,
            accepts-own id v l,
            accepts-mem id w l there,
          )))
      (λ there.
        Or.elim le_prop (mem-cons.0 k)
          (λ same. omega (
            arith,
            ap (λ (y : GossipMessage). accepts id (y ∷ l)) same,
            accepts-own id w l,
            accepts-mem id v l there,
          ))
          (λ there'. omega (arith, accepts-cons id x l, accepts-two id v w l differ there there')))

module _ (E : Encoding) (R : CoordinatorRuntime) where
  announced :
      (news : GossipMessage) (s : AppState R) (m : GossipMessage)
      → Mem m (sent_by R s)
      → Mem m (sent_by R (announce R news s).1)
  unfolding announce
  announced news s m there =
      subst (λ l. Mem m l) (sym (R.gossip.sent-broadcast news s.gossip))
        (mem-cons_of_mem news there)

  same_gossip :
      (t : Task) (p : Process E R) (w : World R) (m : GossipMessage)
      → (advance E R t p w).process.state.gossip ≡ p.state.gossip
      → Mem m (sent_by R p.state)
      → Mem m (sent_by R (advance E R t p w).process.state)
  same_gossip t p w m same there = subst (λ g. Mem m (R.gossip.sent g)) (sym same) there

  -- No step of a task takes back a message.
  advance-sent :
      (t : Task) (p : Process E R) (w : World R) (m : GossipMessage)
      → Mem m (sent_by R p.state)
      → Mem m (sent_by R (advance E R t p w).process.state)
  unfolding advance claim_step submit_step poll_step fetch_completed fetch_expired announce
  advance-sent (submitting job) p w m there =
      same_gossip (submitting job) p w m (ground arith) there
  advance-sent (announcing job) p w m there = announced (job_available job) p.state m there
  advance-sent (claiming now job_id worker_id) p w m there =
      same_gossip (claiming now job_id worker_id) p w m (ground arith) there
  advance-sent (replying reply) p w m there = announced reply p.state m there
  advance-sent (verifying job_id tx) p w m there =
      let (_, quiet, _, _) = handle_job_completed_lem R p.state job_id tx w job_id in
      subst (λ g. Mem m (R.gossip.sent g)) (sym quiet) there
  advance-sent (rebroadcasting []) p w m there = there
  advance-sent (rebroadcasting (job ∷ jobs)) p w m there =
      announced (job_available job) p.state m there
  advance-sent polling p w m there = same_gossip (polling) p w m (ground arith) there
  advance-sent (fetching_completed a b) p w m there =
      same_gossip (fetching_completed a b) p w m (ground arith) there
  advance-sent (marking_completed [] a b) p w m there = there
  advance-sent (marking_completed (event ∷ logs) a b) p w m there = there
  advance-sent (fetching_expired a b) p w m there =
      same_gossip (fetching_expired a b) p w m (ground arith) there
  advance-sent (marking_expired [] b) p w m there = there
  advance-sent (marking_expired (event ∷ logs) b) p w m there = there

  take_turn-sent :
      (k : ℕ) (w : World R) (p : Process E R) (tasks : List Task) (m : GossipMessage)
      → Mem m (sent_by R p.state)
      → Mem m (sent_by R (take_turn E R k w p tasks).process.state)
  unfolding take_turn
  take_turn-sent k w p [] m there = there
  take_turn-sent zero w p (t ∷ tasks) m there = advance-sent t p w m there
  take_turn-sent (suc k) w p (t ∷ tasks) m there = take_turn-sent k w p tasks m there

  pub step-sent :
      (u : Tasks E R) (turn : Turn E R) (m : GossipMessage)
      → Mem m (sent_by R u.process.state)
      → Mem m (sent_by R (step E R u turn).process.state)
  unfolding step
  step-sent u (arrives a) m there = there
  step-sent u (goes_on k w) m there = take_turn-sent k w u.process u.tasks m there
