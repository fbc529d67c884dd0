-- ===== src/Indexer/Polling.antt =====
-- The poll of crates/indexer/src/lib.rs: the block range that it reads, and what it has seen.
use proof_job_zk.Base.{
  ℕ, ◌+◌, ◌≤◌, ◌<◌, ◌≡◌, refl, List, Result, ok, err, arith, ◌⊎◌, inl, inr, leb, Bool-cases,
  Result-cases, String, leb→le, leb→gt,
}
use Prim.Native.Nat.{max}
use proof_job_zk.Core.Ids.{JobId}
use proof_job_zk.Deps.Provider.{CompletedEvent, ExpiredEvent}
use proof_job_zk.Coordinator.State.{Runtime, World}
use proof_job_zk.Coordinator.Lifecycle.{History, here, History-join}
use proof_job_zk.Indexer.{
  Indexer, IndexerError, Polled, provider, scan, process_job_completed_events,
  process_job_expired_events, apply_completed, apply_expired, poll_events,
}
use proof_job_zk.Indexer.Events.{entry, apply_completed-History, apply_expired-History}

module _ (R : Runtime) where
  open R use {provider as chain}

  module _ (i : Indexer R) (from_block to_block : ℕ) (w : World R) where
    completions_ok :
        (logs : List CompletedEvent)
        → (chain.query_completed i.registry_address from_block to_block w).0 ≡ ok logs
        → process_job_completed_events R i from_block to_block w ≡ record {
          result = ok tt;
          self = record i { jobs = apply_completed R logs i.jobs };
          world = (chain.query_completed i.registry_address from_block to_block w).1;
        }
    unfolding process_job_completed_events
    completions_ok logs h = rw (h, process_job_completed_events)

    completions_err :
        (e : String)
        → (chain.query_completed i.registry_address from_block to_block w).0 ≡ err e
        → process_job_completed_events R i from_block to_block w ≡ record {
          result = err (provider e);
          self = i;
          world = (chain.query_completed i.registry_address from_block to_block w).1;
        }
    unfolding process_job_completed_events
    completions_err e h = rw (h, process_job_completed_events)

    expiries_ok :
        (logs : List ExpiredEvent)
        → (chain.query_expired i.registry_address from_block to_block w).0 ≡ ok logs
        → process_job_expired_events R i from_block to_block w ≡ record {
          result = ok tt;
          self = record i { jobs = apply_expired R logs i.jobs };
          world = (chain.query_expired i.registry_address from_block to_block w).1;
        }
    unfolding process_job_expired_events
    expiries_ok logs h = rw (h, process_job_expired_events)

    expiries_err :
        (e : String)
        → (chain.query_expired i.registry_address from_block to_block w).0 ≡ err e
        → process_job_expired_events R i from_block to_block w ≡ record {
          result = err (provider e);
          self = i;
          world = (chain.query_expired i.registry_address from_block to_block w).1;
        }
    unfolding process_job_expired_events
    expiries_err e h = rw (h, process_job_expired_events)

  -- The five ways in which a poll ends.
  pub poll_cases {ℓ} :
      (P : Polled R → Type ℓ) (i : Indexer R) (w : World R)
      → ((e : IndexerError) (w' : World R) → P (record { result = err e; self = i; world = w' }))
      → ((current : ℕ) (w' : World R)
          → (chain.get_block_number w).0 ≡ ok current
          → current ≤ i.last_block
          → P (record { result = ok tt; self = i; world = w' }))
      → ((current : ℕ) (logs : List CompletedEvent) (e : IndexerError) (w₁ w' : World R)
          → (chain.get_block_number w).0 ≡ ok current
          → i.last_block < current
          → (chain.query_completed i.registry_address (i.last_block + 1) current w₁).0 ≡ ok logs
          → P (record {
            result = err e;
            self = record i { jobs = apply_completed R logs i.jobs };
            world = w';
          }))
      → ((current : ℕ) (logs : List CompletedEvent) (late : List ExpiredEvent) (w₁ w₂ w' : World R)
          → (chain.get_block_number w).0 ≡ ok current
          → i.last_block < current
          → (chain.query_completed i.registry_address (i.last_block + 1) current w₁).0 ≡ ok logs
          → (chain.query_expired i.registry_address (i.last_block + 1) current w₂).0 ≡ ok late
          → P (record {
            result = ok tt;
            self = record i {
              jobs = apply_expired R late (apply_completed R logs i.jobs);
              last_block = current;
            };
            world = w';
          }))
      → P (poll_events R i w)
  unfolding poll_events
  poll_cases P i w failed idle half whole = elim (Result-cases (chain.get_block_number w).0) [
    | inr (e, e₀) ↦ rw (e₀, poll_events) (failed (provider e) w₁)
    | inl (current, e₀) ↦ elim (Bool-cases (leb current i.last_block)) [
      | inl old ↦
          rw (e₀, poll_events) (rw old (idle current w₁ e₀ (leb→le current i.last_block old)))
      | inr fresh ↦ elim (Result-cases (completions current).0) [
        | inr (e, e₁) ↦
            rw (e₀, poll_events)
              (rw (fresh, scan, completions_err i from_block current w₁ e e₁)
                (failed (provider e) (completions current).1))
        | inl (logs, e₁) ↦
            let i₁ : Indexer R = record i { jobs = apply_completed R logs i.jobs } in
            let w₂ = (completions current).1 in
            elim (Result-cases (expiries current).0) [
              | inr (e, e₂) ↦
                  rw (e₀, poll_events)
                    (rw
                      (
                        fresh,
                        scan,
                        completions_ok i from_block current w₁ logs e₁,
                        expiries_err i₁ from_block current w₂ e e₂,
                      )
                      (half current logs (provider e) w₁ (expiries current).1 e₀
                        (leb→gt current i.last_block fresh) e₁))
              | inl (late, e₂) ↦
                  rw (e₀, poll_events)
                    (rw
                      (
                        fresh,
                        scan,
                        completions_ok i from_block current w₁ logs e₁,
                        expiries_ok i₁ from_block current w₂ late e₂,
                      )
                      (whole current logs late w₁ w₂ (expiries current).1 e₀
                        (leb→gt current i.last_block fresh) e₁ e₂))
            ]
      ]
    ]
  ]
    where
      from_block : ℕ
      from_block = i.last_block + 1

      w₁ : World R
      w₁ = (chain.get_block_number w).1

      completions : ℕ → Result String (List CompletedEvent) × World R
      completions current = chain.query_completed i.registry_address (i.last_block + 1) current w₁

      expiries : ℕ → Result String (List ExpiredEvent) × World R
      expiries current =
          chain.query_expired i.registry_address (i.last_block + 1) current (completions current).1

  -- Whatever a poll meets, every entry goes through the lifecycle, and nothing else.
  pub poll_events-History :
      (i : Indexer R) (w : World R) (j : JobId)
      → History j (entry R j i.jobs) (entry R j (poll_events R i w).self.jobs)
  poll_events-History i w j =
      poll_cases (λ p. History j (entry R j i.jobs) (entry R j p.self.jobs)) i w (λ e w'. here)
        (λ current w' e₀ old. here)
        (λ current logs e w₁ w' e₀ fresh e₁. apply_completed-History R logs i.jobs j)
        λ current logs late w₁ w₂ w' e₀ fresh e₁ e₂.
          History-join (apply_completed-History R logs i.jobs j)
            (apply_expired-History R late (apply_completed R logs i.jobs) j)

  -- A poll that succeeds moves `last_block` up to the block that the chain reported, never down;
  -- one that fails leaves it, so that the next poll reads the same blocks again.
  pub poll_events-last_block :
      (i : Indexer R) (w : World R)
      → let p = poll_events R i w in
        ((p.result ≡ ok tt)
          × (current : ℕ) × ((chain.get_block_number w).0 ≡ ok current)
          × (p.self.last_block ≡ max i.last_block current))
        ⊎ ((e : IndexerError) × (p.result ≡ err e) × (p.self.last_block ≡ i.last_block))
  poll_events-last_block i w =
      poll_cases
        (λ p.
          ((p.result ≡ ok tt)
            × (current : ℕ) × ((chain.get_block_number w).0 ≡ ok current)
            × (p.self.last_block ≡ max i.last_block current))
          ⊎ ((e : IndexerError) × (p.result ≡ err e) × (p.self.last_block ≡ i.last_block)))
        i w (λ e w'. inr (e, refl, refl))
        (λ current w' e₀ old. inl (refl, current, e₀, omega arith))
        (λ current logs e w₁ w' e₀ fresh e₁. inr (e, refl, refl))
        λ current logs late w₁ w₂ w' e₀ fresh e₁ e₂. inl (refl, current, e₀, omega arith)
