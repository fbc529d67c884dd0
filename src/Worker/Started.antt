-- ===== src/Worker/Started.antt =====
-- What a worker that has started runs with (crates/worker/src/main.rs).
use proof_job_zk.Base.{
  ◌≡◌, refl, sym, subst, ◌∙◌, String, [], inl, inr, some, ok, arith, Option-cases, Result-cases,
}
use proof_job_zk.Core.Ids.{PeerId}
use proof_job_zk.Contract.{new as new_client}
use proof_job_zk.Deps.Encoding.{Encoding}
use proof_job_zk.Deps.Gossip.{Sockets}
use proof_job_zk.Deps.Host.{Host, running, Start-cases}
use proof_job_zk.Worker.Invariant.{Inv, IsResting, resting, Reach, Reach-Inv}
use proof_job_zk.Worker.State.{Runtime, Worker, WorkerConfig, WorkerStatus}
use proof_job_zk.Worker.Task.{System}
use proof_job_zk.Worker.Start.{
  gossip_addr, coordinator_addr, read_config, new_worker, connect_worker, start_worker,
}

module _ (E : Encoding) (H : Host) where
  read_config-registry :
      (config : WorkerConfig)
      → read_config E H ≡ running config
      → (text : String) × (H.var "REGISTRY_ADDRESS" ≡ some text)
        × (E.parse_address text ≡ ok config.registry_address)
  unfolding read_config
  read_config-registry config h = elim (Option-cases (H.var "REGISTRY_ADDRESS")) [
    | inl missing ↦ absurd (ground arith)
    | inr (text, there) ↦ elim (Result-cases (E.parse_address text)) [
      | inr (e, bad) ↦ absurd (ground arith)
      | inl (address, parsed) ↦ elim (Result-cases (gossip_addr E H)) [
        | inr (e, bad) ↦ absurd (ground arith)
        | inl (listener, read) ↦ elim (Result-cases (coordinator_addr E H)) [
          | inr (e, bad) ↦ absurd (ground arith)
          | inl (other, read') ↦ (text, there, ground arith)
        ]
      ]
    ]
  ]

module _ (R : Runtime) (sockets : Sockets R.gossip) where
  new_worker_lem :
      (peer_id : PeerId) (config : WorkerConfig) (worker : Worker R)
      → new_worker R sockets peer_id config ≡ running worker
      → (worker.status ≡ WorkerStatus.idle)
        × (worker.peer_id ≡ peer_id)
        × (worker.config ≡ config)
        × (new_client R.provider config.rpc_url config.registry_address config.private_key
            ≡ ok worker.chain)
  unfolding new_worker
  new_worker_lem peer_id config worker h = elim (Result-cases (sockets.listen config.gossip_addr)) [
    | inr (e, deaf) ↦ absurd (ground arith)
    | inl (node, heard) ↦
        elim (Result-cases
          (new_client R.provider config.rpc_url config.registry_address config.private_key)) [
            | inr (e, bad) ↦ absurd (ground arith)
            | inl (chain, made) ↦ (ground arith, ground arith, ground arith, ground arith)
          ]
  ]

  connect_worker_lem :
      (made worker : Worker R)
      → connect_worker R sockets made ≡ running worker
      → (worker.status ≡ made.status)
        × (worker.peer_id ≡ made.peer_id)
        × (worker.config ≡ made.config)
        × (worker.chain ≡ made.chain)
  unfolding connect_worker
  connect_worker_lem made worker h =
      elim (Result-cases (sockets.connect made.config.coordinator_addr made.gossip)) [
        | inr (e, refused) ↦ absurd (ground arith)
        | inl (node, connected) ↦ (ground arith, ground arith, ground arith, ground arith)
      ]

  module _ (E : Encoding) (H : Host) where
    -- A worker runs only if the environment names a registry whose address can be read. It is then
    -- idle, with the peer id it drew and a client of that registry.
    pub start_worker_lem :
        (peer_id : PeerId) (worker : Worker R)
        → start_worker R sockets E H peer_id ≡ running worker
        → (worker.status ≡ WorkerStatus.idle)
          × (worker.peer_id ≡ peer_id)
          × ((text : String) × (H.var "REGISTRY_ADDRESS" ≡ some text)
              × (E.parse_address text ≡ ok worker.config.registry_address))
          × (new_client R.provider worker.config.rpc_url worker.config.registry_address
                worker.config.private_key
              ≡ ok worker.chain)
    unfolding start_worker
    start_worker_lem peer_id worker h = elim (Start-cases (read_config E H)) [
      | inr stopped ↦ absurd (ground arith)
      | inl (config, read) ↦ elim (Start-cases (new_worker R sockets peer_id config)) [
        | inr stopped ↦ absurd (ground arith)
        | inl (made, ran) ↦
            let (idle, drawn, kept, client) = new_worker_lem peer_id config made ran in
            let (quiet, named, still, linked) = connect_worker_lem made worker (ground arith) in
            let (text, there, parsed) = read_config-registry E H config read in
            (
              quiet ∙ idle,
              named ∙ drawn,
              (text, there, rw (still, kept) parsed),
              rw (still, kept, linked) client,
            )
      ]
    ]

    -- Whatever a worker that has started hears, and however its proofs and submissions end: it has
    -- no task and is idle or claiming, or it has one task and the status that this task expects.
    pub start_worker-Reach-Inv :
        (peer_id : PeerId) (worker : Worker R) (u : System R)
        → start_worker R sockets E H peer_id ≡ running worker
        → Reach R (record { worker = worker; tasks = [] }) u
        → Inv R u
    start_worker-Reach-Inv peer_id worker u h reached =
        let (idle, _, _, _) = start_worker_lem peer_id worker h in
        Reach-Inv R reached (resting refl (subst IsResting (sym idle) tt))
