-- ===== src/Worker/Start.antt =====
-- crates/worker/src/main.rs, with `Worker::new` and `Worker::start` of lib.rs. The environment, the
-- sockets and the random peer id are arguments.
use mathlib.Core.Option.{or_else, get_or}
use proof_job_zk.Base.{String, none, some, Result, map_err, concat}
use proof_job_zk.Core.Ids.{PeerId}
use proof_job_zk.Core.Job.{Address}
use proof_job_zk.Contract.{show_contract_error, new as new_client}
use proof_job_zk.Deps.Encoding.{Encoding}
use proof_job_zk.Deps.Gossip.{Sockets}
use proof_job_zk.Deps.Host.{Host, SocketAddr, Start, running, panicked, or_fail, expect, ◌>>=◌}
use proof_job_zk.Worker.State.{Runtime, Worker, WorkerConfig, new}

module _ (E : Encoding) (H : Host) where
  registry_address : Start Address
  registry_address = elim (H.var "REGISTRY_ADDRESS") [
    | none ↦ panicked "REGISTRY_ADDRESS required"
    | some text ↦ expect (E.parse_address text) "invalid REGISTRY_ADDRESS"
  ]

  abbrev private_key : String
  private_key =
      get_or (or_else (H.var "PRIVATE_KEY") (H.var "WORKER_PRIVATE_KEY"))
        "0x59c6995e998f97a5a0044966f0945389dc9e86dae88c7a8412f4603b6b78690d"

  abbrev pub gossip_addr : Result String SocketAddr
  gossip_addr =
      H.parse_socket_addr
        (get_or (H.var "GOSSIP_ADDR") (concat "127.0.0.1:" (get_or (H.var "GOSSIP_PORT") "9100")))

  abbrev pub coordinator_addr : Result String SocketAddr
  coordinator_addr =
      H.parse_socket_addr
        (get_or (or_else (H.var "COORDINATOR_GOSSIP") (H.var "COORDINATOR_ADDR")) "127.0.0.1:9000")

  unfoldable pub read_config : Start WorkerConfig
  unfolding registry_address
  read_config = do
    registry ← registry_address
    listener ← or_fail gossip_addr
    coordinator ← or_fail coordinator_addr
    running (record {
      gossip_addr = listener;
      coordinator_addr = coordinator;
      rpc_url = get_or (H.var "RPC_URL") "http://127.0.0.1:8545";
      private_key = private_key;
      registry_address = registry;
    })

module _ (R : Runtime) (sockets : Sockets R.gossip) where
  -- `Worker::new`
  unfoldable pub new_worker : PeerId → WorkerConfig → Start (Worker R)
  unfolding new
  new_worker peer_id config = do
    gossip ← or_fail (sockets.listen config.gossip_addr)
    chain ← or_fail (
        map_err show_contract_error
          (new_client R.provider config.rpc_url config.registry_address config.private_key))
    running (new R peer_id gossip chain config)

  -- `Worker::start`
  unfoldable pub connect_worker : Worker R → Start (Worker R)
  connect_worker worker = do
    gossip ← or_fail (sockets.connect worker.config.coordinator_addr worker.gossip)
    running (record worker { gossip = gossip })

  -- The worker once its loop runs.
  unfoldable pub start_worker : Encoding → Host → PeerId → Start (Worker R)
  unfolding read_config new_worker connect_worker
  start_worker E H peer_id = do
    config ← read_config E H
    worker ← new_worker peer_id config
    connect_worker worker
