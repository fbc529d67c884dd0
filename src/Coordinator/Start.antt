-- ===== src/Coordinator/Start.antt =====
-- crates/coordinator/src/main.rs up to the tasks that it spawns, and `snapshot_path` of
-- persistence.rs. The environment, the sockets and the files are arguments.
pub mod Settings
pub mod Configured
pub mod Restart
use mathlib.Core.Option.{or_else, get_or}
use proof_job_zk.Base.{String, Option, none, some, Result, ok, err, map_err, concat}
use proof_job_zk.Core.Job.{Address}
use proof_job_zk.Contract.{ContractClient, show_contract_error, new}
use proof_job_zk.Deps.Encoding.{Encoding}
use proof_job_zk.Deps.Gossip.{Sockets}
use proof_job_zk.Deps.Host.{Host, SocketAddr, Start, running, or_fail, expect, ◌>>=◌}
use proof_job_zk.Coordinator.Persistence.{Disk, load_jobs}
use proof_job_zk.Coordinator.State.{Runtime, CoordinatorConfig, AppState, World, Jobs}
use proof_job_zk.Coordinator.System.{Process, Cursor, cursor_of}
use proof_job_zk.Indexer.{Indexer, IndexerConfig, create_indexer}

module _ (H : Host) where
  unfoldable pub snapshot_path : String
  snapshot_path = H.join (get_or (H.var "DATA_DIR") ".") "coordinator_jobs.json"

  -- `var(name).unwrap_or_else(|_| format!("127.0.0.1:{}", port)).parse()`
  abbrev pub address_or_local : String → String → Result String SocketAddr
  address_or_local name port = H.parse_socket_addr (get_or (H.var name) (concat "127.0.0.1:" port))

  unfoldable pub read_config : Start CoordinatorConfig
  read_config = do
    http_addr ← or_fail (address_or_local "HTTP_ADDR" (get_or (H.var "HTTP_PORT") "8080"))
    gossip_addr ← or_fail (address_or_local "GOSSIP_ADDR" (get_or (H.var "GOSSIP_PORT") "9000"))
    running (record {
      http_addr = http_addr;
      gossip_addr = gossip_addr;
      default_deadline_secs = 300;
      rpc_url = H.var "RPC_URL";
      contract_address = or_else (H.var "CONTRACT_ADDRESS") (H.var "REGISTRY_ADDRESS");
      private_key = H.var "PRIVATE_KEY";
    })

abbrev pub watch_config : String → Address → IndexerConfig
watch_config rpc registry_address = record {
  rpc_url = rpc;
  registry_address = registry_address;
  poll_interval = 2;
  start_block = none;
}

module _ (E : Encoding) (R : Runtime) where
  pub new_client : String → String → String → Start (Option (ContractClient R.provider))
  new_client rpc addr pk = do
    parsed_addr ← or_fail (map_err (concat "invalid CONTRACT_ADDRESS: ") (E.parse_address addr))
    client ← or_fail (map_err show_contract_error (new R.provider rpc parsed_addr pk))
    running (some client)

  -- `match (&rpc_url, &contract_address, &private_key) { … }`
  unfoldable pub contract_of : CoordinatorConfig → Start (Option (ContractClient R.provider))
  unfolding new_client
  contract_of config = elim config.rpc_url [
    | none ↦ running none
    | some rpc ↦ elim config.contract_address [
      | none ↦ running none
      | some addr ↦ elim config.private_key [
        | none ↦ running none
        | some pk ↦ new_client rpc addr pk
      ]
    ]
  ]

  pub watch : String → String → Jobs R → World R → Start (Option Cursor × World R)
  watch rpc addr jobs w = do
    registry_address ← expect (E.parse_address addr) "invalid CONTRACT_ADDRESS for indexer"
    let made = create_indexer R (watch_config rpc registry_address) jobs w
    indexer ← expect made.0 "failed to start indexer"
    running (some (cursor_of E R indexer), made.1)

  -- `if let (Some(rpc), Some(addr)) = (&config.rpc_url, &config.contract_address) { … }`
  unfoldable pub start_indexer :
      CoordinatorConfig → Jobs R → World R → Start (Option Cursor × World R)
  unfolding watch
  start_indexer config jobs w = elim config.rpc_url [
    | none ↦ running (none, w)
    | some rpc ↦ elim config.contract_address [
      | none ↦ running (none, w)
      | some addr ↦ watch rpc addr jobs w
    ]
  ]

  -- The process once it serves, and the chain then. The spawned tasks, which may run while the
  -- indexer is made and the listener bound, take their turns after that here.
  unfoldable pub start :
      Host → Sockets R.gossip → (String → Disk) → World R → Start (Process E R × World R)
  unfolding read_config snapshot_path contract_of start_indexer
  start H sockets files w = do
    config ← read_config H
    contract ← contract_of config
    gossip ← or_fail (sockets.listen config.gossip_addr)
    let jobs = load_jobs E R (files (snapshot_path H))
    watching ← start_indexer config jobs w
    listener ← or_fail (sockets.bind config.http_addr)
    let state : AppState R = record {
      jobs = jobs;
      gossip = gossip;
      contract = contract;
      config = config;
    }
    running (record { state = state; indexer = watching.0 }, watching.1)

  -- `setup_test_coordinator` of lib.rs: its own node and an empty table, and no chain.
  unfoldable pub setup_test_coordinator : Host → Sockets R.gossip → Start (AppState R)
  setup_test_coordinator H sockets = do
    any ← expect (H.parse_socket_addr "127.0.0.1:0") "unwrap"
    gossip ← expect (sockets.listen any) "unwrap"
    gossip_addr ← expect (sockets.local_addr gossip) "unwrap"
    http_addr ← expect (H.parse_socket_addr "127.0.0.1:0") "unwrap"
    running (record {
      jobs = R.jobs_map.new;
      gossip = gossip;
      contract = none;
      config = record {
        http_addr = http_addr;
        gossip_addr = gossip_addr;
        default_deadline_secs = 300;
        rpc_url = none;
        contract_address = none;
        private_key = none;
      };
    })
