-- ===== src/Coordinator/Start/Settings.antt =====
-- The parts of the start of crates/coordinator/src/main.rs that read the settings.
use mathlib.Core.Option.{or_else, get_or}
use proof_job_zk.Base.{
  ◌≡◌, refl, subst, concat, ◌⊎◌, inl, inr, String, Option, none, some, ok, map_err-eq-ok, arith,
  Option-cases, Result-cases,
}
use proof_job_zk.Core.Job.{Address}
use proof_job_zk.Contract.{ContractClient, new}
use proof_job_zk.Deps.Encoding.{Encoding}
use proof_job_zk.Deps.Host.{Host, SocketAddr, running, >>=-eq-running, or_fail-eq-running}
use proof_job_zk.Coordinator.Start.{
  address_or_local, read_config, new_client, contract_of, watch_config, watch, start_indexer,
}
use proof_job_zk.Coordinator.State.{Runtime, CoordinatorConfig, World, Jobs}
use proof_job_zk.Coordinator.System.{Cursor, cursor_of}
use proof_job_zk.Indexer.{Indexer, IndexerConfig, create_indexer, new as new_indexer}

module _ (H : Host) where
  -- The address that is given, or else the given port, or else the usual one, of this machine.
  pub data AddressFrom (name port usual : String) (a : SocketAddr) : Type 0 where
    by_name :
        (text : String)
        → H.var name ≡ some text
        → H.parse_socket_addr text ≡ ok a
        → AddressFrom name port usual a
    by_port :
        (number : String)
        → H.var name ≡ none
        → H.var port ≡ some number
        → H.parse_socket_addr (concat "127.0.0.1:" number) ≡ ok a
        → AddressFrom name port usual a
    by_default :
        H.var name ≡ none
        → H.var port ≡ none
        → H.parse_socket_addr (concat "127.0.0.1:" usual) ≡ ok a
        → AddressFrom name port usual a

  address_or_local-AddressFrom :
      (name port usual : String) (a : SocketAddr)
      → address_or_local H name (get_or (H.var port) usual) ≡ ok a
      → AddressFrom name port usual a
  address_or_local-AddressFrom name port usual a parsed = elim (Option-cases (H.var name)) [
    | inr (text, given) ↦ by_name text given (ground arith)
    | inl unnamed ↦ elim (Option-cases (H.var port)) [
      | inr (number, given) ↦ by_port number unnamed given (ground arith)
      | inl missing ↦ by_default unnamed missing (ground arith)
    ]
  ]

  -- What the environment says.
  pub record FromEnvironment (config : CoordinatorConfig) : Type 0 where
    pub http_addr : AddressFrom "HTTP_ADDR" "HTTP_PORT" "8080" config.http_addr
    pub gossip_addr : AddressFrom "GOSSIP_ADDR" "GOSSIP_PORT" "9000" config.gossip_addr
    pub default_deadline_secs : config.default_deadline_secs ≡ 300
    pub rpc_url : config.rpc_url ≡ H.var "RPC_URL"
    pub contract_address :
        config.contract_address ≡ or_else (H.var "CONTRACT_ADDRESS") (H.var "REGISTRY_ADDRESS")
    pub private_key : config.private_key ≡ H.var "PRIVATE_KEY"

  pub read_config-FromEnvironment :
      (config : CoordinatorConfig) → read_config H ≡ running config → FromEnvironment config
  unfolding read_config
  read_config-FromEnvironment config h =
      elim (Result-cases (address_or_local H "HTTP_ADDR" (get_or (H.var "HTTP_PORT") "8080"))) [
        | inr (e, failed) ↦ absurd (ground arith)
        | inl (http_addr, parsed) ↦
            elim (Result-cases
              (address_or_local H "GOSSIP_ADDR" (get_or (H.var "GOSSIP_PORT") "9000"))) [
                | inr (e, failed) ↦ absurd (ground arith)
                | inl (gossip_addr, parsed') ↦
                    let http : AddressFrom "HTTP_ADDR" "HTTP_PORT" "8080" http_addr =
                      address_or_local-AddressFrom _ _ _ http_addr parsed in
                    let gossip : AddressFrom "GOSSIP_ADDR" "GOSSIP_PORT" "9000" gossip_addr =
                      address_or_local-AddressFrom _ _ _ gossip_addr parsed' in
                    record {
                      http_addr =
                          subst (AddressFrom "HTTP_ADDR" "HTTP_PORT" "8080") (ground arith) http;
                      gossip_addr =
                          subst (AddressFrom "GOSSIP_ADDR" "GOSSIP_PORT" "9000") (ground arith)
                            gossip;
                      default_deadline_secs = ground arith;
                      rpc_url = ground arith;
                      contract_address = ground arith;
                      private_key = ground arith;
                    }
              ]
      ]

module _ (E : Encoding) (R : Runtime) where
  -- There is a client where all three settings are given, and it is made from them.
  pub data ContractFor (config : CoordinatorConfig) (contract : Option (ContractClient R.provider))
      : Type 0 where
    without :
        (config.rpc_url ≡ none) ⊎ (config.contract_address ≡ none) ⊎ (config.private_key ≡ none)
        → contract ≡ none
        → ContractFor config contract
    with_client :
        (rpc addr pk : String) (address : Address) (client : ContractClient R.provider)
        → config.rpc_url ≡ some rpc
        → config.contract_address ≡ some addr
        → config.private_key ≡ some pk
        → E.parse_address addr ≡ ok address
        → (R.provider.parse_signer pk ≡ ok client.signer)
          × (R.provider.parse_url rpc ≡ ok client.rpc_url)
          × (client.contract_address ≡ address)
        → contract ≡ some client
        → ContractFor config contract

  -- The indexer runs where two of them are given, from the block that the chain is at.
  pub data IndexerFor (config : CoordinatorConfig) (indexer : Option Cursor) (w w' : World R)
      : Type 0 where
    not_watching :
        (config.rpc_url ≡ none) ⊎ (config.contract_address ≡ none)
        → indexer ≡ none
        → IndexerFor config indexer w w'
    watching :
        (rpc addr : String) (address : Address) (cursor : Cursor)
        → config.rpc_url ≡ some rpc
        → config.contract_address ≡ some addr
        → E.parse_address addr ≡ ok address
        → cursor.registry_address ≡ address
        → cursor.poll_interval ≡ 2
        → R.provider.get_block_number w ≡ (ok cursor.last_block, w')
        → indexer ≡ some cursor
        → IndexerFor config indexer w w'

  new-eq-ok :
      (rpc pk : String) (address : Address) (client : ContractClient R.provider)
      → new R.provider rpc address pk ≡ ok client
      → (R.provider.parse_signer pk ≡ ok client.signer)
        × (R.provider.parse_url rpc ≡ ok client.rpc_url)
        × (client.contract_address ≡ address)
  unfolding new
  new-eq-ok rpc pk address client h = elim (Result-cases (R.provider.parse_signer pk)) [
    | inr (e, failed) ↦ absurd (ground arith)
    | inl (signer, parsed) ↦ elim (Result-cases (R.provider.parse_url rpc)) [
      | inr (e, failed) ↦ absurd (ground arith)
      | inl (url, read) ↦ (ground arith, ground arith, ground arith)
    ]
  ]

  new_client-eq-running :
      (rpc addr pk : String) (contract : Option (ContractClient R.provider))
      → new_client E R rpc addr pk ≡ running contract
      → (address : Address) × (client : ContractClient R.provider) × (E.parse_address addr
          ≡ ok address)
        × (new R.provider rpc address pk ≡ ok client)
        × (contract ≡ some client)
  unfolding new_client
  new_client-eq-running rpc addr pk contract h =
      let (address, parsed, h') = >>=-eq-running _ _ h in
      let (client, made, h'') = >>=-eq-running _ _ h' in
      (
        address,
        client,
        map_err-eq-ok _ _ (or_fail-eq-running _ parsed),
        map_err-eq-ok _ _ (or_fail-eq-running _ made),
        cc,
      )

  pub contract_of-ContractFor :
      (config : CoordinatorConfig) (contract : Option (ContractClient R.provider))
      → contract_of E R config ≡ running contract
      → ContractFor config contract
  unfolding contract_of
  contract_of-ContractFor config contract h = elim (Option-cases config.rpc_url) [
    | inl e ↦ without (inl e) (ground arith)
    | inr (rpc, e) ↦ elim (Option-cases config.contract_address) [
      | inl e' ↦ without (inr (inl e')) (ground arith)
      | inr (addr, e') ↦ elim (Option-cases config.private_key) [
        | inl e'' ↦ without (inr (inr e'')) (ground arith)
        | inr (pk, e'') ↦
            let (address, client, parsed, made, there) =
              new_client-eq-running rpc addr pk contract (ground arith) in
            with_client rpc addr pk address client e e' e'' parsed
              (new-eq-ok rpc pk address client made) there
      ]
    ]
  ]

  -- An indexer without a first block starts at the chain's, with the address it was given.
  create_indexer-eq-ok :
      (config : IndexerConfig) (jobs : Jobs R) (w : World R) (i : Indexer R)
      → config.start_block ≡ none
      → (create_indexer R config jobs w).0 ≡ ok i
      → (i.registry_address ≡ config.registry_address)
        × (i.poll_interval ≡ config.poll_interval)
        × (R.provider.get_block_number w ≡ (ok i.last_block, (create_indexer R config jobs w).1))
  unfolding create_indexer new_indexer
  create_indexer-eq-ok config jobs w i latest h =
      elim (Result-cases (R.provider.parse_url config.rpc_url)) [
        | inr (e, failed) ↦ absurd (ground arith)
        | inl (url, parsed) ↦ elim (Result-cases (R.provider.get_block_number w).0) [
          | inr (e, failed) ↦ absurd (ground arith)
          | inl (block, answered) ↦ (ground arith, ground arith, ground arith)
        ]
      ]

  watch-IndexerFor :
      (config : CoordinatorConfig) (rpc addr : String) (jobs : Jobs R) (w : World R)
      (indexer : Option Cursor) (w' : World R)
      → config.rpc_url ≡ some rpc
      → config.contract_address ≡ some addr
      → watch E R rpc addr jobs w ≡ running (indexer, w')
      → IndexerFor config indexer w w'
  unfolding watch cursor_of
  watch-IndexerFor config rpc addr jobs w indexer w' e e' h =
      elim (Result-cases (E.parse_address addr)) [
        | inr (e, failed) ↦ absurd (ground arith)
        | inl (address, parsed) ↦
            let made = create_indexer R (watch_config rpc address) jobs w in
            elim (Result-cases made.0) [
              | inr (e, failed) ↦ absurd (ground arith)
              | inl (i, created) ↦
                  let (same, every, block) =
                    create_indexer-eq-ok (watch_config rpc address) jobs w i refl created in
                  watching rpc addr address (cursor_of E R i) e e' parsed same every
                    (ground (arith, block)) (ground arith)
            ]
      ]

  pub start_indexer-IndexerFor :
      (config : CoordinatorConfig) (jobs : Jobs R) (w : World R) (indexer : Option Cursor)
      (w' : World R)
      → start_indexer E R config jobs w ≡ running (indexer, w')
      → IndexerFor config indexer w w'
  unfolding start_indexer
  start_indexer-IndexerFor config jobs w indexer w' h = elim (Option-cases config.rpc_url) [
    | inl e ↦ not_watching (inl e) (ground arith)
    | inr (rpc, e) ↦ elim (Option-cases config.contract_address) [
      | inl e' ↦ not_watching (inr e') (ground arith)
      | inr (addr, e') ↦ watch-IndexerFor config rpc addr jobs w indexer w' e e' (ground arith)
    ]
  ]
