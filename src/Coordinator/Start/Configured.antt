-- ===== src/Coordinator/Start/Configured.antt =====
-- What a coordinator that has started runs with (crates/coordinator/src/main.rs).
use proof_job_zk.Base.{◌≡◌, inl, inr, String, Option, some, ok, arith, Result-cases}
use proof_job_zk.Contract.{ContractClient}
use proof_job_zk.Deps.Encoding.{Encoding}
use proof_job_zk.Deps.Gossip.{Sockets}
use proof_job_zk.Deps.Host.{Host, running, Start-cases}
use proof_job_zk.Coordinator.Persistence.{Disk, load_jobs}
use proof_job_zk.Coordinator.Start.{snapshot_path, read_config, contract_of, start_indexer, start}
use proof_job_zk.Coordinator.State.{Runtime, CoordinatorConfig, World}
use proof_job_zk.Coordinator.System.{Process, Cursor}
use proof_job_zk.Coordinator.Start.Settings.{
  FromEnvironment, ContractFor, IndexerFor, without, with_client, not_watching, watching,
  read_config-FromEnvironment, contract_of-ContractFor, start_indexer-IndexerFor,
}

module _ (E : Encoding) (R : Runtime) where
  same_contract :
      (config : CoordinatorConfig) (contract : Option (ContractClient R.provider))
      (indexer : Option Cursor) (w w' : World R) (client : ContractClient R.provider)
      → ContractFor E R config contract
      → IndexerFor E R config indexer w w'
      → contract ≡ some client
      → (cursor : Cursor) × (indexer ≡ some cursor)
        × (cursor.registry_address ≡ client.contract_address)
  same_contract config contract indexer w w' client (without missing none_) watched linked =
      absurd cc
  same_contract config contract indexer w w' client
        (with_client rpc addr pk address other rpc_ addr_ pk_ parsed made there)
        (not_watching (inl missing) off) linked =
      absurd cc
  same_contract config contract indexer w w' client
        (with_client rpc addr pk address other rpc_ addr_ pk_ parsed made there)
        (not_watching (inr missing) off) linked =
      absurd cc
  same_contract config contract indexer w w' client
        (with_client rpc addr pk address other rpc_ addr_ pk_ parsed made there)
        (watching rpc' addr' address' cursor rpc_' addr_' parsed' at every block on) linked =
      let here = made.2 in (cursor, on, ground arith)

  module _ (H : Host) (sockets : Sockets R.gossip) (files : String → Disk) where
    pub start_lem :
        (w w' : World R) (p : Process E R)
        → start E R H sockets files w ≡ running (p, w')
        → FromEnvironment H p.state.config
          × ContractFor E R p.state.config p.state.contract
          × IndexerFor E R p.state.config p.indexer w w'
          × (p.state.jobs ≡ load_jobs E R (files (snapshot_path H)))
          × (sockets.listen p.state.config.gossip_addr ≡ ok p.state.gossip)
          × (sockets.bind p.state.config.http_addr ≡ ok tt)
    unfolding start
    start_lem w w' p h = elim (Start-cases (read_config H)) [
      | inr stopped ↦ absurd (ground arith)
      | inl (config, read) ↦ elim (Start-cases (contract_of E R config)) [
        | inr stopped ↦ absurd (ground arith)
        | inl (contract, linked) ↦ elim (Result-cases (sockets.listen config.gossip_addr)) [
          | inr (e, deaf) ↦ absurd (ground arith)
          | inl (gossip, heard) ↦
              let jobs = load_jobs E R (files (snapshot_path H)) in
              elim (Start-cases (start_indexer E R config jobs w)) [
                | inr stopped ↦ absurd (ground arith)
                | inl ((indexer, after), watched) ↦
                    elim (Result-cases (sockets.bind config.http_addr)) [
                      | inr (e, taken) ↦ absurd (ground arith)
                      | inl (tt, bound) ↦
                          let same : p.state.config ≡ config = ground arith in
                          let client : p.state.contract ≡ contract = ground arith in
                          let cursor : p.indexer ≡ indexer = ground arith in
                          let later : w' ≡ after = ground arith in
                          (
                            rw same (read_config-FromEnvironment H config read),
                            rw (same, client) (contract_of-ContractFor E R config contract linked),
                            rw (same, cursor, later)
                                (start_indexer-IndexerFor E R config jobs w indexer after watched),
                            ground arith,
                            ground arith,
                            ground arith,
                          )
                    ]
              ]
        ]
      ]
    ]

    -- A coordinator that serves and has a client watches the contract of that client.
    pub start-same_contract :
        (w w' : World R) (p : Process E R) (client : ContractClient R.provider)
        → start E R H sockets files w ≡ running (p, w')
        → p.state.contract ≡ some client
        → (cursor : Cursor) × (p.indexer ≡ some cursor)
          × (cursor.registry_address ≡ client.contract_address)
    start-same_contract w w' p client h linked =
        let (_, contract, indexer, _, _, _) = start_lem w w' p h in
        same_contract p.state.config p.state.contract p.indexer w w' client contract indexer linked
