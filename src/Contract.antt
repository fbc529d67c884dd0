-- ===== src/Contract.antt =====
-- crates/contract-client/src/lib.rs: the client of the on-chain registry. A method takes the chain
-- and returns the chain after it.
use proof_job_zk.Base.{concat, ℕ, Bool, String, List, Result, ok, err, map_err}
use proof_job_zk.Core.Ids.{JobId, TxHash}
use proof_job_zk.Core.Job.{Address}
use proof_job_zk.Deps.Provider.{Provider, Call}

pub data ContractError : Type 0 where
  transaction_failed : String → ContractError
  call_failed : String → ContractError
  invalid_config : String → ContractError

-- The `Display` of `ContractError`
unfoldable pub show_contract_error : ContractError → String
show_contract_error (transaction_failed e) = concat "transaction failed: " e
show_contract_error (call_failed e) = concat "contract call failed: " e
show_contract_error (invalid_config e) = concat "invalid config: " e

module _ (P : Provider) where
  open P use {
    World, Url, Signer, PendingTx, parse_signer, parse_url, send, get_receipt, call_completed,
  }

  pub record ContractClient : Type 0 where
    pub rpc_url : Url
    pub contract_address : Address
    pub signer : Signer

  -- An awaited computation that may fail.
  abbrev pub Chain : Type 0 → Type 0
  Chain A = World → Result ContractError A × World

  infixl 5 ◌>>=◌
  abbrev ◌>>=◌ : {A B : Type 0} → Chain A → (A → Chain B) → Chain B
  ◌>>=◌ m f w = elim (m w).0 [ ok a ↦ f a (m w).1 | err e ↦ (err e, (m w).1) ]

  abbrev lift :
      {A : Type 0} → (String → ContractError) → (World → Result String A × World) → Chain A
  lift fail m w = (map_err fail (m w).0, (m w).1)

  unfoldable pub new : String → Address → String → Result ContractError (ContractClient)
  new rpc_url contract_address private_key =
      elim (map_err invalid_config (parse_signer private_key)) [
        | err e ↦ err e
        | ok signer ↦ elim (map_err invalid_config (parse_url rpc_url)) [
          | err e ↦ err e
          | ok url ↦
              ok (record { rpc_url = url; contract_address = contract_address; signer = signer })
        ]
      ]

  -- Send a transaction and wait for its receipt.
  unfoldable pub transact : ContractClient → Call → ℕ → Chain TxHash
  transact c call value = do
    pending_tx ← lift transaction_failed (send c.rpc_url c.signer c.contract_address call value)
    lift transaction_failed (get_receipt pending_tx)

  unfoldable pub submit_job : ContractClient → JobId → List ℕ → ℕ → ℕ → Chain TxHash
  unfolding transact
  submit_job c job_id payload deadline reward_wei =
      transact c (Call.submit_job job_id payload deadline) reward_wei

  unfoldable pub submit_proof : ContractClient → JobId → List ℕ → List ℕ → Chain TxHash
  unfolding transact
  submit_proof c job_id journal seal = transact c (Call.submit_proof job_id journal seal) 0

  unfoldable pub is_completed : ContractClient → JobId → Chain Bool
  is_completed c job_id =
      lift call_failed (call_completed c.rpc_url c.signer c.contract_address job_id)
