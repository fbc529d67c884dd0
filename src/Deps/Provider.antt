-- ===== src/Deps/Provider.antt =====
-- alloy: the wallet, the RPC provider, and the contract calls that its `sol!` macro generates from
-- the declarations in crates/contract-client/src/lib.rs. `World` is the chain behind the endpoint,
-- with whatever else happens on it while a call is awaited.
use proof_job_zk.Base.{ℕ, Bool, String, List, Option, Result}
use proof_job_zk.Core.Ids.{JobId, TxHash}
use proof_job_zk.Core.Job.{Address}

-- The transactions that the program sends (`function` items of the `sol!` block).
pub data Call : Type 0 where
  submit_job : JobId → List ℕ → ℕ → Call
  submit_proof : JobId → List ℕ → List ℕ → Call

-- A `JobCompleted` or `JobExpired` event in a log.
pub record CompletedEvent : Type 0 where
  pub job_id : JobId
  pub worker : Address
  pub result : List ℕ
  pub transaction_hash : Option TxHash

pub record ExpiredEvent : Type 0 where
  pub job_id : JobId

pub record Provider : Type 1 where
  pub World : Type 0
  pub Url : Type 0
  pub Signer : Type 0
  pub PendingTx : Type 0
  pub parse_signer : String → Result String Signer
  pub parse_url : String → Result String Url
  -- `.value(wei).send().await`
  pub send : Url → Signer → Address → Call → ℕ → World → Result String PendingTx × World
  -- `.get_receipt().await`, of which only the `transaction_hash` is read
  pub get_receipt : PendingTx → World → Result String TxHash × World
  -- `completed(job_id).call().await`
  pub call_completed : Url → Signer → Address → JobId → World → Result String Bool × World
  pub get_block_number : World → Result String ℕ × World
  -- the event filters of the indexer, from the first block to the last
  pub query_completed : Address → ℕ → ℕ → World → Result String (List CompletedEvent) × World
  pub query_expired : Address → ℕ → ℕ → World → Result String (List ExpiredEvent) × World
