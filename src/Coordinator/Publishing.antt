-- ===== src/Coordinator/Publishing.antt =====
-- What `create_job` of crates/coordinator/src/api.rs makes of the chain's answers.
use proof_job_zk.Base.{
  ◌≡◌, refl, sym, ap, ◌∙◌, subst, String, ◌∷◌, Option, none, some, Result, ok, err, concat, arith,
  ite, inl, inr, Option-cases, Result-cases,
}
use proof_job_zk.Core.Ids.{JobId, JobId-discrete, TxHash}
use proof_job_zk.Core.Job.{Job}
use proof_job_zk.Core.Message.{job_available}
use proof_job_zk.Contract.{ContractClient, submit_job, transact, show_contract_error}
use proof_job_zk.Deps.Encoding.{Encoding}
use proof_job_zk.Deps.Provider.{Call}
use proof_job_zk.Coordinator.Api.{
  ApiError, internal_server_error, CreateJobResponse, submit_on_chain, publish_job, Outcome,
  fail_with, show_0x,
}
use proof_job_zk.Coordinator.Claims.{sent_by}
use proof_job_zk.Coordinator.Creation.{published, publish_job_lem}
use proof_job_zk.Coordinator.State.{Runtime, AppState, World, job_at, announce}

module _ (E : Encoding) (R : Runtime) where
  open R use {jobs_map as table, provider as chain}

  -- The job is stored under its identifier and announced once, and nothing else happens.
  pub record Stored (job : Job) (s t : AppState R) : Type 0 where
    pub entries :
        (j : JobId) → job_at R j t ≡ ite (JobId-discrete j job.id) (some job) (job_at R j s)
    pub announced : sent_by R t ≡ job_available job ∷ sent_by R s
    pub contract : t.contract ≡ s.contract
    pub config : t.config ≡ s.config

  -- What the client is told, where it is told an identifier.
  abbrev pub accepted : Job → Option String → Result ApiError CreateJobResponse
  accepted job tx_hash =
      ok (record { job_id = concat "0x" (E.hex_encode job.id.bytes); tx_hash = tx_hash })

  abbrev pub refused : String → Result ApiError CreateJobResponse
  refused e = err (record {
    status = internal_server_error;
    message = concat "on-chain submission failed: " (concat "transaction failed: " e);
  })

  -- The transaction that the contract is sent, and its answer.
  abbrev pub sends : ContractClient chain → Job → World R → Result String chain.PendingTx × World R
  sends c job w =
      chain.send c.rpc_url c.signer c.contract_address
        (Call.submit_job job.id job.payload job.deadline) job.reward w

  -- The ways that the publication of a job ends, by what the chain does.
  pub data Publication (job : Job) (s : AppState R) (w : World R)
      (p : Outcome E R CreateJobResponse) : Type 0 where
    off_chain :
        s.contract ≡ none
        → p.result ≡ accepted job none
        → Stored job s p.state
        → Publication job s w p
    not_sent :
        (c : ContractClient chain) (e : String)
        → s.contract ≡ some c
        → (sends c job w).0 ≡ err e
        → p.result ≡ refused e
        → p.state ≡ s
        → Publication job s w p
    not_mined :
        (c : ContractClient chain) (pending : chain.PendingTx) (e : String)
        → s.contract ≡ some c
        → (sends c job w).0 ≡ ok pending
        → (chain.get_receipt pending (sends c job w).1).0 ≡ err e
        → p.result ≡ refused e
        → p.state ≡ s
        → Publication job s w p
    on_chain :
        (c : ContractClient chain) (pending : chain.PendingTx) (tx : TxHash)
        → s.contract ≡ some c
        → (sends c job w).0 ≡ ok pending
        → (chain.get_receipt pending (sends c job w).1).0 ≡ ok tx
        → p.result ≡ accepted job (some (concat "0x" (E.hex_encode tx.bytes)))
        → Stored job s p.state
        → Publication job s w p

  published-Stored : (job : Job) (s : AppState R) → Stored job s (published E R job s)
  unfolding published announce
  published-Stored job s = record {
    entries = λ j. table.get-insert j job.id job s.jobs;
    announced = R.gossip.sent-broadcast (job_available job) s.gossip;
    contract = refl;
    config = refl;
  }

  abbrev answer : Job → AppState R → World R → Result ApiError (Option String)
  answer job s w = (submit_on_chain E R job.id job.payload job.deadline job.reward s w).result

  stored :
      (job : Job) (s : AppState R) (w : World R) (tx_hash : Option String)
      → answer job s w ≡ ok tx_hash
      → let p = publish_job E R job s w in (p.result ≡ accepted job tx_hash) × Stored job s p.state
  unfolding show_0x
  stored job s w tx_hash taken = elim (publish_job_lem E R job s w) [
    | inl (tx, taken', told, state) ↦
        let same : tx ≡ tx_hash = cc in
        (told ∙ ap (accepted job) same, subst (Stored job s) (sym state) (published-Stored job s))
    | inr (e, failed, _, _) ↦ absurd (cc)
  ]

  rejected :
      (job : Job) (s : AppState R) (w : World R) (e : ApiError)
      → answer job s w ≡ err e
      → let p = publish_job E R job s w in (p.result ≡ err e) × (p.state ≡ s)
  rejected job s w e failed = elim (publish_job_lem E R job s w) [
    | inl (tx, taken, _, _) ↦ absurd (cc)
    | inr (e', failed', told, state) ↦ (cc, state)
  ]

  module _ (job : Job) (s : AppState R) (w : World R) where
    without_contract : s.contract ≡ none → answer job s w ≡ ok none
    unfolding submit_on_chain
    without_contract alone = ground arith

    module _ (c : ContractClient chain) (linked : s.contract ≡ some c) where
      unsent :
          (e : String)
          → (sends c job w).0 ≡ err e
          → answer job s w
            ≡ err (record {
              status = internal_server_error;
              message = concat "on-chain submission failed: " (concat "transaction failed: " e);
            })
      unfolding submit_on_chain submit_job transact fail_with show_contract_error
      unsent e failed = ground arith

      unmined :
          (pending : chain.PendingTx) (e : String)
          → (sends c job w).0 ≡ ok pending
          → (chain.get_receipt pending (sends c job w).1).0 ≡ err e
          → answer job s w
            ≡ err (record {
              status = internal_server_error;
              message = concat "on-chain submission failed: " (concat "transaction failed: " e);
            })
      unfolding submit_on_chain submit_job transact fail_with show_contract_error
      unmined pending e went failed = ground arith

      mined :
          (pending : chain.PendingTx) (tx : TxHash)
          → (sends c job w).0 ≡ ok pending
          → (chain.get_receipt pending (sends c job w).1).0 ≡ ok tx
          → answer job s w ≡ ok (some (concat "0x" (E.hex_encode tx.bytes)))
      unfolding submit_on_chain submit_job transact show_0x
      mined pending tx went received = ground arith

  -- The chain decides. Without a contract the job is stored and announced and the client is told
  -- its identifier; with one, so it is, and the hash is told, if the transaction is sent and its
  -- receipt comes. If the sending or the receipt fails, the client is told that the submission
  -- failed and why, and nothing is stored or sent. Stored means under its identifier, other entries
  -- as before, and announced once.
  pub publish_job-Publication :
      (job : Job) (s : AppState R) (w : World R) → Publication job s w (publish_job E R job s w)
  publish_job-Publication job s w = elim (Option-cases s.contract) [
    | inl alone ↦
        let (told, state) = stored job s w none (without_contract job s w alone) in
        off_chain alone told state
    | inr (c, linked) ↦ elim (Result-cases (sends c job w).0) [
      | inr (e, failed) ↦
          let (told, state) = rejected job s w _ (unsent job s w c linked e failed) in
          not_sent c e linked failed told state
      | inl (pending, went) ↦ elim (Result-cases (chain.get_receipt pending (sends c job w).1).0) [
        | inr (e, failed) ↦
            let (told, state) =
              rejected job s w _ (unmined job s w c linked pending e went failed) in
            not_mined c pending e linked went failed told state
        | inl (tx, received) ↦
            let (told, state) =
              stored job s w _ (mined job s w c linked pending tx went received) in
            on_chain c pending tx linked went received told state
      ]
    ]
  ]
