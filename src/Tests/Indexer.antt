-- ===== src/Tests/Indexer.antt =====
-- The indexer at concrete inputs.
use Prim.Native.Nat.{max}
use proof_job_zk.Base.{
  none, ℕ, ◌≤◌, ◌≡◌, ◌⊎◌, List, [], ◌∷◌, ok, err, arith, Result, Bool, true, false, String, leb,
  if◌then◌else◌,
}
use proof_job_zk.Core.Job.{zero_address}
use proof_job_zk.Deps.Provider.{Provider, CompletedEvent}
use proof_job_zk.Coordinator.State.{Runtime}
use proof_job_zk.Tests.Table.{table}
use proof_job_zk.Indexer.{Indexer, IndexerError, poll_events}
use proof_job_zk.Indexer.Polling.{poll_events-last_block}
use proof_job_zk.Tests.Runtime.{
  log, hash, runtime, completing_chain, completion, fresh_job, state_with,
}

abbrev indexer : Indexer runtime
indexer = record {
  registry_address = zero_address;
  poll_interval = 2;
  last_block = 7;
  jobs = (state_with fresh_job).jobs;
}

-- A chain that is known by its height, with one completion, in block 8. A call may fail.
pub record Height : Type 0 where
  pub block : ℕ
  pub fails : Bool

abbrev in_range : ℕ → ℕ → List CompletedEvent
in_range from_block to_block =
    if leb from_block 8 then (if leb 8 to_block then completion ∷ [] else []) else []

abbrev ledger_query : ℕ → ℕ → Height → Result String (List CompletedEvent)
ledger_query from_block to_block w =
    if w.fails then err "timeout" else ok (in_range from_block to_block)

abbrev ledger : Provider
ledger = record {
  World = Height;
  Url = String;
  Signer = String;
  PendingTx = Unit {0};
  parse_signer = λ s. ok s;
  parse_url = λ s. ok s;
  send = λ url signer a call value w. (ok tt, w);
  get_receipt = λ p w. (ok hash, w);
  call_completed = λ url signer a id w. (ok (leb 8 w.block), w);
  get_block_number = λ w. (ok w.block, w);
  query_completed = λ a from_block to_block w. (ledger_query from_block to_block w, w);
  query_expired = λ a from_block to_block w. (ok [], w);
}

abbrev on_ledger : Runtime
on_ledger = record { jobs_map = table; gossip = log; provider = ledger }

abbrev On : ℕ → CompletedEvent → Type 0
On b e = (b ≡ 8) × (e ≡ completion)

in_range-completion :
    (from_block to_block : ℕ)
    → from_block ≤ 8
    → 8 ≤ to_block
    → in_range from_block to_block ≡ completion ∷ []
in_range-completion from_block to_block low high = ground arith

abbrev ledger_indexer : Indexer on_ledger
ledger_indexer = record {
  registry_address = zero_address;
  poll_interval = 2;
  last_block = 7;
  jobs = (fresh_job.id, fresh_job) ∷ [];
}

-- The first poll finds no new block, the second fails, and the third reads block 8.
abbrev heights : List Height
heights =
    record { block = 7; fails = false }
    ∷ record { block = 8; fails = true }
    ∷ record { block = 9; fails = false }
    ∷ []

-- The event comes twice, the second time with another hash.
abbrev repeated : List CompletedEvent
repeated = completion ∷ record completion { transaction_hash = none } ∷ []

poll_events-last_block_example :
    let p = poll_events runtime indexer completing_chain in
    ((p.result ≡ ok tt)
      × (current : ℕ) × (completing_chain.block ≡ ok current)
      × (p.self.last_block ≡ max indexer.last_block current))
    ⊎ ((e : IndexerError) × (p.result ≡ err e) × (p.self.last_block ≡ indexer.last_block))
poll_events-last_block_example = poll_events-last_block runtime indexer completing_chain
