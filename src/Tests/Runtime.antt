-- ===== src/Tests/Runtime.antt =====
-- Concrete external components for the examples: a gossip log, a scripted chain, a toy encoding.
use proof_job_zk.Base.{
  ℕ, refl, Bool, true, false, String, List, [], ◌∷◌, none, some, Result, ok, err,
}
use proof_job_zk.Core.Ids.{JobId, PeerId, TxHash}
use proof_job_zk.Core.Job.{Job, JobStatus, zero_address}
use proof_job_zk.Core.Message.{GossipMessage, claim_job}
use proof_job_zk.Core.Envelope.{GossipEnvelope}
use proof_job_zk.Coordinator.System.{Cursor}
use proof_job_zk.Deps.Gossip.{Gossip}
use proof_job_zk.Deps.Host.{SocketAddr}
use proof_job_zk.Deps.Provider.{Provider, CompletedEvent, ExpiredEvent}
use proof_job_zk.Deps.Encoding.{Encoding}
use proof_job_zk.Contract.{ContractClient}
use proof_job_zk.Coordinator.State.{Runtime, AppState}
use proof_job_zk.Tests.Table.{table}

-- A node that only keeps what it was given.
abbrev pub log : Gossip
log = record {
  Node = List GossipMessage;
  broadcast = λ m n. (ok tt, m ∷ n);
  sent = λ n. n;
  broadcast_ok = λ m n. refl;
  sent-broadcast = λ m n. refl;
}

-- The answers of a chain at one moment.
pub record Answers : Type 0 where
  pub transaction : Result String TxHash
  pub is_completed : Result String Bool
  pub block : Result String ℕ
  pub completions : Result String (List CompletedEvent)
  pub expiries : Result String (List ExpiredEvent)

abbrev pub scripted : Provider
scripted = record {
  World = Answers;
  Url = String;
  Signer = String;
  PendingTx = Unit {0};
  parse_signer = λ s. ok s;
  parse_url = λ s. ok s;
  send = λ url signer a call value w. (ok tt, w);
  get_receipt = λ p w. (w.transaction, w);
  call_completed = λ url signer a id w. (w.is_completed, w);
  get_block_number = λ w. (w.block, w);
  query_completed = λ a from_block to_block w. (w.completions, w);
  query_expired = λ a from_block to_block w. (w.expiries, w);
}

abbrev pub runtime : Runtime
runtime = record { jobs_map = table; gossip = log; provider = scripted }

abbrev pub hash : TxHash
hash = record { bytes = 9 ∷ [] }

abbrev pub job_one : JobId
job_one = record { bytes = 1 ∷ [] }

abbrev pub worker_a : PeerId
worker_a = record { bytes = 10 ∷ [] }

abbrev pub worker_b : PeerId
worker_b = record { bytes = 11 ∷ [] }

-- A pending job.
abbrev pub fresh_job : Job
fresh_job = record {
  id = job_one;
  job_status = JobStatus.pending;
  owner = zero_address;
  payload = 10 ∷ [];
  reward = 1000;
  created_at = 100;
  deadline = 400;
}

abbrev pub client : ContractClient scripted
client = record { rpc_url = "url"; contract_address = zero_address; signer = "key" }

abbrev pub local : SocketAddr
local = record { ip = 127 ∷ 0 ∷ 0 ∷ 1 ∷ []; port = 0 }

-- A coordinator with a chain and one job.
abbrev pub state_with : Job → AppState runtime
state_with job = record {
  jobs = (job.id, job) ∷ [];
  gossip = [];
  contract = some client;
  config = record {
    http_addr = local;
    gossip_addr = local;
    default_deadline_secs = 300;
    rpc_url = some "url";
    contract_address = none;
    private_key = none;
  };
}

abbrev pub quiet_chain : Answers
quiet_chain = record {
  transaction = ok hash;
  is_completed = ok false;
  block = ok 7;
  completions = ok [];
  expiries = ok [];
}

-- Block 8 holds the completion of the job.
abbrev pub completion : CompletedEvent
completion = record {
  job_id = job_one;
  worker = zero_address;
  result = [];
  transaction_hash = some hash;
}

abbrev pub completing_chain : Answers
completing_chain = record quiet_chain {
  is_completed = ok true;
  block = ok 8;
  completions = ok (completion ∷ []);
}

-- Texts for bytes: one fixed text that parses to one fixed payload.
abbrev pub encoding : Encoding
encoding = record {
  hex_encode = λ bytes. "00";
  hex_decode = λ text. ok (10 ∷ []);
  sha256 = λ bytes. 1 ∷ [];
  parse_address = λ text. ok zero_address;
  show_address = λ a. "0x";
  from_utf8_lossy = λ bytes. "?";
  json_from_str = λ text. err "bad";
  json_to_string = λ jobs. err "bad";
}

abbrev pub zero_cursor : Cursor
zero_cursor = record { registry_address = zero_address; poll_interval = 2; last_block = 7 }

abbrev pub completed_job : Job
completed_job = record fresh_job { job_status = JobStatus.completed hash }

-- A claim of the job, in an envelope.
abbrev pub claim_by : PeerId → GossipEnvelope
claim_by worker = record {
  id = record { bytes = worker.bytes };
  origin = worker;
  ttl = 3;
  payload = claim_job job_one worker;
  signature = [];
}
