-- ===== src/Tests/Start.antt =====
-- Starting the coordinator and a worker, at concrete environments.
use mathlib.Core.Option.{or_else}
use proof_job_zk.Base.{List, ◌∷◌, ◌≡◌, refl, String, [], ◌++◌, none, some, ok}
use proof_job_zk.Core.Job.{zero_address}
use proof_job_zk.Contract.{new as new_client}
use proof_job_zk.Coordinator.Persistence.{
  Disk, written, renamed, rename_failed, load_jobs, Tick, run_snapshots,
}
use proof_job_zk.Coordinator.Snapshot.{IsKeyed}
use proof_job_zk.Coordinator.Start.{start}
use proof_job_zk.Coordinator.Start.Restart.{start-run-IsKeyed, start-run_snapshots, saved_last}
use proof_job_zk.Coordinator.System.{Process, cursor_of, run}
use proof_job_zk.Indexer.{create_indexer}
use proof_job_zk.Deps.Gossip.{Sockets}
use proof_job_zk.Deps.Host.{Host, running}
use proof_job_zk.Tests.Jobs.{one_job, one_job-IsKeyed, events}
use proof_job_zk.Tests.Runtime.{
  runtime, job_one, worker_a, log, local, client, quiet_chain, zero_cursor,
}
use proof_job_zk.Tests.Table.{get}
use proof_job_zk.Tests.Texts.{texts, texts_json, Jobs-discrete}
use proof_job_zk.Tests.Worker.{machine, claimant, acceptance}
use proof_job_zk.Worker.Handler.{handle_message}
use proof_job_zk.Worker.Invariant.{Inv, here, next}
use proof_job_zk.Worker.Start.{start_worker}
use proof_job_zk.Worker.Started.{start_worker-Reach-Inv}
use proof_job_zk.Worker.State.{Worker, WorkerStatus}
use proof_job_zk.Worker.Task.{message, spawn}

-- Every variable is set, or none is.
abbrev full : Host
full = record {
  var = λ name. some "url";
  parse_socket_addr = λ text. ok local;
  join = λ dir file. file;
}

abbrev bare : Host
bare = record full { var = λ name. none }

abbrev sockets : Sockets log
sockets = record {
  listen = λ address. ok [];
  connect = λ address node. ok node;
  bind = λ address. ok tt;
  local_addr = λ node. ok local;
}

abbrev files : String → Disk
files path = record { snapshot = some "jobs"; temporary = some "jobs" }

abbrev served : Process texts runtime
served = record {
  state = record {
    jobs = one_job;
    gossip = [];
    contract = some (record client { signer = "url" });
    config = record {
      http_addr = local;
      gossip_addr = local;
      default_deadline_secs = 300;
      rpc_url = some "url";
      contract_address = some "url";
      private_key = some "url";
    };
  };
  indexer = some zero_cursor;
}

starts : start texts runtime full sockets files quiet_chain ≡ running (served, quiet_chain)
unfolding start or_else new_client create_indexer load_jobs cursor_of
starts = refl

-- Without settings there is neither a client nor an indexer.
starts_bare :
    start texts runtime bare sockets files quiet_chain
    ≡ running (
      record {
        state = record served.state {
          contract = none;
          config = record served.state.config {
            rpc_url = none;
            contract_address = none;
            private_key = none;
          };
        };
        indexer = none;
      },
      quiet_chain,
    )
unfolding start load_jobs or_else
starts_bare = refl

start-run-IsKeyed_example : IsKeyed texts runtime (run texts runtime served events).state.jobs
start-run-IsKeyed_example =
    start-run-IsKeyed texts runtime full sockets files quiet_chain quiet_chain served events starts

abbrev nothing_saved : Disk
nothing_saved = record { snapshot = none; temporary = none }

-- Two ticks; at the second the file cannot be renamed.
abbrev ticks : List (Tick texts runtime)
ticks =
    record { jobs = one_job; write = written; rename = renamed }
    ∷ record { jobs = one_job; write = written; rename = rename_failed "busy" }
    ∷ []

left_behind : files "" ≡ run_snapshots texts runtime ticks nothing_saved
unfolding run_snapshots Jobs-discrete
left_behind = refl

start-run_snapshots_example :
    get job_one served.state.jobs
    ≡ get job_one
        (saved_last texts runtime ticks nothing_saved (load_jobs texts runtime nothing_saved))
start-run_snapshots_example =
    start-run_snapshots texts runtime full sockets files texts_json ticks nothing_saved quiet_chain
      quiet_chain served job_one (one_job-IsKeyed, (one_job-IsKeyed, tt)) left_behind starts

abbrev ready : Worker machine
ready = record claimant {
  status = WorkerStatus.idle;
  chain = record { rpc_url = "url"; contract_address = zero_address; signer = "url" };
  config = record claimant.config { private_key = "url" };
}

worker_starts : start_worker machine sockets texts full worker_a ≡ running ready
unfolding start_worker or_else new_client
worker_starts = refl

start_worker-Reach-Inv_example : Inv machine (
    let h = handle_message machine ready 150 acceptance in
    record { worker = h.self; tasks = [] ++ spawn machine h.spawned })
start_worker-Reach-Inv_example =
    start_worker-Reach-Inv machine sockets texts full worker_a _ _ worker_starts
      (next here (message (record { worker = ready; tasks = [] }) 150 acceptance))
