-- ===== src/Manager/Dispatcher/Tests.antt =====
-- manager/dispatcher.go on a queue of one job.
use workforce.Contract.Task.{Task}
use workforce.Prelude.Int.{pos}
use workforce.Manager.Server.{Server}
use workforce.Prelude.{false, [], ◌∷◌, ◌≡◌, ◌≤◌, ◌+◌, refl, true, none, List}
use workforce.Manager.Queue.{queue_size}
use workforce.Manager.Samples.{sets, outside, config, server}
use workforce.Manager.WorkerConn.{WorkerConn}
use workforce.Manager.WorkerPool.{Ref}
use workforce.Manager.Dispatcher.{process_queue}
use workforce.Manager.Dispatcher.Sent.{is_known, proposals}
use workforce.Manager.Dispatcher.Conserved.{process_queue_conserves}
use workforce.Manager.Queue.Counts.{count}

abbrev first : Ref × WorkerConn sets → List (Ref × WorkerConn sets) → Ref × WorkerConn sets
first w ws = w

abbrev split_task : Task
split_task = record {
  name = "split";
  limitations = record { max_execution_time = pos 0; max_memory_bytes = pos 0; max_cpu_cores = 0 };
  retry_policy = record { max_attempts = pos 3; retry_delay = pos 0; max_retry_delay = pos 0 };
  no_result = false;
  cost = pos 0;
}

-- The job of the queue has a task.
abbrev staffed : Server sets outside
staffed = record server { store = record server.store { task_defs = ("split", split_task) ∷ [] } }

process_queue_conserves_example :
    ((process_queue sets outside config first none 50 true staffed).0.dispatched_count
        + (process_queue sets outside config first none 50 true staffed).0.failed_count
        + queue_size (process_queue sets outside config first none 50 true staffed).1.queue
      ≡ queue_size staffed.queue)
    × (count (is_known "parent" staffed.store.task_defs) staffed.queue.items
          + proposals "parent" staffed.sent
        ≤ count
            (is_known "parent" staffed.store.task_defs)
            (process_queue sets outside config first none 50 true staffed).1.queue.items
          + proposals "parent"
              (process_queue sets outside config first none 50 true staffed).1.sent)
process_queue_conserves_example =
    process_queue_conserves sets outside config first none "parent" 50 true staffed (λ id. refl)
