-- ===== src/Manager/Samples.antt =====
-- The manager that the examples run: one parent with two children, one of them cancelled, and one
-- worker.
use workforce.Prelude.{
  String, Bool, true, false, ◌||◌, none, some, List, [], ◌∷◌, length, ◌==◌, string_eq,
  if◌then◌else◌,
}
use workforce.Prelude.Int.{pos}
use workforce.Contract.Job.{Job, zero_job, running, cancelled, awaiting_children}
use workforce.Contract.Task.{ResultType}
use workforce.Contract.Worker.{online}
use workforce.Store.{MemStore, new_mem_store}
use workforce.Manager.Config.{Config}
use workforce.Manager.Messages.{ResultMessage}
use workforce.Manager.Server.{Outside, Server}
use workforce.Manager.WorkerConn.{SimpleSet, WorkerConn, rejections}

abbrev member : String → List String → Bool
member j [] = false
member j (x ∷ xs) = x == j || member j xs

abbrev without : String → List String → List String
without k [] = []
without k (x ∷ xs) = let rest = without k xs in if x == k then rest else x ∷ rest

abbrev pub sets : SimpleSet
sets = record {
  Set = List String;
  empty = [];
  add = λ k s. k ∷ s;
  remove = without;
  has = member;
  size = λ s. length s;
  snapshot = λ s. s;
}

abbrev pub outside : Outside
outside = record {
  ulid = λ n. "run-1";
  marshal = λ e. some [];
  marshal_consolidate = λ p. some p.payload;
  carried = λ p. none;
}

abbrev pub config : Config
config = record {
  has_job_store = true;
  has_task_store = true;
  has_log_store = true;
  has_run_store = true;
  has_webhook_store = true;
  artifacts_registry = none;
  worker_selector = none;
  heartbeat_timeout = pos 30;
  worker_connect_path = "/workers/connect";
  has_worker_auth = true;
  has_client_auth = true;
  no_worker_auth = false;
  no_client_auth = false;
  webhook = record {
    webhook_timeout = pos 1;
    webhook_max_backoff = pos 300;
    max_webhook_attempts = pos 0;
  };
  max_artifact_upload_size = pos 1_000;
  artifact_signed_url_ttl = pos 3_600;
  default_retry_policy = record {
    max_attempts = pos 3;
    retry_delay = pos 10;
    max_retry_delay = pos 60;
  };
  starvation_timeout = pos 300;
  has_resource_shortage = false;
  scale_up_cooldown = pos 30;
  idle_worker_threshold = pos 300;
  has_idle_worker = false;
  scale_down_cooldown = pos 60;
  idle_worker_evaluation_interval = pos 900;
  default_panic_exit_code = 2;
  default_do_not_retry_exit_code_range = record { from = 200; to = 254 };
}

abbrev pub parent_job : Job
parent_job = record zero_job {
  id = "parent";
  task_name = "split";
  status = awaiting_children;
  webhook_url = "https://example.com/hook";
}

abbrev pub running_job : Job
running_job = record zero_job {
  id = "first";
  parent_job_id = "parent";
  task_name = "resize";
  status = running;
  cost = pos 2;
}

abbrev pub cancelled_job : Job
cancelled_job = record zero_job {
  id = "second";
  parent_job_id = "parent";
  task_name = "resize";
  status = cancelled;
  cost = pos 2;
}

abbrev worker : WorkerConn sets
worker = record {
  worker_id = "w1";
  os = "linux";
  arch = "amd64";
  capacity = pos 4;
  connected_at = 1;
  is_closed = false;
  state = online;
  in_flight = "first" ∷ "second" ∷ [];
  occupied_cost = pos 4;
  last_idle_at = 1;
  last_heartbeat = 1;
  last_idle_notified = 0;
  rejected_jobs_cache = rejections sets;
}

abbrev store : MemStore
store = record new_mem_store {
  jobs = ("parent", parent_job) ∷ ("first", running_job) ∷ ("second", cancelled_job) ∷ [];
}

abbrev pub server : Server sets outside
server = record {
  store = store;
  pool = record {
    conns = (0, worker) ∷ [];
    workers = ("w1", 0) ∷ [];
    platform = ("linux/amd64", 0 ∷ []) ∷ [];
    requeued = [];
    notified = 0;
    next_ref = 1;
  };
  queue = record { items = record { ref = 0; value = parent_job; index = 0 } ∷ []; next_ref = 1 };
  cancelled_job_ids = [];
  active_run_ids = [];
  retries = [];
  ulids = 0;
  sent = [];
  woken = false;
}

abbrev pub failure : String → ResultMessage
failure id = record {
  parent_job_id = "parent";
  job_id = id;
  run_id = "run-7";
  kind = ResultType.error;
  duration = pos 5;
  warnings = "";
  reason = "exit 1";
  exit_code = pos 1;
  jobs = [];
  payload = [];
}
