-- ===== src/Manager/Server.antt =====
-- The state that the connection handlers (manager/worker_conn_handler.go), the dispatcher
-- (manager/dispatcher.go) and the manager (manager/manager.go) share, and what they do to it in
-- common. All stores are one memory store, as in dispatcher_test.go. A handler is one step and
-- reads the clock once.
pub mod Jobs
use Prim.Native.Char.{code}
use workforce.Prelude.{
  ℕ, suc, ◌+◌, ◌-◌, ◌*◌, ◌/◌, ◌%◌, String, Bool, true, false, Option, none, some, List, [], ◌∷◌,
  ◌++◌, length, ltb, leb, if◌then◌else◌, ◌==◌, string_eq, nat_eq, is_some,
}
use workforce.Prelude.Int.{ℤ, pos, ◌-ℤ◌, sat64}
use workforce.Prelude.Dict.{Dict, lookup, insert, delete}
use workforce.Contract.Job.{
  Job, JobStatus, JobPhase, consolidate, pending, failed, cancelled, completed, Time, Bytes,
  is_terminal, status_eq,
}
use workforce.Contract.Task.{RunStatus, ResultType, JobRun}
use workforce.Store.{MemStore, update_job, update_run, list_child_jobs, sort_slice, get_job}
use workforce.Store.Logs.{append_run_log, close_run_log_subscribers}
use workforce.Webhooks.{Marshal, EventData, failed_data, enqueue, entry_of}
use workforce.Manager.Messages.{Frame}
use workforce.Manager.Queue.{PriorityQueue, push_item, job_outranks}
use workforce.Manager.WorkerConn.{SimpleSet, WorkerConn}
use workforce.Manager.WorkerPool.{WorkerPool, Ref, notify_dispatcher}

-- contract/job.go
pub record ChildJobResult : Type 0 where
  pub job_id : String
  pub task_name : String
  pub result : Bytes

pub record ConsolidatePayload : Type 0 where
  pub payload : Bytes
  pub children : List ChildJobResult

-- lowbit.dev/ulid and encoding/json. `carried` is the payload that `json.Unmarshal` finds in a
-- consolidate payload, `none` for an error and for nil.
pub record Outside : Type 0 where
  pub ulid : ℕ → String
  pub marshal : Marshal
  pub marshal_consolidate : ConsolidatePayload → Option Bytes
  pub carried : Bytes → Option Bytes

-- `[]byte(s)`: the text in UTF-8.
abbrev pub utf8_char : ℕ → List ℕ
utf8_char c =
    if ltb c 128
    then c ∷ []
    else if ltb c 2_048
    then (192 + c / 64) ∷ (128 + c % 64) ∷ []
    else if ltb c 65_536
    then (224 + c / 4_096) ∷ (128 + c / 64 % 64) ∷ (128 + c % 64) ∷ []
    else (240 + c / 262_144) ∷ (128 + c / 4_096 % 64) ∷ (128 + c / 64 % 64) ∷ (128 + c % 64) ∷ []

pub utf8 : String → Bytes
utf8 String.[] = []
utf8 (String.◌∷◌ c s) = utf8_char (code c) ++ utf8 s

abbrev pub with_status : JobStatus → Time → Job → Job
with_status status now job = record job { status = status; updated_at = now }

-- The assignments on a transition to a terminal status.
abbrev pub finished : JobStatus → Time → Job → Job
finished status now job = record job {
  status = status;
  updated_at = now;
  completed_at = some now;
  duration = some (sat64 (pos now -ℤ pos job.created_at));
}

abbrev pub failed_for : String → Time → Job → Job
failed_for reason now job = record (finished failed now job) { failure_reason = reason }

module _ (S : SimpleSet) (O : Outside) where
  -- `retries` holds the timers of `time.AfterFunc`, `ulids` counts the identifiers made or passed over, `sent` has
  -- the frames written and to whom, and `woken` is the buffered signal of the webhook dispatcher.
  pub record Server : Type 0 where
    pub store : MemStore
    pub pool : WorkerPool S
    pub queue : PriorityQueue Job
    pub cancelled_job_ids : S.Set
    pub active_run_ids : Dict String String
    pub retries : List (Time × String)
    pub ulids : ℕ
    pub sent : List (Ref × Frame)
    pub woken : Bool

  abbrev pub with_store : Server → MemStore → Server
  with_store s m = record s { store = m }

  -- `w.Send`; `writes` says whether the connection takes it.
  pub send : Bool → Ref → Frame → Server → Server
  send writes r frame s = if writes then record s { sent = s.sent ++ (r, frame) ∷ [] } else s

  -- `FireJob…`
  pub fire : Time → Job → EventData → Server → Server
  fire now job body s =
      let (woke, m) = enqueue O.marshal now (O.ulid s.ulids) job body s.store in
      record s { store = m; ulids = suc s.ulids; woken = if woke then true else s.woken }

  -- dispatcher.go, `EnqueueJob` and `EnqueueJobs`
  unfoldable pub enqueue_job : Job → Server → Server
  enqueue_job job s = record s {
    queue = (push_item job_outranks job s.queue).1;
    pool = notify_dispatcher S s.pool;
  }

  unfoldable pub push_jobs : List Job → PriorityQueue Job → PriorityQueue Job
  push_jobs [] q = q
  push_jobs (j ∷ jobs) q = push_jobs jobs (push_item job_outranks j q).1

  unfoldable pub enqueue_jobs : List Job → Server → Server
  enqueue_jobs [] s = s
  enqueue_jobs (j ∷ jobs) s = record s {
    queue = push_jobs (j ∷ jobs) s.queue;
    pool = notify_dispatcher S s.pool;
  }

  abbrev pub worker_id_at : Ref → Server → String
  worker_id_at r s = elim (lookup r s.pool.conns) [ none ↦ "" | some w ↦ w.worker_id ]

  pub resolve_run_id : String → String → Server → String
  resolve_run_id job_id msg_run_id s =
      let known : String = elim (lookup job_id s.active_run_ids) [ none ↦ "" | some id ↦ id ] in
      if msg_run_id == "" then known else msg_run_id

  -- manager.go: the order of the children in a consolidate payload
  pub earlier : Job → Job → Bool
  earlier a b = ltb a.created_at b.created_at

  pub child_results : List Job → List ChildJobResult
  child_results [] = []
  child_results (c ∷ cs) =
      record { job_id = c.id; task_name = c.task_name; result = c.result } ∷ child_results cs

  pub build_consolidate_payload : Job → List Job → Option Bytes
  build_consolidate_payload parent children =
      let kept : Bytes = elim (O.carried parent.payload) [ none ↦ parent.payload | some p ↦ p ] in
      let base_payload = if leb 1 (length parent.payload) then kept else parent.payload in
      O.marshal_consolidate
        (record { payload = base_payload; children = child_results (sort_slice earlier children) })

  pub resolve_dispatch_payload : Job → Server → Option Bytes
  resolve_dispatch_payload job s = elim job.phase [
    | consolidate ↦ build_consolidate_payload job (list_child_jobs job.id s.store)
    | JobPhase.run ↦ some job.payload
  ]

  -- The run record that `closeRun` leaves.
  abbrev pub closed_run : Time → RunStatus → ResultType → Bytes → String → ℤ → JobRun → JobRun
  closed_run now status result_type output reason exit_code run = record run {
    status = status;
    result_type = result_type;
    output_payload = output;
    failure_reason = reason;
    exit_code = exit_code;
    finished_at = now;
  }

  -- The line that `closeRun` appends to the log, if the run failed for a reason.
  abbrev pub log_failure : RunStatus → String → String → MemStore → MemStore
  log_failure RunStatus.failed reason run_id m =
      let logged =
        append_run_log run_id (utf8 "[workforce] run failed: " ++ utf8 reason) (λ n. n) m in
      if reason == "" then m else logged
  log_failure status reason run_id m = m

  pub close_run :
      Time → String → String → RunStatus → ResultType → Bytes → String → ℤ → Server → Server
  close_run now run_id job_id status result_type output reason exit_code s =
      let m = log_failure status reason run_id s.store in
      let m' =
        (update_run run_id (closed_run now status result_type output reason exit_code) m).1 in
      if run_id == "" then s else record s {
        active_run_ids = delete job_id s.active_run_ids;
        store = close_run_log_subscribers run_id m';
      }
