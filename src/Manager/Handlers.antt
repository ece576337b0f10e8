-- ===== src/Manager/Handlers.antt =====
-- manager/worker_conn_handler.go: one function for each message of a worker. `none` is a handler
-- that waits for good: `handleSubjobsEmitted` fires a webhook from inside `UpdateJob`, and the
-- memory store takes one mutex for its jobs and its webhooks.
pub mod Failures
pub mod Subjobs
pub mod Step
pub mod Results
pub mod Retries
pub mod Consolidation
mod Tests
use workforce.Prelude.{
  ℕ, suc, ◌+◌, String, Bool, true, false, not, ◌&&◌, ◌||◌, Option, none, some, List, [], ◌∷◌, ◌++◌,
  if◌then◌else◌, ◌==◌, string_eq, is_some,
}
use workforce.Prelude.Int.{ℤ, pos, pos_part, ◌+ℤ◌, wrap64, ltb_ℤ}
use workforce.Prelude.Dict.{Dict, lookup, insert}
use workforce.Contract.Job.{
  Job, JobStatus, consolidate, pending, accepted, provisioning, running, awaiting_children, failed,
  completed, cancelled, Time, Bytes, is_terminal, status_eq,
}
use workforce.Contract.Task.{RetryPolicy, RunStatus, ResultType, JobRun, Task}
use workforce.Contract.Worker.{WorkerState}
use workforce.Locksmith.{put}
use workforce.Store.{
  MemStore, update_job, get_job, save_job, create_run, update_run, list_child_jobs, get_task,
}
use workforce.Store.Logs.{append_run_log, close_job_log_subscribers}
use workforce.Webhooks.{EventData, running_data, completed_data, failed_data}
use workforce.Manager.Config.{Config, is_final_exit}
use workforce.Manager.Messages.{
  Frame, heartbeat_frame, dispatch_frame, error_frame, ResultMessage, WorkerMessage,
  heartbeat_message, accept_message, reject_message, staged_message, starting_message, log_message,
  result_message, capacity_message,
}
use workforce.Manager.Retry.{merge_retry_policy, retry_delay}
use workforce.Manager.Server.{
  Outside, Server, with_status, finished, failed_for, with_store, send, fire, enqueue_job,
  worker_id_at, resolve_run_id, resolve_dispatch_payload, close_run, utf8,
}
use workforce.Manager.WorkerConn.{
  SimpleSet, WorkerConn, set_state, update_heartbeat, override_capacity,
}
use workforce.Manager.WorkerPool.{Ref, restore_capacity, write}

module _ (S : SimpleSet) (O : Outside) (c : Config) where
  -- The run record of a dispatch.
  abbrev pub new_run : String → Job → String → Bytes → JobRun
  new_run run_id job worker_id payload = record {
    id = run_id;
    job_id = job.id;
    phase = job.phase;
    attempt = wrap64 (job.attempts +ℤ pos 1);
    worker_id = worker_id;
    status = RunStatus.provisioning;
    input_payload = payload;
    output_payload = [];
    failure_reason = "";
    exit_code = pos 0;
    result_type = ResultType.success;
    started_at = 0;
    finished_at = 0;
  }

  -- The part of `handleAcceptMessage` from the run record on.
  unfoldable pub start_run : Bool → Ref → Job → Bytes → Server S O → Server S O
  start_run writes r job payload s =
      let run_id = O.ulid s.ulids in
      let run = new_run run_id job (worker_id_at S O r s) payload in
      send S O writes r (dispatch_frame job.id run_id job.phase job.attempts payload) (record s {
        store = create_run run s.store;
        ulids = suc s.ulids;
        active_run_ids = insert job.id run_id s.active_run_ids;
      })

  unfoldable pub dispatch_accepted : Bool → Ref → Job → Server S O → Server S O
  dispatch_accepted writes r job s = elim (resolve_dispatch_payload S O job s) [
    | none ↦ s
    | some payload ↦ start_run writes r job payload s
  ]

  -- The error of `UpdateJob` and that of `GetJob` after it are the same here.
  unfoldable pub handle_accept : Time → Bool → Ref → String → Server S O → Server S O
  handle_accept now writes r job_id s =
      let m = (update_job job_id (with_status accepted now) s.store).1 in
      elim (get_job job_id m) [
        | none ↦ s
        | some job ↦ dispatch_accepted writes r job (record s { store = m })
      ]

  unfoldable pub handle_staged : Time → String → Server S O → Server S O
  handle_staged now job_id s = record s {
    store = (update_job job_id (with_status provisioning now) s.store).1;
  }

  unfoldable pub handle_reject : Time → Bool → Ref → String → Server S O → Server S O
  handle_reject now writes r job_id s = elim (get_job job_id s.store) [
    | none ↦ send S O writes r (error_frame "invalid_argument") s
    | some job ↦
        let pool = restore_capacity S now r job.id job.cost s.pool in
        enqueue_job S O (record job { status = pending })
          (record s {
            store = (update_job job_id (with_status pending now) s.store).1;
            pool =
                write S r
                  (λ w. record w { rejected_jobs_cache = put now job.id tt w.rejected_jobs_cache })
                  pool;
          })
  ]

  abbrev pub started_run : Time → JobRun → JobRun
  started_run now run = record run { status = RunStatus.running; started_at = now }

  unfoldable pub handle_starting : Time → Ref → String → String → Server S O → Server S O
  handle_starting now r job_id run_id s = elim (get_job job_id s.store) [
    | none ↦ s
    | some job ↦
        let m = (update_job job.id (with_status running now) s.store).1 in
        let id = resolve_run_id S O job_id run_id s in
        let m' = if id == "" then m else (update_run id (started_run now) m).1 in
        fire S O now job (running_data (worker_id_at S O r s)) (record s { store = m' })
  ]

  pub handle_log : String → String → Bytes → Server S O → Server S O
  handle_log job_id run_id line s =
      let id = resolve_run_id S O job_id run_id s in
      if id == "" then s else record s { store = append_run_log id line (λ m. m) s.store }

  -- Whether every sibling is completed: the loop over them ends early at any other.
  unfoldable pub all_completed : List Job → Bool
  all_completed [] = true
  all_completed (j ∷ jobs) = is_terminal j.status && j.status == completed && all_completed jobs

  -- The guarded transition of the parent, as `UpdateJob` runs it.
  abbrev pub to_consolidation : Time → Job → Job
  to_consolidation now j =
      if j.status == awaiting_children
      then record j { status = pending; phase = consolidate; updated_at = now }
      else j

  -- `parent` is the copy of `GetJob`; the guard is tested on the job that `UpdateJob` finds, after what
  -- others did in between.
  abbrev pub scheduled : Time → Job → Server S O → Server S O
  scheduled now parent s = elim (get_job parent.id s.store) [
    | none ↦ s
    | some j ↦
        let s' = record s { store = (update_job parent.id (to_consolidation now) s.store).1 } in
        let queued = enqueue_job S O (record parent { status = pending; phase = consolidate }) s' in
        if j.status == awaiting_children then queued else s'
  ]

  unfoldable pub schedule_consolidation :
      Time → String → (Server S O → Server S O) → Server S O → Server S O
  schedule_consolidation now parent_id between s = elim (get_job parent_id s.store) [
    | none ↦ s
    | some parent ↦ scheduled now parent (between s)
  ]

  -- The part of `handleJobCompleted` that looks at the siblings; `between` is what other handlers do
  -- between `GetJob` and `UpdateJob`.
  unfoldable pub consolidate_parent :
      Time → Job → (Server S O → Server S O) → Server S O → Server S O
  consolidate_parent now job between s =
      let next = schedule_consolidation now job.parent_job_id between s in
      if job.parent_job_id == ""
      then s
      else if all_completed (list_child_jobs job.parent_job_id s.store)
      then next
      else s

  abbrev pub completed_with : Bytes → Time → Job → Job
  completed_with result now job = record (finished completed now job) { result = result }

  -- The part of `handleJobCompleted` on a job that is not terminal.
  unfoldable pub complete_job : Time → Ref → Job → ResultMessage → Server S O → Server S O
  complete_job now r job msg s =
      let m = close_job_log_subscribers job.id s.store in
      let run_id = resolve_run_id S O msg.job_id msg.run_id s in
      let s1 = record s { store = (update_job msg.job_id (completed_with msg.payload now) m).1 } in
      let s2 =
        close_run S O now run_id msg.job_id RunStatus.completed msg.kind msg.payload "" (pos 0)
          s1 in
      let s3 = record s2 { pool = restore_capacity S now r job.id job.cost s2.pool } in
      let done = record job { status = completed } in
      let s4 = fire S O now done (completed_data job.result) s3 in
      if is_some (get_job msg.job_id m)
      then consolidate_parent now job (λ t. t) s4
      else record s { store = m }

  unfoldable pub handle_job_completed : Time → Ref → Job → ResultMessage → Server S O → Server S O
  handle_job_completed now r job msg s =
      let done = complete_job now r job msg s in if is_terminal job.status then s else done
