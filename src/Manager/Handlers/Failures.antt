-- ===== src/Manager/Handlers/Failures.antt =====
-- manager/worker_conn_handler.go, `handleJobError` and `handleFailJob`, with the timer of a retry.
use workforce.Prelude.{
  String, Bool, false, none, some, [], ◌∷◌, ◌++◌, if◌then◌else◌, ◌==◌, string_eq,
}
use workforce.Prelude.Int.{ℤ, pos, ◌+ℤ◌, wrap64, ltb_ℤ}
use workforce.Contract.Job.{Job, pending, failed, cancelled, Time, is_terminal, status_eq}
use workforce.Contract.Task.{RetryPolicy, RunStatus, ResultType}
use workforce.Store.{update_job, get_job, get_task}
use workforce.Store.Logs.{close_job_log_subscribers}
use workforce.Webhooks.{failed_data, time_add}
use workforce.Manager.Config.{Config, is_final_exit}
use workforce.Manager.Messages.{ResultMessage}
use workforce.Manager.Retry.{merge_retry_policy, retry_delay}
use workforce.Manager.Server.{
  Outside, Server, with_status, finished, failed_for, fire, enqueue_job, resolve_run_id, close_run,
  utf8,
}
use workforce.Manager.WorkerConn.{SimpleSet}
use workforce.Manager.WorkerPool.{Ref, restore_capacity}

module _ (S : SimpleSet) (O : Outside) (c : Config) where
  -- The second part of `handleFailJob`, on the parent of a child job. The webhook is fired with the
  -- child.
  unfoldable pub fail_parent : Time → Job → String → Server S O → Server S O
  fail_parent now job reason s = elim (get_job job.parent_job_id s.store) [
    | none ↦ s
    | some parent ↦
        let m = close_job_log_subscribers parent.id s.store in
        let s' = record s { store = (update_job parent.id (failed_for reason now) m).1 } in
        fire S O now job (failed_data reason) s'
  ]

  unfoldable pub handle_fail_job : Time → Job → String → Server S O → Server S O
  handle_fail_job now job reason s =
      let s1 = record s { store = (update_job job.id (finished failed now) s.store).1 } in
      let gone = record job { status = failed } in
      let s2 = fire S O now gone (failed_data reason) s1 in
      let s3 = record s2 { store = close_job_log_subscribers job.id s2.store } in
      let s4 = fail_parent now gone reason s3 in if job.parent_job_id == "" then s3 else s4

  -- The assignments of `handleJobError` on the job.
  abbrev pub attempted : ℤ → String → Time → Job → Job
  attempted attempts reason now job = record job {
    attempts = attempts;
    failure_reason = reason;
    updated_at = now;
  }

  unfoldable pub effective_policy : Job → Server S O → RetryPolicy
  effective_policy job s = elim (get_task job.task_name s.store) [
    | none ↦ c.default_retry_policy
    | some task ↦ merge_retry_policy task.retry_policy c.default_retry_policy
  ]

  -- The part of `handleJobError` on a job that is not terminal.
  unfoldable pub record_failure : Time → Ref → Job → ResultMessage → Server S O → Server S O
  record_failure now r job msg s =
      let s1 = record s { pool = restore_capacity S now r job.id job.cost s.pool } in
      let run_id = resolve_run_id S O msg.job_id msg.run_id s1 in
      let s2 =
        close_run S O now run_id msg.job_id RunStatus.failed msg.kind (utf8 msg.reason) msg.reason
          msg.exit_code s1 in
      let attempts = wrap64 (job.attempts +ℤ pos 1) in
      record s2 { store = (update_job job.id (attempted attempts msg.reason now) s2.store).1 }

  -- Whether `handleJobError` schedules a retry, once the job has had `attempts`.
  unfoldable pub retries_job : Job → ResultMessage → ℤ → Server S O → Bool
  retries_job job msg attempts s =
      let effective = effective_policy job s in
      if is_final_exit c msg.exit_code then false else ltb_ℤ attempts effective.max_attempts

  unfoldable pub schedule_retry : Time → Job → ℤ → Server S O → Server S O
  schedule_retry now job attempts s =
      let delay = retry_delay (effective_policy job s) attempts in
      record s { retries = s.retries ++ (time_add now delay, job.id) ∷ [] }

  unfoldable pub handle_job_error : Time → Ref → Job → ResultMessage → Server S O → Server S O
  handle_job_error now r job msg s =
      let run_id = resolve_run_id S O msg.job_id msg.run_id s in
      let closed =
        close_run S O now run_id msg.job_id RunStatus.failed ResultType.error (utf8 "cancelled")
          "cancelled" (pos 0) s in
      let s1 = record_failure now r job msg s in
      let attempts = wrap64 (job.attempts +ℤ pos 1) in
      let job1 = record job { attempts = attempts } in
      if is_terminal job.status
      then (if job.status == cancelled then closed else s)
      else if retries_job job msg attempts s1
      then schedule_retry now job attempts s1
      else handle_fail_job now job1 msg.reason s1

  -- The function that the timer runs.
  unfoldable pub fire_retry : Time → String → Server S O → Server S O
  fire_retry now job_id s = elim (get_job job_id s.store) [
    | none ↦ s
    | some j ↦
        let m = (update_job job_id (with_status pending now) s.store).1 in
        let queued = enqueue_job S O (record j { status = pending }) (record s { store = m }) in
        if is_terminal j.status then s else queued
  ]
