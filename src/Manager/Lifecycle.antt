-- ===== src/Manager/Lifecycle.antt =====
-- manager/manager.go: cancelling a job, and what becomes of the jobs of a worker that is gone and of
-- a manager that was restarted. `RunStore` is set.
pub mod Cancellation
pub mod Recovery
pub mod Requeue
mod Tests
use workforce.Prelude.{
  ℕ, String, Bool, true, false, not, ◌&&◌, ◌||◌, Option, none, some, List, [], ◌∷◌, ◌++◌,
  if◌then◌else◌, ◌==◌, string_eq,
}
use workforce.Contract.Job.{
  Job, pending, proposing, accepted, provisioning, running, failed, cancelled, Time, is_terminal,
  status_eq,
}
use workforce.Contract.Task.{JobRun, RunStatus}
use workforce.Store.{
  MemStore, get_job, update_job, update_run, list_child_jobs, list_job_runs, list_pending_jobs,
  list_recoverable_jobs,
}
use workforce.Webhooks.{failed_data, cancelled_data}
use workforce.Manager.Config.{Config}
use workforce.Manager.Messages.{cancel_frame}
use workforce.Manager.Server.{
  Outside, Server, finished, failed_for, send, fire, enqueue_job, enqueue_jobs,
}
use workforce.Manager.WorkerConn.{SimpleSet}
use workforce.Manager.WorkerPool.{find_worker_by_in_flight_job_id}

-- `j.Status = …Pending`
abbrev pub reset : Job → Job
reset j = record j { status = pending }

abbrev pub ended_run : String → Time → JobRun → JobRun
ended_run reason now run = record run {
  status = RunStatus.failed;
  failure_reason = reason;
  finished_at = now;
}

abbrev pub is_open : JobRun → Bool
is_open run = elim run.status [
  | RunStatus.provisioning ↦ true
  | RunStatus.running ↦ true
  | RunStatus.completed ↦ false
  | RunStatus.failed ↦ false
]

-- The loop over the runs of a job.
unfoldable pub end_runs : String → Time → List JobRun → MemStore → MemStore
end_runs reason now [] m = m
end_runs reason now (run ∷ runs) m =
    let ended = end_runs reason now runs (update_run run.id (ended_run reason now) m).1 in
    let kept = end_runs reason now runs m in if is_open run then ended else kept

-- The loop of `RecoverJobs`; the jobs are copies.
unfoldable pub reset_jobs : Time → List Job → MemStore → MemStore
reset_jobs now [] m = m
reset_jobs now (j ∷ jobs) m =
    let m' = end_runs "recovered: manager restarted" now (list_job_runs j.id m) m in
    reset_jobs now jobs (update_job j.id reset m').1

abbrev pub reset_all : List Job → List Job
reset_all [] = []
reset_all (j ∷ jobs) = reset j ∷ reset_all jobs

module _ (S : SimpleSet) (O : Outside) where
  -- `SendCancelToWorker`
  unfoldable pub send_cancel : Bool → String → Server S O → Server S O
  send_cancel writes job_id s = elim (find_worker_by_in_flight_job_id S job_id s.pool) [
    | none ↦ s
    | some r ↦ send S O writes r (cancel_frame job_id) s
  ]

  abbrev pub is_dispatched : Job → Bool
  is_dispatched j = j.status == running || j.status == provisioning || j.status == proposing

  abbrev pub mark_cancelled : Job → Server S O → Server S O
  mark_cancelled j s =
      if j.status == pending
      then record s { cancelled_job_ids = S.add j.id s.cancelled_job_ids }
      else s

  abbrev pub tell_worker : Bool → Bool → String → Server S O → Server S O
  tell_worker writes tells job_id s = if tells then send_cancel writes job_id s else s

  -- The body of the loop over the children.
  unfoldable pub cancel_child : Time → Bool → Job → Server S O → Server S O
  cancel_child now writes child s =
      let s1 = mark_cancelled child (tell_worker writes (is_dispatched child) child.id s) in
      if is_terminal child.status
      then s
      else record s1 { store = (update_job child.id (finished cancelled now) s1.store).1 }

  unfoldable pub cancel_children : Time → Bool → List Job → Server S O → Server S O
  cancel_children now writes [] s = s
  cancel_children now writes (child ∷ children) s =
      cancel_children now writes children (cancel_child now writes child s)

  unfoldable pub cancel_job_by_id : Time → Bool → String → Server S O → Server S O
  cancel_job_by_id now writes job_id s = elim (get_job job_id s.store) [
    | none ↦ s
    | some job ↦
        let s1 = cancel_children now writes (list_child_jobs job_id s.store) s in
        let s2 =
          mark_cancelled job
            (tell_worker writes (is_dispatched job || job.status == accepted) job_id s1) in
        let s3 = record s2 { store = (update_job job_id (finished cancelled now) s2.store).1 } in
        fire S O now job cancelled_data s3
  ]

  unfoldable pub fail_job_direct : Time → Job → String → Server S O → Server S O
  fail_job_direct now job reason s =
      let mark : Job → Job =
        λ j. record j { status = failed; failure_reason = reason; updated_at = now } in
      fire S O now job (failed_data reason)
        (record s { store = (update_job job.id mark s.store).1 })

  -- `OnJobsRequeued`
  unfoldable pub on_jobs_requeued : Time → List String → Server S O → Server S O
  on_jobs_requeued now [] s = s
  on_jobs_requeued now (id ∷ ids) s =
      let m = end_runs "worker disconnected" now (list_job_runs id s.store) s.store in
      let absent = on_jobs_requeued now ids (record s { store = m }) in
      elim (get_job id m) [
        | none ↦ absent
        | some job ↦
            on_jobs_requeued now ids
              (enqueue_job S O (reset job) (record s { store = (update_job id reset m).1 }))
      ]

  unfoldable pub recover_jobs : Time → Server S O → Server S O
  recover_jobs now s =
      let recoverable = list_recoverable_jobs s.store in
      enqueue_jobs S O (list_pending_jobs s.store ++ reset_all recoverable)
        (record s { store = reset_jobs now recoverable s.store })
