-- ===== src/Manager/Handlers/Results.antt =====
-- manager/worker_conn_handler.go: what a result does to the job that it is about.
use workforce.Prelude.{
  ◌≡◌, refl, ap, ◌∙◌, String, Bool, true, false, some, List, if_both, ◌==◌, string_eq,
}
use workforce.Prelude.Int.{ℤ, pos}
use workforce.Contract.Job.{Job, Time, Bytes, is_terminal, cancelled, status_eq}
use workforce.Contract.Task.{RunStatus, ResultType}
use workforce.Store.{get_job}
use workforce.Manager.Config.{Config}
use workforce.Manager.Messages.{ResultMessage, ChildJobRequest}
use workforce.Manager.Server.{Outside, Server, close_run, resolve_run_id}
use workforce.Manager.Server.Jobs.{jobs-close_run, close_run_frame}
use workforce.Manager.WorkerConn.{SimpleSet}
use workforce.Manager.WorkerPool.{Ref}
use workforce.Manager.Handlers.{handle_job_completed}
use workforce.Manager.Handlers.Failures.{handle_job_error}
use workforce.Manager.Handlers.Subjobs.{handle_subjobs_emitted}
use workforce.Manager.Handlers.Step.{handle_result, handle_kind, end_subjobs}

module _ (S : SimpleSet) (O : Outside) (c : Config) where
  -- The jobs, the queue and the timers are those of another state.
  abbrev pub KeepsJobs : Server S O → Server S O → Type 0
  KeepsJobs s t = (t.store.jobs ≡ s.store.jobs) × (t.queue ≡ s.queue) × (t.retries ≡ s.retries)

  close_run-KeepsJobs :
      (now : Time) (run_id job_id : String) (status : RunStatus) (kind : ResultType)
      (output : Bytes) (reason : String) (code : ℤ) (s : Server S O)
      → KeepsJobs s (close_run S O now run_id job_id status kind output reason code s)
  close_run-KeepsJobs now run_id job_id status kind output reason code s =
      let f = close_run_frame S O now run_id job_id status kind output reason code s in
      (jobs-close_run S O now run_id job_id status kind output reason code s, f.1, f.2)

  handle_job_error_terminal :
      (now : Time) (r : Ref) (job : Job) (msg : ResultMessage) (s : Server S O)
      → is_terminal job.status ≡ true
      → KeepsJobs s (handle_job_error S O c now r job msg s)
        × ((handle_job_error S O c now r job msg s).pool ≡ s.pool)
  unfolding handle_job_error
  handle_job_error_terminal now r job msg s t = rw t (
      if_both (λ (x : Server S O). KeepsJobs s x × (x.pool ≡ s.pool)) (job.status == cancelled)
        (
          close_run-KeepsJobs now _ msg.job_id _ _ _ _ _ s,
          (close_run_frame S O now _ msg.job_id _ _ _ _ _ s).0,
        )
        ((refl, refl, refl), refl))

  handle_job_completed_terminal :
      (now : Time) (r : Ref) (job : Job) (msg : ResultMessage) (s : Server S O)
      → is_terminal job.status ≡ true
      → handle_job_completed S O c now r job msg s ≡ s
  unfolding handle_job_completed
  handle_job_completed_terminal now r job msg s t = rw t refl

  handle_subjobs_terminal :
      (now : Time) (job : Job) (reqs : List ChildJobRequest) (s : Server S O)
      → is_terminal job.status ≡ true
      → handle_subjobs_emitted S O c now job reqs s ≡ some (false, s)
  unfolding handle_subjobs_emitted
  handle_subjobs_terminal now job reqs s t = rw t refl

  end_subjobs-KeepsJobs :
      (now : Time) (writes : Bool) (r : Ref) (run_id : String) (job : Job) (msg : ResultMessage)
      (s : Server S O)
      → KeepsJobs s (end_subjobs S O c now writes r run_id job msg false s)
  unfolding end_subjobs
  end_subjobs-KeepsJobs now writes r run_id job msg s =
      close_run-KeepsJobs now run_id msg.job_id RunStatus.completed msg.kind msg.payload "" (pos 0)
        _

  -- A result for a job that is known is handled by its kind.
  pub result_of :
      (now : Time) (writes : Bool) (r : Ref) (msg : ResultMessage) (s : Server S O) (job : Job)
      → get_job msg.job_id s.store ≡ some job
      → handle_result S O c now writes r msg s ≡ handle_kind S O c msg.kind now writes r job msg s
  unfolding handle_result
  result_of now writes r msg s job h = rw (h, handle_result) refl

  handle_kind_terminal :
      (k : ResultType) (now : Time) (writes : Bool) (r : Ref) (job : Job) (msg : ResultMessage)
      (s : Server S O)
      → is_terminal job.status ≡ true
      → (s' : Server S O) × (handle_kind S O c k now writes r job msg s ≡ some s') × KeepsJobs s s'
  unfolding handle_kind
  handle_kind_terminal ResultType.error now writes r job msg s t =
      (_, refl, (handle_job_error_terminal now r job msg s t).0)
  handle_kind_terminal ResultType.success now writes r job msg s t = (
    s,
    ap (λ (x : Server S O). some x) (handle_job_completed_terminal now r job msg s t),
    (refl, refl, refl),
  )
  handle_kind_terminal ResultType.subjobs now writes r job msg s t =
      let run_id = resolve_run_id S O msg.job_id msg.run_id s in
      (
        end_subjobs S O c now writes r run_id job msg false s,
        rw (handle_subjobs_terminal now job msg.jobs s t, handle_kind) refl,
        end_subjobs-KeepsJobs now writes r run_id job msg s,
      )

  -- A result for a job that is terminal is handled to the end and changes no job, queues nothing and
  -- sets no timer.
  pub handle_result_terminal :
      (now : Time) (writes : Bool) (r : Ref) (msg : ResultMessage) (s : Server S O) (job : Job)
      → get_job msg.job_id s.store ≡ some job
      → is_terminal job.status ≡ true
      → (s' : Server S O) × (handle_result S O c now writes r msg s ≡ some s') × KeepsJobs s s'
  handle_result_terminal now writes r msg s job h t =
      let (s', e, k) = handle_kind_terminal msg.kind now writes r job msg s t in
      (s', result_of now writes r msg s job h ∙ e, k)

  handle_kind-error_pool :
      (k : ResultType) (now : Time) (writes : Bool) (r : Ref) (job : Job) (msg : ResultMessage)
      (s : Server S O)
      → k ≡ ResultType.error
      → is_terminal job.status ≡ true
      → (s' : Server S O) × (handle_kind S O c k now writes r job msg s ≡ some s')
        × (s'.pool ≡ s.pool)
  unfolding handle_kind
  handle_kind-error_pool ResultType.error now writes r job msg s e t =
      (_, refl, (handle_job_error_terminal now r job msg s t).1)
  handle_kind-error_pool ResultType.success now writes r job msg s e t = absurd (cc)
  handle_kind-error_pool ResultType.subjobs now writes r job msg s e t = absurd (cc)

  -- An error reported for a job that is terminal, as a worker does for a job that was cancelled,
  -- restores no capacity: every worker is as it was.
  pub handle_result-error_terminal :
      (now : Time) (writes : Bool) (r : Ref) (msg : ResultMessage) (s : Server S O) (job : Job)
      → get_job msg.job_id s.store ≡ some job
      → is_terminal job.status ≡ true
      → msg.kind ≡ ResultType.error
      → (s' : Server S O) × (handle_result S O c now writes r msg s ≡ some s') × (s'.pool ≡ s.pool)
  handle_result-error_terminal now writes r msg s job h t e =
      let (s', f, p) = handle_kind-error_pool msg.kind now writes r job msg s e t in
      (s', result_of now writes r msg s job h ∙ f, p)
