-- ===== src/Manager/Handlers/Retries.antt =====
-- manager/worker_conn_handler.go, `handleJobError`: a job that failed is retried or failed.
use workforce.Prelude.{
  ◌≡◌, refl, ap, ◌∙◌, inl, inr, String, Bool, true, false, some, List, [], ◌∷◌, ◌++◌, ◌==◌,
  string_eq, Option-cases, Bool-cases,
}
use workforce.Prelude.Int.{pos, ◌+ℤ◌, wrap64}
use workforce.Contract.Job.{Job, Time, is_terminal, failed, status_eq}
use workforce.Contract.Task.{RetryPolicy}
use workforce.Store.{get_job, update_job}
use workforce.Store.Updates.{
  get_job-update_job, get_job-update_self, get_job-jobs, mapped, jobs-close_job_log_subscribers,
}
use workforce.Store.Logs.{close_job_log_subscribers}
use workforce.Webhooks.{failed_data, time_add}
use workforce.Manager.Config.{Config}
use workforce.Manager.Messages.{ResultMessage}
use workforce.Manager.Retry.{retry_delay}
use workforce.Manager.Server.{Outside, Server, fire, finished, failed_for}
use workforce.Manager.Server.Jobs.{jobs-fire, fire_frame, jobs-close_run, close_run_frame}
use workforce.Manager.WorkerConn.{SimpleSet}
use workforce.Manager.WorkerPool.{Ref}
use workforce.Manager.Handlers.Failures.{
  handle_job_error, handle_fail_job, fail_parent, record_failure, retries_job, schedule_retry,
  attempted, effective_policy,
}

module _ (S : SimpleSet) (O : Outside) (c : Config) where
  record_failure-job :
      (now : Time) (r : Ref) (job : Job) (msg : ResultMessage) (s : Server S O)
      → get_job job.id s.store ≡ some job
      → get_job job.id (record_failure S O c now r job msg s).store
        ≡ some (attempted S O c (wrap64 (job.attempts +ℤ pos 1)) msg.reason now job)
  unfolding record_failure
  record_failure-job now r job msg s h =
      get_job-update_self job.id _ _ job
        (get_job-jobs job.id _ s.store (jobs-close_run S O now _ msg.job_id _ _ _ _ _ _) ∙ h)

  record_failure-retries :
      (now : Time) (r : Ref) (job : Job) (msg : ResultMessage) (s : Server S O)
      → (record_failure S O c now r job msg s).retries ≡ s.retries
  unfolding record_failure
  record_failure-retries now r job msg s = (close_run_frame S O now _ msg.job_id _ _ _ _ _ _).2

  fail_parent-retries :
      (now : Time) (job : Job) (reason : String) (s : Server S O)
      → (fail_parent S O c now job reason s).retries ≡ s.retries
  unfolding fail_parent
  fail_parent-retries now job reason s = elim (Option-cases (get_job job.parent_job_id s.store)) [
    | inl e ↦ rw (e, fail_parent) refl
    | inr (p, e) ↦ rw (e, fail_parent) (fire_frame S O now job (failed_data reason) _).2
  ]

  -- A job that is failed stays so, with its attempts, when a parent is failed.
  fail_parent-failed :
      (now : Time) (job : Job) (reason id : String) (s : Server S O) (j : Job)
      → get_job id s.store ≡ some j
      → j.status ≡ failed
      → (k : Job) × (get_job id (fail_parent S O c now job reason s).store ≡ some k)
        × (k.status ≡ failed)
        × (k.attempts ≡ j.attempts)
  unfolding fail_parent
  fail_parent-failed now job reason id s j h f =
      elim (Option-cases (get_job job.parent_job_id s.store)) [
        | inl e ↦ (j, rw (e, fail_parent) h, f, refl)
        | inr (p, e) ↦
            let m = close_job_log_subscribers p.id s.store in
            let m' = (update_job p.id (failed_for reason now) m).1 in
            let there : get_job id m ≡ some j =
              get_job-jobs id m s.store (jobs-close_job_log_subscribers p.id s.store) ∙ h in
            let fired =
              get_job-jobs id
                (fire S O now job (failed_data reason) (record s { store = m' })).store m'
                (jobs-fire S O now job (failed_data reason) (record s { store = m' })) in
            let after = fired ∙ get_job-update_job p.id id (failed_for reason now) m in
            elim (Bool-cases (p.id == id)) [
              | inl t ↦ (
                failed_for reason now j,
                rw (e, fail_parent) (after ∙ rw (t, there, mapped) refl),
                refl,
                refl,
              )
              | inr n ↦ (j, rw (e, fail_parent) (after ∙ rw n there), f, refl)
            ]
      ]

  handle_fail_job-failed :
      (now : Time) (job : Job) (reason : String) (s : Server S O) (j : Job)
      → get_job job.id s.store ≡ some j
      → (k : Job) × (get_job job.id (handle_fail_job S O c now job reason s).store ≡ some k)
        × (k.status ≡ failed)
        × (k.attempts ≡ j.attempts)
        × ((handle_fail_job S O c now job reason s).retries ≡ s.retries)
  unfolding handle_fail_job
  handle_fail_job-failed now job reason s j h =
      let s1 : Server S O = record s {
        store = (update_job job.id (finished failed now) s.store).1;
      } in
      let gone = record job { status = failed } in
      let s2 = fire S O now gone (failed_data reason) s1 in
      let s3 : Server S O = record s2 { store = close_job_log_subscribers job.id s2.store } in
      let marked = get_job-update_self job.id (finished failed now) s.store j h in
      let timers = (fire_frame S O now gone (failed_data reason) s1).2 in
      let kept : get_job job.id s3.store ≡ some (finished failed now j) =
        get_job-jobs job.id s3.store s2.store (jobs-close_job_log_subscribers job.id s2.store)
        ∙ get_job-jobs job.id s2.store s1.store (jobs-fire S O now gone (failed_data reason) s1)
        ∙ marked in
      elim (Bool-cases (job.parent_job_id == "")) [
        | inl t ↦ (finished failed now j, rw t kept, refl, refl, rw t timers)
        | inr n ↦
            let (k, at, f, a) =
              fail_parent-failed now gone reason job.id s3 (finished failed now j) kept refl in
            (k, rw n at, f, a, rw n (fail_parent-retries now gone reason s3 ∙ timers))
      ]

  -- The two outcomes of a failure, of which the first is a retry.
  abbrev pub Outcome : Bool → Time → Job → RetryPolicy → Server S O → Server S O → Job → Type 0
  Outcome true now job policy s s' j =
      (j.status ≡ job.status)
      × (s'.retries
          ≡ s.retries
            ++ (time_add now (retry_delay policy (wrap64 (job.attempts +ℤ pos 1))), job.id) ∷ [])
  Outcome false now job policy s s' j = (j.status ≡ failed) × (s'.retries ≡ s.retries)

  -- A failure of a job that is known and not terminal counts one attempt more. The job is then
  -- either retried, with its status kept and one timer set for the delay of the policy, or it is
  -- failed and no timer is set; which of the two, the exit code and the attempts decide.
  pub handle_job_error-Outcome :
      (now : Time) (r : Ref) (job : Job) (msg : ResultMessage) (s : Server S O)
      → get_job job.id s.store ≡ some job
      → is_terminal job.status ≡ false
      → (j : Job) × (get_job job.id (handle_job_error S O c now r job msg s).store ≡ some j)
        × (j.attempts ≡ wrap64 (job.attempts +ℤ pos 1))
        × Outcome
            (retries_job S O c job msg
              (wrap64 (job.attempts +ℤ pos 1))
              (record_failure S O c now r job msg s))
            now
            job
            (effective_policy S O c job (record_failure S O c now r job msg s))
            s
            (handle_job_error S O c now r job msg s)
            j
  unfolding handle_job_error schedule_retry
  handle_job_error-Outcome now r job msg s h t =
      let attempts = wrap64 (job.attempts +ℤ pos 1) in
      let s1 = record_failure S O c now r job msg s in
      let noted = record_failure-job now r job msg s h in
      let timers = record_failure-retries now r job msg s in
      elim (Bool-cases (retries_job S O c job msg attempts s1)) [
        | inl y ↦
            rw (t, y)
              (
                attempted S O c attempts msg.reason now job,
                noted,
                refl,
                (
                  refl,
                  ap
                      (λ (x : List (Time × String)).
                        x
                        ++ (
                          time_add now (retry_delay (effective_policy S O c job s1) attempts),
                          job.id,
                        )
                          ∷ [])
                      timers,
                ),
              )
        | inr n ↦
            let (k, at, f, a, w) =
              handle_fail_job-failed now (record job { attempts = attempts }) msg.reason s1 _
                noted in
            rw (t, n) (k, at, a, (f, w ∙ timers))
      ]
