-- ===== src/Manager/Server/Jobs.antt =====
-- What the shared steps of the manager leave of the jobs, the pool and the queue.
use workforce.Prelude.{
  ◌≡◌, refl, ◌∙◌, inl, inr, String, Bool, true, false, if_both, ◌==◌, string_eq, Option-cases,
}
use workforce.Prelude.Int.{ℤ}
use workforce.Contract.Job.{Job, Time, Bytes}
use workforce.Contract.Task.{RunStatus, ResultType}
use workforce.Store.{MemStore, enqueue_webhook}
use workforce.Store.Updates.{jobs-update_run, jobs-append_run_log, jobs-close_run_log_subscribers}
use workforce.Webhooks.{EventData, enqueue, entry_of}
use workforce.Manager.Messages.{Frame}
use workforce.Manager.WorkerConn.{SimpleSet}
use workforce.Manager.WorkerPool.{Ref}
use workforce.Manager.Server.{Outside, Server, send, fire, close_run, log_failure}

module _ (S : SimpleSet) (O : Outside) where
  jobs-log_failure :
      (status : RunStatus) (reason run_id : String) (m : MemStore)
      → (log_failure S O status reason run_id m).jobs ≡ m.jobs
  jobs-log_failure RunStatus.failed reason run_id m =
      if_both (λ (n : MemStore). n.jobs ≡ m.jobs) (reason == "") refl
        (jobs-append_run_log run_id _ m)
  jobs-log_failure RunStatus.provisioning reason run_id m = refl
  jobs-log_failure RunStatus.running reason run_id m = refl
  jobs-log_failure RunStatus.completed reason run_id m = refl

  pub jobs-fire :
      (now : Time) (job : Job) (body : EventData) (s : Server S O)
      → (fire S O now job body s).store.jobs ≡ s.store.jobs
  unfolding fire enqueue enqueue_webhook
  jobs-fire now job body s =
      elim (Option-cases (entry_of O.marshal now (O.ulid s.ulids) job body)) [
        | inl e ↦ rw (e, enqueue) refl
        | inr (x, e) ↦ rw (e, enqueue) refl
      ]

  pub tasks-fire :
      (now : Time) (job : Job) (body : EventData) (s : Server S O)
      → (fire S O now job body s).store.task_defs ≡ s.store.task_defs
  unfolding fire enqueue enqueue_webhook
  tasks-fire now job body s =
      elim (Option-cases (entry_of O.marshal now (O.ulid s.ulids) job body)) [
        | inl e ↦ rw (e, enqueue) refl
        | inr (x, e) ↦ rw (e, enqueue) refl
      ]

  pub sent-fire :
      (now : Time) (job : Job) (body : EventData) (s : Server S O)
      → (fire S O now job body s).sent ≡ s.sent
  unfolding fire
  sent-fire now job body s = refl

  -- Everything but the jobs, runs and logs is as it was after a webhook is fired.
  pub fire_frame :
      (now : Time) (job : Job) (body : EventData) (s : Server S O)
      → ((fire S O now job body s).pool ≡ s.pool)
        × ((fire S O now job body s).queue ≡ s.queue)
        × ((fire S O now job body s).retries ≡ s.retries)
        × ((fire S O now job body s).cancelled_job_ids ≡ s.cancelled_job_ids)
  unfolding fire
  fire_frame now job body s = (refl, refl, refl, refl)

  pub jobs-send :
      (writes : Bool) (r : Ref) (frame : Frame) (s : Server S O)
      → (send S O writes r frame s).store ≡ s.store
  unfolding send
  jobs-send true r frame s = refl
  jobs-send false r frame s = refl

  pub jobs-close_run :
      (now : Time) (run_id job_id : String) (status : RunStatus) (kind : ResultType)
      (output : Bytes) (reason : String) (code : ℤ) (s : Server S O)
      → (close_run S O now run_id job_id status kind output reason code s).store.jobs ≡ s.store.jobs
  unfolding close_run
  jobs-close_run now run_id job_id status kind output reason code s =
      if_both (λ (t : Server S O). t.store.jobs ≡ s.store.jobs) (run_id == "") refl
        (jobs-close_run_log_subscribers run_id _
          ∙ jobs-update_run run_id _ _
          ∙ jobs-log_failure status reason run_id s.store)

  pub close_run_frame :
      (now : Time) (run_id job_id : String) (status : RunStatus) (kind : ResultType)
      (output : Bytes) (reason : String) (code : ℤ) (s : Server S O)
      → ((close_run S O now run_id job_id status kind output reason code s).pool ≡ s.pool)
        × ((close_run S O now run_id job_id status kind output reason code s).queue ≡ s.queue)
        × ((close_run S O now run_id job_id status kind output reason code s).retries ≡ s.retries)
  unfolding close_run
  close_run_frame now run_id job_id status kind output reason code s =
      if_both
        (λ (t : Server S O). (t.pool ≡ s.pool) × (t.queue ≡ s.queue) × (t.retries ≡ s.retries))
        (run_id == "") (refl, refl, refl) (refl, refl, refl)
