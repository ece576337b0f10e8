-- ===== src/FileStore/Operations.antt =====
-- manager/store/fsstore.go: the operations. The maps of the store change as those of the memory store
-- do; each change is journaled after the lock is released, which is a step of its own where it says so.
use workforce.Prelude.{ℕ, String, Bool, true, false, Option, none, some, List, string_eq}
use workforce.Prelude.Int.{ℤ}
use workforce.Prelude.Dict.{lookup}
use workforce.Contract.Job.{Job, JobStatus, Time}
use workforce.Contract.Task.{Task, JobRun}
use workforce.Store
use workforce.Store.{WebhookEntry, MemStore}
use workforce.FileStore.Entries.{
  Json, JournalEntry, JournalOp, entry, op_job, op_task_def, op_task_def_delete, op_webhook_enqueue,
  op_webhook_ack, op_webhook_nack, op_run_create, op_run_update,
}
use workforce.FileStore.State.{FsStore, journal}

module _ (J : Json) where
  abbrev pub with_hot : FsStore J → MemStore → FsStore J
  with_hot s m = record s { hot = m }

  -- The entries that the operations journal.
  abbrev pub job_entry : Job → JournalEntry J.Raw
  job_entry job = entry J op_job (J.marshal_job job) ""

  abbrev pub task_entry : Task → JournalEntry J.Raw
  task_entry task = entry J op_task_def (J.marshal_task task) ""

  abbrev pub webhook_entry : WebhookEntry → JournalEntry J.Raw
  webhook_entry e = entry J op_webhook_enqueue (J.marshal_webhook e) ""

  abbrev pub run_entry : JournalOp → JobRun → JournalEntry J.Raw
  run_entry op run = entry J op (J.marshal_run run) ""

  abbrev pub nack_entry : String → ℤ → Time → JournalEntry J.Raw
  nack_entry id attempts next_attempt_at = record (entry J op_webhook_nack J.nil id) {
    attempts = attempts;
    next_attempt_at = next_attempt_at;
  }

  -- JobStore
  unfoldable pub save_job : Job → FsStore J → FsStore J
  save_job job s = journal J (job_entry job) (with_hot s (Store.save_job job s.hot))

  pub get_job : String → FsStore J → Option Job
  get_job id s = Store.get_job id s.hot

  -- `UpdateJob` up to the release of the lock: the entry to be journaled, and the store.
  unfoldable pub change_job :
      String → (Job → Job) → FsStore J → Option (JournalEntry J.Raw × FsStore J)
  change_job id mutate s = elim (Store.get_job id s.hot) [
    | none ↦ none
    | some job ↦ some (job_entry (mutate job), with_hot s (Store.update_job id mutate s.hot).1)
  ]

  unfoldable pub update_job : String → (Job → Job) → FsStore J → Bool × FsStore J
  update_job id mutate s = elim (change_job id mutate s) [
    | none ↦ (false, s)
    | some (e, s') ↦ (true, journal J e s')
  ]

  pub list_jobs : String → ℕ → FsStore J → Option (List Job × String)
  list_jobs cursor limit s = Store.list_jobs cursor limit s.hot

  pub list_pending_jobs : FsStore J → List Job
  list_pending_jobs s = Store.list_pending_jobs s.hot

  pub list_recoverable_jobs : FsStore J → List Job
  list_recoverable_jobs s = Store.list_recoverable_jobs s.hot

  pub list_child_jobs : String → FsStore J → List Job
  list_child_jobs parent_job_id s = Store.list_child_jobs parent_job_id s.hot

  pub count_jobs_by_status : FsStore J → JobStatus → ℕ
  count_jobs_by_status s = Store.count_jobs_by_status s.hot

  -- TaskStore
  unfoldable pub save_task : Task → FsStore J → FsStore J
  save_task task s = journal J (task_entry task) (with_hot s (Store.save_task task s.hot))

  pub get_task : String → FsStore J → Option Task
  get_task name s = Store.get_task name s.hot

  pub list_tasks : FsStore J → List Task
  list_tasks s = Store.list_tasks s.hot

  unfoldable pub update_task : String → (Task → Task) → FsStore J → Bool × FsStore J
  update_task name mutate s = elim (Store.get_task name s.hot) [
    | none ↦ (false, s)
    | some task ↦ (
      true,
      journal J (task_entry (mutate task)) (with_hot s (Store.update_task name mutate s.hot).1),
    )
  ]

  unfoldable pub delete_task : String → FsStore J → Bool × FsStore J
  delete_task name s = elim (Store.get_task name s.hot) [
    | none ↦ (false, s)
    | some task ↦ (
      true,
      journal J (entry J op_task_def_delete J.nil name)
          (with_hot s (Store.delete_task name s.hot).1),
    )
  ]

  -- RunStore
  unfoldable pub create_run : JobRun → FsStore J → FsStore J
  create_run run s =
      journal J (run_entry op_run_create run) (with_hot s (Store.create_run run s.hot))

  unfoldable pub update_run : String → (JobRun → JobRun) → FsStore J → Bool × FsStore J
  update_run id mutate s = elim (Store.get_run id s.hot) [
    | none ↦ (false, s)
    | some run ↦ (
      true,
      journal J (run_entry op_run_update (mutate run))
          (with_hot s (Store.update_run id mutate s.hot).1),
    )
  ]

  pub get_run : String → FsStore J → Option JobRun
  get_run id s = Store.get_run id s.hot

  pub list_job_runs : String → FsStore J → List JobRun
  list_job_runs job_id s = Store.list_job_runs job_id s.hot

  -- WebhookStore
  unfoldable pub enqueue_webhook : WebhookEntry → FsStore J → FsStore J
  enqueue_webhook e s = journal J (webhook_entry e) (with_hot s (Store.enqueue_webhook e s.hot))

  pub dequeue_webhooks : Time → FsStore J → List WebhookEntry
  dequeue_webhooks now s = Store.dequeue_webhooks now s.hot

  unfoldable pub ack_webhook : String → FsStore J → FsStore J
  ack_webhook id s =
      journal J (entry J op_webhook_ack J.nil id) (with_hot s (Store.ack_webhook id s.hot))

  unfoldable pub nack_webhook : String → ℤ → Time → FsStore J → Bool × FsStore J
  nack_webhook id attempts next_attempt_at s = elim (lookup id s.hot.webhooks) [
    | none ↦ (false, s)
    | some e ↦ (
      true,
      journal J (nack_entry id attempts next_attempt_at)
          (with_hot s (Store.nack_webhook id attempts next_attempt_at s.hot).1),
    )
  ]
