-- ===== src/FileStore/Preserving.antt =====
-- manager/store/fsstore.go: each operation keeps what rebuilds the store.
pub mod Jobs
pub mod Tasks
pub mod Runs
pub mod Webhooks
use workforce.Prelude.{◌≡◌, refl, sym, ap, ◌∙◌, inl, inr, String, string_eq, Option-cases}
use workforce.Prelude.Int.{ℤ}
use workforce.Prelude.Dict.{lookup, insert, delete}
use workforce.Contract.Job.{Job, Time}
use workforce.Contract.Task.{Task, JobRun}
use workforce.Contract.JsonOrBytes.{JsonText}
use workforce.Store
use workforce.Store.{MemStore, WebhookEntry}
use workforce.FileStore.Entries.{
  Json, JournalEntry, IsJson, entry, op_task_def_delete, op_webhook_ack, op_run_create,
  op_run_update,
}
use workforce.FileStore.State.{FsStore, journal}
use workforce.FileStore.Operations
use workforce.FileStore.Operations.{job_entry, task_entry, webhook_entry, run_entry, nack_entry}
use workforce.FileStore.Views.{
  Logged, put_job, put_task, drop_task, put_webhook, drop_webhook, nack, put_run, act, nacked,
}
use workforce.FileStore.Values.{insert-AreGood, delete-AreGood, lookup-AreGood}
use workforce.FileStore.Loading.{
  view, kept_view, IsSound, IsFitJob, IsFitTask, IsFitWebhook, IsFitRun, IsShort,
}
use workforce.FileStore.Changes.{
  kept_logged, kept_view-act, view-save_job, view-save_task, view-drop_task, view-enqueue_webhook,
  view-ack_webhook, view-create_run, view-nack_webhook,
}
use workforce.FileStore.Replay.{
  Reads, job_entry-Reads, task_entry-Reads, drop_task-Reads, webhook_entry-Reads, ack-Reads,
  nack_entry-Reads, run_created-Reads, run_updated-Reads,
}
use workforce.FileStore.Recovery.{IsDurable, journal-IsDurable}

module _ (T : JsonText) (J : Json) (law : IsJson T J) where
  -- A change of the store by one operation that its entry stands for.
  pub changed :
      (s : FsStore J) (e : JournalEntry J.Raw) (op : Logged) (m : MemStore)
      → Reads J e (kept_logged T op)
      → IsSound T J m
      → view m ≡ act op (view s.hot)
      → IsDurable T J s
      → IsDurable T J (journal J e (record s { hot = m }))
  changed s e op m reads sound changes d =
      journal-IsDurable T J s e (kept_logged T op) m reads sound
        (ap (kept_view T) changes ∙ kept_view-act T op (view s.hot)) d
