-- ===== src/FileStore/Requests.antt =====
-- manager/store/fsstore.go: the operations as requests of clients, which with the turns of the writer
-- make a history; each keeps what rebuilds the store.
use workforce.Prelude.{◌≡◌, String, List, [], ◌∷◌, string_eq}
use workforce.Prelude.Int.{ℤ}
use workforce.Contract.Job.{Job, Time}
use workforce.Contract.Task.{Task, JobRun}
use workforce.Contract.JsonOrBytes.{JsonText}
use workforce.Store.{WebhookEntry}
use workforce.FileStore.Entries.{Json, IsJson, entry, op_task_def_delete, op_webhook_ack}
use workforce.FileStore.State.{FsStoreConfig, FsStore}
use workforce.FileStore.Operations
use workforce.FileStore.Operations.{job_entry, task_entry, webhook_entry, run_entry, nack_entry}
use workforce.FileStore.Views.{nacked}
use workforce.FileStore.Loading.{IsFitJob, IsFitTask, IsFitWebhook, IsFitRun, IsShort}
use workforce.FileStore.Recovery.{IsDurable}
use workforce.FileStore.Turns.{writer_turn-IsDurable}
use workforce.FileStore.Writer.{Turn, writer_turn}
use workforce.FileStore.Preserving.Jobs.{save_job-IsDurable, update_job-IsDurable}
use workforce.FileStore.Preserving.Tasks.{
  save_task-IsDurable, update_task-IsDurable, delete_task-IsDurable,
}
use workforce.FileStore.Preserving.Runs.{create_run-IsDurable, update_run-IsDurable}
use workforce.FileStore.Preserving.Webhooks.{
  enqueue_webhook-IsDurable, ack_webhook-IsDurable, nack_webhook-IsDurable,
}

pub data Request : Type 0 where
  saves_job : Job → Request
  updates_job : String → (Job → Job) → Request
  saves_task : Task → Request
  updates_task : String → (Task → Task) → Request
  deletes_task : String → Request
  creates_run : JobRun → Request
  updates_run : String → (JobRun → JobRun) → Request
  enqueues : WebhookEntry → Request
  acks : String → Request
  nacks : String → ℤ → Time → Request

module _ (J : Json) where
  abbrev pub answer : Request → FsStore J → FsStore J
  answer (saves_job j) s = Operations.save_job J j s
  answer (updates_job id f) s = (Operations.update_job J id f s).1
  answer (saves_task t) s = Operations.save_task J t s
  answer (updates_task name f) s = (Operations.update_task J name f s).1
  answer (deletes_task name) s = (Operations.delete_task J name s).1
  answer (creates_run r) s = Operations.create_run J r s
  answer (updates_run id f) s = (Operations.update_run J id f s).1
  answer (enqueues e) s = Operations.enqueue_webhook J e s
  answer (acks id) s = Operations.ack_webhook J id s
  answer (nacks id a t) s = (Operations.nack_webhook J id a t s).1

  module _ (c : FsStoreConfig) where
    pub data Event : Type 0 where
      client : Request → Event
      writer : Turn J c → Event

    abbrev pub step : Event → FsStore J → FsStore J
    step (client r) s = answer r s
    step (writer t) s = writer_turn J c t s

    unfoldable pub run : List Event → FsStore J → FsStore J
    run [] s = s
    run (e ∷ es) s = run es (step e s)

module _ (T : JsonText) (J : Json) where
  -- The values are read from JSON and their lines are short; a change keeps that and the name.
  abbrev pub IsFair : Request → Type 0
  IsFair (saves_job j) = IsFitJob T J j
  IsFair (updates_job id f) = (j : Job) → IsFitJob T J j → ((f j).id ≡ j.id) × IsFitJob T J (f j)
  IsFair (saves_task t) = IsFitTask T J t
  IsFair (updates_task name f) =
      (t : Task) → IsFitTask T J t → ((f t).name ≡ t.name) × IsFitTask T J (f t)
  IsFair (deletes_task name) = IsShort T J (entry J op_task_def_delete J.nil name)
  IsFair (creates_run r) = IsFitRun T J r
  IsFair (updates_run id f) = (r : JobRun) → IsFitRun T J r → ((f r).id ≡ r.id) × IsFitRun T J (f r)
  IsFair (enqueues e) = IsFitWebhook T J e
  IsFair (acks id) = IsShort T J (entry J op_webhook_ack J.nil id)
  IsFair (nacks id a t) =
      IsShort T J (nack_entry J id a t)
      × ((e : WebhookEntry) → IsFitWebhook T J e → IsFitWebhook T J (nacked a t e))

  module _ (law : IsJson T J) where
    -- Every fair request keeps what rebuilds the store, whatever it answers.
    answer-IsDurable :
        (r : Request) (s : FsStore J) → IsFair r → IsDurable T J s → IsDurable T J (answer J r s)
    answer-IsDurable (saves_job j) s f d = save_job-IsDurable T J law j s f d
    answer-IsDurable (updates_job id g) s f d = update_job-IsDurable T J law id g s f d
    answer-IsDurable (saves_task t) s f d = save_task-IsDurable T J law t s f d
    answer-IsDurable (updates_task name g) s f d = update_task-IsDurable T J law name g s f d
    answer-IsDurable (deletes_task name) s f d = delete_task-IsDurable T J law name s f d
    answer-IsDurable (creates_run r) s f d = create_run-IsDurable T J law r s f d
    answer-IsDurable (updates_run id g) s f d = update_run-IsDurable T J law id g s f d
    answer-IsDurable (enqueues e) s f d = enqueue_webhook-IsDurable T J law e s f d
    answer-IsDurable (acks id) s f d = ack_webhook-IsDurable T J law id s f d
    answer-IsDurable (nacks id a t) s f d = nack_webhook-IsDurable T J law id a t s f.0 f.1 d

    -- The requests of a history are fair.
    abbrev pub AreFair : {c : FsStoreConfig} → List (Event J c) → Type 0
    AreFair [] = Unit {0}
    AreFair (client r ∷ es) = IsFair r × AreFair es
    AreFair (writer t ∷ es) = AreFair es

    pub run-IsDurable :
        (c : FsStoreConfig) (es : List (Event J c)) (s : FsStore J)
        → AreFair es
        → IsDurable T J s
        → IsDurable T J (run J c es s)
    unfolding run
    run-IsDurable c [] s f d = d
    run-IsDurable c (client r ∷ es) s f d =
        run-IsDurable c es (answer J r s) f.1 (answer-IsDurable r s f.0 d)
    run-IsDurable c (writer t ∷ es) s f d =
        run-IsDurable c es (writer_turn J c t s) f (writer_turn-IsDurable T J law c t s d)
