-- ===== src/FileStore/Preserving/Webhooks.antt =====
-- manager/store/fsstore.go: the operations on webhooks keep what rebuilds the store.
use workforce.Prelude.{◌≡◌, refl, inl, inr, String, string_eq, Option-cases}
use workforce.Prelude.Int.{ℤ}
use workforce.Prelude.Dict.{lookup, insert}
use workforce.Contract.Job.{Time}
use workforce.Contract.JsonOrBytes.{JsonText}
use workforce.Store
use workforce.Store.{MemStore, WebhookEntry}
use workforce.FileStore.Entries.{Json, IsJson, entry, op_webhook_ack}
use workforce.FileStore.State.{FsStore}
use workforce.FileStore.Operations
use workforce.FileStore.Operations.{job_entry, task_entry, webhook_entry, run_entry, nack_entry}
use workforce.FileStore.Views.{put_webhook, drop_webhook, nack, nacked}
use workforce.FileStore.Values.{insert-AreGood, delete-AreGood, lookup-AreGood}
use workforce.FileStore.Loading.{IsSound, IsFitWebhook, IsShort}
use workforce.FileStore.Changes.{view-enqueue_webhook, view-ack_webhook, view-nack_webhook}
use workforce.FileStore.Replay.{webhook_entry-Reads, ack-Reads, nack_entry-Reads}
use workforce.FileStore.Recovery.{IsDurable}
use workforce.FileStore.Preserving.{changed}

module _ (T : JsonText) (J : Json) (law : IsJson T J) where
  pub enqueue_webhook-IsDurable :
      (e : WebhookEntry) (s : FsStore J)
      → IsFitWebhook T J e
      → IsDurable T J s
      → IsDurable T J (Operations.enqueue_webhook J e s)
  unfolding Operations.enqueue_webhook Store.enqueue_webhook
  enqueue_webhook-IsDurable e s fit d =
      changed T J law s (webhook_entry J e) (put_webhook e) _ (webhook_entry-Reads J T law e fit)
        (record {
          jobs = d.sound.jobs;
          tasks = d.sound.tasks;
          webhooks =
              insert-AreGood (λ e. e.id) (IsFitWebhook T J) e.id e s.hot.webhooks refl fit
                d.sound.webhooks;
          runs = d.sound.runs;
        })
        (view-enqueue_webhook e s.hot) d

  pub ack_webhook-IsDurable :
      (id : String) (s : FsStore J)
      → IsShort T J (entry J op_webhook_ack J.nil id)
      → IsDurable T J s
      → IsDurable T J (Operations.ack_webhook J id s)
  unfolding Operations.ack_webhook Store.ack_webhook
  ack_webhook-IsDurable id s short d =
      changed T J law s (entry J op_webhook_ack J.nil id) (drop_webhook id) _
        (ack-Reads J T law id short)
        (record {
          jobs = d.sound.jobs;
          tasks = d.sound.tasks;
          webhooks =
              delete-AreGood (λ e. e.id) (IsFitWebhook T J) id s.hot.webhooks d.sound.webhooks;
          runs = d.sound.runs;
        })
        (view-ack_webhook id s.hot) d

  pub nack_webhook-IsDurable :
      (id : String) (a : ℤ) (t : Time) (s : FsStore J)
      → IsShort T J (nack_entry J id a t)
      → ((e : WebhookEntry) → IsFitWebhook T J e → IsFitWebhook T J (nacked a t e))
      → IsDurable T J s
      → IsDurable T J (Operations.nack_webhook J id a t s).1
  unfolding Operations.nack_webhook Store.nack_webhook
  nack_webhook-IsDurable id a t s short fair d = elim (Option-cases (lookup id s.hot.webhooks)) [
    | inl h ↦ rw (h, Operations.nack_webhook) d
    | inr (e, h) ↦
        let (named, fit) =
          lookup-AreGood (λ e. e.id) (IsFitWebhook T J) id e s.hot.webhooks d.sound.webhooks h in
        let same : (Store.nack_webhook id a t s.hot).1
            ≡ record s.hot { webhooks = insert id (nacked a t e) s.hot.webhooks } =
          rw (h, Store.nack_webhook) refl in
        let sound : IsSound T J (Store.nack_webhook id a t s.hot).1 = rw same (record {
          jobs = d.sound.jobs;
          tasks = d.sound.tasks;
          webhooks =
              insert-AreGood (λ e. e.id) (IsFitWebhook T J) id (nacked a t e) s.hot.webhooks named
                (fair e fit) d.sound.webhooks;
          runs = d.sound.runs;
        }) in
        rw (h, Operations.nack_webhook)
          (changed T J law s (nack_entry J id a t) (nack id a t) (Store.nack_webhook id a t s.hot).1
            (nack_entry-Reads J T law id a t short) sound (view-nack_webhook id a t s.hot) d)
  ]
