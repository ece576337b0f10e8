-- ===== src/FileStore/Preserving/Tasks.antt =====
-- manager/store/fsstore.go: the operations on tasks keep what rebuilds the store.
use workforce.Prelude.{◌≡◌, refl, sym, ap, ◌∙◌, inl, inr, String, string_eq, Option-cases}
use workforce.Prelude.Dict.{lookup, insert, delete}
use workforce.Contract.Task.{Task}
use workforce.Contract.JsonOrBytes.{JsonText}
use workforce.Store
use workforce.Store.{MemStore, WebhookEntry}
use workforce.FileStore.Entries.{Json, IsJson, entry, op_task_def_delete}
use workforce.FileStore.State.{FsStore}
use workforce.FileStore.Operations
use workforce.FileStore.Operations.{job_entry, task_entry, webhook_entry, run_entry, nack_entry}
use workforce.FileStore.Views.{put_task, drop_task}
use workforce.FileStore.Values.{insert-AreGood, delete-AreGood, lookup-AreGood}
use workforce.FileStore.Loading.{view, IsFitTask, IsShort}
use workforce.FileStore.Changes.{view-save_task, view-drop_task}
use workforce.FileStore.Replay.{task_entry-Reads, drop_task-Reads}
use workforce.FileStore.Recovery.{IsDurable}
use workforce.FileStore.Preserving.{changed}

module _ (T : JsonText) (J : Json) (law : IsJson T J) where
  pub save_task-IsDurable :
      (t : Task) (s : FsStore J)
      → IsFitTask T J t
      → IsDurable T J s
      → IsDurable T J (Operations.save_task J t s)
  unfolding Operations.save_task Store.save_task
  save_task-IsDurable t s fit d =
      changed T J law s (task_entry J t) (put_task t) _ (task_entry-Reads J T law t fit)
        (record {
          jobs = d.sound.jobs;
          tasks =
              insert-AreGood (λ t. t.name) (IsFitTask T J) t.name t s.hot.task_defs refl fit
                d.sound.tasks;
          webhooks = d.sound.webhooks;
          runs = d.sound.runs;
        })
        (view-save_task t s.hot) d

  pub update_task-IsDurable :
      (name : String) (f : Task → Task) (s : FsStore J)
      → ((t : Task) → IsFitTask T J t → ((f t).name ≡ t.name) × IsFitTask T J (f t))
      → IsDurable T J s
      → IsDurable T J (Operations.update_task J name f s).1
  unfolding Operations.update_task Store.update_task Store.get_task Store.save_task
  update_task-IsDurable name f s fair d = elim (Option-cases (lookup name s.hot.task_defs)) [
    | inl h ↦ rw (h, Operations.update_task, Store.get_task) d
    | inr (t, h) ↦
        let (named, fit) =
          lookup-AreGood (λ t. t.name) (IsFitTask T J) name t s.hot.task_defs d.sound.tasks h in
        let (keeps, fit') = fair t fit in
        let same : (Store.update_task name f s.hot).1
            ≡ record s.hot { task_defs = insert name (f t) s.hot.task_defs } =
          rw (h, Store.update_task) refl in
        rw (h, Operations.update_task, Store.get_task, same)
          (changed T J law s (task_entry J (f t)) (put_task (f t))
            (record s.hot { task_defs = insert name (f t) s.hot.task_defs })
            (task_entry-Reads J T law (f t) fit')
            (record {
              jobs = d.sound.jobs;
              tasks =
                  insert-AreGood (λ t. t.name) (IsFitTask T J) name (f t) s.hot.task_defs
                    (keeps ∙ named) fit' d.sound.tasks;
              webhooks = d.sound.webhooks;
              runs = d.sound.runs;
            })
            (ap (λ i. view (record s.hot { task_defs = insert i (f t) s.hot.task_defs }))
                (sym (keeps ∙ named))
              ∙ view-save_task (f t) s.hot)
            d)
  ]

  pub delete_task-IsDurable :
      (name : String) (s : FsStore J)
      → IsShort T J (entry J op_task_def_delete J.nil name)
      → IsDurable T J s
      → IsDurable T J (Operations.delete_task J name s).1
  unfolding Operations.delete_task Store.delete_task Store.get_task
  delete_task-IsDurable name s short d = elim (Option-cases (lookup name s.hot.task_defs)) [
    | inl h ↦ rw (h, Operations.delete_task, Store.get_task) d
    | inr (t, h) ↦
        let same : (Store.delete_task name s.hot).1
            ≡ record s.hot { task_defs = delete name s.hot.task_defs } =
          rw (h, Store.delete_task) refl in
        rw (h, Operations.delete_task, Store.get_task, same)
          (changed T J law s (entry J op_task_def_delete J.nil name) (drop_task name)
            (record s.hot { task_defs = delete name s.hot.task_defs })
            (drop_task-Reads J T law name short)
            (record {
              jobs = d.sound.jobs;
              tasks =
                  delete-AreGood (λ t. t.name) (IsFitTask T J) name s.hot.task_defs d.sound.tasks;
              webhooks = d.sound.webhooks;
              runs = d.sound.runs;
            })
            (view-drop_task name s.hot) d)
  ]
