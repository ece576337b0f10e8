-- ===== src/FileStore/Preserving/Runs.antt =====
-- manager/store/fsstore.go: the operations on runs keep what rebuilds the store.
use workforce.Prelude.{◌≡◌, refl, sym, ap, ◌∙◌, inl, inr, String, string_eq, Option-cases}
use workforce.Prelude.Dict.{lookup, insert}
use workforce.Contract.Task.{JobRun}
use workforce.Contract.JsonOrBytes.{JsonText}
use workforce.Store
use workforce.Store.{MemStore, WebhookEntry}
use workforce.FileStore.Entries.{Json, IsJson, op_run_create, op_run_update}
use workforce.FileStore.State.{FsStore}
use workforce.FileStore.Operations
use workforce.FileStore.Operations.{job_entry, task_entry, webhook_entry, run_entry, nack_entry}
use workforce.FileStore.Views.{put_run}
use workforce.FileStore.Values.{insert-AreGood, lookup-AreGood}
use workforce.FileStore.Loading.{view, IsFitRun}
use workforce.FileStore.Changes.{view-create_run}
use workforce.FileStore.Replay.{run_created-Reads, run_updated-Reads}
use workforce.FileStore.Recovery.{IsDurable}
use workforce.FileStore.Preserving.{changed}

module _ (T : JsonText) (J : Json) (law : IsJson T J) where
  pub create_run-IsDurable :
      (r : JobRun) (s : FsStore J)
      → IsFitRun T J r
      → IsDurable T J s
      → IsDurable T J (Operations.create_run J r s)
  unfolding Operations.create_run Store.create_run
  create_run-IsDurable r s fit d =
      changed T J law s (run_entry J op_run_create r) (put_run r) _
        (run_created-Reads J T law r fit)
        (record {
          jobs = d.sound.jobs;
          tasks = d.sound.tasks;
          webhooks = d.sound.webhooks;
          runs = insert-AreGood (λ r. r.id) (IsFitRun T J) r.id r s.hot.runs refl fit d.sound.runs;
        })
        (view-create_run r s.hot) d

  pub update_run-IsDurable :
      (id : String) (f : JobRun → JobRun) (s : FsStore J)
      → ((r : JobRun) → IsFitRun T J r → ((f r).id ≡ r.id) × IsFitRun T J (f r))
      → IsDurable T J s
      → IsDurable T J (Operations.update_run J id f s).1
  unfolding Operations.update_run Store.update_run Store.get_run Store.create_run
  update_run-IsDurable id f s fair d = elim (Option-cases (lookup id s.hot.runs)) [
    | inl h ↦ rw (h, Operations.update_run, Store.get_run) d
    | inr (r, h) ↦
        let (named, fit) =
          lookup-AreGood (λ r. r.id) (IsFitRun T J) id r s.hot.runs d.sound.runs h in
        let (keeps, fit') = fair r fit in
        let same : (Store.update_run id f s.hot).1
            ≡ record s.hot { runs = insert id (f r) s.hot.runs } =
          rw (h, Store.update_run) refl in
        rw (h, Operations.update_run, Store.get_run, same)
          (changed T J law s (run_entry J op_run_update (f r)) (put_run (f r))
            (record s.hot { runs = insert id (f r) s.hot.runs })
            (run_updated-Reads J T law (f r) fit')
            (record {
              jobs = d.sound.jobs;
              tasks = d.sound.tasks;
              webhooks = d.sound.webhooks;
              runs =
                  insert-AreGood (λ r. r.id) (IsFitRun T J) id (f r) s.hot.runs (keeps ∙ named) fit'
                    d.sound.runs;
            })
            (ap (λ i. view (record s.hot { runs = insert i (f r) s.hot.runs }))
                (sym (keeps ∙ named))
              ∙ view-create_run (f r) s.hot)
            d)
  ]
