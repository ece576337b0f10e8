-- ===== src/FileStore/Preserving/Jobs.antt =====
-- manager/store/fsstore.go: the operations on jobs keep what rebuilds the store.
use workforce.Prelude.{◌≡◌, refl, sym, ap, ◌∙◌, inl, inr, String, string_eq, Option-cases}
use workforce.Prelude.Dict.{lookup, insert}
use workforce.Contract.Job.{Job}
use workforce.Contract.JsonOrBytes.{JsonText}
use workforce.Store
use workforce.Store.{MemStore, WebhookEntry}
use workforce.FileStore.Entries.{Json, IsJson}
use workforce.FileStore.State.{FsStore}
use workforce.FileStore.Operations
use workforce.FileStore.Operations.{job_entry, task_entry, webhook_entry, run_entry, nack_entry}
use workforce.FileStore.Views.{put_job}
use workforce.FileStore.Values.{insert-AreGood, lookup-AreGood}
use workforce.FileStore.Loading.{view, IsFitJob}
use workforce.FileStore.Changes.{view-save_job}
use workforce.FileStore.Replay.{job_entry-Reads}
use workforce.FileStore.Recovery.{IsDurable}
use workforce.FileStore.Preserving.{changed}

module _ (T : JsonText) (J : Json) (law : IsJson T J) where
  pub save_job-IsDurable :
      (j : Job) (s : FsStore J)
      → IsFitJob T J j
      → IsDurable T J s
      → IsDurable T J (Operations.save_job J j s)
  unfolding Operations.save_job Store.save_job
  save_job-IsDurable j s fit d =
      changed T J law s (job_entry J j) (put_job j) _ (job_entry-Reads J T law j fit)
        (record {
          jobs = insert-AreGood (λ j. j.id) (IsFitJob T J) j.id j s.hot.jobs refl fit d.sound.jobs;
          tasks = d.sound.tasks;
          webhooks = d.sound.webhooks;
          runs = d.sound.runs;
        })
        (view-save_job j s.hot) d

  pub update_job-IsDurable :
      (id : String) (f : Job → Job) (s : FsStore J)
      → ((j : Job) → IsFitJob T J j → ((f j).id ≡ j.id) × IsFitJob T J (f j))
      → IsDurable T J s
      → IsDurable T J (Operations.update_job J id f s).1
  unfolding Operations.update_job Operations.change_job Store.update_job Store.get_job
      Store.save_job
  update_job-IsDurable id f s fair d = elim (Option-cases (lookup id s.hot.jobs)) [
    | inl h ↦ rw (h, Operations.update_job, Operations.change_job, Store.get_job) d
    | inr (j, h) ↦
        let (named, fit) =
          lookup-AreGood (λ j. j.id) (IsFitJob T J) id j s.hot.jobs d.sound.jobs h in
        let (keeps, fit') = fair j fit in
        let same : (Store.update_job id f s.hot).1
            ≡ record s.hot { jobs = insert id (f j) s.hot.jobs } =
          rw (h, Store.update_job) refl in
        rw (h, Operations.update_job, Operations.change_job, Store.get_job, same)
          (changed T J law s (job_entry J (f j)) (put_job (f j))
            (record s.hot { jobs = insert id (f j) s.hot.jobs })
            (job_entry-Reads J T law (f j) fit')
            (record {
              jobs =
                  insert-AreGood (λ j. j.id) (IsFitJob T J) id (f j) s.hot.jobs (keeps ∙ named) fit'
                    d.sound.jobs;
              tasks = d.sound.tasks;
              webhooks = d.sound.webhooks;
              runs = d.sound.runs;
            })
            (ap (λ i. view (record s.hot { jobs = insert i (f j) s.hot.jobs }))
                (sym (keeps ∙ named))
              ∙ view-save_job (f j) s.hot)
            d)
  ]
