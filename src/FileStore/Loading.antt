-- ===== src/FileStore/Loading.antt =====
-- manager/store/fsstore_snapshot.go, `loadSnapshot` after `compact`: the views of the store that was
-- copied, with its values as JSON carries them.
use mathlib.Core.List.{map-id}
use workforce.Prelude.{
  ◌≡◌, refl, inl, inr, ◌^◌, String, true, false, Option, none, some, List, map, leb, is_some,
  string_eq, Option-cases,
}
use workforce.Prelude.Dict.{lookup}
use workforce.Contract.Job.{Job, Bytes}
use workforce.Contract.Task.{Task, JobRun}
use workforce.Contract.JsonOrBytes.{JsonText, carried}
use workforce.Store.{
  MemStore, WebhookEntry, new_mem_store, select, save_job, save_task, create_run, enqueue_webhook,
}
use workforce.FileStore.Entries.{
  Json, JournalEntry, Snapshot, restored_job, restored_run, restored_webhook, restored_snapshot,
  IsJson, op_run_create, op_run_update,
}
use workforce.FileStore.Operations.{job_entry, task_entry, webhook_entry, run_entry}
use workforce.FileStore.Views.{View, mapped, eq_of_lookups}
use workforce.FileStore.Values.{AreGood, traverse-values, lookup-put_all, get-put_all, over}
use workforce.FileStore.Writer.{take_snapshot, put_all, load, load_snapshot}

abbrev pub view : MemStore → View
view m = record {
  jobs = λ k. lookup k m.jobs;
  tasks = λ k. lookup k m.task_defs;
  webhooks = λ k. lookup k m.webhooks;
  runs = λ k. lookup k m.runs;
}

abbrev or_same : Bytes → Option Bytes → Bytes
or_same r none = r
or_same r (some x) = x

over-none : {V : Type 0} (kept : V → V) (o : Option V) → over kept o none ≡ mapped kept o
over-none kept none = refl
over-none kept (some v) = refl

over-same : {V : Type 0} (o : Option V) → over (λ v. v) o none ≡ o
over-same none = refl
over-same (some v) = refl

module _ (T : JsonText) where
  -- The values as JSON carries them.
  abbrev pub kept_job : Job → Job
  kept_job j = record j {
    payload = or_same j.payload (carried T j.payload);
    result = or_same j.result (carried T j.result);
  }

  abbrev pub kept_run : JobRun → JobRun
  kept_run r = record r {
    input_payload = or_same r.input_payload (carried T r.input_payload);
    output_payload = or_same r.output_payload (carried T r.output_payload);
  }

  abbrev pub kept_webhook : WebhookEntry → WebhookEntry
  kept_webhook e = record e { payload = or_same e.payload (carried T e.payload) }

  abbrev pub kept_view : View → View
  kept_view v = record v {
    jobs = λ k. mapped kept_job (v.jobs k);
    webhooks = λ k. mapped kept_webhook (v.webhooks k);
    runs = λ k. mapped kept_run (v.runs k);
  }

  pub restored_job-kept :
      (j : Job) → is_some (restored_job T j) ≡ true → restored_job T j ≡ some (kept_job j)
  restored_job-kept j h = elim (Option-cases (carried T j.payload)) [
    | inl e ↦ let no : false ≡ true = rw e at h in cc
    | inr (a, e) ↦ elim (Option-cases (carried T j.result)) [
      | inl f ↦ let no : false ≡ true = rw (e, f) at h in cc
      | inr (b, f) ↦ rw (e, f) refl
    ]
  ]

  pub restored_run-kept :
      (r : JobRun) → is_some (restored_run T r) ≡ true → restored_run T r ≡ some (kept_run r)
  restored_run-kept r h = elim (Option-cases (carried T r.input_payload)) [
    | inl e ↦ let no : false ≡ true = rw e at h in cc
    | inr (a, e) ↦ elim (Option-cases (carried T r.output_payload)) [
      | inl f ↦ let no : false ≡ true = rw (e, f) at h in cc
      | inr (b, f) ↦ rw (e, f) refl
    ]
  ]

  pub restored_webhook-kept :
      (w : WebhookEntry)
      → is_some (restored_webhook T w) ≡ true
      → restored_webhook T w ≡ some (kept_webhook w)
  restored_webhook-kept w h = elim (Option-cases (carried T w.payload)) [
    | inl e ↦ let no : false ≡ true = rw e at h in cc
    | inr (a, e) ↦ rw e refl
  ]

  module _ (J : Json) where
    -- An entry whose line the scanner holds.
    abbrev pub IsShort : JournalEntry J.Raw → Type 0
    IsShort e = leb (2 ^ 20) (J.size (J.encode e)) ≡ false

    -- The values that a line can hold and from which they are read.
    abbrev pub IsFitJob : Job → Type 0
    IsFitJob j = (is_some (restored_job T j) ≡ true) × IsShort (job_entry J j)

    abbrev pub IsFitTask : Task → Type 0
    IsFitTask t = IsShort (task_entry J t)

    abbrev pub IsFitWebhook : WebhookEntry → Type 0
    IsFitWebhook e = (is_some (restored_webhook T e) ≡ true) × IsShort (webhook_entry J e)

    abbrev pub IsFitRun : JobRun → Type 0
    IsFitRun r =
        (is_some (restored_run T r) ≡ true)
        × IsShort (run_entry J op_run_create r)
        × IsShort (run_entry J op_run_update r)

    pub record IsSound (m : MemStore) : Type 0 where
      pub jobs : AreGood (λ j. j.id) IsFitJob m.jobs
      pub tasks : AreGood (λ t. t.name) IsFitTask m.task_defs
      pub webhooks : AreGood (λ e. e.id) IsFitWebhook m.webhooks
      pub runs : AreGood (λ r. r.id) IsFitRun m.runs

    abbrev kept_snapshot : MemStore → Snapshot
    kept_snapshot m = record {
      jobs = map kept_job (select (λ j. true) m.jobs);
      task_defs = select (λ t. true) m.task_defs;
      webhooks = map kept_webhook (select (λ e. true) m.webhooks);
      runs = map kept_run (select (λ r. true) m.runs);
    }

    snapshot-kept :
        (m : MemStore) → IsSound m → restored_snapshot T (take_snapshot m) ≡ some (kept_snapshot m)
    unfolding take_snapshot
    snapshot-kept m s =
        rw
          (
            traverse-values (λ j. j.id) IsFitJob (restored_job T) kept_job
                (λ j h. restored_job-kept j h.0) m.jobs s.jobs,
            traverse-values (λ e. e.id) IsFitWebhook (restored_webhook T) kept_webhook
                (λ e h. restored_webhook-kept e h.0) m.webhooks s.webhooks,
            traverse-values (λ r. r.id) IsFitRun (restored_run T) kept_run
                (λ r h. restored_run-kept r h.0) m.runs s.runs,
          )
          refl

    -- The maps of the loaded store.
    abbrev loaded : MemStore → MemStore
    loaded m = load (kept_snapshot m) new_mem_store

    module _ (m : MemStore) (s : IsSound m) (k : String) where
      abbrev job_list : List Job
      job_list = map kept_job (select (λ j. true) m.jobs)

      abbrev webhook_list : List WebhookEntry
      webhook_list = map kept_webhook (select (λ e. true) m.webhooks)

      abbrev run_list : List JobRun
      run_list = map kept_run (select (λ r. true) m.runs)

      abbrev task_list : List Task
      task_list = select (λ t. true) m.task_defs

      loaded_jobs : lookup k (loaded m).jobs ≡ mapped kept_job (lookup k m.jobs)
      unfolding load create_run save_job save_task enqueue_webhook new_mem_store
      loaded_jobs =
          let jobs_of = λ (n : MemStore). n.jobs in
          rw
            (
              get-put_all jobs_of create_run (λ r n. refl) run_list,
              get-put_all jobs_of enqueue_webhook (λ e n. refl) webhook_list,
              get-put_all jobs_of save_task (λ t n. refl) task_list,
              lookup-put_all (λ j. j.id) IsFitJob jobs_of save_job (λ j n. refl) kept_job
                  (λ j. refl) m.jobs new_mem_store k s.jobs,
            )
            (over-none kept_job (lookup k m.jobs))

      loaded_tasks : lookup k (loaded m).task_defs ≡ lookup k m.task_defs
      unfolding load create_run save_job save_task enqueue_webhook new_mem_store
      loaded_tasks =
          let tasks_of = λ (n : MemStore). n.task_defs in
          rw
            (
              get-put_all tasks_of create_run (λ r n. refl) run_list,
              get-put_all tasks_of enqueue_webhook (λ e n. refl) webhook_list,
              ← map-id task_list,
              lookup-put_all (λ t. t.name) IsFitTask tasks_of save_task (λ t n. refl) (λ t. t)
                  (λ t. refl) m.task_defs (put_all save_job job_list new_mem_store) k s.tasks,
              get-put_all tasks_of save_job (λ j n. refl) job_list,
            )
            (over-same (lookup k m.task_defs))

      loaded_webhooks : lookup k (loaded m).webhooks ≡ mapped kept_webhook (lookup k m.webhooks)
      unfolding load create_run save_job save_task enqueue_webhook new_mem_store
      loaded_webhooks =
          let webhooks_of = λ (n : MemStore). n.webhooks in
          rw
            (
              get-put_all webhooks_of create_run (λ r n. refl) run_list,
              lookup-put_all (λ e. e.id) IsFitWebhook webhooks_of enqueue_webhook (λ e n. refl)
                  kept_webhook (λ e. refl) m.webhooks
                  (put_all save_task task_list (put_all save_job job_list new_mem_store)) k
                  s.webhooks,
              get-put_all webhooks_of save_task (λ t n. refl) task_list,
              get-put_all webhooks_of save_job (λ j n. refl) job_list,
            )
            (over-none kept_webhook (lookup k m.webhooks))

      loaded_runs : lookup k (loaded m).runs ≡ mapped kept_run (lookup k m.runs)
      unfolding load create_run save_job save_task enqueue_webhook new_mem_store
      loaded_runs =
          let runs_of = λ (n : MemStore). n.runs in
          rw
            (
              lookup-put_all (λ r. r.id) IsFitRun runs_of create_run (λ r n. refl) kept_run
                  (λ r. refl) m.runs
                  (put_all enqueue_webhook webhook_list
                    (put_all save_task task_list (put_all save_job job_list new_mem_store)))
                  k s.runs,
              get-put_all runs_of enqueue_webhook (λ e n. refl) webhook_list,
              get-put_all runs_of save_task (λ t n. refl) task_list,
              get-put_all runs_of save_job (λ j n. refl) job_list,
            )
            (over-none kept_run (lookup k m.runs))

    -- The snapshot loads as a store with this view.
    pub record Loads (snapshot : Option J.File) (v : View) : Type 0 where
      pub store : MemStore
      pub loads : load_snapshot J snapshot new_mem_store ≡ some store
      pub shows : view store ≡ v

    pub take_snapshot-Loads :
        (m : MemStore)
        → IsJson T J
        → IsSound m
        → Loads (some (J.encode_snapshot (take_snapshot m))) (kept_view (view m))
    unfolding load_snapshot
    take_snapshot-Loads m law s = record {
      store = loaded m;
      loads = rw (law.snapshot_lem (take_snapshot m), snapshot-kept m s) refl;
      shows =
          eq_of_lookups _ _ (loaded_jobs m s) (loaded_tasks m s) (loaded_webhooks m s)
            (loaded_runs m s);
    }
