-- ===== src/FileStore/Replay.antt =====
-- manager/store/fsstore_journal.go, `replayJournal`: the lines that were written are read as the
-- operations that they stand for.
use workforce.Prelude.{
  ◌≡◌, refl, ◌^◌, String, false, Option, some, List, [], ◌∷◌, ◌++◌, leb, string_eq,
}
use workforce.Prelude.Int.{ℤ}
use workforce.Contract.Job.{Job, Time}
use workforce.Contract.Task.{Task, JobRun}
use workforce.Contract.JsonOrBytes.{JsonText}
use workforce.Store.{MemStore, WebhookEntry, create_run, save_job, save_task, enqueue_webhook}
use workforce.FileStore.Entries.{
  Json, JournalEntry, IsJson, entry, apply_journal_entry, replay_lines, op_task_def_delete,
  op_webhook_ack, op_run_create, op_run_update,
}
use workforce.FileStore.Operations.{job_entry, task_entry, webhook_entry, run_entry, nack_entry}
use workforce.FileStore.Views.{
  View, Logged, put_job, put_task, drop_task, put_webhook, drop_webhook, nack, put_run, act, acts,
}
use workforce.FileStore.Loading.{
  view, kept_job, kept_run, kept_webhook, IsFitJob, IsFitTask, IsFitWebhook, IsFitRun, IsShort,
  restored_job-kept, restored_run-kept, restored_webhook-kept,
}
use workforce.FileStore.Changes.{
  view-save_job, view-save_task, view-drop_task, view-enqueue_webhook, view-ack_webhook,
  view-create_run, view-nack_webhook,
}

module _ (J : Json) where
  -- The store after an entry, or after some lines.
  pub record Applied (result : Option MemStore) (v : View) : Type 0 where
    pub store : MemStore
    pub gives : result ≡ some store
    pub shows : view store ≡ v

  -- An entry stands for an operation, and the scanner holds its line.
  pub record Reads (e : JournalEntry J.Raw) (op : Logged) : Type 0 where
    pub short : leb (2 ^ 20) (J.size (J.encode e)) ≡ false
    pub applies : (m : MemStore) → Applied (apply_journal_entry J e m) (act op (view m))

  abbrev pub ReadEntries : List (JournalEntry J.Raw) → List Logged → Type 0
  ReadEntries [] [] = Unit {0}
  ReadEntries (e ∷ es) (op ∷ ops) = Reads e op × ReadEntries es ops
  ReadEntries _ _ = ⊥

  -- A line that was written for an entry.
  pub record ReadsLine (line : J.Line) (op : Logged) : Type 0 where
    pub of : JournalEntry J.Raw
    pub line_of : line ≡ J.encode of
    pub reads : Reads of op

  abbrev pub ReadLines : List J.Line → List Logged → Type 0
  ReadLines [] [] = Unit {0}
  ReadLines (line ∷ lines) (op ∷ ops) = ReadsLine line op × ReadLines lines ops
  ReadLines _ _ = ⊥

  pub ReadLines-append :
      (ls ks : List J.Line) (es fs : List Logged)
      → ReadLines ls es
      → ReadLines ks fs
      → ReadLines (ls ++ ks) (es ++ fs)
  ReadLines-append [] ks [] fs h g = g
  ReadLines-append (l ∷ ls) ks (e ∷ es) fs h g = (h.0, ReadLines-append ls ks es fs h.1 g)
  ReadLines-append [] ks (e ∷ es) fs h g = absurd h
  ReadLines-append (l ∷ ls) ks [] fs h g = absurd h

  pub ReadEntries-append :
      (ls ks : List (JournalEntry J.Raw)) (es fs : List Logged)
      → ReadEntries ls es
      → ReadEntries ks fs
      → ReadEntries (ls ++ ks) (es ++ fs)
  ReadEntries-append [] ks [] fs h g = g
  ReadEntries-append (l ∷ ls) ks (e ∷ es) fs h g = (h.0, ReadEntries-append ls ks es fs h.1 g)
  ReadEntries-append [] ks (e ∷ es) fs h g = absurd h
  ReadEntries-append (l ∷ ls) ks [] fs h g = absurd h

  module _ (T : JsonText) (law : IsJson T J) where
    -- Lines that were written are replayed, and the replay goes on after them.
    pub replay_lines-append :
        (lines rest : List J.Line) (ops : List Logged) (m : MemStore)
        → ReadLines lines ops
        → (m' : MemStore) × (replay_lines J (lines ++ rest) m ≡ replay_lines J rest m')
          × (view m' ≡ acts ops (view m))
    unfolding replay_lines acts
    replay_lines-append [] rest [] m h = (m, refl, refl)
    replay_lines-append [] rest (op ∷ ops) m h = absurd h
    replay_lines-append (line ∷ lines) rest [] m h = absurd h
    replay_lines-append (line ∷ lines) rest (op ∷ ops) m h =
        let e = h.0.of in
        let first = h.0.reads.applies m in
        let (m', goes, shows) = replay_lines-append lines rest ops first.store h.1 in
        (
          m',
          rw (h.0.line_of, h.0.reads.short, law.line_lem e, first.gives) goes,
          rw (← first.shows) shows,
        )

    -- The entries of the operations.
    pub job_entry-Reads :
        (j : Job) → IsFitJob T J j → Reads (job_entry J j) (put_job (kept_job T j))
    unfolding apply_journal_entry
    job_entry-Reads j fit = record {
      short = fit.1;
      applies = λ m. record {
        store = save_job (kept_job T j) m;
        gives = rw (law.job_lem j, restored_job-kept T j fit.0) refl;
        shows = view-save_job (kept_job T j) m;
      };
    }

    pub task_entry-Reads : (t : Task) → IsFitTask T J t → Reads (task_entry J t) (put_task t)
    unfolding apply_journal_entry
    task_entry-Reads t fit = record {
      short = fit;
      applies = λ m. record {
        store = save_task t m;
        gives = rw (law.task_lem t) refl;
        shows = view-save_task t m;
      };
    }

    pub drop_task-Reads :
        (name : String)
        → IsShort T J (entry J op_task_def_delete J.nil name)
        → Reads (entry J op_task_def_delete J.nil name) (drop_task name)
    unfolding apply_journal_entry
    drop_task-Reads name short = record {
      short = short;
      applies = λ m. record { store = _; gives = refl; shows = view-drop_task name m };
    }

    pub webhook_entry-Reads :
        (e : WebhookEntry)
        → IsFitWebhook T J e
        → Reads (webhook_entry J e) (put_webhook (kept_webhook T e))
    unfolding apply_journal_entry
    webhook_entry-Reads e fit = record {
      short = fit.1;
      applies = λ m. record {
        store = enqueue_webhook (kept_webhook T e) m;
        gives = rw (law.webhook_lem e, restored_webhook-kept T e fit.0) refl;
        shows = view-enqueue_webhook (kept_webhook T e) m;
      };
    }

    pub ack-Reads :
        (id : String)
        → IsShort T J (entry J op_webhook_ack J.nil id)
        → Reads (entry J op_webhook_ack J.nil id) (drop_webhook id)
    unfolding apply_journal_entry
    ack-Reads id short = record {
      short = short;
      applies = λ m. record { store = _; gives = refl; shows = view-ack_webhook id m };
    }

    pub nack_entry-Reads :
        (id : String) (a : ℤ) (t : Time)
        → IsShort T J (nack_entry J id a t)
        → Reads (nack_entry J id a t) (nack id a t)
    unfolding apply_journal_entry
    nack_entry-Reads id a t short = record {
      short = short;
      applies = λ m. record { store = _; gives = refl; shows = view-nack_webhook id a t m };
    }

    pub run_created-Reads :
        (r : JobRun) → IsFitRun T J r → Reads (run_entry J op_run_create r) (put_run (kept_run T r))
    unfolding apply_journal_entry
    run_created-Reads r fit = record {
      short = fit.1;
      applies = λ m. record {
        store = create_run (kept_run T r) m;
        gives = rw (law.run_lem r, restored_run-kept T r fit.0) refl;
        shows = view-create_run (kept_run T r) m;
      };
    }

    pub run_updated-Reads :
        (r : JobRun) → IsFitRun T J r → Reads (run_entry J op_run_update r) (put_run (kept_run T r))
    unfolding apply_journal_entry
    run_updated-Reads r fit = record {
      short = fit.2;
      applies = λ m. record {
        store = create_run (kept_run T r) m;
        gives = rw (law.run_lem r, restored_run-kept T r fit.0) refl;
        shows = view-create_run (kept_run T r) m;
      };
    }
