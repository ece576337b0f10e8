-- ===== src/FileStore/Logs/Restart.antt =====
-- manager/store/fsstore.go, `OpenFSStore`: the logs of a store that is opened again.
use mathlib.Core.Option.{some-injective}
use mathlib.Core.Path.{subst}
use workforce.Prelude.{
  ◌≡◌, refl, sym, ap, ◌∙◌, ◌^◌, inl, inr, String, Option, none, some, List, [], ◌∷◌, leb,
  Option-cases, string_eq, if_both,
}
use workforce.Prelude.Options.{◌>>=◌}
use workforce.Prelude.Dict.{lookup}
use workforce.Store.{
  MemStore, new_mem_store, save_job, save_task, enqueue_webhook, create_run, ack_webhook,
  nack_webhook,
}
use workforce.Store.Logs.{log_of}
use workforce.FileStore.Entries.{
  Json, JournalOp, JournalEntry, Snapshot, apply_op, stored, apply_journal_entry, replay_lines,
  op_job, op_task_def, op_task_def_delete, op_webhook_enqueue, op_webhook_ack, op_webhook_nack,
  op_run_create, op_run_update, unknown,
}
use workforce.FileStore.State.{FsStore, Disk}
use workforce.FileStore.Writer.{put_all, load, load_snapshot, opened, open_fs_store}
use workforce.FileStore.Logs.{get_run_log_reader}
use workforce.FileStore.Logs.Lines.{log_in}

-- Nothing is in the buffers of the logs.
abbrev HasNoLogs : Option MemStore → Type 0
HasNoLogs none = Unit {0}
HasNoLogs (some m) = m.run_logs ≡ []

put_all-run_logs :
    {A : Type 0} (store : A → MemStore → MemStore)
    → ((a : A) (m : MemStore) → (store a m).run_logs ≡ m.run_logs)
    → (items : List A) (m : MemStore) → (put_all store items m).run_logs ≡ m.run_logs
unfolding put_all
put_all-run_logs store h [] m = refl
put_all-run_logs store h (a ∷ items) m = put_all-run_logs store h items (store a m) ∙ h a m

load-run_logs : (snap : Snapshot) (m : MemStore) → (load snap m).run_logs ≡ m.run_logs
unfolding load create_run save_job save_task enqueue_webhook
load-run_logs snap m =
    put_all-run_logs create_run (λ r m. refl) snap.runs _
    ∙ put_all-run_logs enqueue_webhook (λ e m. refl) snap.webhooks _
    ∙ put_all-run_logs save_task (λ t m. refl) snap.task_defs _
    ∙ put_all-run_logs save_job (λ j m. refl) snap.jobs m

module _ (J : Json) where
  -- A value that is read and stored.
  stored_logs :
      {A : Type 0} (store : A → MemStore → MemStore)
      → ((a : A) (m : MemStore) → (store a m).run_logs ≡ m.run_logs)
      → (o : Option A) (m : MemStore) → m.run_logs ≡ []
      → HasNoLogs (stored J store o m)
  stored_logs store h none m e = tt
  stored_logs store h (some a) m e = h a m ∙ e

  nack_webhook-run_logs :
      (e : JournalEntry J.Raw) (m : MemStore)
      → (nack_webhook e.id e.attempts e.next_attempt_at m).1.run_logs ≡ m.run_logs
  unfolding nack_webhook
  nack_webhook-run_logs e m = elim (Option-cases (lookup e.id m.webhooks)) [
    | inl h ↦ rw (h, nack_webhook) refl
    | inr (w, h) ↦ rw (h, nack_webhook) refl
  ]

  apply_op-HasNoLogs :
      (op : JournalOp) (e : JournalEntry J.Raw) (m : MemStore)
      → m.run_logs ≡ []
      → HasNoLogs (apply_op J op e m)
  unfolding create_run save_job save_task enqueue_webhook ack_webhook
  apply_op-HasNoLogs op_job e m h = stored_logs save_job (λ j m. refl) (J.unmarshal_job e.raw) m h
  apply_op-HasNoLogs op_task_def e m h =
      stored_logs save_task (λ t m. refl) (J.unmarshal_task e.raw) m h
  apply_op-HasNoLogs op_task_def_delete e m h = h
  apply_op-HasNoLogs op_webhook_enqueue e m h =
      stored_logs enqueue_webhook (λ w m. refl) (J.unmarshal_webhook e.raw) m h
  apply_op-HasNoLogs op_webhook_ack e m h = h
  apply_op-HasNoLogs op_webhook_nack e m h = nack_webhook-run_logs e m ∙ h
  apply_op-HasNoLogs op_run_create e m h =
      stored_logs create_run (λ r m. refl) (J.unmarshal_run e.raw) m h
  apply_op-HasNoLogs op_run_update e m h =
      stored_logs create_run (λ r m. refl) (J.unmarshal_run e.raw) m h
  apply_op-HasNoLogs unknown e m h = h

  replay_lines-HasNoLogs :
      (lines : List J.Line) (m : MemStore) → m.run_logs ≡ [] → HasNoLogs (replay_lines J lines m)
  unfolding replay_lines apply_journal_entry
  replay_lines-HasNoLogs [] m h = h
  replay_lines-HasNoLogs (line ∷ lines) m h = elim (Option-cases (J.decode line)) [
    | inl e ↦ rw e (if_both HasNoLogs (leb (2 ^ 20) (J.size line)) tt h)
    | inr (e, f) ↦ elim (Option-cases (apply_op J e.op e m)) [
      | inl g ↦ rw (f, g) (if_both HasNoLogs (leb (2 ^ 20) (J.size line)) tt tt)
      | inr (m', g) ↦
          let h' = subst HasNoLogs g (apply_op-HasNoLogs e.op e m h) in
          rw (f, g)
            (if_both HasNoLogs (leb (2 ^ 20) (J.size line)) tt (replay_lines-HasNoLogs lines m' h'))
    ]
  ]

  load_snapshot-HasNoLogs : (file : Option J.File) → HasNoLogs (load_snapshot J file new_mem_store)
  unfolding load_snapshot new_mem_store
  load_snapshot-HasNoLogs none = refl
  load_snapshot-HasNoLogs (some file) = elim (Option-cases (J.decode_snapshot file)) [
    | inl e ↦ rw e tt
    | inr (snap, e) ↦ rw e (load-run_logs snap new_mem_store)
  ]

  replayed_logs :
      (lines : List J.Line) (d : Disk J) (m : MemStore) (s : FsStore J)
      → m.run_logs ≡ []
      → (replay_lines J lines m >>= λ m. some (opened J d m)) ≡ some s
      → (s.hot.run_logs ≡ []) × (s.disk.run_files ≡ d.run_files)
  replayed_logs lines d m s h e = elim (Option-cases (replay_lines J lines m)) [
    | inl g ↦ let no : none ≡ some s = rw g at e in cc
    | inr (m', g) ↦
        let is : opened J d m' ≡ s = some-injective _ _ (rw g at e) in
        let h' = subst HasNoLogs g (replay_lines-HasNoLogs lines m h) in
        (ap (λ t. t.hot.run_logs) (sym is) ∙ h', ap (λ t. t.disk.run_files) (sym is))
  ]

  -- A store that opens reads each log file that was there, and has nothing in the buffers: who
  -- subscribes gets none of the lines from before.
  pub open_fs_store-logs :
      (d : Disk J) (s : FsStore J) (id : String)
      → open_fs_store J d ≡ some s
      → (get_run_log_reader J id s ≡ log_in id d.run_files) × (log_of id s.hot ≡ [])
  unfolding open_fs_store get_run_log_reader log_of
  open_fs_store-logs d s id e = elim (Option-cases (load_snapshot J d.snapshot new_mem_store)) [
    | inl g ↦ let no : none ≡ some s = rw g at e in cc
    | inr (m, g) ↦
        let (logs, files) =
          replayed_logs d.journal d m s (subst HasNoLogs g (load_snapshot-HasNoLogs d.snapshot))
            (rw g at e) in
        (ap (log_in id) files, ap (log_in id) logs)
  ]
