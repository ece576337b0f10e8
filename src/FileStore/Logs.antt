-- ===== src/FileStore/Logs.antt =====
-- manager/store/fsstore.go: the logs. Each run has a file of its own; the buffers, the subscribers and
-- their channels change as in the memory store.
pub mod Lines
pub mod Restart
use workforce.Prelude.{
  ℕ, String, Bool, true, false, Option, none, some, List, [], ◌∷◌, ◌++◌, take, string_eq,
}
use workforce.Prelude.Options.{◌>>=◌}
use workforce.Prelude.Dict.{Dict, lookup, insert}
use workforce.Contract.Job.{Job, Bytes}
use workforce.Contract.Task.{JobRun}
use workforce.Store.{MemStore}
use workforce.Store.Logs
use workforce.Store.Logs.{append_log, send_all}
use workforce.FileStore.Entries.{Json}
use workforce.FileStore.State.{FsStore, Disk}
use workforce.FileStore.Operations.{list_job_runs, list_child_jobs, with_hot}

-- What the system does with a line: the file does not open, `n` of its bytes are written before an
-- error, or all are.
pub data Writing : Type 0 where
  not_opened : Writing
  cut_short : ℕ → Writing
  whole : Writing

-- `append(data, '\n')`
abbrev pub line_of : Bytes → Bytes
line_of bytes = bytes ++ 10 ∷ []

module _ (J : Json) where
  -- `GetRunLogReader`, read to its end at once.
  unfoldable pub get_run_log_reader : String → FsStore J → Bytes
  get_run_log_reader run_id s = elim (lookup run_id s.disk.run_files) [ none ↦ [] | some log ↦ log ]

  unfoldable pub write_file : String → Bytes → FsStore J → FsStore J
  write_file run_id bytes s = record s {
    disk = record s.disk {
      run_files = insert run_id (get_run_log_reader run_id s ++ bytes) s.disk.run_files;
    };
  }

  -- `AppendRunLog`, with whether it succeeds; `between` is what others do before the sends.
  unfoldable pub append_run_log :
      String → Bytes → Writing → (FsStore J → FsStore J) → FsStore J → Bool × FsStore J
  append_run_log run_id bytes not_opened between s = (false, s)
  append_run_log run_id bytes (cut_short n) between s =
      (false, write_file run_id (take n (line_of bytes)) s)
  append_run_log run_id bytes whole between s =
      let line = line_of bytes in
      let ((run_subs, job_subs), m) = append_log run_id line s.hot in
      let s' = between (with_hot J (write_file run_id line s) m) in
      (true, with_hot J s' (send_all line job_subs (send_all line run_subs s'.hot)))

  pub run_logs_of : List JobRun → FsStore J → Bytes
  run_logs_of [] s = []
  run_logs_of (run ∷ runs) s = get_run_log_reader run.id s ++ run_logs_of runs s

  -- `legacy` are the files that an earlier version kept for the jobs.
  abbrev job_log : Dict String Bytes → String → List JobRun → FsStore J → Bytes
  job_log legacy job_id [] s = elim (lookup job_id legacy) [ none ↦ [] | some log ↦ log ]
  job_log legacy job_id (run ∷ runs) s = run_logs_of (run ∷ runs) s

  pub get_job_log_reader : Dict String Bytes → String → FsStore J → Bytes
  get_job_log_reader legacy job_id s = job_log legacy job_id (list_job_runs J job_id s) s

  pub job_logs : Dict String Bytes → List Job → FsStore J → Bytes
  job_logs legacy [] s = []
  job_logs legacy (job ∷ jobs) s = get_job_log_reader legacy job.id s ++ job_logs legacy jobs s

  pub get_root_job_log_reader : Dict String Bytes → String → FsStore J → Bytes
  get_root_job_log_reader legacy root_job_id s =
      get_job_log_reader legacy root_job_id s ++ job_logs legacy (list_child_jobs J root_job_id s) s

  pub subscribe_job_logs : String → FsStore J → Option (ℕ × FsStore J)
  subscribe_job_logs job_id s =
      Logs.subscribe_job_logs job_id s.hot >>= λ (ch, m). some (ch, with_hot J s m)

  unfoldable pub subscribe_run_logs : String → FsStore J → ℕ × FsStore J
  subscribe_run_logs run_id s =
      let (ch, m) = Logs.subscribe_run_logs run_id s.hot in (ch, with_hot J s m)

  pub end_subscription : String → ℕ → FsStore J → FsStore J
  end_subscription job_id ch s = with_hot J s (Logs.end_subscription job_id ch s.hot)

  pub close_run_log_subscribers : String → FsStore J → FsStore J
  close_run_log_subscribers run_id s = with_hot J s (Logs.close_run_log_subscribers run_id s.hot)

  pub close_job_log_subscribers : String → FsStore J → FsStore J
  close_job_log_subscribers job_id s = with_hot J s (Logs.close_job_log_subscribers job_id s.hot)
