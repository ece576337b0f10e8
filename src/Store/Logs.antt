-- ===== src/Store/Logs.antt =====
-- The logs of the memory store and their subscribers (manager/store/memstore.go). A channel is a
-- number, which `chans` maps to its buffer.
pub mod Subscribers
mod Tests
use workforce.Prelude.{
  ℕ, suc, ◌+◌, String, Bool, true, false, Option, none, some, List, [], ◌∷◌, ◌++◌, length, leb, ltb,
  if◌then◌else◌, ◌==◌, nat_eq, string_eq,
}
use workforce.Prelude.Dict.{Dict, lookup, insert, delete}
use workforce.Contract.Job.{Job, Bytes}
use workforce.Contract.Task.{JobRun}
use workforce.Store.{MemStore, Chan, list_job_runs, list_child_jobs}

abbrev pub subscribers : String → Dict String (List ℕ) → List ℕ
subscribers key d = elim (lookup key d) [ none ↦ [] | some chans ↦ chans ]

unfoldable pub log_of : String → MemStore → Bytes
log_of run_id m = elim (lookup run_id m.run_logs) [ none ↦ [] | some log ↦ log ]

-- `select { case ch <- chunk: default: }`
unfoldable pub try_send : Bytes → ℕ → MemStore → MemStore
try_send chunk ch m = elim (lookup ch m.chans) [
  | none ↦ m
  | some c ↦
      if c.is_closed
      then record m { panicked = true }
      else if ltb (length c.buffer) 64
      then record m { chans = insert ch (record c { buffer = c.buffer ++ chunk ∷ [] }) m.chans }
      else m
]

unfoldable pub send_all : Bytes → List ℕ → MemStore → MemStore
send_all chunk [] m = m
send_all chunk (ch ∷ chs) m = send_all chunk chs (try_send chunk ch m)

-- `AppendRunLog` up to the release of `logMu`: who is sent to, and the store.
unfoldable pub append_log : String → Bytes → MemStore → (List ℕ × List ℕ) × MemStore
append_log run_id chunk m =
    let run_subs = subscribers run_id m.run_subscribers in
    let job_subs : List ℕ = elim (lookup run_id m.runs) [
      | none ↦ []
      | some run ↦ subscribers run.job_id m.job_subscribers
    ] in
    (
      (run_subs, job_subs),
      record m { run_logs = insert run_id (log_of run_id m ++ chunk) m.run_logs },
    )

-- `between` is what happens before the sends.
unfoldable pub append_run_log : String → Bytes → (MemStore → MemStore) → MemStore → MemStore
append_run_log run_id chunk between m =
    let ((run_subs, job_subs), m') = append_log run_id chunk m in
    send_all chunk job_subs (send_all chunk run_subs (between m'))

pub logs_of : List JobRun → MemStore → Bytes
logs_of [] m = []
logs_of (run ∷ runs) m = log_of run.id m ++ logs_of runs m

pub get_job_log_reader : String → MemStore → Bytes
get_job_log_reader job_id m = logs_of (list_job_runs job_id m) m

pub job_logs : List Job → MemStore → Bytes
job_logs [] m = []
job_logs (job ∷ jobs) m = get_job_log_reader job.id m ++ job_logs jobs m

pub get_root_job_log_reader : String → MemStore → Bytes
get_root_job_log_reader root_job_id m =
    get_job_log_reader root_job_id m ++ job_logs (list_child_jobs root_job_id m) m

-- The logs that a subscriber gets first, one item for each run that has one.
pub backlog : List JobRun → MemStore → List Bytes
backlog [] m = []
backlog (run ∷ runs) m =
    let rest = backlog runs m in
    if leb 1 (length (log_of run.id m)) then log_of run.id m ∷ rest else rest

-- `SubscribeJobLogs`, up to its goroutine; `none` while it waits, with `logMu` held, for a full
-- buffer.
pub subscribe_job_logs : String → MemStore → Option (ℕ × MemStore)
subscribe_job_logs job_id m =
    let first = backlog (list_job_runs job_id m) m in
    let ch = m.next_chan in
    if ltb 64 (length first)
    then none
    else some (
      ch,
      record m {
        chans = insert ch (record { buffer = first; is_closed = false }) m.chans;
        next_chan = suc ch;
        job_subscribers =
            insert job_id (subscribers job_id m.job_subscribers ++ ch ∷ []) m.job_subscribers;
      },
    )

pub subscribe_run_logs : String → MemStore → ℕ × MemStore
subscribe_run_logs run_id m =
    let log = log_of run_id m in
    let ch = m.next_chan in
    let first : List Bytes = if leb 1 (length log) then log ∷ [] else [] in
    (
      ch,
      record m {
        chans = insert ch (record { buffer = first; is_closed = false }) m.chans;
        next_chan = suc ch;
        run_subscribers =
            insert run_id (subscribers run_id m.run_subscribers ++ ch ∷ []) m.run_subscribers;
      },
    )

-- `close(ch)`
unfoldable pub close_chan : ℕ → MemStore → MemStore
close_chan ch m = elim (lookup ch m.chans) [
  | none ↦ m
  | some c ↦
      if c.is_closed
      then record m { panicked = true }
      else record m { chans = insert ch (record c { is_closed = true }) m.chans }
]

unfoldable pub close_all : List ℕ → MemStore → MemStore
close_all [] m = m
close_all (ch ∷ chs) m = close_all chs (close_chan ch m)

unfoldable pub close_run_log_subscribers : String → MemStore → MemStore
close_run_log_subscribers run_id m =
    let m' = close_all (subscribers run_id m.run_subscribers) m in
    record m' { run_subscribers = delete run_id m'.run_subscribers }

unfoldable pub close_job_log_subscribers : String → MemStore → MemStore
close_job_log_subscribers job_id m =
    let m' = close_all (subscribers job_id m.job_subscribers) m in
    record m' { job_subscribers = delete job_id m'.job_subscribers }

pub remove_chan : ℕ → List ℕ → List ℕ
remove_chan ch [] = []
remove_chan ch (c ∷ cs) = let rest = remove_chan ch cs in if c == ch then cs else c ∷ rest

-- The goroutine of `SubscribeJobLogs`, once the context is done.
pub end_subscription : String → ℕ → MemStore → MemStore
end_subscription job_id ch m =
    let left : Dict String (List ℕ) = elim (lookup job_id m.job_subscribers) [
      | none ↦ m.job_subscribers
      | some subs ↦ insert job_id (remove_chan ch subs) m.job_subscribers
    ] in
    close_chan ch (record m { job_subscribers = left })
