-- ===== src/Store/Updates.antt =====
-- manager/store/memstore.go: what one job is after an operation.
use workforce.Prelude.{
  ◌≡◌, refl, ap, ◌∙◌, inl, inr, ℕ, String, Option, none, some, List, [], ◌∷◌, arith, if◌then◌else◌,
  ◌==◌, string_eq, nat_eq, eq_iff, Option-cases, Bool-cases,
}
use workforce.Prelude.Dict.{lookup, lookup-insert}
use workforce.Contract.Job.{Job, Bytes}
use workforce.Contract.Task.{JobRun}
use workforce.Store.{MemStore, get_job, update_job, save_job, create_run, update_run}
use workforce.Store.Logs.{
  append_run_log, append_log, send_all, try_send, close_chan, close_all, close_run_log_subscribers,
  close_job_log_subscribers,
}

abbrev pub mapped : (Job → Job) → Option Job → Option Job
mapped f none = none
mapped f (some job) = some (f job)

-- `UpdateJob` changes the job that it names, if there is one, and no other.
pub get_job-update_job :
    (id j : String) (f : Job → Job) (m : MemStore)
    → get_job j (update_job id f m).1 ≡ (if id == j then mapped f (get_job j m) else get_job j m)
unfolding get_job update_job
get_job-update_job id j f m = elim (Option-cases (lookup id m.jobs)) [
  | inl e ↦
      rw (e, update_job)
        (elim (Bool-cases (id == j)) [
          | inl t ↦
              let same : id ≡ j = (eq_iff id j).0 t in
              let e' : lookup j m.jobs ≡ none = rw same at e in rw (t, e', mapped) refl
          | inr f ↦ rw f refl
        ])
  | inr (job, e) ↦
      rw (e, update_job)
        (lookup-insert id j (f job) m.jobs ∙ elim (Bool-cases (id == j)) [
          | inl t ↦
              let same : id ≡ j = (eq_iff id j).0 t in
              let e' : lookup j m.jobs ≡ some job = rw same at e in rw (t, e', mapped) refl
          | inr n ↦ rw n refl
        ])
]

pub get_job-jobs : (id : String) (m n : MemStore) → m.jobs ≡ n.jobs → get_job id m ≡ get_job id n
unfolding get_job
get_job-jobs id m n e = ap (lookup id) e

-- What `UpdateJob` leaves of a job that it changes.
pub get_job-update_self :
    (id : String) (f : Job → Job) (m : MemStore) (job : Job)
    → get_job id m ≡ some job
    → get_job id (update_job id f m).1 ≡ some (f job)
get_job-update_self id f m job h =
    get_job-update_job id id f m ∙ rw ((eq_iff id id).1 refl, h, mapped) refl

pub get_job-save_job :
    (j : String) (job : Job) (m : MemStore)
    → get_job j (save_job job m) ≡ (if job.id == j then some job else get_job j m)
unfolding get_job save_job
get_job-save_job j job m = lookup-insert job.id j job m.jobs

-- The operations on runs, logs and webhooks leave the jobs alone.
pub jobs-create_run : (run : JobRun) (m : MemStore) → (create_run run m).jobs ≡ m.jobs
unfolding create_run
jobs-create_run run m = refl

pub jobs-update_run :
    (id : String) (f : JobRun → JobRun) (m : MemStore) → (update_run id f m).1.jobs ≡ m.jobs
unfolding update_run
jobs-update_run id f m = elim (Option-cases (lookup id m.runs)) [
  | inl e ↦ rw (e, update_run) refl
  | inr (run, e) ↦ rw (e, update_run) refl
]

jobs-try_send : (chunk : Bytes) (ch : ℕ) (m : MemStore) → (try_send chunk ch m).jobs ≡ m.jobs
unfolding try_send
jobs-try_send chunk ch m = elim (Option-cases (lookup ch m.chans)) [
  | inl e ↦ rw (e, try_send) refl
  | inr (ch, e) ↦ rw (e, try_send) (ground arith)
]

jobs-send_all : (chunk : Bytes) (chs : List ℕ) (m : MemStore) → (send_all chunk chs m).jobs ≡ m.jobs
unfolding send_all
jobs-send_all chunk [] m = refl
jobs-send_all chunk (ch ∷ chs) m = jobs-send_all chunk chs _ ∙ jobs-try_send chunk ch m

pub jobs-append_run_log :
    (id : String) (chunk : Bytes) (m : MemStore)
    → (append_run_log id chunk (λ n. n) m).jobs ≡ m.jobs
unfolding append_run_log append_log
jobs-append_run_log id chunk m = jobs-send_all chunk _ _ ∙ jobs-send_all chunk _ _

jobs-close_chan : (ch : ℕ) (m : MemStore) → (close_chan ch m).jobs ≡ m.jobs
unfolding close_chan
jobs-close_chan ch m = elim (Option-cases (lookup ch m.chans)) [
  | inl e ↦ rw (e, close_chan) refl
  | inr (x, e) ↦ rw (e, close_chan) (ground arith)
]

jobs-close_all : (chs : List ℕ) (m : MemStore) → (close_all chs m).jobs ≡ m.jobs
unfolding close_all
jobs-close_all [] m = refl
jobs-close_all (ch ∷ chs) m = jobs-close_all chs _ ∙ jobs-close_chan ch m

pub jobs-close_run_log_subscribers :
    (id : String) (m : MemStore) → (close_run_log_subscribers id m).jobs ≡ m.jobs
unfolding close_run_log_subscribers
jobs-close_run_log_subscribers id m = jobs-close_all _ m

pub jobs-close_job_log_subscribers :
    (id : String) (m : MemStore) → (close_job_log_subscribers id m).jobs ≡ m.jobs
unfolding close_job_log_subscribers
jobs-close_job_log_subscribers id m = jobs-close_all _ m
