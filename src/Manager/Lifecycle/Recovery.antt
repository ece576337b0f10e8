-- ===== src/Manager/Lifecycle/Recovery.antt =====
-- manager/manager.go, `RecoverJobs`: the jobs after a restart.
use workforce.Prelude.{
  ◌≡◌, refl, sym, ap, ◌∙◌, inl, inr, String, Bool, true, false, ◌||◌, Option, none, some, List, [],
  ◌∷◌, if◌then◌else◌, if_both, ◌==◌, string_eq, Bool-cases, eq_iff,
}
use workforce.Prelude.Dict.{Dict, lookup, lookup-Fresh}
use workforce.Contract.Job.{Job, proposing, provisioning, running, Time, status_eq}
use workforce.Contract.Task.{JobRun}
use workforce.Store.{MemStore, get_job, update_job, select, list_job_runs, list_recoverable_jobs}
use workforce.Store.Listing.Keys.{AreKeyed, IsKeyed}
use workforce.Store.Updates.{get_job-update_job, get_job-jobs, mapped, jobs-update_run}
use workforce.Manager.Server.{Outside, Server, enqueue_jobs}
use workforce.Manager.WorkerConn.{SimpleSet}
use workforce.Manager.Lifecycle.{end_runs, is_open, ended_run, reset, reset_jobs, recover_jobs}

pub jobs-end_runs :
    (reason : String) (now : Time) (runs : List JobRun) (m : MemStore)
    → (end_runs reason now runs m).jobs ≡ m.jobs
unfolding end_runs
jobs-end_runs reason now [] m = refl
jobs-end_runs reason now (run ∷ runs) m =
    if_both (λ (n : MemStore). n.jobs ≡ m.jobs) (is_open run)
      (jobs-end_runs reason now runs _ ∙ jobs-update_run run.id (ended_run reason now) m)
      (jobs-end_runs reason now runs m)

-- Whether a listing has a job of this identifier.
abbrev has_id : String → List Job → Bool
has_id id [] = false
has_id id (j ∷ jobs) = j.id == id || has_id id jobs

reset_twice : (o : Option Job) → mapped reset (mapped reset o) ≡ mapped reset o
reset_twice none = refl
reset_twice (some j) = refl

get_job-reset_jobs :
    (now : Time) (jobs : List Job) (m : MemStore) (id : String)
    → get_job id (reset_jobs now jobs m)
      ≡ (if has_id id jobs then mapped reset (get_job id m) else get_job id m)
unfolding reset_jobs
get_job-reset_jobs now [] m id = refl
get_job-reset_jobs now (j ∷ jobs) m id =
    let m' = end_runs "recovered: manager restarted" now (list_job_runs j.id m) m in
    let same : get_job id m' ≡ get_job id m =
      get_job-jobs id m' m (jobs-end_runs _ now (list_job_runs j.id m) m) in
    let step = get_job-update_job j.id id reset m' in
    let rest = get_job-reset_jobs now jobs (update_job j.id reset m').1 id in
    rest ∙ elim (Bool-cases (j.id == id)) [
      | inl t ↦ elim (Bool-cases (has_id id jobs)) [
        | inl u ↦ rw (step, t, u, same) (reset_twice (get_job id m))
        | inr u ↦ rw (step, t, u, same) refl
      ]
      | inr n ↦ rw (step, n, same) refl
    ]

abbrev kept : (Job → Bool) → Option Job → Bool
kept keep none = false
kept keep (some j) = keep j

has_id-select :
    (keep : Job → Bool) (id : String) (d : Dict String Job)
    → AreKeyed d
    → has_id id (select keep d) ≡ kept keep (lookup id d)
has_id-select keep id [] k = refl
has_id-select keep id ((i, j) ∷ d) k =
    let rest = has_id-select keep id d k.3 in
    elim (Bool-cases (i == id)) [
      | inl t ↦
          let own : (j.id == id) ≡ true = rw k.0 t in
          let same : i ≡ id = (eq_iff i id).0 t in
          let gone : lookup id d ≡ none = lookup-Fresh id d (rw (sym same) k.2) in
          elim (Bool-cases (keep j)) [
            | inl y ↦ rw (t, y, own) refl
            | inr n ↦ rw (t, n) (rest ∙ rw gone refl)
          ]
      | inr f ↦
          let own : (j.id == id) ≡ false = rw k.0 f in
          elim (Bool-cases (keep j)) [ inl y ↦ rw (f, y, own) rest | inr n ↦ rw (f, n) rest ]
    ]

abbrev pub is_recoverable : Job → Bool
is_recoverable j = j.status == proposing || j.status == provisioning || j.status == running

-- What the recovery makes of a job.
abbrev pub recovered : Option Job → Option Job
recovered none = none
recovered (some j) = if is_recoverable j then some (reset j) else some j

module _ (S : SimpleSet) (O : Outside) where
  store-enqueue_jobs :
      (jobs : List Job) (s : Server S O) → (enqueue_jobs S O jobs s).store ≡ s.store
  unfolding enqueue_jobs
  store-enqueue_jobs [] s = refl
  store-enqueue_jobs (j ∷ jobs) s = refl

  store-recover_jobs :
      (now : Time) (s : Server S O)
      → (recover_jobs S O now s).store ≡ reset_jobs now (list_recoverable_jobs s.store) s.store
  unfolding recover_jobs
  store-recover_jobs now s = store-enqueue_jobs _ _

  recovered_by_kept :
      (o : Option Job) → (if kept is_recoverable o then mapped reset o else o) ≡ recovered o
  recovered_by_kept none = refl
  recovered_by_kept (some j) = refl

  recoverable_listed :
      (m : MemStore) (id : String)
      → IsKeyed m
      → has_id id (list_recoverable_jobs m) ≡ kept is_recoverable (get_job id m)
  unfolding list_recoverable_jobs get_job
  recoverable_listed m id k = has_id-select is_recoverable id m.jobs k.jobs

  -- After the recovery a job that was proposed, provisioning or running is pending, and every other
  -- job is as it was, an accepted one too.
  pub get_job-recover_jobs :
      (now : Time) (s : Server S O) (id : String)
      → IsKeyed s.store
      → get_job id (recover_jobs S O now s).store ≡ recovered (get_job id s.store)
  get_job-recover_jobs now s id k =
      ap (λ (m : MemStore). get_job id m) (store-recover_jobs now s)
      ∙ get_job-reset_jobs now (list_recoverable_jobs s.store) s.store id
      ∙ ap (λ (b : Bool). if b then mapped reset (get_job id s.store) else get_job id s.store)
          (recoverable_listed s.store id k)
      ∙ recovered_by_kept (get_job id s.store)
