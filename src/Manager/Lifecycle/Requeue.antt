-- ===== src/Manager/Lifecycle/Requeue.antt =====
-- manager/manager.go, `OnJobsRequeued`: the jobs of a worker that is gone.
use workforce.Prelude.{
  ◌≡◌, refl, sym, ap, ◌∙◌, inl, inr, ℕ, ◌+◌, arith, String, Bool, true, false, Option, none, some,
  List, [], ◌∷◌, if◌then◌else◌, ◌==◌, string_eq, Option-cases, Bool-cases, eq_iff,
}
use workforce.Contract.Job.{Job, Time}
use workforce.Store.{MemStore, get_job, update_job, list_job_runs}
use workforce.Store.Updates.{get_job-update_job, get_job-jobs, mapped}
use workforce.Manager.Queue.{job_outranks}
use workforce.Manager.Queue.Counts.{count, weight, count-push_item}
use workforce.Manager.Server.{Outside, Server, enqueue_job}
use workforce.Manager.WorkerConn.{SimpleSet}
use workforce.Manager.Lifecycle.{on_jobs_requeued, end_runs, reset}
use workforce.Manager.Lifecycle.Recovery.{jobs-end_runs}

-- The jobs of some identifiers, pending, those left out that the store does not have.
abbrev pub requeued : List String → MemStore → List Job
requeued [] m = []
requeued (id ∷ ids) m = elim (mapped reset (get_job id m)) [
  | none ↦ requeued ids m
  | some job ↦ job ∷ requeued ids m
]

-- How many of some jobs a test holds for.
abbrev pub tally : (Job → Bool) → List Job → ℕ
tally f [] = 0
tally f (j ∷ jobs) = weight f j + tally f jobs

abbrev pub is_in : String → List String → Bool
is_in id [] = false
is_in id (i ∷ ids) = if i == id then true else is_in id ids

reset_twice : (o : Option Job) → mapped reset (mapped reset o) ≡ mapped reset o
reset_twice none = refl
reset_twice (some j) = refl

requeued_ext :
    (ids : List String) (m n : MemStore)
    → ((id : String) → mapped reset (get_job id m) ≡ mapped reset (get_job id n))
    → requeued ids m ≡ requeued ids n
requeued_ext [] m n h = refl
requeued_ext (id ∷ ids) m n h =
    let rest = requeued_ext ids m n h in
    elim (Option-cases (mapped reset (get_job id n))) [
      | inl e ↦ rw (h id, e, requeued) rest
      | inr (j, e) ↦ rw (h id, e, requeued) (ap (λ js. j ∷ js) rest)
    ]

module _ (S : SimpleSet) (O : Outside) where
  -- What one identifier makes of the state.
  abbrev step : Time → String → Server S O → Server S O
  step now id s =
      let m = end_runs "worker disconnected" now (list_job_runs id s.store) s.store in
      elim (get_job id m) [
        | none ↦ record s { store = m }
        | some job ↦ enqueue_job S O (reset job) (record s { store = (update_job id reset m).1 })
      ]

  on_jobs_requeued-step :
      (now : Time) (id : String) (ids : List String) (s : Server S O)
      → on_jobs_requeued S O now (id ∷ ids) s ≡ on_jobs_requeued S O now ids (step now id s)
  unfolding on_jobs_requeued
  on_jobs_requeued-step now id ids s =
      let m = end_runs "worker disconnected" now (list_job_runs id s.store) s.store in
      elim (Option-cases (get_job id m)) [
        | inl e ↦ rw (e, step, on_jobs_requeued) refl
        | inr (job, e) ↦ rw (e, step, on_jobs_requeued) refl
      ]

  get_job-step :
      (now : Time) (id j : String) (s : Server S O)
      → get_job j (step now id s).store
        ≡ (if id == j then mapped reset (get_job j s.store) else get_job j s.store)
  unfolding enqueue_job
  get_job-step now id j s =
      let runs = list_job_runs id s.store in
      let m = end_runs "worker disconnected" now runs s.store in
      let same : (k : String) → get_job k m ≡ get_job k s.store =
        λ k. get_job-jobs k m s.store (jobs-end_runs _ now runs s.store) in
      elim (Option-cases (get_job id m)) [
        | inl e ↦
            rw (e, step)
              (elim (Bool-cases (id == j)) [
                | inl t ↦
                    let e' : get_job j s.store ≡ none =
                      ap (λ k. get_job k s.store) (sym ((eq_iff id j).0 t)) ∙ sym (same id) ∙ e in
                    rw (t, same j, e', mapped) refl
                | inr f ↦ rw f (same j)
              ])
        | inr (job, e) ↦ rw (e, step) (get_job-update_job id j reset m ∙ rw (same j) refl)
      ]

  count-step :
      (f : Job → Bool) (now : Time) (id : String) (ids : List String) (s : Server S O)
      → tally f (requeued (id ∷ ids) s.store) + count f s.queue.items
        ≡ tally f (requeued ids s.store) + count f (step now id s).queue.items
  unfolding enqueue_job
  count-step f now id ids s =
      let runs = list_job_runs id s.store in
      let m = end_runs "worker disconnected" now runs s.store in
      let same : get_job id m ≡ get_job id s.store =
        get_job-jobs id m s.store (jobs-end_runs _ now runs s.store) in
      elim (Option-cases (get_job id m)) [
        | inl e ↦ rw (e, step, sym same ∙ e, requeued) refl
        | inr (job, e) ↦
            rw (e, step, sym same ∙ e, requeued)
              (omega (arith, count-push_item f job_outranks (reset job) s.queue))
      ]

  -- The jobs that were in flight on a worker that is gone are pending, whatever their status was,
  -- cancelled ones too, and no other job of the store changes; each that is known is queued once more
  -- for each time that it is listed.
  pub on_jobs_requeued_pending :
      (now : Time) (ids : List String) (s : Server S O) (id : String) (f : Job → Bool)
      → (get_job id (on_jobs_requeued S O now ids s).store
          ≡ (if is_in id ids then mapped reset (get_job id s.store) else get_job id s.store))
        × (count f (on_jobs_requeued S O now ids s).queue.items
            ≡ tally f (requeued ids s.store) + count f s.queue.items)
  unfolding on_jobs_requeued
  on_jobs_requeued_pending now [] s id f = (refl, omega arith)
  on_jobs_requeued_pending now (i ∷ ids) s id f =
      let s1 = step now i s in
      let (there, counted) = on_jobs_requeued_pending now ids s1 id f in
      let again = on_jobs_requeued-step now i ids s in
      let ext : requeued ids s1.store ≡ requeued ids s.store = requeued_ext ids _ _ (λ j.
        ap (mapped reset) (get_job-step now i j s) ∙ elim (Bool-cases (i == j)) [
          | inl t ↦ rw t (reset_twice (get_job j s.store))
          | inr n ↦ rw n refl
        ]) in
      (
        rw again (
            there
            ∙ rw (get_job-step now i id s) (elim (Bool-cases (i == id)) [
              | inl t ↦ rw t (elim (Bool-cases (is_in id ids)) [
                | inl u ↦ rw u (reset_twice (get_job id s.store))
                | inr u ↦ rw u refl
              ])
              | inr n ↦ rw n refl
            ])),
        rw again (counted ∙ rw ext (sym (count-step f now i ids s))),
      )
