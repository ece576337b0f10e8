-- ===== src/Manager/Dispatcher/Sent.antt =====
-- manager/dispatcher.go, `ProcessQueue`: what the workers are sent for the jobs of the queue.
use mathlib.Core.Path.{subst}
use workforce.Prelude.{
  ◌≡◌, refl, sym, ap, ◌∙◌, inl, inr, ◌⊎◌, ℕ, ◌+◌, ◌≤◌, String, Bool, false, ◌&&◌, Option, none,
  some, List, [], ◌∷◌, ◌++◌, arith, if◌then◌else◌, if_both, ◌==◌, string_eq, nat_eq, Option-cases,
  Bool-cases, is_some,
}
use workforce.Prelude.Dict.{Dict, lookup}
use workforce.Contract.Job.{Job, Time, proposing}
use workforce.Contract.Task.{Task}
use workforce.Store.{MemStore, get_task, update_job}
use workforce.Manager.Config.{Config}
use workforce.Manager.Lifecycle.{fail_job_direct}
use workforce.Manager.Messages.{
  Frame, heartbeat_frame, propose_frame, dispatch_frame, cancel_frame, error_frame,
}
use workforce.Manager.Queue.Counts.{weight}
use workforce.Manager.Server.Jobs.{tasks-fire, sent-fire}
use workforce.Manager.Server.{Outside, Server}
use workforce.Manager.WorkerConn.{SimpleSet, WorkerConn}
use workforce.Manager.WorkerPool.{Ref, subtract_capacity, eligible_workers}
use workforce.Manager.Dispatcher.{
  dispatch_job, Verdict, dispatched, failed, deferred, verdict_of, DispatchError, unknown_task,
  no_artifact_platform, no_eligible_workers, not_resolved, not_sent, unknown_job, not_assigned,
  try_propose_job, propose_to, proposal_for, send_proposal, mark_proposed,
  job_platform_keys_for_dispatch, platform_deferral, JobDeferral, any_online,
}

abbrev proposes : String → Frame → Bool
proposes id heartbeat_frame = false
proposes id (propose_frame job_id task cost hash url deps quiet) = job_id == id
proposes id (dispatch_frame job_id run_id phase attempt payload) = false
proposes id (cancel_frame job_id) = false
proposes id (error_frame code) = false

-- How often a job was proposed.
abbrev pub proposals : {R : Type 0} → String → List (R × Frame) → ℕ
proposals id [] = 0
proposals id ((r, frame) ∷ sent) = (if proposes id frame then 1 else 0) + proposals id sent

proposals-append :
    {R : Type 0} (id : String) (r : R) (frame : Frame) (sent : List (R × Frame))
    → proposals id (sent ++ (r, frame) ∷ [])
      ≡ (if proposes id frame then 1 else 0) + proposals id sent
proposals-append id r frame [] = refl
proposals-append id r frame ((q, f) ∷ sent) = omega (arith, proposals-append id r frame sent)

-- The jobs of an identifier whose task is among these.
abbrev pub is_known : String → Dict String Task → Job → Bool
is_known id tasks job = job.id == id && is_some (lookup job.task_name tasks)

-- What is left to do of a job after a verdict, and after an error.
abbrev pub kept : ℕ → Verdict → ℕ
kept n dispatched = 0
kept n failed = 0
kept n (deferred short) = n

abbrev owed : ℕ → Option DispatchError → ℕ
owed n none = 0
owed n (some unknown_task) = 0
owed n (some no_artifact_platform) = n
owed n (some no_eligible_workers) = n
owed n (some not_resolved) = n
owed n (some not_sent) = n
owed n (some unknown_job) = n
owed n (some not_assigned) = n

tasks-update_job :
    (id : String) (g : Job → Job) (m : MemStore) → (update_job id g m).1.task_defs ≡ m.task_defs
unfolding update_job
tasks-update_job id g m = elim (Option-cases (lookup id m.jobs)) [
  | inl e ↦ rw (e, update_job) refl
  | inr (j, e) ↦ rw (e, update_job) refl
]

module _ (S : SimpleSet) (O : Outside) (id : String) (tasks : Dict String Task) where
  abbrev pub unit : Job → ℕ
  unit job = weight (is_known id tasks) job

  -- `n` of the job is still to be done at `t`, and the rest was proposed since `s`.
  abbrev pub Proposed : ℕ → ℕ → Server S O → Server S O → Type 0
  Proposed u n s t =
      (t.store.task_defs ≡ tasks) × (u + proposals id s.sent ≤ proposals id t.sent + n)

  fail_job_direct-sent :
      (now : Time) (job : Job) (reason : String) (s : Server S O)
      → ((fail_job_direct S O now job reason s).store.task_defs ≡ s.store.task_defs)
        × ((fail_job_direct S O now job reason s).sent ≡ s.sent)
  unfolding fail_job_direct
  fail_job_direct-sent now job reason s =
      (tasks-fire S O now job _ _ ∙ tasks-update_job job.id _ s.store, sent-fire S O now job _ _)

  unit-unknown :
      (job : Job) (s : Server S O)
      → s.store.task_defs ≡ tasks
      → get_task job.task_name s.store ≡ none
      → unit job ≡ 0
  unfolding get_task
  unit-unknown job s same e =
      let absent : lookup job.task_name tasks ≡ none = ap (lookup job.task_name) (sym same) ∙ e in
      elim (Bool-cases (job.id == id)) [ inl t ↦ rw (t, absent) refl | inr t ↦ rw t refl ]

  unit-le : (job : Job) → unit job ≤ (if job.id == id then 1 else 0)
  unit-le job = elim (Bool-cases (job.id == id)) [
    | inl t ↦ rw t (
        if_both (λ (n : ℕ). n ≤ 1) (is_some (lookup job.task_name tasks)) (omega arith)
          (omega arith))
    | inr t ↦ rw t (omega arith)
  ]

module _ (S : SimpleSet) (O : Outside) (c : Config)
    (choose : Ref × WorkerConn S → List (Ref × WorkerConn S) → Ref × WorkerConn S)
    (sign : Option (String → Option String)) (id : String) (tasks : Dict String Task) where
  abbrev pub one : Job → ℕ
  one job = weight (is_known id tasks) job

  abbrev Names : Job → Option Frame → Type 0
  Names job none = Unit {0}
  Names job (some frame) = proposes id frame ≡ (job.id == id)

  proposal_for-Names :
      (job : Job) (task : Task) (w : WorkerConn S)
      → Names job (proposal_for S O c choose sign job task w)
  unfolding proposal_for
  proposal_for-Names job task w = elim (Option-cases c.artifacts_registry) [
    | inl e ↦ rw (e, proposal_for) refl
    | inr (registry, e) ↦
        elim (Option-cases (
          if job.artifact_version == ""
          then registry.resolve task.name w.os w.arch
          else registry.resolve_version task.name job.artifact_version w.os w.arch)) [
            | inl f ↦ rw (e, proposal_for, f) tt
            | inr (p, f) ↦ rw (e, proposal_for, f) refl
          ]
  ]

  mark_proposed-sent :
      (now : Time) (r : Ref) (job : Job) (s : Server S O)
      → ((mark_proposed S O c choose sign now r job s).1.store.task_defs ≡ s.store.task_defs)
        × ((mark_proposed S O c choose sign now r job s).1.sent ≡ s.sent)
  unfolding mark_proposed
  mark_proposed-sent now r job s =
      let same = tasks-update_job job.id (λ j. record j { status = proposing }) s.store in
      let known = (update_job job.id (λ j. record j { status = proposing }) s.store).0 in
      let error = (subtract_capacity S now r job.id job.cost s.pool).0 in
      elim (Bool-cases known) [
        | inl t ↦ elim (Bool-cases (is_some error)) [
          | inl e ↦ rw (t, e) (same, refl)
          | inr e ↦ rw (t, e) (tasks-fire S O now job _ _ ∙ same, sent-fire S O now job _ _)
        ]
        | inr n ↦ rw n (same, refl)
      ]

  abbrev Fate : Job → Server S O → Option DispatchError × Server S O → Type 0
  Fate job s x = Proposed S O id tasks (one job) (owed (one job) x.0) s x.1

  propose_to-Fate :
      (now : Time) (writes : Bool) (task : Task) (job : Job) (ws : List (Ref × WorkerConn S))
      (s : Server S O)
      → s.store.task_defs ≡ tasks
      → Fate job s (propose_to S O c choose sign now writes task job ws s)
  unfolding propose_to send_proposal
  propose_to-Fate now writes task job [] s h = (h, omega arith)
  propose_to-Fate now writes task job (w ∷ ws) s h =
      let (r, selected) = choose w ws in
      elim (Option-cases (proposal_for S O c choose sign job task selected)) [
        | inl e ↦ rw (e, propose_to) (h, omega arith)
        | inr (frame, e) ↦
            let names = subst (Names job) e (proposal_for-Names job task selected) in
            let s1 : Server S O = record s { sent = s.sent ++ (r, frame) ∷ [] } in
            let m = mark_proposed-sent now r job s1 in
            let one_more : proposals id s1.sent
                ≡ (if job.id == id then 1 else 0) + proposals id s.sent =
              proposals-append id r frame s.sent
              ∙ ap (λ (b : Bool). (if b then 1 else 0) + proposals id s.sent) names in
            let after : proposals id (mark_proposed S O c choose sign now r job s1).1.sent
                ≡ proposals id s1.sent =
              ap (proposals id) m.1 in
            rw (e, propose_to)
              (if_both (Fate job s) writes
                (m.0 ∙ h, omega (arith, after, one_more, unit-le S O id tasks job))
                (h, omega arith))
      ]

  try_propose_job-Fate :
      (now : Time) (writes : Bool) (job : Job) (keys : List String) (s : Server S O)
      → s.store.task_defs ≡ tasks
      → Fate job s (try_propose_job S O c choose sign now writes job keys s)
  unfolding try_propose_job
  try_propose_job-Fate now writes job keys s h =
      elim (Option-cases (get_task job.task_name s.store)) [
        | inl e ↦ rw (e, try_propose_job) (h, omega (arith, unit-unknown S O id tasks job s h e))
        | inr (task, e) ↦
            rw (e, try_propose_job)
              (if_both (Fate job s) _ (h, omega arith)
                (propose_to-Fate now writes task job _
                  (record s { pool = (eligible_workers S keys now job.cost job.id s.pool).1 }) h))
      ]

  abbrev pub Settled : Job → Server S O → Verdict × Server S O → Type 0
  Settled job s x = Proposed S O id tasks (one job) (kept (one job) x.0) s x.1

  verdict_of-Settled :
      (now : Time) (job : Job) (s t : Server S O) (e : Option DispatchError)
      → Fate job s (e, t)
      → Settled job s (verdict_of S O c choose sign now job (e, t))
  verdict_of-Settled now job s t none k = k
  verdict_of-Settled now job s t (some unknown_task) k =
      let f = fail_job_direct-sent S O id tasks now job _ t in
      let same = ap (proposals id) f.1 in (f.0 ∙ k.0, omega (arith, same, k.1))
  verdict_of-Settled now job s t (some no_artifact_platform) k = k
  verdict_of-Settled now job s t (some no_eligible_workers) k = k
  verdict_of-Settled now job s t (some not_resolved) k = k
  verdict_of-Settled now job s t (some not_sent) k = k
  verdict_of-Settled now job s t (some unknown_job) k = k
  verdict_of-Settled now job s t (some not_assigned) k = k

  -- Only a job of an unknown task fails.
  abbrev Blames : Job → Option JobDeferral → Type 0
  Blames job none = Unit {0}
  Blames job (some f) = (f.fail ≡ false) ⊎ (one job ≡ 0)

  platform_deferral-Blames :
      (job : Job) (keys online : List String)
      → Blames job (platform_deferral S O c choose sign keys online).1
  platform_deferral-Blames job [] online = inl refl
  platform_deferral-Blames job (k ∷ keys) online =
      if_both (Blames job) (any_online (k ∷ keys) online) tt (inl refl)

  platform_keys-Blames :
      (job : Job) (online : List String) (s : Server S O)
      → s.store.task_defs ≡ tasks
      → Blames job (job_platform_keys_for_dispatch S O c choose sign job online s).1
  unfolding job_platform_keys_for_dispatch
  platform_keys-Blames job online s h = elim (Option-cases (get_task job.task_name s.store)) [
    | inl e ↦ rw (e, job_platform_keys_for_dispatch) (inr (unit-unknown S O id tasks job s h e))
    | inr (task, e) ↦ elim (Option-cases c.artifacts_registry) [
      | inl f ↦ rw (e, job_platform_keys_for_dispatch, f) tt
      | inr (registry, f) ↦
          elim (Option-cases (registry.list_platforms job.task_name job.artifact_version)) [
            | inl g ↦ rw (e, job_platform_keys_for_dispatch, f, g) (inl refl)
            | inr (platforms, g) ↦
                rw (e, job_platform_keys_for_dispatch, f, g) (platform_deferral-Blames job _ online)
          ]
    ]
  ]

  pub dispatch_job-Settled :
      (now : Time) (writes : Bool) (online : List String) (job : Job) (s : Server S O)
      → s.store.task_defs ≡ tasks
      → Settled job s (dispatch_job S O c choose sign now writes online job s)
  unfolding dispatch_job
  dispatch_job-Settled now writes online job s h =
      let (keys, d) = job_platform_keys_for_dispatch S O c choose sign job online s in
      elim (Option-cases d) [
        | inl e ↦
            rw (e, dispatch_job)
              (verdict_of-Settled now job s
                (try_propose_job S O c choose sign now writes job keys s).1 _
                (try_propose_job-Fate now writes job keys s h))
        | inr (f, e) ↦
            let blame = subst (Blames job) e (platform_keys-Blames job online s h) in
            let t = fail_job_direct-sent S O id tasks now job f.reason s in
            let same = ap (proposals id) t.1 in
            elim (Bool-cases f.fail) [
              | inl y ↦ elim blame [
                | inl n ↦ absurd (cc)
                | inr z ↦ rw (e, dispatch_job, y) (t.0 ∙ h, omega (arith, z, same))
              ]
              | inr n ↦ rw (e, dispatch_job, n) (h, omega arith)
            ]
      ]
