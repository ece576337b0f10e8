-- ===== src/Manager/Handlers/Subjobs.antt =====
-- manager/worker_conn_handler.go, `handleSubjobsEmitted`.
use Prim.Native.String.{◌++◌ as join}
use workforce.Prelude.{
  ℕ, suc, ◌+◌, String, Bool, true, false, Option, none, some, List, [], ◌∷◌, ◌++◌, if◌then◌else◌,
  ◌==◌, string_eq, nat_eq,
}
use workforce.Prelude.Int.{pos}
use workforce.Contract.Job.{Job, JobPhase, pending, awaiting_children, Time, is_terminal, status_eq}
use workforce.Contract.Task.{Task}
use workforce.Store.{update_job, get_job, get_task, save_job}
use workforce.Webhooks.{failed_data, entry_of}
use workforce.Manager.Artifact.{ArtifactRegistry, ArtifactPlatform}
use workforce.Manager.Config.{Config}
use workforce.Manager.Messages.{ChildJobRequest}
use workforce.Manager.Server.{Outside, Server, fire, with_status, failed_for, enqueue_jobs}
use workforce.Manager.WorkerConn.{SimpleSet}

-- The version that a child is pinned to; or why there is none, and whether `ListPlatforms` gave an
-- error, which an empty list is not.
pub data ChildVersion : Type 0 where
  pinned : String → ChildVersion
  unresolved : String → Bool → ChildVersion

abbrev pub first_version : List ArtifactPlatform → String → ChildVersion
first_version [] reason = unresolved reason false
first_version (p ∷ ps) reason = pinned p.version

abbrev not_found : ChildJobRequest → String
not_found req = join "child artifact " (join req.task (join "@" (join req.version " not found")))

pub child_version : Option ArtifactRegistry → Task → ChildJobRequest → ChildVersion
child_version none task req = pinned ""
child_version (some registry) task req =
    let asked : ChildVersion = elim (registry.list_platforms task.name req.version) [
      | none ↦ unresolved (not_found req) true
      | some [] ↦ unresolved (not_found req) false
      | some (p ∷ ps) ↦ pinned req.version
    ] in
    let latest : ChildVersion = elim (registry.list_platforms task.name "") [
      | none ↦ unresolved (join "no released artifact for " task.name) true
      | some platforms ↦ first_version platforms (join "no released artifact for " task.name)
    ] in
    if req.version == "" then latest else asked

-- What the loop over the requests comes to: the children, or an end before the last, with whether
-- there is an error to report.
pub data Created : Type 0 where
  all_created : List Job → Created
  aborted : Bool → Created

module _ (S : SimpleSet) (O : Outside) (c : Config) where
  -- `FireJobFailed` while the mutex of the store is free or is held by the caller; `none` is a wait for
  -- it that has no end, which `EnqueueWebhook` comes to if there is something to enqueue.
  unfoldable pub fire_failed : Bool → Time → Job → String → Server S O → Option (Server S O)
  fire_failed is_held now job reason s =
      let fired = fire S O now job (failed_data reason) s in
      elim (entry_of O.marshal now (O.ulid s.ulids) job (failed_data reason)) [
        | none ↦ some fired
        | some entry ↦ if is_held then none else some fired
      ]

  -- The `UpdateJob` of a failure, whose function fires the webhook before the store is released.
  -- `has_error` is the error that led here.
  unfoldable pub fail_emitter :
      Time → String → String → Bool → Server S O → Option (Created × Server S O)
  fail_emitter now reason id has_error s = elim (get_job id s.store) [
    | none ↦ some (aborted true, s)
    | some job ↦
        let m = (update_job id (failed_for reason now) s.store).1 in
        elim (fire_failed true now (failed_for reason now job) reason (record s { store = m })) [
          | none ↦ none
          | some s' ↦ some (aborted has_error, s')
        ]
  ]

  abbrev pub new_child : Time → ℕ → String → Job → Task → String → ChildJobRequest → Job
  new_child now i id parent task version req = record {
    id = id;
    parent_job_id = parent.id;
    task_name = task.name;
    artifact_version = version;
    status = pending;
    phase = JobPhase.run;
    priority = req.priority;
    cost = task.cost;
    attempts = pos 0;
    payload = req.payload;
    result = [];
    failure_reason = "";
    webhook_url = "";
    webhook_events = [];
    webhook_headers = [];
    created_at = now + i;
    updated_at = now;
    completed_at = none;
    duration = none;
  }

  -- The loop, from the request `i` on; `children` are those before.
  unfoldable pub create_children :
      Time → Job → ℕ → List Job → List ChildJobRequest → Server S O → Option (Created × Server S O)
  create_children now parent i children [] s = some (all_created children, s)
  create_children now parent i children (req ∷ reqs) s = elim (get_task req.task s.store) [
    | none ↦ fail_emitter now (join "child job targets unknown task: " req.task) parent.id true s
    | some task ↦ elim (child_version c.artifacts_registry task req) [
      | unresolved reason has_error ↦ fail_emitter now reason parent.id has_error s
      | pinned version ↦
          let child = new_child now i (O.ulid s.ulids) parent task version req in
          create_children now parent (suc i) (children ++ child ∷ []) reqs
            (record s { store = save_job child s.store; ulids = suc s.ulids })
    ]
  ]

  -- Whether there is an error to report, and the state.
  unfoldable pub handle_subjobs_emitted :
      Time → Job → List ChildJobRequest → Server S O → Option (Bool × Server S O)
  handle_subjobs_emitted now parent reqs s =
      let made = create_children now parent 0 [] reqs s in
      let result : Option (Bool × Server S O) = elim made [
        | none ↦ none
        | some (aborted has_error, s') ↦ some (has_error, s')
        | some (all_created children, s') ↦
            let (known, m) = update_job parent.id (with_status awaiting_children now) s'.store in
            let s'' = record s' { store = m } in
            some (false, if known then enqueue_jobs S O children s'' else s'')
      ] in
      if is_terminal parent.status then some (false, s) else result
