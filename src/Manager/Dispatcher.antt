-- ===== src/Manager/Dispatcher.antt =====
-- manager/dispatcher.go. The caches of a pass are left out: they hold what the same question to a
-- store that the pass does not change gives again. `choose` is `Select` of the configured selector,
-- and `sign` the signer of lowbit.dev/urlsign, if there is one.
pub mod Passes
pub mod Sent
pub mod Conserved
mod Tests
use Prim.Native.String.{◌++◌ as join}
use workforce.Prelude.{
  ℕ, zero, suc, ◌+◌, String, Bool, true, false, not, ◌&&◌, ◌||◌, Option, none, some, List, [], ◌∷◌,
  ◌++◌, map, length, leb, ltb, if◌then◌else◌, ◌==◌, string_eq, is_some, nat_eq,
}
use workforce.Prelude.Int.{ℤ, pos, ◌+ℤ◌, ◌-ℤ◌, wrap64, ltb_ℤ}
use workforce.Prelude.Dict.{lookup}
use workforce.Contract.Job.{Job, JobStatus, proposing, Time}
use workforce.Contract.Task.{Task}
use workforce.Store.{get_task, get_job, update_job}
use workforce.Webhooks.{proposing_data}
use workforce.Manager.Artifact.{ArtifactRegistry, ArtifactPlatform}
use workforce.Manager.Config.{Config}
use workforce.Manager.Lifecycle.{fail_job_direct}
use workforce.Manager.Messages.{Frame, propose_frame}
use workforce.Manager.Queue.{
  Item, PriorityQueue, pop_item, reheapify, job_outranks, queue_values, queue_size,
}
use workforce.Manager.Server.{Outside, Server, fire, push_jobs}
use workforce.Manager.WorkerConn.{SimpleSet, WorkerConn}
use workforce.Manager.WorkerPool.{
  Ref, WorkerPool, platform_key, eligible_workers, subtract_capacity, online_platform_keys,
}

pub data DispatchError : Type 0 where
  unknown_task no_artifact_platform no_eligible_workers not_resolved not_sent unknown_job :
      DispatchError
  not_assigned : DispatchError

pub record JobDeferral : Type 0 where
  pub reason : String
  pub shortage : Bool
  pub fail : Bool

-- What becomes of a job in a pass; a deferral says whether workers are short.
pub data Verdict : Type 0 where
  dispatched failed : Verdict
  deferred : Bool → Verdict

-- The highest priority, and 0 if none is above.
pub max_priority : ℤ → List Job → ℤ
max_priority m [] = m
max_priority m (j ∷ jobs) = max_priority (if ltb_ℤ m j.priority then j.priority else m) jobs

abbrev pub is_starved : Time → ℤ → ℤ → Job → Bool
is_starved now timeout m j = ltb_ℤ timeout (pos now -ℤ pos j.created_at) && not (ltb_ℤ m j.priority)

-- The second loop, which writes through the pointers of the queue.
pub boost : Time → ℤ → ℤ → List (Item Job) → List (Item Job)
boost now timeout m [] = []
boost now timeout m (it ∷ items) =
    let rest = boost now timeout m items in
    let raised = record it.value { priority = wrap64 (m +ℤ pos 1) } in
    if is_starved now timeout m it.value then record it { value = raised } ∷ rest else it ∷ rest

pub any_starved : Time → ℤ → ℤ → List Job → Bool
any_starved now timeout m [] = false
any_starved now timeout m (j ∷ jobs) = is_starved now timeout m j || any_starved now timeout m jobs

pub apply_starvation_aging : Time → ℤ → PriorityQueue Job → PriorityQueue Job
apply_starvation_aging now timeout q =
    let m = max_priority (pos 0) (queue_values q) in
    let aged = reheapify job_outranks (record q { items = boost now timeout m q.items }) in
    if ltb_ℤ (pos 0) timeout && any_starved now timeout m (queue_values q) then aged else q

abbrev pub keys_of : List ArtifactPlatform → List String
keys_of platforms = map (λ p. platform_key p.os p.arch) platforms

abbrev pub any_online : List String → List String → Bool
any_online [] online = false
any_online (k ∷ keys) online = contains k online || any_online keys online
  where
    contains : String → List String → Bool
    contains k [] = false
    contains k (j ∷ js) = j == k || contains k js

pub record Pass : Type 0 where
  pub deferred_jobs : List Job
  pub dispatched_count : ℕ
  pub failed_count : ℕ
  pub shortage : Bool

abbrev pub noted : Verdict → Job → Pass → Pass
noted dispatched job p = record p { dispatched_count = suc p.dispatched_count }
noted failed job p = record p { failed_count = suc p.failed_count }
noted (deferred short) job p = record p {
  deferred_jobs = p.deferred_jobs ++ job ∷ [];
  shortage = p.shortage || short;
}

abbrev pub empty_pass : Pass
empty_pass = record { deferred_jobs = []; dispatched_count = 0; failed_count = 0; shortage = false }

module _ (S : SimpleSet) (O : Outside) (c : Config)
    (choose : Ref × WorkerConn S → List (Ref × WorkerConn S) → Ref × WorkerConn S)
    (sign : Option (String → Option String)) where
  -- `fuel` is the length of the queue: each call pops one.
  pub pop_next_job : ℕ → Server S O → Option Job × Server S O
  pop_next_job zero s = (none, s)
  pop_next_job (suc fuel) s =
      let (o, q) = pop_item job_outranks s.queue in
      elim o [
        | none ↦ (none, s)
        | some job ↦
            let rest =
              pop_next_job fuel
                (record s { queue = q; cancelled_job_ids = S.remove job.id s.cancelled_job_ids }) in
            if S.has job.id s.cancelled_job_ids then rest else (some job, record s { queue = q })
      ]

  abbrev pub platform_deferral : List String → List String → List String × Option JobDeferral
  platform_deferral [] online = (
    [],
    some (record { reason = "no artifact platform available"; shortage = false; fail = false }),
  )
  platform_deferral (k ∷ keys) online =
      let short : JobDeferral = record {
        reason = "no online workers for artifact platforms";
        shortage = true;
        fail = false;
      } in
      (k ∷ keys, if any_online (k ∷ keys) online then none else some short)

  -- The keys of the platforms, and why the job cannot be dispatched, if it cannot. The text of an
  -- error of the registry is left out of the reason.
  pub job_platform_keys_for_dispatch :
      Job → List String → Server S O → List String × Option JobDeferral
  job_platform_keys_for_dispatch job online s = elim (get_task job.task_name s.store) [
    | none ↦ (
      [],
      some (record { reason = join "unknown task: " job.task_name; shortage = false; fail = true }),
    )
    | some task ↦ elim c.artifacts_registry [
      | none ↦ ([], none)
      | some registry ↦ elim (registry.list_platforms job.task_name job.artifact_version) [
        | none ↦ ([], some (record { reason = "list platforms: "; shortage = false; fail = false }))
        | some platforms ↦ platform_deferral (keys_of platforms) online
      ]
    ]
  ]

  abbrev pub at_refs : List Ref → WorkerPool S → List (Ref × WorkerConn S)
  at_refs [] p = []
  at_refs (r ∷ rs) p = elim (lookup r p.conns) [
    | none ↦ at_refs rs p
    | some w ↦ (r, w) ∷ at_refs rs p
  ]

  abbrev pub signed_url : String → String
  signed_url url = elim sign [
    | none ↦ url
    | some f ↦ if url == "" then url else elim (f url) [ none ↦ url | some u ↦ u ]
  ]

  -- The frame of the proposal, or none if the artifact cannot be resolved.
  pub proposal_for : Job → Task → WorkerConn S → Option Frame
  proposal_for job task w = elim c.artifacts_registry [
    | none ↦ some (propose_frame job.id job.task_name job.cost "" "" [] task.no_result)
    | some registry ↦
        let build : Option ArtifactPlatform =
          if job.artifact_version == ""
          then registry.resolve task.name w.os w.arch
          else registry.resolve_version task.name job.artifact_version w.os w.arch in
        elim build [
          | none ↦ none
          | some p ↦ some (
              propose_frame job.id job.task_name job.cost p.hash (signed_url p.url) p.dependencies
                task.no_result)
        ]
  ]

  -- The part of `tryProposeJob` after the frame is written.
  pub mark_proposed : Time → Ref → Job → Server S O → Option DispatchError × Server S O
  mark_proposed now r job s =
      let (known, m) = update_job job.id (λ j. record j { status = proposing }) s.store in
      let s1 = record s { store = m } in
      let (error, pool) = subtract_capacity S now r job.id job.cost s1.pool in
      let s2 = record s1 { pool = pool } in
      let id : String = elim (lookup r s2.pool.conns) [ none ↦ "" | some w ↦ w.worker_id ] in
      if not known
      then (some unknown_job, s1)
      else if is_some error
      then (some not_assigned, s2)
      else (none, fire S O now job (proposing_data job.task_name job.cost id) s2)

  pub send_proposal :
      Time → Bool → Ref → Frame → Job → Server S O → Option DispatchError × Server S O
  send_proposal now writes r frame job s =
      let next = mark_proposed now r job (record s { sent = s.sent ++ (r, frame) ∷ [] }) in
      if writes then next else (some not_sent, s)

  pub propose_to :
      Time
      → Bool
      → Task
      → Job
      → List (Ref × WorkerConn S)
      → Server S O
      → Option DispatchError × Server S O
  propose_to now writes task job [] s = (some no_eligible_workers, s)
  propose_to now writes task job (w ∷ ws) s =
      let (r, selected) = choose w ws in
      elim (proposal_for job task selected) [
        | none ↦ (some not_resolved, s)
        | some frame ↦ send_proposal now writes r frame job s
      ]

  pub try_propose_job :
      Time → Bool → Job → List String → Server S O → Option DispatchError × Server S O
  try_propose_job now writes job keys s = elim (get_task job.task_name s.store) [
    | none ↦ (some unknown_task, s)
    | some task ↦
        let (refs, pool) = eligible_workers S keys now job.cost job.id s.pool in
        let next = propose_to now writes task job (at_refs refs pool) (record s { pool = pool }) in
        if is_some c.artifacts_registry && not (leb 1 (length keys))
        then (some no_artifact_platform, s)
        else next
  ]

  abbrev pub verdict_of : Time → Job → Option DispatchError × Server S O → Verdict × Server S O
  verdict_of now job (none, s) = (dispatched, s)
  verdict_of now job (some unknown_task, s) =
      (failed, fail_job_direct S O now job (join "unknown task: " job.task_name) s)
  verdict_of now job (some no_eligible_workers, s) = (deferred true, s)
  verdict_of now job (some no_artifact_platform, s) = (deferred false, s)
  verdict_of now job (some not_resolved, s) = (deferred false, s)
  verdict_of now job (some not_sent, s) = (deferred false, s)
  verdict_of now job (some unknown_job, s) = (deferred false, s)
  verdict_of now job (some not_assigned, s) = (deferred false, s)

  -- The body of the loop of `ProcessQueue`.
  pub dispatch_job : Time → Bool → List String → Job → Server S O → Verdict × Server S O
  dispatch_job now writes online job s =
      let (keys, d) = job_platform_keys_for_dispatch job online s in
      elim d [
        | none ↦ verdict_of now job (try_propose_job now writes job keys s)
        | some deferral ↦
            if deferral.fail
            then (failed, fail_job_direct S O now job deferral.reason s)
            else (deferred deferral.shortage, s)
      ]

  pub run_pass : ℕ → Time → Bool → List String → Pass → Server S O → Pass × Server S O
  run_pass zero now writes online p s = (p, s)
  run_pass (suc fuel) now writes online p s =
      let (o, s1) = pop_next_job (queue_size s.queue) s in
      elim o [
        | none ↦ (p, s1)
        | some job ↦
            let (v, s2) = dispatch_job now writes online job s1 in
            run_pass fuel now writes online (noted v job p) s2
      ]

  -- Whether the pass found workers short, for `checkResourceShortage`, is part of the result.
  pub process_queue : Time → Bool → Server S O → Pass × Server S O
  process_queue now writes s =
      let s1 = record s { queue = apply_starvation_aging now c.starvation_timeout s.queue } in
      let online = online_platform_keys S s1.pool in
      let (p, s2) = run_pass (queue_size s1.queue) now writes online empty_pass s1 in
      if queue_size s.queue == 0
      then (empty_pass, s)
      else (p, record s2 { queue = push_jobs S O p.deferred_jobs s2.queue })
