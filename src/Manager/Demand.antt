-- ===== src/Manager/Demand.antt =====
-- manager/dispatcher.go, `checkResourceShortage` with the events of manager/resource_management.go, and
-- manager/manager.go, `HasPendingForPlatform`. A check reads the clock once.
pub mod Cooldown
mod Tests
use workforce.Prelude.{
  ℕ, suc, ◌+◌, String, Bool, true, false, not, ◌&&◌, ◌||◌, Option, none, some, List, [], ◌∷◌, map,
  length, leb, ltb, if◌then◌else◌, ◌==◌, string_eq,
}
use workforce.Prelude.Int.{ℤ, pos, ◌+ℤ◌, ◌-ℤ◌, wrap64, ltb_ℤ, eqb_ℤ}
use workforce.Prelude.Dict.{Dict, lookup, insert}
use workforce.Contract.Job.{Job, Time}
use workforce.Manager.Artifact.{ArtifactRegistry, ArtifactPlatform}
use workforce.Manager.Config.{Config}
use workforce.Manager.Queue.{queue_values}
use workforce.Manager.Server.{Outside, Server}
use workforce.Manager.Dispatcher.{process_queue}
use workforce.Manager.WorkerConn.{SimpleSet, WorkerConn}
use workforce.Manager.WorkerPool.{
  Ref, WorkerPool, platform_key, eligible_workers, total_capacity, size,
}

pub record TaskDemand : Type 0 where
  pub cost : ℤ
  pub count : ℕ
  pub min_cost : ℤ

pub record PlatformDemand : Type 0 where
  pub os : String
  pub arch : String
  pub pending_cost : ℤ
  pub pending_count : ℕ

pub record ResourceShortageEvent : Type 0 where
  pub pending_cost : ℤ
  pub cluster_capacity : ℤ
  pub pending_count : ℕ
  pub connected_workers : ℕ
  pub unsatisfied_platforms : List PlatformDemand

abbrev raised : Job → TaskDemand → TaskDemand
raised job d = record {
  cost = wrap64 (d.cost +ℤ job.cost);
  count = suc d.count;
  min_cost = if ltb_ℤ job.cost d.min_cost then job.cost else d.min_cost;
}

abbrev raised_at : Job → Option TaskDemand → TaskDemand
raised_at job none = raised job (record { cost = pos 0; count = 0; min_cost = job.cost })
raised_at job (some d) = raised job d

-- The loop over the queue.
pub demand_by_task : List Job → Dict String TaskDemand → Dict String TaskDemand
demand_by_task [] d = d
demand_by_task (job ∷ jobs) d =
    demand_by_task jobs (insert job.task_name (raised_at job (lookup job.task_name d)) d)

pub pending_cost : List Job → ℤ → ℤ
pending_cost [] total = total
pending_cost (job ∷ jobs) total = pending_cost jobs (wrap64 (total +ℤ job.cost))

abbrev key_of_platform : ArtifactPlatform → String
key_of_platform p = platform_key p.os p.arch

pub platforms_by_key :
    List ArtifactPlatform → Dict String ArtifactPlatform → Dict String ArtifactPlatform
platforms_by_key [] d = d
platforms_by_key (p ∷ ps) d = platforms_by_key ps (insert (key_of_platform p) p d)

abbrev more_demand : TaskDemand → PlatformDemand → PlatformDemand
more_demand t d = record d {
  pending_cost = wrap64 (d.pending_cost +ℤ t.cost);
  pending_count = d.pending_count + t.count;
}

abbrev demand_at : ArtifactPlatform → Option PlatformDemand → PlatformDemand
demand_at p none = record { os = p.os; arch = p.arch; pending_cost = pos 0; pending_count = 0 }
demand_at p (some d) = d

pub add_platforms :
    TaskDemand
    → Dict String ArtifactPlatform
    → Dict String PlatformDemand
    → Dict String PlatformDemand
add_platforms t [] d = d
add_platforms t ((key, p) ∷ ps) d =
    add_platforms t ps (insert key (more_demand t (demand_at p (lookup key d))) d)

-- The platforms of a task; none for an error and without a registry.
abbrev listed_platforms : Option ArtifactRegistry → String → List ArtifactPlatform
listed_platforms none task = []
listed_platforms (some registry) task = elim (registry.list_platforms task "") [
  | none ↦ []
  | some platforms ↦ platforms
]

module _ (S : SimpleSet) (O : Outside) (c : Config) where
  -- The loop over the tasks; the scan for workers clears what their caches let expire.
  pub unsatisfied :
      Time
      → Dict String TaskDemand
      → Dict String PlatformDemand
      → WorkerPool S
      → Dict String PlatformDemand × WorkerPool S
  unsatisfied now [] d p = (d, p)
  unsatisfied now ((task, t) ∷ tasks) d p =
      let platforms = listed_platforms c.artifacts_registry task in
      let (workers, p') = eligible_workers S (map key_of_platform platforms) now t.min_cost "" p in
      let d' =
        if leb 1 (length workers) then d else add_platforms t (platforms_by_key platforms []) d in
      unsatisfied now tasks d' p'

  abbrev demands : Dict String PlatformDemand → List PlatformDemand
  demands d = map (λ e. e.1) d

  abbrev pub cools_down : Time → Time → Bool
  cools_down now last = leb 1 last && ltb_ℤ (pos now -ℤ pos last) c.scale_up_cooldown

  -- The demand that no worker can serve, and the pool after the scans.
  abbrev pub shortage : Time → Server S O → Dict String PlatformDemand × WorkerPool S
  shortage now s = unsatisfied now (demand_by_task (queue_values s.queue) []) [] s.pool

  abbrev pub event_of : Time → Server S O → ResourceShortageEvent
  event_of now s = record {
    pending_cost = pending_cost (queue_values s.queue) (pos 0);
    cluster_capacity = total_capacity S s.pool;
    pending_count = length (queue_values s.queue);
    connected_workers = size S (shortage now s).1;
    unsatisfied_platforms = demands (shortage now s).0;
  }

  -- The event, the time of the last one, and the server.
  unfoldable pub check_resource_shortage :
      Time → Time → Server S O → Option ResourceShortageEvent × (Time × Server S O)
  check_resource_shortage now last s =
      let e = event_of now s in
      if not c.has_resource_shortage || cools_down now last
      then (none, (last, s))
      else if not (ltb_ℤ e.cluster_capacity e.pending_cost)
      then (none, (last, s))
      else (some e, (now, record s { pool = (shortage now s).1 }))

  -- The end of `ProcessQueue`: a pass that lacked workers is followed by a check.
  pub process_and_check :
      (Ref × WorkerConn S → List (Ref × WorkerConn S) → Ref × WorkerConn S)
      → Option (String → Option String)
      → Time
      → Bool
      → Time
      → Server S O
      → Option ResourceShortageEvent × (Time × Server S O)
  process_and_check choose sign now writes last s =
      let (p, s') = process_queue S O c choose sign now writes s in
      let checked = check_resource_shortage now last s' in
      if p.shortage then checked else (none, (last, s'))

  -- `HasPendingForPlatform`
  pub builds_for : String → List ArtifactPlatform → Bool
  builds_for target [] = false
  builds_for target (p ∷ ps) = key_of_platform p == target || builds_for target ps

  pub any_builds_for : ArtifactRegistry → String → List Job → Bool
  any_builds_for registry target [] = false
  any_builds_for registry target (job ∷ jobs) =
      builds_for target (listed_platforms (some registry) job.task_name)
      || any_builds_for registry target jobs

  pub has_pending_for_platform : String → String → Server S O → Bool
  has_pending_for_platform os arch s = elim c.artifacts_registry [
    | none ↦ leb 1 (length (queue_values s.queue))
    | some registry ↦ any_builds_for registry (platform_key os arch) (queue_values s.queue)
  ]
