-- ===== src/Manager/WorkerPool.antt =====
-- The workers that are connected (manager/worker_pool.go) and the selectors
-- (manager/worker_selector.go). A `*WorkerConn` is a number, and `conns` holds what it points to,
-- so that a connection that was replaced is still there for those who point to it.
pub mod Index
pub mod Eligible
pub mod Registration
pub mod Selection
mod Tests
use Prim.Native.String.{◌++◌ as join}
use workforce.Prelude.{
  ℕ, suc, ◌+◌, ◌%◌, ◌^◌, String, Bool, true, false, not, ◌||◌, ◌&&◌, Option, none, some, List, [],
  ◌∷◌, ◌++◌, map, length, leb, ltb, get_or, is_some, if◌then◌else◌, ◌==◌, nat_eq, string_eq,
}
use workforce.Prelude.Int.{ℤ, pos, ◌+ℤ◌, ltb_ℤ, eqb_ℤ, wrap64}
use workforce.Prelude.Dict.{Dict, lookup, insert, delete}
use workforce.Contract.Job.{Time}
use workforce.Contract.Worker.{online}
use workforce.Locksmith.{get}
use workforce.Manager.WorkerConn.{
  SimpleSet, WorkerConn, AssignError, new_worker_conn, is_in_state, available_capacity, assign_task,
  complete_task, update_heartbeat, update_last_idle_time, override_capacity, heartbeat_timed_out,
  is_in_flight,
}

-- Where a pointer leads, and a pointer.
abbrev pub Ref : Type 0
Ref = ℕ

pub platform_key : String → String → String
platform_key os arch = join os (join "/" arch)

-- `append(list[:i], list[i+1:]...)` at the first `i` that holds the pointer.
pub remove_first : Ref → List Ref → List Ref
remove_first r [] = []
remove_first r (q ∷ qs) = let rest = remove_first r qs in if q == r then qs else q ∷ rest

-- `NewWorkerConnection`'s errors
pub data ConnError : Type 0 where
  missing_worker_os missing_worker_arch capacity_zero : ConnError

module _ (S : SimpleSet) where
  -- `requeued` has the arguments of the calls of `onJobsRequeued`, and `notified` counts the calls
  -- of `notifyDispatcher`.
  pub record WorkerPool : Type 0 where
    pub conns : Dict Ref (WorkerConn S)
    pub workers : Dict String Ref
    pub platform : Dict String (List Ref)
    pub requeued : List (List String)
    pub notified : ℕ
    pub next_ref : Ref

  abbrev pub listed : String → WorkerPool → List Ref
  listed key p = elim (lookup key p.platform) [ none ↦ [] | some refs ↦ refs ]

  abbrev pub key_of : WorkerConn S → String
  key_of w = platform_key w.os w.arch

  -- A write through a pointer.
  pub write : Ref → (WorkerConn S → WorkerConn S) → WorkerPool → WorkerPool
  write r f p = elim (lookup r p.conns) [
    | none ↦ p
    | some w ↦ record p { conns = insert r (f w) p.conns }
  ]

  pub remove_conn_locked : Ref → WorkerConn S → WorkerPool → WorkerPool
  remove_conn_locked r w p = record p {
    workers = delete w.worker_id p.workers;
    platform = insert (key_of w) (remove_first r (listed (key_of w) p)) p.platform;
  }

  -- `len(ids) > 0`; the callback is set.
  pub requeue : List String → WorkerPool → WorkerPool
  requeue ids p = if leb 1 (length ids) then record p { requeued = p.requeued ++ ids ∷ [] } else p

  abbrev pub close : WorkerConn S → WorkerConn S
  close w = record w { is_closed = true }

  -- The replacement of the connection `old` at `q`, in `register`.
  pub replace : Ref → WorkerConn S → WorkerPool → WorkerPool
  replace q old p = requeue (S.snapshot old.in_flight) (write q close (remove_conn_locked q old p))

  -- The part of `register` that adds `w`, which `r` points to.
  pub enter : Ref → WorkerConn S → WorkerPool → WorkerPool
  enter r w p = record p {
    workers = insert w.worker_id r p.workers;
    platform = insert (key_of w) (listed (key_of w) p ++ r ∷ []) p.platform;
  }

  abbrev pub find_conn : String → WorkerPool → Option (Ref × WorkerConn S)
  find_conn id p = elim (lookup id p.workers) [
    | none ↦ none
    | some q ↦ elim (lookup q p.conns) [ none ↦ none | some w ↦ some (q, w) ]
  ]

  pub register : Ref → WorkerConn S → WorkerPool → WorkerPool
  register r w p = elim (find_conn w.worker_id p) [
    | none ↦ enter r w p
    | some (q, old) ↦ enter r w (replace q old p)
  ]

  pub unregister : Ref → WorkerPool → WorkerPool
  unregister r p = elim (lookup r p.conns) [
    | none ↦ p
    | some w ↦ requeue (S.snapshot w.in_flight) (remove_conn_locked r w p)
  ]

  -- `generated` is the identifier for a worker that gives none.
  pub new_worker_connection :
      Time
      → String
      → String
      → String
      → String
      → ℤ
      → WorkerPool
      → (Option ConnError × Ref) × WorkerPool
  new_worker_connection now generated id os arch capacity p =
      let name = if id == "" then generated else id in
      let w = new_worker_conn S now name os arch capacity in
      let p' = record p { conns = insert p.next_ref w p.conns; next_ref = suc p.next_ref } in
      if os == ""
      then ((some missing_worker_os, 0), p)
      else if arch == ""
      then ((some missing_worker_arch, 0), p)
      else if ltb_ℤ capacity (pos 1)
      then ((some capacity_zero, 0), p)
      else ((none, p.next_ref), register p.next_ref w p')

  pub get_worker : String → WorkerPool → Option Ref
  get_worker id p = lookup id p.workers

  -- The checks of `eligibleWorkers` on one worker, which `w` is, and what they leave of it: the
  -- lookup in the cache of rejections moves the entry. `now` is the clock of the whole scan.
  pub check_worker : Time → ℤ → String → WorkerConn S → Bool × WorkerConn S
  check_worker now cost job_id w =
      let (rejected, cache) = get now job_id w.rejected_jobs_cache in
      let fits = eqb_ℤ cost (pos 0) || not (ltb_ℤ (available_capacity S w) cost) in
      if not (is_in_state S online w)
      then (false, w)
      else if job_id == ""
      then (fits, w)
      else (not (is_some rejected) && fits, record w { rejected_jobs_cache = cache })

  pub scan : Time → ℤ → String → List Ref → WorkerPool → List Ref × WorkerPool
  scan now cost job_id [] p = ([], p)
  scan now cost job_id (r ∷ rs) p = elim (lookup r p.conns) [
    | none ↦ scan now cost job_id rs p
    | some w ↦
        let (takes, w') = check_worker now cost job_id w in
        let (out, p') = scan now cost job_id rs (record p { conns = insert r w' p.conns }) in
        (if takes then r ∷ out else out, p')
  ]

  abbrev pub all_workers : WorkerPool → List Ref
  all_workers p = map (λ b. b.1) p.workers

  abbrev pub listed_all : List String → WorkerPool → List Ref
  listed_all [] p = []
  listed_all (key ∷ keys) p = listed key p ++ listed_all keys p

  abbrev pub candidates : List String → WorkerPool → List Ref
  candidates [] p = all_workers p
  candidates (key ∷ keys) p = listed_all (key ∷ keys) p

  pub eligible_workers : List String → Time → ℤ → String → WorkerPool → List Ref × WorkerPool
  eligible_workers platforms now cost job_id p =
      if ltb_ℤ cost (pos 0) then ([], p) else scan now cost job_id (candidates platforms p) p

  abbrev pub notify_dispatcher : WorkerPool → WorkerPool
  notify_dispatcher p = record p { notified = p.notified + 1 }

  -- The functions that `lanes.Do` of lowbit.dev/seriallane runs, one after the other for a worker.
  pub subtract_capacity : Time → Ref → String → ℤ → WorkerPool → Option AssignError × WorkerPool
  subtract_capacity now r task_id cost p = elim (lookup r p.conns) [
    | none ↦ (none, p)
    | some w ↦
        let (error, w') = assign_task S task_id cost w in
        let w'' = if is_some error then w' else update_heartbeat S now w' in
        (error, record p { conns = insert r w'' p.conns })
  ]

  pub restore_capacity : Time → Ref → String → ℤ → WorkerPool → WorkerPool
  restore_capacity now r task_id cost p =
      notify_dispatcher
        (write r (λ w. update_last_idle_time S now (complete_task S now task_id cost w)) p)

  -- Whether the worker is known, and the pool.
  pub override_capacity_of : Time → String → ℤ → WorkerPool → Bool × WorkerPool
  override_capacity_of now id capacity p = elim (lookup id p.workers) [
    | none ↦ (false, p)
    | some r ↦ (
      true,
      notify_dispatcher
          (write r (λ w. override_capacity S capacity (update_last_idle_time S now w)) p),
    )
  ]

  abbrev pub holds_job : String → WorkerPool → Ref → Bool
  holds_job job_id p r = elim (lookup r p.conns) [ none ↦ false | some w ↦ is_in_flight S job_id w ]

  pub first_with : (Ref → Bool) → List Ref → Option Ref
  first_with f [] = none
  first_with f (r ∷ rs) = let rest = first_with f rs in if f r then some r else rest

  pub find_worker_by_in_flight_job_id : String → WorkerPool → Option Ref
  find_worker_by_in_flight_job_id job_id p = first_with (holds_job job_id p) (all_workers p)

  abbrev pub capacity_at : WorkerPool → Ref → ℤ
  capacity_at p r = elim (lookup r p.conns) [ none ↦ pos 0 | some w ↦ w.capacity ]

  pub sum_capacities : WorkerPool → List Ref → ℤ → ℤ
  sum_capacities p [] total = total
  sum_capacities p (r ∷ rs) total = sum_capacities p rs (wrap64 (total +ℤ capacity_at p r))

  pub total_capacity : WorkerPool → ℤ
  total_capacity p = sum_capacities p (all_workers p) (pos 0)

  abbrev pub is_online : WorkerPool → Ref → Bool
  is_online p r = elim (lookup r p.conns) [ none ↦ false | some w ↦ is_in_state S online w ]

  -- The keys of the set, in the order of the map.
  pub keys_online : WorkerPool → Dict String (List Ref) → List String
  keys_online p [] = []
  keys_online p ((key, refs) ∷ rest) =
      if is_some (first_with (is_online p) refs)
      then key ∷ keys_online p rest
      else keys_online p rest

  pub online_platform_keys : WorkerPool → List String
  online_platform_keys p = keys_online p p.platform

  abbrev pub size : WorkerPool → ℕ
  size p = length p.workers

  abbrev pub is_stale : Time → ℕ → WorkerPool → Ref → Bool
  is_stale now timeout p r = elim (lookup r p.conns) [
    | none ↦ false
    | some w ↦ heartbeat_timed_out S now timeout w
  ]

  pub stale_workers : Time → ℕ → WorkerPool → List Ref → List Ref
  stale_workers now timeout p [] = []
  stale_workers now timeout p (r ∷ rs) =
      let rest = stale_workers now timeout p rs in
      if is_stale now timeout p r then r ∷ rest else rest

  -- `conn.Close()` succeeds for the pointers that `closes` holds for; the first failure ends the
  -- loop.
  pub close_each : (Ref → Bool) → List Ref → WorkerPool → Bool × WorkerPool
  close_each closes [] p = (true, p)
  close_each closes (r ∷ rs) p =
      let rest = close_each closes rs (unregister r (write r close p)) in
      if closes r then rest else (false, p)

  pub check_heartbeats : Time → ℕ → (Ref → Bool) → WorkerPool → Bool × WorkerPool
  check_heartbeats now timeout closes p =
      close_each closes (stale_workers now timeout p (all_workers p)) p

  -- `LeastLoadedSelector.Select`, on the workers themselves: the first, and the others.
  pub better : WorkerConn S → WorkerConn S → Bool
  better w best =
      let w_cap = available_capacity S w in
      let best_cap = available_capacity S best in
      if ltb_ℤ best_cap w_cap
      then true
      else eqb_ℤ w_cap best_cap && ltb w.last_idle_at best.last_idle_at

  pub least_loaded : WorkerConn S → List (WorkerConn S) → WorkerConn S
  least_loaded best [] = best
  least_loaded best (w ∷ ws) = least_loaded (if better w best then w else best) ws

-- `RoundRobinSelector.Select`: the counter, a `uint64`, and the workers; the slice is not empty.
pub round_robin {ℓ} : {A : Type ℓ} → A → List A → ℕ → A × ℕ
round_robin first others counter =
    let workers = first ∷ others in
    let next = (counter + 1) % 2 ^ 64 in
    (get_or workers (counter % 2 ^ 64 % length workers) first, next)
