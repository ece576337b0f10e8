-- ===== src/Manager/WorkerConn.antt =====
-- A worker as its manager keeps it (manager/worker_conn.go). The network connection and the bus of
-- received messages are left out, but for whether the connection was closed.
pub mod Capacity
mod Tests
use workforce.Prelude.{
  ℕ, ◌+◌, ◌*◌, ◌≡◌, String, Bool, true, false, not, ◌||◌, ◌&&◌, Option, none, some, List, ltb, leb,
  if◌then◌else◌, ◌==◌, nat_eq, string_eq,
}
use workforce.Prelude.Int.{ℤ, pos, ◌+ℤ◌, ◌-ℤ◌, ltb_ℤ, wrap64}
use workforce.Contract.Job.{Time}
use workforce.Contract.Worker.{WorkerState, online, worker_state_eq}
use workforce.Locksmith.{Cache, default_cache, with_capacity, with_lru, with_ttl}

-- lowbit.dev/sets, `SimpleSet`, on texts.
pub record SimpleSet : Type 1 where
  pub Set : Type 0
  pub empty : Set
  pub add : String → Set → Set
  pub remove : String → Set → Set
  pub has : String → Set → Bool
  pub size : Set → ℕ
  pub snapshot : Set → List String

-- What its documentation says of membership.
pub record IsSimpleSet (S : SimpleSet) : Type 0 where
  pub has-empty : (k : String) → S.has k S.empty ≡ false
  pub has-add : (k j : String) (s : S.Set) → S.has j (S.add k s) ≡ (k == j || S.has j s)
  pub has-remove : (k j : String) (s : S.Set) → S.has j (S.remove k s) ≡ (not (k == j) && S.has j s)

-- `ErrWorkerAtCapacity` and `ErrWorkerInsufficientCapacity`
pub data AssignError : Type 0 where
  at_capacity insufficient_capacity : AssignError

module _ (S : SimpleSet) where
  open S use {Set, empty, add, remove, has, size}

  pub record WorkerConn : Type 0 where
    pub worker_id : String
    pub os : String
    pub arch : String
    pub capacity : ℤ
    pub connected_at : Time
    pub is_closed : Bool
    pub state : WorkerState
    pub in_flight : Set
    pub occupied_cost : ℤ
    pub last_idle_at : Time
    pub last_heartbeat : Time
    pub last_idle_notified : Time
    pub rejected_jobs_cache : Cache String (Unit {0})

  abbrev pub rejections : Cache String (Unit {0})
  rejections = with_capacity 100 (with_ttl (60 * 1_000_000_000) (with_lru true default_cache))

  pub new_worker_conn : Time → String → String → String → ℤ → WorkerConn
  new_worker_conn now id os arch capacity = record {
    worker_id = id;
    os = os;
    arch = arch;
    capacity = capacity;
    connected_at = now;
    is_closed = false;
    state = online;
    in_flight = empty;
    occupied_cost = pos 0;
    last_idle_at = now;
    last_heartbeat = now;
    last_idle_notified = 0;
    rejected_jobs_cache = rejections;
  }

  unfoldable pub is_in_state : WorkerState → WorkerConn → Bool
  is_in_state state w = w.state == state

  pub set_state : WorkerState → WorkerConn → WorkerConn
  set_state state w = record w { state = state }

  pub override_capacity : ℤ → WorkerConn → WorkerConn
  override_capacity capacity w = record w { capacity = capacity }

  unfoldable pub available_capacity : WorkerConn → ℤ
  available_capacity w = wrap64 (w.capacity -ℤ w.occupied_cost)

  -- The error, or none.
  pub assign_task : String → ℤ → WorkerConn → Option AssignError × WorkerConn
  assign_task task_id cost w =
      let avail = wrap64 (w.capacity -ℤ w.occupied_cost) in
      if not (ltb_ℤ (pos 0) avail)
      then (some at_capacity, w)
      else if ltb_ℤ (wrap64 (avail -ℤ cost)) (pos 0)
      then (some insufficient_capacity, w)
      else (
        none,
        record w {
          in_flight = add task_id w.in_flight;
          occupied_cost = wrap64 (w.occupied_cost +ℤ cost);
          last_idle_notified = 0;
        },
      )

  pub complete_task : Time → String → ℤ → WorkerConn → WorkerConn
  complete_task now task_id cost w =
      let left = wrap64 (w.occupied_cost -ℤ cost) in
      record w {
        in_flight = remove task_id w.in_flight;
        occupied_cost = if ltb_ℤ left (pos 0) then pos 0 else left;
        last_idle_at = now;
      }

  pub update_heartbeat : Time → WorkerConn → WorkerConn
  update_heartbeat now w = record w { last_heartbeat = now }

  -- A timeout is not negative.
  pub heartbeat_timed_out : Time → ℕ → WorkerConn → Bool
  heartbeat_timed_out now timeout w = ltb (w.last_heartbeat + timeout) now

  pub update_last_idle_time : Time → WorkerConn → WorkerConn
  update_last_idle_time now w = record w { last_idle_at = now }

  pub is_idle : WorkerConn → Bool
  is_idle w = size w.in_flight == 0

  pub mark_idle_notified : Time → WorkerConn → WorkerConn
  mark_idle_notified now w = record w { last_idle_notified = now }

  pub idle_notification_pending : WorkerConn → Bool
  idle_notification_pending w = w.last_idle_notified == 0

  pub reset_idle_notified : WorkerConn → WorkerConn
  reset_idle_notified w = record w { last_idle_notified = 0 }

  pub is_in_flight : String → WorkerConn → Bool
  is_in_flight task_id w = has task_id w.in_flight
