-- ===== src/Worker.antt =====
-- A worker process as its manager sees it (worker/worker.go, worker/handle_message.go): the
-- handlers of one connection. The proofs are in the modules below.
pub mod Accounting
pub mod Books
pub mod Lifecycle
pub mod Proposals
mod Tests
use workforce.Prelude.{
  suc, ◌/◌, ◌+◌, ◌-◌, ℕ, String, Bool, true, false, not, ◌&&◌, ◌||◌, Option, none, some, List, [],
  ◌∷◌, ◌++◌, length, if◌then◌else◌, ◌==◌, nat_eq, string_eq, leb, is_some,
}
use workforce.Prelude.Int.{ℤ, pos, negsuc, ◌+ℤ◌, ◌-ℤ◌, sub_ℕ, ltb_ℤ, wrap64}
use workforce.Prelude.Dict.{Dict, lookup, insert, delete}
use workforce.Contract.Job.{Bytes}
use workforce.Contract.Worker.{
  WorkerState, online, pressure, draining, offline, shutting_down, transition, worker_state_eq,
}

-- Go's float64, of which the program uses the comparisons only.
pub record Floats : Type 1 where
  pub Float : Type 0
  pub zero : Float
  pub lt : Float → Float → Bool
  pub le : Float → Float → Bool

-- contract/proto_message.go, `ProposeMessage` and `DispatchMessage`
pub record ProposeMessage : Type 0 where
  pub job_id : String
  pub parent_job_id : String
  pub task : String
  pub cost : ℤ
  pub no_result : Bool
  pub artifact_hash : String
  pub artifact_url : String
  pub artifact_deps : List String

pub record DispatchMessage : Type 0 where
  pub job_id : String
  pub run_id : String
  pub phase : String
  pub attempt : ℤ
  pub max_exec_time : ℤ
  pub max_memory_bytes : ℤ
  pub max_cpu_cores : ℕ
  pub payload : Bytes

-- contract/proto_message.go, `SystemCommand`
pub data SystemCommand : Type 0 where
  drain shutdown : SystemCommand

-- `context.CancelFunc` is the flag that it sets.
pub record ActiveTask : Type 0 where
  pub is_cancelled : Bool
  pub cost : ℤ
  pub run_id : String

-- The lines that the handlers write, by verb; a `reject` has a reason and the names in its detail.
pub data Line : Type 0 where
  reject : String → String → List String → Line
  accept : String → Line
  staged : String → String → Line
  error : String → String → Line

-- `int64(d.Seconds())`: whole seconds, towards zero.
pub seconds : ℤ → ℤ
seconds (pos n) = pos (n / 1_000_000_000)
seconds (negsuc n) = sub_ℕ 0 (suc n / 1_000_000_000)

-- What `HeartbeatRoutine` returns.
pub data Beat : Type 0 where
  ok not_sent shutdown_all : Beat

module _ (F : Floats) where
  open F use {Float, zero, lt, le}

  pub record SystemMetrics : Type 0 where
    pub cpu_percent : Float
    pub mem_percent : Float

  pub is_over_limit : SystemMetrics → Float → Float → Bool
  is_over_limit sm cpu_limit memory_limit =
      (lt zero cpu_limit && le cpu_limit sm.cpu_percent)
      || (lt zero memory_limit && le memory_limit sm.mem_percent)

  -- `Config`, the connection-scoped fields of `Worker`, what was written to the connection, the
  -- jobs handed to `go w.runJob`; whether `conn` is set, whether it and the `done` channel are
  -- closed, and whether a handler panicked.
  pub record Worker : Type 0 where
    pub capacity : ℤ
    pub max_cpu_percent : Float
    pub max_mem_percent : Float
    pub heartbeat_timeout : ℤ
    pub state : WorkerState
    pub last : SystemMetrics
    pub dep_cache : Dict String (Unit {0})
    pub tasks : Dict String ActiveTask
    pub pending_jobs : Dict String ProposeMessage
    pub used_cap : ℤ
    pub last_heartbeat_ack : ℤ
    pub heartbeat_send_failure_count : ℕ
    pub sent : List Line
    pub started : List (ProposeMessage × DispatchMessage)
    pub is_closed : Bool
    pub is_done : Bool
    pub is_connected : Bool
    pub panicked : Bool

  pub send : Line → Worker → Worker
  send line w = record w { sent = w.sent ++ line ∷ [] }

  -- The start of `ConnectAndWork`, up to the handshake; `ack` is the clock in nanoseconds.
  pub connect : ℤ → Worker → Worker
  connect ack w = record w {
    state = online;
    tasks = [];
    pending_jobs = [];
    used_cap = pos 0;
    last_heartbeat_ack = ack;
    is_closed = false;
    is_done = false;
    is_connected = true;
  }

  -- The deferred calls of `ConnectAndWork`.
  pub disconnect : Worker → Worker
  disconnect w = record w { is_closed = true; is_connected = false }

  -- `exec.LookPath` is the argument; the missing names, and the cache with the confirmed ones.
  pub check_deps :
      (String → Bool) → List String → Dict String (Unit {0}) → List String × Dict String (Unit {0})
  check_deps look_path [] cache = ([], cache)
  check_deps look_path (dep ∷ deps) cache =
      let known = is_some (lookup dep cache) in
      let found = look_path dep in
      let cache' = if known then cache else if found then insert dep tt cache else cache in
      let (missing, after) = check_deps look_path deps cache' in
      (if known || found then missing else dep ∷ missing, after)

  -- The critical section of `handlePropose`.
  pub reserve : ProposeMessage → Worker → Worker
  reserve msg w =
      let can_accept = not (ltb_ℤ w.capacity (wrap64 (w.used_cap +ℤ msg.cost))) in
      if can_accept
      then send (accept msg.job_id) (record w {
        used_cap = wrap64 (w.used_cap +ℤ msg.cost);
        pending_jobs = insert msg.job_id msg w.pending_jobs;
      })
      else send (reject msg.job_id "capacity" []) w

  abbrev is_limited : Worker → Bool
  is_limited w = lt zero w.max_cpu_percent || lt zero w.max_mem_percent

  abbrev is_pressed : Worker → Bool
  is_pressed w = is_over_limit w.last w.max_cpu_percent w.max_mem_percent

  pub handle_propose : (String → Bool) → ProposeMessage → Worker → Worker
  handle_propose look_path msg w =
      let (missing, cache) = check_deps look_path msg.artifact_deps w.dep_cache in
      let w' = record w { dep_cache = cache } in
      if not (w.state == online)
      then send (reject msg.job_id "draining" []) w
      else if is_limited w && is_pressed w
      then send (reject msg.job_id "pressure" []) w
      else if leb 1 (length missing)
      then send (reject msg.job_id "missing_deps" missing) w'
      else reserve msg w'

  -- `pendingJobs[msg.JobID]` was there: `proposal`.
  pub stage : ProposeMessage → DispatchMessage → Worker → Worker
  stage proposal msg w =
      record (send (staged msg.job_id msg.run_id) (record w {
        pending_jobs = delete msg.job_id w.pending_jobs;
        tasks =
            insert msg.job_id
              (record { is_cancelled = false; cost = proposal.cost; run_id = msg.run_id }) w.tasks;
      })) { started = w.started ++ (proposal, msg) ∷ [] }

  pub handle_dispatch : DispatchMessage → Worker → Worker
  handle_dispatch msg w = elim (lookup msg.job_id w.pending_jobs) [
    | none ↦ send (error "unknown_job" "dispatched job was not proposed or accepted") w
    | some proposal ↦ stage proposal msg w
  ]

  -- `close(w.done)`, which panics on a closed channel.
  pub close_done : Worker → Worker
  close_done w = if w.is_done then record w { panicked = true } else record w { is_done = true }

  pub handle_system : SystemCommand → Worker → Worker
  handle_system drain w =
      let w' = record w { state = draining } in
      if leb 1 (length w.tasks) then w' else record w' { state = shutting_down; is_closed = true }
  handle_system shutdown w =
      let (s, from_online) = transition online shutting_down w.state in
      let (s', from_draining) = transition draining shutting_down s in
      if from_online
      then close_done (record w { state = s })
      else if from_draining
      then close_done (record w { state = s' })
      else w

  pub handle_cancel : String → Worker → Worker
  handle_cancel job_id w = elim (lookup job_id w.tasks) [
    | none ↦ w
    | some t ↦ record w { tasks = insert job_id (record t { is_cancelled = true }) w.tasks }
  ]

  -- The deferred end of `runJob`.
  pub release_task : String → Worker → Worker
  release_task job_id w =
      let w' : Worker = elim (lookup job_id w.tasks) [
        | none ↦ w
        | some t ↦ record w {
          used_cap = wrap64 (w.used_cap -ℤ t.cost);
          tasks = delete job_id w.tasks;
        }
      ] in
      let remaining = length w'.tasks in
      if (w.state == draining || w.state == shutting_down) && not (leb 1 remaining)
      then record w' { state = shutting_down; is_closed = true }
      else w'

  -- `HeartbeatMessage`: the clock in nanoseconds.
  pub handle_heartbeat : ℤ → Worker → Worker
  handle_heartbeat now w = record w { last_heartbeat_ack = now }

  -- The lines that `HeartbeatRoutine` runs before it writes.
  pub sample_state : Worker → Worker
  sample_state w =
      if w.state == online || w.state == pressure
      then record w { state = if is_pressed w then pressure else online }
      else w

  -- `HeartbeatRoutine`: the clock in seconds, and whether the write succeeds.
  pub heartbeat_routine : ℤ → Bool → Worker → Beat × Worker
  heartbeat_routine now is_sent w =
      let w' = sample_state w in
      let failures = w'.heartbeat_send_failure_count + 1 in
      if not w.is_connected
      then (ok, w)
      else if ltb_ℤ (seconds w.heartbeat_timeout) (wrap64 (now -ℤ w.last_heartbeat_ack))
      then (shutdown_all, record w { is_closed = true })
      else if is_sent
      then (ok, record w' { heartbeat_send_failure_count = w'.heartbeat_send_failure_count - 1 })
      else (
        not_sent,
        record w' {
          heartbeat_send_failure_count = failures;
          is_closed = w'.is_closed || leb 3 failures;
        },
      )

-- What `handleMessage`, the end of a run and the heartbeat timer do to the worker. Each handler
-- touches the job tables and `usedCap` in one section under `tasksMu`, so their history is a
-- sequence of these; what a handler reads before that section counts as read at its start.
pub data Event : Type 0 where
  proposed : (String → Bool) → ProposeMessage → Event
  dispatched : DispatchMessage → Event
  commanded : SystemCommand → Event
  cancelled : String → Event
  finished : String → Event
  acknowledged : ℤ → Event
  beat : ℤ → Bool → Event

module _ (F : Floats) where
  pub step : Event → Worker F → Worker F
  step (proposed look_path msg) w = handle_propose F look_path msg w
  step (dispatched msg) w = handle_dispatch F msg w
  step (commanded command) w = handle_system F command w
  step (cancelled job_id) w = handle_cancel F job_id w
  step (finished job_id) w = release_task F job_id w
  step (acknowledged now) w = handle_heartbeat F now w
  step (beat now is_sent) w = (heartbeat_routine F now is_sent w).1

  pub run : Worker F → List Event → Worker F
  run w [] = w
  run w (e ∷ es) = run (step e w) es
