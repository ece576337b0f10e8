-- ===== src/Protocol/Factories.antt =====
-- contract/proto_message.go: the factories, which make a typed message of the flags and the payload
-- of a line. The text of a line, as it is written and split into flags, is not modelled.
use workforce.Prelude.{
  ℕ, ◌-◌, ◌%◌, ◌^◌, String, Bool, not, ◌&&◌, Option, none, some, List, [], ◌∷◌, if◌then◌else◌, ◌==◌,
  nat_eq, string_eq, is_some,
}
use workforce.Prelude.Int.{ℤ, pos, negsuc, ltb_ℤ}
use workforce.Contract.Job.{Bytes}
use workforce.Contract.Task.{ResultType, success, error, subjobs}
use workforce.Contract.Worker.{WorkerState, online, pressure, draining, offline, shutting_down}
use workforce.Worker.{ProposeMessage, DispatchMessage, SystemCommand, drain, shutdown}
use workforce.Manager.Messages.{
  ChildJobRequest, ResultMessage, WorkerMessage, accept_message, reject_message, staged_message,
  starting_message, log_message, capacity_message,
}
use workforce.Protocol.Numbers.{atoi}
use workforce.Protocol.Flags.{
  Flags, Netargv, Result, ok, err, ◌>>=◌, of_option, malformed, invalid, no_payload, bad_payload,
  no_jobs, unknown_kind, require_flag, require_int, optional_int, require_float, optional_float,
  or_empty,
}

-- time.ParseDuration, strconv.ParseFloat and encoding/json, and the text of some bytes. A float64 is
-- kept as its bits, and `ParseInt` is `Atoi` on 64 bits.
pub record Decoders : Type 0 where
  pub parse_duration : String → Option ℤ
  pub parse_float : String → Option ℕ
  pub unmarshal_jobs : Bytes → Option (List ChildJobRequest)
  pub text : Bytes → String

pub record HeartbeatMessage : Type 0 where
  pub cpu_percent : ℕ
  pub mem_percent : ℕ
  pub state : WorkerState

-- `WorkerState(v)`, an int32, where `String` knows it.
abbrev low32 : ℤ → ℕ
low32 (pos n) = n % 2 ^ 32
low32 (negsuc n) = 2 ^ 32 - 1 - n % 2 ^ 32

unfoldable pub worker_state : ℤ → Option WorkerState
worker_state v =
    let n = low32 v in
    if n == 0
    then some online
    else if n == 1
    then some pressure
    else if n == 2
    then some draining
    else if n == 3
    then some offline
    else if n == 4
    then some shutting_down
    else none

abbrev pub known_phase : String → Result String
known_phase s = if not (s == "run") && not (s == "consolidate") then err (invalid "phase") else ok s

-- The lines of a worker whose run could not start: the artifact was not fetched, or the directory of
-- the job was not made (worker/handle_message.go, `runJob`). The reason is sanitised.
unfoldable pub fetch_failed : String → String → Flags
fetch_failed job_id reason = ("job-id", job_id) ∷ ("type", "error") ∷ ("reason", reason) ∷ []

unfoldable pub directory_failed : String → String → String → Flags
directory_failed job_id run_id reason =
    ("job-id", job_id) ∷ ("run-id", run_id) ∷ ("type", "error") ∷ ("reason", reason) ∷ []

module _ (N : Netargv) (D : Decoders) where
  unfoldable pub propose_factory : N.FlagSet → Result ProposeMessage
  propose_factory flags = do
    job_id ← require_flag N flags "job-id"
    task ← require_flag N flags "task"
    cost ← require_int N flags "cost"
    hash ← require_flag N flags "artifact-hash"
    url ← require_flag N flags "artifact-url"
    ok (record {
      job_id = job_id;
      parent_job_id = N.get flags "parent-job-id";
      task = task;
      cost = cost;
      no_result = N.has flags "no-result";
      artifact_hash = hash;
      artifact_url = url;
      artifact_deps = N.get_repeated flags "dep";
    })

  -- A flag that may be left out, with what it is then.
  abbrev pub given {ℓ} : {A : Type ℓ} → A → (String → Option A) → String → N.FlagSet → Result A
  given absent parse name flags =
      let s = N.get flags name in
      if s == "" then ok absent else of_option (malformed name) (parse s)

  unfoldable pub dispatch_factory : N.FlagSet → Bytes → Result DispatchMessage
  dispatch_factory flags payload = do
    job_id ← require_flag N flags "job-id"
    named ← require_flag N flags "phase"
    phase ← known_phase named
    attempt ← require_int N flags "attempt"
    run_id ← require_flag N flags "run-id"
    time ← given (pos 0) D.parse_duration "max-exec-time" flags
    memory ← given (pos 0) atoi "max-memory" flags
    cores ← given 0 D.parse_float "max-cpu-cores" flags
    ok (record {
      job_id = job_id;
      run_id = run_id;
      phase = phase;
      attempt = attempt;
      max_exec_time = time;
      max_memory_bytes = memory;
      max_cpu_cores = cores;
      payload = payload;
    })

  unfoldable pub accept_factory : N.FlagSet → Result WorkerMessage
  accept_factory flags = do job_id ← require_flag N flags "job-id"; ok (accept_message job_id)

  unfoldable pub reject_factory : N.FlagSet → Result WorkerMessage
  reject_factory flags = do
    job_id ← require_flag N flags "job-id"
    reason ← require_flag N flags "reason"
    ok (reject_message job_id reason)

  unfoldable pub staged_factory : N.FlagSet → Result WorkerMessage
  staged_factory flags = do
    job_id ← require_flag N flags "job-id"
    run_id ← require_flag N flags "run-id"
    ok (staged_message job_id run_id)

  unfoldable pub starting_factory : N.FlagSet → Result WorkerMessage
  starting_factory flags = do
    job_id ← require_flag N flags "job-id"
    run_id ← require_flag N flags "run-id"
    ok (starting_message job_id run_id)

  unfoldable pub log_factory : N.FlagSet → Bytes → Result WorkerMessage
  log_factory flags payload = do
    job_id ← require_flag N flags "job-id"
    run_id ← require_flag N flags "run-id"
    ok (log_message job_id run_id payload)

  -- What is the same for the three kinds of a result.
  abbrev pub reported : String → String → String → ResultType → ℤ → Bytes → ResultMessage
  reported job_id run_id parent_job_id kind duration payload = record {
    parent_job_id = parent_job_id;
    job_id = job_id;
    run_id = run_id;
    kind = kind;
    duration = duration;
    warnings = "";
    reason = "";
    exit_code = pos 0;
    jobs = [];
    payload = payload;
  }

  abbrev some_jobs : List ChildJobRequest → Result (List ChildJobRequest)
  some_jobs [] = err no_jobs
  some_jobs (job ∷ jobs) = ok (job ∷ jobs)

  abbrev emitted : Bytes → Result (List ChildJobRequest)
  emitted [] = err no_payload
  emitted (b ∷ bs) = of_option bad_payload (D.unmarshal_jobs (b ∷ bs)) >>= some_jobs

  abbrev failure : N.FlagSet → Bytes → (ResultType → Bytes → ResultMessage) → Result ResultMessage
  failure flags payload base = do
    code ← given (pos 0) atoi "exit-code" flags
    ok (record (base error []) { reason = D.text payload; exit_code = code })

  abbrev emission : Bytes → (ResultType → Bytes → ResultMessage) → Result ResultMessage
  emission payload base = do
    jobs ← emitted payload
    ok (record (base subjobs payload) { jobs = jobs })

  -- The `switch` on the kind of the result.
  unfoldable pub result_of :
      String → N.FlagSet → Bytes → (ResultType → Bytes → ResultMessage) → Result ResultMessage
  result_of kind flags payload base =
      if kind == "result"
      then ok (record (base success payload) { warnings = N.get flags "warnings" })
      else if kind == "error"
      then failure flags payload base
      else if kind == "subjobs"
      then emission payload base
      else err unknown_kind

  unfoldable pub result_factory : N.FlagSet → Bytes → Result ResultMessage
  result_factory flags payload = do
    job_id ← require_flag N flags "job-id"
    kind ← require_flag N flags "type"
    run_id ← require_flag N flags "run-id"
    duration ← given (negsuc 0) D.parse_duration "duration" flags
    result_of kind flags payload
        (λ k p. reported job_id run_id (or_empty (N.find flags "parent-job-id")) k duration p)

  -- The check of a heartbeat's flag: the error counts where `found` is set.
  abbrev checked {ℓ} : {A : Type ℓ} → Bool → A → Result A → Result A
  checked found absent (ok a) = ok a
  checked found absent (err e) = if found then err e else ok absent

  abbrev valid_state : Option (Result ℤ) → Result WorkerState
  valid_state none = ok online
  valid_state (some (err e)) = err e
  valid_state (some (ok v)) = of_option (invalid "state") (worker_state v)

  abbrev cpu_of : Option (Result ℕ) → Result ℕ
  cpu_of none = ok 0
  cpu_of (some r) = r

  unfoldable pub heartbeat_factory : N.FlagSet → Result HeartbeatMessage
  heartbeat_factory flags = do
    let found = is_some (optional_float N D.parse_float flags "cpu")
    cpu ← cpu_of (optional_float N D.parse_float flags "cpu")
    mem ← checked found 0 (require_float N D.parse_float flags "mem")
    state ← valid_state (optional_int N flags "state")
    ok (record { cpu_percent = cpu; mem_percent = mem; state = state })

  unfoldable pub system_factory : N.FlagSet → Result SystemCommand
  system_factory flags = do
    command ← require_flag N flags "command"
    (if command == "drain"
        then ok drain
        else if command == "shutdown"
        then ok shutdown
        else err (invalid "command"))

  unfoldable pub capacity_factory : N.FlagSet → Result WorkerMessage
  capacity_factory flags = do
    n ← require_int N flags "available"
    (if ltb_ℤ n (pos 0) then err (invalid "available") else ok (capacity_message n))

  unfoldable pub cancel_factory : N.FlagSet → Result String
  cancel_factory flags = require_flag N flags "job-id"
