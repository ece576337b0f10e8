-- ===== src/Worker/Tests.antt =====
-- A worker of capacity 10 that reads a float as a number, on worker/handle_message.go and
-- worker/worker.go.
use workforce.Prelude.{
  ℕ, String, ◌≡◌, ◌≢◌, ◌<◌, refl, Bool, true, false, List, [], ◌∷◌, arith, ◌==◌, string_eq, length,
  ltb, leb,
}
use workforce.Prelude.Int.{pos, ◌+ℤ◌}
use workforce.Prelude.Dict.{insert, delete, total}
use workforce.Contract.Worker.{online, draining, shutting_down, worker_state_eq, transition}
use workforce.Worker.{
  Floats, Worker, ProposeMessage, DispatchMessage, ActiveTask, Event, proposed, dispatched,
  finished, commanded, cancelled, acknowledged, beat, drain, shutdown, connect, run, step,
  handle_propose, handle_dispatch, handle_system, release_task, heartbeat_routine, shutdown_all,
  check_deps, reserve, send, is_over_limit,
}
use workforce.Worker.Accounting.{IsBalanced, AreFair, step-IsBalanced, run-IsBalanced}
use workforce.Worker.Proposals.{
  check_deps-eq-absent, IsAdmissible, admissible-IsAccepted, IsAccepted, inadmissible-IsRefused,
  IsRefused,
}
use workforce.Worker.Lifecycle.{
  drain-release, shutdown-drain-shutdown_panics, heartbeat_never_times_out,
}

abbrev numbers : Floats
numbers = record { Float = ℕ; zero = 0; lt = ltb; le = leb }

abbrev task : ActiveTask
task = record { is_cancelled = false; cost = pos 4; run_id = "run-1" }

abbrev idle : Worker numbers
idle = record {
  capacity = pos 10;
  max_cpu_percent = 90;
  max_mem_percent = 0;
  heartbeat_timeout = pos 30_000_000_000;
  state = online;
  last = record { cpu_percent = 12; mem_percent = 40 };
  dep_cache = [];
  tasks = [];
  pending_jobs = [];
  used_cap = pos 0;
  last_heartbeat_ack = pos 1_700_000_000_000_000_000;
  heartbeat_send_failure_count = 0;
  sent = [];
  started = [];
  is_closed = false;
  is_done = false;
  is_connected = true;
  panicked = false;
}

abbrev busy : Worker numbers
busy = record idle { tasks = ("job-1", task) ∷ []; used_cap = pos 4 }

abbrev proposal : ProposeMessage
proposal = record {
  job_id = "job-2";
  parent_job_id = "";
  task = "resize";
  cost = pos 6;
  no_result = false;
  artifact_hash = "";
  artifact_url = "";
  artifact_deps = "convert" ∷ [];
}

abbrev too_big : ProposeMessage
too_big = record proposal { cost = pos 7 }

abbrev dispatch : DispatchMessage
dispatch = record {
  job_id = "job-2";
  run_id = "run-2";
  phase = "run";
  attempt = pos 1;
  max_exec_time = pos 0;
  max_memory_bytes = pos 0;
  max_cpu_cores = 0;
  payload = [];
}

abbrev on_path : String → Bool
on_path name = name == "convert"

abbrev history : List Event
history =
    proposed on_path proposal
    ∷ dispatched dispatch
    ∷ cancelled "job-2"
    ∷ finished "job-2"
    ∷ acknowledged (pos 7)
    ∷ beat (pos 8) true
    ∷ commanded drain
    ∷ []

busy-IsBalanced : IsBalanced numbers busy
unfolding total
busy-IsBalanced = record {
  books = record {
    jobs_map = tt;
    tasks_map = (tt, tt);
    priced = tt;
    loaded = (refl, tt);
    exact = refl;
    within = omega arith;
    small = omega arith;
    positive = refl;
  };
}

step-IsBalanced_example : IsBalanced numbers (step numbers (finished "job-1") busy)
step-IsBalanced_example = step-IsBalanced numbers (finished "job-1") busy busy-IsBalanced tt

history_fair : AreFair numbers (connect numbers (pos 3) idle) history
unfolding step run connect is_over_limit ◌+ℤ◌ handle_propose check_deps reserve send insert delete
    transition handle_dispatch
history_fair = ((refl, refl, ground arith), (refl, (tt, (tt, (tt, (tt, (tt, tt)))))))

run-IsBalanced_example : IsBalanced numbers (run numbers (connect numbers (pos 3) idle) history)
run-IsBalanced_example =
    run-IsBalanced numbers (pos 3) idle history refl (ground arith) history_fair

check_deps-eq-absent_example :
    (check_deps numbers on_path ("convert" ∷ "ffmpeg" ∷ []) []).0 ≡ "ffmpeg" ∷ []
check_deps-eq-absent_example = check_deps-eq-absent numbers on_path ("convert" ∷ "ffmpeg" ∷ []) []

proposal-IsAdmissible : IsAdmissible numbers on_path proposal busy
unfolding ◌+ℤ◌ is_over_limit
proposal-IsAdmissible = record {
  is_online = refl;
  is_calm = refl;
  deps = refl;
  room = ground arith;
}

admissible-IsAccepted_example :
    IsAccepted numbers proposal busy (handle_propose numbers on_path proposal busy)
admissible-IsAccepted_example =
    admissible-IsAccepted numbers on_path proposal busy proposal-IsAdmissible

too_big-IsInadmissible : ¬ IsAdmissible numbers on_path too_big busy
unfolding ◌+ℤ◌
too_big-IsInadmissible h = let r = h.room in omega (arith, r)

inadmissible-IsRefused_example :
    IsRefused numbers too_big busy (handle_propose numbers on_path too_big busy)
inadmissible-IsRefused_example =
    inadmissible-IsRefused numbers on_path too_big busy too_big-IsInadmissible

drain-release_example :
    let w' = release_task numbers "job-1" (handle_system numbers drain busy) in
    (w'.tasks ≡ delete "job-1" busy.tasks)
    × (0 < length w'.tasks → (w'.state ≡ draining) × (w'.is_closed ≡ false))
    × (length w'.tasks ≡ 0 → (w'.state ≡ shutting_down) × (w'.is_closed ≡ true))
drain-release_example = drain-release numbers "job-1" busy (ground arith)

shutdown-drain-shutdown_panics_example :
    (handle_system numbers shutdown
      (handle_system numbers drain (handle_system numbers shutdown busy))).panicked
    ≡ true
shutdown-drain-shutdown_panics_example =
    shutdown-drain-shutdown_panics numbers busy refl refl (ground arith)

heartbeat_never_times_out_example :
    (heartbeat_routine numbers (pos 1_800_000_000) true busy).0 ≢ shutdown_all
heartbeat_never_times_out_example =
    heartbeat_never_times_out numbers 1_800_000_000 1_700_000_000_000_000_000 30_000_000_000 true
      busy refl refl (ground arith) (ground arith)
