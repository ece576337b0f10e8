-- ===== src/Store/Logs/Tests.antt =====
-- manager/store/memstore.go: a subscription in a store with one run.
use workforce.Prelude.{◌≡◌, refl, true, false, some, [], ◌∷◌, string_eq}
use workforce.Prelude.Dict.{insert, delete}
use workforce.Prelude.Int.{pos}
use workforce.Contract.Job.{run}
use workforce.Contract.Task.{JobRun, running, success}
use workforce.Store.{MemStore, list_job_runs, sort_slice, insert_sorted}
use workforce.Store.Logs.{
  backlog, log_of, subscribe_job_logs, close_job_log_subscribers, end_subscription,
}
use workforce.Store.Logs.Subscribers.{end_subscription-subscribe_job_logs}

abbrev first_run : JobRun
first_run = record {
  id = "r";
  job_id = "j";
  phase = run;
  attempt = pos 1;
  worker_id = "w";
  status = running;
  input_payload = [];
  output_payload = [];
  failure_reason = "";
  exit_code = pos 0;
  result_type = success;
  started_at = 50;
  finished_at = 0;
}

abbrev store : MemStore
store = record {
  jobs = [];
  task_defs = [];
  runs = ("r", first_run) ∷ [];
  run_logs = ("r", 104 ∷ 105 ∷ []) ∷ [];
  run_subscribers = [];
  job_subscribers = [];
  chans = [];
  next_chan = 0;
  webhooks = [];
  panicked = false;
}

abbrev subscribed : MemStore
subscribed = record store {
  chans = (0, record { buffer = (104 ∷ 105 ∷ []) ∷ []; is_closed = false }) ∷ [];
  next_chan = 1;
  job_subscribers = ("j", 0 ∷ []) ∷ [];
}

one_chunk : subscribe_job_logs "j" store ≡ some (0, subscribed)
unfolding subscribe_job_logs backlog log_of list_job_runs sort_slice insert_sorted insert delete
one_chunk = refl

end_subscription-subscribe_job_logs_example :
    (end_subscription "j" 0 (close_job_log_subscribers "j" subscribed)).panicked ≡ true
end_subscription-subscribe_job_logs_example =
    end_subscription-subscribe_job_logs "j" 0 store subscribed one_chunk
