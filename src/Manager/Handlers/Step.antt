-- ===== src/Manager/Handlers/Step.antt =====
-- manager/worker_conn_handler.go, `handleResultMessage` and `handleWorkerMessage`.
use workforce.Prelude.{String, Bool, Option, none, some, if◌then◌else◌, string_eq}
use workforce.Prelude.Int.{pos}
use workforce.Contract.Job.{Job, Time}
use workforce.Contract.Task.{RunStatus, ResultType}
use workforce.Store.{get_job}
use workforce.Manager.Config.{Config}
use workforce.Manager.Messages.{
  heartbeat_frame, error_frame, ResultMessage, WorkerMessage, heartbeat_message, accept_message,
  reject_message, staged_message, starting_message, log_message, result_message, capacity_message,
}
use workforce.Manager.Server.{Outside, Server, send, resolve_run_id, close_run}
use workforce.Manager.WorkerConn.{SimpleSet, set_state, update_heartbeat, override_capacity}
use workforce.Manager.WorkerPool.{Ref, restore_capacity, write}
use workforce.Manager.Handlers.{
  handle_accept, handle_staged, handle_reject, handle_starting, handle_log, handle_job_completed,
}
use workforce.Manager.Handlers.Failures.{handle_job_error}
use workforce.Manager.Handlers.Subjobs.{handle_subjobs_emitted}

module _ (S : SimpleSet) (O : Outside) (c : Config) where
  -- The rest of `handleResultMessage` once the subjobs are handled.
  unfoldable pub end_subjobs :
      Time → Bool → Ref → String → Job → ResultMessage → Bool → Server S O → Server S O
  end_subjobs now writes r run_id job msg has_error s =
      let s' = record s { pool = restore_capacity S now r job.id job.cost s.pool } in
      let closed =
        close_run S O now run_id msg.job_id RunStatus.completed msg.kind msg.payload "" (pos 0)
          s' in
      if has_error then send S O writes r (error_frame "") s' else closed

  -- `handleResultMessage` on a job that is known, by the kind of the result.
  unfoldable pub handle_kind :
      ResultType → Time → Bool → Ref → Job → ResultMessage → Server S O → Option (Server S O)
  handle_kind ResultType.error now writes r job msg s =
      some (handle_job_error S O c now r job msg s)
  handle_kind ResultType.success now writes r job msg s =
      some (handle_job_completed S O c now r job msg s)
  handle_kind ResultType.subjobs now writes r job msg s =
      let run_id = resolve_run_id S O msg.job_id msg.run_id s in
      elim (handle_subjobs_emitted S O c now job msg.jobs s) [
        | none ↦ none
        | some (has_error, s') ↦ some (end_subjobs now writes r run_id job msg has_error s')
      ]

  unfoldable pub handle_result :
      Time → Bool → Ref → ResultMessage → Server S O → Option (Server S O)
  handle_result now writes r msg s = elim (get_job msg.job_id s.store) [
    | none ↦ some (send S O writes r (error_frame "invalid_argument") s)
    | some job ↦ handle_kind msg.kind now writes r job msg s
  ]

  unfoldable pub handle_worker_message :
      Time → Bool → Ref → WorkerMessage → Server S O → Option (Server S O)
  handle_worker_message now writes r (heartbeat_message state) s = some (
      send S O writes r heartbeat_frame
        (record s { pool = write S r (λ w. update_heartbeat S now (set_state S state w)) s.pool }))
  handle_worker_message now writes r (accept_message id) s =
      some (handle_accept S O c now writes r id s)
  handle_worker_message now writes r (reject_message id reason) s =
      some (handle_reject S O c now writes r id s)
  handle_worker_message now writes r (staged_message id run_id) s =
      some (handle_staged S O c now id s)
  handle_worker_message now writes r (starting_message id run_id) s =
      some (handle_starting S O c now r id run_id s)
  handle_worker_message now writes r (log_message id run_id line) s =
      some (handle_log S O c id run_id line s)
  handle_worker_message now writes r (result_message msg) s = handle_result now writes r msg s
  handle_worker_message now writes r (capacity_message available) s =
      some (record s { pool = write S r (override_capacity S available) s.pool })
