-- ===== src/Manager/Messages.antt =====
-- contract/proto_message.go: what a worker's messages hold once they are read, and the frames that
-- the manager writes.
use workforce.Prelude.{String, List, Bool}
use workforce.Prelude.Int.{ℤ}
use workforce.Contract.Job.{Bytes, JobPhase}
use workforce.Contract.Task.{ResultType}
use workforce.Contract.Worker.{WorkerState}

pub record ChildJobRequest : Type 0 where
  pub task : String
  pub payload : Bytes
  pub priority : ℤ
  pub version : String

pub record ResultMessage : Type 0 where
  pub parent_job_id : String
  pub job_id : String
  pub run_id : String
  pub kind : ResultType
  pub duration : ℤ
  pub warnings : String
  pub reason : String
  pub exit_code : ℤ
  pub jobs : List ChildJobRequest
  pub payload : Bytes

-- The messages from a worker; a heartbeat is kept without its two percentages.
pub data WorkerMessage : Type 0 where
  heartbeat_message : WorkerState → WorkerMessage
  accept_message : String → WorkerMessage
  reject_message : String → String → WorkerMessage
  staged_message : String → String → WorkerMessage
  starting_message : String → String → WorkerMessage
  log_message : String → String → Bytes → WorkerMessage
  result_message : ResultMessage → WorkerMessage
  capacity_message : ℤ → WorkerMessage

-- The frames to a worker, by their verb and flags. An error is kept by its code.
pub data Frame : Type 0 where
  heartbeat_frame : Frame
  propose_frame : (job_id task : String) → ℤ → (hash url : String) → List String → Bool → Frame
  dispatch_frame : (job_id run_id : String) → JobPhase → ℤ → Bytes → Frame
  cancel_frame : String → Frame
  error_frame : String → Frame
