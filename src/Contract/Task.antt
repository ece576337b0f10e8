-- ===== src/Contract/Task.antt =====
-- contract/task.go and contract/run.go. A float64 is only stored here, as its bits.
use workforce.Prelude.{ℕ, String, Bool}
use workforce.Prelude.Int.{ℤ}
use workforce.Contract.Job.{Time, Bytes, JobPhase}

pub record RetryPolicy : Type 0 where
  pub max_attempts : ℤ
  pub retry_delay : ℤ
  pub max_retry_delay : ℤ

pub record Limitations : Type 0 where
  pub max_execution_time : ℤ
  pub max_memory_bytes : ℤ
  pub max_cpu_cores : ℕ

pub record Task : Type 0 where
  pub name : String
  pub limitations : Limitations
  pub retry_policy : RetryPolicy
  pub no_result : Bool
  pub cost : ℤ

pub data RunStatus : Type 0 where
  provisioning running completed failed : RunStatus

-- contract/proto_message.go, `ResultType`
pub data ResultType : Type 0 where
  success error subjobs : ResultType

pub record JobRun : Type 0 where
  pub id : String
  pub job_id : String
  pub phase : JobPhase
  pub attempt : ℤ
  pub worker_id : String
  pub status : RunStatus
  pub input_payload : Bytes
  pub output_payload : Bytes
  pub failure_reason : String
  pub exit_code : ℤ
  pub result_type : ResultType
  pub started_at : Time
  pub finished_at : Time
