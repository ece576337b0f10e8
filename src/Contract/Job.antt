-- ===== src/Contract/Job.antt =====
-- contract/job.go. A `time.Time` is a count of nanoseconds, 0 for the zero time; bytes are numbers.
use workforce.Prelude.{
  ℕ, String, ◌≡◌, ◌↔◌, Bool, true, Option, none, List, [], arith, Eq, ◌==◌, nat_eq, ◌||◌,
}
use workforce.Prelude.Int.{ℤ, pos}
use workforce.Prelude.Dict.{Dict}

abbrev pub Time : Type 0
Time = ℕ

abbrev pub Bytes : Type 0
Bytes = List ℕ

pub data JobStatus : Type 0 where
  pending proposing accepted provisioning running awaiting_children : JobStatus
  completed failed cancelled : JobStatus

-- Which constant a status is.
abbrev pub index : JobStatus → ℕ
index pending = 0
index proposing = 1
index accepted = 2
index provisioning = 3
index running = 4
index awaiting_children = 5
index completed = 6
index failed = 7
index cancelled = 8

pub index_iff : (s t : JobStatus) → ((index s == index t) ≡ true) ↔ (s ≡ t)
index_iff s t = ground arith

instance abbrev pub status_eq : Eq JobStatus
status_eq = record { test = λ s t. index s == index t; decides = index_iff }

unfoldable pub is_terminal : JobStatus → Bool
is_terminal s = s == completed || s == failed || s == cancelled

pub data JobPhase : Type 0 where
  run consolidate : JobPhase

pub record Job : Type 0 where
  pub id : String
  pub parent_job_id : String
  pub task_name : String
  pub artifact_version : String
  pub status : JobStatus
  pub phase : JobPhase
  pub priority : ℤ
  pub cost : ℤ
  pub attempts : ℤ
  pub payload : Bytes
  pub result : Bytes
  pub failure_reason : String
  pub webhook_url : String
  pub webhook_events : List String
  pub webhook_headers : Dict String String
  pub created_at : Time
  pub updated_at : Time
  pub completed_at : Option Time
  pub duration : Option ℤ

-- The zero `Job`, on which literals build.
abbrev pub zero_job : Job
zero_job = record {
  id = "";
  parent_job_id = "";
  task_name = "";
  artifact_version = "";
  status = pending;
  phase = run;
  priority = pos 0;
  cost = pos 0;
  attempts = pos 0;
  payload = [];
  result = [];
  failure_reason = "";
  webhook_url = "";
  webhook_events = [];
  webhook_headers = [];
  created_at = 0;
  updated_at = 0;
  completed_at = none;
  duration = none;
}
