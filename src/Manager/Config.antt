-- ===== src/Manager/Config.antt =====
-- manager/config.go: `Config`, its defaults and its validation. Whether an interface or a function
-- is set is a flag, or `none`; the logger, the domain and the signing of links are left out.
pub mod Defaults
mod Tests
use workforce.Prelude.{
  ℕ, ◌*◌, String, Bool, true, false, not, ◌&&◌, ◌||◌, Option, none, some, leb, is_some,
  if◌then◌else◌, ◌==◌, nat_eq, string_eq,
}
use workforce.Prelude.Int.{ℤ, pos, ltb_ℤ, eqb_ℤ}
use workforce.Contract.Task.{RetryPolicy}
use workforce.Manager.Artifact.{ArtifactRegistry}

pub record ExitCodeRange : Type 0 where
  pub from : ℕ
  pub to : ℕ

-- webhooks/dispatcher.go
pub record WebhookDispatcherConfig : Type 0 where
  pub webhook_timeout : ℤ
  pub webhook_max_backoff : ℤ
  pub max_webhook_attempts : ℤ

-- manager/worker_selector.go has these two.
pub data WorkerSelector : Type 0 where
  least_loaded_selector round_robin_selector : WorkerSelector

pub record Config : Type 0 where
  pub has_job_store : Bool
  pub has_task_store : Bool
  pub has_log_store : Bool
  pub has_run_store : Bool
  pub has_webhook_store : Bool
  pub artifacts_registry : Option ArtifactRegistry
  pub worker_selector : Option WorkerSelector
  pub heartbeat_timeout : ℤ
  pub worker_connect_path : String
  pub has_worker_auth : Bool
  pub has_client_auth : Bool
  pub no_worker_auth : Bool
  pub no_client_auth : Bool
  pub webhook : WebhookDispatcherConfig
  pub max_artifact_upload_size : ℤ
  pub artifact_signed_url_ttl : ℤ
  pub default_retry_policy : RetryPolicy
  pub starvation_timeout : ℤ
  pub has_resource_shortage : Bool
  pub scale_up_cooldown : ℤ
  pub idle_worker_threshold : ℤ
  pub has_idle_worker : Bool
  pub scale_down_cooldown : ℤ
  pub idle_worker_evaluation_interval : ℤ
  pub default_panic_exit_code : ℕ
  pub default_do_not_retry_exit_code_range : ExitCodeRange

abbrev pub second : ℕ
second = 1_000_000_000

abbrev pub minute : ℕ
minute = 60 * second

-- `if x == 0 { x = d }`
pub or_default : ℤ → ℕ → ℤ
or_default x d = if eqb_ℤ x (pos 0) then pos d else x

-- The last two tests of `applyDefaults`, in their order: both assign to `from`.
pub default_range : ExitCodeRange → ExitCodeRange
default_range r =
    let from = if r.from == 0 then 200 else r.from in
    record { from = if r.to == 0 then 254 else from; to = r.to }

pub default_policy : RetryPolicy → RetryPolicy
default_policy p = record {
  max_attempts = or_default p.max_attempts 3;
  retry_delay = or_default p.retry_delay second;
  max_retry_delay = or_default p.max_retry_delay minute;
}

pub default_selector : Option WorkerSelector → Option WorkerSelector
default_selector none = some least_loaded_selector
default_selector (some s) = some s

-- `c.Webhook` is set.
pub apply_defaults : Config → Config
apply_defaults c = record c {
  worker_selector = default_selector c.worker_selector;
  idle_worker_threshold = or_default c.idle_worker_threshold (5 * minute);
  heartbeat_timeout = or_default c.heartbeat_timeout (30 * second);
  webhook = record c.webhook {
    webhook_timeout = or_default c.webhook.webhook_timeout second;
    webhook_max_backoff = or_default c.webhook.webhook_max_backoff (5 * minute);
  };
  max_artifact_upload_size = or_default c.max_artifact_upload_size (500 * 1024 * 1024);
  artifact_signed_url_ttl = or_default c.artifact_signed_url_ttl (60 * minute);
  default_retry_policy = default_policy c.default_retry_policy;
  starvation_timeout = or_default c.starvation_timeout (5 * minute);
  scale_up_cooldown = or_default c.scale_up_cooldown (30 * second);
  scale_down_cooldown = or_default c.scale_down_cooldown (60 * second);
  idle_worker_evaluation_interval = or_default c.idle_worker_evaluation_interval (15 * minute);
  worker_connect_path =
      if c.worker_connect_path == "" then "/workers/connect" else c.worker_connect_path;
  default_panic_exit_code = if c.default_panic_exit_code == 0 then 2 else c.default_panic_exit_code;
  default_do_not_retry_exit_code_range = default_range c.default_do_not_retry_exit_code_range;
}

pub data ConfigError : Type 0 where
  no_job_store no_task_store no_log_store no_run_store no_webhook_store no_registry : ConfigError
  no_worker_auth_func no_client_auth_func : ConfigError

-- The error, or none.
pub validate : Config → Option ConfigError
validate c =
    if not c.has_job_store
    then some no_job_store
    else if not c.has_task_store
    then some no_task_store
    else if not c.has_log_store
    then some no_log_store
    else if not c.has_run_store
    then some no_run_store
    else if not c.has_webhook_store
    then some no_webhook_store
    else if not (is_some c.artifacts_registry)
    then some no_registry
    else if not c.has_worker_auth && not c.no_worker_auth
    then some no_worker_auth_func
    else if not c.has_client_auth && not c.no_client_auth
    then some no_client_auth_func
    else none

-- worker_conn_handler.go, in `handleJobError`: the codes that no retry follows.
pub is_final_exit : Config → ℤ → Bool
is_final_exit c code =
    let range = c.default_do_not_retry_exit_code_range in
    eqb_ℤ code (pos c.default_panic_exit_code)
    || (not (ltb_ℤ code (pos range.from)) && not (ltb_ℤ (pos range.to) code))
