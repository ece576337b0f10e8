-- ===== src/Manager/Config/Tests.antt =====
-- manager/config.go on a configuration that sets no bounds for the exit codes.
use workforce.Prelude.{◌≡◌, refl, true, false, none, [], some}
use workforce.Prelude.Int.{pos, eqb_ℤ}
use workforce.Manager.Config.{
  Config, apply_defaults, default_policy, is_final_exit, validate, or_default,
}
use workforce.Manager.Config.Defaults.{
  is_final_exit-apply_defaults, validate_iff, apply_defaults-apply_defaults,
}

abbrev bare : Config
bare = record {
  has_job_store = true;
  has_task_store = true;
  has_log_store = true;
  has_run_store = true;
  has_webhook_store = true;
  artifacts_registry = some (record {
    resolve = λ a o r. none;
    resolve_version = λ a v o r. none;
    list_platforms = λ a v. some [];
  });
  worker_selector = none;
  heartbeat_timeout = pos 0;
  worker_connect_path = "";
  has_worker_auth = true;
  has_client_auth = false;
  no_worker_auth = false;
  no_client_auth = true;
  webhook = record {
    webhook_timeout = pos 0;
    webhook_max_backoff = pos 0;
    max_webhook_attempts = pos 0;
  };
  max_artifact_upload_size = pos 0;
  artifact_signed_url_ttl = pos 0;
  default_retry_policy = record {
    max_attempts = pos 5;
    retry_delay = pos 0;
    max_retry_delay = pos 0;
  };
  starvation_timeout = pos 0;
  has_resource_shortage = false;
  scale_up_cooldown = pos 0;
  idle_worker_threshold = pos 0;
  has_idle_worker = false;
  scale_down_cooldown = pos 0;
  idle_worker_evaluation_interval = pos 0;
  default_panic_exit_code = 0;
  default_do_not_retry_exit_code_range = record { from = 0; to = 0 };
}

is_final_exit-apply_defaults_example :
    is_final_exit (apply_defaults bare) (pos 210) ≡ eqb_ℤ (pos 210) (pos 2)
is_final_exit-apply_defaults_example = is_final_exit-apply_defaults bare (pos 210) refl refl

validate_iff_example : validate bare ≡ none
validate_iff_example = (validate_iff bare).1 (record {
  stores = (refl, refl, refl, refl, refl);
  registry = refl;
  worker_auth = refl;
  client_auth = refl;
})

apply_defaults-apply_defaults_example : apply_defaults (apply_defaults bare) ≡ apply_defaults bare
apply_defaults-apply_defaults_example = apply_defaults-apply_defaults bare

-- A given number of attempts is kept, and what is missing is filled in.
keeps : (apply_defaults bare).default_retry_policy ≡ record {
  max_attempts = pos 5;
  retry_delay = pos 1_000_000_000;
  max_retry_delay = pos 60_000_000_000;
}
unfolding apply_defaults default_policy or_default
keeps = refl
