-- ===== src/Manager/Config/Defaults.antt =====
-- manager/config.go: what the defaults and the validation leave.
use workforce.Prelude.{
  ◌≡◌, ◌↔◌, ℕ, true, ◌||◌, none, some, arith, ◌==◌, nat_eq, is_some, String, string_eq, eq_iff,
  Option, refl, if◌then◌else◌, some,
}
use workforce.Prelude.Int.{ℤ, pos, eqb_ℤ}
use workforce.Contract.Task.{RetryPolicy}
use workforce.Manager.Config.{
  Config, apply_defaults, validate, default_range, default_policy, is_final_exit, or_default,
  WorkerSelector, default_selector, ExitCodeRange,
}

or_default-or_default : (x : ℤ) (d : ℕ) → or_default (or_default x d) d ≡ or_default x d
unfolding or_default
or_default-or_default x d = ground arith

default_policy_idem : (p : RetryPolicy) → default_policy (default_policy p) ≡ default_policy p
unfolding default_policy
default_policy_idem p = simp (or_default-or_default)

-- Where neither the upper bound of the range of exit codes nor the exit code of a panic is set, the
-- defaults leave a range that is empty: no exit code is final but 2, the default one of a panic.
pub is_final_exit-apply_defaults :
    (c : Config) (code : ℤ)
    → c.default_do_not_retry_exit_code_range.to ≡ 0
    → c.default_panic_exit_code ≡ 0
    → is_final_exit (apply_defaults c) code ≡ eqb_ℤ code (pos 2)
unfolding is_final_exit apply_defaults default_range
is_final_exit-apply_defaults c (pos n) t p = rw (t, p) (ground arith)
is_final_exit-apply_defaults c code t p = ground arith

default_range_idem : (r : ExitCodeRange) → default_range (default_range r) ≡ default_range r
unfolding default_range
default_range_idem r = ground arith

-- What the manager needs to start.
pub record IsComplete (c : Config) : Type 0 where
  pub stores :
      (c.has_job_store ≡ true)
      × (c.has_task_store ≡ true)
      × (c.has_log_store ≡ true)
      × (c.has_run_store ≡ true)
      × (c.has_webhook_store ≡ true)
  pub registry : is_some c.artifacts_registry ≡ true
  pub worker_auth : (c.has_worker_auth || c.no_worker_auth) ≡ true
  pub client_auth : (c.has_client_auth || c.no_client_auth) ≡ true

-- The validation passes exactly if every store and the registry are set and each of the two kinds
-- of access is checked or declared open.
pub validate_iff : (c : Config) → (validate c ≡ none) ↔ IsComplete c
unfolding validate
validate_iff c = ground arith

or_path :
    (s d : String)
    → (if (if s == "" then d else s) == "" then d else (if s == "" then d else s))
      ≡ (if s == "" then d else s)
or_path s d = ground (arith, eq_iff s "", eq_iff d "")

or_code :
    (n d : ℕ)
    → (if (if n == 0 then d else n) == 0 then d else (if n == 0 then d else n))
      ≡ (if n == 0 then d else n)
or_code n d = ground arith

or_selector :
    (o : Option WorkerSelector) → default_selector (default_selector o) ≡ default_selector o
unfolding default_selector
or_selector none = refl
or_selector (some s) = refl

-- The defaults fill in only what is missing: a second time they change nothing.
pub apply_defaults-apply_defaults :
    (c : Config) → apply_defaults (apply_defaults c) ≡ apply_defaults c
unfolding apply_defaults
apply_defaults-apply_defaults c =
    simp (
      or_default-or_default, default_policy_idem, default_range_idem, or_path, or_code, or_selector,
    )
