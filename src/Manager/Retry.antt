-- ===== src/Manager/Retry.antt =====
-- manager/worker_conn_handler.go, `mergeRetryPolicy` and `retryDelay`.
pub mod Delay
mod Tests
use workforce.Prelude.{ℕ, zero, suc, ◌-◌, Bool, ◌&&◌, if◌then◌else◌}
use workforce.Prelude.Int.{ℤ, pos, pos_part, ◌+ℤ◌, wrap64, ltb_ℤ, eqb_ℤ}
use workforce.Contract.Task.{RetryPolicy}

pub merge_retry_policy : RetryPolicy → RetryPolicy → RetryPolicy
merge_retry_policy task defaults = record {
  max_attempts =
      if eqb_ℤ task.max_attempts (pos 0) then defaults.max_attempts else task.max_attempts;
  retry_delay = if eqb_ℤ task.retry_delay (pos 0) then defaults.retry_delay else task.retry_delay;
  max_retry_delay =
      if eqb_ℤ task.max_retry_delay (pos 0) then defaults.max_retry_delay else task.max_retry_delay;
}

-- `delay *= 2`, `n` times, on an `int64`.
pub double : ℕ → ℤ → ℤ
double zero delay = delay
double (suc n) delay = double n (wrap64 (delay +ℤ delay))

-- `for i := 1; i < attempt; i++` runs `attempt - 1` times, and not at all below 1.
pub retry_delay : RetryPolicy → ℤ → ℤ
retry_delay p attempt =
    let delay = double (pos_part attempt - 1) p.retry_delay in
    if eqb_ℤ p.retry_delay (pos 0)
    then pos 0
    else if ltb_ℤ (pos 0) p.max_retry_delay && ltb_ℤ p.max_retry_delay delay
    then p.max_retry_delay
    else delay
