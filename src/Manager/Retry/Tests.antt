-- ===== src/Manager/Retry/Tests.antt =====
-- manager/worker_conn_handler.go, `retryDelay`, on a delay of one second capped at a minute.
use workforce.Prelude.{◌≡◌, refl, arith}
use workforce.Prelude.Int.{pos, negsuc, ◌+ℤ◌}
use workforce.Contract.Task.{RetryPolicy}
use workforce.Manager.Retry.{retry_delay, double}
use workforce.Manager.Retry.Delay.{retry_delay-geometric, retry_delay-vanishes}

abbrev policy : RetryPolicy
policy = record {
  max_attempts = pos 100;
  retry_delay = pos 1_000_000_000;
  max_retry_delay = pos 60_000_000_000;
}

retry_delay-geometric_example : retry_delay policy (pos 4) ≡ pos 8_000_000_000
retry_delay-geometric_example =
    retry_delay-geometric policy 1_000_000_000 60_000_000_000 3 refl refl (ground arith)

retry_delay-vanishes_example : retry_delay policy (pos 65) ≡ pos 0
retry_delay-vanishes_example =
    retry_delay-vanishes policy 65 (ground arith, ground arith) (ground arith)

-- The cap does not hold a negative delay.
retry_delay_35 : retry_delay policy (pos 35) ≡ negsuc 1_266_874_889_709_551_615
unfolding retry_delay double ◌+ℤ◌
retry_delay_35 = refl
