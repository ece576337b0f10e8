-- ===== src/Webhooks/Backoff.antt =====
-- manager/webhooks/dispatcher.go: the delay before the next delivery.
use workforce.Prelude.{◌≡◌, ◌≤◌, ◌-◌, ◌*◌, ◌^◌, ◌+◌, ℕ, suc, zero, true, arith, ltb, if◌then◌else◌}
use workforce.Prelude.Int.{ℤ, pos, ◌*ℤ◌, wrap64, ltb_ℤ}
use workforce.Manager.Config.{WebhookDispatcherConfig, second}
use workforce.Webhooks.{raw_backoff, backoff_of}

pow_mono : (k n : ℕ) → 2 ^ k ≤ 2 ^ (n + k)
pow_mono k zero = let same : 0 + k ≡ k = omega arith in rw same (omega arith)
pow_mono k (suc n) =
    let same : suc n + k ≡ suc (n + k) = omega arith in rw same (omega (arith, pow_mono k n))

scaled : (p : ℕ) → p ≤ 2 ^ 33 → wrap64 (pos p *ℤ pos second) ≡ pos (p * second)
unfolding ◌*ℤ◌
scaled p h = ground arith

raw_in_range :
    (converted : ℕ → ℤ) (k : ℕ)
    → k ≤ 33
    → raw_backoff converted (pos (suc k)) ≡ pos (2 ^ k * second)
unfolding raw_backoff
raw_in_range converted k h =
    let same : 33 - k + k ≡ 33 = omega arith in
    let p : 2 ^ k ≤ 2 ^ 33 = rw same at (pow_mono k (33 - k)) in
    let small : ltb k 63 ≡ true = ground arith in rw small (scaled (2 ^ k) p)

-- Up to the 34th attempt the delay doubles from one second on, up to the configured maximum.
pub backoff_of_exact :
    (converted : ℕ → ℤ) (cfg : WebhookDispatcherConfig) (k : ℕ)
    → k ≤ 33
    → backoff_of converted cfg (pos (suc k)) ≡ (
        if ltb_ℤ cfg.webhook_max_backoff (pos (2 ^ k * second))
        then cfg.webhook_max_backoff
        else pos (2 ^ k * second))
unfolding backoff_of
backoff_of_exact converted cfg k h = rw (raw_in_range converted k h)
