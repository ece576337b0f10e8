-- ===== src/Webhooks/Tests.antt =====
-- manager/webhooks/dispatcher.go on a queue of two entries, one of which is due.
use workforce.Prelude.{
  ℕ, String, ◌≡◌, refl, true, false, [], ◌∷◌, string_eq, arith, ◌*◌, ◌^◌, if◌then◌else◌,
}
use workforce.Prelude.Int.{ℤ, pos, ◌*ℤ◌, ltb_ℤ}
use workforce.Prelude.Dict.{lookup}
use workforce.Contract.Job.{Job, zero_job}
use workforce.Manager.Config.{WebhookDispatcherConfig}
use workforce.Store.{MemStore, WebhookEntry, new_mem_store}
use workforce.Webhooks.{
  should_dispatch_event, slice_contains, raw_backoff, backoff_of, process_pending,
}
use workforce.Webhooks.Backoff.{backoff_of_exact}
use workforce.Webhooks.Delivery.{fate, lookup-process_pending}

abbrev converted : ℕ → ℤ
converted n = pos 0

abbrev cfg : WebhookDispatcherConfig
cfg = record {
  webhook_timeout = pos 1_000_000_000;
  webhook_max_backoff = pos 300_000_000_000;
  max_webhook_attempts = pos 3;
}

abbrev entry : String → ℕ → WebhookEntry
entry id due = record {
  id = id;
  job_id = "job-1";
  url = "https://example.com/hook";
  event = "job.failed";
  payload = [];
  headers = [];
  attempts = pos 1;
  next_attempt_at = due;
  created_at = 5;
}

abbrev queued : MemStore
queued = record new_mem_store { webhooks = ("a", entry "a" 10) ∷ ("b", entry "b" 900) ∷ [] }

backoff_of_exact_example : backoff_of converted cfg (pos 5) ≡ (
    if ltb_ℤ (pos 300_000_000_000) (pos (2 ^ 4 * 1_000_000_000))
    then pos 300_000_000_000
    else pos (2 ^ 4 * 1_000_000_000))
backoff_of_exact_example = backoff_of_exact converted cfg 4 (omega arith)

lookup-process_pending_example :
    lookup "a" (process_pending converted cfg 20 (λ e. false) queued).1.webhooks
    ≡ fate converted cfg 20 (λ e. false) (lookup "a" queued.webhooks)
unfolding new_mem_store
lookup-process_pending_example =
    lookup-process_pending converted cfg 20 (λ e. false) queued "a"
      (refl, (refl, tt), (refl, tt, tt))

-- The multiplication by a second wraps: after 35 failures the delay is negative, and the cap, which
-- is an upper bound, does not apply.
wrapped : ltb_ℤ (backoff_of converted cfg (pos 35)) (pos 0) ≡ true
unfolding backoff_of raw_backoff ◌*ℤ◌
wrapped = refl

-- An event that the job does not list is not sent.
abbrev job : Job
job = record zero_job {
  webhook_url = "https://example.com/hook";
  webhook_events = "job.completed" ∷ [];
}

unlisted : should_dispatch_event job "job.failed" ≡ false
unfolding should_dispatch_event slice_contains
unlisted = refl
