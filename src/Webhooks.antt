-- ===== src/Webhooks.antt =====
-- The webhook dispatcher (manager/webhooks/dispatcher.go) on the memory store. encoding/json and the
-- HTTP client are arguments, as are the identifiers that lowbit.dev/ulid makes. `wakeCh` has a
-- buffer of one.
pub mod Backoff
pub mod Delivery
mod Tests
use workforce.Prelude.{
  ℕ, zero, suc, ◌+◌, ◌-◌, ◌*◌, ◌^◌, ◌<◌, String, Bool, true, false, not, ◌&&◌, ◌||◌, Option, none,
  some, List, [], ◌∷◌, length, leb, ltb, if◌then◌else◌, ◌==◌, string_eq, nat_eq,
}
use workforce.Prelude.Int.{ℤ, pos, negsuc, pos_part, ◌+ℤ◌, ◌-ℤ◌, ◌*ℤ◌, wrap64, ltb_ℤ}
use workforce.Contract.Job.{Job, Time, Bytes}
use workforce.Manager.Config.{WebhookDispatcherConfig, or_default, second, minute}
use workforce.Store.{
  MemStore, WebhookEntry, enqueue_webhook, dequeue_webhooks, ack_webhook, nack_webhook,
}

-- The `data` of an event, one constructor for each `Fire` method.
pub data EventData : Type 0 where
  proposing_data : String → ℤ → String → EventData
  running_data : String → EventData
  failed_data : String → EventData
  completed_data : Bytes → EventData
  cancelled_data : EventData
  progress_data : ℤ → ℤ → EventData

pub record WebhookEvent : Type 0 where
  pub event : String
  pub job_id : String
  pub parent_job_id : String
  pub timestamp : Time
  pub body : EventData

-- `json.Marshal` on an event; an error is `none`.
abbrev pub Marshal : Type 0
Marshal = WebhookEvent → Option Bytes

abbrev pub event_name : EventData → String
event_name (proposing_data task cost worker) = "task.proposing"
event_name (running_data worker) = "job.running"
event_name (failed_data reason) = "job.failed"
event_name (completed_data result) = "job.completed"
event_name cancelled_data = "job.cancelled"
event_name (progress_data completed total) = "job.progress"

pub slice_contains : List String → String → Bool
slice_contains [] v = false
slice_contains (item ∷ s) v = item == v || slice_contains s v

pub should_dispatch_event : Job → String → Bool
should_dispatch_event job event =
    if job.webhook_url == ""
    then false
    else not (leb 1 (length job.webhook_events) && not (slice_contains job.webhook_events event))

abbrev pub envelope : Time → Job → EventData → WebhookEvent
envelope now job body = record {
  event = event_name body;
  job_id = job.id;
  parent_job_id = job.parent_job_id;
  timestamp = now;
  body = body;
}

abbrev pub new_entry : Time → String → Job → String → Bytes → WebhookEntry
new_entry now id job event payload = record {
  id = id;
  job_id = job.id;
  url = job.webhook_url;
  event = event;
  payload = payload;
  headers = job.webhook_headers;
  attempts = pos 0;
  next_attempt_at = now;
  created_at = now;
}

-- The entry that `enqueue` stores, if it gets that far.
unfoldable pub entry_of : Marshal → Time → String → Job → EventData → Option WebhookEntry
entry_of marshal now id job body =
    let event = event_name body in
    let made : Option WebhookEntry = elim (marshal (envelope now job body)) [
      | none ↦ none
      | some payload ↦ some (new_entry now id job event payload)
    ] in
    if job.webhook_url == ""
    then none
    else if leb 1 (length job.webhook_events) && not (slice_contains job.webhook_events event)
    then none
    else made

-- Whether the delivery loop was woken, and the store.
unfoldable pub enqueue : Marshal → Time → String → Job → EventData → MemStore → Bool × MemStore
enqueue marshal now id job body m = elim (entry_of marshal now id job body) [
  | none ↦ (false, m)
  | some entry ↦ (true, enqueue_webhook entry m)
]

pub new_webhook_dispatcher : WebhookDispatcherConfig → WebhookDispatcherConfig
new_webhook_dispatcher cfg = record cfg {
  webhook_timeout = if ltb_ℤ (pos 0) cfg.webhook_timeout then cfg.webhook_timeout else pos second;
  webhook_max_backoff =
      if ltb_ℤ (pos 0) cfg.webhook_max_backoff then cfg.webhook_max_backoff else pos (5 * minute);
}

-- `time.Duration(math.Pow(2, float64(attempts-1))) * time.Second`. A float64 holds the power
-- exactly; what the conversion gives from 2^63 on is left to the machine, and is `converted`.
pub raw_backoff : (ℕ → ℤ) → ℤ → ℤ
raw_backoff converted (negsuc n) = pos 0
raw_backoff converted (pos zero) = pos 0
raw_backoff converted (pos (suc n)) =
    let power = if ltb n 63 then pos (2 ^ n) else converted n in wrap64 (power *ℤ pos second)

pub backoff_of : (ℕ → ℤ) → WebhookDispatcherConfig → ℤ → ℤ
backoff_of converted cfg attempts =
    let backoff = raw_backoff converted attempts in
    if ltb_ℤ cfg.webhook_max_backoff backoff then cfg.webhook_max_backoff else backoff

-- `now.Add(d)`, for times after 1970.
abbrev pub time_add : Time → ℤ → Time
time_add now d = pos_part (pos now +ℤ d)

-- The time of the next attempt, 0 for the zero time, and the store.
pub schedule_retry :
    (ℕ → ℤ) → WebhookDispatcherConfig → Time → WebhookEntry → MemStore → Time × MemStore
schedule_retry converted cfg now e m =
    let attempts = wrap64 (e.attempts +ℤ pos 1) in
    let next = time_add now (backoff_of converted cfg attempts) in
    if ltb_ℤ (pos 0) cfg.max_webhook_attempts && not (ltb_ℤ attempts cfg.max_webhook_attempts)
    then (0, ack_webhook e.id m)
    else (next, (nack_webhook e.id attempts next m).1)

-- The earlier of two times, of which 0 is none.
pub earliest : Time → Time → Time
earliest next next_wake =
    if not (next == 0) && (next_wake == 0 || ltb next next_wake) then next else next_wake

-- `delivers` says which requests are answered with 200. The earliest retry, 0 for none.
pub process_entries :
    (ℕ → ℤ)
    → WebhookDispatcherConfig
    → Time
    → (WebhookEntry → Bool)
    → List WebhookEntry
    → Time
    → MemStore
    → Time × MemStore
process_entries converted cfg now delivers [] next_wake m = (next_wake, m)
process_entries converted cfg now delivers (e ∷ es) next_wake m =
    let (next, m') = schedule_retry converted cfg now e m in
    let kept = process_entries converted cfg now delivers es (earliest next next_wake) m' in
    let done = process_entries converted cfg now delivers es next_wake (ack_webhook e.id m) in
    if delivers e then done else kept

-- How long the loop sleeps, and the store.
pub process_pending :
    (ℕ → ℤ) → WebhookDispatcherConfig → Time → (WebhookEntry → Bool) → MemStore → ℤ × MemStore
process_pending converted cfg now delivers m =
    let (next_wake, m') = process_entries converted cfg now delivers (dequeue_webhooks now m) 0 m in
    let delay = pos next_wake -ℤ pos now in
    (if next_wake == 0 then pos (60 * minute) else if ltb_ℤ delay (pos 0) then pos 0 else delay, m')
