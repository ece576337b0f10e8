-- ===== src/Store.antt =====
-- The memory store (manager/store/memstore.go): jobs, tasks, runs, logs with their subscribers, and
-- webhooks. A record that Go copies in and out is a value here; `mu` and `logMu` make each operation
-- one step, but for the sends of `AppendRunLog`, which are a step of their own. A listing follows
-- the order of the list that it is given as the map, also among elements that its sort does not
-- order; Go ranges over a map in another order in each call, which is another list in each call
-- (Listing/Shuffles).
pub mod Listing
pub mod Logs
pub mod Updates
mod Tests
use Prim.Native.String.{compare}
use text.Mathlib.Text.{is_lt}
use workforce.Prelude.{
  ℕ, suc, ◌+◌, ◌-◌, ◌^◌, ◌≡◌, String, Bool, true, false, not, ◌&&◌, ◌||◌, Option, none, some, List,
  [], ◌∷◌, ◌++◌, map, length, take, drop, leb, ltb, is_some, if◌then◌else◌, ◌==◌, nat_eq, string_eq,
}
use workforce.Prelude.Int.{ℤ, pos, ltb_ℤ}
use workforce.Prelude.Dict.{Dict, lookup, insert, delete}
use workforce.Contract.Job.{
  Job, JobStatus, pending, proposing, provisioning, running, Time, Bytes, status_eq,
}
use workforce.Contract.Task.{Task, JobRun}

-- manager/webhooks/store.go, `WebhookEntry`
pub record WebhookEntry : Type 0 where
  pub id : String
  pub job_id : String
  pub url : String
  pub event : String
  pub payload : Bytes
  pub headers : Dict String String
  pub attempts : ℤ
  pub next_attempt_at : Time
  pub created_at : Time

-- A `chan []byte` with a buffer of 64.
pub record Chan : Type 0 where
  pub buffer : List Bytes
  pub is_closed : Bool

-- `panicked` is set when a channel is closed twice or sent to when closed.
pub record MemStore : Type 0 where
  pub jobs : Dict String Job
  pub task_defs : Dict String Task
  pub runs : Dict String JobRun
  pub run_logs : Dict String Bytes
  pub run_subscribers : Dict String (List ℕ)
  pub job_subscribers : Dict String (List ℕ)
  pub chans : Dict ℕ Chan
  pub next_chan : ℕ
  pub webhooks : Dict String WebhookEntry
  pub panicked : Bool

unfoldable pub new_mem_store : MemStore
new_mem_store = record {
  jobs = [];
  task_defs = [];
  runs = [];
  run_logs = [];
  run_subscribers = [];
  job_subscribers = [];
  chans = [];
  next_chan = 0;
  webhooks = [];
  panicked = false;
}

-- `sort.Slice`
module _ {ℓ} {A : Type ℓ} where
  unfoldable pub insert_sorted : (A → A → Bool) → A → List A → List A
  insert_sorted before x [] = x ∷ []
  insert_sorted before x (y ∷ ys) =
      let rest = insert_sorted before x ys in if before x y then x ∷ y ∷ ys else y ∷ rest

  unfoldable pub sort_slice : (A → A → Bool) → List A → List A
  sort_slice before [] = []
  sort_slice before (x ∷ xs) = insert_sorted before x (sort_slice before xs)

  abbrev pub select : (A → Bool) → Dict String A → List A
  select keep [] = []
  select keep ((k, a) ∷ m) = let rest = select keep m in if keep a then a ∷ rest else rest

-- JobStore; an error is `none`, or false from an operation that has no other result.
unfoldable pub save_job : Job → MemStore → MemStore
save_job job m = record m { jobs = insert job.id job m.jobs }

unfoldable pub get_job : String → MemStore → Option Job
get_job id m = lookup id m.jobs

unfoldable pub update_job : String → (Job → Job) → MemStore → Bool × MemStore
update_job id mutate m = elim (lookup id m.jobs) [
  | none ↦ (false, m)
  | some job ↦ (true, record m { jobs = insert id (mutate job) m.jobs })
]

pub newer : Job → Job → Bool
newer a b = ltb b.created_at a.created_at

pub root_jobs : MemStore → List Job
root_jobs m = sort_slice newer (select (λ j. j.parent_job_id == "") m.jobs)

-- The place after the job that the cursor names, and 0 if there is none.
pub place_after : String → List Job → Option ℕ
place_after cursor [] = none
place_after cursor (j ∷ js) =
    let later = place_after cursor js in
    if j.id == cursor then some 1 else elim later [ none ↦ none | some n ↦ some (suc n) ]

pub start_of : String → List Job → ℕ
start_of cursor all =
    if cursor == "" then 0 else elim (place_after cursor all) [ none ↦ 0 | some n ↦ n ]

-- `page[len(page)-1].ID`
pub last_id : List Job → Option String
last_id [] = none
last_id (j ∷ []) = some j.id
last_id (j ∷ k ∷ js) = last_id (k ∷ js)

-- A page that others follow, with its cursor.
pub with_cursor : List Job → Option (List Job × String)
with_cursor page = elim (last_id page) [ none ↦ none | some id ↦ some (page, id) ]

-- The part of `ListJobs` after the sort: a page and the next cursor, or `none` where it panics. A
-- negative limit panics too, and so does a sum that wraps to a negative end.
pub page_of : String → ℕ → List Job → Option (List Job × String)
page_of cursor limit all =
    let begin = start_of cursor all in
    let stop = if ltb (length all) (begin + limit) then length all else begin + limit in
    let page = take (stop - begin) (drop begin all) in
    if leb (length all) begin
    then some ([], "")
    else if leb (2 ^ 63) (begin + limit)
    then none
    else if ltb stop (length all)
    then with_cursor page
    else some (page, "")

pub list_jobs : String → ℕ → MemStore → Option (List Job × String)
list_jobs cursor limit m = page_of cursor limit (root_jobs m)

unfoldable pub list_pending_jobs : MemStore → List Job
list_pending_jobs m =
    sort_slice (λ a b. ltb_ℤ b.priority a.priority) (select (λ j. j.status == pending) m.jobs)

unfoldable pub list_recoverable_jobs : MemStore → List Job
list_recoverable_jobs m =
    select (λ j. j.status == proposing || j.status == provisioning || j.status == running) m.jobs

unfoldable pub list_child_jobs : String → MemStore → List Job
list_child_jobs parent_job_id m =
    sort_slice (λ a b. ltb a.created_at b.created_at)
      (select (λ j. j.parent_job_id == parent_job_id) m.jobs)

pub count_jobs : JobStatus → Dict String Job → ℕ
count_jobs s [] = 0
count_jobs s ((k, j) ∷ m) = (if j.status == s then 1 else 0) + count_jobs s m

-- A status that no job has is missing from the map, which reads as 0.
pub count_jobs_by_status : MemStore → JobStatus → ℕ
count_jobs_by_status m s = count_jobs s m.jobs

-- TaskStore
unfoldable pub save_task : Task → MemStore → MemStore
save_task task m = record m { task_defs = insert task.name task m.task_defs }

unfoldable pub get_task : String → MemStore → Option Task
get_task name m = lookup name m.task_defs

pub list_tasks : MemStore → List Task
list_tasks m = sort_slice (λ a b. is_lt (compare a.name b.name)) (select (λ t. true) m.task_defs)

unfoldable pub update_task : String → (Task → Task) → MemStore → Bool × MemStore
update_task name mutate m = elim (lookup name m.task_defs) [
  | none ↦ (false, m)
  | some task ↦ (true, record m { task_defs = insert name (mutate task) m.task_defs })
]

unfoldable pub delete_task : String → MemStore → Bool × MemStore
delete_task name m = elim (lookup name m.task_defs) [
  | none ↦ (false, m)
  | some task ↦ (true, record m { task_defs = delete name m.task_defs })
]

-- RunStore
unfoldable pub create_run : JobRun → MemStore → MemStore
create_run run m = record m { runs = insert run.id run m.runs }

unfoldable pub update_run : String → (JobRun → JobRun) → MemStore → Bool × MemStore
update_run id mutate m = elim (lookup id m.runs) [
  | none ↦ (false, m)
  | some run ↦ (true, record m { runs = insert id (mutate run) m.runs })
]

unfoldable pub get_run : String → MemStore → Option JobRun
get_run id m = lookup id m.runs

pub run_before : JobRun → JobRun → Bool
run_before a b =
    if a.started_at == 0 || b.started_at == 0
    then ltb_ℤ a.attempt b.attempt
    else ltb a.started_at b.started_at

pub list_job_runs : String → MemStore → List JobRun
list_job_runs job_id m = sort_slice run_before (select (λ r. r.job_id == job_id) m.runs)

-- WebhookStore
unfoldable pub enqueue_webhook : WebhookEntry → MemStore → MemStore
enqueue_webhook entry m = record m { webhooks = insert entry.id entry m.webhooks }

unfoldable pub dequeue_webhooks : Time → MemStore → List WebhookEntry
dequeue_webhooks now m = select (λ e. leb e.next_attempt_at now) m.webhooks

unfoldable pub ack_webhook : String → MemStore → MemStore
ack_webhook id m = record m { webhooks = delete id m.webhooks }

unfoldable pub nack_webhook : String → ℤ → Time → MemStore → Bool × MemStore
nack_webhook id attempts next_attempt_at m = elim (lookup id m.webhooks) [
  | none ↦ (false, m)
  | some e ↦ (
    true,
    record m {
      webhooks =
          insert id (record e { attempts = attempts; next_attempt_at = next_attempt_at })
            m.webhooks;
    },
  )
]
