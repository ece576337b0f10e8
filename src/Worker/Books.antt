-- ===== src/Worker/Books.antt =====
-- worker/handle_message.go: what the job tables of a worker cost, and how that changes with an entry.
use workforce.Prelude.{
  ℕ, String, ◌+◌, ◌^◌, ◌≤◌, ◌<◌, ◌≡◌, true, false, none, some, ap, ◌∙◌, ◌-◌, arith, string_eq,
  nat_eq,
}
use workforce.Prelude.Int.{
  ℤ, pos, pos_part, neg_part, ◌+ℤ◌, ◌-ℤ◌, wrap64, ltb_ℤ, add_pos64, sub_pos64,
}
use workforce.Prelude.Dict.{
  Dict, lookup, insert, delete, IsMap, AllValues, total, insert-IsMap, insert-AllValues,
  delete-IsMap, delete-AllValues, lookup-AllValues, total-insert, total-insert_bound, total-delete,
}
use workforce.Contract.Worker.{worker_state_eq}
use workforce.Worker.{ProposeMessage, ActiveTask}

-- The cost of a proposal, and of a task.
abbrev pub price : ProposeMessage → ℕ
price m = pos_part m.cost

abbrev pub load : ActiveTask → ℕ
load t = pos_part t.cost

abbrev pub IsPriced : ProposeMessage → Type 0
IsPriced m = neg_part m.cost ≡ 0

abbrev pub IsLoaded : ActiveTask → Type 0
IsLoaded t = neg_part t.cost ≡ 0

-- `used` is what the two tables hold, and fits the capacity.
pub record Balanced (jobs : Dict String ProposeMessage) (tasks : Dict String ActiveTask)
    (used capacity : ℤ) : Type 0 where
  pub jobs_map : IsMap jobs
  pub tasks_map : IsMap tasks
  pub priced : AllValues IsPriced jobs
  pub loaded : AllValues IsLoaded tasks
  pub exact : used ≡ pos (total price jobs + total load tasks)
  pub within : total price jobs + total load tasks ≤ pos_part capacity
  pub small : pos_part capacity < 2 ^ 62
  pub positive : neg_part capacity ≡ 0

-- A proposal enters with its price.
pub insert_job :
    (jobs : Dict String ProposeMessage) (tasks : Dict String ActiveTask) (used capacity : ℤ)
    (m : ProposeMessage)
    → Balanced jobs tasks used capacity
    → lookup m.job_id jobs ≡ none
    → IsPriced m
    → pos_part m.cost < 2 ^ 62
    → ltb_ℤ capacity (wrap64 (used +ℤ m.cost)) ≡ false
    → Balanced (insert m.job_id m jobs) tasks (wrap64 (used +ℤ m.cost)) capacity
insert_job jobs tasks used capacity m b fresh priced small fits =
    let e = total-insert price m.job_id m jobs fresh in
    let room : total price jobs + total load tasks < 2 ^ 62 = omega (arith, b.within, b.small) in
    let sum : wrap64 (used +ℤ m.cost)
        ≡ pos (total price jobs + total load tasks + pos_part m.cost) =
      rw b.exact (add_pos64 (total price jobs + total load tasks) m.cost priced (omega arith)) in
    record {
      jobs_map = insert-IsMap m.job_id m jobs b.jobs_map;
      tasks_map = b.tasks_map;
      priced = insert-AllValues IsPriced m.job_id m jobs priced b.priced;
      loaded = b.loaded;
      exact = rw sum (ap pos (omega (arith, e)));
      within = fits_lem capacity _ _ (rw sum at fits) (omega (arith, e));
      small = b.small;
      positive = b.positive;
    }
  where
    fits_lem : (c : ℤ) (n k : ℕ) → ltb_ℤ c (pos n) ≡ false → k ≡ n → k ≤ pos_part c
    fits_lem c n k h e = ground arith

-- A job goes from the accepted to the running ones with its price.
pub move_job :
    (jobs : Dict String ProposeMessage) (tasks : Dict String ActiveTask) (used capacity : ℤ)
    (id run_id : String) (m : ProposeMessage)
    → Balanced jobs tasks used capacity
    → lookup id jobs ≡ some m
    → lookup id tasks ≡ none
    → Balanced
        (delete id jobs)
        (insert id (record { is_cancelled = false; cost = m.cost; run_id = run_id }) tasks)
        used
        capacity
move_job jobs tasks used capacity id run_id m b found fresh =
    let t : ActiveTask = record { is_cancelled = false; cost = m.cost; run_id = run_id } in
    let out = total-delete price id m jobs b.jobs_map found in
    let into = total-insert load id t tasks fresh in
    record {
      jobs_map = delete-IsMap id jobs b.jobs_map;
      tasks_map = insert-IsMap id t tasks b.tasks_map;
      priced = delete-AllValues IsPriced id jobs b.priced;
      loaded =
          insert-AllValues IsLoaded id t tasks (lookup-AllValues IsPriced id m jobs b.priced found)
            b.loaded;
      exact = b.exact ∙ ap pos (omega (arith, out, into));
      within = omega (arith, b.within, out, into);
      small = b.small;
      positive = b.positive;
    }

-- A finished job gives its price back.
pub drop_task :
    (jobs : Dict String ProposeMessage) (tasks : Dict String ActiveTask) (used capacity : ℤ)
    (id : String) (t : ActiveTask)
    → Balanced jobs tasks used capacity
    → lookup id tasks ≡ some t
    → Balanced jobs (delete id tasks) (wrap64 (used -ℤ t.cost)) capacity
drop_task jobs tasks used capacity id t b found =
    let out = total-delete load id t tasks b.tasks_map found in
    let less : wrap64 (used -ℤ t.cost)
        ≡ pos (total price jobs + total load tasks - pos_part t.cost) =
      rw b.exact (
        sub_pos64 _ t.cost (lookup-AllValues IsLoaded id t tasks b.loaded found)
          (omega (arith, out)) (omega (arith, b.within, b.small))) in
    record {
      jobs_map = b.jobs_map;
      tasks_map = delete-IsMap id tasks b.tasks_map;
      priced = b.priced;
      loaded = delete-AllValues IsLoaded id tasks b.loaded;
      exact = less ∙ ap pos (omega (arith, out));
      within = omega (arith, b.within, out);
      small = b.small;
      positive = b.positive;
    }

-- Cancelling a task keeps its cost.
pub mark_task :
    (jobs : Dict String ProposeMessage) (tasks : Dict String ActiveTask) (used capacity : ℤ)
    (id : String) (t : ActiveTask)
    → Balanced jobs tasks used capacity
    → lookup id tasks ≡ some t
    → Balanced jobs (insert id (record t { is_cancelled = true }) tasks) used capacity
mark_task jobs tasks used capacity id t b found =
    let t' : ActiveTask = record t { is_cancelled = true } in
    let same = total-insert_bound load id t' t tasks b.tasks_map found in
    record {
      jobs_map = b.jobs_map;
      tasks_map = insert-IsMap id t' tasks b.tasks_map;
      priced = b.priced;
      loaded =
          insert-AllValues IsLoaded id t' tasks
            (lookup-AllValues IsLoaded id t tasks b.loaded found) b.loaded;
      exact = b.exact ∙ ap pos (omega (arith, same));
      within = omega (arith, b.within, same);
      small = b.small;
      positive = b.positive;
    }
