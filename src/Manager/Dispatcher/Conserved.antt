-- ===== src/Manager/Dispatcher/Conserved.antt =====
-- manager/dispatcher.go, `ProcessQueue`: where the jobs of the queue are after a pass.
use workforce.Prelude.{
  ◌≡◌, refl, ap, ◌∙◌, inl, inr, ℕ, zero, suc, ◌+◌, ◌≤◌, String, Bool, Option, some, List, [], ◌∷◌,
  ◌++◌, arith, if_both, ◌==◌, string_eq, nat_eq, Bool-cases,
}
use workforce.Prelude.Int.{ℤ}
use workforce.Prelude.Dict.{Dict}
use workforce.Contract.Job.{Job, Time}
use workforce.Contract.Task.{Task}
use workforce.Manager.Config.{Config}
use workforce.Manager.Lifecycle.Requeue.{tally}
use workforce.Manager.Queue.{Item, PriorityQueue, pop_item, push_item, job_outranks, queue_size}
use workforce.Manager.Queue.Counts.{weight, count, count-pop_item, count-reheapify, count-push_item}
use workforce.Manager.Server.{Outside, Server, push_jobs}
use workforce.Manager.WorkerConn.{SimpleSet, WorkerConn}
use workforce.Manager.WorkerPool.{Ref, online_platform_keys}
use workforce.Manager.Dispatcher.{
  boost, apply_starvation_aging, pop_next_job, is_starved, dispatch_job, Verdict, dispatched,
  failed, deferred, run_pass, process_queue, Pass, noted, empty_pass,
}
use workforce.Manager.Dispatcher.Passes.{
  NoneCancelled, dispatch_job-Keeps, pop_next_job-suc, run_pass-some, size-process_queue,
}
use workforce.Manager.Dispatcher.Sent.{proposals, is_known, kept, dispatch_job-Settled}

module _ (S : SimpleSet) (O : Outside) (c : Config)
    (choose : Ref × WorkerConn S → List (Ref × WorkerConn S) → Ref × WorkerConn S)
    (sign : Option (String → Option String)) (id : String) (tasks : Dict String Task) where
  abbrev one : Job → ℕ
  one job = weight (is_known id tasks) job

  -- What is still to do: in the queue, and among the deferred jobs of the pass.
  abbrev left_over : Pass → Server S O → ℕ
  left_over p s =
      tally (is_known id tasks) p.deferred_jobs + count (is_known id tasks) s.queue.items

  tally-append :
      (f : Job → Bool) (jobs : List Job) (job : Job)
      → tally f (jobs ++ job ∷ []) ≡ weight f job + tally f jobs
  tally-append f [] job = refl
  tally-append f (j ∷ jobs) job = omega (arith, tally-append f jobs job)

  tally-noted :
      (v : Verdict) (job : Job) (p : Pass)
      → tally (is_known id tasks) (noted v job p).deferred_jobs
        ≡ kept (one job) v + tally (is_known id tasks) p.deferred_jobs
  tally-noted dispatched job p = omega arith
  tally-noted failed job p = omega arith
  tally-noted (deferred short) job p = tally-append (is_known id tasks) p.deferred_jobs job

  run_pass-sent :
      (fuel : ℕ) (now : Time) (writes : Bool) (online : List String) (p : Pass) (s : Server S O)
      → NoneCancelled S O c choose sign s
      → queue_size s.queue ≡ fuel
      → s.store.task_defs ≡ tasks
      → left_over p s + proposals id s.sent
        ≤ left_over
            (run_pass S O c choose sign fuel now writes online p s).0
            (run_pass S O c choose sign fuel now writes online p s).1
          + proposals id (run_pass S O c choose sign fuel now writes online p s).1.sent
  unfolding run_pass
  run_pass-sent zero now writes online p s h e k = omega arith
  run_pass-sent (suc fuel) now writes online p s h e k =
      let (job, got, counts, size) =
        count-pop_item (is_known id tasks) job_outranks s.queue (omega (arith, e)) in
      let q = (pop_item job_outranks s.queue).1 in
      let popped : pop_next_job S O c choose sign (queue_size s.queue) s
          ≡ (some job, record s { queue = q }) =
        ap (λ (n : ℕ). pop_next_job S O c choose sign n s) e
        ∙ pop_next_job-suc S O c choose sign fuel s job h got in
      let s1 = (pop_next_job S O c choose sign (queue_size s.queue) s).1 in
      let same : s1 ≡ record s { queue = q } = ap (λ (x : Option Job × Server S O). x.1) popped in
      let d = dispatch_job S O c choose sign now writes online job s1 in
      let frame = dispatch_job-Keeps S O c choose sign now writes online job s1 in
      let settled =
        dispatch_job-Settled S O c choose sign id tasks now writes online job s1
          (ap (λ (x : Server S O). x.store.task_defs) same ∙ k) in
      let queue : d.1.queue ≡ q = frame.0 ∙ ap (λ (x : Server S O). x.queue) same in
      let ids : d.1.cancelled_job_ids ≡ s.cancelled_job_ids =
        frame.1 ∙ ap (λ (x : Server S O). x.cancelled_job_ids) same in
      let sent : proposals id s1.sent ≡ proposals id s.sent =
        ap (λ (x : Server S O). proposals id x.sent) same in
      let sizes : queue_size d.1.queue ≡ queue_size q =
        ap (λ (x : PriorityQueue Job). queue_size x) queue in
      let stay = ap (λ (x : PriorityQueue Job). count (is_known id tasks) x.items) queue in
      let rest =
        run_pass-sent fuel now writes online (noted d.0 job p) d.1 (λ i. ap (S.has i) ids ∙ h i)
          (omega (arith, sizes, size, e)) settled.0 in
      rw
        (run_pass-some S O c choose sign fuel now writes online p s job
          (ap (λ (x : Option Job × Server S O). x.0) popped))
        (omega (arith, rest, tally-noted d.0 job p, settled.1, stay, counts, sent))

  count-push_jobs :
      (f : Job → Bool) (jobs : List Job) (q : PriorityQueue Job)
      → count f (push_jobs S O jobs q).items ≡ tally f jobs + count f q.items
  unfolding push_jobs
  count-push_jobs f [] q = omega arith
  count-push_jobs f (j ∷ jobs) q = omega (
    arith,
    count-push_jobs f jobs (push_item job_outranks j q).1,
    count-push_item f job_outranks j q,
  )

  count-boost :
      (now : Time) (timeout m : ℤ) (items : List (Item Job))
      → count (is_known id tasks) (boost now timeout m items) ≡ count (is_known id tasks) items
  unfolding boost count
  count-boost now timeout m [] = refl
  count-boost now timeout m (it ∷ items) =
      if_both
        (λ (r : List (Item Job)).
          count (is_known id tasks) r ≡ one it.value + count (is_known id tasks) items)
        (is_starved now timeout m it.value) (omega (arith, count-boost now timeout m items))
        (omega (arith, count-boost now timeout m items))

  count-aging :
      (now : Time) (timeout : ℤ) (q : PriorityQueue Job)
      → count (is_known id tasks) (apply_starvation_aging now timeout q).items
        ≡ count (is_known id tasks) q.items
  unfolding apply_starvation_aging
  count-aging now timeout q =
      if_both
        (λ (r : PriorityQueue Job).
          count (is_known id tasks) r.items ≡ count (is_known id tasks) q.items)
        _ (count-reheapify (is_known id tasks) job_outranks _ ∙ count-boost now timeout _ q.items)
        refl

-- A pass where no identifier is marked as cancelled: as many jobs as were in the queue were
-- dispatched, failed or are queued again, and for every identifier, each of its jobs that was in the
-- queue and whose task is in the store is queued again or a proposal of it was sent to a worker.
pub process_queue_conserves :
    (S : SimpleSet) (O : Outside) (c : Config)
    (choose : Ref × WorkerConn S → List (Ref × WorkerConn S) → Ref × WorkerConn S)
    (sign : Option (String → Option String)) (id : String) (now : Time) (writes : Bool)
    (s : Server S O)
    → NoneCancelled S O c choose sign s
    → ((process_queue S O c choose sign now writes s).0.dispatched_count
          + (process_queue S O c choose sign now writes s).0.failed_count
          + queue_size (process_queue S O c choose sign now writes s).1.queue
        ≡ queue_size s.queue)
      × (count (is_known id s.store.task_defs) s.queue.items + proposals id s.sent
          ≤ count
              (is_known id s.store.task_defs)
              (process_queue S O c choose sign now writes s).1.queue.items
            + proposals id (process_queue S O c choose sign now writes s).1.sent)
unfolding process_queue
process_queue_conserves S O c choose sign id now writes s h =
    let tasks = s.store.task_defs in
    let f = is_known id tasks in
    let aged = apply_starvation_aging now c.starvation_timeout s.queue in
    let s1 : Server S O = record s { queue = aged } in
    let online = online_platform_keys S s.pool in
    let r = run_pass S O c choose sign (queue_size aged) now writes online empty_pass s1 in
    let pass =
      run_pass-sent S O c choose sign id tasks (queue_size aged) now writes online empty_pass s1 h
        refl refl in
    let same = count-aging S O c choose sign id tasks now c.starvation_timeout s.queue in
    let pushed = count-push_jobs S O c choose sign id tasks f r.0.deferred_jobs r.1.queue in
    (
      size-process_queue S O c choose sign now writes s h,
      elim (Bool-cases (queue_size s.queue == 0)) [
        | inl z ↦ rw z (omega arith)
        | inr n ↦ rw n (omega (arith, pass, same, pushed))
      ],
    )
