-- ===== src/Manager/Dispatcher/Passes.antt =====
-- manager/dispatcher.go, `ProcessQueue`: where the jobs of the queue go in a pass.
use workforce.Prelude.{
  ◌≡◌, refl, ap, ◌∙◌, inl, inr, ◌⊎◌, ℕ, zero, suc, ◌+◌, String, Bool, false, Option, none, some,
  List, [], ◌∷◌, ◌++◌, arith, length, length-append, if_both, ◌==◌, string_eq, nat_eq, Option-cases,
  Bool-cases, is_some,
}
use workforce.Prelude.Int.{ℤ}
use workforce.Contract.Job.{Job, Time, proposing}
use workforce.Contract.Task.{Task}
use workforce.Store.{get_task, update_job}
use workforce.Webhooks.{failed_data, proposing_data}
use workforce.Manager.Config.{Config}
use workforce.Manager.Lifecycle.{fail_job_direct}
use workforce.Manager.Queue.{Item, PriorityQueue, pop_item, push_item, job_outranks, queue_size}
use workforce.Manager.Queue.Counts.{count-pop_item, length-reheapify, length-push_item}
use workforce.Manager.Server.{Outside, Server, push_jobs}
use workforce.Manager.Server.Jobs.{fire_frame}
use workforce.Manager.WorkerConn.{SimpleSet, WorkerConn}
use workforce.Manager.WorkerPool.{Ref, subtract_capacity, eligible_workers, online_platform_keys}
use workforce.Manager.Dispatcher.{
  boost, apply_starvation_aging, pop_next_job, is_starved, dispatch_job, Verdict, dispatched,
  failed, deferred, verdict_of, DispatchError, unknown_task, no_artifact_platform,
  no_eligible_workers, not_resolved, not_sent, unknown_job, not_assigned, try_propose_job,
  propose_to, proposal_for, send_proposal, mark_proposed, run_pass, process_queue, Pass, noted,
  empty_pass, job_platform_keys_for_dispatch,
}

length-boost :
    (now : Time) (timeout m : ℤ) (items : List (Item Job))
    → length (boost now timeout m items) ≡ length items
unfolding boost
length-boost now timeout m [] = refl
length-boost now timeout m (it ∷ items) =
    if_both (λ (r : List (Item Job)). length r ≡ suc (length items))
      (is_starved now timeout m it.value) (ap suc (length-boost now timeout m items))
      (ap suc (length-boost now timeout m items))

size-aging :
    (now : Time) (timeout : ℤ) (q : PriorityQueue Job)
    → queue_size (apply_starvation_aging now timeout q) ≡ queue_size q
unfolding apply_starvation_aging
size-aging now timeout q =
    if_both (λ (r : PriorityQueue Job). queue_size r ≡ queue_size q) _
      (length-reheapify job_outranks _ ∙ length-boost now timeout _ q.items) refl

module _ (S : SimpleSet) (O : Outside) (c : Config)
    (choose : Ref × WorkerConn S → List (Ref × WorkerConn S) → Ref × WorkerConn S)
    (sign : Option (String → Option String)) where
  -- The queue and the cancelled jobs are those of another state.
  abbrev Keeps : Server S O → Server S O → Type 0
  Keeps s t = (t.queue ≡ s.queue) × (t.cancelled_job_ids ≡ s.cancelled_job_ids)

  fail_job_direct-Keeps :
      (now : Time) (job : Job) (reason : String) (s : Server S O)
      → Keeps s (fail_job_direct S O now job reason s)
  unfolding fail_job_direct
  fail_job_direct-Keeps now job reason s =
      let f = fire_frame S O now job (failed_data reason) _ in (f.1, f.3)

  mark_proposed-Keeps :
      (now : Time) (r : Ref) (job : Job) (s : Server S O)
      → Keeps s (mark_proposed S O c choose sign now r job s).1
  unfolding mark_proposed
  mark_proposed-Keeps now r job s =
      let known = (update_job job.id (λ j. record j { status = proposing }) s.store).0 in
      let error = (subtract_capacity S now r job.id job.cost s.pool).0 in
      elim (Bool-cases known) [
        | inl t ↦ elim (Bool-cases (is_some error)) [
          | inl e ↦ rw (t, e) (refl, refl)
          | inr e ↦
              rw (t, e)
                (let f = fire_frame S O now job (proposing_data job.task_name job.cost _) _ in
                  (f.1, f.3))
        ]
        | inr n ↦ rw n (refl, refl)
      ]

  propose_to-Keeps :
      (now : Time) (writes : Bool) (task : Task) (job : Job) (ws : List (Ref × WorkerConn S))
      (s : Server S O)
      → Keeps s (propose_to S O c choose sign now writes task job ws s).1
  unfolding propose_to send_proposal
  propose_to-Keeps now writes task job [] s = (refl, refl)
  propose_to-Keeps now writes task job (w ∷ ws) s =
      let (r, selected) = choose w ws in
      elim (Option-cases (proposal_for S O c choose sign job task selected)) [
        | inl e ↦ rw (e, propose_to) (refl, refl)
        | inr (frame, e) ↦
            rw (e, propose_to)
              (if_both (λ (x : Option DispatchError × Server S O). Keeps s x.1) writes
                (mark_proposed-Keeps now r job (record s { sent = s.sent ++ (r, frame) ∷ [] }))
                (refl, refl))
      ]

  try_propose_job-Keeps :
      (now : Time) (writes : Bool) (job : Job) (keys : List String) (s : Server S O)
      → Keeps s (try_propose_job S O c choose sign now writes job keys s).1
  unfolding try_propose_job
  try_propose_job-Keeps now writes job keys s =
      elim (Option-cases (get_task job.task_name s.store)) [
        | inl e ↦ rw (e, try_propose_job) (refl, refl)
        | inr (task, e) ↦
            rw (e, try_propose_job)
              (if_both (λ (x : Option DispatchError × Server S O). Keeps s x.1) _ (refl, refl)
                (propose_to-Keeps now writes task job _
                  (record s { pool = (eligible_workers S keys now job.cost job.id s.pool).1 })))
      ]

  verdict_of-Keeps :
      (now : Time) (job : Job) (s t : Server S O) (e : Option DispatchError)
      → Keeps s t
      → Keeps s (verdict_of S O c choose sign now job (e, t)).1
  verdict_of-Keeps now job s t none k = k
  verdict_of-Keeps now job s t (some unknown_task) k =
      let f = fail_job_direct-Keeps now job _ t in (f.0 ∙ k.0, f.1 ∙ k.1)
  verdict_of-Keeps now job s t (some no_artifact_platform) k = k
  verdict_of-Keeps now job s t (some no_eligible_workers) k = k
  verdict_of-Keeps now job s t (some not_resolved) k = k
  verdict_of-Keeps now job s t (some not_sent) k = k
  verdict_of-Keeps now job s t (some unknown_job) k = k
  verdict_of-Keeps now job s t (some not_assigned) k = k

  pub dispatch_job-Keeps :
      (now : Time) (writes : Bool) (online : List String) (job : Job) (s : Server S O)
      → Keeps s (dispatch_job S O c choose sign now writes online job s).1
  unfolding dispatch_job
  dispatch_job-Keeps now writes online job s =
      let (keys, d) = job_platform_keys_for_dispatch S O c choose sign job online s in
      elim (Option-cases d) [
        | inl e ↦
            rw (e, dispatch_job)
              (verdict_of-Keeps now job s
                (try_propose_job S O c choose sign now writes job keys s).1 _
                (try_propose_job-Keeps now writes job keys s))
        | inr (f, e) ↦
            rw (e, dispatch_job)
              (if_both (λ (x : Verdict × Server S O). Keeps s x.1) f.fail
                (fail_job_direct-Keeps now job f.reason s) (refl, refl))
      ]

  -- No job of the queue was cancelled there.
  abbrev pub NoneCancelled : Server S O → Type 0
  NoneCancelled s = (id : String) → S.has id s.cancelled_job_ids ≡ false

  pub pop_next_job-suc :
      (fuel : ℕ) (s : Server S O) (v : Job)
      → NoneCancelled s
      → (pop_item job_outranks s.queue).0 ≡ some v
      → pop_next_job S O c choose sign (suc fuel) s
        ≡ (some v, record s { queue = (pop_item job_outranks s.queue).1 })
  unfolding pop_next_job
  pop_next_job-suc fuel s v h e = rw (e, pop_next_job, h v.id) refl

  pop_by_size :
      (n : ℕ) (s : Server S O)
      → NoneCancelled s
      → queue_size s.queue ≡ n
      → ((queue_size s.queue ≡ 0) × (pop_next_job S O c choose sign n s ≡ (none, s)))
        ⊎ ((job : Job) × (q : PriorityQueue Job) × (queue_size s.queue ≡ suc (queue_size q))
            × (pop_next_job S O c choose sign n s ≡ (some job, record s { queue = q })))
  unfolding pop_next_job
  pop_by_size zero s h e = inl (e, refl)
  pop_by_size (suc n) s h e =
      let (v, got, _, size) = count-pop_item (λ x. false) job_outranks s.queue (omega (arith, e)) in
      inr (v, (pop_item job_outranks s.queue).1, size, pop_next_job-suc n s v h got)

  -- The two results of a pop, where nothing was cancelled.
  pop_next_job-cases :
      (s : Server S O)
      → NoneCancelled s
      → ((queue_size s.queue ≡ 0)
          × (pop_next_job S O c choose sign (queue_size s.queue) s ≡ (none, s)))
        ⊎ ((job : Job) × (q : PriorityQueue Job) × (queue_size s.queue ≡ suc (queue_size q))
            × (pop_next_job S O c choose sign (queue_size s.queue) s
                ≡ (some job, record s { queue = q })))
  pop_next_job-cases s h = pop_by_size (queue_size s.queue) s h refl

  -- What a pass has accounted for.
  abbrev accounted : Pass → ℕ
  accounted p = p.dispatched_count + p.failed_count + length p.deferred_jobs

  accounted-noted :
      (v : Verdict) (job : Job) (p : Pass) → accounted (noted v job p) ≡ suc (accounted p)
  accounted-noted dispatched job p = omega arith
  accounted-noted failed job p = omega arith
  accounted-noted (deferred short) job p = omega (arith, length-append p.deferred_jobs (job ∷ []))

  abbrev after_pop : Server S O → Server S O
  after_pop s = (pop_next_job S O c choose sign (queue_size s.queue) s).1

  pub run_pass-some :
      (fuel : ℕ) (now : Time) (writes : Bool) (online : List String) (p : Pass) (s : Server S O)
      (job : Job)
      → (pop_next_job S O c choose sign (queue_size s.queue) s).0 ≡ some job
      → run_pass S O c choose sign (suc fuel) now writes online p s
        ≡ run_pass S O c choose sign fuel now writes online
            (noted (dispatch_job S O c choose sign now writes online job (after_pop s)).0 job p)
            (dispatch_job S O c choose sign now writes online job (after_pop s)).1
  unfolding run_pass
  run_pass-some fuel now writes online p s job e = rw (e, run_pass) refl

  run_pass-accounted :
      (fuel : ℕ) (now : Time) (writes : Bool) (online : List String) (p : Pass) (s : Server S O)
      → NoneCancelled s
      → queue_size s.queue ≡ fuel
      → (queue_size (run_pass S O c choose sign fuel now writes online p s).1.queue ≡ 0)
        × (accounted (run_pass S O c choose sign fuel now writes online p s).0 ≡ accounted p + fuel)
  unfolding run_pass
  run_pass-accounted zero now writes online p s h e = (e, omega arith)
  run_pass-accounted (suc fuel) now writes online p s h e = elim (pop_next_job-cases s h) [
    | inl (z, f) ↦ absurd (omega (arith, e, z))
    | inr (job, q, size, f) ↦
        let s1 = after_pop s in
        let same : s1 ≡ record s { queue = q } = ap (λ (x : Option Job × Server S O). x.1) f in
        let v = (dispatch_job S O c choose sign now writes online job s1).0 in
        let s2 = (dispatch_job S O c choose sign now writes online job s1).1 in
        let k = dispatch_job-Keeps now writes online job s1 in
        let ids : s2.cancelled_job_ids ≡ s.cancelled_job_ids =
          k.1 ∙ ap (λ (x : Server S O). x.cancelled_job_ids) same in
        let none2 : NoneCancelled s2 = λ id. ap (S.has id) ids ∙ h id in
        let sizes : queue_size s2.queue ≡ queue_size q =
          ap (λ (x : PriorityQueue Job). queue_size x)
            (k.0 ∙ ap (λ (x : Server S O). x.queue) same) in
        let (z, a) =
          run_pass-accounted fuel now writes online (noted v job p) s2 none2
            (omega (arith, sizes, size, e)) in
        let step =
          run_pass-some fuel now writes online p s job
            (ap (λ (x : Option Job × Server S O). x.0) f) in
        (rw step z, rw step (omega (arith, a, accounted-noted v job p)))
  ]

  size-push_jobs :
      (jobs : List Job) (q : PriorityQueue Job)
      → queue_size (push_jobs S O jobs q) ≡ length jobs + queue_size q
  unfolding push_jobs
  size-push_jobs [] q = omega arith
  size-push_jobs (j ∷ jobs) q =
      omega (
        arith,
        size-push_jobs jobs (push_item job_outranks j q).1,
        length-push_item job_outranks j q,
      )

  -- A pass accounts for as many jobs as were in the queue.
  pub size-process_queue :
      (now : Time) (writes : Bool) (s : Server S O)
      → NoneCancelled s
      → (process_queue S O c choose sign now writes s).0.dispatched_count
          + (process_queue S O c choose sign now writes s).0.failed_count
          + queue_size (process_queue S O c choose sign now writes s).1.queue
        ≡ queue_size s.queue
  unfolding process_queue
  size-process_queue now writes s h = elim (Bool-cases (queue_size s.queue == 0)) [
    | inl z ↦ rw z (omega arith)
    | inr n ↦
        let s1 : Server S O = record s {
          queue = apply_starvation_aging now c.starvation_timeout s.queue;
        } in
        let online = online_platform_keys S s.pool in
        let r = run_pass S O c choose sign (queue_size s1.queue) now writes online empty_pass s1 in
        let (z, a) =
          run_pass-accounted (queue_size s1.queue) now writes online empty_pass s1 h refl in
        let pushed = size-push_jobs r.0.deferred_jobs r.1.queue in
        let aged = size-aging now c.starvation_timeout s.queue in
        rw n (omega (arith, z, a, pushed, aged))
  ]
