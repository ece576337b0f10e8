-- ===== src/Manager/WorkerPool/Eligible.antt =====
-- manager/worker_pool.go, `eligibleWorkers`: which workers it returns, and what `AssignTask` says to
-- them.
use workforce.Prelude.{
  ℕ, ◌+◌, ◌^◌, ◌≤◌, ◌<◌, ◌≡◌, refl, ◌∙◌, String, Bool, true, false, not, ◌||◌, ◌&&◌, none, some,
  List, [], ◌∷◌, inl, inr, arith, leb, if◌then◌else◌, ◌==◌, nat_eq, string_eq, is_some,
  Option-cases, Bool-cases,
}
use workforce.Prelude.Int.{ℤ, pos, ◌-ℤ◌, wrap64, ltb_ℤ, eqb_ℤ}
use workforce.Prelude.Dict.{lookup, insert, lookup-insert}
use workforce.Contract.Job.{Time}
use workforce.Contract.Worker.{online, worker_state_eq}
use workforce.Locksmith.{get}
use workforce.Locksmith.Expiry.{get-get}
use workforce.Manager.WorkerConn.{
  SimpleSet, WorkerConn, at_capacity, is_in_state, available_capacity, assign_task,
}
use workforce.Manager.WorkerConn.Capacity.{assign_task-cases}
use workforce.Manager.WorkerPool.{Ref, WorkerPool, check_worker, scan, candidates, eligible_workers}

-- The elements that pass a test, in order.
abbrev pub passing : (Ref → Bool) → List Ref → List Ref
passing f [] = []
passing f (r ∷ rs) = if f r then r ∷ passing f rs else passing f rs

passing_ext :
    (f g : Ref → Bool) (rs : List Ref) → ((r : Ref) → f r ≡ g r) → passing f rs ≡ passing g rs
passing_ext f g [] h = refl
passing_ext f g (r ∷ rs) h = rw (h r, passing_ext f g rs h)

room_lem :
    (c o k : ℕ) (a b : ℤ)
    → a ≡ pos c
    → b ≡ pos o
    → c < 2 ^ 62
    → o < 2 ^ 62
    → k < 2 ^ 62
    → 0 < k
    → (eqb_ℤ (pos k) (pos 0) || not (ltb_ℤ (wrap64 (a -ℤ b)) (pos k))) ≡ true
    → o + k ≤ c
unfolding ◌-ℤ◌
room_lem c o k a b ha hb bc bo bk positive t = ground arith

module _ (S : SimpleSet) where
  -- Whether a worker may get a job: it is online, the cache of its rejections finds nothing for the job
  -- or the job has no identifier, and it has room for the cost or the cost is 0.
  unfoldable pub takes : Time → ℤ → String → WorkerConn S → Bool
  takes now cost job_id w =
      is_in_state S online w
      && (job_id == "" || not (is_some (get now job_id w.rejected_jobs_cache).0))
      && (eqb_ℤ cost (pos 0) || not (ltb_ℤ (available_capacity S w) cost))

  pub takes_at : Time → ℤ → String → WorkerPool S → Ref → Bool
  takes_at now cost job_id p r = elim (lookup r p.conns) [
    | none ↦ false
    | some w ↦ takes now cost job_id w
  ]

  check_worker-takes :
      (now : Time) (cost : ℤ) (job_id : String) (w : WorkerConn S)
      → (check_worker S now cost job_id w).0 ≡ takes now cost job_id w
  unfolding check_worker takes
  check_worker-takes now cost job_id w = ground arith

  takes-check_worker :
      (now : Time) (cost : ℤ) (job_id : String) (w : WorkerConn S)
      → takes now cost job_id (check_worker S now cost job_id w).1 ≡ takes now cost job_id w
  unfolding check_worker takes is_in_state available_capacity
  takes-check_worker now cost job_id w =
      let same = get-get now job_id w.rejected_jobs_cache in ground (arith, same)

  -- Checking a worker changes for no worker whether it may get the job.
  takes_at_checked :
      (now : Time) (cost : ℤ) (job_id : String) (p : WorkerPool S) (q : Ref) (w : WorkerConn S)
      → lookup q p.conns ≡ some w
      → (r : Ref)
      → takes_at now cost job_id
          (record p { conns = insert q (check_worker S now cost job_id w).1 p.conns })
          r
        ≡ takes_at now cost job_id p r
  unfolding takes_at
  takes_at_checked now cost job_id p q w h r =
      let found = lookup-insert q r (check_worker S now cost job_id w).1 p.conns in
      elim (Bool-cases (q == r)) [
        | inl e ↦
            let same : q ≡ r = ground arith in
            let h' : lookup r p.conns ≡ some w = rw same at h in
            rw (found, takes_at)
              (rw (e, takes_at) (rw (h', takes_at) (takes-check_worker now cost job_id w)))
        | inr e ↦ rw (found, takes_at) (rw (e, takes_at) refl)
      ]

  scan-passing :
      (now : Time) (cost : ℤ) (job_id : String) (rs : List Ref) (p : WorkerPool S)
      → (scan S now cost job_id rs p).0 ≡ passing (takes_at now cost job_id p) rs
  unfolding scan takes_at
  scan-passing now cost job_id [] p = refl
  scan-passing now cost job_id (r ∷ rs) p = elim (Option-cases (lookup r p.conns)) [
    | inl h ↦ rw (h, scan) (rw (h, takes_at) (scan-passing now cost job_id rs p))
    | inr (w, h) ↦
        let after = record p { conns = insert r (check_worker S now cost job_id w).1 p.conns } in
        let rest =
          scan-passing now cost job_id rs after
          ∙ passing_ext _ _ rs (takes_at_checked now cost job_id p r w h) in
        rw (h, scan) (rw (h, takes_at) (rw (check_worker-takes now cost job_id w, rest) refl))
  ]

  -- For a cost of at least 0, the eligible workers are those candidates, in their order, that in the
  -- pool as it was before the scan are online, have room for the cost or the cost is 0, and whose cache
  -- of rejections finds nothing for the job, of which it keeps 100 and each until it expires, or the
  -- job has no identifier; for a negative cost there are none.
  pub eligible_workers-passing :
      (platforms : List String) (now : Time) (cost : ℤ) (job_id : String) (p : WorkerPool S)
      → (eligible_workers S platforms now cost job_id p).0 ≡ (
          if ltb_ℤ cost (pos 0)
          then []
          else passing (takes_at now cost job_id p) (candidates S platforms p))
  unfolding eligible_workers
  eligible_workers-passing platforms now cost job_id p = elim (Bool-cases (ltb_ℤ cost (pos 0))) [
    | inl e ↦ rw e
    | inr e ↦ rw e (scan-passing now cost job_id (candidates S platforms p) p)
  ]

  -- A worker that is eligible for a job of a positive cost takes it, for a capacity, an occupied
  -- cost and a cost below 2^62.
  pub takes-assign_task :
      (now : Time) (job_id : String) (c o k : ℕ) (w : WorkerConn S)
      → w.capacity ≡ pos c
      → w.occupied_cost ≡ pos o
      → c < 2 ^ 62
      → o < 2 ^ 62
      → k < 2 ^ 62
      → 0 < k
      → takes now (pos k) job_id w ≡ true
      → (assign_task S job_id (pos k) w).0 ≡ none
  unfolding takes available_capacity
  takes-assign_task now job_id c o k w hc ho bc bo bk positive t =
      let room = room_lem c o k w.capacity w.occupied_cost hc ho bc bo bk positive in
      let same = assign_task-cases S job_id c o k w hc ho bc bo bk in
      rw same (ground (arith, room, t))

  -- A job of cost 0 is eligible on every online worker that has not rejected it, a full one as
  -- well, and a full worker does not take it.
  pub takes-free_job_at_capacity :
      (now : Time) (job_id : String) (c : ℕ) (w : WorkerConn S)
      → w.capacity ≡ pos c
      → w.occupied_cost ≡ pos c
      → c < 2 ^ 62
      → is_in_state S online w ≡ true
      → (get now job_id w.rejected_jobs_cache).0 ≡ none
      → (takes now (pos 0) job_id w ≡ true)
        × (assign_task S job_id (pos 0) w ≡ (some at_capacity, w))
  unfolding takes
  takes-free_job_at_capacity now job_id c w hc ho bc o r = (
    ground (arith, o, r),
    assign_task-cases S job_id c c 0 w hc ho bc bc (omega arith) ∙ rw (full c),
  )
    where
      full : (n : ℕ) → leb n n ≡ true
      full n = ground arith
