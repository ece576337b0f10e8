-- ===== src/Manager/WorkerPool/Tests.antt =====
-- manager/worker_pool.go and manager/worker_selector.go on two workers of one platform.
use workforce.Prelude.{
  ◌≡◌, refl, inl, inr, Bool-cases, eq_iff, String, true, false, some, none, List, [], ◌∷◌, arith,
  ◌==◌, nat_eq, string_eq, length,
}
use workforce.Prelude.Int.{pos, ◌-ℤ◌}
use workforce.Contract.Worker.{online, worker_state_eq}
use workforce.Locksmith.{get}
use workforce.Manager.WorkerConn.{
  SimpleSet, WorkerConn, at_capacity, is_in_state, available_capacity, assign_task,
}
use workforce.Manager.WorkerPool.{
  WorkerPool, listed, key_of, platform_key, register, unregister, get_worker, eligible_workers,
  least_loaded,
}
use workforce.Manager.WorkerPool.Index.{member, IsIndexed}
use workforce.Manager.WorkerPool.Registration.{
  register-IsIndexed, unregister-IsIndexed, unregister-register_again,
}
use workforce.Manager.WorkerPool.Eligible.{
  takes, takes_at, passing, eligible_workers-passing, takes-assign_task, takes-free_job_at_capacity,
}
use workforce.Manager.WorkerPool.Selection.{least_loaded-IsBest, IsBest}

-- Sets as lists, with what these functions use of them.
abbrev texts : SimpleSet
texts = record {
  Set = List String;
  empty = [];
  add = λ k s. k ∷ s;
  remove = λ k s. s;
  has = λ k s. false;
  size = λ s. length s;
  snapshot = λ s. s;
}

abbrev first : WorkerConn texts
first = record {
  worker_id = "a";
  os = "linux";
  arch = "amd64";
  capacity = pos 8;
  connected_at = 100;
  is_closed = false;
  state = online;
  in_flight = "job-1" ∷ [];
  occupied_cost = pos 6;
  last_idle_at = 100;
  last_heartbeat = 100;
  last_idle_notified = 0;
  rejected_jobs_cache = record {
    capacity = 100;
    cache = [];
    lru_list = [];
    ttl = 60;
    quarantine_ttl = 60;
    quarantine = [];
    quarantine_list = [];
    next_elem = 0;
  };
}

abbrev again : WorkerConn texts
again = record first { in_flight = []; occupied_cost = pos 0; connected_at = 300 }

abbrev full : WorkerConn texts
full = record first { occupied_cost = pos 8 }

-- `first` is at 0 and `again` at 1, not registered.
abbrev pool : WorkerPool texts
pool = record {
  conns = (0, first) ∷ (1, again) ∷ [];
  workers = ("a", 0) ∷ [];
  platform = (platform_key "linux" "amd64", 0 ∷ []) ∷ [];
  requeued = [];
  notified = 0;
  next_ref = 2;
}

pool-IsIndexed : IsIndexed texts pool
unfolding platform_key
pool-IsIndexed = record {
  entries = λ id r f. elim (Bool-cases ("a" == id)) [
    | inl e ↦
        let same : r ≡ 0 = ground (arith, f, e) in
        rw same
          (record { conn = first; points = refl; name = (eq_iff "a" id).0 e; is_listed = refl })
    | inr e ↦ absurd (ground (arith, f, e))
  ];
}

register-IsIndexed_example : IsIndexed texts (register texts 1 again pool)
register-IsIndexed_example =
    register-IsIndexed texts 1 again pool refl (λ e. ground arith) pool-IsIndexed

unregister-IsIndexed_example : IsIndexed texts (unregister texts 0 pool)
unregister-IsIndexed_example = unregister-IsIndexed texts 0 pool pool-IsIndexed

unregister-register_again_example :
    let p' = unregister texts 0 (register texts 1 again pool) in
    (get_worker texts "a" (register texts 1 again pool) ≡ some 1)
    × (get_worker texts "a" p' ≡ none)
    × (member 1 (listed texts (key_of texts again) p') ≡ true)
unregister-register_again_example =
    unregister-register_again texts 0 1 first again pool refl refl refl refl

eligible_workers-passing_example :
    (eligible_workers texts [] 400 (pos 2) "job-2" pool).0
    ≡ passing (takes_at texts 400 (pos 2) "job-2" pool) (0 ∷ [])
eligible_workers-passing_example = eligible_workers-passing texts [] 400 (pos 2) "job-2" pool

first-takes : takes texts 400 (pos 2) "job-2" first ≡ true
unfolding takes is_in_state available_capacity ◌-ℤ◌ get
first-takes = refl

takes-assign_task_example : (assign_task texts "job-2" (pos 2) first).0 ≡ none
takes-assign_task_example =
    takes-assign_task texts 400 "job-2" 8 6 2 first refl refl (ground arith) (ground arith)
      (ground arith) (ground arith) first-takes

full_online : is_in_state texts online full ≡ true
unfolding is_in_state
full_online = refl

full_unrejected : (get 400 "job-2" full.rejected_jobs_cache).0 ≡ none
unfolding get
full_unrejected = refl

takes-free_job_at_capacity_example :
    (takes texts 400 (pos 0) "job-2" full ≡ true)
    × (assign_task texts "job-2" (pos 0) full ≡ (some at_capacity, full))
takes-free_job_at_capacity_example =
    takes-free_job_at_capacity texts 400 "job-2" 8 full refl refl (ground arith) full_online
      full_unrejected

least_loaded-IsBest_example :
    IsBest texts (least_loaded texts first (again ∷ full ∷ [])) (first ∷ again ∷ full ∷ [])
least_loaded-IsBest_example = least_loaded-IsBest texts first (again ∷ full ∷ [])
