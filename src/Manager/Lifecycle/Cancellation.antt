-- ===== src/Manager/Lifecycle/Cancellation.antt =====
-- manager/manager.go, `cancelJobByID`.
use workforce.Prelude.{
  ◌≡◌, refl, ap, ◌∙◌, inl, inr, ◌⊎◌, String, Bool, true, false, ◌||◌, some, List, [], ◌∷◌, if_both,
  if◌then◌else◌, ◌==◌, string_eq, Option-cases, Bool-cases,
}
use workforce.Contract.Job.{Job, pending, accepted, cancelled, Time, is_terminal, status_eq}
use workforce.Store.{MemStore, get_job, update_job, list_child_jobs}
use workforce.Store.Updates.{get_job-update_job, get_job-update_self, get_job-jobs, mapped}
use workforce.Webhooks.{cancelled_data}
use workforce.Manager.Server.{Outside, Server, finished}
use workforce.Manager.Server.Jobs.{jobs-fire, jobs-send}
use workforce.Manager.WorkerConn.{SimpleSet}
use workforce.Manager.WorkerPool.{find_worker_by_in_flight_job_id}
use workforce.Manager.Lifecycle.{
  send_cancel, mark_cancelled, tell_worker, cancel_child, cancel_children, cancel_job_by_id,
  is_dispatched,
}

-- The store has a job of this identifier, and it is cancelled.
abbrev pub IsCancelled : String → MemStore → Type 0
IsCancelled id m = (j : Job) × (get_job id m ≡ some j) × (j.status ≡ cancelled)

abbrev IsKnown : String → MemStore → Type 0
IsKnown id m = (j : Job) × (get_job id m ≡ some j)

-- Cancelling a job leaves every job that is there there.
update-IsKnown :
    (now : Time) (k id : String) (m : MemStore)
    → IsKnown id m
    → IsKnown id (update_job k (finished cancelled now) m).1
update-IsKnown now k id m (j, h) = elim (Bool-cases (k == id)) [
  | inl t ↦ (
    finished cancelled now j,
    get_job-update_job k id (finished cancelled now) m ∙ rw (t, h, mapped) refl,
  )
  | inr f ↦ (j, get_job-update_job k id (finished cancelled now) m ∙ rw (f, h) refl)
]

update-IsCancelled :
    (now : Time) (k id : String) (m : MemStore)
    → IsCancelled id m
    → IsCancelled id (update_job k (finished cancelled now) m).1
update-IsCancelled now k id m (j, h, c) = elim (Bool-cases (k == id)) [
  | inl t ↦ (
    finished cancelled now j,
    get_job-update_job k id (finished cancelled now) m ∙ rw (t, h, mapped) refl,
    refl,
  )
  | inr f ↦ (j, get_job-update_job k id (finished cancelled now) m ∙ rw (f, h) refl, c)
]

update-cancels :
    (now : Time) (id : String) (m : MemStore)
    → IsKnown id m
    → IsCancelled id (update_job id (finished cancelled now) m).1
update-cancels now id m (j, h) =
    (finished cancelled now j, get_job-update_self id (finished cancelled now) m j h, refl)

module _ (S : SimpleSet) (O : Outside) where
  store-told :
      (writes tells : Bool) (id : String) (s : Server S O)
      → (tell_worker S O writes tells id s).store ≡ s.store
  unfolding send_cancel
  store-told writes false id s = refl
  store-told writes true id s = elim (Option-cases (find_worker_by_in_flight_job_id S id s.pool)) [
    | inl e ↦ rw (e, send_cancel) refl
    | inr (r, e) ↦ rw (e, send_cancel) (jobs-send S O writes r _ s)
  ]

  store-marked : (j : Job) (s : Server S O) → (mark_cancelled S O j s).store ≡ s.store
  store-marked j s = if_both (λ (t : Server S O). t.store ≡ s.store) (j.status == pending) refl refl

  -- The two ways of `cancel_child`.
  cancel_child-cases :
      (now : Time) (writes : Bool) (child : Job) (s : Server S O)
      → ((cancel_child S O now writes child s).store ≡ s.store)
        ⊎ ((cancel_child S O now writes child s).store
            ≡ (update_job child.id (finished cancelled now) s.store).1)
  unfolding cancel_child
  cancel_child-cases now writes child s =
      let told = tell_worker S O writes (is_dispatched S O child) child.id s in
      elim (Bool-cases (is_terminal child.status)) [
        | inl t ↦ inl (rw t refl)
        | inr f ↦ inr (
            rw f (
              ap (λ (m : MemStore). (update_job child.id (finished cancelled now) m).1)
                (store-marked child told ∙ store-told writes (is_dispatched S O child) child.id s)))
      ]

  cancel_child-live :
      (now : Time) (writes : Bool) (child : Job) (s : Server S O)
      → is_terminal child.status ≡ false
      → (cancel_child S O now writes child s).store
        ≡ (update_job child.id (finished cancelled now) s.store).1
  unfolding cancel_child
  cancel_child-live now writes child s f =
      let told = tell_worker S O writes (is_dispatched S O child) child.id s in
      rw f (
        ap (λ (m : MemStore). (update_job child.id (finished cancelled now) m).1)
          (store-marked child told ∙ store-told writes (is_dispatched S O child) child.id s))

  -- A property of the store that cancelling a job keeps, the loop keeps.
  loop_keeps :
      (P : MemStore → Type 0) (now : Time) (writes : Bool)
      → ((k : String) (m : MemStore) → P m → P (update_job k (finished cancelled now) m).1)
      → (children : List Job) (s : Server S O) → P s.store
      → P (cancel_children S O now writes children s).store
  unfolding cancel_children
  loop_keeps P now writes keeps [] s p = p
  loop_keeps P now writes keeps (child ∷ children) s p =
      loop_keeps P now writes keeps children (cancel_child S O now writes child s)
        (elim (cancel_child-cases now writes child s) [
          | inl e ↦ rw e p
          | inr e ↦ rw e (keeps child.id s.store p)
        ])

  -- What the loop leaves is then kept, and the job itself is cancelled.
  store-cancel_job_by_id :
      (now : Time) (writes : Bool) (id : String) (s : Server S O) (job : Job)
      → get_job id s.store ≡ some job
      → (cancel_job_by_id S O now writes id s).store.jobs
        ≡ (update_job id
            (finished cancelled now)
            (cancel_children S O now writes (list_child_jobs id s.store) s).store).1.jobs
  unfolding cancel_job_by_id
  store-cancel_job_by_id now writes id s job h =
      let s1 = cancel_children S O now writes (list_child_jobs id s.store) s in
      let tells = is_dispatched S O job || job.status == accepted in
      let told = tell_worker S O writes tells id s1 in
      let marked = mark_cancelled S O job told in
      let same : marked.store ≡ s1.store = store-marked job told ∙ store-told writes tells id s1 in
      let s3 : Server S O = record marked {
        store = (update_job id (finished cancelled now) marked.store).1;
      } in
      rw (h, cancel_job_by_id)
        (jobs-fire S O now job cancelled_data s3
          ∙ ap (λ (m : MemStore). (update_job id (finished cancelled now) m).1.jobs) same)

  of_jobs : (id : String) (m n : MemStore) → m.jobs ≡ n.jobs → IsCancelled id n → IsCancelled id m
  of_jobs id m n e (j, h, c) = (j, get_job-jobs id m n e ∙ h, c)

  -- The jobs that are not terminal.
  abbrev pub live : List Job → List Job
  live [] = []
  live (j ∷ jobs) = if is_terminal j.status then live jobs else j ∷ live jobs

  abbrev pub AreCancelled : List Job → MemStore → Type 0
  AreCancelled [] m = Unit {0}
  AreCancelled (j ∷ jobs) m = IsCancelled j.id m × AreCancelled jobs m

  abbrev pub AreKnown : List Job → MemStore → Type 0
  AreKnown [] m = Unit {0}
  AreKnown (j ∷ jobs) m = IsKnown j.id m × AreKnown jobs m

  update-AreKnown :
      (now : Time) (k : String) (jobs : List Job) (m : MemStore)
      → AreKnown jobs m
      → AreKnown jobs (update_job k (finished cancelled now) m).1
  update-AreKnown now k [] m h = tt
  update-AreKnown now k (j ∷ jobs) m h =
      (update-IsKnown now k j.id m h.0, update-AreKnown now k jobs m h.1)

  loop-AreCancelled :
      (now : Time) (writes : Bool) (children : List Job) (s : Server S O)
      → AreKnown children s.store
      → AreCancelled (live children) (cancel_children S O now writes children s).store
  unfolding cancel_children
  loop-AreCancelled now writes [] s h = tt
  loop-AreCancelled now writes (c ∷ children) s h =
      let s1 = cancel_child S O now writes c s in
      let known : AreKnown children s1.store = elim (cancel_child-cases now writes c s) [
        | inl e ↦ rw e h.1
        | inr e ↦ rw e (update-AreKnown now c.id children s.store h.1)
      ] in
      let rest = loop-AreCancelled now writes children s1 known in
      elim (Bool-cases (is_terminal c.status)) [
        | inl t ↦ rw t rest
        | inr f ↦ rw f (
          loop_keeps (IsCancelled c.id) now writes (λ i m p. update-IsCancelled now i c.id m p)
              children s1
              (rw (cancel_child-live now writes c s f) (update-cancels now c.id s.store h.0)),
          rest,
        )
      ]

  update-AreCancelled :
      (now : Time) (k : String) (jobs : List Job) (m : MemStore)
      → AreCancelled jobs m
      → AreCancelled jobs (update_job k (finished cancelled now) m).1
  update-AreCancelled now k [] m h = tt
  update-AreCancelled now k (j ∷ jobs) m h =
      (update-IsCancelled now k j.id m h.0, update-AreCancelled now k jobs m h.1)

  AreCancelled-of_jobs :
      (jobs : List Job) (m n : MemStore)
      → m.jobs ≡ n.jobs
      → AreCancelled jobs n
      → AreCancelled jobs m
  AreCancelled-of_jobs [] m n e h = tt
  AreCancelled-of_jobs (j ∷ jobs) m n e h =
      (of_jobs j.id m n e h.0, AreCancelled-of_jobs jobs m n e h.1)

  -- Cancelling a job that is known, with children that are, leaves it cancelled, and with it each of its
  -- children that was not terminal.
  pub cancel_job_by_id-IsCancelled :
      (now : Time) (writes : Bool) (id : String) (s : Server S O) (job : Job)
      → get_job id s.store ≡ some job
      → AreKnown (list_child_jobs id s.store) s.store
      → IsCancelled id (cancel_job_by_id S O now writes id s).store
        × AreCancelled
            (live (list_child_jobs id s.store))
            (cancel_job_by_id S O now writes id s).store
  cancel_job_by_id-IsCancelled now writes id s job h k =
      let children = list_child_jobs id s.store in
      let s1 = cancel_children S O now writes children s in
      let final = (update_job id (finished cancelled now) s1.store).1 in
      let same = store-cancel_job_by_id now writes id s job h in
      let known =
        loop_keeps (IsKnown id) now writes (λ i m p. update-IsKnown now i id m p) children s
          (job, h) in
      (
        of_jobs id _ final same (update-cancels now id s1.store known),
        AreCancelled-of_jobs (live children) _ final same (
            update-AreCancelled now id (live children) s1.store
              (loop-AreCancelled now writes children s k)),
      )
