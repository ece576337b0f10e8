-- ===== src/Manager/Handlers/Consolidation.antt =====
-- manager/worker_conn_handler.go: the consolidation of a parent, by the handlers of its children.
use workforce.Prelude.{◌≡◌, refl, ◌∙◌, true, false, some, ◌==◌, string_eq, if_both}
use workforce.Contract.Job.{Job, consolidate, pending, awaiting_children, Time, status_eq}
use workforce.Store.{get_job, update_job, list_child_jobs}
use workforce.Store.Updates.{get_job-update_self}
use workforce.Manager.Config.{Config}
use workforce.Manager.Queue.{PriorityQueue, push_item, job_outranks}
use workforce.Manager.Server.{Outside, Server, enqueue_job}
use workforce.Manager.WorkerConn.{SimpleSet}
use workforce.Manager.Handlers.{
  schedule_consolidation, scheduled, consolidate_parent, to_consolidation, all_completed,
}

module _ (S : SimpleSet) (O : Outside) (c : Config) where
  abbrev pub waiting : Job → Time → Job
  waiting parent now = record parent { status = pending; phase = consolidate; updated_at = now }

  -- The queue with the parent in its second phase.
  abbrev pub with_parent : Job → PriorityQueue Job → PriorityQueue Job
  with_parent parent q =
      (push_item job_outranks (record parent { status = pending; phase = consolidate }) q).1

  record Scheduled (parent : Job) (now : Time) (s t : Server S O) : Type 0 where
    store : get_job parent.id t.store ≡ some (waiting parent now)
    queue : t.queue ≡ with_parent parent s.queue

  scheduled-Scheduled :
      (now : Time) (s : Server S O) (parent : Job)
      → get_job parent.id s.store ≡ some parent
      → parent.status ≡ awaiting_children
      → Scheduled parent now s (scheduled S O c now parent s)
  unfolding enqueue_job
  scheduled-Scheduled now s parent h a =
      let test : (parent.status == awaiting_children) ≡ true = rw a refl in
      let moved : get_job parent.id (update_job parent.id (to_consolidation S O c now) s.store).1
          ≡ some (waiting parent now) =
        get_job-update_self parent.id (to_consolidation S O c now) s.store parent h
        ∙ rw test refl in
      rw (h, scheduled, test) (record { store = moved; queue = refl })

  -- One that finds the parent in its second phase changes nothing of it.
  scheduled_after :
      (now : Time) (s : Server S O) (copy j : Job)
      → get_job copy.id s.store ≡ some j
      → (j.status == awaiting_children) ≡ false
      → (get_job copy.id (scheduled S O c now copy s).store ≡ some j)
        × ((scheduled S O c now copy s).queue ≡ s.queue)
  scheduled_after now s copy j h a =
      let kept : get_job copy.id (update_job copy.id (to_consolidation S O c now) s.store).1
          ≡ some j =
        get_job-update_self copy.id (to_consolidation S O c now) s.store j h ∙ rw a refl in
      rw (h, scheduled, a) (kept, refl)

  -- A handler whose child is one of the parent.
  consolidate_parent-child :
      (now : Time) (job parent : Job) (between : Server S O → Server S O) (s : Server S O)
      → job.parent_job_id ≡ parent.id
      → (parent.id == "") ≡ false
      → get_job parent.id s.store ≡ some parent
      → all_completed S O c (list_child_jobs parent.id s.store) ≡ true
      → consolidate_parent S O c now job between s ≡ scheduled S O c now parent (between s)
  unfolding consolidate_parent schedule_consolidation
  consolidate_parent-child now job parent between s e n h all =
      rw (e, n, all, h, schedule_consolidation) refl

  consolidate_parent-after :
      (now : Time) (job copy : Job) (s : Server S O)
      → job.parent_job_id ≡ copy.id
      → get_job copy.id s.store ≡ some copy
      → (copy.status == awaiting_children) ≡ false
      → (get_job copy.id (consolidate_parent S O c now job (λ t. t) s).store ≡ some copy)
        × ((consolidate_parent S O c now job (λ t. t) s).queue ≡ s.queue)
  unfolding consolidate_parent schedule_consolidation
  consolidate_parent-after now job copy s e h a =
      let P = λ (t : Server S O). (get_job copy.id t.store ≡ some copy) × (t.queue ≡ s.queue) in
      let found : P (schedule_consolidation S O c now copy.id (λ t. t) s) =
        rw (h, schedule_consolidation) (scheduled_after now s copy copy h a) in
      rw e (
        if_both P (copy.id == "") (h, refl)
          (if_both P (all_completed S O c (list_child_jobs copy.id s.store)) found (h, refl)))

  -- Two handlers of completed children of a waiting parent, of which all children are completed: the
  -- parent is in its second phase and queued once, whether the second runs after the first, or
  -- between the `GetJob` and the `UpdateJob` of the first.
  pub consolidate_parent_once :
      (now later : Time) (first second parent : Job) (s : Server S O)
      → first.parent_job_id ≡ parent.id
      → second.parent_job_id ≡ parent.id
      → (parent.id == "") ≡ false
      → get_job parent.id s.store ≡ some parent
      → parent.status ≡ awaiting_children
      → all_completed S O c (list_child_jobs parent.id s.store) ≡ true
      → (get_job parent.id
            (consolidate_parent S O c now first
              (consolidate_parent S O c later second (λ t. t))
              s).store
          ≡ some (waiting parent later))
        × ((consolidate_parent S O c now first
              (consolidate_parent S O c later second (λ t. t))
              s).queue
            ≡ with_parent parent s.queue)
        × (get_job parent.id
              (consolidate_parent S O c later second
                (λ t. t)
                (consolidate_parent S O c now first (λ t. t) s)).store
            ≡ some (waiting parent now))
        × ((consolidate_parent S O c later second
              (λ t. t)
              (consolidate_parent S O c now first (λ t. t) s)).queue
            ≡ with_parent parent s.queue)
  consolidate_parent_once now later first second parent s e1 e2 n h a all =
      let inner = consolidate_parent-child later second parent (λ t. t) s e2 n h all in
      let outer =
        consolidate_parent-child now first parent (consolidate_parent S O c later second (λ t. t)) s
          e1 n h all in
      let one = scheduled-Scheduled later s parent h a in
      let (kept, queued) =
        scheduled_after now (scheduled S O c later parent s) parent (waiting parent later) one.store
          refl in
      let alone = consolidate_parent-child now first parent (λ t. t) s e1 n h all in
      let two = scheduled-Scheduled now s parent h a in
      let (kept2, queued2) =
        consolidate_parent-after later second (waiting parent now) (scheduled S O c now parent s) e2
          two.store refl in
      (
        rw (outer, inner) kept,
        rw (outer, inner) (queued ∙ one.queue),
        rw alone kept2,
        rw alone (queued2 ∙ two.queue),
      )
