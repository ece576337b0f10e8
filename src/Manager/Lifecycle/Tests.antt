-- ===== src/Manager/Lifecycle/Tests.antt =====
-- manager/manager.go on a parent with two children, one of them cancelled.
use workforce.Prelude.{◌+◌, ◌==◌, string_eq, ◌≡◌, refl, true, [], ◌∷◌}
use workforce.Contract.Job.{is_terminal}
use workforce.Store.{get_job, new_mem_store, list_child_jobs, sort_slice, insert_sorted}
use workforce.Store.Listing.Keys.{IsKeyed}
use workforce.Manager.Samples.{sets, outside, server, parent_job, running_job, cancelled_job}
use workforce.Manager.Lifecycle.{cancel_job_by_id, recover_jobs, on_jobs_requeued, reset}
use workforce.Manager.Lifecycle.Cancellation.{
  IsCancelled, AreCancelled, live, cancel_job_by_id-IsCancelled,
}
use workforce.Manager.Lifecycle.Requeue.{requeued, tally, on_jobs_requeued_pending}
use workforce.Manager.Queue.Counts.{count}
use workforce.Store.Updates.{mapped}
use workforce.Manager.Lifecycle.Recovery.{recovered, get_job-recover_jobs}

server-IsKeyed : IsKeyed server.store
unfolding new_mem_store
server-IsKeyed = record {
  jobs = (refl, refl, (refl, (refl, tt)), (refl, refl, (refl, tt), (refl, refl, tt, tt)));
}

get_job-recover_jobs_example :
    get_job "first" (recover_jobs sets outside 50 server).store
    ≡ recovered (get_job "first" server.store)
get_job-recover_jobs_example = get_job-recover_jobs sets outside 50 server "first" server-IsKeyed

cancel_job_by_id-IsCancelled_example :
    IsCancelled "parent" (cancel_job_by_id sets outside 50 true "parent" server).store
    × AreCancelled sets outside
        (live sets outside (list_child_jobs "parent" server.store))
        (cancel_job_by_id sets outside 50 true "parent" server).store
unfolding get_job new_mem_store list_child_jobs sort_slice insert_sorted is_terminal
cancel_job_by_id-IsCancelled_example =
    cancel_job_by_id-IsCancelled sets outside 50 true "parent" server parent_job refl
      ((cancelled_job, refl), ((running_job, refl), tt))

on_jobs_requeued_pending_example :
    (get_job "second" (on_jobs_requeued sets outside 50 ("second" ∷ "first" ∷ []) server).store
      ≡ mapped reset (get_job "second" server.store))
    × (count
          (λ j. j.id == "second")
          (on_jobs_requeued sets outside 50 ("second" ∷ "first" ∷ []) server).queue.items
        ≡ tally (λ j. j.id == "second") (requeued ("second" ∷ "first" ∷ []) server.store)
          + count (λ j. j.id == "second") server.queue.items)
on_jobs_requeued_pending_example =
    on_jobs_requeued_pending sets outside 50 ("second" ∷ "first" ∷ []) server "second"
      (λ j. j.id == "second")
