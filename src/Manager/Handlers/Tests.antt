-- ===== src/Manager/Handlers/Tests.antt =====
-- manager/worker_conn_handler.go on a parent with two children, one of them cancelled.
use workforce.Prelude.{◌≡◌, refl, true, some, [], ◌∷◌}
use workforce.Prelude.Int.{pos, ◌+ℤ◌, wrap64}
use workforce.Contract.Job.{Job, completed, is_terminal}
use workforce.Store.{get_job, new_mem_store, list_child_jobs, sort_slice, insert_sorted}
use workforce.Manager.Server.{Server}
use workforce.Manager.Samples.{
  sets, outside, config, server, failure, parent_job, running_job, cancelled_job,
}
use workforce.Manager.Handlers.{consolidate_parent, all_completed}
use workforce.Manager.Handlers.Consolidation.{consolidate_parent_once, waiting, with_parent}
use workforce.Manager.Handlers.Failures.{
  handle_job_error, record_failure, retries_job, effective_policy,
}
use workforce.Manager.Handlers.Results.{
  KeepsJobs, handle_result_terminal, handle_result-error_terminal,
}
use workforce.Manager.Handlers.Retries.{Outcome, handle_job_error-Outcome}
use workforce.Manager.Handlers.Step.{handle_result}

handle_result_terminal_example :
    (s' : Server sets outside) × (handle_result sets outside config 50 true 0
        (failure "second")
        server
      ≡ some s')
    × KeepsJobs sets outside config server s'
unfolding get_job is_terminal new_mem_store
handle_result_terminal_example =
    handle_result_terminal sets outside config 50 true 0 (failure "second") server cancelled_job
      refl refl

handle_result-error_terminal_example :
    (s' : Server sets outside) × (handle_result sets outside config 50 true 0
        (failure "second")
        server
      ≡ some s')
    × (s'.pool ≡ server.pool)
unfolding get_job is_terminal new_mem_store
handle_result-error_terminal_example =
    handle_result-error_terminal sets outside config 50 true 0 (failure "second") server
      cancelled_job refl refl refl

handle_job_error-Outcome_example :
    (j : Job) × (get_job "first"
        (handle_job_error sets outside config 50 0 running_job (failure "first") server).store
      ≡ some j)
    × (j.attempts ≡ wrap64 (pos 0 +ℤ pos 1))
    × Outcome sets outside config
        (retries_job sets outside config running_job
          (failure "first")
          (wrap64 (pos 0 +ℤ pos 1))
          (record_failure sets outside config 50 0 running_job (failure "first") server))
        50
        running_job
        (effective_policy sets outside config running_job
          (record_failure sets outside config 50 0 running_job (failure "first") server))
        server
        (handle_job_error sets outside config 50 0 running_job (failure "first") server)
        j
unfolding get_job is_terminal new_mem_store
handle_job_error-Outcome_example =
    handle_job_error-Outcome sets outside config 50 0 running_job (failure "first") server refl refl

-- The same with both children completed.
abbrev first_done : Job
first_done = record running_job { status = completed }

abbrev second_done : Job
second_done = record cancelled_job { status = completed }

abbrev all_done : Server sets outside
all_done = record server {
  store = record server.store {
    jobs =
        ("parent", parent_job) ∷ (first_done.id, first_done) ∷ (second_done.id, second_done) ∷ [];
  };
}

consolidate_parent_once_example :
    (get_job "parent"
        (consolidate_parent sets outside config 60 first_done
          (consolidate_parent sets outside config 70 second_done (λ t. t))
          all_done).store
      ≡ some (waiting sets outside config parent_job 70))
    × ((consolidate_parent sets outside config 60 first_done
          (consolidate_parent sets outside config 70 second_done (λ t. t))
          all_done).queue
        ≡ with_parent sets outside config parent_job all_done.queue)
    × (get_job "parent"
          (consolidate_parent sets outside config 70 second_done
            (λ t. t)
            (consolidate_parent sets outside config 60 first_done (λ t. t) all_done)).store
        ≡ some (waiting sets outside config parent_job 60))
    × ((consolidate_parent sets outside config 70 second_done
          (λ t. t)
          (consolidate_parent sets outside config 60 first_done (λ t. t) all_done)).queue
        ≡ with_parent sets outside config parent_job all_done.queue)
unfolding get_job new_mem_store list_child_jobs sort_slice insert_sorted all_completed is_terminal
consolidate_parent_once_example =
    consolidate_parent_once sets outside config 60 70 first_done second_done parent_job all_done
      refl refl refl refl refl refl
