-- ===== src/Worker/Lifecycle.antt =====
-- worker/handle_message.go and worker/worker.go: draining, shutting down, and the heartbeat check.
use workforce.Prelude.{
  ℕ, String, ◌/◌, ◌^◌, ◌≤◌, ◌<◌, ◌≡◌, ◌≢◌, inl, inr, Bool, true, false, arith, string_eq, length,
  nat_eq, Option-cases,
}
use workforce.Prelude.Int.{pos, ◌-ℤ◌, wrap64, ltb_ℤ}
use workforce.Prelude.Dict.{lookup, delete, delete_absent, Fresh-lookup}
use workforce.Contract.Worker.{online, draining, shutting_down, worker_state_eq, transition}
use workforce.Worker.{
  Floats, Worker, drain, shutdown, close_done, handle_system, release_task, seconds,
  heartbeat_routine, shutdown_all,
}

no_lag :
    (now ack limit : ℕ)
    → now ≤ ack
    → ack < 2 ^ 63
    → ltb_ℤ (pos limit) (wrap64 (pos now -ℤ pos ack)) ≡ false
unfolding ◌-ℤ◌
no_lag now ack limit h b = ground arith

module _ (F : Floats) where
  -- A drain request on a worker that runs something waits: the end of a run leaves it draining and
  -- its connection as it was while a task is left, and shuts it down and closes the connection
  -- when none is.
  pub drain-release :
      (job_id : String) (w : Worker F)
      → 0 < length w.tasks
      → let w' = release_task F job_id (handle_system F drain w) in
        (w'.tasks ≡ delete job_id w.tasks)
        × (0 < length w'.tasks → (w'.state ≡ draining) × (w'.is_closed ≡ w.is_closed))
        × (length w'.tasks ≡ 0 → (w'.state ≡ shutting_down) × (w'.is_closed ≡ true))
  unfolding release_task handle_system
  drain-release job_id w h = elim (Option-cases (lookup job_id w.tasks)) [
    | inl e ↦
        let same = delete_absent job_id w.tasks (Fresh-lookup job_id w.tasks e) in
        (ground (arith, e, same), λ r. ground (arith, e, same), λ r. ground (arith, e, same))
    | inr (t, e) ↦ (ground (arith, e), λ r. ground (arith, e), λ r. ground (arith, e))
  ]

  -- An online worker that runs something and whose channel `done` is open is told to shut down, to
  -- drain and to shut down again: `close(w.done)` runs twice, and the second close panics.
  pub shutdown-drain-shutdown_panics :
      (w : Worker F)
      → w.state ≡ online
      → w.is_done ≡ false
      → 0 < length w.tasks
      → (handle_system F shutdown (handle_system F drain (handle_system F shutdown w))).panicked
        ≡ true
  unfolding handle_system close_done transition
  shutdown-drain-shutdown_panics w o d h = ground arith

  -- The heartbeat check takes the acknowledgement, in nanoseconds, from the clock in seconds. While
  -- the clock in seconds is at most that acknowledgement, as it is for any two times since 1970
  -- that are less than centuries apart, no timeout of at least zero is ever found to have passed.
  pub heartbeat_never_times_out :
      (now ack timeout : ℕ) (is_sent : Bool) (w : Worker F)
      → w.last_heartbeat_ack ≡ pos ack
      → w.heartbeat_timeout ≡ pos timeout
      → now ≤ ack
      → ack < 2 ^ 63
      → (heartbeat_routine F (pos now) is_sent w).0 ≢ shutdown_all
  unfolding heartbeat_routine seconds
  heartbeat_never_times_out now ack timeout is_sent w ha ht h b e =
      let early = no_lag now ack (timeout / 1_000_000_000) h b in ground (arith, ha, ht, early)
