-- ===== src/Worker/Accounting.antt =====
-- worker/handle_message.go: `usedCap` against the cost of the accepted and the running jobs, and the
-- declared capacity.
use workforce.Prelude.{
  String, ◌^◌, ◌<◌, ◌≡◌, refl, inl, inr, Bool, none, List, [], ◌∷◌, arith, Bool-cases, Option-cases,
  string_eq, nat_eq,
}
use workforce.Prelude.Int.{ℤ, pos_part, neg_part, ◌+ℤ◌, wrap64, ltb_ℤ}
use workforce.Prelude.Dict.{lookup, total}
use workforce.Contract.Worker.{worker_state_eq}
use workforce.Worker.{
  Floats, Worker, ProposeMessage, DispatchMessage, SystemCommand, drain, shutdown, send, check_deps,
  reserve, handle_propose, stage, handle_dispatch, handle_system, close_done, handle_cancel,
  release_task, connect, handle_heartbeat, heartbeat_routine, sample_state, Event, proposed,
  dispatched, commanded, cancelled, finished, acknowledged, beat, step, run,
}
use workforce.Worker.Books.{Balanced, insert_job, move_job, drop_task, mark_task}

module _ (F : Floats) where
  pub record IsBalanced (w : Worker F) : Type 0 where
    pub books : Balanced w.pending_jobs w.tasks w.used_cap w.capacity

  -- A proposal has a cost from 0 to 2^62 - 1 and is no second proposal of an accepted job; a
  -- dispatched job is not running already.
  abbrev pub IsFair : Event → Worker F → Type 0
  IsFair (proposed look_path m) w =
      (lookup m.job_id w.pending_jobs ≡ none) × (neg_part m.cost ≡ 0) × (pos_part m.cost < 2 ^ 62)
  IsFair (dispatched m) w = lookup m.job_id w.tasks ≡ none
  IsFair (commanded command) w = Unit {0}
  IsFair (cancelled job_id) w = Unit {0}
  IsFair (finished job_id) w = Unit {0}
  IsFair (acknowledged now) w = Unit {0}
  IsFair (beat now is_sent) w = Unit {0}

  abbrev pub AreFair : Worker F → List Event → Type 0
  AreFair w [] = Unit {0}
  AreFair w (e ∷ es) = IsFair e w × AreFair (step F e w) es

  reserve-IsBalanced :
      (m : ProposeMessage) (w : Worker F)
      → IsBalanced w
      → lookup m.job_id w.pending_jobs ≡ none
      → neg_part m.cost ≡ 0
      → pos_part m.cost < 2 ^ 62
      → IsBalanced (reserve F m w)
  unfolding reserve send
  reserve-IsBalanced m w b fresh priced small =
      elim (Bool-cases (ltb_ℤ w.capacity (wrap64 (w.used_cap +ℤ m.cost)))) [
        | inl full ↦ rw full (record { books = b.books })
        | inr fits ↦ rw fits (record {
          books =
              insert_job w.pending_jobs w.tasks w.used_cap w.capacity m b.books fresh priced small
                fits;
        })
      ]

  handle_propose-IsBalanced :
      (look_path : String → Bool) (m : ProposeMessage) (w : Worker F)
      → IsBalanced w
      → IsFair (proposed look_path m) w
      → IsBalanced (handle_propose F look_path m w)
  unfolding handle_propose send
  handle_propose-IsBalanced look_path m w b f =
      let (missing, cache) = check_deps F look_path m.artifact_deps w.dep_cache in
      ground
        (arith, reserve-IsBalanced m (record w { dep_cache = cache }) (record { books = b.books }))

  handle_dispatch-IsBalanced :
      (m : DispatchMessage) (w : Worker F)
      → IsBalanced w
      → lookup m.job_id w.tasks ≡ none
      → IsBalanced (handle_dispatch F m w)
  unfolding handle_dispatch stage send
  handle_dispatch-IsBalanced m w b f = elim (Option-cases (lookup m.job_id w.pending_jobs)) [
    | inl e ↦ rw (e, handle_dispatch) (record { books = b.books })
    | inr (p, e) ↦
        rw (e, handle_dispatch)
          (record {
            books =
                move_job w.pending_jobs w.tasks w.used_cap w.capacity m.job_id m.run_id p b.books e
                  f;
          })
  ]

  handle_cancel-IsBalanced :
      (job_id : String) (w : Worker F) → IsBalanced w → IsBalanced (handle_cancel F job_id w)
  unfolding handle_cancel
  handle_cancel-IsBalanced job_id w b = elim (Option-cases (lookup job_id w.tasks)) [
    | inl e ↦ rw (e, handle_cancel) b
    | inr (t, e) ↦
        rw (e, handle_cancel)
          (record {
            books = mark_task w.pending_jobs w.tasks w.used_cap w.capacity job_id t b.books e;
          })
  ]

  release_task-IsBalanced :
      (job_id : String) (w : Worker F) → IsBalanced w → IsBalanced (release_task F job_id w)
  unfolding release_task
  release_task-IsBalanced job_id w b = elim (Option-cases (lookup job_id w.tasks)) [
    | inl e ↦ rw (e, release_task) (ground arith)
    | inr (t, e) ↦
        let done = drop_task w.pending_jobs w.tasks w.used_cap w.capacity job_id t b.books e in
        rw (e, release_task) (ground (arith, done))
  ]

  handle_system-IsBalanced :
      (command : SystemCommand) (w : Worker F)
      → IsBalanced w
      → IsBalanced (handle_system F command w)
  unfolding handle_system close_done
  handle_system-IsBalanced drain w b = ground arith
  handle_system-IsBalanced shutdown w b = ground arith

  sample_state-IsBalanced : (w : Worker F) → IsBalanced w → IsBalanced (sample_state F w)
  unfolding sample_state
  sample_state-IsBalanced w b = ground arith

  heartbeat_routine-IsBalanced :
      (now : ℤ) (is_sent : Bool) (w : Worker F)
      → IsBalanced w
      → IsBalanced (heartbeat_routine F now is_sent w).1
  unfolding heartbeat_routine
  heartbeat_routine-IsBalanced now is_sent w b = ground (arith, sample_state-IsBalanced w b)

  -- From a state in which `usedCap` is exactly the cost of the accepted and the running jobs and
  -- fits the capacity, every fair event leads to such a state again, whatever it answers.
  pub step-IsBalanced :
      (e : Event) (w : Worker F) → IsBalanced w → IsFair e w → IsBalanced (step F e w)
  unfolding step handle_heartbeat
  step-IsBalanced (proposed look_path m) w b f = handle_propose-IsBalanced look_path m w b f
  step-IsBalanced (dispatched m) w b f = handle_dispatch-IsBalanced m w b f
  step-IsBalanced (commanded command) w b f = handle_system-IsBalanced command w b
  step-IsBalanced (cancelled job_id) w b f = handle_cancel-IsBalanced job_id w b
  step-IsBalanced (finished job_id) w b f = release_task-IsBalanced job_id w b
  step-IsBalanced (acknowledged now) w b f = record { books = b.books }
  step-IsBalanced (beat now is_sent) w b f = heartbeat_routine-IsBalanced now is_sent w b

  run_from-IsBalanced :
      (w : Worker F) (es : List Event) → IsBalanced w → AreFair w es → IsBalanced (run F w es)
  unfolding run
  run_from-IsBalanced w [] b f = b
  run_from-IsBalanced w (e ∷ es) b f =
      run_from-IsBalanced (step F e w) es (step-IsBalanced e w b f.0) f.1

  -- After a handshake, any fair history keeps `usedCap` equal to the cost of the accepted and the
  -- running jobs, and at most the capacity, which is from 0 to 2^62 - 1.
  pub run-IsBalanced :
      (ack : ℤ) (w : Worker F) (es : List Event)
      → neg_part w.capacity ≡ 0
      → pos_part w.capacity < 2 ^ 62
      → AreFair (connect F ack w) es
      → IsBalanced (run F (connect F ack w) es)
  run-IsBalanced ack w es positive small f = run_from-IsBalanced _ es fresh f
    where
      fresh : IsBalanced (connect F ack w)
      fresh =
          unfold connect total in
          record {
            books = record {
              jobs_map = tt;
              tasks_map = tt;
              priced = tt;
              loaded = tt;
              exact = refl;
              within = omega arith;
              small = small;
              positive = positive;
            };
          }
