-- ===== src/Contract/Worker.antt =====
-- contract/worker.go: the states of a worker, and the word that holds one atomically.
use workforce.Prelude.{ℕ, ◌≡◌, ◌↔◌, Bool, true, false, arith, Eq, ◌==◌, nat_eq, if◌then◌else◌}

pub data WorkerState : Type 0 where
  online pressure draining offline shutting_down : WorkerState

-- Which constant a state is.
abbrev pub index : WorkerState → ℕ
index online = 0
index pressure = 1
index draining = 2
index offline = 3
index shutting_down = 4

pub index_iff : (s t : WorkerState) → ((index s == index t) ≡ true) ↔ (s ≡ t)
index_iff s t = ground arith

instance abbrev pub worker_state_eq : Eq WorkerState
worker_state_eq = record { test = λ s t. index s == index t; decides = index_iff }

-- `AtomicWorkerState.Transition`: the new word, and whether it was swapped.
unfoldable pub transition : WorkerState → WorkerState → WorkerState → WorkerState × Bool
transition from to s = if s == from then (to, true) else (s, false)
