-- ===== src/Manager/WorkerConn/Tests.antt =====
-- manager/worker_conn.go on a worker of capacity 8, with lists of texts for the sets.
use workforce.Prelude.{
  ◌≡◌, refl, String, Bool, false, not, ◌||◌, ◌&&◌, some, List, [], ◌∷◌, arith, length, ◌==◌,
  string_eq, if◌then◌else◌,
}
use workforce.Prelude.Int.{pos, ◌+ℤ◌, ◌-ℤ◌}
use workforce.Prelude.Dict.{insert, delete}
use workforce.Manager.WorkerConn.{
  SimpleSet, IsSimpleSet, WorkerConn, insufficient_capacity, new_worker_conn, assign_task,
  complete_task,
}
use workforce.Manager.WorkerConn.Capacity.{
  Event, assigned, completed, note, note_all, AreFair, IsSettled, assign_task-cases,
  note_all-IsSettled,
}

abbrev member : String → List String → Bool
member j [] = false
member j (x ∷ xs) = x == j || member j xs

abbrev without : String → List String → List String
without k [] = []
without k (x ∷ xs) = let rest = without k xs in if x == k then rest else x ∷ rest

abbrev lists : SimpleSet
lists = record {
  Set = List String;
  empty = [];
  add = λ k s. k ∷ s;
  remove = without;
  has = member;
  size = λ s. length s;
  snapshot = λ s. s;
}

member-without :
    (k j : String) (s : List String) → member j (without k s) ≡ (not (k == j) && member j s)
member-without k j [] = ground arith
member-without k j (x ∷ xs) = ground (
  arith,
  member-without k j xs,
  string_eq.decides x k,
  string_eq.decides x j,
  string_eq.decides k j,
)

lists-IsSimpleSet : IsSimpleSet lists
lists-IsSimpleSet = record {
  has-empty = λ k. refl;
  has-add = λ k j s. refl;
  has-remove = member-without;
}

abbrev worker : WorkerConn lists
worker = record (new_worker_conn lists 100 "w" "linux" "amd64" (pos 8)) { occupied_cost = pos 6 }

capacity_8 : worker.capacity ≡ pos 8
unfolding new_worker_conn
capacity_8 = refl

assign_task-cases_example :
    assign_task lists "job-1" (pos 3) worker ≡ (some insufficient_capacity, worker)
assign_task-cases_example =
    assign_task-cases lists "job-1" 8 6 3 worker capacity_8 refl (ground arith) (ground arith)
      (ground arith)

abbrev history : List Event
history =
    assigned "job-1" 5 ∷ assigned "job-2" 4 ∷ assigned "job-3" 3 ∷ completed 200 "job-1" 5 ∷ []

history_fair : AreFair lists history (new_worker_conn lists 100 "w" "linux" "amd64" (pos 8), [])
unfolding note assign_task complete_task new_worker_conn insert delete ◌+ℤ◌ ◌-ℤ◌
history_fair = ((refl, ground arith), ((refl, ground arith), ((refl, ground arith), (refl, tt))))

note_all-IsSettled_example :
    IsSettled lists 8
      (note_all lists history (new_worker_conn lists 100 "w" "linux" "amd64" (pos 8), []))
note_all-IsSettled_example =
    note_all-IsSettled lists lists-IsSimpleSet 100 "w" "linux" "amd64" 8 history (ground arith)
      history_fair
