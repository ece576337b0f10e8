-- ===== src/Manager/WorkerConn/Capacity.antt =====
-- manager/worker_conn.go, `AssignTask` and `CompleteTask`: when a worker takes a job, and what it
-- counts as occupied.
use workforce.Prelude.{
  ℕ, ◌+◌, ◌-◌, ◌^◌, ◌≤◌, ◌<◌, ◌≡◌, refl, ap, ◌∙◌, String, not, none, some, List, [], ◌∷◌, inl, inr,
  arith, ltb, leb, if◌then◌else◌, string_eq, nat_eq, eq_iff, Bool-cases, is_some,
}
use workforce.Prelude.Int.{pos, ◌+ℤ◌, ◌-ℤ◌, ltb_ℤ, wrap64, add_pos64}
use workforce.Prelude.Dict.{
  Dict, lookup, insert, delete, IsMap, total, insert-IsMap, delete-IsMap, total-insert,
  total-delete, lookup-insert, lookup-delete,
}
use workforce.Contract.Job.{Time}
use workforce.Manager.WorkerConn.{
  SimpleSet, IsSimpleSet, WorkerConn, at_capacity, insufficient_capacity, assign_task,
  complete_task, new_worker_conn, is_in_flight,
}

-- The two tests of `AssignTask`, on numbers.
takes_lem :
    (c o k : ℕ)
    → c < 2 ^ 62
    → o < 2 ^ 62
    → k < 2 ^ 62
    → ((not (ltb_ℤ (pos 0) (wrap64 (pos c -ℤ pos o))) ≡ leb c o))
      × (o < c → ltb_ℤ (wrap64 (wrap64 (pos c -ℤ pos o) -ℤ pos k)) (pos 0) ≡ ltb c (o + k))
unfolding ◌-ℤ◌
takes_lem c o k hc ho hk = (ground arith, λ lt. ground arith)

add_lem : (o k : ℕ) → o < 2 ^ 62 → k < 2 ^ 62 → wrap64 (pos o +ℤ pos k) ≡ pos (o + k)
add_lem o k ho hk = add_pos64 o (pos k) refl (omega (arith))

left_lem :
    (o k : ℕ)
    → k ≤ o
    → o < 2 ^ 62
    → (if ltb_ℤ (wrap64 (pos o -ℤ pos k)) (pos 0) then pos 0 else wrap64 (pos o -ℤ pos k))
      ≡ pos (o - k)
unfolding ◌-ℤ◌
left_lem o k le ho = ground arith

-- The cost of each job that the worker has taken and not completed.
abbrev pub Ledger : Type 0
Ledger = Dict String ℕ

abbrev pub price : ℕ → ℕ
price k = k

-- What dispatching and the handlers do to a worker's capacity.
pub data Event : Type 0 where
  assigned : String → ℕ → Event
  completed : Time → String → ℕ → Event

module _ (S : SimpleSet) where
  abbrev taken : String → ℕ → ℕ → WorkerConn S → WorkerConn S
  taken task_id o k w = record w {
    in_flight = S.add task_id w.in_flight;
    occupied_cost = pos (o + k);
    last_idle_notified = 0;
  }

  -- A worker takes a job exactly if it is not full and the job fits what is left, for a capacity,
  -- an occupied cost and a job's cost from 0 to 2^62 - 1. It then notes the job and its cost, and
  -- else it stays as it was.
  pub assign_task-cases :
      (task_id : String) (c o k : ℕ) (w : WorkerConn S)
      → w.capacity ≡ pos c
      → w.occupied_cost ≡ pos o
      → c < 2 ^ 62
      → o < 2 ^ 62
      → k < 2 ^ 62
      → assign_task S task_id (pos k) w ≡ (
          if leb c o
          then (some at_capacity, w)
          else if ltb c (o + k)
          then (some insufficient_capacity, w)
          else (none, taken task_id o k w))
  unfolding assign_task
  assign_task-cases task_id c o k w hc ho bc bo bk =
      let (full, fits) = takes_lem c o k bc bo bk in
      rw (hc, ho, full)
        (elim (Bool-cases (leb c o)) [
          | inl e ↦ rw e
          | inr e ↦ rw (e, fits (ground arith), add_lem o k bo bk)
        ])

  unfoldable pub note : Event → WorkerConn S × Ledger → WorkerConn S × Ledger
  note (assigned task_id k) (w, ledger) =
      let (error, w') = assign_task S task_id (pos k) w in
      (w', if is_some error then ledger else insert task_id k ledger)
  note (completed now task_id k) (w, ledger) =
      (complete_task S now task_id (pos k) w, delete task_id ledger)

  pub note_all : List Event → WorkerConn S × Ledger → WorkerConn S × Ledger
  note_all [] s = s
  note_all (e ∷ es) s = note_all es (note e s)

  -- A job is assigned once, at a cost below 2^62, and completed with the cost of its assignment.
  abbrev pub IsFair : Event → WorkerConn S × Ledger → Type 0
  IsFair (assigned task_id k) (w, ledger) = (lookup task_id ledger ≡ none) × (k < 2 ^ 62)
  IsFair (completed now task_id k) (w, ledger) = lookup task_id ledger ≡ some k

  abbrev pub AreFair : List Event → WorkerConn S × Ledger → Type 0
  AreFair [] s = Unit {0}
  AreFair (e ∷ es) s = IsFair e s × AreFair es (note e s)

  pub record IsSettled (c : ℕ) (s : WorkerConn S × Ledger) : Type 0 where
    pub capacity : s.0.capacity ≡ pos c
    pub small : c < 2 ^ 62
    pub keys : IsMap s.1
    pub exact : s.0.occupied_cost ≡ pos (total price s.1)
    pub within : total price s.1 ≤ c
    pub held : (j : String) → is_in_flight S j s.0 ≡ is_some (lookup j s.1)

module _ (S : SimpleSet) (laws : IsSimpleSet S) where
  assigned-IsSettled :
      (c : ℕ) (task_id : String) (k : ℕ) (w : WorkerConn S) (ledger : Ledger)
      → IsSettled S c (w, ledger)
      → IsFair S (assigned task_id k) (w, ledger)
      → IsSettled S c (note S (assigned task_id k) (w, ledger))
  unfolding note is_in_flight
  assigned-IsSettled c task_id k w ledger h f =
      let o = total price ledger in
      let sum = total-insert price task_id k ledger f.0 in
      let taken_or_not =
        assign_task-cases S task_id c o k w h.capacity h.exact h.small
          (omega (arith, h.within, h.small)) f.1 in
      rw taken_or_not (elim (Bool-cases (leb c o)) [
        | inl e ↦ rw e h
        | inr e ↦ elim (Bool-cases (ltb c (o + k))) [
          | inl t ↦ rw (e, t) h
          | inr t ↦
              rw (e, t)
                (record {
                  capacity = h.capacity;
                  small = h.small;
                  keys = insert-IsMap task_id k ledger h.keys;
                  exact = ap pos (omega (arith, sum));
                  within = ground (arith, sum);
                  held = λ j. ground (
                    arith,
                    laws.has-add task_id j w.in_flight,
                    h.held j,
                    lookup-insert task_id j k ledger,
                    eq_iff task_id j,
                  );
                })
        ]
      ])

  completed-IsSettled :
      (c : ℕ) (now : Time) (task_id : String) (k : ℕ) (w : WorkerConn S) (ledger : Ledger)
      → IsSettled S c (w, ledger)
      → IsFair S (completed now task_id k) (w, ledger)
      → IsSettled S c (note S (completed now task_id k) (w, ledger))
  unfolding note complete_task is_in_flight
  completed-IsSettled c now task_id k w ledger h f =
      let o = total price ledger in
      let less = total-delete price task_id k ledger h.keys f in
      record {
        capacity = h.capacity;
        small = h.small;
        keys = delete-IsMap task_id ledger h.keys;
        exact = rw h.exact (
            left_lem o k (omega (arith, less)) (omega (arith, h.within, h.small))
            ∙ ap pos (omega (arith, less)));
        within = omega (arith, less, h.within);
        held = λ j. ground (
          arith,
          laws.has-remove task_id j w.in_flight,
          h.held j,
          lookup-delete task_id j ledger,
        );
      }

  note_all_from-IsSettled :
      (c : ℕ) (es : List Event) (w : WorkerConn S) (ledger : Ledger)
      → IsSettled S c (w, ledger)
      → AreFair S es (w, ledger)
      → IsSettled S c (note_all S es (w, ledger))
  unfolding note_all note
  note_all_from-IsSettled c [] w ledger h f = h
  note_all_from-IsSettled c (assigned task_id k ∷ es) w ledger h f =
      note_all_from-IsSettled c es _ _ (assigned-IsSettled c task_id k w ledger h f.0) f.1
  note_all_from-IsSettled c (completed now task_id k ∷ es) w ledger h f =
      note_all_from-IsSettled c es _ _ (completed-IsSettled c now task_id k w ledger h f.0) f.1

  -- For a new worker with a capacity below 2^62, and any fair history of assignments, successful or
  -- not, and completions: what it counts as occupied is the cost of the jobs that it has taken and
  -- not completed, which is at most its capacity, and these jobs are the ones in flight.
  pub note_all-IsSettled :
      (now : Time) (id os arch : String) (c : ℕ) (es : List Event)
      → c < 2 ^ 62
      → AreFair S es (new_worker_conn S now id os arch (pos c), [])
      → IsSettled S c (note_all S es (new_worker_conn S now id os arch (pos c), []))
  note_all-IsSettled now id os arch c es small f = note_all_from-IsSettled c es _ _ fresh f
    where
      fresh : IsSettled S c (new_worker_conn S now id os arch (pos c), [])
      fresh =
          unfold new_worker_conn total is_in_flight in
          record {
            capacity = refl;
            small = small;
            keys = tt;
            exact = refl;
            within = omega arith;
            held = λ j. laws.has-empty j;
          }
