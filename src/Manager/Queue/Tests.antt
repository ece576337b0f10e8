-- ===== src/Manager/Queue/Tests.antt =====
-- manager/priority_heap.go on three jobs of the priorities 5, 9 and 1.
use workforce.Prelude.{ℕ, suc, ◌+◌, ◌≡◌, refl, true, false, some, [], ◌∷◌, arith, length, get_elem?}
use workforce.Prelude.Int.{pos}
use workforce.Contract.Job.{Job, zero_job}
use workforce.Manager.Queue.{
  Item, PriorityQueue, swap, less, down, init, push_item, pop_item, reheapify, job_outranks,
}
use workforce.Manager.Queue.Counts.{count, count-push_item, count-pop_item, weight}
use workforce.Manager.Queue.Pop.{IsOrdered, pop_item_highest, pop_item-IsOrdered}
use workforce.Manager.Queue.Push.{push_item-IsOrdered, reheapify-IsOrdered, job_outranks-IsOrder}

abbrev job : ℕ → Job
job p = record zero_job { priority = pos p }

abbrev cell : ℕ → ℕ → Item Job
cell i p = record { ref = i; value = job p; index = i }

abbrev mixed : PriorityQueue Job
mixed = record { items = cell 0 5 ∷ cell 1 9 ∷ cell 2 1 ∷ []; next_ref = 3 }

reheapify-IsOrdered_example :
    IsOrdered job_outranks job_outranks-IsOrder (reheapify job_outranks mixed)
reheapify-IsOrdered_example = reheapify-IsOrdered job_outranks job_outranks-IsOrder mixed

push_item-IsOrdered_example :
    IsOrdered job_outranks job_outranks-IsOrder
      (push_item job_outranks (job 7) (reheapify job_outranks mixed)).1
push_item-IsOrdered_example =
    push_item-IsOrdered job_outranks job_outranks-IsOrder (job 7) (reheapify job_outranks mixed)
      reheapify-IsOrdered_example

pop_item-IsOrdered_example :
    IsOrdered job_outranks job_outranks-IsOrder
      (pop_item job_outranks (reheapify job_outranks mixed)).1
pop_item-IsOrdered_example =
    pop_item-IsOrdered job_outranks job_outranks-IsOrder (reheapify job_outranks mixed)
      reheapify-IsOrdered_example

-- The job of priority 9 comes first.
pops_highest : (pop_item job_outranks (reheapify job_outranks mixed)).0 ≡ some (job 9)
unfolding pop_item reheapify init down swap less job_outranks
pops_highest = refl

second_at :
    get_elem? (reheapify job_outranks mixed).items 1
    ≡ some (record { ref = 0; value = job 5; index = 1 })
unfolding reheapify init down swap less job_outranks
second_at = refl

pop_item_highest_example : job_outranks (job 5) (job 9) ≡ false
pop_item_highest_example =
    pop_item_highest job_outranks job_outranks-IsOrder (reheapify job_outranks mixed) (job 9)
      reheapify-IsOrdered_example pops_highest 1 (record { ref = 0; value = job 5; index = 1 })
      second_at

count-push_item_example :
    count (λ v. true) (push_item job_outranks (job 7) mixed).1.items
    ≡ weight (λ v. true) (job 7) + count (λ v. true) mixed.items
count-push_item_example = count-push_item (λ v. true) job_outranks (job 7) mixed

count-pop_item_example :
    (v : Job) × ((pop_item job_outranks mixed).0 ≡ some v)
    × (count (λ v. true) mixed.items
        ≡ weight (λ v. true) v + count (λ v. true) (pop_item job_outranks mixed).1.items)
    × (length mixed.items ≡ suc (length (pop_item job_outranks mixed).1.items))
count-pop_item_example = count-pop_item (λ v. true) job_outranks mixed (omega arith)
