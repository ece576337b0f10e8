-- ===== src/Manager/Queue.antt =====
-- The priority queue (manager/priority_heap.go) over Go's container/heap, whose loops run on fuel:
-- `up` moves towards 0, and `down` away from it and below the length. An `*Item` is a number; the
-- array holds what it points to. An item that was popped, whose index is -1, is no longer there.
pub mod Counts
pub mod Order
pub mod Values
pub mod Sift
pub mod Pop
pub mod Push
mod Tests
use workforce.Prelude.{
  ℕ, zero, suc, ◌+◌, ◌-◌, ◌*◌, ◌/◌, Bool, true, false, not, ◌&&◌, ◌||◌, Option, none, some, List,
  [], ◌∷◌, ◌++◌, map, length, get_elem?, set, take, ltb, leb, if◌then◌else◌, ◌==◌, nat_eq,
}
use workforce.Prelude.Int.{ltb_ℤ, eqb_ℤ}
use workforce.Contract.Job.{Job}

pub record Item (T : Type 0) : Type 0 where
  pub ref : ℕ
  pub value : T
  pub index : ℕ

pub record PriorityQueue (T : Type 0) : Type 0 where
  pub items : List (Item T)
  pub next_ref : ℕ

module _ {T : Type 0} where
  pub new_priority_queue : PriorityQueue T
  new_priority_queue = record { items = []; next_ref = 0 }

  abbrev values : List (Item T) → List T
  values items = map (λ it. it.value) items

  -- `Snapshot` and `Values`, in the order of the array.
  abbrev pub queue_values : PriorityQueue T → List T
  queue_values q = map (λ it. it.value) q.items

  -- `Swap`
  pub swap : ℕ → ℕ → List (Item T) → List (Item T)
  swap i j items = elim (get_elem? items i) [
    | none ↦ items
    | some a ↦ elim (get_elem? items j) [
      | none ↦ items
      | some b ↦ set (set items i (record b { index = i })) j (record a { index = j })
    ]
  ]

module _ {T : Type 0} (is_higher : T → T → Bool) where
  -- `Less`
  pub less : List (Item T) → ℕ → ℕ → Bool
  less items i j = elim (get_elem? items i) [
    | none ↦ false
    | some a ↦ elim (get_elem? items j) [ none ↦ false | some b ↦ is_higher a.value b.value ]
  ]

  pub up : ℕ → ℕ → List (Item T) → List (Item T)
  up zero j items = items
  up (suc fuel) j items =
      let i = (j - 1) / 2 in
      let rest = up fuel i (swap i j items) in
      if i == j || not (less items j i) then items else rest

  -- The child that `down` compares with.
  abbrev pub child : ℕ → ℕ → List (Item T) → ℕ
  child i n items =
      let j1 = 2 * i + 1 in if ltb (j1 + 1) n && less items (j1 + 1) j1 then j1 + 1 else j1

  -- Where the item ended up, and the array.
  pub down : ℕ → ℕ → ℕ → List (Item T) → ℕ × List (Item T)
  down zero i n items = (i, items)
  down (suc fuel) i n items =
      let j = child i n items in
      let rest = down fuel j n (swap i j items) in
      if leb n (2 * i + 1) || not (less items j i) then (i, items) else rest

  -- `heap.Init`: the positions below `k`, from the last.
  pub init : ℕ → List (Item T) → List (Item T)
  init zero items = items
  init (suc k) items = init k (down (length items) k (length items) items).1

  -- `heap.Fix`
  pub fix : ℕ → List (Item T) → List (Item T)
  fix i items =
      let (k, items') = down (length items) i (length items) items in
      if ltb i k then items' else up (length items) i items'

  -- The pointer to the item, and the queue.
  pub push_item : T → PriorityQueue T → ℕ × PriorityQueue T
  push_item v q =
      let n = length q.items in
      let item : Item T = record { ref = q.next_ref; value = v; index = n } in
      (
        q.next_ref,
        record { items = up (suc n) n (q.items ++ item ∷ []); next_ref = suc q.next_ref },
      )

  -- `heap.Pop` on a queue that is not empty: the last place after the swap, and what is left.
  pub pop_item : PriorityQueue T → Option T × PriorityQueue T
  pop_item q =
      let n = length q.items - 1 in
      let items' = (down n 0 n (swap 0 n q.items)).1 in
      elim (get_elem? items' n) [
        | none ↦ (none, q)
        | some item ↦ (some item.value, record q { items = take n items' })
      ]

  -- The item that a pointer leads to.
  pub find_ref : ℕ → List (Item T) → Option (Item T)
  find_ref r [] = none
  find_ref r (it ∷ items) = let rest = find_ref r items in if it.ref == r then some it else rest

  abbrev refers : ℕ → Option (Item T) → Bool
  refers r none = false
  refers r (some it) = it.ref == r

  pub update_item : ℕ → T → PriorityQueue T → PriorityQueue T
  update_item r v q = elim (find_ref r q.items) [
    | none ↦ q
    | some it ↦
        let items' = set q.items it.index (record it { value = v }) in
        if refers r (get_elem? q.items it.index)
        then record q { items = fix it.index items' }
        else q
  ]

  pub reheapify : PriorityQueue T → PriorityQueue T
  reheapify q = record q { items = init (length q.items / 2) q.items }

abbrev pub queue_size : {T : Type 0} → PriorityQueue T → ℕ
queue_size q = length q.items

-- The order of the jobs, in manager.go, `New`.
pub job_outranks : Job → Job → Bool
job_outranks a b =
    if not (eqb_ℤ a.priority b.priority)
    then ltb_ℤ b.priority a.priority
    else ltb a.created_at b.created_at
