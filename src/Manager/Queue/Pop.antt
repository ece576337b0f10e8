-- ===== src/Manager/Queue/Pop.antt =====
-- manager/priority_heap.go: what `PopItem` returns and leaves.
use mathlib.Core.Path.{subst}
use workforce.Prelude.{
  ℕ, zero, suc, ◌-◌, ◌≡◌, ◌<◌, refl, sym, ap, ◌∙◌, ◌⊎◌, inl, inr, Bool, false, none, some, List, [],
  ◌∷◌, arith, length, get_elem?, take, nat_eq, Option-cases,
}
use workforce.Manager.Queue.{Item, PriorityQueue, swap, less, down, pop_item}
use workforce.Manager.Queue.Counts.{length-swap, popped, length-down, length-take_pred}
use workforce.Manager.Queue.Order.{parent, turn, IsDown, IsHeap, root_first}
use workforce.Manager.Queue.Values.{
  IsOrder, value_at, value_at-swap, less-asym, less-ntrans, less-by_value, less-swap,
}
use workforce.Manager.Queue.Sift.{down-IsHeap, down_beyond}

module _ {T : Type 0} (hp : T → T → Bool) (ord : IsOrder hp) where
  pub record IsOrdered (q : PriorityQueue T) : Type 0 where
    pub heap : IsHeap (less hp q.items) 0 (length q.items)

  swapped-IsDown :
      (n : ℕ) (items : List (Item T))
      → length items ≡ suc n
      → IsHeap (less hp items) 0 (length items)
      → IsDown (less hp (swap 0 n items)) 0 n 0
  swapped-IsDown n items l h =
      let L = less hp items in
      subst (λ L'. IsDown L' 0 n 0)
        (sym (less-swap hp ord 0 n items (omega (arith, l)) (omega (arith, l))))
        (
          (λ k q m o u.
              let same : turn 0 n k ≡ k = ground arith in
              let same' : turn 0 n (parent k) ≡ parent k = ground arith in
              rw (same, same') (h k q (omega (arith, l, m)) o)),
          (λ k q m o u. absurd (omega arith)),
        )

  get_elem?-take :
      (n k : ℕ) (items : List (Item T)) → k < n → get_elem? (take n items) k ≡ get_elem? items k
  get_elem?-take zero k items h = absurd (omega arith)
  get_elem?-take (suc n) k [] h = refl
  get_elem?-take (suc n) zero (x ∷ items) h = refl
  get_elem?-take (suc n) (suc k) (x ∷ items) h = get_elem?-take n k items (omega arith)

  value_at-take :
      (n k : ℕ) (items : List (Item T)) → k < n → value_at (take n items) k ≡ value_at items k
  value_at-take n k items h = rw (get_elem?-take n k items h, value_at) refl

  less-take :
      (n a b : ℕ) (items : List (Item T))
      → a < n
      → b < n
      → less hp (take n items) a b ≡ less hp items a b
  less-take n a b items p q =
      less-by_value hp ord (take n items) a b
      ∙ rw (value_at-take n a items p, value_at-take n b items q)
          (sym (less-by_value hp ord items a b))

  popped-IsHeap :
      (n : ℕ) (items : List (Item T))
      → length items ≡ suc n
      → IsHeap (less hp items) 0 (length items)
      → IsHeap (less hp (down hp n 0 n (swap 0 n items)).1) 0 n
  popped-IsHeap n items l h =
      down-IsHeap hp ord n 0 0 n (swap 0 n items) (omega (arith, length-swap 0 n items, l))
        (omega arith) (omega arith) (swapped-IsDown n items l h)

  cut-IsHeap :
      (n : ℕ) (items : List (Item T))
      → IsHeap (less hp items) 0 n
      → IsHeap (less hp (take n items)) 0 n
  cut-IsHeap n items h k q m o = less-take n k (parent k) items m (omega arith) ∙ h k q m o

  pub bound_of :
      (k : ℕ) (items : List (Item T)) (it : Item T) → get_elem? items k ≡ some it → k < length items
  bound_of k [] it h = absurd (cc)
  bound_of zero (x ∷ items) it h = omega arith
  bound_of (suc k) (x ∷ items) it h = omega (arith, bound_of k items it h)

  length-popped : (n : ℕ) (items : List (Item T)) → length (popped hp n items) ≡ length items
  length-popped n items = length-down hp n 0 n (swap 0 n items) ∙ length-swap 0 n items

  -- The two results of `PopItem`.
  pub pop_item-cases :
      (q : PriorityQueue T)
      → (pop_item hp q ≡ (none, q))
        ⊎ ((n : ℕ) × (it : Item T) × (length q.items ≡ suc n)
            × (get_elem? (popped hp n q.items) n ≡ some it)
            × (pop_item hp q ≡ (some it.value, record q { items = take n (popped hp n q.items) })))
  unfolding pop_item
  pop_item-cases q =
      elim (Option-cases
        (get_elem? (popped hp (length q.items - 1) q.items) (length q.items - 1))) [
          | inl e ↦ inl (rw (e, pop_item) refl)
          | inr (it, e) ↦
              let inside =
                bound_of (length q.items - 1) (popped hp (length q.items - 1) q.items) it e in
              inr (
                length q.items - 1,
                it,
                omega (arith, inside, length-popped (length q.items - 1) q.items),
                e,
                rw (e, pop_item) refl,
              )
        ]

  -- `PopItem` keeps the queue in order.
  pub pop_item-IsOrdered : (q : PriorityQueue T) → IsOrdered q → IsOrdered (pop_item hp q).1
  pop_item-IsOrdered q h = elim (pop_item-cases q) [
    | inl e ↦ rw e h
    | inr (n, it, l, e, f) ↦
        let heap = cut-IsHeap n _ (popped-IsHeap n q.items l h.heap) in
        let left : length (take n (popped hp n q.items)) ≡ n =
          length-take_pred n (popped hp n q.items) (length-popped n q.items ∙ l) in
        rw f (record { heap = rw left heap })
  ]

  -- What `PopItem` returns is outranked by no value of the queue.
  pub pop_item_highest :
      (q : PriorityQueue T) (v : T)
      → IsOrdered q
      → (pop_item hp q).0 ≡ some v
      → (k : ℕ) (it : Item T) → get_elem? q.items k ≡ some it
      → hp it.value v ≡ false
  pop_item_highest q v h e k it f = elim (pop_item-cases q) [
    | inl c ↦ absurd (let bad : none ≡ some v = ap (λ r. r.0) (sym c) ∙ e in cc)
    | inr (n, top, l, g, c) ↦
        let same : some top.value ≡ some v = ap (λ r. r.0) (sym c) ∙ e in
        let last : value_at (popped hp n q.items) n ≡ some v = rw (g, value_at) same in
        let moved =
          down_beyond hp ord n 0 n n (swap 0 n q.items) (omega (arith, length-swap 0 n q.items, l))
            (omega arith) in
        let root : value_at q.items 0 ≡ some v =
          ap (value_at q.items) (ground arith)
          ∙ sym (value_at-swap 0 n n q.items (omega (arith, l)) (omega (arith, l)))
          ∙ sym moved
          ∙ last in
        let mine : value_at q.items k ≡ some it.value = rw (f, value_at) refl in
        let rank =
          root_first (less hp q.items) (length q.items) (less-asym hp ord q.items)
            (less-ntrans hp ord q.items) (length q.items) k k (omega arith) h.heap
            (bound_of k q.items it f) (omega arith) in
        let r = sym (less-by_value hp ord q.items k 0) ∙ rank in rw (mine, root) at r
  ]
