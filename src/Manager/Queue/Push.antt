-- ===== src/Manager/Queue/Push.antt =====
-- manager/priority_heap.go: the order of the queue after `PushItem` and `Reheapify`, and the order of
-- the jobs (manager.go).
use workforce.Prelude.{
  ℕ, zero, suc, ◌+◌, ◌/◌, ◌≡◌, ◌≢◌, ◌<◌, ◌≤◌, refl, sym, ◌∙◌, inl, inr, Bool, true, false, not,
  List, [], ◌∷◌, ◌++◌, arith, length, length-append, ltb, if◌then◌else◌, nat_eq, Bool-cases,
}
use workforce.Prelude.Int.{ℤ, eqb_ℤ, ltb_ℤ, pos, negsuc}
use workforce.Manager.Queue.{
  Item, PriorityQueue, less, down, init, push_item, reheapify, job_outranks,
}
use workforce.Manager.Queue.Counts.{length-down, length-init}
use workforce.Manager.Queue.Order.{parent, IsUp, IsDown, IsHeap}
use workforce.Manager.Queue.Values.{IsOrder, value_at, out_of_range, less-by_value}
use workforce.Manager.Queue.Sift.{up-IsHeap, down-IsHeap}
use workforce.Manager.Queue.Pop.{IsOrdered}

-- The comparison, on priorities and ages.
ranks : ℤ → ℕ → ℤ → ℕ → Bool
ranks p s q t = if not (eqb_ℤ p q) then ltb_ℤ q p else ltb s t

ranks-asym : (p : ℤ) (s : ℕ) (q : ℤ) (t : ℕ) → ranks p s q t ≡ true → ranks q t p s ≡ false
unfolding ranks
ranks-asym (pos m) s (pos n) t h = ground arith
ranks-asym (pos m) s (negsuc n) t h = ground arith
ranks-asym (negsuc m) s (pos n) t h = ground arith
ranks-asym (negsuc m) s (negsuc n) t h = ground arith

ranks-ntrans :
    (p : ℤ) (s : ℕ) (q : ℤ) (t : ℕ) (r : ℤ) (u : ℕ)
    → ranks p s q t ≡ false
    → ranks q t r u ≡ false
    → ranks p s r u ≡ false
unfolding ranks
ranks-ntrans (pos m) s (pos n) t (pos l) u h k = ground arith
ranks-ntrans (pos m) s (pos n) t (negsuc l) u h k = ground arith
ranks-ntrans (pos m) s (negsuc n) t (pos l) u h k = ground arith
ranks-ntrans (pos m) s (negsuc n) t (negsuc l) u h k = ground arith
ranks-ntrans (negsuc m) s (pos n) t (pos l) u h k = ground arith
ranks-ntrans (negsuc m) s (pos n) t (negsuc l) u h k = ground arith
ranks-ntrans (negsuc m) s (negsuc n) t (pos l) u h k = ground arith
ranks-ntrans (negsuc m) s (negsuc n) t (negsuc l) u h k = ground arith

-- Jobs by priority, and those of one priority by age.
pub job_outranks-IsOrder : IsOrder job_outranks
unfolding job_outranks ranks
job_outranks-IsOrder = record {
  asym = λ x y h. ranks-asym x.priority x.created_at y.priority y.created_at h;
  ntrans = λ x y z h k.
      ranks-ntrans x.priority x.created_at y.priority y.created_at z.priority z.created_at h k;
}

module _ {T : Type 0} (hp : T → T → Bool) (ord : IsOrder hp) where
  value_at-append :
      (items : List (Item T)) (it : Item T) (k : ℕ)
      → k < length items
      → value_at (items ++ it ∷ []) k ≡ value_at items k
  value_at-append [] it k h = absurd (omega arith)
  value_at-append (x ∷ items) it zero h = refl
  value_at-append (x ∷ items) it (suc k) h = value_at-append items it k (omega (arith, h))

  less_beyond : (items : List (Item T)) (a b : ℕ) → length items ≤ a → less hp items a b ≡ false
  unfolding less
  less_beyond items a b h = rw (out_of_range items a h, less) refl

  append-IsUp :
      (items : List (Item T)) (it : Item T)
      → IsHeap (less hp items) 0 (length items)
      → IsUp (less hp (items ++ it ∷ [])) (length items)
  append-IsUp items it h = (
    λ k q n. elim (Bool-cases (ltb k (length items))) [
      | inl t ↦
          let small : k < length items = ground arith in
          let small' : parent k < length items = omega (arith, small) in
          less-by_value hp ord (items ++ it ∷ []) k (parent k)
          ∙ rw (value_at-append items it k small, value_at-append items it (parent k) small')
              (sym (less-by_value hp ord items k (parent k)) ∙ h k q small (omega arith))
      | inr f ↦
          let big : length items ≢ k → length items + 1 ≤ k = ground arith in
          less_beyond (items ++ it ∷ []) k (parent k)
            (omega (arith, length-append items (it ∷ []), big (λ e. n (sym e))))
    ],
    λ k q m e.
        less_beyond (items ++ it ∷ []) k (parent (length items))
          (omega (arith, length-append items (it ∷ []), e)),
  )

  -- `PushItem` keeps the queue in order.
  pub push_item-IsOrdered :
      (v : T) (q : PriorityQueue T) → IsOrdered hp ord q → IsOrdered hp ord (push_item hp v q).1
  unfolding push_item
  push_item-IsOrdered v q h = record {
    heap = λ k p m l.
        up-IsHeap hp ord (suc (length q.items)) (length q.items) _
          (omega (arith, length-append q.items)) (omega arith) (append-IsUp q.items _ h.heap) k p;
  }

  -- `heap.Init` from the position `k` on.
  init-IsHeap :
      (k : ℕ) (items : List (Item T))
      → k ≤ length items
      → IsHeap (less hp items) k (length items)
      → IsHeap (less hp (init hp k items)) 0 (length items)
  unfolding init
  init-IsHeap zero items b h = h
  init-IsHeap (suc k) items b h =
      let n = length items in
      let items' = (down hp n k n items).1 in
      let same : length items' ≡ n = length-down hp n k n items in
      let start : IsDown (less hp items) k n k =
        (λ j p m l u. h j p m (omega (arith, l, u)), λ j p m l e. absurd (omega (arith, l))) in
      let heap : IsHeap (less hp items') k n =
        down-IsHeap hp ord n k k n items (omega arith) (omega arith) (omega arith) start in
      rw same at (init-IsHeap k items' (omega (arith, same, b)) (rw same heap))

  -- `Reheapify` puts any queue in order.
  pub reheapify-IsOrdered : (q : PriorityQueue T) → IsOrdered hp ord (reheapify hp q)
  unfolding reheapify
  reheapify-IsOrdered q = record {
    heap =
        let n = length q.items in
        rw (length-init hp (n / 2) q.items)
          (init-IsHeap (n / 2) q.items (omega arith) (λ k p m l. absurd (omega (arith, l, m))));
  }
