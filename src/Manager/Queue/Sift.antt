-- ===== src/Manager/Queue/Sift.antt =====
-- manager/priority_heap.go: what the loops of container/heap leave.
use mathlib.Core.Path.{subst}
use workforce.Prelude.{
  ℕ, zero, suc, ◌+◌, ◌*◌, ◌≡◌, ◌<◌, ◌≤◌, refl, sym, ap, ◌∙◌, inl, inr, Bool, true, false, not, ◌||◌,
  List, arith, length, leb, if_cases, ◌==◌, nat_eq, Bool-cases,
}
use workforce.Manager.Queue.{Item, swap, less, up, down, child}
use workforce.Manager.Queue.Counts.{length-swap}
use workforce.Manager.Queue.Order.{
  parent, turn, IsUp, IsDown, IsHeap, turned-IsUp, stop_up, turned-IsDown, stop_down, best_child,
}
use workforce.Manager.Queue.Values.{
  IsOrder, value_at, value_at-swap, less-asym, less-ntrans, less-swap, less_irrefl,
}

module _ {T : Type 0} (hp : T → T → Bool) (ord : IsOrder hp) where
  stays :
      (i j : ℕ) (items : List (Item T))
      → (i == j || not (less hp items j i)) ≡ true
      → less hp items j i ≡ false
  stays i j items s = ground (arith, less_irrefl hp ord items j)

  climbs :
      (i j : ℕ) (items : List (Item T))
      → i ≡ parent j
      → (i == j || not (less hp items j i)) ≡ false
      → (0 < j) × (i < j) × (less hp items j i ≡ true)
  climbs i j items e s = (ground arith, ground arith, ground arith)

  pub up-IsHeap :
      (fuel j : ℕ) (items : List (Item T))
      → j < length items
      → j < fuel
      → IsUp (less hp items) j
      → (k : ℕ) → 0 < k
      → less hp (up hp fuel j items) k (parent k) ≡ false
  unfolding up
  up-IsHeap zero j items l e h k q = absurd (omega arith)
  up-IsHeap (suc fuel) j items l e h k q =
      let i = parent j in
      let n = length items in
      if_cases (λ (r : List (Item T)). less hp r k (parent k) ≡ false)
        (i == j || not (less hp items j i))
        (λ s.
          stop_up (less hp items) n (less-asym hp ord items) (less-ntrans hp ord items) j h
            (stays i j items s) k q)
        (λ s.
          let (p, m, t) = climbs i j items refl s in
          let inside : i < length (swap i j items) = omega (arith, length-swap i j items, m, l) in
          let moved =
            turned-IsUp (less hp items) n (less-asym hp ord items) (less-ntrans hp ord items) i j p
              l refl t h in
          up-IsHeap fuel i (swap i j items) inside (omega (arith, m, e))
            (subst (λ L. IsUp L i) (sym (less-swap hp ord i j items (omega (arith, m, l)) l)) moved)
            k q)

  -- The child of `i` that `down` looks at.
  child-cases :
      (i n : ℕ) (items : List (Item T))
      → 2 * i + 1 < n
      → (parent (child hp i n items) ≡ i) × (i < child hp i n items) × (child hp i n items < n)
  child-cases i n items h = (ground arith, ground arith, ground arith)

  child_best :
      (i n : ℕ) (items : List (Item T))
      → n ≤ length items
      → (d : ℕ) → 0 < d
      → d < n
      → parent d ≡ i
      → less hp items d (child hp i n items) ≡ false
  child_best i n items b =
      best_child (less hp items) (length items) (less-asym hp ord items) (less-ntrans hp ord items)
        n i (child hp i n items) b refl

  sinks_no_more :
      (i n : ℕ) (items : List (Item T))
      → n ≤ length items
      → (leb n (2 * i + 1) || not (less hp items (child hp i n items) i)) ≡ true
      → (d : ℕ) → 0 < d
      → d < n
      → parent d ≡ i
      → less hp items d i ≡ false
  sinks_no_more i n items b s d q m u = elim (Bool-cases (leb n (2 * i + 1))) [
    | inl t ↦ absurd (ground arith)
    | inr f ↦
        let (w, x, y) = child-cases i n items (ground arith) in
        less-ntrans hp ord items d (child hp i n items) i (omega (arith, y, b))
          (child_best i n items b d q m u) (ground arith)
  ]

  pub down-IsHeap :
      (fuel lo i n : ℕ) (items : List (Item T))
      → n ≤ length items
      → n ≤ i + fuel
      → lo ≤ i
      → IsDown (less hp items) lo n i
      → IsHeap (less hp (down hp fuel i n items).1) lo n
  unfolding down
  down-IsHeap zero lo i n items b e o h =
      stop_down (less hp items) (length items) (less-asym hp ord items) (less-ntrans hp ord items)
        lo n i h (λ d q m u. absurd (omega arith))
  down-IsHeap (suc fuel) lo i n items b e o h =
      let c = child hp i n items in
      if_cases (λ (r : ℕ × List (Item T)). IsHeap (less hp r.1) lo n)
        (leb n (2 * i + 1) || not (less hp items c i))
        (λ s.
          stop_down (less hp items) (length items) (less-asym hp ord items)
            (less-ntrans hp ord items) lo n i h (sinks_no_more i n items b s))
        (λ s.
          let room : 2 * i + 1 < n = ground arith in
          let t : less hp items c i ≡ true = ground arith in
          let (w, x, y) = child-cases i n items room in
          let moved =
            turned-IsDown (less hp items) (length items) (less-asym hp ord items)
              (less-ntrans hp ord items) lo n i c b o w x y t (child_best i n items b) h in
          down-IsHeap fuel lo c n (swap i c items) (omega (arith, length-swap i c items, b))
            (omega (arith, x, e)) (omega (arith, x, o))
            (subst (λ L. IsDown L lo n c)
              (sym (less-swap hp ord i c items (omega (arith, x, y, b)) (omega (arith, y, b))))
              moved))

  pub down_beyond :
      (fuel i n k : ℕ) (items : List (Item T))
      → n ≤ length items
      → n ≤ k
      → value_at (down hp fuel i n items).1 k ≡ value_at items k
  unfolding down
  down_beyond zero i n k items b l = refl
  down_beyond (suc fuel) i n k items b l =
      let c = child hp i n items in
      if_cases (λ (r : ℕ × List (Item T)). value_at r.1 k ≡ value_at items k)
        (leb n (2 * i + 1) || not (less hp items c i)) (λ s. refl)
        (λ s.
          let (w, x, y) = child-cases i n items (ground arith) in
          let same : turn i c k ≡ k = ground (arith, x, y) in
          down_beyond fuel c n k (swap i c items) (omega (arith, length-swap i c items, b)) l
          ∙ value_at-swap i c k items (omega (arith, x, y, b)) (omega (arith, y, b))
          ∙ ap (value_at items) same)
