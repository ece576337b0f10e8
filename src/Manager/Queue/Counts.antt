-- ===== src/Manager/Queue/Counts.antt =====
-- manager/priority_heap.go: what the operations of the queue keep of its values.
use workforce.Prelude.{
  ℕ, zero, suc, ◌+◌, ◌-◌, ◌≡◌, ◌<◌, ◌≤◌, refl, sym, ap, ◌∙◌, inl, inr, Bool, none, some, List, [],
  ◌∷◌, ◌++◌, arith, length, length-append, length-set, get_elem?, set, take, if◌then◌else◌, if_both,
  nat_eq, Option-cases,
}
use workforce.Manager.Queue.{
  Item, PriorityQueue, swap, up, down, init, push_item, pop_item, reheapify,
}

module _ {T : Type 0} (f : T → Bool) where
  abbrev pub weight : T → ℕ
  weight v = if f v then 1 else 0

  -- How many of the values a test holds for.
  unfoldable pub count : List (Item T) → ℕ
  count [] = 0
  count (it ∷ items) = weight it.value + count items

  count-append : (xs ys : List (Item T)) → count (xs ++ ys) ≡ count xs + count ys
  unfolding count
  count-append [] ys = omega arith
  count-append (x ∷ xs) ys = omega (arith, count-append xs ys)

  count-set :
      (items : List (Item T)) (i : ℕ) (a b : Item T)
      → get_elem? items i ≡ some a
      → count (set items i b) + weight a.value ≡ count items + weight b.value
  unfolding count
  count-set [] i a b h = absurd (cc)
  count-set (x ∷ items) zero a b h = let same : x ≡ a = cc in rw same (omega arith)
  count-set (x ∷ items) (suc i) a b h = omega (arith, count-set items i a b h)

module _ {T : Type 0} where
  -- Writing an item with the value that stands at `j` keeps that value at `j`.
  value-set :
      (items : List (Item T)) (i j : ℕ) (b c : Item T)
      → get_elem? items j ≡ some b
      → c.value ≡ b.value
      → (d : Item T) × (get_elem? (set items i c) j ≡ some d) × (d.value ≡ b.value)
  value-set [] i j b c h e = absurd (cc)
  value-set (x ∷ items) zero zero b c h e = (c, refl, e)
  value-set (x ∷ items) zero (suc j) b c h e = (b, h, refl)
  value-set (x ∷ items) (suc i) zero b c h e = (b, h, refl)
  value-set (x ∷ items) (suc i) (suc j) b c h e = value-set items i j b c h e

  pub length-swap : (i j : ℕ) (items : List (Item T)) → length (swap i j items) ≡ length items
  unfolding swap
  length-swap i j items = elim (Option-cases (get_elem? items i)) [
    | inl e ↦ rw (e, swap) refl
    | inr (a, e) ↦ elim (Option-cases (get_elem? items j)) [
      | inl e' ↦ rw (e, swap, e') refl
      | inr (b, e') ↦ rw (e, swap, e') (length-set _ j _ ∙ length-set items i _)
    ]
  ]

  count-swap :
      (f : T → Bool) (i j : ℕ) (items : List (Item T)) → count f (swap i j items) ≡ count f items
  unfolding swap
  count-swap f i j items = elim (Option-cases (get_elem? items i)) [
    | inl e ↦ rw (e, swap) refl
    | inr (a, e) ↦ elim (Option-cases (get_elem? items j)) [
      | inl e' ↦ rw (e, swap, e') refl
      | inr (b, e') ↦
          let first = count-set f items i a (record b { index = i }) e in
          let (d, at, same) = value-set items i j b (record b { index = i }) e' refl in
          let second =
            count-set f (set items i (record b { index = i })) j d (record a { index = j }) at in
          let same' : weight f d.value ≡ weight f b.value = ap (weight f) same in
          rw (e, swap, e') (omega (arith, first, second, same'))
    ]
  ]

  pub length-up :
      (hp : T → T → Bool) (fuel j : ℕ) (items : List (Item T))
      → length (up hp fuel j items) ≡ length items
  unfolding up
  length-up hp zero j items = refl
  length-up hp (suc fuel) j items =
      if_both (λ (r : List (Item T)). length r ≡ length items) _ refl
        (length-up hp fuel _ _ ∙ length-swap _ j items)

  count-up :
      (f : T → Bool) (hp : T → T → Bool) (fuel j : ℕ) (items : List (Item T))
      → count f (up hp fuel j items) ≡ count f items
  unfolding up
  count-up f hp zero j items = refl
  count-up f hp (suc fuel) j items =
      if_both (λ (r : List (Item T)). count f r ≡ count f items) _ refl
        (count-up f hp fuel _ _ ∙ count-swap f _ j items)

  pub length-down :
      (hp : T → T → Bool) (fuel i n : ℕ) (items : List (Item T))
      → length (down hp fuel i n items).1 ≡ length items
  unfolding down
  length-down hp zero i n items = refl
  length-down hp (suc fuel) i n items =
      if_both (λ (r : ℕ × List (Item T)). length r.1 ≡ length items) _ refl
        (length-down hp fuel _ n _ ∙ length-swap i _ items)

  count-down :
      (f : T → Bool) (hp : T → T → Bool) (fuel i n : ℕ) (items : List (Item T))
      → count f (down hp fuel i n items).1 ≡ count f items
  unfolding down
  count-down f hp zero i n items = refl
  count-down f hp (suc fuel) i n items =
      if_both (λ (r : ℕ × List (Item T)). count f r.1 ≡ count f items) _ refl
        (count-down f hp fuel _ n _ ∙ count-swap f i _ items)

  pub length-init :
      (hp : T → T → Bool) (k : ℕ) (items : List (Item T)) → length (init hp k items) ≡ length items
  unfolding init
  length-init hp zero items = refl
  length-init hp (suc k) items = length-init hp k _ ∙ length-down hp _ k _ items

  count-init :
      (f : T → Bool) (hp : T → T → Bool) (k : ℕ) (items : List (Item T))
      → count f (init hp k items) ≡ count f items
  unfolding init
  count-init f hp zero items = refl
  count-init f hp (suc k) items = count-init f hp k _ ∙ count-down f hp _ k _ items

  count-take :
      (f : T → Bool) (n : ℕ) (items : List (Item T)) (it : Item T)
      → length items ≡ suc n
      → get_elem? items n ≡ some it
      → count f items ≡ weight f it.value + count f (take n items)
  unfolding count
  count-take f n [] it l h = absurd (cc)
  count-take f zero (x ∷ []) it l h = let same : x ≡ it = cc in rw same refl
  count-take f zero (x ∷ y ∷ items) it l h = absurd (omega (arith, l))
  count-take f (suc n) (x ∷ items) it l h =
      omega (arith, count-take f n items it (omega (arith, l)) h)

  pub length-take_pred :
      (n : ℕ) (items : List (Item T)) → length items ≡ suc n → length (take n items) ≡ n
  length-take_pred zero items l = refl
  length-take_pred (suc n) [] l = absurd (cc)
  length-take_pred (suc n) (x ∷ items) l = ap suc (length-take_pred n items (omega (arith, l)))

  get_elem?-none : (n : ℕ) (items : List (Item T)) → get_elem? items n ≡ none → length items ≤ n
  get_elem?-none n [] h = omega arith
  get_elem?-none zero (x ∷ items) h = absurd (cc)
  get_elem?-none (suc n) (x ∷ items) h = omega (arith, get_elem?-none n items h)

  -- The array of `heap.Pop` before its last place, `n`, is cut off.
  abbrev pub popped : (T → T → Bool) → ℕ → List (Item T) → List (Item T)
  popped hp n items = (down hp n 0 n (swap 0 n items)).1

  pub length-push_item :
      (hp : T → T → Bool) (v : T) (q : PriorityQueue T)
      → length (push_item hp v q).1.items ≡ suc (length q.items)
  unfolding push_item
  length-push_item hp v q = omega (arith, length-up hp, length-append q.items)

  pub length-reheapify :
      (hp : T → T → Bool) (q : PriorityQueue T) → length (reheapify hp q).items ≡ length q.items
  unfolding reheapify
  length-reheapify hp q = length-init hp _ q.items

  pub count-reheapify :
      (f : T → Bool) (hp : T → T → Bool) (q : PriorityQueue T)
      → count f (reheapify hp q).items ≡ count f q.items
  unfolding reheapify
  count-reheapify f hp q = count-init f hp _ q.items

  -- `PushItem` adds the value and keeps the others, each as often as it was there.
  pub count-push_item :
      (f : T → Bool) (hp : T → T → Bool) (v : T) (q : PriorityQueue T)
      → count f (push_item hp v q).1.items ≡ weight f v + count f q.items
  unfolding push_item count
  count-push_item f hp v q = omega (arith, count-up f hp, count-append f)

  -- A queue that is not empty yields a value, which leaves it once; the others stay.
  pub count-pop_item :
      (f : T → Bool) (hp : T → T → Bool) (q : PriorityQueue T)
      → 0 < length q.items
      → (v : T) × ((pop_item hp q).0 ≡ some v)
        × (count f q.items ≡ weight f v + count f (pop_item hp q).1.items)
        × (length q.items ≡ suc (length (pop_item hp q).1.items))
  unfolding pop_item
  count-pop_item f hp q h =
      let n = length q.items - 1 in
      let items = popped hp n q.items in
      let same : length items ≡ length q.items =
        length-down hp n 0 n (swap 0 n q.items) ∙ length-swap 0 n q.items in
      let long : length items ≡ suc n = omega (arith, same, h) in
      let counts : count f items ≡ count f q.items =
        count-down f hp n 0 n (swap 0 n q.items) ∙ count-swap f 0 n q.items in
      elim (Option-cases (get_elem? items n)) [
        | inl e ↦ absurd (omega (arith, get_elem?-none n items e, long))
        | inr (it, e) ↦
            let cut = count-take f n items it long e in
            (
              it.value,
              rw (e, pop_item) refl,
              rw (e, pop_item) (sym counts ∙ cut),
              rw (e, pop_item) (omega (arith, length-take_pred n items long, h)),
            )
      ]
