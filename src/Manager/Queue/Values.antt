-- ===== src/Manager/Queue/Values.antt =====
-- manager/priority_heap.go: the values of the array, and how they compare.
use mathlib.Core.Path.{fun_ext}
use workforce.Prelude.{
  ℕ, zero, suc, ◌≡◌, ◌<◌, ◌≤◌, refl, sym, ◌∙◌, inl, inr, Bool, true, false, Option, none, some,
  List, [], ◌∷◌, arith, length, length-set, get_elem?, set, if◌then◌else◌, ◌==◌, nat_eq, Bool-cases,
  Option-cases,
}
use workforce.Manager.Queue.{Item, swap, less}
use workforce.Manager.Queue.Order.{turn, turned}

module _ {T : Type 0} where
  abbrev pub value_at : List (Item T) → ℕ → Option T
  value_at items k = elim (get_elem? items k) [ none ↦ none | some it ↦ some it.value ]

  pub value_at-set :
      (items : List (Item T)) (i k : ℕ) (c : Item T)
      → i < length items
      → value_at (set items i c) k ≡ (if i == k then some c.value else value_at items k)
  value_at-set [] i k c h = absurd (omega (arith, h))
  value_at-set (x ∷ items) zero zero c h = refl
  value_at-set (x ∷ items) zero (suc k) c h = ground arith
  value_at-set (x ∷ items) (suc i) zero c h = ground arith
  value_at-set (x ∷ items) (suc i) (suc k) c h =
      ground (arith, value_at-set items i k c (omega (arith, h)))

  pub in_range :
      (items : List (Item T)) (i : ℕ)
      → i < length items
      → (a : Item T) × (get_elem? items i ≡ some a)
  in_range [] i h = absurd (omega (arith, h))
  in_range (x ∷ items) zero h = (x, refl)
  in_range (x ∷ items) (suc i) h = in_range items i (omega (arith, h))

  pub out_of_range : (items : List (Item T)) (i : ℕ) → length items ≤ i → get_elem? items i ≡ none
  out_of_range [] i h = refl
  out_of_range (x ∷ items) zero h = absurd (omega (arith, h))
  out_of_range (x ∷ items) (suc i) h = out_of_range items i (omega (arith, h))

  pub value_at-swap :
      (i j k : ℕ) (items : List (Item T))
      → i < length items
      → j < length items
      → value_at (swap i j items) k ≡ value_at items (turn i j k)
  unfolding swap
  value_at-swap i j k items p q =
      let (a, e) = in_range items i p in
      let (b, f) = in_range items j q in
      let at_i : value_at items i ≡ some a.value = rw (e, value_at) refl in
      let at_j : value_at items j ≡ some b.value = rw (f, value_at) refl in
      let first = value_at-set items i k (record b { index = i }) p in
      let second =
        value_at-set (set items i (record b { index = i })) j k (record a { index = j })
          (omega (arith, length-set items i (record b { index = i }), q)) in
      rw (e, swap, f) (second ∙ ground (arith, first, at_i, at_j))

-- The comparison is strict, and what is not higher is not higher by steps either.
pub record IsOrder {T : Type 0} (hp : T → T → Bool) : Type 0 where
  pub asym : (x y : T) → hp x y ≡ true → hp y x ≡ false
  pub ntrans : (x y z : T) → hp x y ≡ false → hp y z ≡ false → hp x z ≡ false

module _ {T : Type 0} (hp : T → T → Bool) (ord : IsOrder hp) where
  pub less-asym :
      (items : List (Item T)) (a b : ℕ) → less hp items a b ≡ true → less hp items b a ≡ false
  unfolding less
  less-asym items a b h = elim (Option-cases (get_elem? items a)) [
    | inl e ↦ ground (arith, e)
    | inr (x, e) ↦ elim (Option-cases (get_elem? items b)) [
      | inl f ↦ rw (f, less) refl
      | inr (y, f) ↦ rw (f, less, e) (ord.asym x.value y.value (rw (e, less, f) at h))
    ]
  ]

  pub less-ntrans :
      (items : List (Item T)) (a b c : ℕ)
      → b < length items
      → less hp items a b ≡ false
      → less hp items b c ≡ false
      → less hp items a c ≡ false
  unfolding less
  less-ntrans items a b c l h k = elim (Option-cases (get_elem? items a)) [
    | inl e ↦ rw (e, less) refl
    | inr (x, e) ↦ elim (Option-cases (get_elem? items c)) [
      | inl g ↦ rw (e, less, g) refl
      | inr (z, g) ↦
          let (y, f) = in_range items b l in
          rw (e, less, g)
            (ord.ntrans x.value y.value z.value (rw (e, less, f) at h) (rw (f, less, g) at k))
    ]
  ]

  abbrev pub by_value : Option T → Option T → Bool
  by_value none w = false
  by_value (some x) none = false
  by_value (some x) (some y) = hp x y

  pub less-by_value :
      (items : List (Item T)) (a b : ℕ)
      → less hp items a b ≡ by_value (value_at items a) (value_at items b)
  unfolding less
  less-by_value items a b = elim (Option-cases (get_elem? items a)) [
    | inl e ↦ rw (e, less, value_at) refl
    | inr (x, e) ↦ elim (Option-cases (get_elem? items b)) [
      | inl f ↦ rw (e, less, f, value_at) refl
      | inr (y, f) ↦ rw (e, less, f, value_at) refl
    ]
  ]

  pub less-swap :
      (i j : ℕ) (items : List (Item T))
      → i < length items
      → j < length items
      → less hp (swap i j items) ≡ turned (less hp items) i j
  less-swap i j items p q = fun_ext λ a. fun_ext λ b.
      less-by_value (swap i j items) a b
      ∙ rw (value_at-swap i j a items p q, value_at-swap i j b items p q)
          (sym (less-by_value items (turn i j a) (turn i j b)))

  pub less_irrefl : (items : List (Item T)) (a : ℕ) → less hp items a a ≡ false
  less_irrefl items a = elim (Bool-cases (less hp items a a)) [
    | inl e ↦ less-asym items a a e
    | inr e ↦ e
  ]
