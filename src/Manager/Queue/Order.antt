-- ===== src/Manager/Queue/Order.antt =====
-- container/heap: the order that the loops restore, for a comparison of positions.
use workforce.Prelude.{
  ℕ, zero, suc, ◌+◌, ◌-◌, ◌*◌, ◌/◌, ◌≡◌, ◌≢◌, ◌<◌, ◌≤◌, inl, inr, Bool, true, false, ◌&&◌, arith,
  ltb, if◌then◌else◌, ◌==◌, nat_eq, Bool-cases,
}

abbrev pub parent : ℕ → ℕ
parent k = (k - 1) / 2

-- The transposition of two positions.
abbrev pub turn : ℕ → ℕ → ℕ → ℕ
turn i j a = if a == i then j else if a == j then i else a

-- `before a b` says that what stands at `a` goes before what stands at `b`.
abbrev pub Before : Type 0
Before = ℕ → ℕ → Bool

abbrev pub turned : Before → ℕ → ℕ → Before
turned before i j a b = before (turn i j a) (turn i j b)

-- No place goes before its parent, but perhaps `j`, whose children may stay under its parent.
abbrev pub IsUp : Before → ℕ → Type 0
IsUp before j =
    ((k : ℕ) → 0 < k → k ≢ j → before k (parent k) ≡ false)
    × ((k : ℕ) → 0 < k → 0 < j → parent k ≡ j → before k (parent j) ≡ false)

-- Below `n`, and from the parent `lo` on, no place goes before its parent, but perhaps the children
-- of `i`, which may stay under the parent of `i`.
abbrev pub IsDown : Before → ℕ → ℕ → ℕ → Type 0
IsDown before lo n i =
    ((k : ℕ) → 0 < k → k < n → lo ≤ parent k → parent k ≢ i → before k (parent k) ≡ false)
    × ((k : ℕ) → 0 < i → k < n → lo ≤ parent i → parent k ≡ i → before k (parent i) ≡ false)

-- Below `n`, and from the parent `lo` on, no place goes before its parent.
abbrev pub IsHeap : Before → ℕ → ℕ → Type 0
IsHeap before lo n = (k : ℕ) → 0 < k → k < n → lo ≤ parent k → before k (parent k) ≡ false

module _ (before : Before) (len : ℕ) (asym : (a b : ℕ) → before a b ≡ true → before b a ≡ false)
    (ntrans : (a b c : ℕ)
      → b < len
      → before a b ≡ false
      → before b c ≡ false
      → before a c ≡ false) where
  irrefl : (a : ℕ) → before a a ≡ false
  irrefl a = elim (Bool-cases (before a a)) [ inl e ↦ asym a a e | inr e ↦ e ]

  up_first :
      (i j k : ℕ)
      → 0 < j
      → j < len
      → i ≡ parent j
      → before j i ≡ true
      → IsUp before j
      → 0 < k
      → k ≢ i
      → turned before i j k (parent k) ≡ false
  up_first i j k p l e t h q n = ground (arith, asym j i t, h.0 k, h.1 k, ntrans k i j)

  up_second :
      (i j k : ℕ)
      → 0 < j
      → j < len
      → i ≡ parent j
      → IsUp before j
      → 0 < k
      → 0 < i
      → parent k ≡ i
      → turned before i j k (parent i) ≡ false
  up_second i j k p l e h q r t = ground (arith, h.0 k, h.0 i, ntrans k i (parent i))

  pub turned-IsUp :
      (i j : ℕ)
      → 0 < j
      → j < len
      → i ≡ parent j
      → before j i ≡ true
      → IsUp before j
      → IsUp (turned before i j) i
  turned-IsUp i j p l e t h =
      (λ k q n. up_first i j k p l e t h q n, λ k q r s. up_second i j k p l e h q r s)

  -- The loop stops where the place does not go before its parent.
  pub stop_up :
      (j : ℕ)
      → IsUp before j
      → before j (parent j) ≡ false
      → (k : ℕ) → 0 < k
      → before k (parent k) ≡ false
  stop_up j h t k q = ground (arith, h.0 k)

  -- The better child of `i`.
  down_first :
      (lo n i c k : ℕ)
      → n ≤ len
      → lo ≤ i
      → parent c ≡ i
      → i < c
      → c < n
      → before c i ≡ true
      → ((d : ℕ) → 0 < d → d < n → parent d ≡ i → before d c ≡ false)
      → IsDown before lo n i
      → 0 < k
      → k < n
      → lo ≤ parent k
      → parent k ≢ c
      → turned before i c k (parent k) ≡ false
  down_first lo n i c k b o e p l t best h q m r u =
      ground (arith, asym c i t, best k, h.0 k, h.1 c)

  down_second :
      (lo n i c k : ℕ)
      → n ≤ len
      → lo ≤ i
      → parent c ≡ i
      → i < c
      → c < n
      → IsDown before lo n i
      → k < n
      → parent k ≡ c
      → turned before i c k (parent c) ≡ false
  down_second lo n i c k b o e p l h m u = ground (arith, h.0 k)

  pub turned-IsDown :
      (lo n i c : ℕ)
      → n ≤ len
      → lo ≤ i
      → parent c ≡ i
      → i < c
      → c < n
      → before c i ≡ true
      → ((d : ℕ) → 0 < d → d < n → parent d ≡ i → before d c ≡ false)
      → IsDown before lo n i
      → IsDown (turned before i c) lo n c
  turned-IsDown lo n i c b o e p l t best h = (
    λ k q m r u. down_first lo n i c k b o e p l t best h q m r u,
    λ k q m r u. down_second lo n i c k b o e p l h m u,
  )

  pub stop_down :
      (lo n i : ℕ)
      → IsDown before lo n i
      → ((d : ℕ) → 0 < d → d < n → parent d ≡ i → before d i ≡ false)
      → IsHeap before lo n
  stop_down lo n i h s k q m r = ground (arith, h.0 k, s k)

  -- The child that goes before its sibling, or whose sibling does not go before it, is the better.
  pub best_child :
      (n i c : ℕ)
      → n ≤ len
      → c ≡ (
          if ltb (2 * i + 1 + 1) n && before (2 * i + 1 + 1) (2 * i + 1)
          then 2 * i + 1 + 1
          else 2 * i + 1)
      → (d : ℕ) → 0 < d
      → d < n
      → parent d ≡ i
      → before d c ≡ false
  best_child n i c b e d q m u =
      ground (arith, asym (2 * i + 1 + 1) (2 * i + 1), irrefl (2 * i + 1), irrefl (2 * i + 1 + 1))

  -- Nothing goes before the root of a heap.
  pub root_first :
      (n fuel k : ℕ) → n ≤ len → IsHeap before 0 n → k < n → k ≤ fuel → before k 0 ≡ false
  root_first n zero k b h m l = ground (arith, irrefl 0)
  root_first n (suc fuel) k b h m l =
      ground (arith, irrefl 0, h k, root_first n fuel (parent k) b h, ntrans k (parent k) 0)
