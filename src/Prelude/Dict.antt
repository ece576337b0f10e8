-- ===== src/Prelude/Dict.antt =====
-- Go's `map[K]V` as an association list, newest binding first. Go leaves the order of a `range`
-- over a map open; a definition that ranges over one follows the list.
use mathlib.Core.Path.{subst}
use workforce.Prelude.{
  Bool-cases, inl, inr, ◌+◌, ℕ, ◌+◌, ◌≤◌, ◌≡◌, refl, Bool-cases, inl, inr, false, Option, none,
  some, List, [], ◌∷◌, Bool-cases, arith, length, Eq, ◌==◌, if◌then◌else◌,
}

abbrev pub Dict {ℓ κ} : Type ℓ → Type κ → Type (ℓ ⊔ κ)
Dict K V = List (K × V)

module _ {ℓ κ} {K : Type ℓ} {V : Type κ} ⦃e : Eq K⦄ where
  -- `m[k]` with its second result
  abbrev pub lookup : K → Dict K V → Option V
  lookup k [] = none
  lookup k ((j, v) ∷ m) = if j == k then some v else lookup k m

  -- `delete(m, k)`
  unfoldable pub delete : K → Dict K V → Dict K V
  delete k [] = []
  delete k ((j, v) ∷ m) = let rest = delete k m in if j == k then rest else (j, v) ∷ rest

  -- `m[k] = v`
  unfoldable pub insert : K → V → Dict K V → Dict K V
  insert k v m = (k, v) ∷ delete k m

  -- A key that the map does not hold.
  abbrev pub Fresh : K → Dict K V → Type 0
  Fresh k [] = Unit {0}
  Fresh k ((j, v) ∷ m) = ((j == k) ≡ false) × Fresh k m

  -- Every key is bound once, as in a Go map.
  abbrev pub IsMap : Dict K V → Type 0
  IsMap [] = Unit {0}
  IsMap ((j, v) ∷ m) = Fresh j m × IsMap m

  pub lookup-delete :
      (k j : K) (m : Dict K V) → lookup j (delete k m) ≡ (if k == j then none else lookup j m)
  unfolding delete
  lookup-delete k j [] = ground arith
  lookup-delete k j ((i, v) ∷ m) =
      ground (arith, lookup-delete k j m, e.decides i k, e.decides i j, e.decides k j)

  pub lookup-insert :
      (k j : K) (v : V) (m : Dict K V)
      → lookup j (insert k v m) ≡ (if k == j then some v else lookup j m)
  unfolding insert
  lookup-insert k j v m = ground (arith, lookup-delete k j m)

  pub delete-Fresh : (k j : K) (m : Dict K V) → Fresh j m → Fresh j (delete k m)
  unfolding delete
  delete-Fresh k j [] h = tt
  delete-Fresh k j ((i, v) ∷ m) h = ground (arith, delete-Fresh k j m h.1)

  pub delete-Fresh_self : (k : K) (m : Dict K V) → Fresh k (delete k m)
  unfolding delete
  delete-Fresh_self k [] = tt
  delete-Fresh_self k ((i, v) ∷ m) = ground (arith, delete-Fresh_self k m)

  pub delete-IsMap : (k : K) (m : Dict K V) → IsMap m → IsMap (delete k m)
  unfolding delete
  delete-IsMap k [] h = tt
  delete-IsMap k ((i, v) ∷ m) h = ground (arith, delete-Fresh k i m h.0, delete-IsMap k m h.1)

  pub insert-IsMap : (k : K) (v : V) (m : Dict K V) → IsMap m → IsMap (insert k v m)
  unfolding insert
  insert-IsMap k v m h = (delete-Fresh_self k m, delete-IsMap k m h)

  pub lookup-Fresh : (k : K) (m : Dict K V) → Fresh k m → lookup k m ≡ none
  lookup-Fresh k [] h = refl
  lookup-Fresh k ((i, v) ∷ m) h = ground (arith, lookup-Fresh k m h.1)

  pub delete_absent : (k : K) (m : Dict K V) → Fresh k m → delete k m ≡ m
  unfolding delete
  delete_absent k [] h = refl
  delete_absent k ((i, v) ∷ m) h = ground (arith, delete_absent k m h.1)

  pub length-delete-le : (k : K) (m : Dict K V) → length (delete k m) ≤ length m
  unfolding delete
  length-delete-le k [] = omega arith
  length-delete-le k ((i, v) ∷ m) = ground (arith, length-delete-le k m)

  pub Fresh-lookup : (k : K) (m : Dict K V) → lookup k m ≡ none → Fresh k m
  Fresh-lookup k [] h = tt
  Fresh-lookup k ((i, v) ∷ m) h = ground (arith, Fresh-lookup k m)

  -- The sum of a measure over the values.
  unfoldable pub total : (V → ℕ) → Dict K V → ℕ
  total f [] = 0
  total f ((j, v) ∷ m) = f v + total f m

  pub total-delete :
      (f : V → ℕ) (k : K) (v : V) (m : Dict K V)
      → IsMap m
      → lookup k m ≡ some v
      → total f (delete k m) + f v ≡ total f m
  unfolding total delete
  total-delete f k v [] w h = cc
  total-delete f k v ((i, u) ∷ m) w h =
      ground (arith, total-delete f k v m w.1, e.decides i k, delete_absent i m w.0)

  pub total-delete_absent :
      (f : V → ℕ) (k : K) (m : Dict K V) → lookup k m ≡ none → total f (delete k m) ≡ total f m
  total-delete_absent f k m h = rw (delete_absent k m (Fresh-lookup k m h))

  pub total-insert :
      (f : V → ℕ) (k : K) (v : V) (m : Dict K V)
      → lookup k m ≡ none
      → total f (insert k v m) ≡ f v + total f m
  unfolding total insert
  total-insert f k v m h = omega (arith, total-delete_absent f k m h)

  pub total-insert_bound :
      (f : V → ℕ) (k : K) (v u : V) (m : Dict K V)
      → IsMap m
      → lookup k m ≡ some u
      → total f (insert k v m) + f u ≡ f v + total f m
  unfolding total insert
  total-insert_bound f k v u m w h = omega (arith, total-delete f k u m w h)

  -- Every value satisfies a predicate.
  abbrev pub AllValues {μ} : (V → Type μ) → Dict K V → Type μ
  AllValues P [] = Unit
  AllValues P ((j, v) ∷ m) = P v × AllValues P m

  pub delete-AllValues {μ} :
      (P : V → Type μ) (k : K) (m : Dict K V) → AllValues P m → AllValues P (delete k m)
  unfolding delete
  delete-AllValues P k [] h = tt
  delete-AllValues P k ((i, v) ∷ m) h = elim (Bool-cases (i == k)) [
    | inl e ↦ rw e (delete-AllValues P k m h.1)
    | inr e ↦ rw e (h.0, delete-AllValues P k m h.1)
  ]

  pub insert-AllValues {μ} :
      (P : V → Type μ) (k : K) (v : V) (m : Dict K V)
      → P v
      → AllValues P m
      → AllValues P (insert k v m)
  unfolding insert
  insert-AllValues P k v m p h = (p, delete-AllValues P k m h)

  pub lookup-AllValues {μ} :
      (P : V → Type μ) (k : K) (v : V) (m : Dict K V) → AllValues P m → lookup k m ≡ some v → P v
  lookup-AllValues P k v [] h e = absurd (cc)
  lookup-AllValues P k v ((i, u) ∷ m) h e = elim (Bool-cases (i == k)) [
    | inl t ↦ let e' : some u ≡ some v = rw t at e in let q : u ≡ v = cc in subst P q h.0
    | inr t ↦ lookup-AllValues P k v m h.1 (rw t at e)
  ]

pub ruleset dict_laws = (lookup-insert, lookup-delete)
