-- ===== src/FileStore/Values.antt =====
-- manager/store/fsstore_snapshot.go: a map whose values stand under their own names, its snapshot, and
-- what loading the snapshot makes of it.
use mathlib.Core.Path.{subst}
use workforce.Prelude.{
  ◌≡◌, refl, sym, ap, ◌∙◌, inl, inr, String, true, Option, none, some, List, [], ◌∷◌, map,
  if◌then◌else◌, ◌==◌, string_eq, eq_iff, Bool-cases,
}
use workforce.Prelude.Options.{traverse}
use workforce.Prelude.Dict.{
  Dict, lookup, insert, delete, Fresh, delete-Fresh, delete-Fresh_self, lookup-insert, lookup-Fresh,
}
use workforce.Store.{MemStore, select}
use workforce.FileStore.Writer.{put_all}

-- What stands under a key after the value of a snapshot, if there is one, was stored.
abbrev pub over : {V : Type 0} → (V → V) → Option V → Option V → Option V
over kept none o = o
over kept (some v) o = some (kept v)

module _ {V : Type 0} (name : V → String) (P : V → Type 0) where
  -- Each value stands under its name, once, and satisfies a predicate.
  abbrev pub AreGood : Dict String V → Type 0
  AreGood [] = Unit {0}
  AreGood ((k, v) ∷ m) = (name v ≡ k) × P v × Fresh k m × AreGood m

  pub delete-AreGood : (k : String) (m : Dict String V) → AreGood m → AreGood (delete k m)
  unfolding delete
  delete-AreGood k [] h = tt
  delete-AreGood k ((i, v) ∷ m) h = elim (Bool-cases (i == k)) [
    | inl e ↦ rw e (delete-AreGood k m h.3)
    | inr e ↦ rw e (h.0, h.1, delete-Fresh k i m h.2, delete-AreGood k m h.3)
  ]

  pub insert-AreGood :
      (k : String) (v : V) (m : Dict String V)
      → name v ≡ k
      → P v
      → AreGood m
      → AreGood (insert k v m)
  unfolding insert
  insert-AreGood k v m n p h = (n, p, delete-Fresh_self k m, delete-AreGood k m h)

  pub lookup-AreGood :
      (k : String) (v : V) (m : Dict String V)
      → AreGood m
      → lookup k m ≡ some v
      → (name v ≡ k) × P v
  lookup-AreGood k v [] h e = absurd (cc)
  lookup-AreGood k v ((i, u) ∷ m) h e = elim (Bool-cases (i == k)) [
    | inl t ↦
        let same : i ≡ k = (eq_iff i k).0 t in
        let e' : some u ≡ some v = rw t at e in
        let q : u ≡ v = cc in (ap name (sym q) ∙ h.0 ∙ same, subst P q h.1)
    | inr t ↦ lookup-AreGood k v m h.3 (rw t at e)
  ]

  abbrev pub values : Dict String V → List V
  values = select (λ v. true)

  -- Each value of a snapshot is read.
  pub traverse-values :
      (read : V → Option V) (kept : V → V)
      → ((v : V) → P v → read v ≡ some (kept v))
      → (m : Dict String V) → AreGood m
      → traverse read (values m) ≡ some (map kept (values m))
  traverse-values read kept reads [] h = refl
  traverse-values read kept reads ((k, v) ∷ m) h =
      rw (reads v h.1, traverse-values read kept reads m h.3) refl

  -- Loading the values over a map.
  module _ (get : MemStore → Dict String V) (store : V → MemStore → MemStore)
      (stores : (v : V) (m : MemStore) → get (store v m) ≡ insert (name v) v (get m)) (kept : V → V)
      (keeps : (v : V) → name (kept v) ≡ name v) where
    pub lookup-put_all :
        (d : Dict String V) (m : MemStore) (k : String)
        → AreGood d
        → lookup k (get (put_all store (map kept (values d)) m))
          ≡ over kept (lookup k d) (lookup k (get m))
    unfolding put_all
    lookup-put_all [] m k h = refl
    lookup-put_all ((i, v) ∷ d) m k h =
        let named : name (kept v) ≡ i = keeps v ∙ h.0 in
        let first : lookup k (get (store (kept v) m))
            ≡ (if i == k then some (kept v) else lookup k (get m)) =
          rw (stores (kept v) m, named) (lookup-insert i k (kept v) (get m)) in
        lookup-put_all d (store (kept v) m) k h.3
        ∙ rw first (elim (Bool-cases (i == k)) [
          | inl t ↦
              let same : i ≡ k = (eq_iff i k).0 t in
              let gone : lookup k d ≡ none = rw same at (lookup-Fresh i d h.2) in rw (t, gone) refl
          | inr t ↦ rw t refl
        ])

-- Storing values of one kind leaves the maps of the other kinds.
pub get-put_all :
    {V W : Type 0} (get : MemStore → W) (store : V → MemStore → MemStore)
    → ((v : V) (m : MemStore) → get (store v m) ≡ get m)
    → (vs : List V) (m : MemStore) → get (put_all store vs m) ≡ get m
unfolding put_all
get-put_all get store keeps [] m = refl
get-put_all get store keeps (v ∷ vs) m = get-put_all get store keeps vs (store v m) ∙ keeps v m
