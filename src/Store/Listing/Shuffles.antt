-- ===== src/Store/Listing/Shuffles.antt =====
-- manager/store/memstore.go, `ListJobs`: Go ranges over a map in another order in each call, and
-- `sort.Slice` may return equal elements in any order; a listing that depends on neither.
use workforce.Prelude.{
  ℕ, ◌≡◌, refl, ap, ◌∙◌, inl, inr, String, Bool, true, false, List, [], ◌∷◌, arith, ◌==◌, nat_eq,
  string_eq, Bool-cases,
}
use workforce.Prelude.Dict.{Dict}
use workforce.Contract.Job.{Job}
use workforce.Store.{MemStore, insert_sorted, sort_slice, select, newer, root_jobs}

-- The same elements, in two orders.
pub data Shuffled {A : Type 0} : List A → List A → Type 0 where
  same : (xs : List A) → Shuffled xs xs
  keep : (x : A) (xs ys : List A) → Shuffled xs ys → Shuffled (x ∷ xs) (x ∷ ys)
  exchange : (x y : A) (xs : List A) → Shuffled (x ∷ y ∷ xs) (y ∷ x ∷ xs)
  chain : (xs ys zs : List A) → Shuffled xs ys → Shuffled ys zs → Shuffled xs zs

Shuffled-select :
    {A : Type 0} (f : A → Bool) (m n : Dict String A)
    → Shuffled m n
    → Shuffled (select f m) (select f n)
Shuffled-select f m n (same _) = same _
Shuffled-select f _ _ (keep (k, a) m n s) = elim (Bool-cases (f a)) [
  | inl t ↦ rw t (keep a _ _ (Shuffled-select f m n s))
  | inr t ↦ rw t (Shuffled-select f m n s)
]
Shuffled-select f _ _ (exchange (k, a) (i, b) m) = elim (Bool-cases (f a)) [
  | inl t ↦ elim (Bool-cases (f b)) [
    | inl u ↦ rw (t, u) (exchange a b _)
    | inr u ↦ rw (t, u) (same _)
  ]
  | inr t ↦ elim (Bool-cases (f b)) [ inl u ↦ rw (t, u) (same _) | inr u ↦ rw (t, u) (same _) ]
]
Shuffled-select f _ _ (chain m n o s t) =
    chain _ _ _ (Shuffled-select f m n s) (Shuffled-select f n o t)

-- Created at other times than this one.
abbrev pub HasOtherTime : Job → List Job → Type 0
HasOtherTime x [] = Unit {0}
HasOtherTime x (y ∷ ys) = ((x.created_at == y.created_at) ≡ false) × HasOtherTime x ys

-- No two were created at the same time.
abbrev pub AreApart : List Job → Type 0
AreApart [] = Unit {0}
AreApart (x ∷ xs) = HasOtherTime x xs × AreApart xs

other_time-Shuffled :
    (x : Job) (xs ys : List Job) → Shuffled xs ys → HasOtherTime x xs → HasOtherTime x ys
other_time-Shuffled x xs ys (same _) h = h
other_time-Shuffled x _ _ (keep y xs ys s) h = (h.0, other_time-Shuffled x xs ys s h.1)
other_time-Shuffled x _ _ (exchange y z xs) h = (h.1.0, (h.0, h.1.1))
other_time-Shuffled x _ _ (chain xs ys zs s t) h =
    other_time-Shuffled x ys zs t (other_time-Shuffled x xs ys s h)

differ_back : (m n : ℕ) → (m == n) ≡ false → (n == m) ≡ false
differ_back m n h = ground arith

AreApart-Shuffled : (xs ys : List Job) → Shuffled xs ys → AreApart xs → AreApart ys
AreApart-Shuffled xs ys (same _) h = h
AreApart-Shuffled _ _ (keep x xs ys s) h =
    (other_time-Shuffled x xs ys s h.0, AreApart-Shuffled xs ys s h.1)
AreApart-Shuffled _ _ (exchange x y xs) h =
    ((differ_back x.created_at y.created_at h.0.0, h.1.0), (h.0.1, h.1.1))
AreApart-Shuffled _ _ (chain xs ys zs s t) h =
    AreApart-Shuffled ys zs t (AreApart-Shuffled xs ys s h)

newer_before :
    (x y z : Job) → newer x z ≡ true → newer y z ≡ false → (newer x y ≡ true) × (newer y x ≡ false)
unfolding newer
newer_before x y z h n = (ground arith, ground arith)

newer_one :
    (x y : Job) → (x.created_at == y.created_at) ≡ false → newer x y ≡ false → newer y x ≡ true
unfolding newer
newer_one x y d n = ground arith

newer_not : (x y : Job) → newer x y ≡ true → newer y x ≡ false
unfolding newer
newer_not x y n = ground arith

-- The order of two insertions does not show, but for equal times.
insert_sorted-insert_sorted :
    (x y : Job) (zs : List Job)
    → (x.created_at == y.created_at) ≡ false
    → insert_sorted newer x (insert_sorted newer y zs)
      ≡ insert_sorted newer y (insert_sorted newer x zs)
unfolding insert_sorted
insert_sorted-insert_sorted x y [] d = elim (Bool-cases (newer x y)) [
  | inl t ↦ rw (t, newer_not x y t) refl
  | inr t ↦ rw (t, newer_one x y d t) refl
]
insert_sorted-insert_sorted x y (z ∷ zs) d = elim (Bool-cases (newer x z)) [
  | inl a ↦ elim (Bool-cases (newer y z)) [
    | inl b ↦ elim (Bool-cases (newer x y)) [
      | inl t ↦ rw (a, b, insert_sorted, t, newer_not x y t) refl
      | inr t ↦ rw (a, b, insert_sorted, t, newer_one x y d t, a) refl
    ]
    | inr b ↦ let n = newer_before x y z a b in rw (a, b, insert_sorted, n.1, a) refl
  ]
  | inr a ↦ elim (Bool-cases (newer y z)) [
    | inl b ↦ let n = newer_before y x z b a in rw (a, b, insert_sorted, n.1, a) refl
    | inr b ↦ rw (a, b, insert_sorted, a) (ap (◌∷◌ z) (insert_sorted-insert_sorted x y zs d))
  ]
]

sort_slice-Shuffled :
    (xs ys : List Job) → Shuffled xs ys → AreApart xs → sort_slice newer xs ≡ sort_slice newer ys
unfolding sort_slice
sort_slice-Shuffled xs ys (same _) h = refl
sort_slice-Shuffled _ _ (keep x xs ys s) h =
    ap (insert_sorted newer x) (sort_slice-Shuffled xs ys s h.1)
sort_slice-Shuffled _ _ (exchange x y xs) h = insert_sorted-insert_sorted x y _ h.0.0
sort_slice-Shuffled _ _ (chain xs ys zs s t) h =
    sort_slice-Shuffled xs ys s h ∙ sort_slice-Shuffled ys zs t (AreApart-Shuffled xs ys s h)

-- The listing is that of any other order of the map, where no two root jobs were created at the
-- same time.
pub root_jobs-Shuffled :
    (m n : MemStore)
    → Shuffled m.jobs n.jobs
    → AreApart (select (λ j. j.parent_job_id == "") m.jobs)
    → root_jobs m ≡ root_jobs n
unfolding root_jobs
root_jobs-Shuffled m n s h =
    sort_slice-Shuffled _ _ (Shuffled-select (λ j. j.parent_job_id == "") m.jobs n.jobs s) h
