-- ===== src/Store/Listing/Order.antt =====
-- manager/store/memstore.go: the order and the contents of the listings.
use workforce.Prelude.{
  String, ℕ, ◌+◌, ◌≡◌, refl, ◌∙◌, inl, inr, Bool, true, false, ◌&&◌, List, [], ◌∷◌, arith, ltb,
  if◌then◌else◌, ◌==◌, nat_eq, string_eq, Bool-cases,
}
use workforce.Prelude.Int.{ltb_ℤ}
use workforce.Prelude.Dict.{Dict}
use workforce.Contract.Job.{Job, pending, status_eq}
use workforce.Store.{
  MemStore, insert_sorted, sort_slice, select, newer, root_jobs, list_pending_jobs, list_child_jobs,
}

module _ {A : Type 0} where
  abbrev All : (A → Type 0) → List A → Type 0
  All P [] = Unit {0}
  All P (x ∷ xs) = P x × All P xs

  -- None of the later elements belongs before an earlier one.
  abbrev pub IsSorted : (A → A → Bool) → List A → Type 0
  IsSorted before [] = Unit {0}
  IsSorted before (x ∷ xs) = All (λ z. before z x ≡ false) xs × IsSorted before xs

  -- How many elements pass a test.
  abbrev pub count : (A → Bool) → List A → ℕ
  count f [] = 0
  count f (x ∷ xs) = (if f x then 1 else 0) + count f xs

  abbrev pub count_bound : (A → Bool) → Dict String A → ℕ
  count_bound f [] = 0
  count_bound f ((k, x) ∷ m) = (if f x then 1 else 0) + count_bound f m

  -- What a sort asks of its comparison.
  pub record IsOrder (before : A → A → Bool) : Type 0 where
    pub asym : (x y : A) → before x y ≡ true → before y x ≡ false
    pub trans : (x y z : A) → before x y ≡ true → before z y ≡ false → before z x ≡ false

  All-weaken : (P Q : A → Type 0) (xs : List A) → ((x : A) → P x → Q x) → All P xs → All Q xs
  All-weaken P Q [] f h = tt
  All-weaken P Q (x ∷ xs) f h = (f x h.0, All-weaken P Q xs f h.1)

  All-insert_sorted :
      (P : A → Type 0) (before : A → A → Bool) (x : A) (xs : List A)
      → P x
      → All P xs
      → All P (insert_sorted before x xs)
  unfolding insert_sorted
  All-insert_sorted P before x [] p h = (p, tt)
  All-insert_sorted P before x (y ∷ ys) p h = elim (Bool-cases (before x y)) [
    | inl e ↦ rw e (p, h)
    | inr e ↦ rw e (h.0, All-insert_sorted P before x ys p h.1)
  ]

  insert_sorted-IsSorted :
      (before : A → A → Bool) (x : A) (xs : List A)
      → IsOrder before
      → IsSorted before xs
      → IsSorted before (insert_sorted before x xs)
  unfolding insert_sorted
  insert_sorted-IsSorted before x [] o h = (tt, tt)
  insert_sorted-IsSorted before x (y ∷ ys) o h = elim (Bool-cases (before x y)) [
    | inl e ↦ rw e ((o.asym x y e, All-weaken _ _ ys (λ z n. o.trans x y z e n) h.0), h)
    | inr e ↦ rw e (All-insert_sorted _ before x ys e h.0, insert_sorted-IsSorted before x ys o h.1)
  ]

  sort_slice-IsSorted :
      (before : A → A → Bool) (xs : List A)
      → IsOrder before
      → IsSorted before (sort_slice before xs)
  unfolding sort_slice
  sort_slice-IsSorted before [] o = tt
  sort_slice-IsSorted before (x ∷ xs) o =
      insert_sorted-IsSorted before x (sort_slice before xs) o (sort_slice-IsSorted before xs o)

  count-insert_sorted :
      (f : A → Bool) (before : A → A → Bool) (x : A) (xs : List A)
      → count f (insert_sorted before x xs) ≡ (if f x then 1 else 0) + count f xs
  unfolding insert_sorted
  count-insert_sorted f before x [] = refl
  count-insert_sorted f before x (y ∷ ys) = elim (Bool-cases (before x y)) [
    | inl e ↦ rw e refl
    | inr e ↦ rw e (omega (arith, count-insert_sorted f before x ys))
  ]

  count-sort_slice :
      (f : A → Bool) (before : A → A → Bool) (xs : List A)
      → count f (sort_slice before xs) ≡ count f xs
  unfolding sort_slice
  count-sort_slice f before [] = refl
  count-sort_slice f before (x ∷ xs) =
      omega
        (arith, count-sort_slice f before xs, count-insert_sorted f before x (sort_slice before xs))

  count-select :
      (f keep : A → Bool) (m : Dict String A)
      → count f (select keep m) ≡ count_bound (λ x. keep x && f x) m
  count-select f keep [] = refl
  count-select f keep ((k, x) ∷ m) = elim (Bool-cases (keep x)) [
    | inl e ↦ rw e (omega (arith, count-select f keep m))
    | inr e ↦ rw e (omega (arith, count-select f keep m))
  ]

  -- A listing: sorted, and with the kept elements of the map, each as often as the map holds it.
  pub record IsListing (before : A → A → Bool) (keep : A → Bool) (m : Dict String A) (xs : List A)
      : Type 0 where
    pub sorted : IsSorted before xs
    pub same : (f : A → Bool) → count f xs ≡ count_bound (λ x. keep x && f x) m

  sort_slice-IsListing :
      (before : A → A → Bool) (keep : A → Bool) (m : Dict String A)
      → IsOrder before
      → IsListing before keep m (sort_slice before (select keep m))
  sort_slice-IsListing before keep m o = record {
    sorted = sort_slice-IsSorted before (select keep m) o;
    same = λ f. count-sort_slice f before (select keep m) ∙ count-select f keep m;
  }

-- The job of the higher priority.
abbrev pub more_urgent : Job → Job → Bool
more_urgent a b = ltb_ℤ b.priority a.priority

abbrev pub older : Job → Job → Bool
older a b = ltb a.created_at b.created_at

newer-IsOrder : IsOrder newer
unfolding newer
newer-IsOrder = record { asym = λ x y h. ground arith; trans = λ x y z h n. ground arith }

older-IsOrder : IsOrder older
older-IsOrder = record { asym = λ x y h. ground arith; trans = λ x y z h n. ground arith }

more_urgent-IsOrder : IsOrder more_urgent
more_urgent-IsOrder = record { asym = λ x y h. ground arith; trans = λ x y z h n. ground arith }

-- The pending jobs are listed with none before one of a higher priority, each once for each binding
-- of the map.
pub list_pending_jobs-IsListing :
    (m : MemStore) → IsListing more_urgent (λ j. j.status == pending) m.jobs (list_pending_jobs m)
unfolding list_pending_jobs
list_pending_jobs-IsListing m = sort_slice-IsListing more_urgent _ m.jobs more_urgent-IsOrder

-- The children of a job are listed oldest first, each once for each binding of the map.
pub list_child_jobs-IsListing :
    (id : String) (m : MemStore)
    → IsListing older (λ j. j.parent_job_id == id) m.jobs (list_child_jobs id m)
unfolding list_child_jobs
list_child_jobs-IsListing id m = sort_slice-IsListing older _ m.jobs older-IsOrder

-- The root jobs are listed newest first, each once for each binding of the map.
pub root_jobs-IsListing :
    (m : MemStore) → IsListing newer (λ j. j.parent_job_id == "") m.jobs (root_jobs m)
unfolding root_jobs
root_jobs-IsListing m = sort_slice-IsListing newer _ m.jobs newer-IsOrder
