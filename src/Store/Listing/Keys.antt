-- ===== src/Store/Listing/Keys.antt =====
-- manager/store/memstore.go: the identifiers of the jobs, in the store and in its listings.
use workforce.Prelude.{
  ◌≡◌, refl, sym, ap, ◌∙◌, inl, inr, String, Bool, false, some, List, [], ◌∷◌, arith, ◌==◌,
  string_eq, eq_iff, Bool-cases, Option-cases,
}
use workforce.Prelude.Dict.{Dict, lookup, insert, delete, Fresh, delete-Fresh, delete-Fresh_self}
use workforce.Contract.Job.{Job}
use workforce.Store.{
  MemStore, insert_sorted, sort_slice, select, root_jobs, newer, save_job, update_job,
}
use workforce.Store.Listing.{HasNo, AreDistinct}

-- Each binding has the identifier of its job as its key, none is empty and none is bound twice.
abbrev pub AreKeyed : Dict String Job → Type 0
AreKeyed [] = Unit {0}
AreKeyed ((k, j) ∷ m) = (j.id ≡ k) × ((k == "") ≡ false) × Fresh k m × AreKeyed m

pub record IsKeyed (m : MemStore) : Type 0 where
  pub jobs : AreKeyed m.jobs

delete-AreKeyed : (k : String) (m : Dict String Job) → AreKeyed m → AreKeyed (delete k m)
unfolding delete
delete-AreKeyed k [] h = tt
delete-AreKeyed k ((i, j) ∷ m) h = elim (Bool-cases (i == k)) [
  | inl e ↦ rw e (delete-AreKeyed k m h.3)
  | inr e ↦ rw e (h.0, h.1, delete-Fresh k i m h.2, delete-AreKeyed k m h.3)
]

lookup-AreKeyed :
    (k : String) (j : Job) (m : Dict String Job)
    → AreKeyed m
    → lookup k m ≡ some j
    → (j.id ≡ k) × ((k == "") ≡ false)
lookup-AreKeyed k j [] h e = absurd (cc)
lookup-AreKeyed k j ((i, v) ∷ m) h e = elim (Bool-cases (i == k)) [
  | inl t ↦
      let same : i ≡ k = (eq_iff i k).0 t in
      let e' : some v ≡ some j = rw t at e in
      let q : v ≡ j = cc in (ap (λ x. x.id) (sym q) ∙ h.0 ∙ same, rw (sym same) h.1)
  | inr t ↦ lookup-AreKeyed k j m h.3 (rw t at e)
]

-- Saving a job whose identifier is not empty keeps every job under its identifier.
pub save_job-IsKeyed :
    (job : Job) (m : MemStore) → (job.id == "") ≡ false → IsKeyed m → IsKeyed (save_job job m)
unfolding save_job insert
save_job-IsKeyed job m n h = record {
  jobs = (refl, n, delete-Fresh_self job.id m.jobs, delete-AreKeyed job.id m.jobs h.jobs);
}

-- Changing a job, but not its identifier, keeps every job under its identifier, also when there is
-- no such job.
pub update_job-IsKeyed :
    (id : String) (mutate : Job → Job) (m : MemStore)
    → ((j : Job) → (mutate j).id ≡ j.id)
    → IsKeyed m
    → IsKeyed (update_job id mutate m).1
unfolding update_job insert
update_job-IsKeyed id mutate m keeps h = elim (Option-cases (lookup id m.jobs)) [
  | inl e ↦ rw (e, update_job) h
  | inr (j, e) ↦
      let (same, n) = lookup-AreKeyed id j m.jobs h.jobs e in
      rw (e, update_job)
        (record {
          jobs = (keeps j ∙ same, n, delete-Fresh_self id m.jobs, delete-AreKeyed id m.jobs h.jobs);
        })
]

select-HasNo :
    (f : Job → Bool) (c : String) (m : Dict String Job)
    → AreKeyed m
    → Fresh c m
    → HasNo c (select f m)
select-HasNo f c [] h s = tt
select-HasNo f c ((k, j) ∷ m) h s = elim (Bool-cases (f j)) [
  | inl e ↦ rw e (rw h.0 s.0, select-HasNo f c m h.3 s.1)
  | inr e ↦ rw e (select-HasNo f c m h.3 s.1)
]

select-AreDistinct : (f : Job → Bool) (m : Dict String Job) → AreKeyed m → AreDistinct (select f m)
select-AreDistinct f [] h = tt
select-AreDistinct f ((k, j) ∷ m) h = elim (Bool-cases (f j)) [
  | inl e ↦ rw e (rw h.0 h.1, rw h.0 (select-HasNo f k m h.3 h.2), select-AreDistinct f m h.3)
  | inr e ↦ rw e (select-AreDistinct f m h.3)
]

differ_sym : (a b : String) → (a == b) ≡ false → (b == a) ≡ false
differ_sym a b h = ground (arith, h, eq_iff a b, eq_iff b a)

insert_sorted-HasNo :
    (before : Job → Job → Bool) (c : String) (x : Job) (xs : List Job)
    → (x.id == c) ≡ false
    → HasNo c xs
    → HasNo c (insert_sorted before x xs)
unfolding insert_sorted
insert_sorted-HasNo before c x [] n h = (n, tt)
insert_sorted-HasNo before c x (y ∷ ys) n h = elim (Bool-cases (before x y)) [
  | inl e ↦ rw e (n, h)
  | inr e ↦ rw e (h.0, insert_sorted-HasNo before c x ys n h.1)
]

insert_sorted-AreDistinct :
    (before : Job → Job → Bool) (x : Job) (xs : List Job)
    → (x.id == "") ≡ false
    → HasNo x.id xs
    → AreDistinct xs
    → AreDistinct (insert_sorted before x xs)
unfolding insert_sorted
insert_sorted-AreDistinct before x [] n h d = (n, tt, tt)
insert_sorted-AreDistinct before x (y ∷ ys) n h d = elim (Bool-cases (before x y)) [
  | inl e ↦ rw e (n, h, d)
  | inr e ↦ rw e (
    d.0,
    insert_sorted-HasNo before y.id x ys (differ_sym y.id x.id h.0) d.1,
    insert_sorted-AreDistinct before x ys n h.1 d.2,
  )
]

sort_slice-HasNo :
    (before : Job → Job → Bool) (c : String) (xs : List Job)
    → HasNo c xs
    → HasNo c (sort_slice before xs)
unfolding sort_slice
sort_slice-HasNo before c [] h = tt
sort_slice-HasNo before c (x ∷ xs) h =
    insert_sorted-HasNo before c x (sort_slice before xs) h.0 (sort_slice-HasNo before c xs h.1)

sort_slice-AreDistinct :
    (before : Job → Job → Bool) (xs : List Job)
    → AreDistinct xs
    → AreDistinct (sort_slice before xs)
unfolding sort_slice
sort_slice-AreDistinct before [] d = tt
sort_slice-AreDistinct before (x ∷ xs) d =
    insert_sorted-AreDistinct before x (sort_slice before xs) d.0
      (sort_slice-HasNo before x.id xs d.1) (sort_slice-AreDistinct before xs d.2)

pub root_jobs-AreDistinct : (m : MemStore) → IsKeyed m → AreDistinct (root_jobs m)
unfolding root_jobs
root_jobs-AreDistinct m h =
    sort_slice-AreDistinct newer _ (select-AreDistinct (λ j. j.parent_job_id == "") m.jobs h.jobs)
