-- ===== src/Store/Listing/Pages.antt =====
-- manager/store/memstore.go, `ListJobs`: what a client sees that follows the cursors.
use mathlib.Core.List.{append_assoc}
use mathlib.Core.Path.{subst}
use workforce.Prelude.{
  ℕ, zero, suc, ◌+◌, ◌-◌, ◌^◌, ◌<◌, ◌≡◌, refl, sym, ap, ◌∙◌, inl, inr, String, Option, none, some,
  List, [], ◌∷◌, ◌++◌, arith, length, length-append, take, drop, ltb, if◌then◌else◌, ◌==◌,
  string_eq, Bool-cases,
}
use workforce.Contract.Job.{Job}
use workforce.Store.{select, MemStore, root_jobs, start_of, last_id, page_of, list_jobs}
use workforce.Store.Listing.Keys.{IsKeyed, root_jobs-AreDistinct}
use workforce.Store.Listing.Shuffles.{Shuffled, AreApart, root_jobs-Shuffled}
use workforce.Store.Listing.{
  AreDistinct, named, start_of-append, take-append, take_all, drop-append, last_id-append,
  split_page, page_done, page_last, page_more,
}

-- Following the cursors from `cursor` on, through at most `n` pages: `seen k` is the store as the
-- call before the last `k` sees it, in the order in which that call ranges over the map.
pub all_pages : ℕ → ℕ → String → (ℕ → MemStore) → Option (List Job)
all_pages zero limit cursor seen = none
all_pages (suc n) limit cursor seen = elim (list_jobs cursor limit (seen n)) [
  | none ↦ none
  | some r ↦
      if r.1 == ""
      then some r.0
      else elim (all_pages n limit r.1 seen) [ none ↦ none | some more ↦ some (r.0 ++ more) ]
]

-- A full page with others behind it.
full_page :
    (n limit : ℕ) (cursor : String) (xs ps : List Job) (j : Job) (more : List Job)
    (seen : ℕ → MemStore)
    → root_jobs (seen n) ≡ (xs ++ ps) ++ j ∷ more
    → AreDistinct ((xs ++ ps) ++ j ∷ more)
    → start_of cursor ((xs ++ ps) ++ j ∷ more) ≡ length xs
    → suc (length ps) ≡ limit
    → 0 < length more
    → length ((xs ++ ps) ++ j ∷ more) + limit < 2 ^ 63
    → all_pages n limit j.id seen ≡ some more
    → all_pages (suc n) limit cursor seen ≡ some (ps ++ j ∷ more)
unfolding all_pages list_jobs
full_page n limit cursor xs ps j more seen e d s size left small rest =
    let all = (xs ++ ps) ++ j ∷ more in
    let whole : all ≡ xs ++ (ps ++ j ∷ more) = append_assoc xs ps (j ∷ more) in
    let shown : take limit (drop (length xs) all) ≡ ps ++ j ∷ [] =
      ap (λ ys. take limit (drop (length xs) ys)) whole
      ∙ ap (take limit) (drop-append xs (ps ++ j ∷ more))
      ∙ ap (λ k. take k (ps ++ j ∷ more)) (sym size)
      ∙ take-append ps j more in
    let long = length-append (xs ++ ps) (j ∷ more) in
    let first = length-append xs ps in
    let page : page_of cursor limit (root_jobs (seen n)) ≡ some (ps ++ j ∷ [], j.id) =
      ap (page_of cursor limit) e
      ∙ page_more cursor limit (length xs) all j.id s (omega (arith, size))
          (omega (arith, long, first, size, left)) (omega (arith, long, first, small))
          (ap last_id shown ∙ last_id-append ps j)
      ∙ ap (λ ys. some (ys, j.id)) shown in
    rw (page, all_pages)
      (rw (named (xs ++ ps) j more d)
        (rw (rest, all_pages) (ap some (append_assoc ps (j ∷ []) more))))

-- The pages from a place in the listing on.
pages_from :
    (n limit : ℕ) (cursor : String) (xs rest : List Job) (seen : ℕ → MemStore)
    → ((k : ℕ) → root_jobs (seen k) ≡ xs ++ rest)
    → AreDistinct (xs ++ rest)
    → 0 < limit
    → length rest < n
    → length (xs ++ rest) + limit < 2 ^ 63
    → start_of cursor (xs ++ rest) ≡ length xs
    → all_pages n limit cursor seen ≡ some rest
unfolding all_pages list_jobs
pages_from zero limit cursor xs rest seen e d p lt small s = absurd (omega arith)
pages_from (suc n) limit cursor xs [] seen e d p lt small s =
    let size = length-append xs [] in
    let page =
      ap (page_of cursor limit) (e n)
      ∙ page_done cursor limit (length xs) _ s (omega (arith, size)) in
    rw (page, all_pages) refl
pages_from (suc n) limit cursor xs (x ∷ rest) seen e d p lt small s =
    let size = length-append xs (x ∷ rest) in
    elim (Bool-cases (ltb limit (length (x ∷ rest)))) [
      | inl more ↦
          let (ps, j, left, split, full) = split_page limit (x ∷ rest) p (ground arith) in
          let whole : xs ++ x ∷ rest ≡ (xs ++ ps) ++ j ∷ left =
            ap (◌++◌ xs) split ∙ sym (append_assoc xs ps (j ∷ left)) in
          let next : (xs ++ ps) ++ j ∷ left ≡ ((xs ++ ps) ++ j ∷ []) ++ left =
            sym (append_assoc (xs ++ ps) (j ∷ []) left) in
          let lengths = length-append ps (j ∷ left) in
          let sizes = ap length split in
          let behind =
            pages_from n limit j.id ((xs ++ ps) ++ j ∷ []) left seen (λ k. e k ∙ whole ∙ next)
              (subst AreDistinct (whole ∙ next) d) p (omega (arith, lengths, sizes))
              (subst (λ ys. length ys + limit < 2 ^ 63) (whole ∙ next) small)
              (ap (start_of j.id) (sym next)
                ∙ start_of-append (xs ++ ps) j left (subst AreDistinct whole d)
                ∙ omega (arith, length-append (xs ++ ps) (j ∷ []))) in
          full_page n limit cursor xs ps j left seen (e n ∙ whole) (subst AreDistinct whole d)
            (ap (start_of cursor) (sym whole) ∙ s) full (ground (arith, more, lengths, sizes, full))
            (subst (λ ys. length ys + limit < 2 ^ 63) whole small) behind
          ∙ ap some (sym split)
      | inr last ↦
          let page : page_of cursor limit (root_jobs (seen n)) ≡ some (x ∷ rest, "") =
            ap (page_of cursor limit) (e n)
            ∙ page_last cursor limit (length xs) _ s (omega (arith, size))
                (ground (arith, size, last)) (omega (arith, size, small))
            ∙ ap (λ ys. some (ys, ""))
                (ap (take (length (xs ++ x ∷ rest) - length xs)) (drop-append xs (x ∷ rest))
                  ∙ take_all _ (x ∷ rest) (omega (arith, size))) in
          rw (page, all_pages) refl
    ]

-- For a store that holds every job under its identifier, none empty, of whose root jobs no two were
-- created at the same time, and a limit of at least 1 that does not wrap when the number of root
-- jobs is added: following the cursors from the start, while the store does not change but each
-- call ranges over its map in an order of its own, shows every root job once, in the order of the
-- listing, within one page more than there are root jobs.
pub all_pages-eq-root_jobs :
    (limit : ℕ) (m : MemStore) (seen : ℕ → MemStore)
    → 0 < limit
    → length (root_jobs m) + limit < 2 ^ 63
    → IsKeyed m
    → AreApart (select (λ j. j.parent_job_id == "") m.jobs)
    → ((k : ℕ) → Shuffled m.jobs (seen k).jobs)
    → all_pages (suc (length (root_jobs m))) limit "" seen ≡ some (root_jobs m)
unfolding start_of
all_pages-eq-root_jobs limit m seen p small h apart s =
    pages_from (suc (length (root_jobs m))) limit "" [] (root_jobs m) seen
      (λ k. sym (root_jobs-Shuffled m (seen k) (s k) apart)) (root_jobs-AreDistinct m h) p
      (omega arith) small refl
