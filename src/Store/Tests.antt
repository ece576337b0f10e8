-- ===== src/Store/Tests.antt =====
-- manager/store/memstore.go: a listing of three root jobs in pages of two.
use workforce.Prelude.{
  ℕ, String, zero, ◌==◌, suc, ◌≡◌, refl, some, [], ◌∷◌, arith, length, string_eq,
}
use workforce.Prelude.Dict.{Dict, insert, delete}
use workforce.Contract.Job.{Job, zero_job, pending, status_eq}
use workforce.Store.{
  select, list_pending_jobs, list_child_jobs, MemStore, new_mem_store, save_job, update_job,
  root_jobs, sort_slice, insert_sorted, newer, list_jobs, page_of, start_of, place_after, last_id,
  with_cursor,
}
use workforce.Store.Listing.Keys.{IsKeyed, save_job-IsKeyed, update_job-IsKeyed}
use workforce.Store.Listing.Order.{
  IsListing, more_urgent, older, root_jobs-IsListing, list_pending_jobs-IsListing,
  list_child_jobs-IsListing,
}
use workforce.Store.Listing.Shuffles.{Shuffled, same, exchange, AreApart}
use workforce.Store.Listing.Pages.{all_pages, all_pages-eq-root_jobs}

abbrev old : Job
old = record zero_job { id = "a"; created_at = 10 }

abbrev middle : Job
middle = record zero_job { id = "b"; created_at = 20 }

abbrev recent : Job
recent = record zero_job { id = "c"; created_at = 30 }

abbrev exchanged : Dict String Job → Dict String Job
exchanged [] = []
exchanged (a ∷ []) = a ∷ []
exchanged (a ∷ b ∷ m) = b ∷ a ∷ m

abbrev child : Job
child = record zero_job { id = "d"; parent_job_id = "a"; created_at = 25 }

abbrev store : MemStore
store = save_job middle (save_job child (save_job recent (save_job old new_mem_store)))

listing : root_jobs store ≡ recent ∷ middle ∷ old ∷ []
unfolding root_jobs sort_slice insert_sorted newer save_job new_mem_store insert delete
listing = refl

first_page : list_jobs "" 2 store ≡ some (recent ∷ middle ∷ [], "b")
unfolding list_jobs page_of start_of place_after last_id with_cursor root_jobs sort_slice
    insert_sorted newer save_job new_mem_store insert delete
first_page = refl

store-IsKeyed : IsKeyed store
unfolding save_job new_mem_store insert delete
store-IsKeyed = record {
  jobs = (
    refl,
    refl,
    (refl, (refl, (refl, tt))),
    (refl, refl, (refl, (refl, tt)), (refl, refl, (refl, tt), (refl, refl, tt, tt))),
  );
}

save_job-IsKeyed_example : IsKeyed (save_job child store)
save_job-IsKeyed_example = save_job-IsKeyed child store refl store-IsKeyed

update_job-IsKeyed_example : IsKeyed (update_job "b" (λ j. record j { created_at = 40 }) store).1
update_job-IsKeyed_example =
    update_job-IsKeyed "b" (λ j. record j { created_at = 40 }) store (λ j. refl) store-IsKeyed

-- The map as it was filled, and in another order in every second call.
abbrev ranged : ℕ → MemStore
ranged zero = store
ranged (suc zero) = record store { jobs = exchanged store.jobs }
ranged (suc (suc k)) = ranged k

ranged-Shuffled : (k : ℕ) → Shuffled store.jobs (ranged k).jobs
unfolding save_job new_mem_store insert delete
ranged-Shuffled zero = same _
ranged-Shuffled (suc zero) = exchange _ _ _
ranged-Shuffled (suc (suc k)) = ranged-Shuffled k

store-AreApart : AreApart (select (λ j. j.parent_job_id == "") store.jobs)
unfolding save_job new_mem_store insert delete
store-AreApart = ((refl, (refl, tt)), ((refl, tt), (tt, tt)))

root_jobs-store : length (root_jobs store) ≡ 3
unfolding root_jobs sort_slice insert_sorted newer save_job new_mem_store insert delete
root_jobs-store = refl

all_pages-eq-root_jobs_example :
    all_pages (suc (length (root_jobs store))) 2 "" ranged ≡ some (root_jobs store)
all_pages-eq-root_jobs_example =
    all_pages-eq-root_jobs 2 store ranged (ground arith) (omega (arith, root_jobs-store))
      store-IsKeyed store-AreApart ranged-Shuffled

root_jobs-IsListing_example :
    IsListing newer (λ j. j.parent_job_id == "") store.jobs (root_jobs store)
root_jobs-IsListing_example = root_jobs-IsListing store

list_pending_jobs-IsListing_example :
    IsListing more_urgent (λ j. j.status == pending) store.jobs (list_pending_jobs store)
list_pending_jobs-IsListing_example = list_pending_jobs-IsListing store

list_child_jobs-IsListing_example :
    IsListing older (λ j. j.parent_job_id == "a") store.jobs (list_child_jobs "a" store)
list_child_jobs-IsListing_example = list_child_jobs-IsListing "a" store
