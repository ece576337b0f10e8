-- ===== src/FileStore/Views.antt =====
-- What the maps of the store show, and what the operations of the journal do to it: replaying them a
-- second time changes nothing.
use workforce.Prelude.{
  ◌≡◌, refl, ◌∙◌, String, Option, none, some, List, [], ◌∷◌, ◌++◌, if◌then◌else◌, ◌==◌, string_eq,
  ap, inl, inr, Bool-cases,
}
use workforce.Prelude.Int.{ℤ}
use workforce.Contract.Job.{Job, Time}
use workforce.Contract.Task.{Task, JobRun}
use workforce.Store.{WebhookEntry}

-- The operations, by the values that a replay stores.
pub data Logged : Type 0 where
  put_job : Job → Logged
  put_task : Task → Logged
  drop_task : String → Logged
  put_webhook : WebhookEntry → Logged
  drop_webhook : String → Logged
  nack : String → ℤ → Time → Logged
  put_run : JobRun → Logged

pub record View : Type 0 where
  pub jobs : String → Option Job
  pub tasks : String → Option Task
  pub webhooks : String → Option WebhookEntry
  pub runs : String → Option JobRun

pub eq_of_lookups :
    (v w : View)
    → ((k : String) → v.jobs k ≡ w.jobs k)
    → ((k : String) → v.tasks k ≡ w.tasks k)
    → ((k : String) → v.webhooks k ≡ w.webhooks k)
    → ((k : String) → v.runs k ≡ w.runs k)
    → v ≡ w
eq_of_lookups v w p q r t =
    λ i. record { jobs = λ k. p k i; tasks = λ k. q k i; webhooks = λ k. r k i; runs = λ k. t k i }

abbrev pub mapped {ℓ} : {A : Type ℓ} → (A → A) → Option A → Option A
mapped f none = none
mapped f (some a) = some (f a)

-- What one operation does to one key.
pub data Change (V : Type 0) : Type 0 where
  same : Change V
  become : Option V → Change V
  edit : ℤ → Time → Change V

module _ {V : Type 0} (nacked : ℤ → Time → V → V) where
  abbrev pub run : Change V → Option V → Option V
  run same o = o
  run (become p) o = p
  run (edit a t) o = mapped (nacked a t) o

  abbrev combine : Change V → Change V → Change V
  combine c same = c
  combine c (become p) = become p
  combine same (edit a t) = edit a t
  combine (become p) (edit a t) = become (mapped (nacked a t) p)
  combine (edit b u) (edit a t) = edit a t

  -- A list of operations at one key.
  module _ {Op : Type 0} (change : Op → Change V) where
    abbrev run_all : List Op → Option V → Option V
    run_all [] o = o
    run_all (e ∷ es) o = run_all es (run (change e) o)

    net : Change V → List Op → Change V
    net c [] = c
    net c (e ∷ es) = net (combine c (change e)) es

  module _ (again : (a b : ℤ) (t u : Time) (v : V) → nacked a t (nacked b u v) ≡ nacked a t v) where
    run-combine : (c d : Change V) (o : Option V) → run d (run c o) ≡ run (combine c d) o
    run-combine c same o = refl
    run-combine c (become p) o = refl
    run-combine same (edit a t) o = refl
    run-combine (become p) (edit a t) o = refl
    run-combine (edit b u) (edit a t) none = refl
    run-combine (edit b u) (edit a t) (some v) = ap some (again a b t u v)

    run_twice : (c : Change V) (o : Option V) → run c (run c o) ≡ run c o
    run_twice same o = refl
    run_twice (become p) o = refl
    run_twice (edit a t) none = refl
    run_twice (edit a t) (some v) = ap some (again a a t t v)

    module _ {Op : Type 0} (change : Op → Change V) where
      run_all-net :
          (c : Change V) (es : List Op) (o : Option V)
          → run_all change es (run c o) ≡ run (net change c es) o
      unfolding net
      run_all-net c [] o = refl
      run_all-net c (e ∷ es) o =
          ap (run_all change es) (run-combine c (change e) o)
          ∙ run_all-net (combine c (change e)) es o

      run_all_twice :
          (es : List Op) (o : Option V)
          → run_all change es (run_all change es o) ≡ run_all change es o
      run_all_twice es o =
          rw (run_all-net same es o) (run_all-net same es _ ∙ run_twice (net change same es) o)

abbrev pub nacked : ℤ → Time → WebhookEntry → WebhookEntry
nacked a t e = record e { attempts = a; next_attempt_at = t }

abbrev pub unchanged : {A : Type 0} → ℤ → Time → A → A
unchanged a t v = v

abbrev pub at_key : {V : Type 0} → String → String → Change V → Change V
at_key k j c = if k == j then c else same

abbrev pub job_change : String → Logged → Change Job
job_change k (put_job j) = at_key j.id k (become (some j))
job_change k _ = same

abbrev pub task_change : String → Logged → Change Task
task_change k (put_task t) = at_key t.name k (become (some t))
task_change k (drop_task name) = at_key name k (become none)
task_change k _ = same

abbrev pub webhook_change : String → Logged → Change WebhookEntry
webhook_change k (put_webhook e) = at_key e.id k (become (some e))
webhook_change k (drop_webhook id) = at_key id k (become none)
webhook_change k (nack id a t) = at_key id k (edit a t)
webhook_change k _ = same

abbrev pub run_change : String → Logged → Change JobRun
run_change k (put_run r) = at_key r.id k (become (some r))
run_change k _ = same

-- One operation, and some in order.
unfoldable pub act : Logged → View → View
act e v = record {
  jobs = λ k. run unchanged (job_change k e) (v.jobs k);
  tasks = λ k. run unchanged (task_change k e) (v.tasks k);
  webhooks = λ k. run nacked (webhook_change k e) (v.webhooks k);
  runs = λ k. run unchanged (run_change k e) (v.runs k);
}

unfoldable pub acts : List Logged → View → View
acts [] v = v
acts (e ∷ es) v = acts es (act e v)

pub acts-append : (es fs : List Logged) (v : View) → acts (es ++ fs) v ≡ acts fs (acts es v)
unfolding acts
acts-append [] fs v = refl
acts-append (e ∷ es) fs v = acts-append es fs (act e v)

-- One of the four maps, by what an operation does to a key of it.
module _ {V : Type 0} (get : View → String → Option V) (nacked : ℤ → Time → V → V)
    (again : (a b : ℤ) (t u : Time) (v : V) → nacked a t (nacked b u v) ≡ nacked a t v)
    (change : String → Logged → Change V)
    (step : (e : Logged) (v : View) (k : String)
      → get (act e v) k ≡ run nacked (change k e) (get v k)) where
  get-acts :
      (es : List Logged) (v : View) (k : String)
      → get (acts es v) k ≡ run_all nacked (change k) es (get v k)
  unfolding acts
  get-acts [] v k = refl
  get-acts (e ∷ es) v k = get-acts es (act e v) k ∙ ap (run_all nacked (change k) es) (step e v k)

  get_twice :
      (es : List Logged) (v : View) (k : String) → get (acts es (acts es v)) k ≡ get (acts es v) k
  get_twice es v k =
      rw (get-acts es (acts es v) k, get-acts es v k)
        (run_all_twice nacked again (change k) es (get v k))

-- Replaying operations on what they lead to changes nothing.
pub acts_twice : (es : List Logged) (v : View) → acts es (acts es v) ≡ acts es v
unfolding act
acts_twice es v =
    eq_of_lookups _ _
      (get_twice (λ v. v.jobs) unchanged (λ a b t u j. refl) job_change (λ e v k. refl) es v)
      (get_twice (λ v. v.tasks) unchanged (λ a b t u x. refl) task_change (λ e v k. refl) es v)
      (get_twice (λ v. v.webhooks) nacked (λ a b t u w. refl) webhook_change (λ e v k. refl) es v)
      (get_twice (λ v. v.runs) unchanged (λ a b t u r. refl) run_change (λ e v k. refl) es v)

-- What an operation on one key does to a key.
pub run-at_key :
    {V : Type 0} (f : ℤ → Time → V → V) (i k : String) (c : Change V) (o : Option V)
    → run f (at_key i k c) o ≡ (if i == k then run f c o else o)
run-at_key f i k c o = elim (Bool-cases (i == k)) [ inl t ↦ rw t refl | inr t ↦ rw t refl ]
