-- ===== src/FileStore/Changes.antt =====
-- What the operations of the memory store do to its views, and what JSON does to that.
use workforce.Prelude.{
  ◌≡◌, refl, sym, ap, ◌∙◌, inl, inr, String, Option, none, some, ◌==◌, string_eq, eq_iff,
  Bool-cases, Option-cases,
}
use workforce.Prelude.Int.{ℤ}
use workforce.Prelude.Dict.{Dict, lookup, insert, delete, lookup-insert, lookup-delete}
use workforce.Contract.Job.{Job, Time}
use workforce.Contract.Task.{Task, JobRun}
use workforce.Contract.JsonOrBytes.{JsonText}
use workforce.Store.{
  MemStore, WebhookEntry, save_job, save_task, create_run, enqueue_webhook, ack_webhook,
  nack_webhook,
}
use workforce.FileStore.Views.{
  View, Logged, put_job, put_task, drop_task, put_webhook, drop_webhook, nack, put_run, act, mapped,
  nacked, unchanged, eq_of_lookups, run-at_key, same, become, edit, at_key, run, Change,
}
use workforce.FileStore.Loading.{view, kept_view, kept_job, kept_run, kept_webhook}

abbrev pub kept_logged : JsonText → Logged → Logged
kept_logged T (put_job j) = put_job (kept_job T j)
kept_logged T (put_webhook e) = put_webhook (kept_webhook T e)
kept_logged T (put_run r) = put_run (kept_run T r)
kept_logged T (put_task t) = put_task t
kept_logged T (drop_task name) = drop_task name
kept_logged T (drop_webhook id) = drop_webhook id
kept_logged T (nack id a t) = nack id a t

-- A change of one key, before and after JSON.
module _ {V : Type 0} (kept : V → V) (f : ℤ → Time → V → V)
    (commutes : (a : ℤ) (t : Time) (v : V) → kept (f a t v) ≡ f a t (kept v)) where
  abbrev kept_change : Change V → Change V
  kept_change same = same
  kept_change (become o) = become (mapped kept o)
  kept_change (edit a t) = edit a t

  mapped-run :
      (c : Change V) (o : Option V)
      → mapped kept (run f c o) ≡ run f (kept_change c) (mapped kept o)
  mapped-run same o = refl
  mapped-run (become p) o = refl
  mapped-run (edit a t) none = refl
  mapped-run (edit a t) (some v) = ap some (commutes a t v)

  mapped-at_key :
      (i : String) (c : Change V) (o : Option V) (k : String)
      → mapped kept (run f (at_key i k c) o) ≡ run f (at_key i k (kept_change c)) (mapped kept o)
  mapped-at_key i c o k = elim (Bool-cases (i == k)) [
    | inl t ↦ rw t (mapped-run c o)
    | inr t ↦ rw t refl
  ]

pub kept_view-act :
    (T : JsonText) (e : Logged) (v : View)
    → kept_view T (act e v) ≡ act (kept_logged T e) (kept_view T v)
unfolding act
kept_view-act T (put_job j) v =
    eq_of_lookups _ _
      (λ k.
        mapped-at_key (kept_job T) unchanged (λ a t u. refl) j.id (become (some j)) (v.jobs k) k)
      (λ k. refl) (λ k. refl) (λ k. refl)
kept_view-act T (put_task t) v = refl
kept_view-act T (drop_task name) v = refl
kept_view-act T (put_webhook e) v =
    eq_of_lookups _ _ (λ k. refl) (λ k. refl)
      (λ k.
        mapped-at_key (kept_webhook T) nacked (λ a t u. refl) e.id (become (some e)) (v.webhooks k)
          k)
      (λ k. refl)
kept_view-act T (drop_webhook id) v =
    eq_of_lookups _ _ (λ k. refl) (λ k. refl)
      (λ k. mapped-at_key (kept_webhook T) nacked (λ a t u. refl) id (become none) (v.webhooks k) k)
      (λ k. refl)
kept_view-act T (nack id a t) v =
    eq_of_lookups _ _ (λ k. refl) (λ k. refl)
      (λ k. mapped-at_key (kept_webhook T) nacked (λ a t u. refl) id (edit a t) (v.webhooks k) k)
      (λ k. refl)
kept_view-act T (put_run r) v =
    eq_of_lookups _ _ (λ k. refl) (λ k. refl) (λ k. refl)
      (λ k.
        mapped-at_key (kept_run T) unchanged (λ a t u. refl) r.id (become (some r)) (v.runs k) k)

-- The operations of the memory store.
view_put :
    {V : Type 0} (i : String) (v : V) (d : Dict String V) (k : String)
    → lookup k (insert i v d) ≡ run unchanged (at_key i k (become (some v))) (lookup k d)
view_put i v d k =
    lookup-insert i k v d ∙ sym (run-at_key unchanged i k (become (some v)) (lookup k d))

view_drop :
    {V : Type 0} (i : String) (d : Dict String V) (k : String)
    → lookup k (delete i d) ≡ run unchanged (at_key i k (become none)) (lookup k d)
view_drop i d k = lookup-delete i k d ∙ sym (run-at_key unchanged i k (become none) (lookup k d))

pub view-save_job : (j : Job) (m : MemStore) → view (save_job j m) ≡ act (put_job j) (view m)
unfolding act save_job
view-save_job j m = eq_of_lookups _ _ (view_put j.id j m.jobs) (λ k. refl) (λ k. refl) (λ k. refl)

pub view-save_task : (t : Task) (m : MemStore) → view (save_task t m) ≡ act (put_task t) (view m)
unfolding act save_task
view-save_task t m =
    eq_of_lookups _ _ (λ k. refl) (view_put t.name t m.task_defs) (λ k. refl) (λ k. refl)

pub view-drop_task :
    (name : String) (m : MemStore)
    → view (record m { task_defs = delete name m.task_defs }) ≡ act (drop_task name) (view m)
unfolding act
view-drop_task name m =
    eq_of_lookups _ _ (λ k. refl) (view_drop name m.task_defs) (λ k. refl) (λ k. refl)

pub view-enqueue_webhook :
    (e : WebhookEntry) (m : MemStore) → view (enqueue_webhook e m) ≡ act (put_webhook e) (view m)
unfolding act enqueue_webhook
view-enqueue_webhook e m =
    eq_of_lookups _ _ (λ k. refl) (λ k. refl)
      (λ k.
        lookup-insert e.id k e m.webhooks
        ∙ sym (run-at_key nacked e.id k (become (some e)) (lookup k m.webhooks)))
      (λ k. refl)

pub view-ack_webhook :
    (id : String) (m : MemStore) → view (ack_webhook id m) ≡ act (drop_webhook id) (view m)
unfolding act ack_webhook
view-ack_webhook id m =
    eq_of_lookups _ _ (λ k. refl) (λ k. refl)
      (λ k.
        lookup-delete id k m.webhooks
        ∙ sym (run-at_key nacked id k (become none) (lookup k m.webhooks)))
      (λ k. refl)

pub view-create_run : (r : JobRun) (m : MemStore) → view (create_run r m) ≡ act (put_run r) (view m)
unfolding act create_run
view-create_run r m = eq_of_lookups _ _ (λ k. refl) (λ k. refl) (λ k. refl) (view_put r.id r m.runs)

-- A nack edits an entry where there is one.
pub view-nack_webhook :
    (id : String) (a : ℤ) (t : Time) (m : MemStore)
    → view (nack_webhook id a t m).1 ≡ act (nack id a t) (view m)
unfolding act nack_webhook
view-nack_webhook id a t m = elim (Option-cases (lookup id m.webhooks)) [
  | inl h ↦
      rw (h, nack_webhook)
        (eq_of_lookups _ _ (λ k. refl) (λ k. refl)
          (λ k. elim (Bool-cases (id == k)) [
            | inl e ↦
                let same : id ≡ k = (eq_iff id k).0 e in
                let h' : lookup k m.webhooks ≡ none = rw same at h in rw (e, h') refl
            | inr e ↦ rw e refl
          ])
          (λ k. refl))
  | inr (w, h) ↦
      rw (h, nack_webhook)
        (eq_of_lookups _ _ (λ k. refl) (λ k. refl)
          (λ k. lookup-insert id k (nacked a t w) m.webhooks ∙ elim (Bool-cases (id == k)) [
            | inl e ↦
                let same : id ≡ k = (eq_iff id k).0 e in
                let h' : lookup k m.webhooks ≡ some w = rw same at h in rw (e, h') refl
            | inr e ↦ rw e refl
          ])
          (λ k. refl))
]
