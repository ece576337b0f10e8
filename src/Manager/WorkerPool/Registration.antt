-- ===== src/Manager/WorkerPool/Registration.antt =====
-- manager/worker_pool.go: what connecting and leaving do to the indices of the pool.
use workforce.Prelude.{
  ◌≡◌, ◌≢◌, ap, ◌∙◌, String, true, false, none, some, List, [], ◌∷◌, ◌++◌, inl, inr, arith, ◌==◌,
  nat_eq, string_eq, Option-cases, Bool-cases, eq_iff,
}
use workforce.Prelude.Dict.{lookup, lookup-insert, lookup-delete}
use workforce.Manager.WorkerConn.{SimpleSet, WorkerConn}
use workforce.Manager.WorkerPool.{
  Ref, WorkerPool, remove_first, listed, key_of, remove_conn_locked, requeue, replace, enter,
  register, unregister, get_worker, write, close,
}
use workforce.Manager.WorkerPool.Index.{
  member, IsIndexed, requeue-IsIndexed, enter-IsIndexed, remove_conn_locked-IsIndexed,
  replace-IsIndexed, lookup-replace, conns-requeue, find_conn-cases, listed-insert, member-append,
  member-remove_first,
}

apart_of : (q r : Ref) → some q ≢ some r → (q == r) ≡ false
apart_of q r h = elim (Bool-cases (q == r)) [
  | inl e ↦ let same : q ≡ r = ground arith in absurd (h (ap (λ k. some k) same))
  | inr e ↦ e
]

module _ (S : SimpleSet) where
  -- `register` of a connection that is not the one found under its identifier keeps each worker
  -- that is found by its identifier listed under its platform.
  pub register-IsIndexed :
      (r : Ref) (w : WorkerConn S) (p : WorkerPool S)
      → lookup r p.conns ≡ some w
      → lookup w.worker_id p.workers ≢ some r
      → IsIndexed S p
      → IsIndexed S (register S r w p)
  unfolding register
  register-IsIndexed r w p c new h = elim (find_conn-cases S w.worker_id p) [
    | inl e ↦ rw (e, register) (enter-IsIndexed S r w p c h)
    | inr (q, old, e, f, t) ↦
        let apart = apart_of q r (λ s. new (f ∙ s)) in
        rw (e, register)
          (enter-IsIndexed S r w _ (lookup-replace S q r old p apart ∙ c)
            (replace-IsIndexed S q old p t h))
  ]

  -- `unregister` keeps each worker that is found by its identifier listed under its platform.
  pub unregister-IsIndexed :
      (r : Ref) (p : WorkerPool S) → IsIndexed S p → IsIndexed S (unregister S r p)
  unfolding unregister
  unregister-IsIndexed r p h = elim (Option-cases (lookup r p.conns)) [
    | inl e ↦ rw (e, unregister) h
    | inr (w, e) ↦
        rw (e, unregister) (requeue-IsIndexed S _ _ (remove_conn_locked-IsIndexed S r w p e h))
  ]

  workers-requeue : (ids : List String) (p : WorkerPool S) → (requeue S ids p).workers ≡ p.workers
  unfolding requeue
  workers-requeue ids p = ground arith

  platform-requeue :
      (ids : List String) (p : WorkerPool S) → (requeue S ids p).platform ≡ p.platform
  unfolding requeue
  platform-requeue ids p = ground arith

  -- Where the old connection is after `replace`.
  lookup-replaced :
      (q : Ref) (old : WorkerConn S) (p : WorkerPool S)
      → lookup q p.conns ≡ some old
      → lookup q (replace S q old p).conns ≡ some (close S old)
  unfolding replace write remove_conn_locked
  lookup-replaced q old p c =
      ap (lookup q) (
        conns-requeue S (S.snapshot old.in_flight)
          (write S q (close S) (remove_conn_locked S q old p)))
      ∙ rw (c, write) (ground (arith, lookup-insert q q (close S old) p.conns))

  -- `unregister` of another connection with the identifier of a new one.
  unregister_entered :
      (q r : Ref) (o w : WorkerConn S) (p : WorkerPool S)
      → (q == r) ≡ false
      → lookup q p.conns ≡ some o
      → o.worker_id ≡ w.worker_id
      → let p' = unregister S q (enter S r w p) in
        (get_worker S w.worker_id (enter S r w p) ≡ some r)
        × (get_worker S w.worker_id p' ≡ none)
        × (member r (listed S (key_of S w) p') ≡ true)
  unfolding unregister enter remove_conn_locked get_worker
  unregister_entered q r o w p apart c same =
      let ids = S.snapshot o.in_flight in
      let entered = enter S r w p in
      let left = remove_conn_locked S q o entered in
      let new = lookup-insert w.worker_id w.worker_id r p.workers in
      let gone = lookup-delete o.worker_id w.worker_id entered.workers in
      let refs = listed S (key_of S w) p ++ r ∷ [] in
      let before = listed-insert S (key_of S w) (key_of S o) refs p in
      let after =
        listed-insert S (key_of S o) (key_of S w) (remove_first q (listed S (key_of S o) entered))
          entered in
      let here = listed-insert S (key_of S w) (key_of S w) refs p in
      let kept = member-remove_first r q (listed S (key_of S o) entered) apart in
      let last = member-append r (listed S (key_of S w) p) (r ∷ []) in
      (
        ground (arith, new, eq_iff w.worker_id w.worker_id),
        rw (c, unregister)
            (rw (workers-requeue ids left)
              (ground (arith, gone, same, eq_iff o.worker_id w.worker_id))),
        rw (c, unregister)
            (rw (platform-requeue ids left) (
              ground (
                arith,
                after,
                before,
                here,
                kept,
                last,
                eq_iff (key_of S w) (key_of S w),
                eq_iff (key_of S o) (key_of S w),
              ))),
      )

  -- A worker connects again under its identifier, at `r`, and then the server of its old
  -- connection, at `q`, unregisters that: the new connection is no longer found under the
  -- identifier, while its platform still lists it.
  pub unregister-register_again :
      (q r : Ref) (old w : WorkerConn S) (p : WorkerPool S)
      → (q == r) ≡ false
      → lookup w.worker_id p.workers ≡ some q
      → lookup q p.conns ≡ some old
      → old.worker_id ≡ w.worker_id
      → let p' = unregister S q (register S r w p) in
        (get_worker S w.worker_id (register S r w p) ≡ some r)
        × (get_worker S w.worker_id p' ≡ none)
        × (member r (listed S (key_of S w) p') ≡ true)
  unfolding register
  unregister-register_again q r old w p apart f c same =
      rw (f, register)
        (rw (c, register)
          (unregister_entered q r (close S old) w (replace S q old p) apart
            (lookup-replaced q old p c) same))
