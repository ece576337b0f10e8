-- ===== src/Manager/WorkerPool/Index.antt =====
-- manager/worker_pool.go, `register` and `unregister`: the two indices of the pool.
use workforce.Prelude.{
  ◌≡◌, refl, sym, ap, ◌∙◌, String, Bool, true, false, ◌||◌, none, some, List, [], ◌∷◌, ◌++◌, ◌⊎◌,
  inl, inr, arith, leb, length, if◌then◌else◌, ◌==◌, nat_eq, string_eq, Option-cases, Bool-cases,
  eq_iff,
}
use workforce.Prelude.Dict.{lookup, insert, lookup-insert, lookup-delete}
use workforce.Manager.WorkerConn.{SimpleSet, WorkerConn}
use workforce.Manager.WorkerPool.{
  Ref, WorkerPool, remove_first, listed, key_of, write, remove_conn_locked, requeue, close, replace,
  enter, find_conn,
}

abbrev pub member : Ref → List Ref → Bool
member r [] = false
member r (q ∷ qs) = q == r || member r qs

pub member-append :
    (r : Ref) (xs ys : List Ref) → member r (xs ++ ys) ≡ (member r xs || member r ys)
member-append r [] ys = refl
member-append r (x ∷ xs) ys = ground (arith, member-append r xs ys)

pub member-remove_first :
    (r q : Ref) (xs : List Ref) → (q == r) ≡ false → member r (remove_first q xs) ≡ member r xs
unfolding remove_first
member-remove_first r q [] h = refl
member-remove_first r q (x ∷ xs) h = ground (arith, member-remove_first r q xs h)

module _ (S : SimpleSet) where
  -- Where a pointer in the first index leads to, and that the second one lists it.
  pub record IsEntry (id : String) (r : Ref) (p : WorkerPool S) : Type 0 where
    pub conn : WorkerConn S
    pub points : lookup r p.conns ≡ some conn
    pub name : conn.worker_id ≡ id
    pub is_listed : member r (listed S (key_of S conn) p) ≡ true

  -- Each worker that is found by its identifier is listed under its platform.
  pub record IsIndexed (p : WorkerPool S) : Type 0 where
    pub entries : (id : String) (r : Ref) → lookup id p.workers ≡ some r → IsEntry id r p

  pub requeue-IsIndexed :
      (ids : List String) (p : WorkerPool S) → IsIndexed p → IsIndexed (requeue S ids p)
  unfolding requeue
  requeue-IsIndexed ids p h = elim (Bool-cases (leb 1 (length ids))) [
    | inl e ↦ rw e (record {
      entries = λ id r f.
          let d = h.entries id r f in
          record { conn = d.conn; points = d.points; name = d.name; is_listed = d.is_listed };
    })
    | inr e ↦ rw e h
  ]

  pub listed-insert :
      (key j : String) (refs : List Ref) (p : WorkerPool S)
      → listed S j (record p { platform = insert key refs p.platform })
        ≡ (if key == j then refs else listed S j p)
  listed-insert key j refs p = ground (arith, lookup-insert key j refs p.platform)

  pub enter-IsIndexed :
      (r : Ref) (w : WorkerConn S) (p : WorkerPool S)
      → lookup r p.conns ≡ some w
      → IsIndexed p
      → IsIndexed (enter S r w p)
  unfolding enter
  enter-IsIndexed r w p c h = record {
    entries = λ id q f. elim (Bool-cases (w.worker_id == id)) [
      | inl e ↦
          let found = lookup-insert w.worker_id id r p.workers in
          let same : r ≡ q = ground (arith, found, f, e) in
          let there =
            listed-insert (key_of S w) (key_of S w) (listed S (key_of S w) p ++ r ∷ []) p in
          record {
            conn = w;
            points = rw (sym same) c;
            name = (eq_iff w.worker_id id).0 e;
            is_listed = ground (
              arith,
              same,
              there,
              eq_iff (key_of S w) (key_of S w),
              member-append q (listed S (key_of S w) p) (r ∷ []),
            );
          }
      | inr e ↦
          let found = lookup-insert w.worker_id id r p.workers in
          let d = h.entries id q (ground (arith, found, f, e)) in
          let there =
            listed-insert (key_of S w) (key_of S d.conn) (listed S (key_of S w) p ++ r ∷ []) p in
          record {
            conn = d.conn;
            points = d.points;
            name = d.name;
            is_listed = ground (
              arith,
              there,
              d.is_listed,
              eq_iff (key_of S w) (key_of S d.conn),
              member-append q (listed S (key_of S w) p) (r ∷ []),
            );
          }
    ];
  }

  pub remove_conn_locked-IsIndexed :
      (q : Ref) (w : WorkerConn S) (p : WorkerPool S)
      → lookup q p.conns ≡ some w
      → IsIndexed p
      → IsIndexed (remove_conn_locked S q w p)
  unfolding remove_conn_locked
  remove_conn_locked-IsIndexed q w p c h = record {
    entries = λ id r f.
        let found = lookup-delete w.worker_id id p.workers in
        let other : (w.worker_id == id) ≡ false = ground (arith, found, f) in
        let d = h.entries id r (ground (arith, found, f)) in
        let apart : (q == r) ≡ false = apart_lem q r w d.conn id c d.points d.name other in
        let there =
          listed-insert (key_of S w) (key_of S d.conn) (remove_first q (listed S (key_of S w) p))
            p in
        let kept = member-remove_first r q (listed S (key_of S w) p) apart in
        record {
          conn = d.conn;
          points = d.points;
          name = d.name;
          is_listed =
              ground (arith, there, d.is_listed, kept, eq_iff (key_of S w) (key_of S d.conn));
        };
  }
    where
      apart_lem :
          (q r : Ref) (w v : WorkerConn S) (id : String)
          → lookup q p.conns ≡ some w
          → lookup r p.conns ≡ some v
          → v.worker_id ≡ id
          → (w.worker_id == id) ≡ false
          → (q == r) ≡ false
      apart_lem q r w v id c d n o = elim (Bool-cases (q == r)) [
        | inl e ↦
            let same : q ≡ r = ground arith in
            let c' : lookup r p.conns ≡ some w = rw same at c in
            absurd (ground (arith, c', d, n, o, eq_iff w.worker_id id))
        | inr e ↦ e
      ]

  write-close-IsIndexed :
      (q : Ref) (p : WorkerPool S) → IsIndexed p → IsIndexed (write S q (close S) p)
  unfolding write
  write-close-IsIndexed q p h = elim (Option-cases (lookup q p.conns)) [
    | inl e ↦ rw (e, write) h
    | inr (w, e) ↦
        rw (e, write)
          (record {
            entries = λ id r f.
                let d = h.entries id r f in
                let found = lookup-insert q r (close S w) p.conns in
                elim (Bool-cases (q == r)) [
                  | inl t ↦
                      let same : q ≡ r = ground arith in
                      let e' : lookup r p.conns ≡ some w = rw same at e in
                      let equal : d.conn ≡ w = ground (arith, e', d.points) in
                      record {
                        conn = close S w;
                        points = ground (arith, found, t);
                        name = ap (λ v. v.worker_id) (sym equal) ∙ d.name;
                        is_listed = rw equal at d.is_listed;
                      }
                  | inr t ↦ record {
                    conn = d.conn;
                    points = ground (arith, found, t, d.points);
                    name = d.name;
                    is_listed = d.is_listed;
                  }
                ];
          })
  ]

  pub replace-IsIndexed :
      (q : Ref) (old : WorkerConn S) (p : WorkerPool S)
      → lookup q p.conns ≡ some old
      → IsIndexed p
      → IsIndexed (replace S q old p)
  unfolding replace
  replace-IsIndexed q old p c h =
      requeue-IsIndexed _ _ (write-close-IsIndexed q _ (remove_conn_locked-IsIndexed q old p c h))

  pub conns-requeue : (ids : List String) (p : WorkerPool S) → (requeue S ids p).conns ≡ p.conns
  unfolding requeue
  conns-requeue ids p = ground arith

  -- Another pointer leads where it led.
  pub lookup-replace :
      (q r : Ref) (old : WorkerConn S) (p : WorkerPool S)
      → (q == r) ≡ false
      → lookup r (replace S q old p).conns ≡ lookup r p.conns
  unfolding replace write remove_conn_locked
  lookup-replace q r old p apart =
      ap (lookup r) (
        conns-requeue (S.snapshot old.in_flight)
          (write S q (close S) (remove_conn_locked S q old p)))
      ∙ elim (Option-cases (lookup q p.conns)) [
        | inl e ↦ rw (e, write) refl
        | inr (w, e) ↦ rw (e, write) (ground (arith, lookup-insert q r (close S w) p.conns, apart))
      ]

  -- What `register` finds under the identifier.
  pub find_conn-cases :
      (id : String) (p : WorkerPool S)
      → (find_conn S id p ≡ none)
        ⊎ ((q : Ref) × (old : WorkerConn S) × (find_conn S id p ≡ some (q, old))
            × (lookup id p.workers ≡ some q)
            × (lookup q p.conns ≡ some old))
  find_conn-cases id p = elim (Option-cases (lookup id p.workers)) [
    | inl e ↦ inl (rw (e, find_conn) refl)
    | inr (q, e) ↦ elim (Option-cases (lookup q p.conns)) [
      | inl t ↦ inl (rw (e, find_conn) (rw (t, find_conn) refl))
      | inr (old, t) ↦ inr (q, old, rw (e, find_conn) (rw (t, find_conn) refl), e, t)
    ]
  ]
